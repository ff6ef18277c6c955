-- ===== src/Dump/Lines.antt =====
-- What `dump_tree` of src/cb.c prints of a tree, read off its parts.
use crazy_snail.Common.{
  ℕ, ◌+◌, ◌<◌, ◌≡◌, ◌≢◌, refl, sym, ap, ◌∙◌, Option, none, some, List, [], ◌∷◌, ◌++◌, arith,
}
use mathlib.Core.List.{append_assoc}
use crazy_snail.Memory.{Ptr, null, Callback, Memory}
use crazy_snail.Queue.Cells.{Cells, count, count-append, Counted, Whole}
use crazy_snail.Tree.{Tree, empty, branch, left, right, Place}
use crazy_snail.Dump.{key_of, Line, node_line, callback_line, channel_line, total_line, child}

-- Every node, children first.
abbrev pub post_order : Place → Tree → List Line
post_order p empty = []
post_order p (branch n l r) =
    post_order (p ++ left ∷ []) l
    ++ (post_order (p ++ right ∷ []) r
        ++ node_line p (key_of n.key n.ikey) (child (p ++ left ∷ []) l) (child (p ++ right ∷ []) r)
            n.timer
          ∷ [])

-- The line of a callback, if it is there.
abbrev pub callback_of : Option Callback → List Line
callback_of none = []
callback_of (some k) = callback_line k.ref k.initialized k.nb_channel ∷ []

abbrev pub callbacks_at : Memory → Cells → List Line
callbacks_at m [] = []
callbacks_at m ((p, c) ∷ xs) = callback_of (m.callback c) ++ callbacks_at m xs

-- The lines of one kind, and the sum of the totals.
abbrev pub nodes_in : List Line → List Line
nodes_in [] = []
nodes_in (node_line p k l r d ∷ ls) = node_line p k l r d ∷ nodes_in ls
nodes_in (callback_line _ _ _ ∷ ls) = nodes_in ls
nodes_in (channel_line _ _ ∷ ls) = nodes_in ls
nodes_in (total_line _ ∷ ls) = nodes_in ls

abbrev pub callbacks_in : List Line → List Line
callbacks_in [] = []
callbacks_in (callback_line r i n ∷ ls) = callback_line r i n ∷ callbacks_in ls
callbacks_in (node_line _ _ _ _ _ ∷ ls) = callbacks_in ls
callbacks_in (channel_line _ _ ∷ ls) = callbacks_in ls
callbacks_in (total_line _ ∷ ls) = callbacks_in ls

abbrev pub total_of : List Line → ℕ
total_of [] = 0
total_of (total_line n ∷ ls) = n + total_of ls
total_of (node_line _ _ _ _ _ ∷ ls) = total_of ls
total_of (callback_line _ _ _ ∷ ls) = total_of ls
total_of (channel_line _ _ ∷ ls) = total_of ls

-- The lines tell the nodes, the callbacks of the cells in order, and how many these are.
pub record Tells (m : Memory) (ns : List Line) (xs : Cells) (n : ℕ) (ls : List Line) : Type 0 where
  pub nodes : nodes_in ls ≡ ns
  pub callbacks : callbacks_in ls ≡ callbacks_at m xs
  pub total : total_of ls ≡ n

-- The callbacks of the cells are there, with all their channels.
abbrev pub AllThere : Memory → Cells → Type 0
AllThere m xs =
    (c : Ptr) → 0 < count c xs → (k : Callback) × (c ≢ null) × (m.callback c ≡ some k) × Whole k

-- This is so where the reference counts are right.
pub Counted-AllThere : {m : Memory} (xs ys : Cells) → Counted m (xs ++ ys) → AllThere m xs
Counted-AllThere xs ys all c some_cells =
    let x = all c (omega (arith, count-append c xs ys)) in (x.at, x.ne_null, x.there, x.whole)

nodes_in-append : (as_ bs : List Line) → nodes_in (as_ ++ bs) ≡ nodes_in as_ ++ nodes_in bs
nodes_in-append [] bs = refl
nodes_in-append (node_line p k l r d ∷ as_) bs =
    ap (λ x. node_line p k l r d ∷ x) (nodes_in-append as_ bs)
nodes_in-append (callback_line _ _ _ ∷ as_) bs = nodes_in-append as_ bs
nodes_in-append (channel_line _ _ ∷ as_) bs = nodes_in-append as_ bs
nodes_in-append (total_line _ ∷ as_) bs = nodes_in-append as_ bs

callbacks_in-append :
    (as_ bs : List Line) → callbacks_in (as_ ++ bs) ≡ callbacks_in as_ ++ callbacks_in bs
callbacks_in-append [] bs = refl
callbacks_in-append (callback_line r i n ∷ as_) bs =
    ap (λ x. callback_line r i n ∷ x) (callbacks_in-append as_ bs)
callbacks_in-append (node_line _ _ _ _ _ ∷ as_) bs = callbacks_in-append as_ bs
callbacks_in-append (channel_line _ _ ∷ as_) bs = callbacks_in-append as_ bs
callbacks_in-append (total_line _ ∷ as_) bs = callbacks_in-append as_ bs

total_of-append : (as_ bs : List Line) → total_of (as_ ++ bs) ≡ total_of as_ + total_of bs
total_of-append [] bs = omega arith
total_of-append (total_line n ∷ as_) bs = omega (arith, total_of-append as_ bs)
total_of-append (node_line _ _ _ _ _ ∷ as_) bs = total_of-append as_ bs
total_of-append (callback_line _ _ _ ∷ as_) bs = total_of-append as_ bs
total_of-append (channel_line _ _ ∷ as_) bs = total_of-append as_ bs

callbacks_at-append :
    (m : Memory) (xs ys : Cells)
    → callbacks_at m (xs ++ ys) ≡ callbacks_at m xs ++ callbacks_at m ys
callbacks_at-append m [] ys = refl
callbacks_at-append m ((p, c) ∷ xs) ys =
    ap (λ ls. callback_of (m.callback c) ++ ls) (callbacks_at-append m xs ys)
    ∙ sym (append_assoc (callback_of (m.callback c)) (callbacks_at m xs) (callbacks_at m ys))

module _ {m : Memory} where
  pub Tells-append :
      {as_ bs ns ks : List Line} {xs ys : Cells} {i j : ℕ}
      → Tells m ns xs i as_
      → Tells m ks ys j bs
      → Tells m (ns ++ ks) (xs ++ ys) (i + j) (as_ ++ bs)
  Tells-append {as_} {bs} {xs} {ys} a b = record {
    nodes = nodes_in-append as_ bs ∙ cc (a.nodes, b.nodes);
    callbacks =
        callbacks_in-append as_ bs ∙ cc (a.callbacks, b.callbacks, callbacks_at-append m xs ys);
    total = omega (arith, a.total, b.total, total_of-append as_ bs);
  }
