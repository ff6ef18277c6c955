-- ===== src/Tree/Keys.antt =====
-- `insert` and `search` of src/cb.c, by the place that a name leads to.
use crazy_snail.Common.{
  ◌≡◌, refl, sym, ◌↔◌, inl, inr, true, Option, none, some, ◌∷◌, arith, Ordering, Option-cases, ℤ,
  is_some,
}
use mathlib.Core.Option
use crazy_snail.Text.{Bytes, strlen, strncmp}
use crazy_snail.Memory.{Memory, Run, ok, abort, and_then}
use crazy_snail.Memory.Access.{and_then-map, and_then-map-map}
use crazy_snail.Callback.{snail_ok}
use crazy_snail.Tree.{
  Node, Tree, empty, branch, left, right, Place, in_left, in_right, insert, insert_new, search_key,
}
use crazy_snail.Tree.Shape.{Test, find, All, planted, planted_left, planted_right, planted_empty}

-- The comparison of `insert` and `search` at a node that has a name.
abbrev pub by_key : Bytes → Test
by_key key n = elim n.key [ none ↦ Ordering.eq | some k ↦ strncmp key k (strlen key) ]

abbrev pub IsNamed : Node → Type 0
IsNamed n = is_some n.key ≡ true

-- What `insert` does, by the result of a search.
abbrev pub inserted : Tree → Bytes → Memory → Option Place → Run (ℤ × Tree × Option Place)
inserted t key m none = and_then (insert_new key m) (λ r. ok (planted (by_key key) t r))
inserted t key m (some p) = ok (snail_ok, t, some p) m

module _ (n : Node) (l r : Tree) (key : Bytes) (m : Memory) where
  inserted_left :
      (o : Option Place)
      → by_key key n ≡ Ordering.lt
      → and_then (inserted l key m o) (λ x. ok (in_left n r x))
        ≡ inserted (branch n l r) key m (Option.map (λ p. left ∷ p) o)
  inserted_left none e =
      and_then-map-map (insert_new key m) (planted (by_key key) l) (in_left n r)
        (planted (by_key key) (branch n l r)) (λ x. planted_left (by_key key) n l r x e)
  inserted_left (some p) e = refl

  inserted_right :
      (o : Option Place)
      → by_key key n ≡ Ordering.gt
      → and_then (inserted r key m o) (λ x. ok (in_right n l x))
        ≡ inserted (branch n l r) key m (Option.map (λ p. right ∷ p) o)
  inserted_right none e =
      and_then-map-map (insert_new key m) (planted (by_key key) r) (in_right n l)
        (planted (by_key key) (branch n l r)) (λ x. planted_right (by_key key) n l r x e)
  inserted_right (some p) e = refl

  insert_branch :
      IsNamed n
      → insert l key m ≡ inserted l key m (find (by_key key) l)
      → insert r key m ≡ inserted r key m (find (by_key key) r)
      → insert (branch n l r) key m
        ≡ inserted (branch n l r) key m (find (by_key key) (branch n l r))
  unfolding insert find
  insert_branch named ihl ihr =
      ground (arith, inserted_left (find (by_key key) l), inserted_right (find (by_key key) r))

-- On a tree of named nodes `insert` returns the node that the key leads to, and changes nothing; if
-- there is none, it makes a node, or fails to, at the empty place where the search ends.
pub insert-find :
    (t : Tree) (key : Bytes) (m : Memory)
    → All IsNamed t
    → insert t key m ≡ inserted t key m (find (by_key key) t)
unfolding insert find
insert-find empty key m h =
    sym (and_then-map (insert_new key m) (planted (by_key key) empty) (planted_empty (by_key key)))
insert-find (branch n l r) key m h =
    insert_branch n l r key m h.0 (insert-find l key m h.1) (insert-find r key m h.2)

pub search_key-find :
    (t : Tree) (key : Bytes) (m : Memory)
    → All IsNamed t
    → search_key key t m ≡ elim (find (by_key key) t) [ some p ↦ ok p m | none ↦ abort ]
unfolding search_key find
search_key-find empty key m h = refl
search_key-find (branch n l r) key m h =
    ground (arith, search_key-find l key m h.1, search_key-find r key m h.2)

pub search_key_iff :
    (t : Tree) (key : Bytes) (m : Memory) (p : Place)
    → All IsNamed t
    → (search_key key t m ≡ ok p m) ↔ (find (by_key key) t ≡ some p)
search_key_iff t key m p h =
    let run = search_key-find t key m h in
    elim (Option-cases (find (by_key key) t)) [
      | inl e ↦ (λ s. ground (arith, run), λ f. ground (arith, run))
      | inr (q, e) ↦ (λ s. ground (arith, run), λ f. ground (arith, run))
    ]
