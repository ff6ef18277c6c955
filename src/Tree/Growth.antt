-- ===== src/Tree/Growth.antt =====
-- `insert` of src/cb.c when `malloc` refuses nothing: the lists of the tree, and the node that the
-- name leads to.
use crazy_snail.Common.{
  ℕ, ◌⊎◌, pos, Ordering, suc, ◌≡◌, ◌≢◌, refl, ap, ◌∙◌, ◌≤◌, inl, inr, false, none, some, [], ◌∷◌,
  arith, Ordering-cases, Option-cases,
}
use mathlib.Core.List.{append-nil}
use crazy_snail.Text.{Bytes, c_str}
use crazy_snail.Memory.{Ptr, null, Memory, ok, malloc, strdup, and_then}
use crazy_snail.Callback.{snail_ok}
use crazy_snail.Queue.{no_ends}
use crazy_snail.Queue.Cells.{Cells, nil}
use crazy_snail.Tree.{
  Node, Tree, empty, branch, left, right, Place, node_at, insert, insert_new, insert_timer,
  insert_timer_new,
}
use crazy_snail.Tree.Shape.{
  Test, find, way, Ordered-graft, graft, planted, find-graft, find-graft_stable, node_at-graft,
  node_at-graft_stable, All-graft, find-test, graft_here, graft_left, graft_right,
}
use crazy_snail.Tree.Keys.{by_key, inserted, insert-find}
use crazy_snail.Tree.Names.{graft-IsSearchTree}
use crazy_snail.Tree.Timers
use crazy_snail.Tree.Timers.{by_period, by_own_period, insert_timer-find}
use crazy_snail.Tree.Relisted.{IsListed}
use crazy_snail.Tree.Orders.{Order, name_order, IsSound, period_order, IsSoundTimers}
use crazy_snail.Tree.Lookup.{by_key_self}
use crazy_snail.Tree.Destroy.{listed, Forest, bare, grove, frame_Forest}

-- A new node with an empty list brings no cell.
Forest-graft :
    {m : Memory} {t : Tree} {xs : Cells} (c : Test) (x : Node)
    → x.cb_list ≡ some no_ends
    → Forest m t xs
    → Forest m (graft c (branch x empty empty) t) xs
unfolding graft
Forest-graft {m} c x e bare =
    grove bare bare (rw e (listed (record { chain = nil; end = refl }))) (λ a i. refl) (λ a i. refl)
Forest-graft {m} c x e (grove {n} {l} {r} f g q p1 p2) = elim (Ordering-cases (c n)) [
  | inl h ↦ rw (graft_here c _ n l r h) (grove f g q p1 p2)
  | inr (inl h) ↦ rw (graft_left c _ n l r h) (grove (Forest-graft c x e f) g q p1 p2)
  | inr (inr h) ↦ rw (graft_right c _ n l r h) (grove f (Forest-graft c x e g) q p1 p2)
]

-- A search after the insertion ends where it did before, or at the new node.
find-graft_only :
    (c d : Test) (x : Node) (t : Tree) (p : Place)
    → find c t ≡ none
    → find d (graft c (branch x empty empty) t) ≡ some p
    → (find d t ≡ some p) ⊎ (p ≡ way c t)
unfolding find graft way
find-graft_only c d x empty [] absent e = inr refl
find-graft_only c d x empty (s ∷ p) absent e = absurd (ground arith)
find-graft_only c d x (branch n l r) [] absent e = ground arith
find-graft_only c d x (branch n l r) (left ∷ p) absent e = ground (arith, find-graft_only c d x l p)
find-graft_only c d x (branch n l r) (right ∷ p) absent e =
    ground (arith, find-graft_only c d x r p)

-- The new node.
abbrev planted_node : Bytes → Memory → Node
planted_node key m = record {
  key = some (c_str key);
  ikey = m.junk m.next 1;
  cb_list = some no_ends;
  timer = null;
}

insert_new-ok :
    (key : Bytes) (m : Memory)
    → m.next ≢ null
    → ((p : Ptr) → m.oom p ≡ false)
    → insert_new key m
      ≡ ok
          (snail_ok, branch (planted_node key m) empty empty, some [])
          (record m { next = suc (suc (suc m.next)) })
unfolding insert_new malloc strdup
insert_new-ok key m ne room =
    ground (arith, room m.next, room (suc m.next), room (suc (suc m.next)))

-- The tree after an insertion, with the same cells: the key leads to a node, and no other node has
-- changed.
pub record Inserted {K : Type 0} (O : Order K) (m : Memory) (t : Tree) (key : K) (xs : Cells)
    (t' : Tree) (p : Place) (k : Ptr) : Type 0 where
  pub grown : m.next ≤ k
  pub forest : Forest (record m { next = k }) t' xs
  pub sound : O.Sound t'
  pub leads : find (O.by key) t' ≡ some p
  pub node : Node
  pub at : node_at t' p ≡ some node
  pub stable :
      (other : K) (q : Place) (n : Node)
      → find (O.by other) t ≡ some q
      → node_at t q ≡ some n
      → (find (O.by other) t' ≡ some q) × (node_at t' q ≡ some n)
  -- What leads somewhere now led there before, or leads to the node of the key.
  pub only :
      (other : K) (q : Place)
      → find (O.by other) t' ≡ some q
      → (find (O.by other) t ≡ some q) ⊎ (q ≡ p)

module _ {K : Type 0} (O : Order K) {m : Memory} {t : Tree} {xs : Cells} (key : K)
    (f : Forest m t xs) where
  -- The tree had the key.
  Inserted-found :
      (p : Place) → O.Sound t → find (O.by key) t ≡ some p → Inserted O m t key xs t p m.next
  Inserted-found p h there =
      let (n, at, _) = find-test (O.by key) t p there in
      record {
        grown = omega arith;
        forest = f;
        sound = h;
        leads = there;
        node = n;
        at = at;
        stable = λ other q x led here. (led, here);
        only = λ other q led. inl led;
      }

  -- It gets a new node.
  Inserted-new :
      (x : Node) (k : Ptr)
      → m.next ≤ k
      → x.cb_list ≡ some no_ends
      → O.by key x ≡ Ordering.eq
      → find (O.by key) t ≡ none
      → O.Sound (graft (O.by key) (branch x empty empty) t)
      → Inserted O m t key xs (graft (O.by key) (branch x empty empty) t) (way (O.by key) t) k
  Inserted-new x k h e own absent sound = record {
    grown = h;
    forest = Forest-graft (O.by key) x e (frame_Forest f h (λ a i. refl));
    sound = sound;
    leads = find-graft (O.by key) x t own absent;
    node = x;
    at = node_at-graft (O.by key) x t absent;
    stable = λ other q n led at. (
      find-graft_stable (O.by key) (O.by other) _ t q led,
      node_at-graft_stable (O.by key) _ t q at,
    );
    only = λ other q led. find-graft_only (O.by key) (O.by other) x t q absent led;
  }

module _ {m : Memory} {t : Tree} {xs : Cells} (key : Bytes) (f : Forest m t xs) (h : IsSound t)
    (ne : m.next ≢ null) (room : (p : Ptr) → m.oom p ≡ false) where
  -- The tree with the new node.
  abbrev named : Tree
  named = graft (by_key key) (branch (planted_node key m) empty empty) t

  insert-absent :
      find (by_key key) t ≡ none
      → insert t key m
        ≡ ok
            (snail_ok, named, some (way (by_key key) t))
            (record m { next = suc (suc (suc m.next)) })
  insert-absent absent =
      insert-find t key m h.search.named
      ∙ ap (inserted t key m) absent
      ∙ ap (λ r. and_then r (λ x. ok (planted (by_key key) t x))) (insert_new-ok key m ne room)
      ∙ ap (λ w. ok (snail_ok, named, some w) (record m { next = suc (suc (suc m.next)) }))
          (append-nil (way (by_key key) t))

  pub insert-Inserted :
      (t' : Tree) × (p : Place) × (k : Ptr) × (insert t key m
        ≡ ok (snail_ok, t', some p) (record m { next = k }))
      × Inserted name_order m t key xs t' p k
  insert-Inserted = elim (Option-cases (find (by_key key) t)) [
    | inl absent ↦ (
      named,
      way (by_key key) t,
      suc (suc (suc m.next)),
      insert-absent absent,
      Inserted-new name_order key f (planted_node key m) _ (omega arith) refl
          (by_key_self key (planted_node key m) refl) absent
          (record {
            search = graft-IsSearchTree t key (planted_node key m) h.search refl;
            lists = All-graft IsListed (by_key key) (planted_node key m) t refl h.lists;
          }),
    )
    | inr (p, there) ↦ (
      t,
      p,
      m.next,
      insert-find t key m h.search.named ∙ ap (inserted t key m) there,
      Inserted-found name_order key f p h there,
    )
  ]

module _ {m : Memory} {t : Tree} {xs : Cells} (key : ℕ) (f : Forest m t xs) (h : IsSoundTimers t)
    (ne : m.next ≢ null) (room : (p : Ptr) → m.oom p ≡ false) where
  -- The new node, and the tree with it.
  abbrev timed_node : Node
  timed_node = record { key = none; ikey = key; cb_list = some no_ends; timer = null }

  abbrev timed : Tree
  timed = graft (by_period key) (branch timed_node empty empty) t

  insert_timer_new-ok :
      insert_timer_new key m
      ≡ ok (pos 2, branch timed_node empty empty, some []) (record m { next = suc (suc m.next) })
  unfolding insert_timer_new malloc
  insert_timer_new-ok = ground (arith, room m.next, room (suc m.next))

  insert_timer-absent :
      find (by_period key) t ≡ none
      → insert_timer t key m
        ≡ ok (pos 2, timed, some (way (by_period key) t)) (record m { next = suc (suc m.next) })
  insert_timer-absent absent =
      insert_timer-find t key m
      ∙ ap (Timers.inserted t key m) absent
      ∙ ap (λ r. and_then r (λ x. ok (planted (by_period key) t x))) insert_timer_new-ok
      ∙ ap (λ w. ok (pos 2, timed, some w) (record m { next = suc (suc m.next) }))
          (append-nil (way (by_period key) t))

  -- A period that the tree has changes nothing, and another gets a node.
  pub insert_timer-Inserted :
      ((p : Place) × (find (by_period key) t ≡ some p)
        × (insert_timer t key m ≡ ok (snail_ok, t, some p) m))
      ⊎ ((t' : Tree) × (p : Place) × (k : Ptr) × (find (by_period key) t ≡ none)
          × (insert_timer t key m ≡ ok (pos 2, t', some p) (record m { next = k }))
          × Inserted period_order m t key xs t' p k)
  insert_timer-Inserted = elim (Option-cases (find (by_period key) t)) [
    | inl absent ↦ inr (
      timed,
      way (by_period key) t,
      suc (suc m.next),
      absent,
      insert_timer-absent absent,
      Inserted-new period_order key f timed_node _ (omega arith) refl (ground arith) absent
          (record {
            order = Ordered-graft by_own_period timed_node t h.order;
            lists = All-graft IsListed (by_period key) timed_node t refl h.lists;
          }),
    )
    | inr (p, there) ↦
        inl (p, there, insert_timer-find t key m ∙ ap (Timers.inserted t key m) there)
  ]
