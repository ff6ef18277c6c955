-- ===== src/Tree/Timers.antt =====
-- `insert_timer` and `search_timer` of src/cb.c, on ordered trees of periods.
use crazy_snail.Common.{
  ℕ, ◌≡◌, refl, sym, subst, ◌↔◌, inl, inr, Option, none, some, [], ◌∷◌, arith, compare, Ordering,
  Bool-cases, ℤ, pos, ◌==◌,
}
use mathlib.Core.Option
use crazy_snail.Memory.{Memory, Run, ok, abort, null, and_then}
use crazy_snail.Memory.Access.{and_then-map, and_then-map-map}
use crazy_snail.Memory.Returns
use crazy_snail.Memory.Returns.{Returns, returns, malloc-Returns}
use crazy_snail.Callback.{snail_err, snail_ok}
use crazy_snail.Tree.{
  Node, Tree, empty, branch, left, right, Place, node_at, in_left, in_right, insert_timer,
  insert_timer_new, search_timer,
}
use crazy_snail.Tree.Shape.{
  Test, find, Ordered, planted, planted_left, planted_right, planted_empty, find_own, find-test,
}

-- The comparison of `insert_timer` and `search_timer` with a node.
abbrev pub by_period : ℕ → Test
by_period key n = compare key n.ikey

abbrev pub by_own_period : Node → Test
by_own_period x = by_period x.ikey

abbrev pub IsOrdered : Tree → Type 0
IsOrdered = Ordered by_own_period

abbrev pub inserted : Tree → ℕ → Memory → Option Place → Run (ℤ × Tree × Option Place)
inserted t key m none = and_then (insert_timer_new key m) (λ r. ok (planted (by_period key) t r))
inserted t key m (some p) = ok (snail_ok, t, some p) m

module _ (n : Node) (l r : Tree) (key : ℕ) (m : Memory) where
  inserted_left :
      (o : Option Place)
      → by_period key n ≡ Ordering.lt
      → and_then (inserted l key m o) (λ x. ok (in_left n r x))
        ≡ inserted (branch n l r) key m (Option.map (λ p. left ∷ p) o)
  inserted_left none e =
      and_then-map-map (insert_timer_new key m) (planted (by_period key) l) (in_left n r)
        (planted (by_period key) (branch n l r)) (λ x. planted_left (by_period key) n l r x e)
  inserted_left (some p) e = refl

  inserted_right :
      (o : Option Place)
      → by_period key n ≡ Ordering.gt
      → and_then (inserted r key m o) (λ x. ok (in_right n l x))
        ≡ inserted (branch n l r) key m (Option.map (λ p. right ∷ p) o)
  inserted_right none e =
      and_then-map-map (insert_timer_new key m) (planted (by_period key) r) (in_right n l)
        (planted (by_period key) (branch n l r)) (λ x. planted_right (by_period key) n l r x e)
  inserted_right (some p) e = refl

  insert_timer_branch :
      insert_timer l key m ≡ inserted l key m (find (by_period key) l)
      → insert_timer r key m ≡ inserted r key m (find (by_period key) r)
      → insert_timer (branch n l r) key m
        ≡ inserted (branch n l r) key m (find (by_period key) (branch n l r))
  unfolding insert_timer find
  insert_timer_branch ihl ihr =
      ground
        (arith, inserted_left (find (by_period key) l), inserted_right (find (by_period key) r))

pub insert_timer-find :
    (t : Tree) (key : ℕ) (m : Memory)
    → insert_timer t key m ≡ inserted t key m (find (by_period key) t)
unfolding insert_timer find
insert_timer-find empty key m = sym (
    and_then-map (insert_timer_new key m) (planted (by_period key) empty)
      (planted_empty (by_period key)))
insert_timer-find (branch n l r) key m =
    insert_timer_branch n l r key m (insert_timer-find l key m) (insert_timer-find r key m)

pub search_timer-find :
    (t : Tree) (key : ℕ) (m : Memory)
    → search_timer key t m ≡ elim (find (by_period key) t) [ some p ↦ ok p m | none ↦ abort ]
unfolding search_timer find
search_timer-find empty key m = refl
search_timer-find (branch n l r) key m =
    ground (arith, search_timer-find l key m, search_timer-find r key m)

-- What `insert_timer_new` may return: nothing, a node without a list, or a node.
pub data IsNew (key : ℕ) (status : ℤ) (u : Tree) (leaf : Option Place) : Type 0 where
  refused : status ≡ snail_err → u ≡ empty → leaf ≡ none → IsNew key status u leaf
  unlisted :
      (x : Node)
      → status ≡ snail_err
      → u ≡ branch x empty empty
      → leaf ≡ none
      → x.ikey ≡ key
      → IsNew key status u leaf
  made :
      (x : Node)
      → status ≡ pos 2
      → u ≡ branch x empty empty
      → leaf ≡ some []
      → x.ikey ≡ key
      → IsNew key status u leaf

pub insert_timer_new-IsNew :
    (key : ℕ) (m : Memory) → Returns (λ (s, u, leaf) _. IsNew key s u leaf) (insert_timer_new key m)
unfolding insert_timer_new
insert_timer_new-IsNew key m = Returns.bind (malloc-Returns m) λ root m1 _.
    elim (Bool-cases (root == null)) [
      | inl e ↦ rw e (returns (refused refl refl refl))
      | inr e ↦ rw e (
          Returns.bind (malloc-Returns m1) λ list m2 _. elim (Bool-cases (list == null)) [
            | inl z ↦ rw z (returns (unlisted _ refl refl refl refl))
            | inr z ↦ rw z (returns (made _ refl refl refl refl))
          ])
    ]

-- In an ordered tree `search_timer` returns a place exactly if the node there has the key.
pub search_timer_iff :
    (t : Tree) (key : ℕ) (p : Place) (m : Memory)
    → IsOrdered t
    → (search_timer key t m ≡ ok p m) ↔ ((x : Node) × (node_at t p ≡ some x) × (x.ikey ≡ key))
search_timer_iff t key p m h = (
  λ led.
      let (x, at, e) = find-test (by_period key) t p (ground (arith, search_timer-find t key m)) in
      (x, at, ground arith),
  λ (x, at, e).
      let here : find (by_period key) t ≡ some p =
        subst (λ k. find (by_period k) t ≡ some p) e
          (find_own by_own_period t p x h (ground arith) at) in
      ground (arith, search_timer-find t key m),
)
