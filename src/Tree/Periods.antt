-- ===== src/Tree/Periods.antt =====
-- `insert_timer` of src/cb.c: its status, and the tree after it.
use crazy_snail.Common.{
  ℕ, ◌≡◌, sym, ap, ◌∙◌, subst, ◌⊎◌, inl, inr, Option, none, some, ◌++◌, arith, Option-cases,
  Ordering, ℤ, pos,
}
use mathlib.Core.Option
use mathlib.Core.List.{append-nil}
use crazy_snail.Memory.{Memory, Run, ok, abort, and_then}
use crazy_snail.Memory.Returns.{Returns, returns}
use crazy_snail.Callback.{snail_err, snail_ok}
use crazy_snail.Tree.{Node, Tree, empty, branch, Place, node_at, insert_timer, search_timer}
use crazy_snail.Tree.Shape.{
  find, way, graft, planted, find-graft, find-graft_stable, node_at-graft_stable, graft-empty,
  Ordered-graft,
}
use crazy_snail.Tree.Timers.{
  by_period, by_own_period, IsOrdered, inserted, insert_timer-find, search_timer-find, IsNew,
  insert_timer_new-IsNew,
}

-- The ways in which `insert_timer` ends.
data Ending (t : Tree) (key : ℕ) (status : ℤ) (t' : Tree) (leaf : Option Place) : Type 0 where
  known :
      (p : Place)
      → find (by_period key) t ≡ some p
      → status ≡ snail_ok
      → t' ≡ t
      → leaf ≡ some p
      → Ending t key status t' leaf
  refused :
      find (by_period key) t ≡ none
      → status ≡ snail_err
      → t' ≡ t
      → leaf ≡ none
      → Ending t key status t' leaf
  unlisted :
      (x : Node)
      → find (by_period key) t ≡ none
      → status ≡ snail_err
      → t' ≡ graft (by_period key) (branch x empty empty) t
      → leaf ≡ none
      → x.ikey ≡ key
      → Ending t key status t' leaf
  made :
      (x : Node)
      → find (by_period key) t ≡ none
      → status ≡ pos 2
      → t' ≡ graft (by_period key) (branch x empty empty) t
      → leaf ≡ some (way (by_period key) t)
      → x.ikey ≡ key
      → Ending t key status t' leaf

module _ (t : Tree) (key : ℕ) (absent : find (by_period key) t ≡ none) where
  new-Ending :
      {status : ℤ} {u t' : Tree} {l leaf : Option Place}
      → IsNew key status u l
      → t' ≡ graft (by_period key) u t
      → leaf ≡ Option.map (λ p. way (by_period key) t ++ p) l
      → Ending t key status t' leaf
  new-Ending (IsNew.refused s e f) e' f' =
      refused absent s
        (e' ∙ ap (λ u. graft (by_period key) u t) e ∙ graft-empty (by_period key) t absent)
        (f' ∙ ap (Option.map _) f)
  new-Ending (IsNew.unlisted x s e f k) e' f' =
      unlisted x absent s (e' ∙ ap (λ u. graft (by_period key) u t) e) (f' ∙ ap (Option.map _) f) k
  new-Ending (IsNew.made x s e f k) e' f' =
      made x absent s (e' ∙ ap (λ u. graft (by_period key) u t) e)
        (f' ∙ ap (Option.map _) f ∙ ap some (append-nil _)) k

  run-Ending :
      {r : Run (ℤ × Tree × Option Place)} {status : ℤ} {t' : Tree} {leaf : Option Place}
      {m' : Memory}
      → Returns (λ (s, u, l) _. IsNew key s u l) r
      → and_then r (λ x. ok (planted (by_period key) t x)) ≡ ok (status, t', leaf) m'
      → Ending t key status t' leaf
  run-Ending {status} (returns {a} new) e =
      let status_is : a.0 ≡ status = cc e in
      new-Ending (subst (λ s. IsNew key s a.1 a.2) status_is new) (cc e) (cc e)

module _ (t : Tree) (key : ℕ) (m : Memory) {t' : Tree} {m' : Memory} {status : ℤ}
    {leaf : Option Place} (ran : insert_timer t key m ≡ ok (status, t', leaf) m') where
  insert_timer-Ending : Ending t key status t' leaf
  insert_timer-Ending = elim (Option-cases (find (by_period key) t)) [
    | inl absent ↦
        run-Ending t key absent (insert_timer_new-IsNew key m)
          (sym (ap (inserted t key m) absent) ∙ sym (insert_timer-find t key m) ∙ ran)
    | inr (p, there) ↦
        let e : ok (snail_ok, t, some p) m ≡ ok (status, t', leaf) m' =
          sym (ap (inserted t key m) there) ∙ sym (insert_timer-find t key m) ∙ ran in
        known p there (cc e) (cc e) (cc e)
  ]

  -- An ordered tree of periods stays ordered, whatever `malloc` refuses.
  pub insert_timer-IsOrdered : IsOrdered t → IsOrdered t'
  insert_timer-IsOrdered h = after insert_timer-Ending
    where
      with_node :
          (x : Node)
          → t' ≡ graft (by_period key) (branch x empty empty) t
          → x.ikey ≡ key
          → IsOrdered t'
      with_node x e k =
          subst IsOrdered (ap (λ i. graft (by_period i) (branch x empty empty) t) k ∙ sym e)
            (Ordered-graft by_own_period x t h)

      after : Ending t key status t' leaf → IsOrdered t'
      after (known p there s e f) = subst IsOrdered (sym e) h
      after (refused absent s e f) = subst IsOrdered (sym e) h
      after (unlisted x absent s e f k) = with_node x e k
      after (made x absent s e f k) = with_node x e k

  -- With a leaf the status is 0 for a period that the tree had, and the tree is as it was; it is 2 for
  -- a new one, which a search then finds at the leaf.
  pub insert_timer_status :
      (p : Place) (m₁ : Memory)
      → leaf ≡ some p
      → ((status ≡ snail_ok) × (t' ≡ t) × (search_timer key t m₁ ≡ ok p m₁))
        ⊎ ((status ≡ pos 2) × (search_timer key t m₁ ≡ abort) × (search_timer key t' m₁ ≡ ok p m₁))
  insert_timer_status p m₁ at = after insert_timer-Ending
    where
      led : (u : Tree) → find (by_period key) u ≡ some p → search_timer key u m₁ ≡ ok p m₁
      led u e = search_timer-find u key m₁ ∙ ground arith

      after :
          Ending t key status t' leaf
          → ((status ≡ snail_ok) × (t' ≡ t) × (search_timer key t m₁ ≡ ok p m₁))
            ⊎ ((status ≡ pos 2)
                × (search_timer key t m₁ ≡ abort)
                × (search_timer key t' m₁ ≡ ok p m₁))
      after (known q there s e f) = inl (s, e, led t (there ∙ sym f ∙ at))
      after (refused absent s e f) = absurd (ground arith)
      after (unlisted x absent s e f k) = absurd (ground arith)
      after (made x absent s e f k) =
          let here : by_period key x ≡ Ordering.eq = ground arith in
          inr (
            s,
            search_timer-find t key m₁ ∙ ground arith,
            led t' (
                ap (find (by_period key)) e
                ∙ find-graft (by_period key) x t here absent
                ∙ sym f
                ∙ at),
          )

  -- A period that led somewhere before leads to the same place, and to the same node.
  pub insert_timer_keeps_search :
      (other : ℕ) (p : Place) (n : Node) (m₁ : Memory)
      → search_timer other t m₁ ≡ ok p m₁
      → node_at t p ≡ some n
      → (search_timer other t' m₁ ≡ ok p m₁) × (node_at t' p ≡ some n)
  insert_timer_keeps_search other p n m₁ led at =
      let (stays, same) = after insert_timer-Ending in
      (search_timer-find t' other m₁ ∙ ground arith, same)
    where
      before : find (by_period other) t ≡ some p
      before = ground (arith, search_timer-find t other m₁)

      unchanged : t' ≡ t → (find (by_period other) t' ≡ some p) × (node_at t' p ≡ some n)
      unchanged e = (ap (find (by_period other)) e ∙ before, ap (λ u. node_at u p) e ∙ at)

      grown :
          (x : Node)
          → t' ≡ graft (by_period key) (branch x empty empty) t
          → (find (by_period other) t' ≡ some p) × (node_at t' p ≡ some n)
      grown x e = (
        ap (find (by_period other)) e
            ∙ find-graft_stable (by_period key) (by_period other) _ t p before,
        ap (λ u. node_at u p) e ∙ node_at-graft_stable (by_period key) _ t p at,
      )

      after :
          Ending t key status t' leaf
          → (find (by_period other) t' ≡ some p) × (node_at t' p ≡ some n)
      after (known q there s e f) = unchanged e
      after (refused absent s e f) = unchanged e
      after (unlisted x absent s e f k) = grown x e
      after (made x absent s e f k) = grown x e
