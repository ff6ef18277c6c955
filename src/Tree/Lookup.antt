-- ===== src/Tree/Lookup.antt =====
-- Names that are inserted and searched for: `insert` and `search` of src/cb.c.
use crazy_snail.Common.{
  ◌≡◌, sym, ap, ◌∙◌, subst, inl, inr, Option, Option-cases, some, ◌++◌, arith, Ordering, ℤ,
}
use mathlib.Core.Path.{fun_ext}
use crazy_snail.Text.{Bytes, c_str, strlen}
use crazy_snail.Text.Compare.{
  strncmp-append, prefix_of_strncmp, strncmp_refl, strncmp-c_str, c_str-append,
}
use crazy_snail.Memory.{Memory, ok}
use crazy_snail.Callback.{snail_ok}
use crazy_snail.Tree.{Node, Tree, empty, Place, node_at, insert, search_key}
use crazy_snail.Tree.Shape.{
  find, All, find-graft, find-graft_stable, node_at-graft_stable, find_own, All-node_at,
  find_nothing, graft_nothing, way_nothing, find_root, find-test,
}
use crazy_snail.Tree.Keys.{by_key, IsNamed, inserted, insert-find, search_key_iff}
use crazy_snail.Tree.Names.{
  by_name, IsSearchTree, Grown, found, refused, grown, insert-Grown, graft-IsSearchTree,
}

-- The key compares equal with the name that was made from it.
pub by_key_self : (key : Bytes) (x : Node) → x.key ≡ some (c_str key) → by_key key x ≡ Ordering.eq
by_key_self key x e =
    ground (arith, strncmp-c_str key (c_str key), strncmp_refl (c_str key) (strlen (c_str key)))

module _ (t : Tree) (key : Bytes) (m : Memory) {t' : Tree} {m' : Memory} {status : ℤ}
    {leaf : Option Place} (ran : insert t key m ≡ ok (status, t', leaf) m') where
  -- Every insertion into a search tree leaves a search tree, whatever `malloc` refuses, provided that
  -- no node is left without its name.
  pub insert-IsSearchTree : IsSearchTree t → All IsNamed t' → IsSearchTree t'
  insert-IsSearchTree h named' = after (insert-Grown t key m ran h.named named')
    where
      after : Grown t key t' leaf → IsSearchTree t'
      after (found p there e f) = subst IsSearchTree (sym e) h
      after (refused absent e f) = subst IsSearchTree (sym e) h
      after (grown x absent k e f) = subst IsSearchTree (sym e) (graft-IsSearchTree t key x h k)

  -- The inserted name leads to the place that `insert` returned, if all nodes have their names before
  -- and after.
  pub search_key-insert :
      (p : Place) (m₁ : Memory)
      → All IsNamed t
      → All IsNamed t'
      → leaf ≡ some p
      → search_key key t' m₁ ≡ ok p m₁
  search_key-insert p m₁ named named' at =
      (search_key_iff t' key m₁ p named').1 (after (insert-Grown t key m ran named named'))
    where
      after : Grown t key t' leaf → find (by_key key) t' ≡ some p
      after (found q there e f) = ap (find (by_key key)) e ∙ there ∙ sym f ∙ at
      after (refused absent e f) = absurd (ground arith)
      after (grown x absent k e (inl f)) = absurd (ground arith)
      after (grown x absent k e (inr f)) =
          ap (find (by_key key)) e
          ∙ find-graft (by_key key) x t (by_key_self key x k) absent
          ∙ sym f
          ∙ at

  -- A name that led somewhere before leads to the same place, and to the same node, if all nodes have
  -- their names before and after.
  pub insert_keeps_search :
      (other : Bytes) (p : Place) (n : Node) (m₁ : Memory)
      → All IsNamed t
      → All IsNamed t'
      → search_key other t m₁ ≡ ok p m₁
      → node_at t p ≡ some n
      → (search_key other t' m₁ ≡ ok p m₁) × (node_at t' p ≡ some n)
  insert_keeps_search other p n m₁ named named' led at =
      let (stays, same) = after (insert-Grown t key m ran named named') in
      ((search_key_iff t' other m₁ p named').1 stays, same)
    where
      before : find (by_key other) t ≡ some p
      before = (search_key_iff t other m₁ p named).0 led

      unchanged : t' ≡ t → (find (by_key other) t' ≡ some p) × (node_at t' p ≡ some n)
      unchanged e = (ap (find (by_key other)) e ∙ before, ap (λ u. node_at u p) e ∙ at)

      after : Grown t key t' leaf → (find (by_key other) t' ≡ some p) × (node_at t' p ≡ some n)
      after (found q there e f) = unchanged e
      after (refused absent e f) = unchanged e
      after (grown x absent k e f) = (
        ap (find (by_key other)) e ∙ find-graft_stable (by_key key) (by_key other) _ t p before,
        ap (λ u. node_at u p) e ∙ node_at-graft_stable (by_key key) _ t p at,
      )

-- In a search tree every name that a node has leads to that node.
pub search_key_own :
    (t : Tree) (p : Place) (x : Node) (k : Bytes) (m : Memory)
    → IsSearchTree t
    → node_at t p ≡ some x
    → x.key ≡ some k
    → search_key k t m ≡ ok p m
search_key_own t p x k m h at e =
    (search_key_iff t k m p h.named).1
      (ap (λ c. find c t) by ∙ find_own by_name t p x h.ordered self at)
  where
    by : by_key k ≡ by_name x
    by = fun_ext λ n. ground arith

    self : by_name x x ≡ Ordering.eq
    self = ground (arith, strncmp_refl k (strlen k))

-- A name that begins another gets the other's node, with its list of callbacks, if the other was
-- inserted into an empty tree before and its node has the name.
pub insert_shares :
    (key more : Bytes) (m m₁ : Memory) {t : Tree} {m' : Memory} {p : Place}
    → insert empty (key ++ more) m ≡ ok (snail_ok, t, some p) m'
    → All IsNamed t
    → insert t key m₁ ≡ ok (snail_ok, t, some p) m₁
insert_shares key more m m₁ {t} {p} ran named =
    after (insert-Grown empty (key ++ more) m ran tt named)
  where
    after : Grown empty (key ++ more) t (some p) → insert t key m₁ ≡ ok (snail_ok, t, some p) m₁
    after (found q there e f) = absurd (find_nothing (by_key (key ++ more)) q there)
    after (refused absent e f) = cc
    after (grown x absent k e (inl f)) = cc
    after (grown x absent k e (inr f)) =
        let (s, starts) = c_str-append key more in
        let at_root : by_key key x ≡ Ordering.eq =
          ground (arith, k, starts, strncmp-append key s) in
        let here : find (by_key key) t ≡ some p =
          ap (find (by_key key)) (e ∙ graft_nothing (by_key (key ++ more)) _)
          ∙ find_root (by_key key) x at_root
          ∙ sym (f ∙ ap some (way_nothing (by_key (key ++ more)))) in
        insert-find t key m₁ named ∙ ap (inserted t key m₁) here

-- The node that a name leads to, in a tree whose nodes all have names, has a name that begins with it.
pub search_key_prefix :
    (t : Tree) (key : Bytes) (p : Place) (m : Memory)
    → All IsNamed t
    → search_key key t m ≡ ok p m
    → (x : Node) × (s : Bytes) × (node_at t p ≡ some x) × (x.key ≡ some (c_str key ++ s))
search_key_prefix t key p m named led =
    let (x, at, e) = find-test (by_key key) t p ((search_key_iff t key m p named).0 led) in
    elim (Option-cases x.key) [
      | inl z ↦ let here : IsNamed x = All-node_at IsNamed t p named at in absurd (ground arith)
      | inr (k, z) ↦
          let (s, starts) = prefix_of_strncmp key k (ground arith) in (x, s, at, z ∙ ap some starts)
    ]
