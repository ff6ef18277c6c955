-- ===== src/Tree/Names.antt =====
-- Search trees of names, and the ways in which `insert` of src/cb.c ends.
use crazy_snail.Common.{
  ◌≡◌, refl, sym, ap, ◌∙◌, subst, ◌⊎◌, inl, inr, Option, none, some, [], ◌++◌, arith, Ordering,
  Option-cases, Bool-cases, ℤ, ◌==◌,
}
use mathlib.Core.Path.{fun_ext}
use mathlib.Core.Option
use mathlib.Core.List.{append-nil}
use crazy_snail.Text.{Bytes, c_str}
use crazy_snail.Text.Compare.{strncmp-c_str, c_str_idem}
use crazy_snail.Memory.{Memory, Run, ok, null, and_then}
use crazy_snail.Memory.Returns
use crazy_snail.Memory.Returns.{Returns, returns, malloc-Returns, strdup-Returns}
use crazy_snail.Callback.{snail_err, snail_ok}
use crazy_snail.Queue.{no_ends}
use crazy_snail.Tree.{Node, Tree, empty, branch, Place, insert, insert_new}
use crazy_snail.Tree.Shape.{
  Test, find, way, graft, All, Ordered, planted, node_at-graft, Ordered-graft, All-graft,
  graft-empty, All-node_at,
}
use crazy_snail.Tree.Keys.{by_key, IsNamed, inserted, insert-find}

-- The comparison by a node's own name.
abbrev pub by_name : Node → Test
by_name x n = elim x.key [ none ↦ Ordering.eq | some k ↦ by_key k n ]

-- What `insert_new` may return: nothing, a node without a list, or a node.
pub data IsNew (key : Bytes) (status : ℤ) (u : Tree) (leaf : Option Place) : Type 0 where
  refused : status ≡ snail_err → u ≡ empty → leaf ≡ none → IsNew key status u leaf
  unlisted :
      (x : Node)
      → status ≡ snail_err
      → u ≡ branch x empty empty
      → leaf ≡ none
      → (x.key ≡ none) ⊎ (x.key ≡ some (c_str key))
      → IsNew key status u leaf
  made :
      (x : Node)
      → status ≡ snail_ok
      → u ≡ branch x empty empty
      → leaf ≡ some []
      → x.cb_list ≡ some no_ends
      → x.timer ≡ null
      → (x.key ≡ none) ⊎ (x.key ≡ some (c_str key))
      → IsNew key status u leaf

pub insert_new-IsNew :
    (key : Bytes) (m : Memory) → Returns (λ (s, u, leaf) _. IsNew key s u leaf) (insert_new key m)
unfolding insert_new
insert_new-IsNew key m = Returns.bind (malloc-Returns m) λ root m1 _.
    elim (Bool-cases (root == null)) [
      | inl e ↦ rw e (returns (refused refl refl refl))
      | inr e ↦ rw e (
          Returns.bind (strdup-Returns key m1) λ name m2 (named, _).
            Returns.bind (malloc-Returns m2) λ list m3 _. elim (Bool-cases (list == null)) [
              | inl z ↦ rw z (returns (unlisted _ refl refl refl named))
              | inr z ↦ rw z (returns (made _ refl refl refl refl refl named))
            ])
    ]

-- A search tree of names: each node has its name, without terminator inside, and lies on the side
-- that the comparison with the nodes above says.
pub record IsSearchTree (t : Tree) : Type 0 where
  pub named : All IsNamed t
  pub terminated : All (λ x. (k : Bytes) → x.key ≡ some k → c_str k ≡ k) t
  pub ordered : Ordered by_name t

-- A new node compares by its own name as the inserted key does.
by_name_new : (key : Bytes) (x : Node) → x.key ≡ some (c_str key) → by_name x ≡ by_key key
by_name_new key x e = fun_ext λ n. elim (Option-cases n.key) [
  | inl z ↦ ground arith
  | inr (k, z) ↦ ground (arith, strncmp-c_str key k)
]

pub graft-IsSearchTree :
    (t : Tree) (key : Bytes) (x : Node)
    → IsSearchTree t
    → x.key ≡ some (c_str key)
    → IsSearchTree (graft (by_key key) (branch x empty empty) t)
graft-IsSearchTree t key x h e =
    let by = by_name_new key x e in
    record {
      named = All-graft IsNamed (by_key key) x t (rw e) h.named;
      terminated =
          All-graft _ (by_key key) x t (λ k e'. ground (arith, c_str_idem key, e')) h.terminated;
      ordered =
          subst (λ c. Ordered by_name (graft c (branch x empty empty) t)) by
            (Ordered-graft by_name x t h.ordered);
    }

-- The ways in which `insert` ends on a tree of named nodes, if the copy of a new name was made.
pub data Grown (t : Tree) (key : Bytes) (t' : Tree) (leaf : Option Place) : Type 0 where
  found : (p : Place) → find (by_key key) t ≡ some p → t' ≡ t → leaf ≡ some p → Grown t key t' leaf
  refused : find (by_key key) t ≡ none → t' ≡ t → leaf ≡ none → Grown t key t' leaf
  grown :
      (x : Node)
      → find (by_key key) t ≡ none
      → x.key ≡ some (c_str key)
      → t' ≡ graft (by_key key) (branch x empty empty) t
      → (leaf ≡ none) ⊎ (leaf ≡ some (way (by_key key) t))
      → Grown t key t' leaf

module _ (t : Tree) (key : Bytes) (absent : find (by_key key) t ≡ none) where
  -- A node that was made without its name is found out.
  Grown-named :
      (x : Node) {t' : Tree} {leaf : Option Place}
      → t' ≡ graft (by_key key) (branch x empty empty) t
      → (x.key ≡ none) ⊎ (x.key ≡ some (c_str key))
      → All IsNamed t'
      → (leaf ≡ none) ⊎ (leaf ≡ some (way (by_key key) t))
      → Grown t key t' leaf
  Grown-named x e (inr k) named at = grown x absent k e at
  Grown-named x e (inl k) named at =
      let there = node_at-graft (by_key key) x t absent in
      let here : IsNamed x =
        All-node_at IsNamed _ (way (by_key key) t) (subst (All IsNamed) e named) there in
      absurd (ground arith)

  new-Grown :
      {status : ℤ} {u t' : Tree} {l leaf : Option Place}
      → IsNew key status u l
      → t' ≡ graft (by_key key) u t
      → leaf ≡ Option.map (λ p. way (by_key key) t ++ p) l
      → All IsNamed t'
      → Grown t key t' leaf
  new-Grown (refused s e f) e' f' named =
      refused absent (e' ∙ ap (λ u. graft (by_key key) u t) e ∙ graft-empty (by_key key) t absent)
        (f' ∙ ap (Option.map _) f)
  new-Grown (unlisted x s e f k) e' f' named =
      Grown-named x (e' ∙ ap (λ u. graft (by_key key) u t) e) k named
        (inl (f' ∙ ap (Option.map _) f))
  new-Grown (made x s e f _ _ k) e' f' named =
      Grown-named x (e' ∙ ap (λ u. graft (by_key key) u t) e) k named
        (inr (f' ∙ ap (Option.map _) f ∙ ap some (append-nil _)))

  run-Grown :
      {r : Run (ℤ × Tree × Option Place)} {status : ℤ} {t' : Tree} {leaf : Option Place}
      {m' : Memory}
      → Returns (λ (s, u, l) _. IsNew key s u l) r
      → and_then r (λ x. ok (planted (by_key key) t x)) ≡ ok (status, t', leaf) m'
      → All IsNamed t'
      → Grown t key t' leaf
  run-Grown (returns new) e named = new-Grown new (cc e) (cc e) named

module _ (t : Tree) (key : Bytes) (m : Memory) {t' : Tree} {m' : Memory} {status : ℤ}
    {leaf : Option Place} (ran : insert t key m ≡ ok (status, t', leaf) m') where
  pub insert-Grown : All IsNamed t → All IsNamed t' → Grown t key t' leaf
  insert-Grown named named' = elim (Option-cases (find (by_key key) t)) [
    | inl absent ↦
        run-Grown t key absent (insert_new-IsNew key m)
          (sym (ap (inserted t key m) absent) ∙ sym (insert-find t key m named) ∙ ran) named'
    | inr (p, there) ↦
        let e : ok (snail_ok, t, some p) m ≡ ok (status, t', leaf) m' =
          sym (ap (inserted t key m) there) ∙ sym (insert-find t key m named) ∙ ran in
        found p there (cc e) (cc e)
  ]
