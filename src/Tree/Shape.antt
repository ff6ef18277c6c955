-- ===== src/Tree/Shape.antt =====
-- What `insert` and `search` do to the shape of a tree, for any comparison of the key with a node:
-- the place that a key leads to, and the tree with something grafted there.
use crazy_snail.Common.{
  ◌≡◌, refl, sym, inl, inr, Option, none, some, [], ◌∷◌, ◌++◌, ℤ, arith, Ordering, Ordering-cases,
  subst,
}
use mathlib.Core.Option
use crazy_snail.Tree.{Node, Tree, empty, branch, left, right, Place, node_at, in_left, in_right}

abbrev pub Test : Type 0
Test = Node → Ordering

-- The first node on the way whose test says `eq`.
unfoldable pub find : Test → Tree → Option Place
find c empty = none
find c (branch n l r) = elim (c n) [
  | Ordering.eq ↦ some []
  | Ordering.lt ↦ Option.map (λ p. left ∷ p) (find c l)
  | Ordering.gt ↦ Option.map (λ p. right ∷ p) (find c r)
]

-- The way down to the node that is found, or to the empty place below.
unfoldable pub way : Test → Tree → Place
way c empty = []
way c (branch n l r) = elim (c n) [
  | Ordering.eq ↦ []
  | Ordering.lt ↦ left ∷ way c l
  | Ordering.gt ↦ right ∷ way c r
]

-- The tree with `u` at that empty place.
unfoldable pub graft : Test → Tree → Tree → Tree
graft c u empty = u
graft c u (branch n l r) = elim (c n) [
  | Ordering.eq ↦ branch n l r
  | Ordering.lt ↦ branch n (graft c u l) r
  | Ordering.gt ↦ branch n l (graft c u r)
]

abbrev pub All : (Node → Type 0) → Tree → Type 0
All P empty = Unit {0}
All P (branch n l r) = P n × All P l × All P r

-- `ord x n` compares the key of `x` with the node `n`.
abbrev pub Ordered : (Node → Test) → Tree → Type 0
Ordered ord empty = Unit {0}
Ordered ord (branch n l r) =
    All (λ x. ord x n ≡ Ordering.lt) l
    × All (λ x. ord x n ≡ Ordering.gt) r
    × Ordered ord l
    × Ordered ord r

-- The empty tree, and the root of another.
pub find_nothing : (c : Test) (p : Place) → ¬ (find c empty ≡ some p)
unfolding find
find_nothing c p e = cc

pub way_nothing : (c : Test) → way c empty ≡ []
unfolding way
way_nothing c = refl

pub graft_nothing : (c : Test) (u : Tree) → graft c u empty ≡ u
unfolding graft
graft_nothing c u = refl

pub find_root : (c : Test) (x : Node) → c x ≡ Ordering.eq → find c (branch x empty empty) ≡ some []
unfolding find
find_root c x e = rw (e, find)

-- A new node or a failure, seen from the root of the tree.
abbrev pub planted : Test → Tree → ℤ × Tree × Option Place → ℤ × Tree × Option Place
planted c t (status, u, leaf) = (status, graft c u t, Option.map (λ p. way c t ++ p) leaf)

module _ (c : Test) (n : Node) (l r : Tree) where
  pub planted_left :
      (x : ℤ × Tree × Option Place)
      → c n ≡ Ordering.lt
      → in_left n r (planted c l x) ≡ planted c (branch n l r) x
  unfolding graft way
  planted_left (s, u, none) e = rw (e, graft)
  planted_left (s, u, some p) e = ground arith

  pub planted_right :
      (x : ℤ × Tree × Option Place)
      → c n ≡ Ordering.gt
      → in_right n l (planted c r x) ≡ planted c (branch n l r) x
  unfolding graft way
  planted_right (s, u, none) e = rw (e, graft)
  planted_right (s, u, some p) e = ground arith

pub planted_empty : (c : Test) (x : ℤ × Tree × Option Place) → planted c empty x ≡ x
unfolding graft way
planted_empty c (s, u, none) = refl
planted_empty c (s, u, some p) = refl

pub find-way : (c : Test) (t : Tree) (p : Place) → find c t ≡ some p → way c t ≡ p
unfolding find way
find-way c empty p e = cc
find-way c (branch n l r) [] e = ground arith
find-way c (branch n l r) (left ∷ p) e = ground (arith, find-way c l p)
find-way c (branch n l r) (right ∷ p) e = ground (arith, find-way c r p)

pub find-graft :
    (c : Test) (x : Node) (t : Tree)
    → c x ≡ Ordering.eq
    → find c t ≡ none
    → find c (graft c (branch x empty empty) t) ≡ some (way c t)
unfolding find way graft
find-graft c x empty e h = rw e
find-graft c x (branch n l r) e h = ground (arith, find-graft c x l e, find-graft c x r e)

pub node_at-graft :
    (c : Test) (x : Node) (t : Tree)
    → find c t ≡ none
    → node_at (graft c (branch x empty empty) t) (way c t) ≡ some x
unfolding find way graft
node_at-graft c x empty h = refl
node_at-graft c x (branch n l r) h = ground (arith, node_at-graft c x l, node_at-graft c x r)

-- No node moves, and no search that ended at a node ends elsewhere.
pub find-graft_stable :
    (c d : Test) (u t : Tree) (p : Place) → find d t ≡ some p → find d (graft c u t) ≡ some p
unfolding find graft
find-graft_stable c d u empty p h = cc
find-graft_stable c d u (branch n l r) [] h = ground arith
find-graft_stable c d u (branch n l r) (left ∷ p) h = ground (arith, find-graft_stable c d u l p)
find-graft_stable c d u (branch n l r) (right ∷ p) h = ground (arith, find-graft_stable c d u r p)

pub node_at-graft_stable :
    (c : Test) (u t : Tree) (p : Place) {x : Node}
    → node_at t p ≡ some x
    → node_at (graft c u t) p ≡ some x
unfolding graft
node_at-graft_stable c u empty p h = cc
node_at-graft_stable c u (branch n l r) [] h = ground arith
node_at-graft_stable c u (branch n l r) (left ∷ p) {x} h =
    ground (arith, node_at-graft_stable c u l p {x = x})
node_at-graft_stable c u (branch n l r) (right ∷ p) {x} h =
    ground (arith, node_at-graft_stable c u r p {x = x})

module _ (c : Test) (u : Tree) (n : Node) (l r : Tree) where
  pub graft_here : c n ≡ Ordering.eq → graft c u (branch n l r) ≡ branch n l r
  unfolding graft
  graft_here e = rw (e, graft)

  pub graft_left : c n ≡ Ordering.lt → graft c u (branch n l r) ≡ branch n (graft c u l) r
  unfolding graft
  graft_left e = rw (e, graft)

  pub graft_right : c n ≡ Ordering.gt → graft c u (branch n l r) ≡ branch n l (graft c u r)
  unfolding graft
  graft_right e = rw (e, graft)

pub graft-empty : (c : Test) (t : Tree) → find c t ≡ none → graft c empty t ≡ t
unfolding graft find
graft-empty c empty h = refl
graft-empty c (branch n l r) h = ground (arith, graft-empty c l, graft-empty c r)

pub All-graft :
    (P : Node → Type 0) (c : Test) (x : Node) (t : Tree)
    → P x
    → All P t
    → All P (graft c (branch x empty empty) t)
unfolding graft
All-graft P c x empty px h = (px, tt, tt)
All-graft P c x (branch n l r) px h = elim (Ordering-cases (c n)) [
  | inl e ↦ rw (graft_here c _ n l r e) h
  | inr (inl e) ↦ rw (graft_left c _ n l r e) (h.0, All-graft P c x l px h.1, h.2)
  | inr (inr e) ↦ rw (graft_right c _ n l r e) (h.0, h.1, All-graft P c x r px h.2)
]

pub All-node_at :
    (P : Node → Type 0) (t : Tree) (p : Place) {x : Node} → All P t → node_at t p ≡ some x → P x
All-node_at P empty p h e = cc
All-node_at P (branch n l r) [] {x} h e = let same : n ≡ x = cc in subst P same h.0
All-node_at P (branch n l r) (left ∷ p) h e = All-node_at P l p h.1 e
All-node_at P (branch n l r) (right ∷ p) h e = All-node_at P r p h.2 e

module _ (ord : Node → Test) where
  -- A new node that compares by its own key keeps the tree ordered.
  pub Ordered-graft :
      (x : Node) (t : Tree) → Ordered ord t → Ordered ord (graft (ord x) (branch x empty empty) t)
  unfolding graft
  Ordered-graft x empty o = (tt, tt, tt, tt)
  Ordered-graft x (branch n l r) o = elim (Ordering-cases (ord x n)) [
    | inl e ↦ rw (graft_here (ord x) _ n l r e) o
    | inr (inl e) ↦
        rw (graft_left (ord x) _ n l r e)
          (All-graft _ (ord x) x l e o.0, o.1, Ordered-graft x l o.2, o.3)
    | inr (inr e) ↦
        rw (graft_right (ord x) _ n l r e)
          (o.0, All-graft _ (ord x) x r e o.1, o.2, Ordered-graft x r o.3)
  ]

  -- In an ordered tree the key of a node leads to that node.
  pub find_own :
      (t : Tree) (p : Place) (x : Node)
      → Ordered ord t
      → ord x x ≡ Ordering.eq
      → node_at t p ≡ some x
      → find (ord x) t ≡ some p
  unfolding find
  find_own empty p x o e h = cc
  find_own (branch n l r) [] x o e h =
      let same : n ≡ x = cc in ground (arith, subst (λ y. ord x y ≡ Ordering.eq) (sym same) e)
  find_own (branch n l r) (left ∷ p) x o e h =
      let here : ord x n ≡ Ordering.lt = All-node_at (λ y. ord y n ≡ Ordering.lt) l p o.0 h in
      ground (arith, here, find_own l p x o.2 e)
  find_own (branch n l r) (right ∷ p) x o e h =
      let here : ord x n ≡ Ordering.gt = All-node_at (λ y. ord y n ≡ Ordering.gt) r p o.1 h in
      ground (arith, here, find_own r p x o.3 e)

-- The node that is found passes the test.
pub find-test :
    (c : Test) (t : Tree) (p : Place)
    → find c t ≡ some p
    → (x : Node) × (node_at t p ≡ some x) × (c x ≡ Ordering.eq)
unfolding find
find-test c empty p e = absurd (find_nothing c p e)
find-test c (branch n l r) [] e = (n, refl, ground arith)
find-test c (branch n l r) (left ∷ p) e = find-test c l p (ground arith)
find-test c (branch n l r) (right ∷ p) e = find-test c r p (ground arith)
