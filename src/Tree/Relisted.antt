-- ===== src/Tree/Relisted.antt =====
-- A node of a tree of src/cb.c with another list: what a search finds, and the order of the tree.
use crazy_snail.Common.{
  ◌≡◌, ◌≢◌, refl, sym, ap, ◌∙◌, ◌⊎◌, inl, inr, some, [], ◌∷◌, arith, is_some, true,
}
use crazy_snail.Memory.{Ptr, CallbackEnds, Wrapper, Memory}
use crazy_snail.Queue.Cells.{Cells, Seg, nil, cons}
use crazy_snail.Tree.{Node, Tree, empty, branch, left, right, Place, node_at, update_at}
use crazy_snail.Tree.Shape.{Test, find, All, Ordered}
use crazy_snail.Tree.Refill.{relist, relisted}

pub Place-cases : (p q : Place) → (p ≡ q) ⊎ (p ≢ q)
Place-cases [] [] = inl refl
Place-cases [] (d ∷ q) = inr (λ e. cc)
Place-cases (d ∷ p) [] = inr (λ e. cc)
Place-cases (left ∷ p) (right ∷ q) = inr (λ e. cc)
Place-cases (right ∷ p) (left ∷ q) = inr (λ e. cc)
Place-cases (left ∷ p) (left ∷ q) = elim (Place-cases p q) [
  | inl e ↦ inl (ap (λ r. left ∷ r) e)
  | inr ne ↦ inr (λ e. ne (cc e))
]
Place-cases (right ∷ p) (right ∷ q) = elim (Place-cases p q) [
  | inl e ↦ inl (ap (λ r. right ∷ r) e)
  | inr ne ↦ inr (λ e. ne (cc e))
]

pub All-mono : {P Q : Node → Type 0} → ((x : Node) → P x → Q x) → (t : Tree) → All P t → All Q t
All-mono f empty h = tt
All-mono f (branch n l r) h = (f n h.0, All-mono f l h.1, All-mono f r h.2)

module _ (g : Node → Node) where
  pub node_at-update_at :
      (t : Tree) (p : Place) {n : Node}
      → node_at t p ≡ some n
      → node_at (update_at t p g) p ≡ some (g n)
  node_at-update_at empty p e = cc
  node_at-update_at (branch n l r) [] e = cc
  node_at-update_at (branch n l r) (left ∷ p) e = node_at-update_at l p e
  node_at-update_at (branch n l r) (right ∷ p) e = node_at-update_at r p e

  pub node_at-update_other :
      (t : Tree) (p q : Place) → p ≢ q → node_at (update_at t p g) q ≡ node_at t q
  node_at-update_other empty p q ne = refl
  node_at-update_other (branch n l r) [] [] ne = absurd (ne refl)
  node_at-update_other (branch n l r) [] (left ∷ q) ne = refl
  node_at-update_other (branch n l r) [] (right ∷ q) ne = refl
  node_at-update_other (branch n l r) (left ∷ p) [] ne = refl
  node_at-update_other (branch n l r) (right ∷ p) [] ne = refl
  node_at-update_other (branch n l r) (left ∷ p) (right ∷ q) ne = refl
  node_at-update_other (branch n l r) (right ∷ p) (left ∷ q) ne = refl
  node_at-update_other (branch n l r) (left ∷ p) (left ∷ q) ne =
      node_at-update_other l p q (λ e. ne (ap (λ r. left ∷ r) e))
  node_at-update_other (branch n l r) (right ∷ p) (right ∷ q) ne =
      node_at-update_other r p q (λ e. ne (ap (λ r. right ∷ r) e))

  pub All-update_at :
      (P : Node → Type 0) (t : Tree) (p : Place)
      → ((x : Node) → P x → P (g x))
      → All P t
      → All P (update_at t p g)
  All-update_at P empty p keep h = tt
  All-update_at P (branch n l r) [] keep h = (keep n h.0, h.1, h.2)
  All-update_at P (branch n l r) (left ∷ p) keep h = (h.0, All-update_at P l p keep h.1, h.2)
  All-update_at P (branch n l r) (right ∷ p) keep h = (h.0, h.1, All-update_at P r p keep h.2)

  -- A test that does not see the change.
  pub find-update_at :
      (c : Test) (t : Tree) (p : Place)
      → ((x : Node) → c (g x) ≡ c x)
      → find c (update_at t p g) ≡ find c t
  unfolding find
  find-update_at c empty p same = refl
  find-update_at c (branch n l r) [] same = rw (find, same n) refl
  find-update_at c (branch n l r) (left ∷ p) same = ground (arith, find-update_at c l p same)
  find-update_at c (branch n l r) (right ∷ p) same = ground (arith, find-update_at c r p same)

-- Every node has its list.
abbrev pub IsListed : Node → Type 0
IsListed n = is_some n.cb_list ≡ true

pub Ordered-relisted :
    (ord : Node → Test) (l : CallbackEnds)
    → ((x n : Node) → ord (relist l x) n ≡ ord x n)
    → ((x n : Node) → ord x (relist l n) ≡ ord x n)
    → (t : Tree) (p : Place) → Ordered ord t
    → Ordered ord (relisted t p l)
Ordered-relisted ord l ka kb empty p o = tt
Ordered-relisted ord l ka kb (branch n a b) [] o =
    (All-mono (λ x h. kb x n ∙ h) a o.0, All-mono (λ x h. kb x n ∙ h) b o.1, o.2, o.3)
Ordered-relisted ord l ka kb (branch n a b) (left ∷ p) o = (
  All-update_at (relist l) _ a p (λ x h. ka x n ∙ h) o.0,
  o.1,
  Ordered-relisted ord l ka kb a p o.2,
  o.3,
)
Ordered-relisted ord l ka kb (branch n a b) (right ∷ p) o = (
  o.0,
  All-update_at (relist l) _ b p (λ x h. ka x n ∙ h) o.1,
  o.2,
  Ordered-relisted ord l ka kb b p o.3,
)

-- The cells of a list are determined by its first.
pub Seg-unique :
    {m : Memory} {p q : Ptr} {xs ys : Cells} → p ≡ q → Seg m p xs → Seg m q ys → xs ≡ ys
Seg-unique e nil nil = refl
Seg-unique e nil (cons ne b w out s) = absurd (ne (sym e))
Seg-unique e (cons ne b w out s) nil = absurd (ne e)
Seg-unique {m} e (cons {c} {q} {xs} ne b w out s)
      (cons {c = c'} {q = q'} {xs = xs'} ne' b' w' out' s') =
    let here : Wrapper = record { cb = c; next = q } in
    let there : Wrapper = record { cb = c'; next = q' } in
    let both : some here ≡ some there = sym w ∙ ap m.wrapper e ∙ w' in
    let callbacks : c ≡ c' = cc in
    let nexts : q ≡ q' = cc in
    let rest : xs ≡ xs' = Seg-unique nexts s s' in cc (e, callbacks, rest)
