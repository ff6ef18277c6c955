-- ===== src/Tree/Refill.antt =====
-- One node of a tree gets another list, as in `lua_client_command` of src/crazysnail.c.
use crazy_snail.Common.{
  ◌≡◌, ◌≢◌, refl, ◌+◌, ◌≤◌, true, false, ◌||◌, some, [], ◌∷◌, ◌++◌, arith, ap, subst,
}
use crazy_snail.Memory.{Ptr, CallbackEnds, Memory}
use crazy_snail.Queue.Cells.{Cells, has, has-append, count, count-append}
use crazy_snail.Tree.{Node, Tree, branch, left, right, Place, node_at, update_at}
use crazy_snail.Tree.Destroy.{Apart, Listed, Forest, bare, grove, frame_Listed, frame_Forest}

-- The node with another list, and the tree with another list at a place.
abbrev pub relist : CallbackEnds → Node → Node
relist l x = record x { cb_list = some l }

abbrev pub relisted : Tree → Place → CallbackEnds → Tree
relisted t place l = update_at t place (relist l)

-- The cells of the list at a place.
abbrev pub cells_at : {m : Memory} {t : Tree} {xs : Cells} → Forest m t xs → Place → Cells
cells_at bare p = []
cells_at (grove {zs} f g q _ _) [] = zs
cells_at (grove f g q _ _) (left ∷ p) = cells_at f p
cells_at (grove f g q _ _) (right ∷ p) = cells_at g p

module _ {m : Memory} where
  pub has-cells_at :
      {t : Tree} {xs : Cells} (f : Forest m t xs) (p : Place) (a : Ptr)
      → has a (cells_at f p) ≡ true
      → has a xs ≡ true
  has-cells_at bare p a i = cc
  has-cells_at (grove {xs} {ys} {zs} f g q _ _) [] a i =
      ground (arith, has-append a xs (ys ++ zs), has-append a ys zs)
  has-cells_at (grove {xs} {ys} {zs} f g q _ _) (left ∷ p) a i =
      ground (arith, has-append a xs (ys ++ zs), has-cells_at f p a i)
  has-cells_at (grove {xs} {ys} {zs} f g q _ _) (right ∷ p) a i =
      ground (arith, has-append a xs (ys ++ zs), has-append a ys zs, has-cells_at g p a i)

  pub cells_at-Listed :
      {t : Tree} {n : Node} {xs : Cells} (f : Forest m t xs) (p : Place)
      → node_at t p ≡ some n
      → Listed m n.cb_list (cells_at f p)
  cells_at-Listed bare p e = cc
  cells_at-Listed {n} (grove {n = x} {zs} f g q _ _) [] e =
      let same : x ≡ n = cc in subst (λ (y : Node). Listed m y.cb_list zs) same q
  cells_at-Listed (grove f g q _ _) (left ∷ p) e = cells_at-Listed f p e
  cells_at-Listed (grove f g q _ _) (right ∷ p) e = cells_at-Listed g p e

  -- Different places have different cells.
  pub cells_at-Apart :
      {t : Tree} {xs : Cells} (f : Forest m t xs) (p q : Place)
      → p ≢ q
      → Apart (cells_at f p) (cells_at f q)
  cells_at-Apart bare p q ne a i = cc
  cells_at-Apart (grove {xs} {ys} {zs} f g _ p1 p2) [] [] ne a i = absurd (ne refl)
  cells_at-Apart (grove {xs} {ys} {zs} f g _ p1 p2) [] (left ∷ q) ne a i =
      ground (arith, has-append a ys zs, p1 a, has-cells_at f q a i)
  cells_at-Apart (grove {xs} {ys} {zs} f g _ p1 p2) [] (right ∷ q) ne a i =
      ground (arith, p2 a, has-cells_at g q a i)
  cells_at-Apart (grove {xs} {ys} {zs} f g _ p1 p2) (left ∷ p) [] ne a i =
      ground (arith, has-append a ys zs, p1 a, has-cells_at f p a)
  cells_at-Apart (grove {xs} {ys} {zs} f g _ p1 p2) (right ∷ p) [] ne a i =
      ground (arith, p2 a, has-cells_at g p a)
  cells_at-Apart (grove {xs} {ys} {zs} f g _ p1 p2) (left ∷ p) (left ∷ q) ne a i =
      cells_at-Apart f p q (λ e. ne (ap (λ r. left ∷ r) e)) a i
  cells_at-Apart (grove {xs} {ys} {zs} f g _ p1 p2) (right ∷ p) (right ∷ q) ne a i =
      cells_at-Apart g p q (λ e. ne (ap (λ r. right ∷ r) e)) a i
  cells_at-Apart (grove {xs} {ys} {zs} f g _ p1 p2) (left ∷ p) (right ∷ q) ne a i =
      ground (arith, has-append a ys zs, p1 a, has-cells_at f p a, has-cells_at g q a i)
  cells_at-Apart (grove {xs} {ys} {zs} f g _ p1 p2) (right ∷ p) (left ∷ q) ne a i =
      ground (arith, has-append a ys zs, p1 a, has-cells_at g p a, has-cells_at f q a i)

-- The tree with the list `l'` at a place, whose cells `ws` replace the cells `zs`.
pub record Refilled (m' : Memory) (t : Tree) (p : Place) (l' : CallbackEnds) (xs zs ws : Cells)
    : Type 0 where
  pub cells : Cells
  pub forest : Forest m' (relisted t p l') cells
  pub within : (a : Ptr) → has a cells ≡ true → (has a xs || has a ws) ≡ true
  pub balance : (c : Ptr) → count c cells + count c zs ≡ count c xs + count c ws

module _ {m m' : Memory} (grown : m.next ≤ m'.next) {l' : CallbackEnds} {ws : Cells}
    (list : Listed m' (some l') ws) where
  -- The other lists must be as they were, and the new cells in none of them.
  abbrev pub Spared : {t : Tree} {xs : Cells} → Forest m t xs → Place → Type 0
  Spared {xs} f p =
      ((a : Ptr) → has a xs ≡ true → has a (cells_at f p) ≡ false → m'.wrapper a ≡ m.wrapper a)
      × ((a : Ptr) → has a ws ≡ true → has a xs ≡ true → has a (cells_at f p) ≡ true)

  refill_here :
      {n : Node} {l r : Tree} {xs ys zs : Cells} (f : Forest m l xs) (g : Forest m r ys)
      (q : Listed m n.cb_list zs) (p1 : Apart xs (ys ++ zs)) (p2 : Apart ys zs)
      → Spared (grove {n = n} f g q p1 p2) []
      → Refilled m' (branch n l r) [] l' (xs ++ (ys ++ zs)) zs ws
  refill_here {xs} {ys} {zs} f g q p1 p2 (same, new) = record {
    cells = xs ++ (ys ++ ws);
    forest =
        grove
          (frame_Forest f grown λ a i.
            same a (ground (arith, has-append a xs (ys ++ zs)))
              (ground (arith, p1 a, has-append a ys zs)))
          (frame_Forest g grown λ a i.
            same a (ground (arith, has-append a xs (ys ++ zs), has-append a ys zs))
              (ground (arith, p2 a)))
          list
          (λ a i. ground (
            arith,
            p1 a,
            new a,
            has-append a xs (ys ++ zs),
            has-append a ys zs,
            has-append a ys ws,
          ))
          (λ a i. ground (arith, p2 a, new a, has-append a xs (ys ++ zs), has-append a ys zs));
    within = λ a i. ground (
      arith,
      has-append a xs (ys ++ ws),
      has-append a ys ws,
      has-append a xs (ys ++ zs),
      has-append a ys zs,
    );
    balance = λ c. omega (
      arith,
      count-append c xs (ys ++ ws),
      count-append c ys ws,
      count-append c xs (ys ++ zs),
      count-append c ys zs,
    );
  }

  pub refill :
      {t : Tree} {xs : Cells} {n : Node} (f : Forest m t xs) (p : Place)
      → node_at t p ≡ some n
      → Spared f p
      → Refilled m' t p l' xs (cells_at f p) ws
  refill bare p e h = cc
  refill (grove f g q p1 p2) [] e h = refill_here f g q p1 p2 h
  refill (grove {xs} {ys} {zs} f g q p1 p2) (left ∷ p) e (same, new) =
      let d = refill f p e (
        (λ a i o. same a (ground (arith, has-append a xs (ys ++ zs))) o),
        (λ a i j. new a i (ground (arith, has-append a xs (ys ++ zs)))),
      ) in
      record {
        cells = d.cells ++ (ys ++ zs);
        forest =
            grove d.forest
              (frame_Forest g grown λ a i.
                same a (ground (arith, has-append a xs (ys ++ zs), has-append a ys zs))
                  (ground (arith, p1 a, has-append a ys zs, has-cells_at f p a)))
              (frame_Listed q grown λ a i.
                same a (ground (arith, has-append a xs (ys ++ zs), has-append a ys zs))
                  (ground (arith, p1 a, has-append a ys zs, has-cells_at f p a)))
              (λ a i.
                ground
                  (arith, p1 a, d.within a, new a, has-append a xs (ys ++ zs), has-cells_at f p a))
              p2;
        within = λ a i.
            ground (arith, d.within a, has-append a d.cells (ys ++ zs), has-append a xs (ys ++ zs));
        balance = λ c.
            omega
              (arith, d.balance c, count-append c d.cells (ys ++ zs), count-append c xs (ys ++ zs));
      }
  refill (grove {xs} {ys} {zs} f g q p1 p2) (right ∷ p) e (same, new) =
      let d = refill g p e (
        (λ a i o. same a (ground (arith, has-append a xs (ys ++ zs), has-append a ys zs)) o),
        (λ a i j. new a i (ground (arith, has-append a xs (ys ++ zs), has-append a ys zs))),
      ) in
      record {
        cells = xs ++ (d.cells ++ zs);
        forest =
            grove
              (frame_Forest f grown λ a i.
                same a (ground (arith, has-append a xs (ys ++ zs)))
                  (ground (arith, p1 a, has-append a ys zs, has-cells_at g p a)))
              d.forest
              (frame_Listed q grown λ a i.
                same a (ground (arith, has-append a xs (ys ++ zs), has-append a ys zs))
                  (ground (arith, p2 a, has-cells_at g p a)))
              (λ a i. ground (
                arith,
                p1 a,
                d.within a,
                new a,
                has-append a d.cells zs,
                has-append a ys zs,
                has-append a xs (ys ++ zs),
                has-cells_at g p a,
              ))
              (λ a i. ground (
                arith,
                p2 a,
                d.within a,
                new a,
                has-append a ys zs,
                has-append a xs (ys ++ zs),
                has-cells_at g p a,
              ));
        within = λ a i. ground (
          arith,
          d.within a,
          has-append a xs (d.cells ++ zs),
          has-append a d.cells zs,
          has-append a xs (ys ++ zs),
          has-append a ys zs,
        );
        balance = λ c. omega (
          arith,
          d.balance c,
          count-append c xs (d.cells ++ zs),
          count-append c d.cells zs,
          count-append c xs (ys ++ zs),
          count-append c ys zs,
        );
      }
