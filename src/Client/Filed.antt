-- ===== src/Client/Filed.antt =====
-- The callbacks that stand under a name in a tree of src/cb.c, while `lua_client_command` of
-- src/crazysnail.c adds others.
use crazy_snail.Common.{
  ◌≡◌, refl, sym, ap, ◌∙◌, ◌<◌, ◌≤◌, true, some, [], ◌∷◌, ◌++◌, arith, inl, inr,
}
use crazy_snail.Memory.{Ptr, Callback, CallbackEnds, Memory}
use crazy_snail.Queue.Cells.{Cells, has, has-append, count, count-append}
use crazy_snail.Tree.{Node, Tree, Place, node_at}
use crazy_snail.Tree.Shape.{find}
use crazy_snail.Tree.Orders.{Order}
use crazy_snail.Tree.Destroy.{Listed, unlisted, listed, Forest, frame_Listed}
use crazy_snail.Tree.Refill.{
  relist, relisted, cells_at, has-cells_at, cells_at-Listed, cells_at-Apart,
}
use crazy_snail.Tree.Growth.{Inserted}
use crazy_snail.Tree.Relisted.{
  Place-cases, node_at-update_at, node_at-update_other, find-update_at, Seg-unique,
}
use crazy_snail.Client.Answers.{IsFresh}
use crazy_snail.Client.Placing.{Placed}

-- The name leads to a node whose list holds the callback `p`.
pub record IsFiled {K : Type 0} (O : Order K) (m : Memory) (t : Tree) (name : K) (p : Ptr)
    : Type 0 where
  pub place : Place
  pub node : Node
  pub cells : Cells
  pub leads : find (O.by name) t ≡ some place
  pub at : node_at t place ≡ some node
  pub list : Listed m node.cb_list cells
  pub holds : 0 < count p cells

pub Listed-unique :
    {m : Memory} {l k : _} {xs ys : Cells} → l ≡ k → Listed m l xs → Listed m k ys → xs ≡ ys
Listed-unique e unlisted unlisted = refl
Listed-unique e unlisted (listed r) = cc
Listed-unique e (listed q) unlisted = cc
Listed-unique e (listed {l} q) (listed {l = k} r) =
    let same : l ≡ k = cc in Seg-unique (ap (λ (x : CallbackEnds). x.head) same) q.chain r.chain

pub IsFiled-same :
    {K : Type 0} {O : Order K} {m m' : Memory} {t : Tree} {name : K} {p : Ptr}
    → m.next ≤ m'.next
    → m'.wrapper ≡ m.wrapper
    → IsFiled O m t name p
    → IsFiled O m' t name p
IsFiled-same grown same f = record {
  place = f.place;
  node = f.node;
  cells = f.cells;
  leads = f.leads;
  at = f.at;
  list = frame_Listed f.list grown (λ a i. ap (λ w. w a) same);
  holds = f.holds;
}

-- An insertion leaves what is filed.
pub IsFiled-Inserted :
    {K : Type 0} {O : Order K} {m : Memory} {t t' : Tree} {key name : K} {xs : Cells} {leaf : Place}
    {k p : Ptr}
    → Inserted O m t key xs t' leaf k
    → IsFiled O m t name p
    → IsFiled O (record m { next = k }) t' name p
IsFiled-Inserted {name} d f =
    let (leads, at) = d.stable name f.place f.node f.leads f.at in
    record {
      place = f.place;
      node = f.node;
      cells = f.cells;
      leads = leads;
      at = at;
      list = frame_Listed f.list d.grown (λ a i. refl);
      holds = f.holds;
    }

module _ {K : Type 0} (O : Order K) {W : Ptr → Callback → Type 0} {m m' : Memory} {t : Tree}
    {xs ys : Cells} {n : Node} {p : Ptr} {l' : CallbackEnds} (forest : Forest m t xs)
    (place : Place) (at : node_at t place ≡ some n) (fresh : IsFresh m (xs ++ ys))
    (d : Placed W m t place xs ys (cells_at forest place) p l' m') where
  pub relisted_leads : (name : K) → find (O.by name) (relisted t place l') ≡ find (O.by name) t
  relisted_leads name = find-update_at (relist l') (O.by name) t place (O.by-relist name l')

  -- Under the names that lead to the place stand all callbacks of its new list.
  IsFiled-here :
      (name : K) (q : Ptr)
      → find (O.by name) t ≡ some place
      → 0 < count q (cells_at forest place ++ (m.next, p) ∷ [])
      → IsFiled O m' (relisted t place l') name q
  IsFiled-here name q leads holds = record {
    place = place;
    node = relist l' n;
    cells = cells_at forest place ++ (m.next, p) ∷ [];
    leads = relisted_leads name ∙ leads;
    at = node_at-update_at (relist l') t place at;
    list = listed d.list;
    holds = holds;
  }

  pub IsFiled-new :
      (name : K) → find (O.by name) t ≡ some place → IsFiled O m' (relisted t place l') name p
  IsFiled-new name leads =
      IsFiled-here name p leads
        (ground (arith, count-append p (cells_at forest place) ((m.next, p) ∷ [])))

  -- What was filed before stays.
  pub IsFiled-Placed :
      (name : K) (q : Ptr) → IsFiled O m t name q → IsFiled O m' (relisted t place l') name q
  IsFiled-Placed name q f =
      let own : f.cells ≡ cells_at forest f.place =
        Listed-unique refl f.list (cells_at-Listed forest f.place f.at) in
      elim (Place-cases place f.place) [
        | inl same ↦
            let here : count q f.cells ≡ count q (cells_at forest place) =
              ap (count q) (own ∙ ap (cells_at forest) (sym same)) in
            IsFiled-here name q (f.leads ∙ ap some (sym same)) (
              omega
                (arith, f.holds, here, count-append q (cells_at forest place) ((m.next, p) ∷ [])))
        | inr ne ↦ record {
          place = f.place;
          node = f.node;
          cells = f.cells;
          leads = relisted_leads name ∙ f.leads;
          at = node_at-update_other (relist l') t place f.place ne ∙ f.at;
          list = frame_Listed f.list (omega (arith, d.next)) λ a i.
              let mine : has a (cells_at forest f.place) ≡ true = ap (has a) (sym own) ∙ i in
              let given : a < m.next =
                ground (arith, fresh a, has-append a xs ys, has-cells_at forest f.place a mine) in
              d.spared a given (cells_at-Apart forest place f.place ne a mine);
          holds = f.holds;
        }
      ]
