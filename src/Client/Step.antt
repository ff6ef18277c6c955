-- ===== src/Client/Step.antt =====
-- One channel or timer of a subscription in `lua_client_command` of src/crazysnail.c.
use crazy_snail.Common.{
  ℕ, ◌⊎◌, ◌≡◌, refl, sym, ap, ◌∙◌, ◌<◌, ◌≤◌, none, some, List, [], ◌∷◌, ◌++◌, arith, length, inl,
  inr, Option-cases,
}
use mathlib.Core.Option
use crazy_snail.Memory.{Ptr, Channel, Callback, CallbackEnds, Memory}
use crazy_snail.Queue.Cells.{Cells, has-append}
use crazy_snail.Tree.{Tree, Place}
use crazy_snail.Tree.Shape.{All-node_at}
use crazy_snail.Tree.Refill.{relisted, cells_at, has-cells_at}
use crazy_snail.Tree.Relisted.{IsListed}
use crazy_snail.Tree.Orders.{Order}
use crazy_snail.Tree.Growth.{Inserted}
use crazy_snail.Client.{Env, Host, done}
use crazy_snail.Client.Command.{file_at}
use crazy_snail.Client.Building.{Building, Building-gained}
use crazy_snail.Client.Placing.{Placed, file_at-Placed}
use crazy_snail.Client.Filed.{
  IsFiled, IsFiled-same, IsFiled-Inserted, IsFiled-new, IsFiled-Placed, relisted_leads,
}
use crazy_snail.Tree.Shape.{find}
use crazy_snail.Client.Underway.{
  Underway, Kept, channeled, Underway-channel, Underway-Inserted, Underway-Placed,
}

-- The end of a step: the channel is made, and the callback filed under the key.
pub record Stepped {K : Type 0} (O : Order K) (m : Memory) (t : Tree) (xs ys : Cells) (p : Ptr)
    (chs : List Channel) (total : ℕ) (ch : Channel) (key : K) (m' : Memory) (t' : Tree)
    (xs' : Cells) : Type 0 where
  pub underway : Underway O m' t' xs' ys p (chs ++ ch ∷ []) total
  pub kept : Kept O m t xs ys p 1 m' t' xs'
  pub filed : IsFiled O m' t' key p
  pub only :
      (other : K) (q : Place)
      → find (O.by other) t' ≡ some q
      → (find (O.by other) t ≡ some q) ⊎ IsFiled O m' t' other p

module _ {K : Type 0} (O : Order K) {m : Memory} {t : Tree} {xs ys : Cells} {p : Ptr}
    {chs : List Channel} {total : ℕ} (ch : Channel) (n : Ptr) (later : m.next ≤ n)
    (h : length chs < total) (key : K) (u : Underway O m t xs ys p chs total) where
  pub Stepped-Placed :
      {t' : Tree} {leaf : Place} {k : Ptr} {l' : CallbackEnds} {m' : Memory}
      (ins : Inserted O (channeled m n p (length chs) ch u.attached.at) t key xs t' leaf k)
      (d : Placed
        (Building p (chs ++ ch ∷ []) total)
        (record (channeled m n p (length chs) ch u.attached.at) { next = k })
        t'
        leaf
        xs
        ys
        (cells_at ins.forest leaf)
        p
        l'
        m')
      → Stepped O m t xs ys p chs total ch key m' (relisted t' leaf l') d.cells
  Stepped-Placed {leaf} {k} ins d =
      let u2 = Underway-Inserted (Underway-channel ch n later h u) ins in
      let grown : n ≤ k = ins.grown in
      record {
        underway = Underway-Placed u2 d;
        kept = record {
          more = d.more;
          grown = omega (arith, later, grown, d.next);
          spared = λ a i.
              d.spared a (ground (arith, later, grown, u.fresh a, has-append a xs ys))
                (ground (arith, u.apart a i, has-cells_at ins.forest leaf a));
          others = λ c ne. ap (λ f. f c) d.callback ∙ ground arith;
          requests = d.requests;
          function =
              ap (λ f. Option.map (λ (k : Callback). k.ref) (f p)) d.callback
              ∙ ground (arith, u.attached.there);
          filed = λ other q f.
              IsFiled-Placed O ins.forest leaf ins.at u2.fresh d other q
                (IsFiled-Inserted ins (IsFiled-same later refl f));
        };
        filed = IsFiled-new O ins.forest leaf ins.at u2.fresh d key ins.leads;
        only = λ other q led.
            let led' = sym (relisted_leads O ins.forest leaf ins.at u2.fresh d other) ∙ led in
            elim (ins.only other q led') [
              | inl before ↦ inl before
              | inr here ↦
                  inr (IsFiled-new O ins.forest leaf ins.at u2.fresh d other (led' ∙ ap some here))
            ];
      }

module _ {K : Type 0} {O : Order K} (H : Host) (e : Env H.Reader) {t : Tree} {xs ys : Cells}
    {p : Ptr} {chs : List Channel} {total : ℕ} {key : K} {t0 : Tree} {leaf : Place} {k : Ptr} where
  -- Where a key leads, the callback is filed.
  pub file_at-Underway :
      (ins : Inserted O e.memory t0 key xs t leaf k)
      → Underway O (record e.memory { next = k }) t xs ys p chs total
      → (l' : CallbackEnds) × (m' : Memory) × (file_at H t
            (some leaf)
            p
            (record e { memory = record e.memory { next = k } })
          ≡ done (relisted t leaf l') (record e { memory = m' }))
        × Placed
            (Building p chs total)
            (record e.memory { next = k })
            t
            leaf
            xs
            ys
            (cells_at ins.forest leaf)
            p
            l'
            m'
  file_at-Underway ins u = elim (Option-cases ins.node.cb_list) [
    | inl absent ↦ absurd (unlisted absent)
    | inr (l, is_listed) ↦
        file_at-Placed H (record e { memory = record e.memory { next = k } })
          (Building-gained p chs total) ys ins.forest leaf l p ins.at is_listed u.apart u.counted
          u.attached u.fresh u.below u.ne_null u.room
  ]
    where
      unlisted : ¬ (ins.node.cb_list ≡ none)
      unlisted absent =
          let here = All-node_at IsListed t leaf (O.Sound-IsListed t ins.sound) ins.at in cc
