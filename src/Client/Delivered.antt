-- ===== src/Client/Delivered.antt =====
-- A message of src/crazysnail.c about a channel that was subscribed to.
use crazy_snail.Common.{
  ℕ, suc, ◌+◌, ◌≡◌, ◌≢◌, refl, sym, ap, ◌∙◌, ◌≤◌, ◌<◌, Bool, true, false, some, List, [], ◌∷◌, ◌++◌,
  arith, get_elem?, Bool-cases, inl, inr, ◌==◌, ==_iff,
}
use crazy_snail.Text.{Bytes}
use crazy_snail.Memory.{Ptr, null, Callback, Memory}
use crazy_snail.Queue.Cells.{Cells, count, count-append, Counted}
use crazy_snail.Tree.{Tree}
use crazy_snail.Tree.Destroy.{Forest}
use crazy_snail.Tree.Refill.{cells_at, cells_at-Listed}
use crazy_snail.Tree.Orders.{Order}
use crazy_snail.Reply.{Replies, array, item, string, LuaValue}
use crazy_snail.Client.{Env, Host, done}
use crazy_snail.Client.Calls.{Holds, called_all}
use crazy_snail.Client.Dispatch.{get_and_call_sub_cb}
use crazy_snail.Client.Filed.{IsFiled, Listed-unique}
use crazy_snail.Client.Placing.{cells_without}
use crazy_snail.Client.Healthy.{IsHealthy}

-- The callbacks of cells whose callbacks are there, and where each stands among them.
pub record Held (m : Memory) (xs : Cells) : Type 0 where
  pub callbacks : List Callback
  pub holds : Holds m xs callbacks
  pub among :
      (p : Ptr) (k : Callback)
      → 0 < count p xs
      → m.callback p ≡ some k
      → (i : ℕ) × (get_elem? callbacks i ≡ some k)

Held-cons :
    {m : Memory} (p : Ptr) {c : Ptr} {k : Callback} {xs : Cells}
    → c ≢ null
    → m.callback c ≡ some k
    → Held m xs
    → Held m ((p, c) ∷ xs)
Held-cons {m} p {c} {k} {xs} ne there d = record {
  callbacks = k ∷ d.callbacks;
  holds = (ne, there, d.holds);
  among = λ q j h e. elim (Bool-cases (q == c)) [
    | inl same ↦ (0, sym there ∙ ap m.callback (sym ((==_iff q c).0 same)) ∙ e)
    | inr other ↦ let (i, at) = d.among q j (ground arith) e in (suc i, at)
  ];
}

-- Cells whose callbacks are there.
abbrev pub AllAt : Memory → Cells → Type 0
AllAt m xs = (c : Ptr) → 0 < count c xs → (k : Callback) × (c ≢ null) × (m.callback c ≡ some k)

pub all-Held : {m : Memory} (xs : Cells) → AllAt m xs → Held m xs
all-Held [] all = record { callbacks = []; holds = tt; among = λ p k h. absurd (omega (arith, h)) }
all-Held {m} ((p, c) ∷ xs) all =
    let (k, ne, there) = all c (ground arith) in
    let rest : AllAt m xs = λ a h. all a (ground arith) in Held-cons p ne there (all-Held xs rest)

-- The cells of a name are among those of the tree.
pub filed-AllAt :
    {K : Type 0} {O : Order K} {m : Memory} {t : Tree} {xs : Cells} (zs : Cells) {key : K} {p : Ptr}
    → Forest m t xs
    → Counted m zs
    → ((c : Ptr) → count c xs ≤ count c zs)
    → (f : IsFiled O m t key p) → AllAt m f.cells
filed-AllAt {xs} zs forest all within f c some_cells =
    let own : f.cells ≡ cells_at forest f.place =
      Listed-unique refl f.list (cells_at-Listed forest f.place f.at) in
    let (rs, _, rest) = cells_without forest f.place f.at in
    let att = all c (omega (arith, some_cells, ap (count c) own, rest c, within c)) in
    (att.at, att.ne_null, att.there)

-- The tree of a kind, its cells, and its names.
module _ (H : Host) (e : Env H.Reader) {xs : Cells} (h : IsHealthy e.memory e.client xs) where
  cells_for : Bool → Cells
  cells_for true = h.owned.of_patterns
  cells_for false = h.owned.of_channels

  pub all-counts :
      (c : Ptr)
      → count c xs
        ≡ count c h.owned.of_channels
          + (count c h.owned.of_patterns + count c (h.owned.of_timers ++ h.owned.of_commands))
  all-counts c =
      let o = h.owned in
      ap (count c) o.all
      ∙ omega (
        arith,
        count-append c o.of_channels (o.of_patterns ++ (o.of_timers ++ o.of_commands)),
        count-append c o.of_patterns (o.of_timers ++ o.of_commands),
      )

  -- A message reaches the callbacks of the cells of its name, one of them `k`.
  abbrev Reached : ℕ → (stype sname : Bytes) → Replies → LuaValue → Callback → Cells → Type 0
  Reached n stype sname more v k zs =
      (ks : List Callback) × (i : ℕ) × (get_elem? ks i ≡ some k)
      × Holds e.memory zs ks
      × (get_and_call_sub_cb H n (array (item (string stype) (item (string sname) more))) e
          ≡ done tt (called_all H v ks e))
