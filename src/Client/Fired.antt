-- ===== src/Client/Fired.antt =====
-- A timer of src/crazysnail.c that was subscribed to fires.
use crazy_snail.Common.{
  ℕ, suc, refl, none, ◌≡◌, ◌≢◌, ap, ◌∙◌, ◌≤◌, ◌<◌, Bool, true, false, Option, some, List, [], ◌∷◌,
  ◌++◌, arith, get_elem?, Option-cases, inl, inr, ◌⊎◌, is_some,
}
use crazy_snail.Text.{Bytes}
use crazy_snail.Memory.{Ptr, Ref, Callback, CallbackEnds, Memory, ok, abort}
use crazy_snail.Queue.Cells.{Cells, count, count-append}
use crazy_snail.Queue.Destroy.{length-Seg}
use crazy_snail.Tree.{Node, Tree, Place, node_at}
use crazy_snail.Tree.Shape.{find}
use crazy_snail.Tree.Timers.{IsOrdered, by_period, search_timer-find, search_timer_iff}
use crazy_snail.Tree.Destroy.{Listed, listed, unlisted}
use crazy_snail.Tree.Orders.{period_order}
use crazy_snail.Client.{Env, Host, done}
use crazy_snail.Client.Calls.{Holds, IsEvent, IsTame, called_all, on_timer-calls}
use crazy_snail.Client.Dispatch.{on_timer}
use crazy_snail.Reply.{LuaValue}
use crazy_snail.Client.Command.{subscribe_all}
use crazy_snail.Client.Filed.{IsFiled}
use crazy_snail.Client.Timers.{period_of}
use crazy_snail.Client.Periods.{AllTimed}
use crazy_snail.Client.Subscribed.{with_tree}
use crazy_snail.Client.Subscribing.{subscribed}
use crazy_snail.Client.Healthy.{IsHealthy, subscribe_all-IsHealthy}
use crazy_snail.Client.Delivered.{Held, all-Held, filed-AllAt, all-counts}

-- Where a period leads is a node with the period.
found-period :
    (t : Tree) (ikey : ℕ) (m : Memory) (p : Place)
    → IsOrdered t
    → find (by_period ikey) t ≡ some p
    → (x : Node) × (node_at t p ≡ some x) × (x.ikey ≡ ikey)
found-period t ikey m p ordered led = (search_timer_iff t ikey p m ordered).0 (
    search_timer-find t ikey m
    ∙ ap {A = Option Place} (λ o. elim o [ some q ↦ ok q m | none ↦ abort ]) led)

AllTimed-among :
    (t : Tree) {m : Memory} {u : Tree} (key : Bytes) {p : Ptr} (before after : List Bytes)
    → AllTimed t m u (before ++ key ∷ after) p
    → (is_some (find (by_period (period_of key)) t) ≡ true)
      ⊎ IsFiled period_order m u (period_of key) p
AllTimed-among t key [] after all = all.0
AllTimed-among t key (x ∷ before) after all = AllTimed-among t key before after all.1

-- No node has the period.
abbrev pub IsUnused : Tree → ℕ → Type 0
IsUnused t ikey = (p : Place) (x : Node) → node_at t p ≡ some x → x.ikey ≢ ikey

IsUnused-not_found :
    (t : Tree) (ikey : ℕ) (m : Memory)
    → IsOrdered t
    → IsUnused t ikey
    → is_some (find (by_period ikey) t) ≡ false
IsUnused-not_found t ikey m ordered new = elim (Option-cases (find (by_period ikey) t)) [
  | inl absent ↦ ap is_some absent
  | inr (q, led) ↦
      let (x, at, period) = found-period t ikey m q ordered led in absurd (new q x at period)
]

module _ (H : Host) (e : Env H.Reader) {xs : Cells} (h : IsHealthy e.memory e.client xs)
    (tame : IsTame H) (n : ℕ) (fuel : e.memory.next < n) (ikey timeout : ℕ) (p : Ptr) (k : Callback)
    (f : IsFiled period_order e.memory e.client.timers ikey p)
    (on : e.client.flags.disconnecting ≡ false) where
  -- The timer calls the callbacks of the cells of its period, one of them `k`.
  abbrev Fired : Cells → Type 0
  Fired zs =
      (ks : List Callback) × (i : ℕ) × (v : LuaValue) × (get_elem? ks i ≡ some k)
      × Holds e.memory zs ks
      × IsEvent ikey timeout v
      × (on_timer H n ikey timeout e ≡ done tt (called_all H v ks e))

  fired :
      {l : Option CallbackEnds} {zs : Cells}
      → Listed e.memory l zs
      → f.node.cb_list ≡ l
      → 0 < count p zs
      → (d : Held e.memory zs) → (i : ℕ) → get_elem? d.callbacks i ≡ some k
      → f.node.ikey ≡ ikey
      → Fired zs
  fired unlisted e' some_cells d i at period = absurd (omega (arith, some_cells))
  fired {zs} (listed {l} q) e' some_cells d i at period =
      let (v, event, run) =
        on_timer-calls H tame ikey timeout n e f.place f.node l d.callbacks on h.timers.order f.at
          period e' q d.holds (omega (arith, fuel, length-Seg q.chain)) in
      (d.callbacks, i, v, at, d.holds, event, run)

  filed-Fired : e.memory.callback p ≡ some k → Fired f.cells
  filed-Fired there =
      let o = h.owned in
      let few : (c : Ptr) → count c o.of_timers ≤ count c xs =
        λ c. omega (arith, all-counts H e h c, count-append c o.of_timers o.of_commands) in
      let d = all-Held {m = e.memory} f.cells (filed-AllAt xs o.timers h.counted few f) in
      let (i, at) = d.among p k f.holds there in
      let (x, found, period) =
        found-period e.client.timers ikey e.memory f.place h.timers.order f.leads in
      fired f.list refl f.holds d i at (cc (found, f.at, period))

module _ (H : Host) (e : Env H.Reader) where
  -- A function `r` that subscribes to channels or patterns and to timers gets a callback in the list
  -- of the period of each timer whose period no node of the tree had before, and when such a timer
  -- fires, the functions of all callbacks of that list are called, each once and in order, with the
  -- event, its period and its timeout as signed 64-bit numbers, as long as the callback is
  -- initialized in the memory, while one that is not gets a text: if the lists, the search trees and
  -- the reference counts of the client are right, the client is not disconnecting, `malloc` refuses
  -- nothing and gives out addresses other than NULL, and no Lua function touches the memory.
  pub subscribe_all-fired :
      (pvariant : Bool) (r : Ref) (names before after : List Bytes) (key : Bytes) (timeout : ℕ)
      {xs : Cells}
      → IsTame H
      → IsHealthy e.memory e.client xs
      → e.client.flags.disconnecting ≡ false
      → IsUnused e.client.timers (period_of key)
      → (e' : Env H.Reader) × (p : Ptr) × (f : IsFiled period_order e'.memory e'.client.timers
          (period_of key)
          p)
        × (ks : List Callback) × (i : ℕ) × (k : Callback) × (v : LuaValue) × (subscribe_all H
              pvariant r names
              (before ++ key ∷ after)
              e
            ≡ done tt e')
        × (e'.memory.callback p ≡ some k)
        × (k.ref ≡ r)
        × Holds e'.memory f.cells ks
        × (get_elem? ks i ≡ some k)
        × IsEvent (period_of key) timeout v
        × (on_timer H (suc e'.memory.next) (period_of key) timeout e'
            ≡ done tt (called_all H v ks e'))
  subscribe_all-fired pvariant r names before after key timeout tame h on new =
      let (t, u, m', xs', run, h', s) =
        subscribe_all-IsHealthy H e r names (before ++ key ∷ after) pvariant h in
      let e' : Env H.Reader = subscribed H e pvariant r names (before ++ key ∷ after) t u m' in
      elim (AllTimed-among e.client.timers key before after s.timers) [
        | inl had ↦ absurd (
            cc
              (had, IsUnused-not_found e.client.timers (period_of key) e.memory h.timers.order new))
        | inr f ↦
            let (ks, i, v, at, holds, event, call) =
              filed-Fired H e' h' tame (suc m'.next) (omega arith) (period_of key) timeout
                e.memory.next s.callback f (stays pvariant t ∙ on) s.there in
            (
              e', e.memory.next, f, ks, i, s.callback, v, run, s.there, s.function, holds, at,
              event, call,
            )
      ]
    where
      stays :
          (pvariant : Bool) (t : Tree)
          → (with_tree pvariant e.client t).flags.disconnecting ≡ e.client.flags.disconnecting
      stays true t = refl
      stays false t = refl
