-- ===== src/Client/Timers.antt =====
-- The loop of `lua_client_command` of src/crazysnail.c over the timers of a subscription.
use crazy_snail.Common.{
  ℕ, suc, ◌⊎◌, ◌≡◌, ◌≢◌, refl, sym, ◌<◌, true, false, Option, none, some, List, [], ◌∷◌, ◌++◌,
  arith, if◌then◌else◌, length, subst, inl, inr, is_some,
}
use crazy_snail.Text.{Bytes}
use crazy_snail.Memory.{Ptr, null, Channel, Callback, malloc, Memory, ok}
use crazy_snail.Callback.{create_timer_channel, no_flags, snail_ok}
use crazy_snail.Queue.Cells.{Cells}
use crazy_snail.Tree.{Tree, Place, insert_timer}
use crazy_snail.Tree.Refill.{relisted}
use crazy_snail.Tree.Orders.{period_order}
use crazy_snail.Tree.Growth.{insert_timer-Inserted}
use crazy_snail.Client.{Env, Host, done}
use crazy_snail.Client.Command.{file_at, subscribe_timer}
use crazy_snail.Client.Building.{set_channel-ok}
use crazy_snail.Client.Filed.{IsFiled}
use crazy_snail.Client.Step.{Stepped, Stepped-Placed, file_at-Underway}
use crazy_snail.Client.Underway.{
  Underway, Kept, channeled, Kept-refl, Underway-channel, Underway-Inserted,
}
use crazy_snail.Text.Decimal.{strtol}
use crazy_snail.Reply.{timer_event}
use crazy_snail.Common.{drop, pos}
use crazy_snail.Tree.Shape.{find}
use crazy_snail.Tree.Timers.{by_period}

-- The period of a key, and its channel.
abbrev pub period_of : Bytes → ℕ
period_of key = strtol (drop (length timer_event) key)

abbrev pub timer_channel : ℕ → Channel
timer_channel ikey = record {
  name = none;
  ikey = ikey;
  flags = record no_flags { timer_event = true };
}

create_timer_channel-ok :
    (m : Memory) (ikey : ℕ)
    → m.next ≢ null
    → ((a : Ptr) → m.oom a ≡ false)
    → create_timer_channel none ikey m
      ≡ ok (snail_ok, some (timer_channel ikey)) (record m { next = suc m.next })
unfolding create_timer_channel malloc
create_timer_channel-ok m ikey ne room = ground (arith, room m.next)

-- One block later.
abbrev later : {R : Type 0} → Env R → Env R
later e = record e { memory = record e.memory { next = suc e.memory.next } }

module _ (H : Host) (e : Env H.Reader) where
  -- The client with other timers and another memory.
  abbrev pub timed : Tree → Memory → Env H.Reader
  timed t m = record e { client = record e.client { timers = t }; memory = m }

  module _ (p : Ptr) (i : ℕ) (key : Bytes) (k : Callback) (ne : e.memory.next ≢ null)
      (room : (a : Ptr) → e.memory.oom a ≡ false) (pne : p ≢ null)
      (there : e.memory.callback p ≡ some k) where
    subscribe_timer-known :
        {t : Tree} {leaf : Option Place} {m : Memory}
        → insert_timer e.client.timers
            (period_of key)
            (channeled e.memory (suc e.memory.next) p i (timer_channel (period_of key)) k)
          ≡ ok (snail_ok, t, leaf) m
        → subscribe_timer H p i key e ≡ done tt (timed t m)
    unfolding subscribe_timer
    subscribe_timer-known inserted =
        rw
          (
            subscribe_timer,
            create_timer_channel-ok e.memory (period_of key) ne room,
            set_channel-ok H (later e) p i (timer_channel (period_of key)) k pne there,
            inserted,
          )
          refl

    subscribe_timer-new :
        {t t' : Tree} {leaf : Option Place} {m m' : Memory}
        → insert_timer e.client.timers
            (period_of key)
            (channeled e.memory (suc e.memory.next) p i (timer_channel (period_of key)) k)
          ≡ ok (pos 2, t, leaf) m
        → file_at H t leaf p (timed t m) ≡ done t' (timed t m')
        → subscribe_timer H p i key e ≡ done tt (timed t' m')
    unfolding subscribe_timer
    subscribe_timer-new inserted filed =
        rw
          (
            subscribe_timer,
            create_timer_channel-ok e.memory (period_of key) ne room,
            set_channel-ok H (later e) p i (timer_channel (period_of key)) k pne there,
            inserted,
            filed,
          )
          refl

-- The end of a step: the channel is made, and the callback filed, in a new cell, exactly if the tree
-- did not have the period.
pub record Timed (m : Memory) (t : Tree) (xs ys : Cells) (p : Ptr) (chs : List Channel) (total : ℕ)
    (ikey : ℕ) (m' : Memory) (t' : Tree) (xs' : Cells) : Type 0 where
  pub underway : Underway period_order m' t' xs' ys p (chs ++ timer_channel ikey ∷ []) total
  pub kept :
      Kept period_order m t xs ys p (if is_some (find (by_period ikey) t) then 0 else 1) m' t' xs'
  pub known : (q : Place) → find (by_period ikey) t ≡ some q → t' ≡ t
  pub filed : find (by_period ikey) t ≡ none → IsFiled period_order m' t' ikey p
  pub only :
      (other : ℕ) (q : Place)
      → find (by_period other) t' ≡ some q
      → (find (by_period other) t ≡ some q) ⊎ IsFiled period_order m' t' other p

module _ (H : Host) (e : Env H.Reader) {xs ys : Cells} {p : Ptr} {chs : List Channel} {total : ℕ}
    (key : Bytes) (u : Underway period_order e.memory e.client.timers xs ys p chs total)
    (h : length chs < total) where
  -- The memory with the channel.
  abbrev made : Memory
  made =
      channeled e.memory (suc e.memory.next) p (length chs) (timer_channel (period_of key))
        u.attached.at

  made-Underway :
      Underway period_order made e.client.timers xs ys p
        (chs ++ timer_channel (period_of key) ∷ [])
        total
  made-Underway =
      Underway-channel (timer_channel (period_of key)) (suc e.memory.next) (omega arith) h u

  known-Timed :
      (q : Place)
      → find (by_period (period_of key)) e.client.timers ≡ some q
      → Timed e.memory e.client.timers xs ys p chs total (period_of key) made e.client.timers xs
  known-Timed q there = record {
    underway = made-Underway;
    kept =
        subst
          (λ o.
            Kept period_order e.memory e.client.timers xs ys p (if is_some o then 0 else 1) made
              e.client.timers xs)
          (sym there)
          (Kept-refl (omega arith) refl (λ c ne. ground arith) refl
            (ground (arith, u.attached.there)));
    known = λ _ _. refl;
    filed = λ absent. cc;
    only = λ other q' led. inl led;
  }

  new-Timed :
      {m' : Memory} {t' : Tree} {xs' : Cells}
      → find (by_period (period_of key)) e.client.timers ≡ none
      → Stepped period_order e.memory e.client.timers xs ys p chs total
          (timer_channel (period_of key))
          (period_of key)
          m'
          t'
          xs'
      → Timed e.memory e.client.timers xs ys p chs total (period_of key) m' t' xs'
  new-Timed {m'} {t'} {xs'} absent s = record {
    underway = s.underway;
    kept =
        subst
          (λ o.
            Kept period_order e.memory e.client.timers xs ys p (if is_some o then 0 else 1) m' t'
              xs')
          (sym absent) s.kept;
    known = λ q there. cc;
    filed = λ _. s.filed;
    only = s.only;
  }

  pub subscribe_timer-Timed :
      (t' : Tree) × (m' : Memory) × (xs' : Cells) × (subscribe_timer H p (length chs) key e
        ≡ done tt (timed H e t' m'))
      × Timed e.memory e.client.timers xs ys p chs total (period_of key) m' t' xs'
  subscribe_timer-Timed =
      elim (insert_timer-Inserted (period_of key) made-Underway.forest made-Underway.sound
        made-Underway.ne_null made-Underway.room) [
          | inl (q, there, run) ↦ (
            e.client.timers,
            made,
            xs,
            subscribe_timer-known H e p (length chs) key u.attached.at u.ne_null u.room
                u.attached.ne_null u.attached.there run,
            known-Timed q there,
          )
          | inr (t', leaf, k, absent, run, ins) ↦
              let (l', m', filed, d) =
                file_at-Underway H (timed H e t' made) ins (Underway-Inserted made-Underway ins) in
              (
                relisted t' leaf l',
                m',
                d.cells,
                subscribe_timer-new H e p (length chs) key u.attached.at u.ne_null u.room
                    u.attached.ne_null u.attached.there run filed,
                new-Timed absent (
                    Stepped-Placed period_order (timer_channel (period_of key)) (suc e.memory.next)
                      (omega arith) h (period_of key) u ins d),
              )
        ]
