-- ===== src/Client/Periods.antt =====
-- The loop of `lua_client_command` of src/crazysnail.c over all timers of a subscription.
use crazy_snail.Common.{
  ℕ, suc, ◌+◌, ◌⊎◌, ◌≡◌, refl, sym, ap, ◌∙◌, ◌≤◌, true, List, [], ◌∷◌, ◌++◌, map, arith,
  if◌then◌else◌, length, length-append, subst, inl, inr, Option-cases, is_some,
}
use mathlib.Core.List.{append_assoc}
use crazy_snail.Text.{Bytes}
use crazy_snail.Memory.{Ptr, Channel, Memory}
use crazy_snail.Queue.Cells.{Cells}
use crazy_snail.Tree.{Tree}
use crazy_snail.Tree.Orders.{period_order}
use crazy_snail.Client.{Env, Host, done}
use crazy_snail.Client.Command.{subscribe_timer, subscribe_timers}
use crazy_snail.Client.Filed.{IsFiled}
use crazy_snail.Client.Underway.{Underway, Kept, Kept-refl, Kept-trans}
use mathlib.Core.List.{append_assoc, append-nil}
use crazy_snail.Tree.Shape.{find}
use crazy_snail.Tree.Timers.{by_period}
use crazy_snail.Client.Timers.{period_of, timer_channel, timed, Timed, subscribe_timer-Timed}

-- The callback is filed under each period, or the tree had the period already.
abbrev pub AllTimed : Tree → Memory → Tree → List Bytes → Ptr → Type 0
AllTimed t m' t' [] p = Unit {0}
AllTimed t m' t' (key ∷ keys) p =
    ((is_some (find (by_period (period_of key)) t) ≡ true)
      ⊎ IsFiled period_order m' t' (period_of key) p)
    × AllTimed t m' t' keys p

abbrev pub timer_channels : List Bytes → List Channel
timer_channels keys = map (λ key. timer_channel (period_of key)) keys

-- The end of the loop, with `n` cells more.
pub record TimersDone (m : Memory) (t : Tree) (xs ys : Cells) (p : Ptr) (chs : List Channel)
    (total : ℕ) (keys : List Bytes) (m' : Memory) (t' : Tree) (xs' : Cells) : Type 0 where
  pub underway : Underway period_order m' t' xs' ys p (chs ++ timer_channels keys) total
  pub n : ℕ
  pub kept : Kept period_order m t xs ys p n m' t' xs'
  pub most : n ≤ length keys
  pub filed : AllTimed t m' t' keys p

module _ {m m1 m2 : Memory} {t t1 t2 : Tree} {xs xs1 xs2 ys : Cells} {p : Ptr} {chs : List Channel}
    {total : ℕ} {ikey k : ℕ} (s : Timed m t xs ys p chs total ikey m1 t1 xs1)
    (kept : Kept period_order m1 t1 xs1 ys p k m2 t2 xs2) where
  -- What was filed since the first step is filed.
  AllTimed-cons : (keys : List Bytes) → AllTimed t1 m2 t2 keys p → AllTimed t m2 t2 keys p
  AllTimed-cons [] all = tt
  AllTimed-cons (key ∷ keys) (here, all) = (earlier here, AllTimed-cons keys all)
    where
      earlier :
          (is_some (find (by_period (period_of key)) t1) ≡ true)
            ⊎ IsFiled period_order m2 t2 (period_of key) p
          → (is_some (find (by_period (period_of key)) t) ≡ true)
            ⊎ IsFiled period_order m2 t2 (period_of key) p
      earlier (inr f) = inr f
      earlier (inl had) = elim (Option-cases (find (by_period (period_of key)) t1)) [
        | inl absent ↦ cc
        | inr (q, led) ↦ elim (s.only (period_of key) q led) [
          | inl before ↦ inl (ap is_some before)
          | inr f ↦ inr (kept.filed (period_of key) p f)
        ]
      ]

  -- So is the first.
  first-Timed : (is_some (find (by_period ikey) t) ≡ true) ⊎ IsFiled period_order m2 t2 ikey p
  first-Timed = elim (Option-cases (find (by_period ikey) t)) [
    | inl absent ↦ inr (kept.filed ikey p (s.filed absent))
    | inr (q, led) ↦ inl (ap is_some led)
  ]

TimersDone-cons :
    {m m1 m2 : Memory} {t t1 t2 : Tree} {xs xs1 xs2 ys : Cells} {p : Ptr} {chs : List Channel}
    {total : ℕ} {key : Bytes} {keys : List Bytes}
    → Timed m t xs ys p chs total (period_of key) m1 t1 xs1
    → TimersDone m1 t1 xs1 ys p (chs ++ timer_channel (period_of key) ∷ []) total keys m2 t2 xs2
    → TimersDone m t xs ys p chs total (key ∷ keys) m2 t2 xs2
TimersDone-cons {m2} {t} {t2} {xs2} {ys} {p} {chs} {total} {key} {keys} s d = record {
  underway =
      subst (λ cs. Underway period_order m2 t2 xs2 ys p cs total)
        (append_assoc chs (timer_channel (period_of key) ∷ []) (timer_channels keys)) d.underway;
  n = (if is_some (find (by_period (period_of key)) t) then 0 else 1) + d.n;
  kept = Kept-trans s.kept d.kept;
  most = ground (arith, d.most);
  filed = (first-Timed s d.kept, AllTimed-cons s d.kept keys d.filed);
}

module _ (H : Host) (ys : Cells) (p : Ptr) (total : ℕ) where
  TimersDone-nil :
      {m : Memory} {t : Tree} {xs : Cells} {chs : List Channel}
      → Underway period_order m t xs ys p chs total
      → TimersDone m t xs ys p chs total [] m t xs
  TimersDone-nil {m} {t} {xs} {chs} u = record {
    underway = subst (λ cs. Underway period_order m t xs ys p cs total) (sym (append-nil chs)) u;
    n = 0;
    kept = Kept-refl (omega arith) refl (λ c ne. refl) refl refl;
    most = omega arith;
    filed = tt;
  }

  subscribe_timers-cons :
      (e : Env H.Reader) (i : ℕ) (key : Bytes) (keys : List Bytes) (t1 t2 : Tree) {m1 m2 : Memory}
      → subscribe_timer H p i key e ≡ done tt (timed H e t1 m1)
      → subscribe_timers H p (suc i) keys (timed H e t1 m1) ≡ done tt (timed H e t2 m2)
      → subscribe_timers H p i (key ∷ keys) e ≡ done tt (timed H e t2 m2)
  unfolding subscribe_timers
  subscribe_timers-cons e i key keys t1 t2 one more = rw (subscribe_timers, one, more) refl

  subscribe_timers-nil : (e : Env H.Reader) (i : ℕ) → subscribe_timers H p i [] e ≡ done tt e
  unfolding subscribe_timers
  subscribe_timers-nil e i = refl

  pub subscribe_timers-Done :
      (keys : List Bytes) (e : Env H.Reader) {xs : Cells} (chs : List Channel)
      → Underway period_order e.memory e.client.timers xs ys p chs total
      → length chs + length keys ≤ total
      → (t' : Tree) × (m' : Memory) × (xs' : Cells) × (subscribe_timers H p (length chs) keys e
          ≡ done tt (timed H e t' m'))
        × TimersDone e.memory e.client.timers xs ys p chs total keys m' t' xs'
  subscribe_timers-Done [] e {xs} chs u h =
      (e.client.timers, e.memory, xs, subscribe_timers-nil e (length chs), TimersDone-nil u)
  subscribe_timers-Done (key ∷ keys) e {xs} chs u h =
      let (t1, m1, xs1, one, s) = subscribe_timer-Timed H e key u (omega (arith, h)) in
      let chs1 : List Channel = chs ++ timer_channel (period_of key) ∷ [] in
      let len : length chs1 ≡ suc (length chs) =
        omega (arith, length-append chs (timer_channel (period_of key) ∷ [])) in
      let (t2, m2, xs2, more, d) =
        subscribe_timers-Done keys (timed H e t1 m1) {xs = xs1} chs1 s.underway
          (omega (arith, h, len)) in
      (
        t2,
        m2,
        xs2,
        subscribe_timers-cons e (length chs) key keys t1 t2 one
            (ap (λ i. subscribe_timers H p i keys (timed H e t1 m1)) (sym len) ∙ more),
        TimersDone-cons s d,
      )
