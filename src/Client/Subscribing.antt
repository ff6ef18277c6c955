-- ===== src/Client/Subscribing.antt =====
-- `lua_client_command` of src/crazysnail.c makes the callback of a subscription and files it in the trees.
use crazy_snail.Common.{
  ℕ, suc, ◌+◌, ◌≡◌, ◌≢◌, refl, sym, ap, ◌∙◌, ◌≤◌, Bool, false, some, List, [], ◌++◌, map, arith,
  length, length-append, subst,
}
use mathlib.Core.Option
use crazy_snail.Text.{Bytes}
use crazy_snail.Memory.{Ptr, null, Ref, Callback, Memory}
use crazy_snail.Queue.Cells.{Cells, has, has-append, count, count-append, Counted, CountedBy-counts}
use crazy_snail.Tree.{Tree}
use crazy_snail.Tree.Orders.{IsSound, IsSoundTimers, name_order, period_order}
use crazy_snail.Client.{Env, Host, done}
use crazy_snail.Client.Answers.{IsFresh}
use crazy_snail.Client.Command.{subscribe_all, subscribe_names, subscribe_timers}
use crazy_snail.Client.Building.{new_channel}
use crazy_snail.Client.Filed.{IsFiled, IsFiled-same}
use crazy_snail.Client.Underway.{Underway}
use crazy_snail.Client.Subscribed.{tree_of, with_tree, grown}
use crazy_snail.Client.Names.{Done, subscribe_names-Done}
use crazy_snail.Client.Timers.{timed}
use crazy_snail.Client.Periods.{timer_channels, TimersDone, subscribe_timers-Done}
use crazy_snail.Client.Parts.{
  Parts, Parts-first, Parts-timers, Parts-Apart, Underway-switch, IsFiled-spared,
}
use crazy_snail.Client.Start.{created, create_callback-created, Underway-start, Counted-built}
use crazy_snail.Client.Subscription.{
  IsRoomy, Subscription, Ended, timers-with_tree, length-new_channels, length-timer_channels,
  AllFiled-mono,
}

module _ (H : Host) (e : Env H.Reader) (pvariant : Bool) (r : Ref) (names keys : List Bytes) where
  -- The client after a subscription.
  abbrev pub subscribed : (t u : Tree) → Memory → Env H.Reader
  subscribed t u m = record e {
    client = record (with_tree pvariant e.client t) { timers = u };
    memory = m;
  }

  -- The memory with the callback, and its channels.
  abbrev m1 : Memory
  m1 = created e.memory r (length names + length keys)

  subscribe_all-run :
      (t u : Tree) {m2 m3 : Memory}
      → e.memory.next ≢ null
      → ((a : Ptr) → e.memory.oom a ≡ false)
      → subscribe_names H pvariant e.memory.next 0 names (record e { memory = m1 })
        ≡ done tt (grown H (record e { memory = m1 }) pvariant t m2)
      → subscribe_timers H e.memory.next
          (length names)
          keys
          (grown H (record e { memory = m1 }) pvariant t m2)
        ≡ done tt (timed H (grown H (record e { memory = m1 }) pvariant t m2) u m3)
      → subscribe_all H pvariant r names keys e ≡ done tt (subscribed t u m3)
  unfolding subscribe_all
  subscribe_all-run t u ne room first second =
      rw
        (
          subscribe_all,
          create_callback-created e.memory r (length names + length keys) ne room,
          first,
          second,
        )
        refl

  module _ {b : Tree} {as_ bs ts qs : Cells}
      (s : Parts e.memory
        (tree_of pvariant e.client)
        b
        e.client.timers
        e.client.command_cb_list
        as_
        bs
        ts
        qs)
      (sound : IsSound (tree_of pvariant e.client)) (sound_timers : IsSoundTimers e.client.timers)
      (all : Counted e.memory (as_ ++ (bs ++ (ts ++ qs))))
      (fresh : IsFresh e.memory (as_ ++ (bs ++ (ts ++ qs)))) (roomy : IsRoomy e.memory) where
    abbrev p : Ptr
    p = e.memory.next

    abbrev total : ℕ
    total = length names + length keys

    -- After the channels or patterns.
    module _ {t : Tree} {m2 : Memory} {cs : Cells}
        (d : Done m1
          (tree_of pvariant e.client)
          as_
          (bs ++ (ts ++ qs))
          p
          []
          total
          names
          m2
          t
          cs) where
      named-Parts : Parts m2 t b e.client.timers e.client.command_cb_list cs bs ts qs
      named-Parts =
          let later : suc (suc e.memory.next) ≤ m2.next = d.kept.grown in
          Parts-first s (omega (arith, later)) d.underway.forest d.underway.apart d.kept.spared

      timers-Underway :
          Underway period_order m2 e.client.timers ts
            (cs ++ (bs ++ qs))
            p
            (map new_channel names)
            total
      timers-Underway =
          Underway-switch period_order ts (cs ++ (bs ++ qs)) d.underway named-Parts.timers
            sound_timers (Parts-Apart named-Parts)
            (λ c. omega (
              arith,
              count-append c ts (cs ++ (bs ++ qs)),
              count-append c cs (bs ++ qs),
              count-append c bs qs,
              count-append c cs (bs ++ (ts ++ qs)),
              count-append c bs (ts ++ qs),
              count-append c ts qs,
            ))
            (λ a. ground (
              arith,
              has-append a ts (cs ++ (bs ++ qs)),
              has-append a cs (bs ++ qs),
              has-append a bs qs,
              has-append a cs (bs ++ (ts ++ qs)),
              has-append a bs (ts ++ qs),
              has-append a ts qs,
            ))

      module _ {u : Tree} {m3 : Memory} {us : Cells}
          (f : TimersDone m2 e.client.timers ts
            (cs ++ (bs ++ qs))
            p
            (map new_channel names)
            total
            keys
            m3
            u
            us) where
        all_channels : total ≡ length (map new_channel names ++ timer_channels keys)
        all_channels = omega (
          arith,
          length-append (map new_channel names) (timer_channels keys),
          length-new_channels names,
          length-timer_channels keys,
        )

        -- What was filed before the timers still is.
        still :
            (name : Bytes) (q : Ptr)
            → IsFiled name_order m2 t name q
            → IsFiled name_order m3 t name q
        still name q =
            IsFiled-spared d.underway.forest f.kept.grown
              λ a i. f.kept.spared a (ground (arith, has-append a cs (bs ++ qs)))

        final-Ended : Ended m3 t b u e.client.command_cb_list
        final-Ended =
            let later : m2.next ≤ m3.next = f.kept.grown in
            let counts : (c : Ptr)
                → count c (cs ++ (bs ++ (us ++ qs))) ≡ count c (us ++ (cs ++ (bs ++ qs))) =
              λ c. omega (
                arith,
                count-append c us (cs ++ (bs ++ qs)),
                count-append c cs (bs ++ qs),
                count-append c bs qs,
                count-append c cs (bs ++ (us ++ qs)),
                count-append c bs (us ++ qs),
                count-append c us qs,
              ) in
            let members : (a : Ptr)
                → has a (cs ++ (bs ++ (us ++ qs))) ≡ has a (us ++ (cs ++ (bs ++ qs))) =
              λ a. ground (
                arith,
                has-append a us (cs ++ (bs ++ qs)),
                has-append a cs (bs ++ qs),
                has-append a bs qs,
                has-append a cs (bs ++ (us ++ qs)),
                has-append a bs (us ++ qs),
                has-append a us qs,
              ) in
            record {
              firsts = cs;
              seconds = bs;
              periods = us;
              waiting = qs;
              parts =
                  Parts-timers named-Parts later f.underway.forest f.underway.apart f.kept.spared;
              first = d.underway.sound;
              timers = f.underway.sound;
              counted =
                  CountedBy-counts (us ++ (cs ++ (bs ++ qs))) (cs ++ (bs ++ (us ++ qs))) counts
                    (Counted-built (us ++ (cs ++ (bs ++ qs))) all_channels f.underway.counted);
              fresh = λ a h.
                  (members a ∙ (f.underway.fresh a h).0, counts a ∙ (f.underway.fresh a h).1);
              roomy = record { ne_null = f.underway.ne_null; room = f.underway.room };
            }

        final-Subscription :
            Subscription e.memory (tree_of pvariant e.client) e.client.timers r names keys p m3 t u
        final-Subscription =
            let k : Callback = f.underway.attached.at in
            let functions : Option.map (λ (x : Callback). x.ref) (m3.callback p) ≡ some r =
              f.kept.function ∙ d.kept.function ∙ ground arith in
            record {
              callback = k;
              there = f.underway.attached.there;
              function = cc (
                  ap (Option.map (λ (x : Callback). x.ref)) (sym f.underway.attached.there)
                  ∙ functions);
              channels = f.underway.attached.whole.1 refl;
              requests = f.kept.requests ∙ d.kept.requests;
              filed = AllFiled-mono names (λ name. still name p) d.filed;
              timers = f.filed;
              others = λ c ne. f.kept.others c ne ∙ d.kept.others c ne ∙ ground arith;
              kept = λ name q i.
                  still name q (d.kept.filed name q (IsFiled-same (omega arith) refl i));
            }

    pub subscribe_all-Ended :
        (t u : Tree) × (m' : Memory) × (subscribe_all H pvariant r names keys e
          ≡ done tt (subscribed t u m'))
        × Ended m' t b u e.client.command_cb_list
        × Subscription e.memory (tree_of pvariant e.client) e.client.timers r names keys p m' t u
    subscribe_all-Ended =
        let e1 : Env H.Reader = record e { memory = m1 } in
        let u1 : Underway name_order m1 (tree_of pvariant e.client) as_ (bs ++ (ts ++ qs)) p []
            total =
          Underway-start name_order (bs ++ (ts ++ qs)) r total s.first sound s.apart_first all fresh
            roomy.ne_null roomy.room in
        let (t, m2, cs, first, d) =
          subscribe_names-Done H pvariant (bs ++ (ts ++ qs)) p total names e1 {xs = as_} [] u1
            (omega arith) in
        let e2 : Env H.Reader = grown H e1 pvariant t m2 in
        let same : e2.client.timers ≡ e.client.timers = timers-with_tree pvariant e.client t in
        let ys : Cells = cs ++ (bs ++ qs) in
        let (u, m3, us, second, f) =
          subscribe_timers-Done H ys p total keys e2 {xs = ts} (map new_channel names)
            (subst (λ w. Underway period_order m2 w ts ys p (map new_channel names) total)
              (sym same) (timers-Underway d))
            (omega (arith, length-new_channels names)) in
        let f' : TimersDone m2 e.client.timers ts ys p (map new_channel names) total keys m3 u us =
          subst (λ w. TimersDone m2 w ts ys p (map new_channel names) total keys m3 u us) same f in
        (
          t,
          u,
          m3,
          subscribe_all-run t u roomy.ne_null roomy.room first
              (ap (λ i. subscribe_timers H p i keys e2) (sym (length-new_channels names)) ∙ second),
          final-Ended d f',
          final-Subscription d f',
        )
