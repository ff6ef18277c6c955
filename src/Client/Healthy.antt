-- ===== src/Client/Healthy.antt =====
-- A client of src/crazysnail.c whose lists, trees and reference counts are right, and its
-- subscriptions.
use crazy_snail.Common.{◌≡◌, refl, ◌∙◌, Bool, true, false, List, ◌++◌, arith, subst}
use crazy_snail.Text.{Bytes}
use crazy_snail.Memory.{Ptr, Ref, Memory}
use crazy_snail.Queue.Cells.{Cells, has, has-append, count, count-append, Counted, CountedBy-counts}
use crazy_snail.Tree.{Tree}
use crazy_snail.Tree.Orders.{IsSound, IsSoundTimers}
use crazy_snail.Client.{Client, Env, Host, done}
use crazy_snail.Client.Answers.{IsFresh}
use crazy_snail.Client.Closing.{Owned}
use crazy_snail.Client.Command.{subscribe_all}
use crazy_snail.Client.Subscribed.{tree_of}
use crazy_snail.Client.Parts.{Parts, Parts-swap}
use crazy_snail.Client.Subscribing.{subscribed, subscribe_all-Ended}
use crazy_snail.Client.Subscription.{IsRoomy, Subscription}

-- The cells `xs` of the trees and the queue are all that the callbacks count, every node has its key
-- in order and its list, and `malloc` gives out new addresses.
pub record IsHealthy {R : Type 0} (m : Memory) (cc : Client R) (xs : Cells) : Type 0 where
  pub owned : Owned m cc xs
  pub counted : Counted m xs
  pub fresh : IsFresh m xs
  pub channels : IsSound cc.channels
  pub patterns : IsSound cc.patterns
  pub timers : IsSoundTimers cc.timers
  pub roomy : IsRoomy m

module _ {R : Type 0} {m : Memory} {cc : Client R} where
  pub Owned-Parts :
      {xs : Cells} (o : Owned m cc xs)
      → Parts m cc.channels cc.patterns cc.timers cc.command_cb_list o.of_channels o.of_patterns
          o.of_timers o.of_commands
  Owned-Parts o = record {
    first = o.channels;
    second = o.patterns;
    timers = o.timers;
    commands = o.commands;
    apart_first = o.apart_channels;
    apart_second = o.apart_patterns;
    apart_timers = o.apart_timers;
  }

  pub Parts-Owned :
      {as_ bs ts qs : Cells}
      → Parts m cc.channels cc.patterns cc.timers cc.command_cb_list as_ bs ts qs
      → Owned m cc (as_ ++ (bs ++ (ts ++ qs)))
  Parts-Owned {as_} {bs} {ts} {qs} s = record {
    of_channels = as_;
    of_patterns = bs;
    of_timers = ts;
    of_commands = qs;
    channels = s.first;
    patterns = s.second;
    timers = s.timers;
    commands = s.commands;
    apart_channels = s.apart_first;
    apart_patterns = s.apart_second;
    apart_timers = s.apart_timers;
    all = refl;
  }

-- The order of the first two groups of cells does not matter.
swap-count :
    (c : Ptr) (as_ bs cs : Cells) → count c (as_ ++ (bs ++ cs)) ≡ count c (bs ++ (as_ ++ cs))
swap-count c as_ bs cs = omega (
  arith,
  count-append c as_ (bs ++ cs),
  count-append c bs cs,
  count-append c bs (as_ ++ cs),
  count-append c as_ cs,
)

swap-has : (a : Ptr) (as_ bs cs : Cells) → has a (as_ ++ (bs ++ cs)) ≡ has a (bs ++ (as_ ++ cs))
swap-has a as_ bs cs = ground (
  arith,
  has-append a as_ (bs ++ cs),
  has-append a bs cs,
  has-append a bs (as_ ++ cs),
  has-append a as_ cs,
)

swap-Counted :
    {m : Memory} (as_ bs cs : Cells) → Counted m (as_ ++ (bs ++ cs)) → Counted m (bs ++ (as_ ++ cs))
swap-Counted as_ bs cs =
    CountedBy-counts (as_ ++ (bs ++ cs)) (bs ++ (as_ ++ cs)) λ c. swap-count c bs as_ cs

swap-IsFresh :
    (m : Memory) (as_ bs cs : Cells) → IsFresh m (as_ ++ (bs ++ cs)) → IsFresh m (bs ++ (as_ ++ cs))
swap-IsFresh m as_ bs cs fresh a h =
    (swap-has a bs as_ cs ∙ (fresh a h).0, swap-count a bs as_ cs ∙ (fresh a h).1)

module _ (H : Host) (e : Env H.Reader) (r : Ref) (names keys : List Bytes) where
  -- The client after a subscription, in which everything is right again.
  abbrev pub Renewed : Bool → Type 0
  Renewed pvariant =
      (t u : Tree) × (m' : Memory) × (xs' : Cells) × (subscribe_all H pvariant r names keys e
        ≡ done tt (subscribed H e pvariant r names keys t u m'))
      × IsHealthy m' (subscribed H e pvariant r names keys t u m').client xs'
      × Subscription e.memory (tree_of pvariant e.client) e.client.timers r names keys e.memory.next
          m' t u

  -- On a client whose lists, search trees and reference counts are right, where `malloc` refuses
  -- nothing, a subscription leaves them right: its callback has the function and a channel for each
  -- name and each timer, in order, it is filed under each name and under each period that the tree of
  -- timers did not have, the other callbacks are as they were, and what was filed under a name of the
  -- tree still is.
  pub subscribe_all-IsHealthy :
      (pvariant : Bool) {xs : Cells} → IsHealthy e.memory e.client xs → Renewed pvariant
  subscribe_all-IsHealthy false {xs} h =
      let o = h.owned in
      let (t, u, m', run, d, s) =
        subscribe_all-Ended H e false r names keys (Owned-Parts o) h.channels h.timers
          (subst (Counted e.memory) o.all h.counted) (subst (IsFresh e.memory) o.all h.fresh)
          h.roomy in
      (
        t,
        u,
        m',
        _,
        run,
        record {
          owned = Parts-Owned d.parts;
          counted = d.counted;
          fresh = d.fresh;
          channels = d.first;
          patterns = h.patterns;
          timers = d.timers;
          roomy = d.roomy;
        },
        s,
      )
  subscribe_all-IsHealthy true {xs} h =
      let o = h.owned in
      let rest : Cells = o.of_timers ++ o.of_commands in
      let (t, u, m', run, d, s) =
        subscribe_all-Ended H e true r names keys (Parts-swap (Owned-Parts o)) h.patterns h.timers
          (swap-Counted o.of_channels o.of_patterns rest (subst (Counted e.memory) o.all h.counted))
          (swap-IsFresh e.memory o.of_channels o.of_patterns rest
            (subst (IsFresh e.memory) o.all h.fresh))
          h.roomy in
      (
        t,
        u,
        m',
        _,
        run,
        record {
          owned = Parts-Owned (Parts-swap d.parts);
          counted = swap-Counted d.firsts d.seconds (d.periods ++ d.waiting) d.counted;
          fresh = swap-IsFresh m' d.firsts d.seconds (d.periods ++ d.waiting) d.fresh;
          channels = h.channels;
          patterns = d.first;
          timers = d.timers;
          roomy = d.roomy;
        },
        s,
      )
