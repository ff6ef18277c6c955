-- ===== src/Client/Subscription.antt =====
-- The subscriptions of `lua_client_command` of src/crazysnail.c.
use crazy_snail.Common.{
  ◌+◌, ◌≡◌, ◌≢◌, refl, Bool, true, false, some, List, [], ◌∷◌, ◌++◌, map, arith, length,
}
use crazy_snail.Text.{Bytes}
use crazy_snail.Memory.{Ptr, null, Ref, Callback, CallbackEnds, Memory}
use crazy_snail.Queue.Cells.{Cells, Counted}
use crazy_snail.Tree.{Tree}
use crazy_snail.Tree.Orders.{IsSound, IsSoundTimers, name_order}
use crazy_snail.Client.{Client}
use crazy_snail.Client.Answers.{IsFresh}
use crazy_snail.Client.Building.{Partial, new_channel}
use crazy_snail.Client.Filed.{IsFiled}
use crazy_snail.Client.Subscribed.{with_tree}
use crazy_snail.Client.Names.{AllFiled}
use crazy_snail.Client.Periods.{AllTimed, timer_channels}
use crazy_snail.Client.Parts.{Parts}

-- A memory in which `malloc` refuses nothing.
pub record IsRoomy (m : Memory) : Type 0 where
  pub ne_null : m.next ≢ null
  pub room : (a : Ptr) → m.oom a ≡ false

-- What a subscription leaves: `p` has its function and its channels, and is filed under each name and
-- each new period; the other callbacks are as they were, and what was filed under a name of the tree
-- still is.
pub record Subscription (m : Memory) (t u : Tree) (r : Ref) (names keys : List Bytes) (p : Ptr)
    (m' : Memory) (t' u' : Tree) : Type 0 where
  pub callback : Callback
  pub there : m'.callback p ≡ some callback
  pub function : callback.ref ≡ r
  pub channels :
      Partial (map new_channel names ++ timer_channels keys) (length names + length keys) callback
  pub requests : m'.requests ≡ m.requests
  pub filed : AllFiled m' t' names p
  pub timers : AllTimed u m' u' keys p
  pub others : (c : Ptr) → c ≢ p → m'.callback c ≡ m.callback c
  pub kept :
      (name : Bytes) (q : Ptr) → IsFiled name_order m t name q → IsFiled name_order m' t' name q

-- The lists afterwards.
pub record Ended (m' : Memory) (a' b u' : Tree) (l : CallbackEnds) : Type 0 where
  pub firsts : Cells
  pub seconds : Cells
  pub periods : Cells
  pub waiting : Cells
  pub parts : Parts m' a' b u' l firsts seconds periods waiting
  pub first : IsSound a'
  pub timers : IsSoundTimers u'
  pub counted : Counted m' (firsts ++ (seconds ++ (periods ++ waiting)))
  pub fresh : IsFresh m' (firsts ++ (seconds ++ (periods ++ waiting)))
  pub roomy : IsRoomy m'

pub timers-with_tree :
    {R : Type 0} (pvariant : Bool) (cc : Client R) (t : Tree)
    → (with_tree pvariant cc t).timers ≡ cc.timers
timers-with_tree true cc t = refl
timers-with_tree false cc t = refl

pub length-new_channels : (names : List Bytes) → length (map new_channel names) ≡ length names
length-new_channels [] = refl
length-new_channels (name ∷ names) = omega (arith, length-new_channels names)

pub AllFiled-mono :
    {m m' : Memory} {t : Tree} {p : Ptr} (names : List Bytes)
    → ((name : Bytes) → IsFiled name_order m t name p → IsFiled name_order m' t name p)
    → AllFiled m t names p
    → AllFiled m' t names p
AllFiled-mono [] still all = tt
AllFiled-mono (name ∷ names) still (here, all) = (still name here, AllFiled-mono names still all)

pub length-timer_channels : (keys : List Bytes) → length (timer_channels keys) ≡ length keys
length-timer_channels [] = refl
length-timer_channels (key ∷ keys) = omega (arith, length-timer_channels keys)
