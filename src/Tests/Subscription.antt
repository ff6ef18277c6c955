-- ===== src/Tests/Subscription.antt =====
-- A client with a channel, a timer and a command subscribes to two channels and two timers, of which
-- it has one.
use crazy_snail.Common.{◌≡◌, refl, false, some, List, [], ◌∷◌, ◌++◌, arith}
use crazy_snail.Text.{Bytes, bytes, c_str}
use crazy_snail.Reply.{timer_event}
use crazy_snail.Memory.{Ptr, ref}
use crazy_snail.Memory.{Callback, Memory}
use crazy_snail.Common.{true, ℕ, suc, pos, get_elem?}
use crazy_snail.Text.{strncmp, strlen}
use crazy_snail.Reply.{LuaValue, string}
use crazy_snail.Client.{Client, Env, done}
use crazy_snail.Client.Connection.{no_client_flags, no_streams, lua_client_exit}
use crazy_snail.Client.Closing.{Owned, emptied, all_timers}
use crazy_snail.Client.Exit.{exit_log}
use crazy_snail.Client.Session.{
  Issued, AllIssued, IsOnline, wire, command_all, written_all, lua_client_exit-command_all,
}
use crazy_snail.Queue.Cells.{Cells}
use crazy_snail.Tree.Destroy.{Freed}
use crazy_snail.Client.Calls.{called_all, Holds, IsEvent}
use crazy_snail.Client.Command.{
  LuaArg, Collected, nothing, collect, collect_arg, collect_key, collect_items, split_last,
  subscribe_all, lua_client_command,
}
use crazy_snail.Client.Fired.{IsUnused, subscribe_all-fired}
use crazy_snail.Client.Timers.{period_of}
use crazy_snail.Text.Decimal.{strtol}
use crazy_snail.Tree.{left, right}
use crazy_snail.Client.Dispatch.{on_timer}
use crazy_snail.Client.Filed.{IsFiled}
use crazy_snail.Tree.Orders.{period_order}
use crazy_snail.Client.Written.{Sent, lua_client_command-Sent}
use crazy_snail.Tests.Calls.{terminated_foo}
use crazy_snail.Client.Healthy.{IsHealthy, Renewed, subscribe_all-IsHealthy}
use crazy_snail.Tests.Client.{
  host, host-IsTame, store, client, client-Owned, store-Attached, all_cells, env,
}

abbrev names : List Bytes
names = bytes "foo" ∷ bytes "bar" ∷ []

-- The tree has the first of the periods.
abbrev keys : List Bytes
keys = (timer_event ++ bytes "500") ∷ (timer_event ++ bytes "700") ∷ []

client-IsHealthy : IsHealthy store client all_cells
unfolding c_str
client-IsHealthy = record {
  owned = client-Owned;
  counted = store-Attached all_cells λ c. refl;
  fresh = λ a h. (ground arith, ground arith);
  channels = record {
    search = record {
      named = (refl, tt, tt);
      terminated = (terminated_foo, tt, tt);
      ordered = (tt, tt, tt, tt);
    };
    lists = (refl, tt, tt);
  };
  patterns = record { search = record { named = tt; terminated = tt; ordered = tt }; lists = tt };
  timers = record { order = (tt, tt, tt, tt); lists = (refl, tt, tt) };
  roomy = record { ne_null = ground arith; room = λ a. refl };
}

subscribe_all-IsHealthy_example : Renewed host env (ref 9) names keys false
subscribe_all-IsHealthy_example =
    subscribe_all-IsHealthy host env (ref 9) names keys false {xs = all_cells} client-IsHealthy

-- The same client, connected.
abbrev online : Client (Unit {0})
online = record client { flags = record no_client_flags { connected = true } }

online-Owned : Owned store online all_cells
online-Owned =
    let o = client-Owned in
    record {
      of_channels = o.of_channels;
      of_patterns = o.of_patterns;
      of_timers = o.of_timers;
      of_commands = o.of_commands;
      channels = o.channels;
      patterns = o.patterns;
      timers = o.timers;
      commands = o.commands;
      apart_channels = o.apart_channels;
      apart_patterns = o.apart_patterns;
      apart_timers = o.apart_timers;
      all = o.all;
    }

online-IsHealthy : IsHealthy store online all_cells
online-IsHealthy =
    let h = client-IsHealthy in
    record {
      owned = online-Owned;
      counted = h.counted;
      fresh = h.fresh;
      channels = h.channels;
      patterns = h.patterns;
      timers = h.timers;
      roomy = h.roomy;
    }

abbrev online_env : Env (Unit {0})
online_env = record { client = online; memory = store; log = [] }

abbrev subscription : List LuaArg
subscription =
    LuaArg.string (bytes "subscribe") ∷ LuaArg.string (bytes "foo") ∷ LuaArg.function 9 ∷ []

abbrev collected : Collected
collected = record { argv = bytes "subscribe" ∷ bytes "foo" ∷ []; timers = [] }

subscription_is_collected :
    collect host nothing ((split_last host subscription).0) online_env ≡ done collected online_env
unfolding collect collect_arg collect_key collect_items strncmp strlen c_str
subscription_is_collected = refl

lua_client_command-Sent_example :
    (e' : Env (Unit {0})) × (lua_client_command host (pos 0) subscription online_env ≡ done tt e')
    × Sent host online_env (bytes "subscribe") (bytes "foo" ∷ []) [] e'
lua_client_command-Sent_example =
    lua_client_command-Sent host subscription online_env collected (bytes "subscribe")
      (bytes "foo" ∷ []) [] {xs = all_cells} online-IsHealthy refl refl refl refl tt
      subscription_is_collected refl

-- That subscription, a command with a function, and an end of the subscription.
abbrev session : List Issued
session =
    record { args = subscription; cmd = bytes "subscribe"; names = bytes "foo" ∷ []; timers = [] }
    ∷ record {
      args =
          LuaArg.string (bytes "get") ∷ LuaArg.string (bytes "counter") ∷ LuaArg.function 10 ∷ [];
      cmd = bytes "get";
      names = bytes "counter" ∷ [];
      timers = [];
    }
    ∷ record {
      args =
          LuaArg.string (bytes "unsubscribe")
          ∷ LuaArg.string (bytes "foo")
          ∷ LuaArg.function 9
          ∷ [];
      cmd = bytes "unsubscribe";
      names = bytes "foo" ∷ [];
      timers = [];
    }
    ∷ []

session_is_issued : AllIssued host session
unfolding collect collect_arg collect_key collect_items strncmp strlen c_str
session_is_issued = (λ e. refl, (λ e. refl, (λ e. refl, tt)))

session-IsOnline : IsOnline host online_env all_cells
session-IsOnline = record {
  healthy = online-IsHealthy;
  connected = refl;
  disconnecting = refl;
  freeing = refl;
  stream = ground arith;
  sub_stream = ground arith;
  pooled = tt;
}

lua_client_exit-command_all_example :
    (e' : Env (Unit {0})) × (cells : Cells) × (m' : Memory) × (command_all host session online_env
      ≡ done tt e')
    × IsHealthy e'.memory e'.client cells
    × (wire e'.log ≡ written_all host online session [])
    × Freed e'.memory cells [] (all_timers e'.client) m'
    × (lua_client_exit host e'
        ≡ done tt (record e' {
          client = emptied (record e'.client { stream_flags = no_streams });
          memory = m';
          log = exit_log host e'.client e'.log;
        }))
lua_client_exit-command_all_example =
    lua_client_exit-command_all host session online_env {xs = all_cells} session-IsOnline
      session_is_issued

key_700-IsUnused : IsUnused client.timers (period_of (timer_event ++ bytes "700"))
unfolding strtol
key_700-IsUnused [] x at e = ground arith
key_700-IsUnused (left ∷ p) x at e = ground arith
key_700-IsUnused (right ∷ p) x at e = ground arith

subscribe_all-fired_example :
    (e' : Env (Unit {0})) × (p : Ptr) × (f : IsFiled period_order e'.memory e'.client.timers
      (period_of (timer_event ++ bytes "700"))
      p)
    × (ks : List Callback) × (i : ℕ) × (k : Callback) × (v : LuaValue) × (subscribe_all host false
          (ref 9)
          names
          keys
          env
        ≡ done tt e')
    × (e'.memory.callback p ≡ some k)
    × (k.ref ≡ ref 9)
    × Holds e'.memory f.cells ks
    × (get_elem? ks i ≡ some k)
    × IsEvent (period_of (timer_event ++ bytes "700")) 700 v
    × (on_timer host (suc e'.memory.next) (period_of (timer_event ++ bytes "700")) 700 e'
        ≡ done tt (called_all host v ks e'))
subscribe_all-fired_example =
    subscribe_all-fired host env false (ref 9) names ((timer_event ++ bytes "500") ∷ []) []
      (timer_event ++ bytes "700") 700 {xs = all_cells} host-IsTame client-IsHealthy refl
      key_700-IsUnused
