-- ===== src/Tests/Client.antt =====
-- A client that is subscribed to a channel and a timer with one callback, and waits for a reply.
use crazy_snail.Common.{
  ◌<◌, ◌≡◌, refl, sym, subst, ◌⊎◌, ◌≢◌, true, false, none, some, [], ◌∷◌, arith, ◌==◌, ==_iff,
  Bool-cases, inl, inr, if◌then◌else◌, pos,
}
use crazy_snail.Text.{bytes}
use crazy_snail.Memory.{Ptr, null, noref, ref, Callback, Wrapper, CallbackEnds, Memory}
use crazy_snail.Memory.Returns.{Returns}
use crazy_snail.Queue.Cells.{Cells, count, nil, cons, IsQueue, Attached, Counted}
use crazy_snail.Tree.{Node, empty, branch, destroy_tree}
use crazy_snail.Tree.Destroy.{Forest, bare, grove, listed, Freed, timers_of, destroy_tree-Freed}
use crazy_snail.Client.{Client, Env, Host, done, free_handle}
use crazy_snail.Client.Connection.{no_streams, lua_client_exit, no_client_flags, on_disconnect}
use crazy_snail.Client.Exit.{exit_log, lua_client_exit-Freed}
use crazy_snail.Client.Closing.{
  emptied, Owned, are_open, second_open, none_open, all_timers, closed, on_disconnect-Freed,
}
use crazy_snail.Client.Calls.{IsTame, called_if}
use crazy_snail.Client.Answers.{IsWaiting}

abbrev pub host : Host
host = record {
  Reader = Unit {0};
  create = tt;
  is_reader = λ r. true;
  feed = λ r s. (pos 0, r);
  get_reply = λ r. (pos 0, none, r);
  errstr = λ r. [];
  format_command = λ args. [];
  strerror = λ n. [];
  to_number = λ s. none;
  max_stack = 8000;
  script = λ k args e. e;
}

pub host-IsTame : IsTame host
host-IsTame k args e = refl

-- The callback at 1 is held by the cells 2, of the channel, and 3, of the timer; the callback at 4 by
-- the cell 5, of the queue of commands.
abbrev pub subscriber : Callback
subscriber = record {
  ref = ref 7;
  initialized = true;
  nb_channel = 0;
  attach = pos 2;
  channels = [];
}

abbrev pub waiter : Callback
waiter = record { ref = ref 8; initialized = false; nb_channel = 0; attach = pos 1; channels = [] }

abbrev cell : Ptr → Wrapper
cell c = record { cb = c; next = null }

abbrev pub one : Ptr → CallbackEnds
one p = record { head = p; tail = p }

abbrev pub store : Memory
store = record {
  next = 6;
  oom = λ p. false;
  junk = λ p i. 0;
  callback = λ p. if p == 1 then some subscriber else if p == 4 then some waiter else none;
  wrapper = λ p.
      if p == 2
      then some (cell 1)
      else if p == 3
      then some (cell 1)
      else if p == 5
      then some (cell 4)
      else none;
  requests = [];
  buffers = [];
  stopped = [];
}

abbrev pub channel_node : Node
channel_node = record { key = some (bytes "foo"); ikey = 0; cb_list = some (one 2); timer = null }

abbrev pub timer_node : Node
timer_node = record { key = none; ikey = 500; cb_list = some (one 3); timer = 9 }

abbrev pub client : Client (Unit {0})
client = record {
  path = some (bytes "/tmp/redis.sock");
  ignore_sub_cmd_reply = true;
  stream = 10;
  sub_stream = 11;
  r_connect_cb = ref 1;
  r_error_cb = noref;
  r_disconnect_cb = ref 2;
  command_cb_list = one 5;
  channels = branch channel_node empty empty;
  patterns = empty;
  timers = branch timer_node empty empty;
  flags = no_client_flags;
  stream_flags = record { stream_connected = false; sub_stream_connected = true };
  reader = tt;
}

abbrev pub env : Env (Unit {0})
env = record { client = client; memory = store; log = [] }

one-IsQueue :
    (p c : Ptr)
    → p ≢ null
    → p < 6
    → store.wrapper p ≡ some (cell c)
    → IsQueue store (one p) ((p, c) ∷ [])
one-IsQueue p c ne b e = record { chain = cons ne b e refl nil; end = refl }

pub channel_list-IsQueue : IsQueue store (one 2) ((2, 1) ∷ [])
channel_list-IsQueue = one-IsQueue 2 1 (ground arith) (omega arith) refl

pub timer_list-IsQueue : IsQueue store (one 3) ((3, 1) ∷ [])
timer_list-IsQueue = one-IsQueue 3 1 (ground arith) (omega arith) refl

pub commands-IsQueue : IsQueue store (one 5) ((5, 4) ∷ [])
commands-IsQueue = one-IsQueue 5 4 (ground arith) (omega arith) refl

pub timers-Forest : Forest store client.timers ((3, 1) ∷ [])
timers-Forest = grove bare bare (listed timer_list-IsQueue) (λ a i. refl) (λ a i. refl)

abbrev pub all_cells : Cells
all_cells = (2, 1) ∷ (3, 1) ∷ (5, 4) ∷ []

pub subscriber-Attached : Attached store 1 2
subscriber-Attached = record {
  at = subscriber;
  there = refl;
  attached = refl;
  whole = λ j h. absurd (omega arith);
  ne_null = ground arith;
}

waiter-Attached : Attached store 4 1
waiter-Attached = record {
  at = waiter;
  there = refl;
  attached = refl;
  whole = λ j h. absurd (omega arith);
  ne_null = ground arith;
}

-- Any order of the cells has the same counts.
pub store-Attached : (xs : Cells) → ((c : Ptr) → count c xs ≡ count c all_cells) → Counted store xs
store-Attached xs same c some_cells =
    subst (Attached store c) (sym (same c)) (elim (Bool-cases (c == 1)) [
      | inl e ↦
          subst (λ x. Attached store x (count x all_cells)) (sym ((==_iff c 1).0 e))
            subscriber-Attached
      | inr other ↦ elim (Bool-cases (c == 4)) [
        | inl e ↦
            subst (λ x. Attached store x (count x all_cells)) (sym ((==_iff c 4).0 e))
              waiter-Attached
        | inr neither ↦ absurd (ground (arith, same c))
      ]
    ])

pub client-Owned : Owned store client all_cells
client-Owned = record {
  of_channels = (2, 1) ∷ [];
  of_patterns = [];
  of_timers = (3, 1) ∷ [];
  of_commands = (5, 4) ∷ [];
  channels = grove bare bare (listed channel_list-IsQueue) (λ a i. refl) (λ a i. refl);
  patterns = bare;
  timers = timers-Forest;
  commands = commands-IsQueue;
  apart_channels = λ a i. ground arith;
  apart_patterns = λ a i. refl;
  apart_timers = λ a i. ground arith;
  all = refl;
}

destroy_tree-Freed_example :
    Returns
      (λ r m'.
        (r ≡ empty)
        × Freed store
            ((3, 1) ∷ [])
            ((2, 1) ∷ (5, 4) ∷ [])
            (timers_of (branch timer_node empty empty))
            m')
      (destroy_tree (branch timer_node empty empty) store)
destroy_tree-Freed_example =
    destroy_tree-Freed (branch timer_node empty empty) ((2, 1) ∷ (5, 4) ∷ []) timers-Forest
      (store-Attached ((3, 1) ∷ (2, 1) ∷ (5, 4) ∷ []) λ c. omega arith)

on_disconnect-Freed_example :
    (are_open env.client.stream_flags ≡ true)
      × (on_disconnect host 11 env
          ≡ done tt (record env {
            client = record env.client { stream_flags = second_open };
            log = free_handle 11 ∷ env.log;
          }))
    ⊎ (are_open env.client.stream_flags ≡ false)
      × (m' : Memory) × Freed store all_cells [] (all_timers env.client) m'
      × (on_disconnect host 11 env
          ≡ done tt (
              called_if host env.client.r_disconnect_cb [] (record env {
                client = closed none_open env.client;
                memory = m';
                log = free_handle 11 ∷ env.log;
              })))
on_disconnect-Freed_example =
    on_disconnect-Freed host 11 env {xs = all_cells} [] client-Owned
      (store-Attached all_cells λ c. refl)

lua_client_exit-Freed_example :
    (m' : Memory) × Freed store all_cells [] (all_timers client) m'
    × (lua_client_exit host env
        ≡ done tt (record env {
          client = emptied (record client { stream_flags = no_streams });
          memory = m';
          log = exit_log host client [];
        }))
lua_client_exit-Freed_example =
    lua_client_exit-Freed host env {xs = all_cells} [] (ground arith) (ground arith) client-Owned
      (store-Attached all_cells λ c. refl)

pub env-IsWaiting : IsWaiting env ((5, 4) ∷ []) ((2, 1) ∷ (3, 1) ∷ [])
env-IsWaiting = record {
  queue = commands-IsQueue;
  counted = store-Attached ((5, 4) ∷ (2, 1) ∷ (3, 1) ∷ []) λ c. omega arith;
}
