-- ===== src/Client/Written.antt =====
-- `lua_client_command` of src/crazysnail.c while the client is connected.
use crazy_snail.Common.{
  suc, some, ◌≡◌, ◌≢◌, refl, sym, subst, ap, ◌∙◌, ◌≤◌, Bool, true, false, ◌||◌, List, [], ◌∷◌,
  arith, pos, if◌then◌else◌, ==_ne,
}
use crazy_snail.Text.{Bytes}
use crazy_snail.Memory.{Ptr, null, Memory, ok, malloc}
use crazy_snail.Pools.{req_alloc}
use crazy_snail.Queue.Cells.{Cells, frame, Counted-same}
use crazy_snail.Tree.Destroy.{frame_Forest}
use crazy_snail.Client.{Client, Env, Host, done, write, free_text}
use crazy_snail.Client.Connection.{new_request}
use crazy_snail.Client.Command.{
  LuaArg, Collected, nothing, collect, register, send, split_last, lua_client_command,
}
use crazy_snail.Client.Healthy.{IsHealthy}
use crazy_snail.Client.Registered.{register-Registered}
use crazy_snail.Client.Kinds.{is_subscribe, is_unsubscribe}

-- No free request is NULL.
abbrev pub IsPooled : List Ptr → Type 0
IsPooled [] = Unit {0}
IsPooled (q ∷ qs) = (q ≢ null) × IsPooled qs

-- The request that is taken, and the memory without it.
abbrev pub taken : List Ptr → Memory → Ptr
taken [] m = m.next
taken (q ∷ qs) m = q

abbrev pub without_taken : List Ptr → Memory → Memory
without_taken [] m = record m { next = suc m.next }
without_taken (q ∷ qs) m = record m { requests = qs }

req_alloc-ok :
    (qs : List Ptr) (m : Memory)
    → m.requests ≡ qs
    → ((a : Ptr) → m.oom a ≡ false)
    → req_alloc m ≡ ok (taken qs m) (without_taken qs m)
unfolding req_alloc malloc
req_alloc-ok [] m e room = ground (arith, room m.next)
req_alloc-ok (q ∷ qs) m e room = ground arith

pub taken-ne_null : (qs : List Ptr) (m : Memory) → IsPooled qs → m.next ≢ null → taken qs m ≢ null
taken-ne_null [] m pooled ne = ne
taken-ne_null (q ∷ qs) m pooled ne = pooled.0

pub without_taken-IsPooled :
    (qs : List Ptr) (m : Memory)
    → m.requests ≡ qs
    → IsPooled qs
    → IsPooled (without_taken qs m).requests
without_taken-IsPooled [] m e pooled = subst IsPooled (sym e) pooled
without_taken-IsPooled (q ∷ qs) m e pooled = pooled.1

-- A change elsewhere in the memory.
IsHealthy-same :
    {R : Type 0} {m m' : Memory} {cc : Client R} {xs : Cells}
    → m.next ≤ m'.next
    → m'.callback ≡ m.callback
    → m'.wrapper ≡ m.wrapper
    → m'.oom ≡ m.oom
    → IsHealthy m cc xs
    → IsHealthy m' cc xs
IsHealthy-same {m} {m'} {cc} {xs} grown callbacks wrappers oom h =
    let o = h.owned in
    record {
      owned = record {
        of_channels = o.of_channels;
        of_patterns = o.of_patterns;
        of_timers = o.of_timers;
        of_commands = o.of_commands;
        channels = frame_Forest o.channels grown (λ a i. ap (λ f. f a) wrappers);
        patterns = frame_Forest o.patterns grown (λ a i. ap (λ f. f a) wrappers);
        timers = frame_Forest o.timers grown (λ a i. ap (λ f. f a) wrappers);
        commands = record {
          chain = frame o.commands.chain grown (λ a i. ap (λ f. f a) wrappers);
          end = o.commands.end;
        };
        apart_channels = o.apart_channels;
        apart_patterns = o.apart_patterns;
        apart_timers = o.apart_timers;
        all = o.all;
      };
      counted = Counted-same xs callbacks h.counted;
      fresh = λ a i. h.fresh a (omega arith);
      channels = h.channels;
      patterns = h.patterns;
      timers = h.timers;
      roomy = record {
        ne_null = ground (arith, h.roomy.ne_null);
        room = λ a. ap (λ f. f a) oom ∙ h.roomy.room a;
      };
    }

without_taken-IsHealthy :
    {R : Type 0} (qs : List Ptr) {m : Memory} {cc : Client R} {xs : Cells}
    → IsHealthy m cc xs
    → IsHealthy (without_taken qs m) cc xs
without_taken-IsHealthy [] h = IsHealthy-same (omega arith) refl refl refl h
without_taken-IsHealthy (q ∷ qs) h = IsHealthy-same (omega arith) refl refl refl h

module _ (H : Host) where
  -- The client when a command has been written.
  abbrev pub sent : List Ptr → Bool → List Bytes → Env H.Reader → Env H.Reader
  sent qs sub_mode argv e = record e {
    memory = without_taken qs e.memory;
    log =
        free_text (some (H.format_command argv))
        ∷ write (taken qs e.memory) (if sub_mode then e.client.sub_stream else e.client.stream)
            (H.format_command argv)
        ∷ e.log;
  }

  pub new_request-ok :
      (qs : List Ptr) (e : Env H.Reader)
      → e.memory.requests ≡ qs
      → IsPooled qs
      → e.memory.next ≢ null
      → ((a : Ptr) → e.memory.oom a ≡ false)
      → new_request H e ≡ done (taken qs e.memory) (record e { memory = without_taken qs e.memory })
  unfolding new_request
  new_request-ok qs e is pooled ne room =
      rw
        (
          new_request,
          req_alloc-ok qs e.memory is room,
          ==_ne _ _ (taken-ne_null qs e.memory pooled ne),
        )
        refl

  pub send-sent :
      (qs : List Ptr) (sub_mode : Bool) (argv : List Bytes) (e : Env H.Reader)
      → e.client.flags.connected ≡ true
      → e.client.flags.disconnecting ≡ false
      → e.client.flags.freeing ≡ false
      → e.memory.requests ≡ qs
      → IsPooled qs
      → e.memory.next ≢ null
      → ((a : Ptr) → e.memory.oom a ≡ false)
      → send H (pos 0) sub_mode argv e ≡ done tt (sent qs sub_mode argv e)
  unfolding send
  send-sent qs sub_mode argv e on stays lives is pooled ne room =
      ground (arith, new_request-ok qs e is pooled ne room)

  pub command-run :
      (as_ : List LuaArg) (c : Collected) (cmd : Bytes) (names : List Bytes)
      {e e' e'' : Env H.Reader} {sub_mode : Bool}
      → collect H nothing ((split_last H as_).0) e ≡ done c e
      → c.argv ≡ cmd ∷ names
      → register H ((split_last H as_).1) cmd names c.timers e ≡ done sub_mode e'
      → send H (pos 0) sub_mode (cmd ∷ names) e' ≡ done tt e''
      → lua_client_command H (pos 0) as_ e ≡ done tt e''
  unfolding lua_client_command
  command-run as_ c cmd names collected is registered written =
      ground (arith, collected, is, registered, written)

  -- The end of a command.
  pub record Sent (e : Env H.Reader) (cmd : Bytes) (names : List Bytes) (qs : List Ptr)
      (e' : Env H.Reader) : Type 0 where
    pub cells : Cells
    pub healthy : IsHealthy e'.memory e'.client cells
    pub req : Ptr
    pub req_ne_null : req ≢ null
    pub log :
        e'.log
        ≡ free_text (some (H.format_command (cmd ∷ names)))
          ∷ write req
              (if is_subscribe H cmd || is_unsubscribe H cmd
                then e.client.sub_stream
                else e.client.stream)
              (H.format_command (cmd ∷ names))
          ∷ e.log
    pub connected : e'.client.flags.connected ≡ e.client.flags.connected
    pub disconnecting : e'.client.flags.disconnecting ≡ e.client.flags.disconnecting
    pub freeing : e'.client.flags.freeing ≡ e.client.flags.freeing
    pub stream : e'.client.stream ≡ e.client.stream
    pub sub_stream : e'.client.sub_stream ≡ e.client.sub_stream
    pub pooled : IsPooled e'.memory.requests

  -- A command of any kind whose arguments can be collected, while the client is connected and is
  -- neither disconnecting nor freed, `malloc` refuses nothing and gives out addresses other than
  -- NULL, no free request is NULL and the write succeeds: it is written once, to the stream for
  -- subscriptions if it is about those, and its text freed, and the client's lists, search trees and
  -- reference counts are right after it as before.
  pub lua_client_command-Sent :
      (as_ : List LuaArg) (e : Env H.Reader) (c : Collected) (cmd : Bytes) (names : List Bytes)
      (qs : List Ptr) {xs : Cells}
      → IsHealthy e.memory e.client xs
      → e.client.flags.connected ≡ true
      → e.client.flags.disconnecting ≡ false
      → e.client.flags.freeing ≡ false
      → e.memory.requests ≡ qs
      → IsPooled qs
      → collect H nothing ((split_last H as_).0) e ≡ done c e
      → c.argv ≡ cmd ∷ names
      → (e' : Env H.Reader) × (lua_client_command H (pos 0) as_ e ≡ done tt e')
        × Sent e cmd names qs e'
  lua_client_command-Sent as_ e c cmd names qs h on stays lives pool pooled collected is =
      let (e1, registered, d) =
        register-Registered H e ((split_last H as_).1) cmd names c.timers h in
      let sub_mode : Bool = is_subscribe H cmd || is_unsubscribe H cmd in
      let written =
        send-sent qs sub_mode (cmd ∷ names) e1 (d.connected ∙ on) (d.disconnecting ∙ stays)
          (d.freeing ∙ lives) (d.requests ∙ pool) pooled d.healthy.roomy.ne_null
          d.healthy.roomy.room in
      (
        sent qs sub_mode (cmd ∷ names) e1,
        command-run as_ c cmd names collected is registered written,
        record {
          cells = d.cells;
          healthy = without_taken-IsHealthy qs d.healthy;
          req = taken qs e1.memory;
          req_ne_null = taken-ne_null qs e1.memory pooled d.healthy.roomy.ne_null;
          log = cc (d.log, d.stream, d.sub_stream);
          connected = d.connected;
          disconnecting = d.disconnecting;
          freeing = d.freeing;
          stream = d.stream;
          sub_stream = d.sub_stream;
          pooled = without_taken-IsPooled qs e1.memory (d.requests ∙ pool) pooled;
        },
      )
