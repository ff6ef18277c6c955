-- ===== src/Client.antt =====
-- The client of src/crazysnail.c and what its functions run on: the context, the memory, and the
-- requests made of libuv and Lua so far. `Host` stands for the libraries: the reader of the Redis
-- protocol and the command formatter, libuv's error texts, Lua's number conversion, and the Lua
-- functions, which may call back into the client.
pub mod Connection
pub mod Read
pub mod Dispatch
pub mod Command
pub mod Subscribe
pub mod Closing
pub mod Answers
pub mod Exit
pub mod Filing
pub mod Placing
pub mod Building
pub mod Filed
pub mod Underway
pub mod Step
pub mod Subscribed
pub mod Names
pub mod Timers
pub mod Periods
pub mod Parts
pub mod Start
pub mod Subscription
pub mod Subscribing
pub mod Healthy
pub mod Commands
pub mod Kinds
pub mod Registered
pub mod Written
pub mod Session
pub mod Waiting
pub mod Pipeline
pub mod Delivered
pub mod Fired
pub mod Established
pub mod Replies
pub mod Reading
pub mod Visits
pub mod Confirm
pub mod Opening
pub mod Failures
pub mod Keys
pub mod Calls
use crazy_snail.Common.{
  ℕ, suc, Bool, true, false, not, ◌||◌, Option, none, some, List, [], ◌∷◌, ◌==◌, if◌then◌else◌, ℤ,
}
use crazy_snail.Text.{Bytes}
use crazy_snail.Memory.{Ptr, null, Ref, noref, refnil, ref, CallbackEnds, Memory, Run, Cmd}
use crazy_snail.Memory
use crazy_snail.Tree.{Tree}
use crazy_snail.Reply.{Reply, LuaValue}

-- The bits of `flags`.
pub record ClientFlags : Type 0 where
  pub connected : Bool
  pub disconnecting : Bool
  pub freeing : Bool
  pub subscribed : Bool
  pub monitoring : Bool

-- The bits of `stream_flags`.
pub record StreamFlags : Type 0 where
  pub stream_connected : Bool
  pub sub_stream_connected : Bool

-- `client_context_s`; R is the type of readers.
pub record Client (R : Type 0) : Type 0 where
  pub path : Option Bytes
  pub ignore_sub_cmd_reply : Bool
  pub stream : Ptr
  pub sub_stream : Ptr
  pub r_connect_cb : Ref
  pub r_error_cb : Ref
  pub r_disconnect_cb : Ref
  pub command_cb_list : CallbackEnds
  pub channels : Tree
  pub patterns : Tree
  pub timers : Tree
  pub flags : ClientFlags
  pub stream_flags : StreamFlags
  pub reader : R

-- What is asked of Lua and of libuv.
pub data Effect : Type 0 where
  -- `lua_pcall` of the function behind a reference; `pcall_nil` calls nil, and fails.
  pcall : ℕ → List LuaValue → Effect
  pcall_nil : List LuaValue → Effect
  unref : ℕ → Effect
  -- `uv_close`, with or without `on_disconnect`.
  close : Ptr → Bool → Effect
  read_start read_stop : Ptr → Effect
  -- `uv_write` of a request to a stream, `uv_pipe_connect` to a path, `uv_timer_start`.
  write : (req stream : Ptr) → Bytes → Effect
  pipe_connect : (req stream : Ptr) → Bytes → Effect
  timer_start : (req : Ptr) → (repeat : ℕ) → Effect
  free_handle : Ptr → Effect
  reader_free : Effect
  -- `free` of a text that may be missing.
  free_text : Option Bytes → Effect

-- `log` holds the effects, the newest first.
pub record Env (R : Type 0) : Type 0 where
  pub client : Client R
  pub memory : Memory
  pub log : List Effect

pub record Host : Type 1 where
  pub Reader : Type 0
  pub create : Reader
  -- The reader is not NULL.
  pub is_reader : Reader → Bool
  -- `redisReaderFeed` and `redisReaderGetReply`, with their statuses.
  pub feed : Reader → Bytes → ℤ × Reader
  pub get_reply : Reader → ℤ × Option Reply × Reader
  pub errstr : Reader → Bytes
  -- `redisFormatCommandArgv`
  pub format_command : List Bytes → Bytes
  pub strerror : ℤ → Bytes
  -- `lua_isnumber` and `luaL_checkint` on a string.
  pub to_number : Bytes → Option ℤ
  pub max_stack : ℕ
  pub script : ℕ → List LuaValue → Env Reader → Env Reader

-- How a function of the client ends; `raised` is `luaL_error`.
pub data Outcome (R : Type 0) (A : Type 0) : Type 0 where
  done : A → Env R → Outcome R A
  raised : Bytes → Env R → Outcome R A
  fault : Outcome R A
  abort : Outcome R A
  out_of_fuel : Outcome R A

abbrev pub Handler : Type 0 → Type 0 → Type 0
Handler R A = Env R → Outcome R A

module _ {R : Type 0} where
  abbrev pub pure : {A : Type 0} → A → Handler R A
  pure = done

  module _ {A B : Type 0} where
    abbrev pub and_then : Outcome R A → (A → Handler R B) → Outcome R B
    and_then (done a e) k = k a e
    and_then (raised s e) k = raised s e
    and_then fault k = fault
    and_then abort k = abort
    and_then out_of_fuel k = out_of_fuel

    infixl 5 ◌>>=◌
    abbrev pub ◌>>=◌ : Handler R A → (A → Handler R B) → Handler R B
    h >>= k = λ e. and_then (h e) k

  infixl 5 ◌>>◌
  abbrev pub ◌>>◌ : {B : Type 0} → Handler R (Unit {0}) → Handler R B → Handler R B
  h >> k = h >>= λ _. k

  abbrev pub raise : {A : Type 0} → Bytes → Handler R A
  raise = raised

  abbrev pub crash : {A : Type 0} → Handler R A
  crash e = fault

  abbrev pub assert : Bool → Handler R (Unit {0})
  assert true = done tt
  assert false = λ e. abort

  -- A command of the memory.
  abbrev pub lift_run : {A : Type 0} → Env R → Run A → Outcome R A
  lift_run e (Memory.ok a m) = done a (record e { memory = m })
  lift_run e Memory.fault = fault
  lift_run e Memory.abort = abort
  lift_run e Memory.out_of_fuel = out_of_fuel

  abbrev pub lift : {A : Type 0} → Cmd A → Handler R A
  lift c e = lift_run e (c e.memory)

  abbrev pub get : Handler R (Client R)
  get e = done e.client e

  abbrev pub put : Client R → Handler R (Unit {0})
  put cc e = done tt (record e { client = cc })

  abbrev pub emit : Effect → Handler R (Unit {0})
  emit x e = done tt (record e { log = x ∷ e.log })

  -- The address of a local variable.
  abbrev pub local_address : Handler R Ptr
  local_address e =
      done e.memory.next (record e { memory = record e.memory { next = suc e.memory.next } })

abbrev pub has_ref : Ref → Bool
has_ref noref = false
has_ref refnil = false
has_ref (ref k) = true

module _ (H : Host) where
  open H use {Reader, script}

  -- `lua_rawgeti` and `lua_pcall`.
  unfoldable pub call : Ref → List LuaValue → Handler Reader (Unit {0})
  call noref args e = emit (pcall_nil args) e
  call refnil args e = emit (pcall_nil args) e
  call (ref k) args e = done tt (script k args (record e { log = pcall k args ∷ e.log }))

  -- The guard that stands before most calls.
  unfoldable pub call_if : Ref → List LuaValue → Handler Reader (Unit {0})
  unfolding call
  call_if r args = if has_ref r then call r args else pure tt

  -- The same for a function that is called once: the reference goes first.
  unfoldable pub call_once : Ref → List LuaValue → Handler Reader (Unit {0})
  unfolding call
  call_once noref args = call noref args
  call_once refnil args = call refnil args
  call_once (ref k) args = do emit (unref k); call (ref k) args
