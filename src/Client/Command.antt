-- ===== src/Client/Command.antt =====
-- `lua_client_command` of src/crazysnail.c: the arguments are collected, a callback is made and filed
-- by the kind of the command, and the command is written or the failure reported.
use crazy_snail.Common.{
  ℕ, suc, ◌+◌, Bool, true, false, not, ◌||◌, Option, none, some, List, [], ◌∷◌, ◌++◌, ◌==◌, leb,
  ltb, length, set, drop, if◌then◌else◌, ℤ, pos, negsuc, is_negative, is_zero,
}
use crazy_snail.Text.{Bytes, bytes, first, rest, strlen, strncmp, strncasecmp, tolower, is_eq}
use crazy_snail.Text.Decimal.{print_int, strtol}
use crazy_snail.Memory.{Ptr, null, Ref, ref, refnil, Channel, load_callback, put_callback}
use crazy_snail.Callback.{create_callback, create_channel, create_timer_channel}
use crazy_snail.Queue.{wrap_cb, push_cb}
use crazy_snail.Pools.{req_free}
use crazy_snail.Tree.{Tree, Place, node_at, update_at, insert, insert_timer}
use crazy_snail.Reply.{text, timer_event}
use crazy_snail.Client.{
  write, free_text, Host, Handler, pure, ◌>>=◌, ◌>>◌, raise, crash, assert, lift, get, put, emit,
  has_ref, call_once,
}
use crazy_snail.Client.Connection.{new_request}
use crazy_snail.Client.Dispatch.{mark}
use crazy_snail.Client.Read.{shift_command}

-- An argument on the Lua stack. In a table an element that is no string and no number is `none`.
pub data LuaArg : Type 0 where
  string : Bytes → LuaArg
  number : ℤ → LuaArg
  items : List (Option Bytes) → LuaArg
  function : ℕ → LuaArg
  other : LuaArg

-- `lua_tolstring`
abbrev pub to_string : LuaArg → Option Bytes
to_string (string s) = some s
to_string (number n) = some (print_int n)
to_string _ = none

-- What the loop over the arguments has collected, in order: `argv` and `timers`.
pub record Collected : Type 0 where
  pub argv : List Bytes
  pub timers : List Bytes

abbrev pub nothing : Collected
nothing = record { argv = []; timers = [] }

module _ (H : Host) where
  open H use {Reader}

  -- One more element of `argv`.
  abbrev pub add_arg : Collected → Bytes → Handler Reader Collected
  add_arg c s =
      if leb H.max_stack (length c.argv + 1)
      then raise (bytes "command: Stack Overflow")
      else pure (record c { argv = c.argv ++ s ∷ [] })

  unfoldable pub collect_items : Collected → List (Option Bytes) → Handler Reader Collected
  collect_items c [] = pure c
  collect_items c (none ∷ xs) = raise (bytes "command: Not a string or a number")
  collect_items c (some s ∷ xs) = do c' ← add_arg c s; collect_items c' xs

  -- `timers` has room for 100 keys, which nobody checks; `strncmp` crashes on what is no string.
  unfoldable pub collect_key : Collected → Option Bytes → Handler Reader Collected
  unfolding strncmp strlen
  collect_key c none = crash
  collect_key c (some key) =
      if not (is_eq (strncmp key timer_event (strlen timer_event)))
      then add_arg c key
      else if ltb (length c.timers) 100
      then pure (record c { timers = c.timers ++ key ∷ [] })
      else crash

  unfoldable pub collect_arg : Collected → LuaArg → Handler Reader Collected
  unfolding collect_items collect_key
  collect_arg c (items xs) = collect_items c xs
  collect_arg c a = collect_key c (to_string a)

  unfoldable pub collect : Collected → List LuaArg → Handler Reader Collected
  unfolding collect_arg
  collect c [] = pure c
  collect c (a ∷ as_) = do c' ← collect_arg c a; collect c' as_

  -- `cb->channels[i] = ch`
  unfoldable pub set_channel : Ptr → ℕ → Option Channel → Handler Reader (Unit {0})
  set_channel p i ch = do
    cb ← lift (load_callback p)
    lift (put_callback p (some (record cb { channels = set cb.channels i ch })))

  -- `push_cb(&(leaf->cb_list), wrapper)` behind `wrap_cb`; the leaf may be missing.
  unfoldable pub file_at : Tree → Option Place → Ptr → Handler Reader Tree
  file_at t leaf p = do
    (status, wrapper) ← lift (wrap_cb null p)
    if not (is_zero status) then pure t else elim leaf [
      | none ↦ crash
      | some place ↦ elim (node_at t place) [
        | none ↦ crash
        | some n ↦ do
          list ← lift (push_cb n.cb_list wrapper)
          pure (update_at t place (λ x. record x { cb_list = some list }))
      ]
    ]

  -- One channel or pattern of a subscription.
  unfoldable pub subscribe_one : (pvariant : Bool) → Ptr → ℕ → Bytes → Handler Reader (Unit {0})
  unfolding set_channel file_at
  subscribe_one pvariant p i name = do
    (status, ch) ← lift (create_channel none name)
    if is_zero status then set_channel p i ch else pure tt
    cc ← get
    (_, t, leaf) ← lift (insert (if pvariant then cc.patterns else cc.channels) name)
    put (if pvariant then record cc { patterns = t } else record cc { channels = t })
    t' ← file_at t leaf p
    put (if pvariant then record cc { patterns = t' } else record cc { channels = t' })

  unfoldable pub subscribe_names :
      (pvariant : Bool) → Ptr → ℕ → List Bytes → Handler Reader (Unit {0})
  unfolding subscribe_one
  subscribe_names pvariant p i [] = pure tt
  subscribe_names pvariant p i (name ∷ names) = do
    subscribe_one pvariant p i name
    subscribe_names pvariant p (suc i) names

  -- One timer of a subscription. The test asks for a status of at least 1, which a period that the
  -- tree knows already does not give.
  unfoldable pub subscribe_timer : Ptr → ℕ → Bytes → Handler Reader (Unit {0})
  unfolding set_channel file_at strtol strlen
  subscribe_timer p i key = do
    let ikey = strtol (drop (length timer_event) key)
    (made, ch) ← lift (create_timer_channel none ikey)
    if is_zero made then set_channel p i ch else pure tt
    cc ← get
    (status, t, leaf) ← lift (insert_timer cc.timers ikey)
    put (record cc { timers = t })
    elim status [
      | negsuc n ↦ pure tt
      | pos n ↦ if n == 0 then pure tt else do
        if n == 2
            then pure tt
            else (elim ch [ none ↦ crash | some c ↦ set_channel p i (some (mark c)) ])
        t' ← file_at t leaf p
        put (record cc { timers = t' })
    ]

  unfoldable pub subscribe_timers : Ptr → ℕ → List Bytes → Handler Reader (Unit {0})
  unfolding subscribe_timer
  subscribe_timers p i [] = pure tt
  subscribe_timers p i (key ∷ keys) = do subscribe_timer p i key; subscribe_timers p (suc i) keys

  -- `create_callback` with a channel for each name and each timer, filed under all of them.
  unfoldable pub subscribe_all :
      Bool → Ref → (names timers : List Bytes) → Handler Reader (Unit {0})
  unfolding subscribe_names subscribe_timers
  subscribe_all pvariant r names timers = do
    (status, p) ← lift (create_callback null r (length names + length timers))
    if not (is_zero status)
        then pure tt
        else do subscribe_names pvariant p 0 names; subscribe_timers p (length names) timers

  -- A command that has a reply of its own.
  unfoldable pub enqueue : Ref → Handler Reader (Unit {0})
  enqueue r = do
    (status, p) ← lift (create_callback null r 0)
    if not (is_zero status) then pure tt else do
      (wrapped, wrapper) ← lift (wrap_cb null p)
      if not (is_zero wrapped) then pure tt else do
        cc ← get
        list ← lift (push_cb (some cc.command_cb_list) wrapper)
        put (record cc { command_cb_list = list })

  -- Files the callback by the kind of the command; the result is `sub_mode`.
  unfoldable pub register : Ref → (cmd : Bytes) → (names timers : List Bytes) → Handler Reader Bool
  unfolding subscribe_all enqueue strncasecmp tolower
  register r cmd names timers = do
    let pvariant = tolower (first cmd) == b'p'
    let kind = if pvariant then rest cmd else cmd
    if is_eq (strncasecmp kind (bytes "subscribe") 9)
        then (do subscribe_all pvariant r names timers; pure true)
        else if is_eq (strncasecmp kind (bytes "unsubscribe") 11)
        then pure true
        else (do
          cc ← get
          if is_eq (strncasecmp cmd (bytes "monitor") 7)
              then put (record cc { flags = record cc.flags { monitoring = true } })
              else pure tt
          enqueue r
          pure false)

  -- The function of the oldest command that waits gets the error, and only without one it is raised.
  unfoldable pub report : Bytes → Handler Reader (Unit {0})
  unfolding shift_command call_once
  report message = do
    (status, cb) ← shift_command H
    elim cb [
      | none ↦ raise message
      | some c ↦ if has_ref c.ref then call_once H c.ref (text message ∷ []) else raise message
    ]

  -- The command is written if the client is connected; `written` is what `uv_write` returns.
  unfoldable pub send : ℤ → (sub_mode : Bool) → List Bytes → Handler Reader (Unit {0})
  unfolding new_request report
  send written sub_mode argv = do
    cc ← get
    (r, req) ←
        if cc.flags.connected
        then (do
          req ← new_request H
          emit (write req (if sub_mode then cc.sub_stream else cc.stream) (H.format_command argv))
          pure (written, req))
        else pure (pos 0, null)
    if is_zero r then emit (free_text (some (H.format_command argv))) else pure tt
    if not cc.flags.connected || (cc.flags.disconnecting || cc.flags.freeing) || is_negative r
        then (do
          if not (req == null) then lift (req_free req) else pure tt
          report (if is_negative r then H.strerror r else bytes "command: Not connected"))
        else assert (is_zero r)

  -- Is the last argument a function?
  abbrev pub split_last : List LuaArg → List LuaArg × Ref
  split_last [] = ([], refnil)
  split_last (function f ∷ []) = ([], ref f)
  split_last (a ∷ as_) = let (front, r) = split_last as_ in (a ∷ front, r)

  unfoldable pub lua_client_command : ℤ → List LuaArg → Handler Reader (Unit {0})
  unfolding collect register send
  lua_client_command written as_ = do
    let (front, r) = split_last as_
    c ← collect nothing front
    elim c.argv [
      | [] ↦ crash
      | cmd ∷ names ↦ do
        sub_mode ← register r cmd names c.timers
        send written sub_mode (cmd ∷ names)
    ]
