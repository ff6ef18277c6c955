-- ===== src/Client/Dispatch.antt =====
-- Where notifications and timer events of src/crazysnail.c find their callbacks:
-- `get_and_call_sub_cb` and `on_timer`. The loops over a list of callbacks run on fuel, since a Lua
-- function that is called may lengthen the list.
use crazy_snail.Common.{
  ℕ, zero, suc, Bool, true, false, not, ◌&&◌, Option, none, some, [], ◌∷◌, ◌==◌, get_elem?, set,
  if◌then◌else◌, pos, negsuc, ℤ, ltb, ◌%◌, ◌^◌, ◌-◌,
}
use crazy_snail.Text.{Bytes, bytes, first, rest, strcmp, tolower, is_eq}
use crazy_snail.Memory.{
  Ptr, null, Ref, Channel, CallbackEnds, load_wrapper, load_callback, put_callback,
}
use crazy_snail.Tree.{Node, node_at, update_at, search_key, search_timer}
use crazy_snail.Reply.{
  Reply, string, array, item, LuaValue, lua_nil, text, int, table, no_fields, at_index,
  push_sub_reply,
}
use crazy_snail.Client.{
  timer_start, Host, Handler, abort, out_of_fuel, pure, ◌>>=◌, ◌>>◌, raise, crash, assert, lift,
  get, put, emit, call,
}
use crazy_snail.Client.Connection.{new_request}

abbrev pub not_initialized : Bytes
not_initialized = bytes "event received but not initialized"

-- `lua_pushinteger` of a `uint64_t`: the signed number with the same bits.
abbrev pub to_lua_integer : ℕ → ℤ
to_lua_integer n =
    if ltb (n % 2 ^ 64) (2 ^ 63) then pos (n % 2 ^ 64) else negsuc (2 ^ 64 - 1 - n % 2 ^ 64)

-- What a timer passes to its callbacks.
abbrev pub timer_fields : ℕ → ℕ → LuaValue
timer_fields repeat timeout = table (
    at_index 1 (text (bytes "timer")) (
      at_index 2 (int (to_lua_integer repeat))
        (at_index 3 (int (to_lua_integer timeout)) no_fields)))

abbrev pub mark : Channel → Channel
mark ch = record ch { flags = record ch.flags { subscribed = true } }

-- The name of the channel has to be a string.
abbrev pub channel_of : Reply → Option Bytes
channel_of (string sname) = some sname
channel_of _ = none

-- Is it a message about a pattern? And its type without that letter.
abbrev pub pvariant_of : Bytes → Bool
pvariant_of stype = tolower (first stype) == b'p'

abbrev pub kind_of : Bytes → Bytes
kind_of stype = if pvariant_of stype then rest stype else stype

module _ (H : Host) where
  open H use {Reader}

  -- The list at a place of a tree; a fault where the place or its list is missing.
  abbrev pub list_of : Option Node → Handler Reader CallbackEnds
  list_of none = crash
  list_of (some n) = elim n.cb_list [ none ↦ crash | some l ↦ pure l ]

  -- `push_sub_reply` behind a nil, and the call.
  unfoldable pub call_with_reply : Ref → Reply → Handler Reader (Unit {0})
  unfolding call
  call_with_reply r reply = elim (push_sub_reply reply) [
    | none ↦ raise (bytes "Unknown reply type")
    | some v ↦ call H r (lua_nil ∷ v ∷ [])
  ]

  -- `while (temp != NULL)` of `on_timer`.
  unfoldable pub timer_loop : ℕ → (repeat timeout : ℕ) → Ptr → Handler Reader (Unit {0})
  unfolding call
  timer_loop zero repeat timeout temp = λ _. out_of_fuel
  timer_loop (suc k) repeat timeout temp = elim (temp == null) [
    | true ↦ pure tt
    | false ↦ do
      w ← lift (load_wrapper temp)
      cb ← lift (load_callback w.cb)
      if not cb.initialized
          then call H cb.ref (text not_initialized ∷ [])
          else call H cb.ref (lua_nil ∷ timer_fields repeat timeout ∷ [])
      w' ← lift (load_wrapper temp)
      timer_loop k repeat timeout w'.next
  ]

  unfoldable pub on_timer : ℕ → (repeat timeout : ℕ) → Handler Reader (Unit {0})
  unfolding timer_loop
  on_timer fuel repeat timeout = do
    cc ← get
    if cc.flags.disconnecting then pure tt else do
      leaf ← lift (search_timer repeat cc.timers)
      list ← list_of (node_at cc.timers leaf)
      timer_loop fuel repeat timeout list.head

  -- Starts the timer of a channel that has just been subscribed, and hangs it in the tree.
  unfoldable pub start_timer : ℕ → Handler Reader (Unit {0})
  unfolding new_request
  start_timer ikey = do
    cc ← get
    leaf ← lift (search_timer ikey cc.timers)
    timer_req ← new_request H
    emit (timer_start timer_req ikey)
    cc ← get
    put (record cc { timers = update_at cc.timers leaf (λ n. record n { timer = timer_req }) })

  -- One round of the loop over the channels: what the channel is afterwards, and `done`.
  unfoldable pub visit_channel : Bytes → Bool → Channel → Handler Reader (Channel × Bool)
  unfolding start_timer
  visit_channel sname done_ ch =
      if ch.flags.subscribed
      then pure (ch, done_)
      else if not done_ && not ch.flags.timer_event
      then elim ch.name [
        | none ↦ crash
        | some name ↦ if is_eq (strcmp name sname) then pure (mark ch, true) else pure (ch, done_)
      ]
      else if ch.flags.timer_event
      then (do start_timer ch.ikey; pure (mark ch, done_))
      else pure (ch, done_)

  -- The loop over `cb->channels[i]`, with the rounds that are left: `done`, and whether every channel
  -- that was met is subscribed.
  unfoldable pub visit_channels :
      ℕ → ℕ → Ptr → Bytes → (done_ all : Bool) → Handler Reader (Bool × Bool)
  unfolding visit_channel
  visit_channels zero i p sname done_ all = pure (done_, all)
  visit_channels (suc n) i p sname done_ all = do
    cb ← lift (load_callback p)
    elim (get_elem? cb.channels i) [
      | none ↦ crash
      | some none ↦ crash
      | some (some ch) ↦ do
        (ch', done') ← visit_channel sname done_ ch
        lift (put_callback p (some (record cb { channels = set cb.channels i (some ch') })))
        visit_channels n (suc i) p sname done' (all && ch'.flags.subscribed)
    ]

  -- One callback that is not initialized yet: `done` afterwards.
  unfoldable pub confirm : Reply → Bytes → Ptr → Handler Reader Bool
  unfolding visit_channels call_with_reply
  confirm reply sname p = do
    cb ← lift (load_callback p)
    (done_, all) ← visit_channels cb.nb_channel 0 p sname false true
    cb' ← lift (load_callback p)
    if all then lift (put_callback p (some (record cb' { initialized = true }))) else pure tt
    cc ← get
    if not cc.ignore_sub_cmd_reply && done_ then call_with_reply cb'.ref reply else pure tt
    pure done_

  -- The confirmation of a subscription goes to the first callback that waits for it.
  unfoldable pub confirm_loop : ℕ → Reply → Bytes → Ptr → Handler Reader (Unit {0})
  unfolding confirm
  confirm_loop zero reply sname temp = λ _. out_of_fuel
  confirm_loop (suc k) reply sname temp = elim (temp == null) [
    | true ↦ pure tt
    | false ↦ do
      w ← lift (load_wrapper temp)
      cb ← lift (load_callback w.cb)
      done_ ← if not cb.initialized then confirm reply sname w.cb else pure false
      w' ← lift (load_wrapper temp)
      elim done_ [ true ↦ pure tt | false ↦ confirm_loop k reply sname w'.next ]
  ]

  -- Any other message goes to every callback of the channel.
  unfoldable pub message_loop : ℕ → Reply → Ptr → Handler Reader (Unit {0})
  unfolding call call_with_reply
  message_loop zero reply temp = λ _. out_of_fuel
  message_loop (suc k) reply temp = elim (temp == null) [
    | true ↦ pure tt
    | false ↦ do
      w ← lift (load_wrapper temp)
      cb ← lift (load_callback w.cb)
      if not cb.initialized
          then call H cb.ref (text not_initialized ∷ [])
          else call_with_reply cb.ref reply
      w' ← lift (load_wrapper temp)
      message_loop k reply w'.next
  ]

  -- The list of the channel `sname`, among the patterns or among the channels.
  unfoldable pub deliver :
      ℕ → Reply → (pvariant : Bool) → (kind sname : Bytes) → Handler Reader (Unit {0})
  unfolding confirm_loop message_loop
  deliver fuel reply pvariant kind sname = do
    cc ← get
    let callbacks = if pvariant then cc.patterns else cc.channels
    place ← lift (search_key sname callbacks)
    list ← list_of (node_at callbacks place)
    assert (not (list.head == null))
    if is_eq (strcmp kind (bytes "subscribe"))
        then confirm_loop fuel reply sname list.head
        else message_loop fuel reply list.head

  unfoldable pub get_and_call_sub_cb : ℕ → Reply → Handler Reader (Unit {0})
  unfolding deliver
  get_and_call_sub_cb fuel (array (item (string stype) (item second more))) = do
    let reply = array (item (string stype) (item second more))
    if is_eq (strcmp (kind_of stype) (bytes "unsubscribe"))
        then pure tt
        else elim (channel_of second) [
          | none ↦ λ _. abort
          | some sname ↦ deliver fuel reply (pvariant_of stype) (kind_of stype) sname
        ]
  get_and_call_sub_cb fuel (array rs) = λ _. abort
  get_and_call_sub_cb fuel r = pure tt
