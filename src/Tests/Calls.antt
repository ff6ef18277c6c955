-- ===== src/Tests/Calls.antt =====
-- What the client of Tests/Client does with a timer, a message, commands and replies.
use crazy_snail.Common.{◌≡◌, refl, subst, false, some, [], ◌∷◌, arith, pos, negsuc, length, drop}
use crazy_snail.Text.{Bytes, bytes, c_str, strlen, strncmp, strcmp, tolower, is_eq}
use crazy_snail.Text.Decimal.{strtol, read_digits}
use crazy_snail.Memory.{Ptr, ref, CallbackEnds, Memory}
use crazy_snail.Queue.Cells.{IsQueue, Counted, gained}
use crazy_snail.Reply.{
  Replies, array, item, string, end, LuaValue, text, table, at_index, no_fields, push_reply,
  push_sub_reply, push_sub_elements, strip_prefix, timer_event,
}
use crazy_snail.Client.{Env, done}
use crazy_snail.Client.Dispatch.{to_lua_integer, on_timer, kind_of, pvariant_of}
use crazy_snail.Client.Command.{file_at, Collected, number, collect_key, enqueue}
use crazy_snail.Client.Command.{LuaArg}
use crazy_snail.Client.Subscribe.{rewrite_key}
use crazy_snail.Client.Filing.{file_at-IsQueue}
use crazy_snail.Tree.Refill.{relisted}
use crazy_snail.Client.Calls.{called_all, IsEvent, on_timer-calls}
use crazy_snail.Client.Answers.{IsWaiting, made, queued, enqueue-IsWaiting}
use crazy_snail.Client.Keys.{rewrite_key-number}
use crazy_snail.Tests.Client.{
  channel_list-IsQueue, timer_list-IsQueue, host-IsTame, subscriber, channel_node, timer_node, one,
  all_cells, store-Attached, subscriber-Attached, env-IsWaiting, host, store, client, env,
}

on_timer-calls_example :
    (v : LuaValue) × IsEvent 500 12345 v
    × (on_timer host 2 500 12345 env ≡ done tt (called_all host v (subscriber ∷ []) env))
on_timer-calls_example =
    on_timer-calls host host-IsTame 500 12345 2 env [] timer_node (one 3) (subscriber ∷ []) refl
      (tt, tt, tt, tt) refl refl refl timer_list-IsQueue (ground arith, refl, tt) (omega arith)

-- The period of the key `__timer@0__:-1` is passed on as -1.
minus_one : to_lua_integer (strtol (bytes "-1")) ≡ negsuc 0
unfolding strtol read_digits
minus_one = refl

abbrev message : Replies
message =
    item (string (bytes "message")) (item (string (bytes "foo")) (item (string (bytes "hi")) end))

abbrev pub delivered : LuaValue
delivered = table (at_index 1 (text (bytes "foo")) (at_index 2 (text (bytes "hi")) no_fields))

pub push_message : push_sub_reply (array message) ≡ some delivered
unfolding push_sub_reply push_sub_elements strip_prefix strncmp strlen c_str
push_message = refl

pub is_message :
    (is_eq (strcmp (kind_of (bytes "message")) (bytes "unsubscribe")) ≡ false)
    × (is_eq (strcmp (kind_of (bytes "message")) (bytes "subscribe")) ≡ false)
    × (pvariant_of (bytes "message") ≡ false)
unfolding strcmp strncmp strlen c_str tolower
is_message = (refl, refl, refl)

pub terminated_foo : (k : Bytes) → channel_node.key ≡ some k → c_str k ≡ k
unfolding c_str
terminated_foo k e = let same : bytes "foo" ≡ k = cc e in subst (λ x. c_str x ≡ x) same refl

enqueue-IsWaiting_example :
    (l : CallbackEnds) × (m : Memory) × (s : Ptr) × (c : Ptr) × (enqueue host (ref 3) env
      ≡ done tt (queued host env l m))
    × IsWaiting (queued host env l m) ((5, 4) ∷ (s, c) ∷ []) ((2, 1) ∷ (3, 1) ∷ [])
    × (m.callback c ≡ some (gained (made store (ref 3))))
enqueue-IsWaiting_example =
    enqueue-IsWaiting host env (ref 3) ((5, 4) ∷ []) ((2, 1) ∷ (3, 1) ∷ []) env-IsWaiting
      (λ a h. (ground arith, ground arith)) (ground arith) (λ p. refl)

push_hi : push_reply (string (bytes "hi")) ≡ some (text (bytes "hi"))
unfolding push_reply
push_hi = refl

abbrev nothing : Collected
nothing = record { argv = []; timers = [] }

rewrite_key-number_example :
    (key : Bytes) × (e' : Env (Unit {0})) × (rewrite_key host (number (pos 500)) env
      ≡ done (LuaArg.string key) e')
    × (collect_key host nothing (some key) e' ≡ done (record nothing { timers = key ∷ [] }) e')
    × (strtol (drop (length timer_event) key) ≡ 500)
rewrite_key-number_example =
    rewrite_key-number host 500 env nothing (omega arith) (ground arith) (λ p. refl) (omega arith)

file_at-IsQueue_example :
    (l : CallbackEnds) × (m' : Memory) × (s : Ptr) × (file_at host client.channels (some []) 1 env
      ≡ done (relisted client.channels [] l) (record env { memory = m' }))
    × IsQueue m' l ((2, 1) ∷ (s, 1) ∷ [])
    × Counted m' ((2, 1) ∷ (s, 1) ∷ (3, 1) ∷ (5, 4) ∷ [])
file_at-IsQueue_example =
    file_at-IsQueue host env client.channels [] channel_node (one 2) 1 ((2, 1) ∷ [])
      ((3, 1) ∷ (5, 4) ∷ []) refl refl channel_list-IsQueue (store-Attached all_cells λ c. refl)
      subscriber-Attached (λ a h. (ground arith, ground arith)) (ground arith) (λ a. refl)
