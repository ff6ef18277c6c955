-- ===== src/Client/Subscribe.antt =====
-- `lua_client_subscribe` of src/crazysnail.c: keys get the prefix of their kind, and the rest is a
-- command.
use crazy_snail.Common.{
  ℕ, ◌+◌, ◌-◌, ◌%◌, ◌^◌, Bool, false, ◌||◌, Option, none, some, List, [], ◌∷◌, ◌++◌, ◌==◌, ltb,
  if◌then◌else◌, ℤ, pos, negsuc,
}
use crazy_snail.Text.{Bytes, bytes, c_str, strlen, strncmp, strcmp, is_eq}
use crazy_snail.Text.Decimal.{decimal_length, snprintf_decimal}
use crazy_snail.Memory.{null, malloc}
use crazy_snail.Reply.{key_event, key_space, timer_event}
use crazy_snail.Client.{Host, Handler, pure, ◌>>=◌, raise, crash, lift}
use crazy_snail.Client.Command.{LuaArg, string, number, to_string, lua_client_command}

abbrev pub events : List Bytes
events =
    bytes "append"
    ∷ bytes "del"
    ∷ bytes "expire"
    ∷ bytes "evicted"
    ∷ bytes "incrby"
    ∷ bytes "incrbyfloat"
    ∷ bytes "hdel"
    ∷ bytes "hincrby"
    ∷ bytes "hincrbyfloat"
    ∷ bytes "hset"
    ∷ bytes "linsert"
    ∷ bytes "lpop"
    ∷ bytes "lpush"
    ∷ bytes "lset"
    ∷ bytes "ltrim"
    ∷ bytes "rename_from"
    ∷ bytes "rename_to"
    ∷ bytes "rpop"
    ∷ bytes "rpush"
    ∷ bytes "sadd"
    ∷ bytes "sdiffstore"
    ∷ bytes "set"
    ∷ bytes "setrange"
    ∷ bytes "sinterstore"
    ∷ bytes "sortstore"
    ∷ bytes "spop"
    ∷ bytes "srem"
    ∷ bytes "sunionostore"
    ∷ bytes "zadd"
    ∷ bytes "zincr"
    ∷ bytes "zinterstore"
    ∷ bytes "zrem"
    ∷ bytes "zrembyrank"
    ∷ bytes "zrembyscore"
    ∷ bytes "zunionstore"
    ∷ []

-- The search through `events`.
unfoldable pub is_event : List Bytes → Bytes → Bool
unfolding strcmp
is_event [] key = false
is_event (e ∷ es) key = is_eq (strcmp e key) || is_event es key

abbrev pub starts_with : Bytes → Bytes → Bool
starts_with p key = is_eq (strncmp key p (strlen p))

-- A key that is a string gets a prefix unless it has one.
unfoldable pub prefix_key : Bytes → Bytes
unfolding strncmp strlen c_str is_event
prefix_key key =
    if starts_with key_space key || (starts_with key_event key || starts_with timer_event key)
    then key
    else (if is_event events key then key_event else key_space) ++ c_str key

-- A number is read as an `int`. A negative one has no logarithm, and its text no length.
abbrev pub to_int32 : ℤ → Option ℕ
to_int32 (pos n) = if ltb (n % 2 ^ 32) (2 ^ 31) then some (n % 2 ^ 32) else none
to_int32 (negsuc n) = if ltb (n % 2 ^ 32) (2 ^ 31) then none else some (2 ^ 32 - 1 - n % 2 ^ 32)

module _ (H : Host) where
  open H use {Reader}

  -- `lua_isnumber`, which takes strings that look like numbers too.
  abbrev pub as_number : LuaArg → Option ℤ
  as_number (number n) = some n
  as_number (string s) = H.to_number s
  as_number _ = none

  -- The new key is built in a block of its own.
  unfoldable pub new_key : Bytes → Handler Reader LuaArg
  new_key key = do
    p ← lift malloc
    if p == null then raise (bytes "subscribe: Out Of Memory") else pure (string key)

  unfoldable pub rewrite_key : LuaArg → Handler Reader LuaArg
  unfolding new_key prefix_key decimal_length snprintf_decimal
  rewrite_key a = elim (as_number a) [
    | some n ↦ elim (to_int32 n) [
      | none ↦ crash
      | some timeout ↦ do
        let len = decimal_length timeout
        buffer ← lift malloc
        if buffer == null
            then crash
            else new_key (timer_event ++ snprintf_decimal (len + 1) timeout)
    ]
    | none ↦ elim (to_string a) [
      | none ↦ raise (bytes "string expected")
      | some key ↦
          if starts_with key_space key || (starts_with key_event key || starts_with timer_event key)
          then pure (string key)
          else new_key (prefix_key key)
    ]
  ]

  -- The loop `for (i = 2; i <= top - 1; i++)`: all arguments but the last.
  unfoldable pub rewrite_keys : List LuaArg → Handler Reader (List LuaArg)
  unfolding rewrite_key
  rewrite_keys [] = pure []
  rewrite_keys (a ∷ []) = pure (a ∷ [])
  rewrite_keys (a ∷ b ∷ as_) = do
    a' ← rewrite_key a
    rest ← rewrite_keys (b ∷ as_)
    pure (a' ∷ rest)

  unfoldable pub lua_client_subscribe : ℤ → List LuaArg → Handler Reader (Unit {0})
  unfolding rewrite_keys
  lua_client_subscribe written as_ = do
    keys ← rewrite_keys as_
    lua_client_command H written (string (bytes "subscribe") ∷ keys)
