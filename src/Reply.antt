-- ===== src/Reply.antt =====
-- Replies of the Redis reader, and the Lua values that src/crazysnail.c makes of them.
pub mod Tables
pub mod Known
use crazy_snail.Common.{
  ℕ, zero, suc, ◌+◌, ◌-◌, Bool, true, false, Option, none, some, List, [], ◌∷◌, ◌++◌, ◌==◌, drop,
  length, if◌then◌else◌, ℤ, pos,
}
use crazy_snail.Text.{Bytes, bytes, c_str, strlen, strncmp, is_eq}

-- `redisReply`, a constructor for each type. An error is read up to its terminator.
mutual
  pub data Reply : Type 0 where
    error status string : Bytes → Reply
    integer : ℤ → Reply
    nil : Reply
    array : Replies → Reply
    unknown : ℕ → Reply

  pub data Replies : Type 0 where
    end : Replies
    item : Reply → Replies → Replies

-- The values on the Lua stack. A table is the sequence of the fields that are stored in it, and an
-- integer the one that `lua_pushinteger` is given.
mutual
  pub data LuaValue : Type 0 where
    lua_nil : LuaValue
    text : Bytes → LuaValue
    int : ℤ → LuaValue
    table : Fields → LuaValue

  pub data Fields : Type 0 where
    no_fields : Fields
    at_index : ℕ → LuaValue → Fields → Fields
    at_name : Bytes → LuaValue → Fields → Fields

abbrev pub key_event : Bytes
key_event = bytes "__keyevent@0__:"

abbrev pub key_space : Bytes
key_space = bytes "__keyspace@0__:"

abbrev pub timer_event : Bytes
timer_event = bytes "__timer@0__:"

-- `%s` of `lua_pushfstring`, and `lua_pushstring`.
abbrev pub format_s : Option Bytes → Bytes
format_s none = bytes "(null)"
format_s (some s) = c_str s

abbrev pub push_string : Option Bytes → LuaValue
push_string none = lua_nil
push_string (some s) = text (c_str s)

-- A field with the value nil is no field.
abbrev pub set_field : Bytes → Option Bytes → Fields → Fields
set_field k none t = t
set_field k (some s) t = at_name k (text (c_str s)) t

unfoldable pub luv_push_async_error_raw : (code msg source path : Option Bytes) → LuaValue
luv_push_async_error_raw code msg source path =
    let message = format_s code ++ bytes ", " ++ format_s msg in
    let rest = set_field (bytes "code") code (set_field (bytes "source") source no_fields) in
    table (elim path [
      | some p ↦
          at_name (bytes "path") (text (c_str p))
            (at_name (bytes "message") (text (message ++ bytes " '" ++ c_str p ++ bytes "'")) rest)
      | none ↦ at_name (bytes "message") (text message) rest
    ])

-- The part of a notification behind its prefix.
unfoldable pub strip_prefix : Bytes → Bytes
unfolding strncmp strlen
strip_prefix str =
    if is_eq (strncmp str key_space (strlen key_space))
    then drop (strlen key_space) str
    else if is_eq (strncmp str key_event (strlen key_event))
    then drop (strlen key_event) str
    else str

-- `none` is the Lua error for a type that is none.
unfoldable mutual
  unfolding luv_push_async_error_raw

  pub push_reply : Reply → Option LuaValue
  push_reply (error str) =
      some (luv_push_async_error_raw none (some str) (some (bytes "push_reply")) none)
  push_reply (status str) = some (text str)
  push_reply (integer n) = some (int n)
  push_reply nil = some lua_nil
  push_reply (string str) = some (text str)
  push_reply (array elements) = elim (push_elements 0 elements) [
    | none ↦ none
    | some fields ↦ some (table fields)
  ]
  push_reply (unknown t) = none

  -- The loop from `i` on: element `i` becomes field `i + 1`.
  pub push_elements : ℕ → Replies → Option Fields
  push_elements i end = some no_fields
  push_elements i (item r rs) = elim (push_reply r) [
    | none ↦ none
    | some v ↦ elim (push_elements (suc i) rs) [
      | none ↦ none
      | some fields ↦ some (at_index (i + 1) v fields)
    ]
  ]

-- The same with `tweak`: a prefix is stripped, and an array goes without its first element.
unfoldable mutual
  unfolding luv_push_async_error_raw strip_prefix

  pub push_sub_reply : Reply → Option LuaValue
  push_sub_reply (error str) =
      some (luv_push_async_error_raw none (some str) (some (bytes "push_reply")) none)
  push_sub_reply (status str) = some (text str)
  push_sub_reply (integer n) = some (int n)
  push_sub_reply nil = some lua_nil
  push_sub_reply (string str) = some (text (strip_prefix str))
  push_sub_reply (array end) = some (table no_fields)
  push_sub_reply (array (item r rs)) = elim (push_sub_elements 1 rs) [
    | none ↦ none
    | some fields ↦ some (table fields)
  ]
  push_sub_reply (unknown t) = none

  -- Element `i` becomes field `i`.
  pub push_sub_elements : ℕ → Replies → Option Fields
  push_sub_elements i end = some no_fields
  push_sub_elements i (item r rs) = elim (push_sub_reply r) [
    | none ↦ none
    | some v ↦ elim (push_sub_elements (suc i) rs) [
      | none ↦ none
      | some fields ↦ some (at_index i v fields)
    ]
  ]
