-- ===== src/Tests/Reply.antt =====
-- A notification of a key and its event.
use crazy_snail.Common.{ℕ, suc, ◌≡◌, refl, none, some, pos}
use crazy_snail.Text.{bytes, strncmp, strlen, c_str}
use crazy_snail.Reply.{
  Reply, Replies, string, integer, array, end, item, LuaValue, text, int, table, no_fields,
  at_index, Fields, push_reply, push_elements, push_sub_reply, push_sub_elements, strip_prefix,
}
use crazy_snail.Reply.Tables.{element, field, converted, push_reply-array, push_sub_reply-array}
use crazy_snail.Reply.Known.{push_reply-IsKnown}

abbrev kind : Reply
kind = string (bytes "message")

abbrev parts : Replies
parts = item (string (bytes "__keyspace@0__:foo")) (item (integer (pos 3)) end)

abbrev sequence : LuaValue
sequence =
    table (at_index 1 (text (bytes "__keyspace@0__:foo")) (at_index 2 (int (pos 3)) no_fields))

abbrev event : LuaValue
event = table (at_index 1 (text (bytes "foo")) (at_index 2 (int (pos 3)) no_fields))

push_parts : push_reply (array parts) ≡ some sequence
unfolding push_reply push_elements
push_parts = refl

push_event : push_sub_reply (array (item kind parts)) ≡ some event
unfolding push_sub_reply push_sub_elements strip_prefix strncmp strlen c_str
push_event = refl

push_reply-array_example :
    (fs : Fields) × (sequence ≡ table fs)
    × ((k : ℕ) → field fs (suc k) ≡ converted push_reply (element parts k))
    × (field fs 0 ≡ none)
push_reply-array_example = push_reply-array parts sequence push_parts

push_sub_reply-array_example :
    (fs : Fields) × (event ≡ table fs)
    × ((k : ℕ) → field fs (suc k) ≡ converted push_sub_reply (element (item kind parts) (suc k)))
    × (field fs 0 ≡ none)
push_sub_reply-array_example = push_sub_reply-array kind parts event push_event

push_reply-IsKnown_example :
    ((v : LuaValue) × (push_reply (array parts) ≡ some v))
    × ((v : LuaValue) × (push_sub_reply (array parts) ≡ some v))
push_reply-IsKnown_example = push_reply-IsKnown (array parts) (tt, (tt, tt))
