-- ===== src/Reply/Known.antt =====
-- `push_reply` and `push_sub_reply` of src/crazysnail.c on replies without an unknown type.
use crazy_snail.Common.{ℕ, suc, ◌+◌, ◌≡◌, refl, some, arith}
use crazy_snail.Reply.{
  Reply, Replies, error, status, string, integer, nil, array, unknown, end, item, LuaValue, Fields,
  at_index, table, no_fields, push_reply, push_elements, push_sub_reply, push_sub_elements,
}

-- No reply of an unknown type stands anywhere in the reply.
abbrev mutual
  pub IsKnown : Reply → Type 0
  IsKnown (error s) = Unit {0}
  IsKnown (status s) = Unit {0}
  IsKnown (string s) = Unit {0}
  IsKnown (integer n) = Unit {0}
  IsKnown nil = Unit {0}
  IsKnown (array rs) = AreKnown rs
  IsKnown (unknown t) = ⊥

  pub AreKnown : Replies → Type 0
  AreKnown end = Unit {0}
  AreKnown (item r rs) = IsKnown r × AreKnown rs

mutual
  unfolding push_reply push_elements

  push_known : (r : Reply) → IsKnown r → (v : LuaValue) × (push_reply r ≡ some v)
  push_known (error s) h = (_, refl)
  push_known (status s) h = (_, refl)
  push_known (string s) h = (_, refl)
  push_known (integer n) h = (_, refl)
  push_known nil h = (_, refl)
  push_known (array rs) h = let (fs, e) = push_elements_known rs 0 h in (table fs, ground arith)
  push_known (unknown t) h = absurd h

  push_elements_known :
      (rs : Replies) (i : ℕ) → AreKnown rs → (fs : Fields) × (push_elements i rs ≡ some fs)
  push_elements_known end i h = (_, refl)
  push_elements_known (item r rs) i h =
      let (v, hv) = push_known r h.0 in
      let (fs, hf) = push_elements_known rs (suc i) h.1 in (at_index (i + 1) v fs, ground arith)

mutual
  unfolding push_sub_reply push_sub_elements

  push_sub_known : (r : Reply) → IsKnown r → (v : LuaValue) × (push_sub_reply r ≡ some v)
  push_sub_known (error s) h = (_, refl)
  push_sub_known (status s) h = (_, refl)
  push_sub_known (string s) h = (_, refl)
  push_sub_known (integer n) h = (_, refl)
  push_sub_known nil h = (_, refl)
  push_sub_known (array rs) h = push_sub_array_known rs h
  push_sub_known (unknown t) h = absurd h

  push_sub_array_known :
      (rs : Replies) → AreKnown rs → (v : LuaValue) × (push_sub_reply (array rs) ≡ some v)
  push_sub_array_known end h = (table no_fields, refl)
  push_sub_array_known (item r rs) h =
      let (fs, e) = push_sub_elements_known rs 1 h.1 in (table fs, ground arith)

  push_sub_elements_known :
      (rs : Replies) (i : ℕ) → AreKnown rs → (fs : Fields) × (push_sub_elements i rs ≡ some fs)
  push_sub_elements_known end i h = (no_fields, refl)
  push_sub_elements_known (item r rs) i h =
      let (v, hv) = push_sub_known r h.0 in
      let (fs, hf) = push_sub_elements_known rs (suc i) h.1 in (at_index i v fs, ground arith)

-- A reply in which no unknown type stands is converted, whatever its shape, by `push_reply` and by
-- `push_sub_reply`.
pub push_reply-IsKnown :
    (r : Reply)
    → IsKnown r
    → ((v : LuaValue) × (push_reply r ≡ some v)) × ((v : LuaValue) × (push_sub_reply r ≡ some v))
push_reply-IsKnown r h = (push_known r h, push_sub_known r h)
