-- ===== src/Reply/Tables.antt =====
-- The tables that `push_reply` and `push_sub_reply` of src/crazysnail.c make of an array.
use crazy_snail.Common.{
  ℕ, zero, suc, ◌+◌, ◌≡◌, sym, ap, ◌∙◌, ◌<◌, ◌≤◌, inl, inr, Option, none, some, ◌==◌, arith,
  Option-cases, if◌then◌else◌,
}
use crazy_snail.Reply.{
  Reply, Replies, array, end, item, LuaValue, Fields, no_fields, at_index, at_name, table,
  push_reply, push_elements, push_sub_reply, push_sub_elements,
}

-- Element `k` of an array, and field `j` of a table.
abbrev pub element : Replies → ℕ → Option Reply
element end k = none
element (item r rs) zero = some r
element (item r rs) (suc k) = element rs k

abbrev pub field : Fields → ℕ → Option LuaValue
field no_fields j = none
field (at_index i v fs) j = if i == j then some v else field fs j
field (at_name s v fs) j = field fs j

abbrev pub converted : (Reply → Option LuaValue) → Option Reply → Option LuaValue
converted f none = none
converted f (some r) = f r

-- A step of the loops, taken apart.
push_elements_item :
    (i : ℕ) (r : Reply) (rs : Replies) (fs : Fields)
    → push_elements i (item r rs) ≡ some fs
    → (v : LuaValue) × (gs : Fields) × (push_reply r ≡ some v)
      × (push_elements (suc i) rs ≡ some gs)
      × (fs ≡ at_index (i + 1) v gs)
unfolding push_elements
push_elements_item i r rs fs e = elim (Option-cases (push_reply r)) [
  | inl z ↦ absurd (ground arith)
  | inr (v, hv) ↦ elim (Option-cases (push_elements (suc i) rs)) [
    | inl z ↦ absurd (ground arith)
    | inr (gs, hg) ↦ (v, gs, hv, hg, ground arith)
  ]
]

push_sub_elements_item :
    (i : ℕ) (r : Reply) (rs : Replies) (fs : Fields)
    → push_sub_elements i (item r rs) ≡ some fs
    → (v : LuaValue) × (gs : Fields) × (push_sub_reply r ≡ some v)
      × (push_sub_elements (suc i) rs ≡ some gs)
      × (fs ≡ at_index i v gs)
unfolding push_sub_elements
push_sub_elements_item i r rs fs e = elim (Option-cases (push_sub_reply r)) [
  | inl z ↦ absurd (ground arith)
  | inr (v, hv) ↦ elim (Option-cases (push_sub_elements (suc i) rs)) [
    | inl z ↦ absurd (ground arith)
    | inr (gs, hg) ↦ (v, gs, hv, hg, ground arith)
  ]
]

-- The fields of the loop from `i` on: element `k` stands at `i + k + 1`, and nothing below.
push_elements-field :
    (i : ℕ) (rs : Replies) (fs : Fields)
    → push_elements i rs ≡ some fs
    → ((k : ℕ) → field fs (i + k + 1) ≡ converted push_reply (element rs k))
      × ((j : ℕ) → j ≤ i → field fs j ≡ none)
unfolding push_elements
push_elements-field i end fs e =
    let same : no_fields ≡ fs = cc in
    (λ k. ap (λ f. field f (i + k + 1)) (sym same), λ j h. ap (λ f. field f j) (sym same))
push_elements-field i (item r rs) fs e =
    let (v, gs, hv, hg, he) = push_elements_item i r rs fs e in
    let (at, below) = push_elements-field (suc i) rs gs hg in
    (
      λ k. ap (λ f. field f (i + k + 1)) he ∙ there gs at k hv,
      λ j h. ap (λ f. field f j) he ∙ ground (arith, below j),
    )
  where
    there :
        {v : LuaValue} (gs : Fields)
        → ((k : ℕ) → field gs (suc i + k + 1) ≡ converted push_reply (element rs k))
        → (k : ℕ) → push_reply r ≡ some v
        → field (at_index (i + 1) v gs) (i + k + 1) ≡ converted push_reply (element (item r rs) k)
    there gs at zero hv = ground arith
    there gs at (suc k) hv =
        let here : i + suc k + 1 ≡ suc i + k + 1 = omega arith in
        ground (arith, at k, ap (field gs) here)

-- The same of `push_sub_elements`: element `k` stands at `i + k`.
push_sub_elements-field :
    (i : ℕ) (rs : Replies) (fs : Fields)
    → push_sub_elements i rs ≡ some fs
    → ((k : ℕ) → field fs (i + k) ≡ converted push_sub_reply (element rs k))
      × ((j : ℕ) → j < i → field fs j ≡ none)
unfolding push_sub_elements
push_sub_elements-field i end fs e =
    let same : no_fields ≡ fs = cc in
    (λ k. ap (λ f. field f (i + k)) (sym same), λ j h. ap (λ f. field f j) (sym same))
push_sub_elements-field i (item r rs) fs e =
    let (v, gs, hv, hg, he) = push_sub_elements_item i r rs fs e in
    let (at, below) = push_sub_elements-field (suc i) rs gs hg in
    (
      λ k. ap (λ f. field f (i + k)) he ∙ there gs at k hv,
      λ j h. ap (λ f. field f j) he ∙ ground (arith, below j),
    )
  where
    there :
        {v : LuaValue} (gs : Fields)
        → ((k : ℕ) → field gs (suc i + k) ≡ converted push_sub_reply (element rs k))
        → (k : ℕ) → push_sub_reply r ≡ some v
        → field (at_index i v gs) (i + k) ≡ converted push_sub_reply (element (item r rs) k)
    there gs at zero hv = ground arith
    there gs at (suc k) hv =
        let here : i + suc k ≡ suc i + k = omega arith in ground (arith, at k, ap (field gs) here)

-- `push_reply` turns an array into the Lua sequence of its elements: field `k + 1` is the conversion
-- of element `k`, there are no others, and field 0 is not set.
pub push_reply-array :
    (rs : Replies) (v : LuaValue)
    → push_reply (array rs) ≡ some v
    → (fs : Fields) × (v ≡ table fs)
      × ((k : ℕ) → field fs (suc k) ≡ converted push_reply (element rs k))
      × (field fs 0 ≡ none)
unfolding push_reply
push_reply-array rs v e = elim (Option-cases (push_elements 0 rs)) [
  | inl z ↦ absurd (ground arith)
  | inr (fs, h) ↦
      let (at, below) = push_elements-field 0 rs fs h in
      (fs, ground arith, λ k. ap (field fs) (omega arith) ∙ at k, below 0 (omega arith))
]

-- `push_sub_reply` drops the first element of an array: field `k + 1` is the conversion of element
-- `k + 1`, there are no others, and field 0 is not set.
pub push_sub_reply-array :
    (r : Reply) (rs : Replies) (v : LuaValue)
    → push_sub_reply (array (item r rs)) ≡ some v
    → (fs : Fields) × (v ≡ table fs)
      × ((k : ℕ) → field fs (suc k) ≡ converted push_sub_reply (element (item r rs) (suc k)))
      × (field fs 0 ≡ none)
unfolding push_sub_reply
push_sub_reply-array r rs v e = elim (Option-cases (push_sub_elements 1 rs)) [
  | inl z ↦ absurd (ground arith)
  | inr (fs, h) ↦
      let (at, below) = push_sub_elements-field 1 rs fs h in
      (fs, ground arith, λ k. ap (field fs) (omega arith) ∙ at k, below 0 (omega arith))
]
