-- ===== src/Dump.antt =====
-- `dump_tree` and `dump_list` of src/cb.c, which print for debugging. A line is the values that are
-- printed, with the place of a node for its address and the known bits for a flag word.
pub mod Lines
pub mod Order
use crazy_snail.Common.{
  ℕ, zero, suc, Bool, true, false, Option, none, some, List, [], ◌∷◌, ◌++◌, ◌==◌, get_elem?,
}
use crazy_snail.Text.{Bytes, c_str}
use crazy_snail.Memory.{
  Ptr, null, Ref, ChannelFlags, Channel, Callback, CallbackEnds, Cmd, fault, out_of_fuel, pure,
  ◌>>=◌, load_callback, load_wrapper,
}
use crazy_snail.Tree.{Node, Tree, empty, branch, left, right, Place}

-- A name, or the number that stands in for it.
pub data Key : Type 0 where
  name : Bytes → Key
  number : ℕ → Key

abbrev pub key_of : Option Bytes → ℕ → Key
key_of none ikey = number ikey
key_of (some s) ikey = name (c_str s)

pub data Line : Type 0 where
  node_line : Place → Key → (left right : Option Place) → (timer : Ptr) → Line
  callback_line : Ref → (initialized : Bool) → (nb_channel : ℕ) → Line
  channel_line : Key → ChannelFlags → Line
  total_line : ℕ → Line

-- The loop over `cb->channels[i]`, with the rounds that are left; a channel that is missing is read.
unfoldable pub dump_channels : ℕ → ℕ → List (Option Channel) → Cmd (List Line)
dump_channels zero i chs = pure []
dump_channels (suc n) i chs = elim (get_elem? chs i) [
  | some (some ch) ↦ do
    lines ← dump_channels n (suc i) chs
    pure (channel_line (key_of ch.name ch.ikey) ch.flags ∷ lines)
  | _ ↦ λ _. fault
]

-- `while (cb_list != NULL)`, on fuel, with the count so far.
unfoldable pub dump_cells : ℕ → Ptr → ℕ → Cmd (List Line)
unfolding dump_channels
dump_cells zero p nb = λ _. out_of_fuel
dump_cells (suc k) p nb = elim (p == null) [
  | true ↦ pure (total_line nb ∷ [])
  | false ↦ do
    w ← load_wrapper p
    c ← load_callback w.cb
    channels ← dump_channels c.nb_channel 0 c.channels
    lines ← dump_cells k w.next (suc nb)
    pure (callback_line c.ref c.initialized c.nb_channel ∷ channels ++ lines)
]

-- No list is longer than the number of allocations so far.
unfoldable pub dump_list : Option CallbackEnds → Cmd (List Line)
unfolding dump_cells
dump_list none m = pure [] m
dump_list (some list) m = dump_cells (suc m.next) list.head 0 m

-- The address of a child.
abbrev pub child : Place → Tree → Option Place
child p empty = none
child p (branch n l r) = some p

-- `p` is the place of the tree.
unfoldable pub dump_tree : Place → Tree → Cmd (List Line)
unfolding dump_list
dump_tree p empty = pure []
dump_tree p (branch n l r) = do
  lefts ← dump_tree (p ++ left ∷ []) l
  rights ← dump_tree (p ++ right ∷ []) r
  list ← dump_list n.cb_list
  pure (
      lefts
      ++ (rights
          ++ (node_line p (key_of n.key n.ikey) (child (p ++ left ∷ []) l)
                (child (p ++ right ∷ []) r) n.timer
              ∷ list)))
