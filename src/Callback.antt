-- ===== src/Callback.antt =====
-- Callbacks and channels of src/cb.c: creation and destruction. The name of a channel and the
-- channel itself are held by value, so giving them back leaves no trace in the memory.
use crazy_snail.Common.{
  ℕ, zero, suc, true, false, Option, none, some, List, [], ◌==◌, not, if◌then◌else◌, ℤ, pos, negsuc,
  get_elem?, replicate,
}
use crazy_snail.Memory.{
  Ptr, null, Ref, ChannelFlags, Channel, Callback, Cmd, fault, abort, pure, ◌>>=◌, ◌>>◌, assert,
  malloc, load_callback, put_callback, read_junk, bit, strdup,
}
use crazy_snail.Text.{Bytes}

abbrev pub snail_err : ℤ
snail_err = negsuc 0

abbrev pub snail_ok : ℤ
snail_ok = pos 0

abbrev pub no_flags : ChannelFlags
no_flags = record { subscribed = false; key_space = false; key_event = false; timer_event = false }

-- The flag word is never set here: it reads what the block held.
unfoldable pub create_callback : Ptr → Ref → ℕ → Cmd (ℤ × Ptr)
create_callback callback r nb_channel = do
  assert (callback == null)
  p ← malloc
  if p == null then pure (snail_err, null) else do
    word ← read_junk p 1
    let fresh : Callback = record {
      ref = r;
      initialized = bit 0 word;
      nb_channel = nb_channel;
      attach = pos 0;
      channels = [];
    }
    put_callback p (some fresh)
    a ← malloc
    if a == null then pure (snail_err, p) else do
      put_callback p (some (record fresh { channels = replicate nb_channel none }))
      pure (snail_ok, p)

unfoldable pub destroy_channel : Option Channel → Cmd (Unit {0})
destroy_channel none = λ _. abort
destroy_channel (some ch) = pure tt

-- The loop over `channels[i]`, with the rounds that are left.
unfoldable pub destroy_channels : ℕ → ℕ → List (Option Channel) → Cmd (Unit {0})
unfolding destroy_channel
destroy_channels zero i chs = pure tt
destroy_channels (suc n) i chs = elim (get_elem? chs i) [
  | none ↦ λ _. fault
  | some ch ↦ destroy_channel ch >> destroy_channels n (suc i) chs
]

unfoldable pub destroy_callback : Ptr → Cmd (Unit {0})
destroy_callback callback = do
  assert (not (callback == null))
  c ← load_callback callback
  destroy_channels c.nb_channel 0 c.channels
  put_callback callback none

-- The channel stays NULL only if its own block is refused.
unfoldable pub create_channel : Option Channel → Bytes → Cmd (ℤ × Option Channel)
create_channel (some ch) name = λ _. abort
create_channel none name = do
  p ← malloc
  if p == null then pure (snail_err, none) else do
    n ← strdup name
    ikey ← read_junk p 1
    word ← read_junk p 2
    let dirty : ChannelFlags = record {
      subscribed = bit 0 word;
      key_space = bit 1 word;
      key_event = bit 2 word;
      timer_event = bit 3 word;
    }
    elim n [
      | none ↦ pure (snail_err, some (record { name = none; ikey = ikey; flags = dirty }))
      | some s ↦ pure (snail_ok, some (record { name = some s; ikey = 0; flags = no_flags }))
    ]

unfoldable pub create_timer_channel : Option Channel → ℕ → Cmd (ℤ × Option Channel)
create_timer_channel (some ch) ikey = λ _. abort
create_timer_channel none ikey = do
  p ← malloc
  let timer : ChannelFlags = record no_flags { timer_event = true }
  if p == null
      then pure (snail_err, none)
      else pure (snail_ok, some (record { name = none; ikey = ikey; flags = timer }))
