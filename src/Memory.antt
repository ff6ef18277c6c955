-- ===== src/Memory.antt =====
-- The data of src/cb.h and the memory it lives in. Callbacks are shared by several lists, so they
-- and the list cells stand at addresses; the channels of a callback are its own and stand in it.
-- A command runs on the memory and ends normally, in undefined behaviour, in a failed `assert`, or
-- without fuel.
pub mod Access
pub mod Returns
use crazy_snail.Common.{
  ℕ, suc, ◌/◌, ◌%◌, ◌^◌, ◌≡◌, Bool, true, false, Option, none, some, List, [], ◌∷◌, ◌++◌, ◌==◌, not,
  if◌then◌else◌, ℤ,
}
use crazy_snail.Text.{Bytes, c_str}

abbrev pub Ptr : Type 0
Ptr = ℕ

abbrev pub null : Ptr
null = 0

-- What `luaL_ref` returns, and the two constants for "no reference".
pub data Ref : Type 0 where
  noref : Ref
  refnil : Ref
  ref : ℕ → Ref

-- The bits of `channel_s.flags`.
pub record ChannelFlags : Type 0 where
  pub subscribed : Bool
  pub key_space : Bool
  pub key_event : Bool
  pub timer_event : Bool

pub record Channel : Type 0 where
  pub name : Option Bytes
  pub ikey : ℕ
  pub flags : ChannelFlags

-- `initialized` is the one bit of `callback_s.flags`.
pub record Callback : Type 0 where
  pub ref : Ref
  pub initialized : Bool
  pub nb_channel : ℕ
  pub attach : ℤ
  pub channels : List (Option Channel)

-- `callback_ll_s`, a cell of a list of callbacks.
pub record Wrapper : Type 0 where
  pub cb : Ptr
  pub next : Ptr

pub record CallbackEnds : Type 0 where
  pub head : Ptr
  pub tail : Ptr

-- `uv_buf_t`
pub record Buffer : Type 0 where
  pub base : Ptr
  pub len : ℕ

-- `next` is the address of the next allocation, `oom` says which allocations fail and `junk p i`
-- what field i of the block at `p` reads before anybody has written it. `requests` and `buffers` are
-- the free lists, `stopped` the timers handed to `uv_timer_stop`, the newest first.
pub record Memory : Type 0 where
  pub next : Ptr
  pub oom : Ptr → Bool
  pub junk : Ptr → ℕ → ℕ
  pub callback : Ptr → Option Callback
  pub wrapper : Ptr → Option Wrapper
  pub requests : List Ptr
  pub buffers : List Buffer
  pub stopped : List Ptr

pub data Run {ℓ} (A : Type ℓ) : Type ℓ where
  ok : A → Memory → Run A
  fault : Run A
  abort : Run A
  out_of_fuel : Run A

abbrev pub Cmd {ℓ} : Type ℓ → Type ℓ
Cmd A = Memory → Run A

abbrev pub pure {ℓ} : {A : Type ℓ} → A → Cmd A
pure = ok

module _ {ℓ κ} {A : Type ℓ} {B : Type κ} where
  abbrev pub and_then : Run A → (A → Cmd B) → Run B
  and_then (ok a m) k = k a m
  and_then fault k = fault
  and_then abort k = abort
  and_then out_of_fuel k = out_of_fuel

  infixl 5 ◌>>=◌
  abbrev pub ◌>>=◌ : Cmd A → (A → Cmd B) → Cmd B
  c >>= k = λ m. and_then (c m) k

infixl 5 ◌>>◌
abbrev pub ◌>>◌ {ℓ} : {B : Type ℓ} → Cmd (Unit {0}) → Cmd B → Cmd B
c >> d = c >>= λ _. d

-- `assert(b)`
abbrev pub assert : Bool → Cmd (Unit {0})
assert true = ok tt
assert false = λ _. abort

abbrev pub update {ℓ} : {A : Type ℓ} → (Ptr → Option A) → Ptr → Option A → Ptr → Option A
update f p c a = if a == p then c else f a

-- `malloc`: a fresh address, or NULL.
unfoldable pub malloc : Cmd Ptr
malloc m = ok (if m.oom m.next then null else m.next) (record m { next = suc m.next })

-- Reads and writes through a pointer; a fault at NULL and at a block that is not there.
unfoldable pub load_callback : Ptr → Cmd Callback
load_callback p m =
    if p == null then fault else elim (m.callback p) [ none ↦ fault | some c ↦ ok c m ]

unfoldable pub put_callback : Ptr → Option Callback → Cmd (Unit {0})
put_callback p c m = ok tt (record m { callback = update m.callback p c })

unfoldable pub load_wrapper : Ptr → Cmd Wrapper
load_wrapper p m =
    if p == null then fault else elim (m.wrapper p) [ none ↦ fault | some w ↦ ok w m ]

unfoldable pub put_wrapper : Ptr → Option Wrapper → Cmd (Unit {0})
put_wrapper p c m = ok tt (record m { wrapper = update m.wrapper p c })

-- What field `i` of the block at `p` reads before its first write.
abbrev pub read_junk : Ptr → ℕ → Cmd ℕ
read_junk p i m = ok (m.junk p i) m

-- Bit `k` of a flag word.
abbrev pub bit : ℕ → ℕ → Bool
bit k w = w / 2 ^ k % 2 == 1

-- `strdup`: a copy, or NULL.
unfoldable pub strdup : Bytes → Cmd (Option Bytes)
unfolding malloc c_str
strdup s = do p ← malloc; pure (if p == null then none else some (c_str s))
