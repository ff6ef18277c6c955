-- ===== src/Queue.antt =====
-- The lists of callbacks of src/cb.c: cells chained from `head`, with `tail` for a cheap append. A
-- callback counts in `attach` the cells that hold it, and goes with the last of them.
pub mod Cells
pub mod Release
pub mod Push
pub mod Shift
pub mod Destroy
use crazy_snail.Common.{
  ℕ, zero, suc, ◌+◌, Bool, true, false, Option, none, some, ◌==◌, not, if◌then◌else◌, ℤ, pos, inc,
  dec, is_one,
}
use crazy_snail.Memory.{
  Ptr, null, Callback, Wrapper, CallbackEnds, Memory, Cmd, ok, fault, abort, out_of_fuel, pure,
  ◌>>=◌, ◌>>◌, assert, malloc, load_callback, put_callback, load_wrapper, put_wrapper,
}
use crazy_snail.Callback.{snail_err, snail_ok, destroy_callback}

unfoldable pub wrap_cb : Ptr → Ptr → Cmd (ℤ × Ptr)
wrap_cb wrapper cb = do
  assert (wrapper == null)
  assert (not (cb == null))
  p ← malloc
  if p == null
      then pure (snail_err, null)
      else do put_wrapper p (some (record { cb = cb; next = null })); pure (snail_ok, p)

unfoldable pub destroy_wrapper : Ptr → Cmd (Unit {0})
destroy_wrapper wrapper = do
  assert (not (wrapper == null))
  w ← load_wrapper wrapper
  c ← load_callback w.cb
  if is_one c.attach
      then destroy_callback w.cb
      else put_callback w.cb (some (record c { attach = dec c.attach }))
  put_wrapper wrapper none

-- `p->next = q`
unfoldable pub set_next : Ptr → Ptr → Cmd (Unit {0})
set_next p q = do w ← load_wrapper p; put_wrapper p (some (record w { next = q }))

-- `cb->attach++`
unfoldable pub attach_cb : Ptr → Cmd (Unit {0})
attach_cb p = do c ← load_callback p; put_callback p (some (record c { attach = inc c.attach }))

unfoldable pub push_cb : Option CallbackEnds → Ptr → Cmd CallbackEnds
push_cb none source = λ _. abort
push_cb (some list) source = do
  assert (not (source == null))
  let head = if list.head == null then source else list.head
  if not (list.tail == null) then set_next list.tail source else pure tt
  w ← load_wrapper source
  attach_cb w.cb
  pure (record { head = head; tail = source })

-- The status, the list, and the copy of the callback if there is one: the caller's target is
-- untouched otherwise.
unfoldable pub shift_cb : CallbackEnds → Cmd (ℤ × CallbackEnds × Option Callback)
shift_cb list = if list.head == null then pure (snail_err, list, none) else do
  w ← load_wrapper list.head
  c ← load_callback w.cb
  destroy_wrapper list.head
  let tail = if list.head == list.tail then null else list.tail
  pure (snail_ok, record { head = w.next; tail = tail }, some c)

-- `while (temp != NULL)` of `destroy_list`, on fuel.
unfoldable pub destroy_cells : ℕ → Ptr → Cmd (Unit {0})
destroy_cells zero temp = λ _. out_of_fuel
destroy_cells (suc k) temp = elim (temp == null) [
  | true ↦ pure tt
  | false ↦ do w ← load_wrapper temp; destroy_wrapper temp; destroy_cells k w.next
]

abbrev pub no_ends : CallbackEnds
no_ends = record { head = null; tail = null }

-- No list is longer than the number of allocations so far.
unfoldable pub destroy_list : Option CallbackEnds → Cmd (Option CallbackEnds)
destroy_list none m = ok none m
destroy_list (some list) m = (destroy_cells (suc m.next) list.head >> pure (some no_ends)) m
