-- ===== src/Pools.antt =====
-- The free lists of src/crazysnail.c: requests and read buffers are never given back to `malloc`,
-- they wait for the next user.
pub mod Requests
use crazy_snail.Common.{ℕ, [], ◌∷◌, ◌==◌, if◌then◌else◌}
use crazy_snail.Memory.{Ptr, null, Buffer, Cmd, ok, fault, pure, ◌>>=◌, malloc}

unfoldable pub req_alloc : Cmd Ptr
unfolding malloc
req_alloc m = elim m.requests [ [] ↦ malloc m | req ∷ next ↦ ok req (record m { requests = next }) ]

unfoldable pub req_free : Ptr → Cmd (Unit {0})
req_free req m = if req == null then fault else ok tt (record m { requests = req ∷ m.requests })

-- `uv_timer_stop` and back to the free list.
unfoldable pub stop_timer : Ptr → Cmd (Unit {0})
unfolding req_free
stop_timer req m = req_free req (record m { stopped = req ∷ m.stopped })

-- A buffer from the free list keeps the length that it was made with.
unfoldable pub buf_alloc : ℕ → Cmd Buffer
unfolding malloc
buf_alloc size m = elim m.buffers [
  | [] ↦
      (do ab ← malloc; if ab == null then (λ _. fault) else pure (record { base = ab; len = size }))
        m
  | ab ∷ next ↦ ok ab (record m { buffers = next })
]

unfoldable pub buf_free : Buffer → Cmd (Unit {0})
buf_free buf m = if buf.base == null then fault else ok tt (record m { buffers = buf ∷ m.buffers })
