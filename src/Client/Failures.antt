-- ===== src/Client/Failures.antt =====
-- Failures in src/crazysnail.c: `on_write`, and the end of `lua_client_command`.
use crazy_snail.Common.{
  ◌≡◌, refl, ap, ◌∙◌, ◌≢◌, Bool, true, false, none, some, List, [], ◌∷◌, ◌++◌, arith, ==_ne, ℤ,
  is_negative,
}
use crazy_snail.Text.{Bytes, bytes}
use crazy_snail.Memory.{Ptr, null, ref, Callback, CallbackEnds, Memory, ok}
use crazy_snail.Memory.Returns.{ending}
use crazy_snail.Callback.{snail_ok}
use crazy_snail.Queue.{shift_cb}
use crazy_snail.Queue.Cells.{Cells, IsQueue-same, Counted-same}
use crazy_snail.Queue.Shift.{shift_cb-IsQueue}
use crazy_snail.Pools.{req_free}
use crazy_snail.Reply.{LuaValue, text}
use crazy_snail.Client.{Env, Host, Handler, done, raised, call, call_once, unref, free_text}
use crazy_snail.Client.Calls.{called}
use crazy_snail.Client.Answers.{IsWaiting, queued}
use crazy_snail.Client.Command.{report, send}
use crazy_snail.Client.Read.{shift_command, fail_command, on_write}

module _ (H : Host) where
  -- The function of a callback is told, and its reference given back.
  abbrev pub told : LuaValue → Callback → Env H.Reader → Env H.Reader
  told v k e = elim k.ref [
    | ref f ↦ called H (ref f) (v ∷ []) (record e { log = unref f ∷ e.log })
    | _ ↦ e
  ]

  -- A message for a callback, raised in Lua if there is no function for it.
  abbrev pub reported : Bytes → Callback → Handler H.Reader (Unit {0})
  reported message k e = elim k.ref [
    | ref f ↦ done tt (called H (ref f) (text message ∷ []) (record e { log = unref f ∷ e.log }))
    | _ ↦ raised message e
  ]

  -- A request that goes to the free list.
  abbrev pub given_back : Ptr → Env H.Reader → Env H.Reader
  given_back p e = record e { memory = record e.memory { requests = p ∷ e.memory.requests } }

  -- The first of the queue leaves it, and the free list of requests is `rs`.
  abbrev pub Served : Env H.Reader → Ptr → Cells → Cells → List Ptr → CallbackEnds → Memory → Type 0
  Served e p xs ys rs l m =
      IsWaiting (queued H e l m) xs ys × (m.wrapper p ≡ none) × (m.requests ≡ rs)

  -- A command that is not to be written is freed.
  abbrev pub forgotten : List Bytes → Env H.Reader → Env H.Reader
  forgotten argv e = record e { log = free_text (some (H.format_command argv)) ∷ e.log }

  shifted :
      {e : Env H.Reader} {p c : Ptr} {k : Callback} (xs ys : Cells)
      → IsWaiting e ((p, c) ∷ xs) ys
      → e.memory.callback c ≡ some k
      → (l : CallbackEnds) × (m : Memory) × (shift_cb e.client.command_cb_list e.memory
          ≡ ok (snail_ok, l, some k) m)
        × Served e p xs ys e.memory.requests l m
  shifted {e} {p} {c} xs ys w here =
      ending (shift_cb-IsQueue e.client.command_cb_list p c xs ys w.queue w.counted)
        λ (s, l, o) m run d. (
          l,
          m,
          run
              ∙ ap (λ z. ok z m)
                  (ap (λ z. (z, l, o)) d.status ∙ ap (λ z. (snail_ok, l, z)) (d.copy ∙ here)),
          (record { queue = d.rest; counted = d.counted }, d.freed, d.pools.requests),
        )

  module _ (e : Env H.Reader) (k : Callback) {l : CallbackEnds} {m : Memory}
      (run : shift_cb e.client.command_cb_list e.memory ≡ ok (snail_ok, l, some k) m) where
    fail_command-told :
        (code : ℤ)
        → fail_command H code e ≡ done tt (told (text (H.strerror code)) k (queued H e l m))
    unfolding fail_command shift_command call_once call
    fail_command-told code = ground arith

    report-reported : (message : Bytes) → report H message e ≡ reported message k (queued H e l m)
    unfolding report shift_command call_once call
    report-reported message = ground arith

  on_write-fail_command :
      (handle stream : Ptr) (status started : ℤ) (e : Env H.Reader)
      → handle ≢ null
      → is_negative status ≡ true
      → on_write H handle stream status started e ≡ fail_command H status (given_back handle e)
  unfolding on_write req_free
  on_write-fail_command handle stream status started e ne bad = rw (==_ne _ _ ne, bad) refl

  send-report :
      (written : ℤ) (sub_mode : Bool) (argv : List Bytes) (e : Env H.Reader)
      → e.client.flags.connected ≡ false
      → send H written sub_mode argv e
        ≡ report H (bytes "command: Not connected") (forgotten argv e)
  unfolding send
  send-report written sub_mode argv e off = rw (send, off) refl

  -- On a well-formed queue with right reference counts: when a write has failed, its request is put
  -- before the others of the free list, and the function of the command that waits longest is told the
  -- error, once and with its reference given back, or nobody if that command has none. The command
  -- leaves the queue, and the others stay in order.
  pub on_write-IsWaiting :
      (handle stream : Ptr) (status started : ℤ) (e : Env H.Reader) (p c : Ptr) (k : Callback)
      (xs ys : Cells)
      → handle ≢ null
      → is_negative status ≡ true
      → IsWaiting e ((p, c) ∷ xs) ys
      → e.memory.callback c ≡ some k
      → (l : CallbackEnds) × (m : Memory) × (on_write H handle stream status started e
          ≡ done tt (told (text (H.strerror status)) k (queued H e l m)))
        × Served e p xs ys (handle ∷ e.memory.requests) l m
  on_write-IsWaiting handle stream status started e p c k xs ys ne bad w here =
      let w' : IsWaiting (given_back handle e) ((p, c) ∷ xs) ys = record {
        queue = IsQueue-same refl refl w.queue;
        counted = Counted-same (((p, c) ∷ xs) ++ ys) refl w.counted;
      } in
      let (l, m, run, served) = shifted {e = given_back handle e} xs ys w' here in
      (
        l,
        m,
        on_write-fail_command handle stream status started e ne bad
            ∙ fail_command-told (given_back handle e) k run status,
        (record { queue = served.0.queue; counted = served.0.counted }, served.1, served.2),
      )

  -- On a well-formed queue with right reference counts: while the client is not connected nothing is
  -- written, the text of the command is freed, no request is taken, and the function of the command
  -- that waits longest is told so, once and with its reference given back; without a function the
  -- message is raised. The command leaves the queue, and the others stay in order.
  pub send-IsWaiting :
      (written : ℤ) (sub_mode : Bool) (argv : List Bytes) (e : Env H.Reader) (p c : Ptr)
      (k : Callback) (xs ys : Cells)
      → e.client.flags.connected ≡ false
      → IsWaiting e ((p, c) ∷ xs) ys
      → e.memory.callback c ≡ some k
      → (l : CallbackEnds) × (m : Memory) × (send H written sub_mode argv e
          ≡ reported (bytes "command: Not connected") k (queued H (forgotten argv e) l m))
        × Served e p xs ys e.memory.requests l m
  send-IsWaiting written sub_mode argv e p c k xs ys off w here =
      let (l, m, run, served) =
        shifted {e = forgotten argv e} xs ys (record { queue = w.queue; counted = w.counted })
          here in
      (
        l,
        m,
        send-report written sub_mode argv e off
            ∙ report-reported (forgotten argv e) k run (bytes "command: Not connected"),
        (record { queue = served.0.queue; counted = served.0.counted }, served.1, served.2),
      )
