-- ===== src/Client/Read.antt =====
-- `on_read` and `on_write` of src/crazysnail.c. The loop over the replies runs on fuel, since it is
-- the reader that says when there are no more.
use crazy_snail.Common.{
  ℕ, zero, suc, Bool, true, false, not, ◌&&◌, Option, none, some, [], ◌∷◌, ◌==◌, if◌then◌else◌, ℤ,
  pos, is_negative, is_zero,
}
use crazy_snail.Text.{Bytes, bytes}
use crazy_snail.Memory.{Ptr, null, Ref, ref, Callback, Buffer, put_callback}
use crazy_snail.Queue.{wrap_cb, push_cb, shift_cb}
use crazy_snail.Pools.{req_free, buf_free}
use crazy_snail.Reply.{Reply, error, lua_nil, text, push_reply}
use crazy_snail.Client.{
  close, read_start, read_stop, Host, Handler, out_of_fuel, pure, ◌>>=◌, ◌>>◌, raise, crash, assert,
  lift, get, put, emit, local_address, call, call_if, call_once, has_ref, unref,
}
use crazy_snail.Client.Dispatch.{get_and_call_sub_cb}

module _ (H : Host) where
  open H use {Reader}

  -- `shift_cb` of the list of commands.
  unfoldable pub shift_command : Handler Reader (ℤ × Option Callback)
  shift_command = do
    cc ← get
    (status, list, cb) ← lift (shift_cb cc.command_cb_list)
    put (record cc { command_cb_list = list })
    pure (status, cb)

  -- The oldest command that waits is told of an error, if it has a function.
  unfoldable pub fail_command : ℤ → Handler Reader (Unit {0})
  unfolding shift_command call_once
  fail_command code = do
    (status, cb) ← shift_command
    elim cb [
      | none ↦ pure tt
      | some c ↦ if has_ref c.ref then call_once H c.ref (text (H.strerror code) ∷ []) else pure tt
    ]

  -- `started` is what `uv_read_start` returns.
  unfoldable pub on_write : (handle stream : Ptr) → (status started : ℤ) → Handler Reader (Unit {0})
  unfolding fail_command
  on_write handle stream status started = do
    lift (req_free handle)
    if is_negative status then fail_command status else do
      assert (is_zero status)
      emit (read_start stream)
      if is_negative started then fail_command started else pure tt

  -- In monitor mode the list of commands gets a cell that holds the local variable of `on_read`: it
  -- lives at a fresh address, which is gone when the function returns. A variable that was never
  -- written reads as `blank`.
  unfoldable pub push_local : Option Callback → Handler Reader (Unit {0})
  push_local cb = do
    frame ← local_address
    let blank : Callback = record {
      ref = Ref.noref;
      initialized = false;
      nb_channel = 0;
      attach = pos 0;
      channels = [];
    }
    lift (put_callback frame (some (elim cb [ none ↦ blank | some c ↦ c ])))
    (status, wrapper) ← lift (wrap_cb null frame)
    if is_zero status
        then (do
          cc ← get
          list ← lift (push_cb (some cc.command_cb_list) wrapper)
          put (record cc { command_cb_list = list }))
        else pure tt
    lift (put_callback frame none)

  abbrev is_error : Reply → Bool
  is_error (error s) = true
  is_error r = false

  -- The reply to a command goes to the function of the oldest command. `cb` is the local variable,
  -- which keeps its value where there is no command, and is read in any case.
  unfoldable pub answer : Reply → Option Callback → Handler Reader (Option Callback)
  unfolding shift_command call
  answer reply cb = do
    (status, shifted) ← shift_command
    let cb' : Option Callback = elim shifted [ none ↦ cb | some c ↦ some c ]
    elim cb' [
      | none ↦ crash
      | some c ↦ elim c.ref [
        | ref f ↦ do
          emit (unref f)
          elim (push_reply reply) [
            | none ↦ raise (bytes "Unknown reply type")
            | some v ↦ do call H (ref f) (lua_nil ∷ v ∷ []); pure (some c)
          ]
        | _ ↦ pure (some c)
      ]
    ]

  -- How the loop over the replies ends: with the status of the reader, or by `return`.
  pub data Ending : Type 0 where
    stopped : ℤ → Ending
    returned : Ending

  unfoldable pub read_loop : ℕ → (sub_mode : Bool) → Option Callback → Handler Reader Ending
  unfolding push_local answer
  read_loop zero sub_mode cb = λ _. out_of_fuel
  read_loop (suc k) sub_mode cb = do
    cc ← get
    let (status, reply, reader) = H.get_reply cc.reader
    put (record cc { reader = reader })
    if not (is_zero status) then pure (stopped status) else elim reply [
      | none ↦ do
        cc ← get
        if cc.flags.disconnecting
            then pure returned
            else do if cc.flags.monitoring then push_local cb else pure tt; pure (stopped status)
      | some r ↦ do
        cb' ←
            if sub_mode
            then (do if is_error r then pure tt else get_and_call_sub_cb H k r; pure cb)
            else answer r cb
        read_loop k sub_mode cb'
    ]

  -- The branch `nread > 0`.
  unfoldable pub feed_and_read : ℕ → (sub_mode : Bool) → Bytes → Buffer → Handler Reader Ending
  unfolding read_loop call_if
  feed_and_read fuel sub_mode content buf = do
    cc ← get
    let (status, reader) = H.feed cc.reader content
    put (record cc { reader = reader })
    if not (is_zero status)
        then (do
          call_if H cc.r_error_cb (text (H.errstr reader) ∷ [])
          lift (buf_free buf)
          pure returned)
        else (do lift (buf_free buf); read_loop fuel sub_mode none)

  unfoldable pub on_read :
      ℕ → (stream : Ptr) → (nread : ℤ) → (content : Bytes) → Buffer → Handler Reader (Unit {0})
  unfolding feed_and_read call_if
  on_read fuel stream nread content buf = do
    cc ← get
    let sub_mode = cc.sub_stream == stream
    if cc.flags.disconnecting
        then lift (buf_free buf)
        else if is_negative nread
        then (do call_if H cc.r_error_cb (text (H.strerror nread) ∷ []); emit (close stream true))
        else (do
          ending ←
              if is_zero nread
              then pure (stopped (pos 0))
              else feed_and_read fuel sub_mode content buf
          elim ending [
            | returned ↦ pure tt
            | stopped status ↦ if is_negative status then pure tt else do
              cc ← get
              if not sub_mode && cc.command_cb_list.head == null
                  then emit (read_stop stream)
                  else pure tt
          ])
