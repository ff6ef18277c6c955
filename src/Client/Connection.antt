-- ===== src/Client/Connection.antt =====
-- The life of a connection in src/crazysnail.c: `new`, `on`, `connect`, `disconnect`, `exit`, and the
-- callbacks `on_connect` and `on_disconnect` that libuv makes.
use crazy_snail.Common.{
  ℕ, Bool, true, false, not, ◌&&◌, Option, none, some, [], ◌∷◌, ◌==◌, if◌then◌else◌, ℤ, is_negative,
  is_zero,
}
use crazy_snail.Text.{Bytes, bytes, strcmp, is_eq}
use crazy_snail.Memory
use crazy_snail.Memory.{Ptr, null, Ref, noref, ref, Cmd, malloc, strdup}
use crazy_snail.Queue.{no_ends, destroy_list}
use crazy_snail.Pools.{req_alloc, req_free}
use crazy_snail.Tree.{empty, destroy_tree}
use crazy_snail.Reply.{text}
use crazy_snail.Client.{
  ClientFlags, StreamFlags, Client, unref, close, pipe_connect, free_handle, free_text, reader_free,
  Host, Handler, pure, ◌>>=◌, ◌>>◌, raise, crash, assert, lift, get, put, emit, has_ref, call,
  call_if,
}

abbrev pub no_client_flags : ClientFlags
no_client_flags = record {
  connected = false;
  disconnecting = false;
  freeing = false;
  subscribed = false;
  monitoring = false;
}

abbrev pub no_streams : StreamFlags
no_streams = record { stream_connected = false; sub_stream_connected = false }

-- `uv_close` of a handle that may never have been made.
abbrev pub uv_close : {R : Type 0} → Ptr → Bool → Handler R (Unit {0})
uv_close p told = if p == null then crash else emit (close p told)

-- `uv_pipe_connect`, which reads the path.
abbrev pub connect_pipe : {R : Type 0} → Ptr → Ptr → Option Bytes → Handler R (Unit {0})
connect_pipe req stream none = crash
connect_pipe req stream (some path) = emit (pipe_connect req stream path)

module _ (H : Host) where
  open H use {Reader}

  -- The options are the path, which has to be a string, and a boolean that may be missing. The copy
  -- of the path may be refused unnoticed, and so may the block of the list, which is written at once.
  unfoldable pub lua_client_new : Option Bytes → Option Bool → Cmd (Option (Client Reader))
  unfolding malloc strdup
  lua_client_new none ignore m = Memory.ok none m
  lua_client_new (some path) ignore m = Memory.and_then (strdup path m) λ copy m1.
      Memory.and_then (malloc m1) λ list m2.
        if list == null
        then Memory.fault
        else Memory.ok
            (some (record {
              path = copy;
              ignore_sub_cmd_reply = elim ignore [ none ↦ true | some b ↦ b ];
              stream = null;
              sub_stream = null;
              r_connect_cb = noref;
              r_error_cb = noref;
              r_disconnect_cb = noref;
              command_cb_list = no_ends;
              channels = empty;
              patterns = empty;
              timers = empty;
              flags = no_client_flags;
              stream_flags = no_streams;
              reader = H.create;
            }))
            m2

  -- `f` is the reference that `luaL_ref` gives the function, if the last argument is one.
  unfoldable pub lua_client_on : Option Bytes → Option ℕ → Handler Reader (Unit {0})
  lua_client_on none f = raise (bytes "bad argument #2 to 'on'")
  lua_client_on (some event_name) none = pure tt
  lua_client_on (some event_name) (some f) = do
    cc ← get
    if is_eq (strcmp event_name (bytes "error"))
        then put (record cc { r_error_cb = ref f })
        else if is_eq (strcmp event_name (bytes "connect"))
        then put (record cc { r_connect_cb = ref f })
        else if is_eq (strcmp event_name (bytes "disconnect"))
        then put (record cc { r_disconnect_cb = ref f })
        else emit (unref f)

  -- A request from the free list, whose `data` is written at once.
  unfoldable pub new_request : Handler Reader Ptr
  new_request = do req ← lift req_alloc; if req == null then crash else pure req

  unfoldable pub lua_client_connect : Handler Reader (Unit {0})
  unfolding new_request
  lua_client_connect = do
    stream ← lift malloc
    if stream == null then raise (bytes "new: Out Of Memory") else do
      sub_stream ← lift malloc
      if sub_stream == null then raise (bytes "new: Out Of Memory") else do
        cc ← get
        put (record cc { stream = stream; sub_stream = sub_stream; flags = no_client_flags })
        req ← new_request
        connect_pipe req stream cc.path
        sub_req ← new_request
        connect_pipe sub_req sub_stream cc.path

  -- The first of the two streams to be connected counts as the main one.
  abbrev pub note_connected : StreamFlags → StreamFlags
  note_connected f =
      if not f.stream_connected
      then record f { stream_connected = true }
      else if not f.sub_stream_connected
      then record f { sub_stream_connected = true }
      else f

  unfoldable pub on_connect : Ptr → ℤ → Handler Reader (Unit {0})
  unfolding call call_if
  on_connect handle status = do
    lift (req_free handle)
    cc ← get
    if is_negative status
        then if has_ref cc.r_error_cb
          then call H cc.r_error_cb (text (H.strerror status) ∷ [])
          else uv_close cc.stream true
        else do
          assert (is_zero status)
          let f = note_connected cc.stream_flags
          put (record cc { stream_flags = f })
          if f.stream_connected && f.sub_stream_connected
              then (do
                put (record cc { stream_flags = f; flags = record cc.flags { connected = true } })
                call_if H cc.r_connect_cb [])
              else pure tt

  -- The trees and the list of commands of a client.
  unfoldable pub destroy_callbacks : Handler Reader (Unit {0})
  destroy_callbacks = do
    cc ← get
    channels ← lift (destroy_tree cc.channels)
    patterns ← lift (destroy_tree cc.patterns)
    timers ← lift (destroy_tree cc.timers)
    _ ← lift (destroy_list (some cc.command_cb_list))
    put (record cc {
      channels = channels;
      patterns = patterns;
      timers = timers;
      command_cb_list = no_ends;
    })

  -- The first of the two streams to be closed counts as the main one.
  abbrev pub note_closed : StreamFlags → StreamFlags
  note_closed f =
      if f.stream_connected
      then record f { stream_connected = false }
      else if f.sub_stream_connected
      then record f { sub_stream_connected = false }
      else f

  unfoldable pub on_disconnect : Ptr → Handler Reader (Unit {0})
  unfolding destroy_callbacks call call_if
  on_disconnect handle = do
    emit (free_handle handle)
    cc ← get
    let f = note_closed cc.stream_flags
    put (record cc { stream_flags = f })
    if not f.stream_connected && not f.sub_stream_connected
        then (do
          put (record cc { stream_flags = f; flags = record cc.flags { freeing = true } })
          destroy_callbacks
          cc' ← get
          call_if H cc'.r_disconnect_cb [])
        else pure tt

  unfoldable pub lua_client_disconnect : Handler Reader (Unit {0})
  lua_client_disconnect = do
    cc ← get
    if cc.flags.disconnecting then pure tt else do
      uv_close cc.stream true
      uv_close cc.sub_stream true
      put (record cc { flags = record cc.flags { disconnecting = true } })

  abbrev pub unref_if : Ref → Handler Reader (Unit {0})
  unref_if (ref k) = emit (unref k)
  unref_if r = pure tt

  unfoldable pub lua_client_exit : Handler Reader (Unit {0})
  unfolding destroy_callbacks
  lua_client_exit = do
    cc ← get
    uv_close cc.stream false
    uv_close cc.sub_stream false
    unref_if cc.r_connect_cb
    unref_if cc.r_error_cb
    unref_if cc.r_disconnect_cb
    put (record cc { stream_flags = no_streams })
    destroy_callbacks
    emit (free_handle cc.stream)
    emit (free_handle cc.sub_stream)
    emit (free_text cc.path)
    if H.is_reader cc.reader then emit reader_free else pure tt
