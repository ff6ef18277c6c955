-- ===== src/Client/Established.antt =====
-- A client of src/crazysnail.c from `lua_client_new` to the second `on_connect`.
use crazy_snail.Common.{
  suc, ◌≡◌, ◌≢◌, refl, ap, ◌∙◌, Bool, true, false, Option, none, some, List, [], ◌∷◌, arith, pos,
}
use crazy_snail.Text.{Bytes, c_str}
use crazy_snail.Memory
use crazy_snail.Memory.{Ptr, null, noref, Memory, malloc, strdup}
use crazy_snail.Queue.{no_ends}
use crazy_snail.Queue.Cells.{nil}
use crazy_snail.Tree.{empty}
use crazy_snail.Tree.Destroy.{bare}
use crazy_snail.Client.{Client, Effect, pipe_connect, Env, Host, done, ◌>>◌}
use crazy_snail.Client.Connection.{
  no_client_flags, no_streams, new_request, lua_client_new, lua_client_connect, on_connect,
}
use crazy_snail.Client.Opening.{both_streams, on_connect-both_streams}
use crazy_snail.Client.Healthy.{IsHealthy}
use crazy_snail.Client.Session.{IsOnline}
use crazy_snail.Client.Subscription.{IsRoomy}
use crazy_snail.Client.Written.{
  IsPooled, taken, without_taken, taken-ne_null, without_taken-IsPooled, new_request-ok,
}
use crazy_snail.Client.Waiting.{IsPipeline, without_taken-oom, without_taken-next}

-- The blocks that were given out since, and nothing else.
abbrev later : Memory → Memory
later m = record m { next = suc (suc m.next) }

later-IsRoomy : {m : Memory} → IsRoomy m → IsRoomy (later m)
later-IsRoomy r = record { ne_null = ground arith; room = r.room }

module _ (H : Host) where
  abbrev pub new_client : Bytes → Option Bool → Client H.Reader
  new_client path ignore = record {
    path = some (c_str path);
    ignore_sub_cmd_reply = elim ignore [ none ↦ true | some b ↦ b ];
    stream = null;
    sub_stream = null;
    r_connect_cb = noref;
    r_error_cb = noref;
    r_disconnect_cb = noref;
    command_cb_list = no_ends;
    channels = empty;
    patterns = empty;
    timers = empty;
    flags = no_client_flags;
    stream_flags = no_streams;
    reader = H.create;
  }

  lua_client_new-ok :
      (path : Bytes) (ignore : Option Bool) (m : Memory)
      → IsRoomy m
      → lua_client_new H (some path) ignore m ≡ Memory.ok (some (new_client path ignore)) (later m)
  unfolding lua_client_new malloc strdup
  lua_client_new-ok path ignore m r = ground (arith, r.ne_null, r.room m.next, r.room (suc m.next))

  -- The client with its streams, and then connected.
  abbrev pub opened : Bytes → Option Bool → (stream sub_stream : Ptr) → Client H.Reader
  opened path ignore stream sub_stream = record (new_client path ignore) {
    stream = stream;
    sub_stream = sub_stream;
  }

  abbrev pub established : Bytes → Option Bool → (stream sub_stream : Ptr) → Client H.Reader
  established path ignore stream sub_stream = record (opened path ignore stream sub_stream) {
    stream_flags = both_streams;
    flags = record no_client_flags { connected = true };
  }

  established-IsHealthy :
      {m : Memory} (path : Bytes) (ignore : Option Bool) (stream sub_stream : Ptr)
      → IsRoomy m
      → IsHealthy m (established path ignore stream sub_stream) []
  established-IsHealthy path ignore stream sub_stream r = record {
    owned = record {
      of_channels = [];
      of_patterns = [];
      of_timers = [];
      of_commands = [];
      channels = bare;
      patterns = bare;
      timers = bare;
      commands = record { chain = nil; end = refl };
      apart_channels = λ a i. refl;
      apart_patterns = λ a i. refl;
      apart_timers = λ a i. refl;
      all = refl;
    };
    counted = λ c h. absurd (omega (arith, h));
    fresh = λ a h. (refl, refl);
    channels = record { search = record { named = tt; terminated = tt; ordered = tt }; lists = tt };
    patterns = record { search = record { named = tt; terminated = tt; ordered = tt }; lists = tt };
    timers = record { order = tt; lists = tt };
    roomy = r;
  }

  without_taken-IsRoomy : (qs : List Ptr) {m : Memory} → IsRoomy m → IsRoomy (without_taken qs m)
  without_taken-IsRoomy qs {m} r = record {
    ne_null = ground (arith, r.ne_null, without_taken-next H qs m);
    room = λ a. ap (λ f. f a) (without_taken-oom H qs m) ∙ r.room a;
  }

  connect-run :
      (path : Bytes) (ignore : Option Bool) (m m1 m2 : Memory) (log : List Effect)
      {req sub_req : Ptr}
      → IsRoomy m
      → ((c : Client H.Reader) (log : List Effect)
          → new_request H (record { client = c; memory = later m; log = log })
            ≡ done req (record { client = c; memory = m1; log = log }))
      → ((c : Client H.Reader) (log : List Effect)
          → new_request H (record { client = c; memory = m1; log = log })
            ≡ done sub_req (record { client = c; memory = m2; log = log }))
      → lua_client_connect H (record { client = new_client path ignore; memory = m; log = log })
        ≡ done tt (record {
          client = opened path ignore m.next (suc m.next);
          memory = m2;
          log =
              pipe_connect sub_req (suc m.next) (c_str path)
              ∷ pipe_connect req m.next (c_str path)
              ∷ log;
        })
  unfolding lua_client_connect malloc
  connect-run path ignore m m1 m2 log {req} {sub_req} r first second = ground (
    arith,
    r.ne_null,
    r.room m.next,
    r.room (suc m.next),
    first (opened path ignore m.next (suc m.next)) log,
    second (opened path ignore m.next (suc m.next)) (pipe_connect req m.next (c_str path) ∷ log),
  )

  -- `lua_client_new`, `lua_client_connect` and an `on_connect` for each of its two requests, on a
  -- free list without NULL, while `malloc` refuses nothing and gives out addresses other than NULL:
  -- two different streams are connected to the path, and the client can be given commands, with
  -- these streams, no callback and nothing waiting.
  pub lua_client_new-IsOnline :
      (path : Bytes) (ignore : Option Bool) (m : Memory) (log : List Effect)
      → m.next ≢ null
      → ((a : Ptr) → m.oom a ≡ false)
      → IsPooled m.requests
      → (cc : Client H.Reader) × (m0 : Memory) × (e e' : Env H.Reader) × (req : Ptr)
        × (sub_req : Ptr) × (lua_client_new H (some path) ignore m ≡ Memory.ok (some cc) m0)
        × (lua_client_connect H (record { client = cc; memory = m0; log = log }) ≡ done tt e)
        × (e.log
            ≡ pipe_connect sub_req e.client.sub_stream (c_str path)
              ∷ pipe_connect req e.client.stream (c_str path)
              ∷ log)
        × (e.client.stream ≢ e.client.sub_stream)
        × ((on_connect H req (pos 0) >> on_connect H sub_req (pos 0)) e ≡ done tt e')
        × (e'.client.stream ≡ e.client.stream)
        × (e'.client.sub_stream ≡ e.client.sub_stream)
        × IsOnline H e' []
        × IsPipeline H e' [] []
  lua_client_new-IsOnline path ignore m log ne room pooled =
      let r : IsRoomy m = record { ne_null = ne; room = room } in
      let r0 : IsRoomy (later m) = later-IsRoomy r in
      let r1 : IsRoomy (later (later m)) = later-IsRoomy r0 in
      let qs : List Ptr = m.requests in
      let m1 : Memory = without_taken qs (later (later m)) in
      let r2 : IsRoomy m1 = without_taken-IsRoomy qs r1 in
      let pooled1 : IsPooled m1.requests =
        without_taken-IsPooled qs (later (later m)) refl pooled in
      let ps : List Ptr = m1.requests in
      let m2 : Memory = without_taken ps m1 in
      let req : Ptr = taken qs (later (later m)) in
      let sub_req : Ptr = taken ps m1 in
      let req_ne : req ≢ null = taken-ne_null qs (later (later m)) pooled r1.ne_null in
      let sub_req_ne : sub_req ≢ null = taken-ne_null ps m1 pooled1 r2.ne_null in
      let stream : Ptr = (later m).next in
      let m3 : Memory = record m2 { requests = sub_req ∷ req ∷ m2.requests } in
      let r3 : IsRoomy m3 = record {
        ne_null = (without_taken-IsRoomy ps r2).ne_null;
        room = (without_taken-IsRoomy ps r2).room;
      } in
      let healthy = established-IsHealthy path ignore stream (suc stream) r3 in
      let pooled3 : IsPooled m3.requests =
        (sub_req_ne, (req_ne, without_taken-IsPooled ps m1 refl pooled1)) in
      let e : Env H.Reader = record {
        client = opened path ignore stream (suc stream);
        memory = m2;
        log =
            pipe_connect sub_req (suc stream) (c_str path)
            ∷ pipe_connect req stream (c_str path)
            ∷ log;
      } in
      (
        new_client path ignore,
        later m,
        e,
        record e { client = established path ignore stream (suc stream); memory = m3 },
        req,
        sub_req,
        lua_client_new-ok path ignore m r,
        connect-run path ignore (later m) m1 m2 log r0
            (λ c l.
              new_request-ok H qs (record { client = c; memory = later (later m); log = l }) refl
                pooled r1.ne_null r1.room)
            (λ c l.
              new_request-ok H ps (record { client = c; memory = m1; log = l }) refl pooled1
                r2.ne_null r2.room),
        refl,
        λ same. absurd (omega (arith, same)),
        on_connect-both_streams H req sub_req e req_ne sub_req_ne refl,
        refl,
        refl,
        record {
          healthy = healthy;
          connected = refl;
          disconnecting = refl;
          freeing = refl;
          stream = ground arith;
          sub_stream = ground arith;
          pooled = pooled3;
        },
        record {
          waiting = record {
            queue = record { chain = nil; end = refl };
            counted = healthy.counted;
          };
          fresh = healthy.fresh;
          roomy = r3;
          connected = refl;
          disconnecting = refl;
          freeing = refl;
          pooled = pooled3;
        },
      )
