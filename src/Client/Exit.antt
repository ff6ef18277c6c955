-- ===== src/Client/Exit.antt =====
-- `lua_client_exit` of src/crazysnail.c.
use crazy_snail.Common.{[], if◌then◌else◌, ◌≡◌, refl, ◌≢◌, false, List, ◌∷◌, ◌++◌, arith}
use crazy_snail.Memory.{null, Ref, noref, refnil, ref, Memory}
use crazy_snail.Queue.Cells.{Cells, Counted}
use crazy_snail.Tree.Destroy.{Freed}
use crazy_snail.Client.{
  Client, Effect, unref, close, free_handle, free_text, reader_free, Env, Host, done,
}
use crazy_snail.Client.Connection.{no_streams, unref_if, destroy_callbacks, lua_client_exit}
use crazy_snail.Client.Closing.{Owned, emptied, all_timers, destroy_callbacks-Freed}

abbrev pub unref_log : Ref → List Effect → List Effect
unref_log (ref f) log = unref f ∷ log
unref_log noref log = log
unref_log refnil log = log

-- What `lua_client_exit` asks of Lua and libuv, the newest first.
abbrev pub exit_log : (H : Host) → Client H.Reader → List Effect → List Effect
exit_log H cc log =
    (if H.is_reader cc.reader then reader_free ∷ [] else [])
    ++ free_text cc.path
      ∷ free_handle cc.sub_stream
      ∷ free_handle cc.stream
      ∷ unref_log cc.r_disconnect_cb (
          unref_log cc.r_error_cb
            (unref_log cc.r_connect_cb (close cc.sub_stream false ∷ close cc.stream false ∷ log)))

module _ (H : Host) where
  unref_if-log :
      (r : Ref) (e : Env H.Reader) → unref_if H r e ≡ done tt (record e { log = unref_log r e.log })
  unref_if-log (ref f) e = refl
  unref_if-log noref e = refl
  unref_if-log refnil e = refl

  -- The client as `destroy_callbacks` finds it.
  abbrev leaving : Env H.Reader → Env H.Reader
  leaving e = record e {
    client = record e.client { stream_flags = no_streams };
    log = unref_log e.client.r_disconnect_cb (
        unref_log e.client.r_error_cb (
          unref_log e.client.r_connect_cb
            (close e.client.sub_stream false ∷ close e.client.stream false ∷ e.log)));
  }

  lua_client_exit_run :
      (e : Env H.Reader) {c : Client H.Reader} {m : Memory}
      → e.client.stream ≢ null
      → e.client.sub_stream ≢ null
      → destroy_callbacks H (leaving e) ≡ done tt (record (leaving e) { client = c; memory = m })
      → lua_client_exit H e
        ≡ done tt (record e { client = c; memory = m; log = exit_log H e.client e.log })
  unfolding lua_client_exit
  lua_client_exit_run e {c} {m} ne sub_ne run =
      let e1 : Env H.Reader = record e {
        log = close e.client.sub_stream false ∷ close e.client.stream false ∷ e.log;
      } in
      let e2 : Env H.Reader = record e1 { log = unref_log e.client.r_connect_cb e1.log } in
      let e3 : Env H.Reader = record e2 { log = unref_log e.client.r_error_cb e2.log } in
      ground (
        arith,
        unref_if-log e.client.r_connect_cb e1,
        unref_if-log e.client.r_error_cb e2,
        unref_if-log e.client.r_disconnect_cb e3,
      )

  -- A client that has its streams closes them, gives its references back, frees the cells of its trees
  -- and its queue and every callback that no other list holds, stops the timers, and then frees both
  -- handles, the path, and the reader if there is one.
  pub lua_client_exit-Freed :
      (e : Env H.Reader) {xs : Cells} (ys : Cells)
      → e.client.stream ≢ null
      → e.client.sub_stream ≢ null
      → Owned e.memory e.client xs
      → Counted e.memory (xs ++ ys)
      → (m' : Memory) × Freed e.memory xs ys (all_timers e.client) m'
        × (lua_client_exit H e
            ≡ done tt (record e {
              client = emptied (record e.client { stream_flags = no_streams });
              memory = m';
              log = exit_log H e.client e.log;
            }))
  lua_client_exit-Freed e ys ne sub_ne o all =
      let (m', d, run) =
        destroy_callbacks-Freed H (leaving e) ys
          (record {
            of_channels = o.of_channels;
            of_patterns = o.of_patterns;
            of_timers = o.of_timers;
            of_commands = o.of_commands;
            channels = o.channels;
            patterns = o.patterns;
            timers = o.timers;
            commands = o.commands;
            apart_channels = o.apart_channels;
            apart_patterns = o.apart_patterns;
            apart_timers = o.apart_timers;
            all = o.all;
          })
          all in
      (m', d, lua_client_exit_run e ne sub_ne run)
