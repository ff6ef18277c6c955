-- ===== src/Client/Opening.antt =====
-- `on_connect` and `lua_client_disconnect` of src/crazysnail.c, on both streams.
use crazy_snail.Common.{◌≡◌, ◌≢◌, true, false, [], ◌∷◌, arith, pos}
use crazy_snail.Memory.{Ptr, null}
use crazy_snail.Pools.{req_free}
use crazy_snail.Client.{StreamFlags, close, Env, Host, done, ◌>>◌}
use crazy_snail.Client.Calls.{called_if, call_if-called}
use crazy_snail.Client.Connection.{no_streams, on_connect, lua_client_disconnect}

abbrev pub both_streams : StreamFlags
both_streams = record { stream_connected = true; sub_stream_connected = true }

module _ (H : Host) where
  -- The first of two connections does not call the connect function, and the second does, if there is
  -- one: once both streams are connected the client is, and both requests are in the free list.
  pub on_connect-both_streams :
      (first second : Ptr) (e : Env H.Reader)
      → first ≢ null
      → second ≢ null
      → e.client.stream_flags ≡ no_streams
      → (on_connect H first (pos 0) >> on_connect H second (pos 0)) e
        ≡ done tt (
            called_if H e.client.r_connect_cb [] (record e {
              client = record e.client {
                stream_flags = both_streams;
                flags = record e.client.flags { connected = true };
              };
              memory = record e.memory { requests = second ∷ first ∷ e.memory.requests };
            }))
  unfolding on_connect req_free
  on_connect-both_streams first second e fne sne off = ground (
    arith,
    call_if-called H e.client.r_connect_cb [] (record e {
      client = record e.client {
        stream_flags = both_streams;
        flags = record e.client.flags { connected = true };
      };
      memory = record e.memory { requests = second ∷ first ∷ e.memory.requests };
    }),
  )

  -- `lua_client_disconnect` closes both streams, with `on_disconnect` to follow, and a second call does
  -- nothing, if the client is not disconnecting yet and has its streams.
  pub lua_client_disconnect-once :
      (e : Env H.Reader)
      → e.client.flags.disconnecting ≡ false
      → e.client.stream ≢ null
      → e.client.sub_stream ≢ null
      → (lua_client_disconnect H >> lua_client_disconnect H) e
        ≡ done tt (record e {
          client = record e.client { flags = record e.client.flags { disconnecting = true } };
          log = close e.client.sub_stream true ∷ close e.client.stream true ∷ e.log;
        })
  unfolding lua_client_disconnect
  lua_client_disconnect-once e on ne sub_ne = ground arith
