-- ===== src/Tests/Failures.antt =====
-- Failures of the client of Tests/Client, its two connections, and a pool of two requests.
use crazy_snail.Common.{◌≡◌, refl, true, false, [], ◌∷◌, arith, pos, negsuc}
use crazy_snail.Text.{bytes}
use crazy_snail.Memory.{CallbackEnds, Memory}
use crazy_snail.Memory.Returns.{Returns}
use crazy_snail.Pools.{req_alloc, req_free}
use crazy_snail.Pools.Requests.{IsPool, Allocated, req_alloc-IsPool, req_free-IsPool}
use crazy_snail.Reply.{text}
use crazy_snail.Client.{Env, done, close, ◌>>◌}
use crazy_snail.Client.Calls.{called_if}
use crazy_snail.Client.Connection.{no_streams, on_connect, lua_client_disconnect}
use crazy_snail.Client.Command.{send}
use crazy_snail.Client.Read.{on_write}
use crazy_snail.Client.Answers.{queued}
use crazy_snail.Client.Failures.{
  told, reported, Served, forgotten, on_write-IsWaiting, send-IsWaiting,
}
use crazy_snail.Client.Opening.{both_streams, on_connect-both_streams, lua_client_disconnect-once}
use crazy_snail.Tests.Client.{host, waiter, store, client, env, env-IsWaiting}

on_write-IsWaiting_example :
    (l : CallbackEnds) × (m : Memory) × (on_write host 20 10 (negsuc 0) (pos 0) env
      ≡ done tt (told host (text []) waiter (queued host env l m)))
    × Served host env 5 [] ((2, 1) ∷ (3, 1) ∷ []) (20 ∷ []) l m
on_write-IsWaiting_example =
    on_write-IsWaiting host 20 10 (negsuc 0) (pos 0) env 5 4 waiter [] ((2, 1) ∷ (3, 1) ∷ [])
      (ground arith) refl env-IsWaiting refl

send-IsWaiting_example :
    (l : CallbackEnds) × (m : Memory) × (send host (pos 0) false (bytes "PING" ∷ []) env
      ≡ reported host
          (bytes "command: Not connected")
          waiter
          (queued host (forgotten host (bytes "PING" ∷ []) env) l m))
    × Served host env 5 [] ((2, 1) ∷ (3, 1) ∷ []) [] l m
send-IsWaiting_example =
    send-IsWaiting host (pos 0) false (bytes "PING" ∷ []) env 5 4 waiter [] ((2, 1) ∷ (3, 1) ∷ [])
      refl env-IsWaiting refl

abbrev closed_env : Env (Unit {0})
closed_env = record env { client = record client { stream_flags = no_streams } }

on_connect-both_streams_example :
    (on_connect host 20 (pos 0) >> on_connect host 21 (pos 0)) closed_env
    ≡ done tt (
        called_if host client.r_connect_cb [] (record closed_env {
          client = record client {
            stream_flags = both_streams;
            flags = record client.flags { connected = true };
          };
          memory = record store { requests = 21 ∷ 20 ∷ [] };
        }))
on_connect-both_streams_example =
    on_connect-both_streams host 20 21 closed_env (ground arith) (ground arith) refl

lua_client_disconnect-once_example :
    (lua_client_disconnect host >> lua_client_disconnect host) env
    ≡ done tt (record env {
      client = record client { flags = record client.flags { disconnecting = true } };
      log = close 11 true ∷ close 10 true ∷ [];
    })
lua_client_disconnect-once_example =
    lua_client_disconnect-once host env refl (ground arith) (ground arith)

-- The request 8 is with somebody, and 9 is free.
abbrev pool : Memory
pool = record store { next = 10; requests = 9 ∷ [] }

pool-IsPool : IsPool pool (8 ∷ [])
pool-IsPool = record { once = λ a. ground arith; made = λ a h. (ground arith, ground arith) }

req_alloc-IsPool_example : Returns (Allocated (8 ∷ [])) (req_alloc pool)
req_alloc-IsPool_example = req_alloc-IsPool pool pool-IsPool (ground arith)

req_free-IsPool_example :
    Returns (λ _ m'. IsPool m' [] × (m'.requests ≡ 8 ∷ 9 ∷ [])) (req_free 8 pool)
req_free-IsPool_example = req_free-IsPool pool 8 [] pool-IsPool
