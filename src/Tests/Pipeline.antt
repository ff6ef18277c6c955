-- ===== src/Tests/Pipeline.antt =====
-- A command with a function and one without, and a read of the two replies.
use crazy_snail.Common.{◌≡◌, ◌≢◌, refl, true, false, some, none, List, [], ◌∷◌, arith, pos}
use crazy_snail.Text.{bytes, c_str}
use crazy_snail.Memory.{Ptr, ok, null, noref, Memory}
use crazy_snail.Tree.{empty}
use crazy_snail.Reply.{Reply, string, integer, text, int}
use crazy_snail.Client.{pipe_connect, ◌>>◌, Client, Env, done}
use crazy_snail.Client.Established.{lua_client_new-IsOnline}
use crazy_snail.Client.Session.{IsOnline}
use crazy_snail.Client.Connection.{
  lua_client_new, lua_client_connect, on_connect, no_client_flags, no_streams,
}
use crazy_snail.Client.Command.{LuaArg}
use crazy_snail.Client.Waiting.{IsPipeline}
use crazy_snail.Client.Pipeline.{Asked, replies_to}
use crazy_snail.Tests.Replies.{host}

abbrev asked : List Asked
asked =
    record {
      call = record {
        args = LuaArg.string (bytes "ping") ∷ LuaArg.function 8 ∷ [];
        cmd = bytes "ping";
        names = [];
        timers = [];
      };
      reply = string (bytes "PONG");
      value = text (bytes "PONG");
    }
    ∷ record {
      call = record {
        args = LuaArg.string (bytes "incr") ∷ LuaArg.string (bytes "counter") ∷ [];
        cmd = bytes "incr";
        names = bytes "counter" ∷ [];
        timers = [];
      };
      reply = integer (pos 3);
      value = int (pos 3);
    }
    ∷ []

abbrev store : Memory
store = record {
  next = 1;
  oom = λ p. false;
  junk = λ p i. 0;
  callback = λ p. none;
  wrapper = λ p. none;
  requests = [];
  buffers = [];
  stopped = [];
}

abbrev client : Client (List Reply)
client = record {
  path = some (bytes "/tmp/redis.sock");
  ignore_sub_cmd_reply = true;
  stream = 10;
  sub_stream = 11;
  r_connect_cb = noref;
  r_error_cb = noref;
  r_disconnect_cb = noref;
  command_cb_list = record { head = null; tail = null };
  channels = empty;
  patterns = empty;
  timers = empty;
  flags = record no_client_flags { connected = true };
  stream_flags = no_streams;
  reader = replies_to asked;
}

abbrev env : Env (List Reply)
env = record { client = client; memory = store; log = [] }

lua_client_new-IsOnline_example :
    (cc : Client (List Reply)) × (m0 : Memory) × (e e' : Env (List Reply)) × (req : Ptr)
    × (sub_req : Ptr) × (lua_client_new host (some (bytes "/tmp/redis.sock")) none store
        ≡ ok (some cc) m0)
    × (lua_client_connect host (record { client = cc; memory = m0; log = [] }) ≡ done tt e)
    × (e.log
        ≡ pipe_connect sub_req e.client.sub_stream (c_str (bytes "/tmp/redis.sock"))
          ∷ pipe_connect req e.client.stream (c_str (bytes "/tmp/redis.sock"))
          ∷ [])
    × (e.client.stream ≢ e.client.sub_stream)
    × ((on_connect host req (pos 0) >> on_connect host sub_req (pos 0)) e ≡ done tt e')
    × (e'.client.stream ≡ e.client.stream)
    × (e'.client.sub_stream ≡ e.client.sub_stream)
    × IsOnline host e' []
    × IsPipeline host e' [] []
lua_client_new-IsOnline_example =
    lua_client_new-IsOnline host (bytes "/tmp/redis.sock") none store [] (ground arith) (λ a. refl)
      tt
