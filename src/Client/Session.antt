-- ===== src/Client/Session.antt =====
-- Calls of `lua_client_command` of src/crazysnail.c one after the other, and `lua_client_exit` behind
-- them.
use crazy_snail.Common.{
  ◌≡◌, ◌≢◌, refl, ap, ◌∙◌, subst, sym, true, false, ◌||◌, List, [], ◌∷◌, pos, if◌then◌else◌,
}
use mathlib.Core.List.{append-nil}
use crazy_snail.Text.{Bytes}
use crazy_snail.Memory.{Ptr, null, Memory}
use crazy_snail.Queue.Cells.{Cells, Counted}
use crazy_snail.Tree.Destroy.{Freed}
use crazy_snail.Client.{Client, Effect, write, Env, Host, Handler, done, pure, ◌>>◌}
use crazy_snail.Client.Connection.{no_streams, lua_client_exit}
use crazy_snail.Client.Command.{LuaArg, nothing, collect, split_last, lua_client_command}
use crazy_snail.Client.Closing.{emptied, all_timers}
use crazy_snail.Client.Exit.{exit_log, lua_client_exit-Freed}
use crazy_snail.Client.Healthy.{IsHealthy}
use crazy_snail.Client.Kinds.{is_subscribe, is_unsubscribe}
use crazy_snail.Client.Written.{IsPooled, Sent, lua_client_command-Sent}

-- The arguments of a call, and what they say: the command, its names and its timers.
pub record Issued : Type 0 where
  pub args : List LuaArg
  pub cmd : Bytes
  pub names : List Bytes
  pub timers : List Bytes

-- What was written to which stream, the newest first.
abbrev pub wire : List Effect → List (Ptr × Bytes)
wire [] = []
wire (write req stream bs ∷ log) = (stream, bs) ∷ wire log
wire (_ ∷ log) = wire log

module _ (H : Host) where
  -- The arguments can be collected.
  abbrev pub AllIssued : List Issued → Type 0
  AllIssued [] = Unit {0}
  AllIssued (x ∷ xs) =
      ((e : Env H.Reader)
        → collect H nothing ((split_last H x.args).0) e
          ≡ done (record { argv = x.cmd ∷ x.names; timers = x.timers }) e)
      × AllIssued xs

  abbrev pub command_all : List Issued → Handler H.Reader (Unit {0})
  command_all [] = pure tt
  command_all (x ∷ xs) = do lua_client_command H (pos 0) x.args; command_all xs

  -- Each command as it is formatted, on the stream for subscriptions if it is about those.
  abbrev pub written_all : Client H.Reader → List Issued → List (Ptr × Bytes) → List (Ptr × Bytes)
  written_all cc [] bs = bs
  written_all cc (x ∷ xs) bs = written_all cc xs (
      (
        if is_subscribe H x.cmd || is_unsubscribe H x.cmd then cc.sub_stream else cc.stream,
        H.format_command (x.cmd ∷ x.names),
      )
      ∷ bs)

  -- A client that can be given commands.
  pub record IsOnline (e : Env H.Reader) (xs : Cells) : Type 0 where
    pub healthy : IsHealthy e.memory e.client xs
    pub connected : e.client.flags.connected ≡ true
    pub disconnecting : e.client.flags.disconnecting ≡ false
    pub freeing : e.client.flags.freeing ≡ false
    pub stream : e.client.stream ≢ null
    pub sub_stream : e.client.sub_stream ≢ null
    pub pooled : IsPooled e.memory.requests

  Sent-IsOnline :
      {e e' : Env H.Reader} {xs : Cells} {cmd : Bytes} {names : List Bytes} {qs : List Ptr}
      → IsOnline e xs
      → (s : Sent H e cmd names qs e') → IsOnline e' s.cells
  Sent-IsOnline on s = record {
    healthy = s.healthy;
    connected = s.connected ∙ on.connected;
    disconnecting = s.disconnecting ∙ on.disconnecting;
    freeing = s.freeing ∙ on.freeing;
    stream = subst (λ p. p ≢ null) (sym s.stream) on.stream;
    sub_stream = subst (λ p. p ≢ null) (sym s.sub_stream) on.sub_stream;
    pooled = s.pooled;
  }

  written_all-same :
      (xs : List Issued) (c c' : Client H.Reader) (bs : List (Ptr × Bytes))
      → c'.stream ≡ c.stream
      → c'.sub_stream ≡ c.sub_stream
      → written_all c' xs bs ≡ written_all c xs bs
  written_all-same [] c c' bs same sub_same = refl
  written_all-same (x ∷ xs) c c' bs same sub_same =
      rw (same, sub_same) (written_all-same xs c c' _ same sub_same)

  -- Commands of any kinds, one after the other, on a client that can be given commands: all are
  -- written.
  pub command_all-IsOnline :
      (is : List Issued) (e : Env H.Reader) {xs : Cells}
      → IsOnline e xs
      → AllIssued is
      → (e' : Env H.Reader) × (cells : Cells) × (command_all is e ≡ done tt e')
        × IsOnline e' cells
        × (wire e'.log ≡ written_all e.client is (wire e.log))
  command_all-IsOnline [] e on all = (e, _, refl, on, refl)
  command_all-IsOnline (x ∷ xs) e on (collected, all) =
      let (e1, run, s) =
        lua_client_command-Sent H x.args e (record { argv = x.cmd ∷ x.names; timers = x.timers })
          x.cmd x.names e.memory.requests on.healthy on.connected on.disconnecting on.freeing refl
          on.pooled (collected e) refl in
      let (e2, cells, rest, on2, log) = command_all-IsOnline xs e1 (Sent-IsOnline on s) all in
      (
        e2,
        cells,
        rw (run) rest,
        on2,
        log
            ∙ ap (written_all e1.client xs) (ap wire s.log)
            ∙ written_all-same xs e.client e1.client _ s.stream s.sub_stream,
      )

  -- Commands of any kinds, one after the other, on a client that can be given commands, and then
  -- `lua_client_exit`: every command is written once, in order, on its stream, and the exit frees
  -- all cells that the trees and the queue have got by then and every callback that they hold, stops
  -- all timers, and frees both handles, the path, and the reader if there is one. The lists, the search trees and the reference
  -- counts of the client are right at the start, the client is connected, has its streams, and is
  -- neither disconnecting nor freed, the arguments can be collected, `malloc` refuses nothing and
  -- gives out addresses other than NULL, no free request is NULL, and every write succeeds.
  pub lua_client_exit-command_all :
      (is : List Issued) (e : Env H.Reader) {xs : Cells}
      → IsOnline e xs
      → AllIssued is
      → (e' : Env H.Reader) × (cells : Cells) × (m' : Memory) × (command_all is e ≡ done tt e')
        × IsHealthy e'.memory e'.client cells
        × (wire e'.log ≡ written_all e.client is (wire e.log))
        × Freed e'.memory cells [] (all_timers e'.client) m'
        × (lua_client_exit H e'
            ≡ done tt (record e' {
              client = emptied (record e'.client { stream_flags = no_streams });
              memory = m';
              log = exit_log H e'.client e'.log;
            }))
  lua_client_exit-command_all is e on all =
      let (e', cells, run, on', log) = command_all-IsOnline is e on all in
      let (m', freed, left) =
        lua_client_exit-Freed H e' [] on'.stream on'.sub_stream on'.healthy.owned
          (subst (Counted e'.memory) (sym (append-nil cells)) on'.healthy.counted) in
      (e', cells, m', run, on'.healthy, log, freed, left)
