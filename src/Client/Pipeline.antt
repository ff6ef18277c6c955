-- ===== src/Client/Pipeline.antt =====
-- Commands of src/crazysnail.c and the replies to them: `lua_client_command` as often as wanted, and
-- then `on_read`.
use crazy_snail.Common.{◌≡◌, ◌<◌, some, List, [], ◌∷◌, ◌++◌, length}
use crazy_snail.Text.{Bytes}
use crazy_snail.Memory.{Ptr, Ref, ref}
use crazy_snail.Queue.Cells.{Cells, count}
use crazy_snail.Reply.{Reply, LuaValue, lua_nil, push_reply}
use crazy_snail.Client.{Client, Effect, pcall, unref, Env, Host, done}
use crazy_snail.Client.Command.{nothing, collect, split_last}
use crazy_snail.Client.Replies.{Exchange, cells_of, replies_of, all_exchanged, Matched}
use crazy_snail.Client.Session.{Issued, wire}
use crazy_snail.Client.Waiting.{IsPlain, IsPipeline}

-- A call for a command, the reply to it and what Lua gets of that.
pub record Asked : Type 0 where
  pub call : Issued
  pub reply : Reply
  pub value : LuaValue

abbrev pub calls_of : List Asked → List Issued
calls_of [] = []
calls_of (x ∷ xs) = x.call ∷ calls_of xs

abbrev pub replies_to : List Asked → List Reply
replies_to [] = []
replies_to (x ∷ xs) = x.reply ∷ replies_to xs

module _ (H : Host) where
  -- The arguments can be collected, the command is none that is treated on its own, and the reply can
  -- be converted.
  abbrev pub AllPlain : List Asked → Type 0
  AllPlain [] = Unit {0}
  AllPlain (x ∷ xs) =
      ((e : Env H.Reader)
        → collect H nothing ((split_last H x.call.args).0) e
          ≡ done (record { argv = x.call.cmd ∷ x.call.names; timers = x.call.timers }) e)
      × IsPlain H x.call.cmd
      × (push_reply x.reply ≡ some x.value)
      × AllPlain xs

  -- Each command, on the stream of the commands.
  abbrev pub asked_all : Ptr → List Asked → List (Ptr × Bytes) → List (Ptr × Bytes)
  asked_all stream [] bs = bs
  asked_all stream (x ∷ xs) bs =
      asked_all stream xs ((stream, H.format_command (x.call.cmd ∷ x.call.names)) ∷ bs)

  -- The function of a command is given its reply, if there is a function.
  abbrev pub told : Ref → LuaValue → List Effect → List Effect
  told (ref f) v log = pcall f (lua_nil ∷ v ∷ []) ∷ unref f ∷ log
  told _ v log = log

  -- The function of each command is given the reply to it, in order.
  abbrev pub told_all : List Asked → List Effect → List Effect
  told_all [] log = log
  told_all (x ∷ xs) log = told_all xs (told ((split_last H x.call.args).1) x.value log)

  -- The callbacks of the commands, each with the reply to its command.
  record Pairs (is : List Asked) (e e' : Env H.Reader) (xs ys : Cells) (ps : List Exchange)
      : Type 0 where
    pipeline : IsPipeline H e' (xs ++ cells_of ps) ys
    matched : Matched e'.memory ps
    size : length ps ≡ length is
    replies : replies_of ps ≡ replies_to is
    told : (log : List Effect) → all_exchanged ps log ≡ told_all is log
    newer : (a : Ptr) → a < e.memory.next → count a (cells_of ps) ≡ 0
    others : (a : Ptr) → a < e.memory.next → e'.memory.callback a ≡ e.memory.callback a
    client : e'.client ≡ record e.client { command_cb_list = e'.client.command_cb_list }
    written : wire e'.log ≡ asked_all e.client.stream is (wire e.log)
