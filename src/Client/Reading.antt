-- ===== src/Client/Reading.antt =====
-- `on_read` of src/crazysnail.c on the stream of the commands, from the bytes to the end of the
-- read.
use crazy_snail.Common.{
  ℕ, ◌≡◌, refl, ap, ◌∙◌, ◌<◌, ◌≢◌, false, none, List, [], ◌∷◌, ◌++◌, arith, ◌==◌, if◌then◌else◌,
  length, ℤ, pos, is_negative, is_zero,
}
use crazy_snail.Text.{Bytes}
use crazy_snail.Memory.{Ptr, null, Buffer, Memory}
use crazy_snail.Pools.{buf_free}
use crazy_snail.Queue.Cells.{Cells, IsQueue-same, Counted-same, head_ne_null, eq_of_nil}
use crazy_snail.Client.{Effect, read_stop, Env, Host, done, pure, emit}
use crazy_snail.Client.Read.{on_read, feed_and_read, read_loop, stopped}
use crazy_snail.Client.Answers.{IsWaiting}
use crazy_snail.Client.Replies.{
  Exchange, cells_of, replies_of, all_exchanged, Yields, IsPassive, Matched, read_loop-answers,
}

-- Reading stops when no command waits.
abbrev pub closing : Cells → Ptr → List Effect → List Effect
closing [] stream log = read_stop stream ∷ log
closing (x ∷ xs) stream log = log

same_Matched :
    (m m' : Memory) (xs : List Exchange) → m'.callback ≡ m.callback → Matched m xs → Matched m' xs
same_Matched m m' [] same h = tt
same_Matched m m' (x ∷ xs) same (at, own, is, h) =
    (ap (λ f. f x.at) same ∙ at, own, is, same_Matched m m' xs same h)

module _ (H : Host) (fuel : ℕ) (stream : Ptr) (nread : ℤ) (content : Bytes) (buf : Buffer) where
  -- The client that has fed its reader and given the buffer back.
  abbrev fed : H.Reader → Env H.Reader → Env H.Reader
  fed a e = record e {
    client = record e.client { reader = a };
    memory = record e.memory { buffers = buf ∷ e.memory.buffers };
  }

  on_read_run :
      (e e' : Env H.Reader) (a : H.Reader)
      → e.client.sub_stream ≢ stream
      → e.client.flags.disconnecting ≡ false
      → is_negative nread ≡ false
      → is_zero nread ≡ false
      → buf.base ≢ null
      → H.feed e.client.reader content ≡ (pos 0, a)
      → read_loop H fuel false none (fed a e) ≡ done (stopped (pos 0)) e'
      → on_read H fuel stream nread content buf e
        ≡ (if e'.client.command_cb_list.head == null then emit (read_stop stream) else pure tt) e'
  unfolding on_read feed_and_read buf_free
  on_read_run e e' a other on positive some_bytes base ok_feed run = ground arith

  read_end :
      (e : Env H.Reader) (cells ys : Cells)
      → IsWaiting e cells ys
      → (if e.client.command_cb_list.head == null then emit (read_stop stream) else pure tt) e
        ≡ done tt (record e { log = closing cells stream e.log })
  read_end e [] ys w = ground (arith, eq_of_nil w.queue.chain)
  read_end e (x ∷ xs) ys w = ground (arith, head_ne_null w.queue.chain)

  -- When the bytes are exactly the replies to the commands that wait longest, on the stream of the
  -- commands, with a well-formed queue and right reference counts, outside of monitor mode and while
  -- the client is not disconnecting, `on_read` gives each reply, in order, to the function of its own
  -- command, once and with its reference given back, and stops reading exactly if no command waits
  -- after that. The fuel exceeds the number of replies, the reader takes the bytes, the commands have
  -- callbacks of their own, their replies can be converted, and no Lua function calls back into the
  -- client.
  pub on_read-answers :
      (xs : List Exchange) (more_cells ys : Cells) (e : Env H.Reader) {a b : H.Reader}
      → IsPassive H
      → e.client.sub_stream ≢ stream
      → e.client.flags.disconnecting ≡ false
      → e.client.flags.monitoring ≡ false
      → is_negative nread ≡ false
      → is_zero nread ≡ false
      → buf.base ≢ null
      → H.feed e.client.reader content ≡ (pos 0, a)
      → Yields H a (replies_of xs) b
      → IsWaiting e (cells_of xs ++ more_cells) ys
      → Matched e.memory xs
      → length xs < fuel
      → (e' : Env H.Reader) × (on_read H fuel stream nread content buf e ≡ done tt e')
        × IsWaiting e' more_cells ys
        × (e'.log ≡ closing more_cells stream (all_exchanged xs e.log))
  on_read-answers xs more_cells ys e {a} passive other on quiet positive some_bytes base ok_feed y w
        h enough =
      let (e', run, w', log, reader) =
        read_loop-answers H fuel xs more_cells ys none (fed a e) passive on quiet refl y
          (record {
            queue = IsQueue-same refl refl w.queue;
            counted = Counted-same ((cells_of xs ++ more_cells) ++ ys) refl w.counted;
          })
          (same_Matched e.memory (fed a e).memory xs refl h) enough in
      (
        record e' { log = closing more_cells stream e'.log },
        on_read_run e e' a other on positive some_bytes base ok_feed run
            ∙ read_end e' more_cells ys w',
        record { queue = w'.queue; counted = w'.counted },
        ap (closing more_cells stream) log,
      )
