-- ===== src/Client/Answers.antt =====
-- The queue of commands in src/crazysnail.c: its end in `lua_client_command`, and its front in
-- `on_read`.
use crazy_snail.Common.{
  suc, ◌≡◌, refl, sym, ap, ◌∙◌, ◌≤◌, ◌≢◌, true, false, Option, none, some, [], ◌∷◌, ◌++◌, arith,
  pos,
}
use crazy_snail.Memory.{
  Ptr, null, Ref, ref, Callback, CallbackEnds, Memory, ok, malloc, update, bit, put_callback,
  put_wrapper,
}
use crazy_snail.Memory.Returns.{ending}
use crazy_snail.Callback.{create_callback, snail_ok}
use crazy_snail.Queue.{wrap_cb, push_cb, shift_cb}
use crazy_snail.Queue.Cells.{Cells, has, count, frame, has-append, IsQueue, Counted, gained}
use crazy_snail.Queue.Push.{IsLoose, push_cb-IsQueue}
use crazy_snail.Queue.Shift.{shift_cb-IsQueue}
use crazy_snail.Reply.{Reply, LuaValue, lua_nil, push_reply}
use crazy_snail.Client.{Env, Host, done, Handler, call, unref}
use crazy_snail.Client.Calls.{called}
use crazy_snail.Client.Command.{enqueue}
use crazy_snail.Client.Read.{answer, shift_command}

-- What `create_callback` makes of a callback without channels: the flag is what the block held.
abbrev pub made : Memory → Ref → Callback
made m r = record {
  ref = r;
  initialized = bit 0 (m.junk m.next 1);
  nb_channel = 0;
  attach = pos 0;
  channels = [];
}

-- The memory after `create_callback` and `wrap_cb`, with the callback at `m.next`, its channels in the
-- block behind it, and its cell in the next one.
abbrev pub wrapped : Memory → Ref → Memory
wrapped m r = record m {
  next = suc (suc (suc m.next));
  callback = update (update m.callback m.next (some (made m r))) m.next (some (made m r));
  wrapper = update m.wrapper (suc (suc m.next)) (some (record { cb = m.next; next = null }));
}

-- Nothing is known at an address that has not been given out.
abbrev pub IsFresh : Memory → Cells → Type 0
IsFresh m xs = (a : Ptr) → m.next ≤ a → (has a xs ≡ false) × (count a xs ≡ 0)

create_callback-ok :
    (m : Memory) (r : Ref)
    → m.next ≢ null
    → ((p : Ptr) → m.oom p ≡ false)
    → create_callback null r 0 m
      ≡ ok
          (snail_ok, m.next)
          (record m {
            next = suc (suc m.next);
            callback = update (update m.callback m.next (some (made m r))) m.next (some (made m r));
          })
unfolding create_callback malloc put_callback
create_callback-ok m r ne room = ground (arith, room m.next, room (suc m.next))

pub wrap_cb-ok :
    (m : Memory) (c : Ptr)
    → c ≢ null
    → m.next ≢ null
    → ((p : Ptr) → m.oom p ≡ false)
    → wrap_cb null c m
      ≡ ok
          (snail_ok, m.next)
          (record m {
            next = suc m.next;
            wrapper = update m.wrapper m.next (some (record { cb = c; next = null }));
          })
unfolding wrap_cb malloc put_wrapper
wrap_cb-ok m c cne ne room = ground (arith, room m.next)

module _ (m : Memory) (r : Ref) (xs ys : Cells) (fresh : IsFresh m (xs ++ ys)) where
  pub wrapped-Counted : Counted m (xs ++ ys) → Counted (wrapped m r) (xs ++ ys)
  wrapped-Counted all c some_cells =
      let old = all c some_cells in
      let elsewhere : c ≢ m.next = λ e. ground (arith, fresh c) in
      record {
        at = old.at;
        there = ground (arith, old.there);
        attached = old.attached;
        whole = old.whole;
        ne_null = old.ne_null;
      }

  pub wrapped-IsQueue :
      {l : CallbackEnds}
      → IsQueue m l xs
      → ((a : Ptr) → has a xs ≡ true → has a (xs ++ ys) ≡ true)
      → IsQueue (wrapped m r) l xs
  wrapped-IsQueue q mine = record {
    chain = frame q.chain (omega arith) λ a i. ground (arith, fresh a, mine a i);
    end = q.end;
  }

  pub wrapped-IsLoose : m.next ≢ null → IsLoose (wrapped m r) (suc (suc m.next)) m.next (xs ++ ys)
  wrapped-IsLoose ne = record {
    ne_null = ground arith;
    made = omega arith;
    holds = ground arith;
    apart = (fresh (suc (suc m.next)) (omega arith)).0;
    attached = record {
      at = made m r;
      there = ground arith;
      attached = ap pos (sym ((fresh m.next (omega arith)).1));
      whole = λ j h. absurd (omega arith);
      ne_null = ne;
    };
  }

-- A reply goes to the function of a callback, which is given back, and to nobody without one.
abbrev pub answered : (H : Host) → LuaValue → Callback → Handler H.Reader (Option Callback)
answered H v k e = elim k.ref [
  | ref f ↦ done (some k) (called H (ref f) (lua_nil ∷ v ∷ []) (record e { log = unref f ∷ e.log }))
  | _ ↦ done (some k) e
]

-- The queue of commands of a client, and its cells among the cells `ys` of other lists.
pub record IsWaiting {R : Type 0} (e : Env R) (xs ys : Cells) : Type 0 where
  pub queue : IsQueue e.memory e.client.command_cb_list xs
  pub counted : Counted e.memory (xs ++ ys)

module _ (H : Host) (e : Env H.Reader) where
  -- The client with another queue, and another memory.
  abbrev pub queued : CallbackEnds → Memory → Env H.Reader
  queued l m = record e { client = record e.client { command_cb_list = l }; memory = m }

  pub enqueue_run :
      (r : Ref) {l : CallbackEnds} {m : Memory}
      → e.memory.next ≢ null
      → ((p : Ptr) → e.memory.oom p ≡ false)
      → push_cb (some e.client.command_cb_list) (suc (suc e.memory.next)) (wrapped e.memory r)
        ≡ ok l m
      → enqueue H r e ≡ done tt (queued l m)
  unfolding enqueue
  enqueue_run r ne room run =
      let c1 = create_callback-ok e.memory r ne room in
      let m1 : Memory = record e.memory {
        next = suc (suc e.memory.next);
        callback =
            update (update e.memory.callback e.memory.next (some (made e.memory r))) e.memory.next
              (some (made e.memory r));
      } in
      let c2 = wrap_cb-ok m1 e.memory.next ne (omega arith) room in rw (enqueue, c1, c2, run) refl

  -- On a well-formed queue with right reference counts, if `malloc` refuses nothing and no list has an
  -- address that was not given out, a command with the function `r` waits behind all others, in a new
  -- cell with a new callback: the queue and the counts stay right, and nothing else changes in the
  -- client.
  pub enqueue-IsWaiting :
      (r : Ref) (xs ys : Cells)
      → IsWaiting e xs ys
      → IsFresh e.memory (xs ++ ys)
      → e.memory.next ≢ null
      → ((p : Ptr) → e.memory.oom p ≡ false)
      → (l : CallbackEnds) × (m : Memory) × (s : Ptr) × (c : Ptr) × (enqueue H r e
          ≡ done tt (queued l m))
        × IsWaiting (queued l m) (xs ++ (s, c) ∷ []) ys
        × (m.callback c ≡ some (gained (made e.memory r)))
  enqueue-IsWaiting r xs ys w fresh ne room =
      ending
        (push_cb-IsQueue e.client.command_cb_list xs ys
          (wrapped-IsQueue e.memory r xs ys fresh w.queue λ a i. ground (arith, has-append a xs ys))
          (wrapped-Counted e.memory r xs ys fresh w.counted)
          (wrapped-IsLoose e.memory r xs ys fresh ne))
        λ l m run (q, all, same, pools, cbs). (
          l,
          m,
          suc (suc e.memory.next),
          e.memory.next,
          enqueue_run r ne room run,
          record { queue = q; counted = all },
          ap (λ f. f e.memory.next) cbs ∙ ground arith,
        )

  answer_run :
      (reply : Reply) (v : LuaValue) (cb : Option Callback) (k : Callback) {l : CallbackEnds}
      {m : Memory}
      → push_reply reply ≡ some v
      → shift_cb e.client.command_cb_list e.memory ≡ ok (snail_ok, l, some k) m
      → answer H reply cb e ≡ answered H v k (queued l m)
  unfolding answer shift_command call
  answer_run reply v cb k is run = ground (arith, is)

  -- On a well-formed queue with right reference counts, a reply that can be converted is given to the
  -- function of the command that waits longest, once and with its reference given back, or to nobody
  -- if that command has none. The command leaves the queue, the others stay in order, and no other
  -- callback changes.
  pub answer-IsWaiting :
      (reply : Reply) (v : LuaValue) (cb : Option Callback) (p c : Ptr) (k : Callback)
      (xs ys : Cells)
      → push_reply reply ≡ some v
      → IsWaiting e ((p, c) ∷ xs) ys
      → e.memory.callback c ≡ some k
      → (l : CallbackEnds) × (m : Memory) × (answer H reply cb e ≡ answered H v k (queued l m))
        × IsWaiting (queued l m) xs ys
        × (m.wrapper p ≡ none)
        × ((d : Ptr) → d ≢ c → m.callback d ≡ e.memory.callback d)
  answer-IsWaiting reply v cb p c k xs ys is w here =
      ending (shift_cb-IsQueue e.client.command_cb_list p c xs ys w.queue w.counted)
        λ (s, l, o) m run d. (
          l,
          m,
          answer_run reply v cb k is (
              run
              ∙ ap (λ z. ok z m)
                  (ap (λ z. (z, l, o)) d.status ∙ ap (λ z. (snail_ok, l, z)) (d.copy ∙ here))),
          record { queue = d.rest; counted = d.counted },
          d.freed,
          d.others,
        )
