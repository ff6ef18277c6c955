-- ===== src/Client/Waiting.antt =====
-- A command of src/crazysnail.c that is no subscription: `lua_client_command` puts its callback behind
-- those that wait, and writes it.
use crazy_snail.Common.{
  suc, ◌<◌, ◌≡◌, ◌≢◌, refl, ap, ◌∙◌, ◌≤◌, true, false, some, List, [], ◌∷◌, ◌++◌, arith, pos,
}
use crazy_snail.Text.{Bytes}
use crazy_snail.Memory.{Ptr, null, Ref, Callback, CallbackEnds, Memory}
use crazy_snail.Memory.Returns.{ending}
use crazy_snail.Queue.Cells.{
  Cells, frame, has-append, count-append, IsQueue-same, Counted-same, gained,
}
use crazy_snail.Queue.Push.{push_cb-IsQueue}
use crazy_snail.Client.{free_text, write, Env, Host, done}
use crazy_snail.Client.Answers.{
  IsFresh, IsWaiting, made, wrapped-Counted, wrapped-IsQueue, wrapped-IsLoose, enqueue_run, queued,
}
use crazy_snail.Client.Command.{
  LuaArg, Collected, nothing, collect, enqueue, split_last, lua_client_command,
}
use crazy_snail.Client.Kinds.{is_subscribe, is_unsubscribe, is_monitor, register-other}
use crazy_snail.Client.Subscription.{IsRoomy}
use crazy_snail.Client.Written.{
  IsPooled, taken, without_taken, without_taken-IsPooled, sent, send-sent, command-run,
}

module _ (H : Host) where
  -- The command is none of those that `lua_client_command` treats on their own.
  abbrev pub IsPlain : Bytes → Type 0
  IsPlain cmd =
      (is_subscribe H cmd ≡ false) × (is_unsubscribe H cmd ≡ false) × (is_monitor H cmd ≡ false)

  -- A client that can be given commands, whose commands have the cells `xs`, among those of other lists.
  pub record IsPipeline (e : Env H.Reader) (xs ys : Cells) : Type 0 where
    pub waiting : IsWaiting e xs ys
    pub fresh : IsFresh e.memory (xs ++ ys)
    pub roomy : IsRoomy e.memory
    pub connected : e.client.flags.connected ≡ true
    pub disconnecting : e.client.flags.disconnecting ≡ false
    pub freeing : e.client.flags.freeing ≡ false
    pub pooled : IsPooled e.memory.requests

  -- A callback behind the others.
  record Follows (e : Env H.Reader) (r : Ref) (xs ys : Cells) (l : CallbackEnds) (m : Memory)
      : Type 0 where
    run : enqueue H r e ≡ done tt (queued H e l m)
    waiting : IsWaiting (queued H e l m) (xs ++ (suc (suc e.memory.next), e.memory.next) ∷ []) ys
    next : m.next ≡ suc (suc (suc e.memory.next))
    oom : m.oom ≡ e.memory.oom
    requests : m.requests ≡ e.memory.requests
    there : m.callback e.memory.next ≡ some (gained (made e.memory r))
    others : (a : Ptr) → a ≢ e.memory.next → m.callback a ≡ e.memory.callback a

  enqueue-Follows :
      (e : Env H.Reader) (r : Ref) {xs ys : Cells}
      → IsPipeline e xs ys
      → (l : CallbackEnds) × (m : Memory) × Follows e r xs ys l m
  enqueue-Follows e r {xs} {ys} p =
      ending
        (push_cb-IsQueue e.client.command_cb_list xs ys
          (wrapped-IsQueue e.memory r xs ys p.fresh p.waiting.queue
            λ a i. ground (arith, has-append a xs ys))
          (wrapped-Counted e.memory r xs ys p.fresh p.waiting.counted)
          (wrapped-IsLoose e.memory r xs ys p.fresh p.roomy.ne_null))
        λ l m run (q, all, same, pools, cbs). (
          l,
          m,
          record {
            run = enqueue_run H e r p.roomy.ne_null p.roomy.room run;
            waiting = record { queue = q; counted = all };
            next = pools.next;
            oom = pools.oom;
            requests = pools.requests;
            there = ap (λ f. f e.memory.next) cbs ∙ ground arith;
            others = λ a ne. ap (λ f. f a) cbs ∙ ground arith;
          },
        )

  snoc-IsFresh :
      (m m' : Memory) (xs ys : Cells)
      → IsFresh m (xs ++ ys)
      → m'.next ≡ suc (suc (suc m.next))
      → IsFresh m' ((xs ++ (suc (suc m.next), m.next) ∷ []) ++ ys)
  snoc-IsFresh m m' xs ys fresh next a h =
      let cell : Cells = (suc (suc m.next), m.next) ∷ [] in
      (
        ground (
          arith,
          fresh a,
          has-append a (xs ++ cell) ys,
          has-append a xs cell,
          has-append a xs ys,
        ),
        ground (
          arith,
          fresh a,
          count-append a (xs ++ cell) ys,
          count-append a xs cell,
          count-append a xs ys,
        ),
      )

  sent-IsWaiting :
      (qs : List Ptr) (argv : List Bytes) (e : Env H.Reader) {xs ys : Cells}
      → IsWaiting e xs ys
      → IsWaiting (sent H qs false argv e) xs ys
  sent-IsWaiting [] argv e {xs} {ys} w = record {
    queue = record { chain = frame w.queue.chain (omega arith) (λ a i. refl); end = w.queue.end };
    counted = Counted-same (xs ++ ys) refl w.counted;
  }
  sent-IsWaiting (q ∷ qs) argv e {xs} {ys} w = record {
    queue = IsQueue-same refl refl w.queue;
    counted = Counted-same (xs ++ ys) refl w.counted;
  }

  pub without_taken-callback :
      (qs : List Ptr) (m : Memory) → (without_taken qs m).callback ≡ m.callback
  without_taken-callback [] m = refl
  without_taken-callback (q ∷ qs) m = refl

  pub without_taken-oom : (qs : List Ptr) (m : Memory) → (without_taken qs m).oom ≡ m.oom
  without_taken-oom [] m = refl
  without_taken-oom (q ∷ qs) m = refl

  pub without_taken-next : (qs : List Ptr) (m : Memory) → m.next ≤ (without_taken qs m).next
  without_taken-next [] m = omega arith
  without_taken-next (q ∷ qs) m = omega arith

  -- The end of a command with the function `r`: it waits behind the others, with a callback of its own,
  -- and has been written.
  pub record Waits (e : Env H.Reader) (r : Ref) (bs : Bytes) (xs ys : Cells) (e' : Env H.Reader)
      : Type 0 where
    pub cell : Ptr
    pub at : Ptr
    pub callback : Callback
    pub own : callback.ref ≡ r
    pub there : e'.memory.callback at ≡ some callback
    pub made_now : at ≡ e.memory.next
    pub made_before : at < e'.memory.next
    pub others : (a : Ptr) → a ≢ at → e'.memory.callback a ≡ e.memory.callback a
    pub pipeline : IsPipeline e' (xs ++ (cell, at) ∷ []) ys
    pub req : Ptr
    pub log : e'.log ≡ free_text (some bs) ∷ write req e.client.stream bs ∷ e.log
    pub client : e'.client ≡ record e.client { command_cb_list = e'.client.command_cb_list }

  pub lua_client_command-Waits :
      (as_ : List LuaArg) (e : Env H.Reader) (c : Collected) (cmd : Bytes) (names : List Bytes)
      {xs ys : Cells}
      → IsPipeline e xs ys
      → IsPlain cmd
      → collect H nothing ((split_last H as_).0) e ≡ done c e
      → c.argv ≡ cmd ∷ names
      → (e' : Env H.Reader) × (lua_client_command H (pos 0) as_ e ≡ done tt e')
        × Waits e ((split_last H as_).1) (H.format_command (cmd ∷ names)) xs ys e'
  lua_client_command-Waits as_ e c cmd names {xs} {ys} p (not_sub, not_unsub, not_monitor) collected
        is =
      let r : Ref = (split_last H as_).1 in
      let qs : List Ptr = e.memory.requests in
      let (l, m, d) = enqueue-Follows e r p in
      let e1 : Env H.Reader = queued H e l m in
      let ne : m.next ≢ null = ground (arith, d.next) in
      let room : (a : Ptr) → m.oom a ≡ false = λ a. ap (λ f. f a) d.oom ∙ p.roomy.room a in
      let registered =
        register-other H e r cmd names c.timers not_sub not_unsub not_monitor d.run in
      let written =
        send-sent H qs false (cmd ∷ names) e1 p.connected p.disconnecting p.freeing d.requests
          p.pooled ne room in
      let next = without_taken-next qs m in
      let callbacks = without_taken-callback qs m in
      (
        sent H qs false (cmd ∷ names) e1,
        command-run H as_ c cmd names collected is registered written,
        record {
          cell = suc (suc e.memory.next);
          at = e.memory.next;
          callback = gained (made e.memory r);
          own = refl;
          there = ap (λ f. f e.memory.next) callbacks ∙ d.there;
          made_now = refl;
          made_before = omega (arith, next, d.next);
          others = λ a apart. ap (λ f. f a) callbacks ∙ d.others a apart;
          pipeline = record {
            waiting = sent-IsWaiting qs (cmd ∷ names) e1 d.waiting;
            fresh = λ a h. snoc-IsFresh e.memory m xs ys p.fresh d.next a (omega (arith, next));
            roomy = record {
              ne_null = ground (arith, next);
              room = λ a. ap (λ f. f a) (without_taken-oom qs m) ∙ room a;
            };
            connected = p.connected;
            disconnecting = p.disconnecting;
            freeing = p.freeing;
            pooled = without_taken-IsPooled qs m d.requests p.pooled;
          };
          req = taken qs m;
          log = refl;
          client = refl;
        },
      )
