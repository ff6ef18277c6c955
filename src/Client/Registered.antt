-- ===== src/Client/Registered.antt =====
-- `lua_client_command` of src/crazysnail.c files its callback by the kind of the command.
use crazy_snail.Common.{
  ◌≡◌, refl, ap, ◌∙◌, Bool, true, false, ◌||◌, List, arith, Bool-cases, inl, inr,
}
use crazy_snail.Text.{Bytes}
use crazy_snail.Memory.{Ref, CallbackEnds, Memory}
use crazy_snail.Memory.Returns.{ending}
use crazy_snail.Queue.Cells.{Cells, has-append}
use crazy_snail.Queue.Push.{push_cb-IsQueue}
use crazy_snail.Client.{Env, Host, done}
use crazy_snail.Client.Answers.{
  wrapped-Counted, wrapped-IsQueue, wrapped-IsLoose, enqueue_run, queued,
}
use crazy_snail.Client.Closing.{Owned}
use crazy_snail.Client.Command.{enqueue, register, subscribe_all}
use crazy_snail.Client.Healthy.{IsHealthy, subscribe_all-IsHealthy}
use crazy_snail.Client.Commands.{others, first-Counted, first-IsFresh, Pushed-IsHealthy}
use crazy_snail.Client.Kinds.{
  is_subscribe, is_unsubscribe, is_monitor, is_pvariant, monitoring, register-subscribe,
  register-unsubscribe, register-monitor, register-other,
}

module _ (H : Host) where
  pub enqueue-IsHealthy :
      (e : Env H.Reader) (r : Ref) {xs : Cells}
      → IsHealthy e.memory e.client xs
      → (l : CallbackEnds) × (m : Memory) × (xs' : Cells) × (enqueue H r e
          ≡ done tt (queued H e l m))
        × IsHealthy m (queued H e l m).client xs'
        × (m.requests ≡ e.memory.requests)
  enqueue-IsHealthy e r h =
      let o = h.owned in
      ending
        (push_cb-IsQueue e.client.command_cb_list o.of_commands (others e h)
          (wrapped-IsQueue e.memory r o.of_commands (others e h) (first-IsFresh e h) o.commands
            λ a i. ground (arith, has-append a o.of_commands (others e h)))
          (wrapped-Counted e.memory r o.of_commands (others e h) (first-IsFresh e h)
            (first-Counted e h))
          (wrapped-IsLoose e.memory r o.of_commands (others e h) (first-IsFresh e h)
            h.roomy.ne_null))
        λ l m run pushed. (
          l,
          m,
          _,
          enqueue_run H e r h.roomy.ne_null h.roomy.room run,
          Pushed-IsHealthy e h r pushed,
          pushed.3.requests,
        )

  -- The client as before but for its lists, and perhaps in monitor mode.
  pub record Registered (e e' : Env H.Reader) : Type 0 where
    pub cells : Cells
    pub healthy : IsHealthy e'.memory e'.client cells
    pub log : e'.log ≡ e.log
    pub connected : e'.client.flags.connected ≡ e.client.flags.connected
    pub disconnecting : e'.client.flags.disconnecting ≡ e.client.flags.disconnecting
    pub freeing : e'.client.flags.freeing ≡ e.client.flags.freeing
    pub stream : e'.client.stream ≡ e.client.stream
    pub sub_stream : e'.client.sub_stream ≡ e.client.sub_stream
    pub requests : e'.memory.requests ≡ e.memory.requests

  subscribed-Registered :
      (e : Env H.Reader) (r : Ref) (names keys : List Bytes) (pvariant : Bool) {xs : Cells}
      → IsHealthy e.memory e.client xs
      → (e' : Env H.Reader) × (subscribe_all H pvariant r names keys e ≡ done tt e')
        × Registered e e'
  subscribed-Registered e r names keys false h =
      let (t, u, m', xs', run, healthy, s) = subscribe_all-IsHealthy H e r names keys false h in
      (
        _,
        run,
        record {
          cells = xs';
          healthy = healthy;
          log = refl;
          connected = refl;
          disconnecting = refl;
          freeing = refl;
          stream = refl;
          sub_stream = refl;
          requests = s.requests;
        },
      )
  subscribed-Registered e r names keys true h =
      let (t, u, m', xs', run, healthy, s) = subscribe_all-IsHealthy H e r names keys true h in
      (
        _,
        run,
        record {
          cells = xs';
          healthy = healthy;
          log = refl;
          connected = refl;
          disconnecting = refl;
          freeing = refl;
          stream = refl;
          sub_stream = refl;
          requests = s.requests;
        },
      )

  module _ (e : Env H.Reader) (r : Ref) (cmd : Bytes) (names keys : List Bytes) where
    enqueued-Registered :
        (e1 : Env H.Reader) {xs : Cells}
        → IsHealthy e1.memory e1.client xs
        → (e' : Env H.Reader) × (enqueue H r e1 ≡ done tt e') × Registered e1 e'
    enqueued-Registered e1 h =
        let (l, m, xs', run, healthy, pool) = enqueue-IsHealthy e1 r h in
        (
          _,
          run,
          record {
            cells = xs';
            healthy = healthy;
            log = refl;
            connected = refl;
            disconnecting = refl;
            freeing = refl;
            stream = refl;
            sub_stream = refl;
            requests = pool;
          },
        )

    same-Owned :
        {xs : Cells} → Owned e.memory e.client xs → Owned e.memory (monitoring H e).client xs
    same-Owned o = record {
      of_channels = o.of_channels;
      of_patterns = o.of_patterns;
      of_timers = o.of_timers;
      of_commands = o.of_commands;
      channels = o.channels;
      patterns = o.patterns;
      timers = o.timers;
      commands = o.commands;
      apart_channels = o.apart_channels;
      apart_patterns = o.apart_patterns;
      apart_timers = o.apart_timers;
      all = o.all;
    }

    -- In monitor mode the lists are the same.
    monitoring-IsHealthy :
        {xs : Cells}
        → IsHealthy e.memory e.client xs
        → IsHealthy e.memory (monitoring H e).client xs
    monitoring-IsHealthy {xs} h = record {
      owned = same-Owned h.owned;
      counted = h.counted;
      fresh = h.fresh;
      channels = h.channels;
      patterns = h.patterns;
      timers = h.timers;
      roomy = h.roomy;
    }

    -- Whatever the command, if `malloc` refuses nothing, the client is as right as before: the trees
    -- and the queue share no cell, all reference counts are right, and the trees are in order. Nothing
    -- is asked of libuv or Lua.
    pub register-Registered :
        {xs : Cells}
        → IsHealthy e.memory e.client xs
        → (e' : Env H.Reader) × (register H r cmd names keys e
            ≡ done (is_subscribe H cmd || is_unsubscribe H cmd) e')
          × Registered e e'
    register-Registered h = elim (Bool-cases (is_subscribe H cmd)) [
      | inl is ↦
          let (e', run, d) = subscribed-Registered e r names keys (is_pvariant H cmd) h in
          (
            e',
            register-subscribe H e r cmd names keys is run ∙ ap (λ b. done b e') (ground arith),
            d,
          )
      | inr not_sub ↦ elim (Bool-cases (is_unsubscribe H cmd)) [
        | inl is ↦ (
          e,
          register-unsubscribe H e r cmd names keys not_sub is ∙ ap (λ b. done b e) (ground arith),
          record {
            cells = _;
            healthy = h;
            log = refl;
            connected = refl;
            disconnecting = refl;
            freeing = refl;
            stream = refl;
            sub_stream = refl;
            requests = refl;
          },
        )
        | inr not_unsub ↦ elim (Bool-cases (is_monitor H cmd)) [
          | inl is ↦
              let (e', run, d) = enqueued-Registered (monitoring H e) (monitoring-IsHealthy h) in
              (
                e',
                register-monitor H e r cmd names keys not_sub not_unsub is run
                    ∙ ap (λ b. done b e') (ground arith),
                record {
                  cells = d.cells;
                  healthy = d.healthy;
                  log = d.log;
                  connected = d.connected;
                  disconnecting = d.disconnecting;
                  freeing = d.freeing;
                  stream = d.stream;
                  sub_stream = d.sub_stream;
                  requests = d.requests;
                },
              )
          | inr not_monitor ↦
              let (e', run, d) = enqueued-Registered e h in
              (
                e',
                register-other H e r cmd names keys not_sub not_unsub not_monitor run
                    ∙ ap (λ b. done b e') (ground arith),
                d,
              )
        ]
      ]
    ]
