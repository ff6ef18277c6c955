-- ===== src/Tests/Replies.antt =====
-- Two commands, and a read of two replies.
use crazy_snail.Common.{
  ℕ, ◌≡◌, refl, sym, subst, ◌≢◌, true, false, Option, none, some, List, [], ◌∷◌, arith, ◌==◌,
  ==_iff, Bool-cases, inl, inr, if◌then◌else◌, ℤ, pos,
}
use crazy_snail.Text.{bytes}
use crazy_snail.Memory.{Buffer, Ptr, null, ref, noref, Callback, Memory}
use crazy_snail.Queue.Cells.{count, nil, cons, Attached, Counted}
use crazy_snail.Tree.{empty}
use crazy_snail.Reply.{Reply, string, integer, text, int, push_reply}
use crazy_snail.Client.{Env, Host, done}
use crazy_snail.Client.Connection.{no_client_flags, no_streams}
use crazy_snail.Client.Reading.{closing, on_read-answers}
use crazy_snail.Client.Read.{on_read}
use crazy_snail.Client.Answers.{IsWaiting}
use crazy_snail.Client.Replies.{
  Exchange, cells_of, replies_of, all_exchanged, nothing, more, IsPassive, Matched,
}

abbrev pub next_reply : List Reply → ℤ × Option Reply × List Reply
next_reply [] = (pos 0, none, [])
next_reply (r ∷ rs) = (pos 0, some r, rs)

abbrev pub host : Host
host = record {
  Reader = List Reply;
  create = [];
  is_reader = λ r. true;
  feed = λ r s. (pos 0, r);
  get_reply = next_reply;
  errstr = λ r. [];
  format_command = λ args. [];
  strerror = λ n. [];
  to_number = λ s. none;
  max_stack = 8000;
  script = λ k args e. e;
}

pub host-IsPassive : IsPassive host
host-IsPassive k args e = refl

abbrev callback : ℕ → Callback
callback f = record {
  ref = ref f;
  initialized = false;
  nb_channel = 0;
  attach = pos 1;
  channels = [];
}

abbrev store : Memory
store = record {
  next = 5;
  oom = λ p. false;
  junk = λ p i. 0;
  callback = λ p. if p == 1 then some (callback 8) else if p == 2 then some (callback 9) else none;
  wrapper = λ p.
      if p == 3
      then some (record { cb = 1; next = 4 })
      else if p == 4
      then some (record { cb = 2; next = null })
      else none;
  requests = [];
  buffers = [];
  stopped = [];
}

abbrev exchanges : List Exchange
exchanges =
    record {
      cell = 3;
      at = 1;
      callback = callback 8;
      reply = string (bytes "PONG");
      value = text (bytes "PONG");
    }
    ∷ record {
      cell = 4;
      at = 2;
      callback = callback 9;
      reply = integer (pos 3);
      value = int (pos 3);
    }
    ∷ []

abbrev env : Env (List Reply)
env = record {
  client = record {
    path = some (bytes "/tmp/redis.sock");
    ignore_sub_cmd_reply = true;
    stream = 10;
    sub_stream = 11;
    r_connect_cb = noref;
    r_error_cb = noref;
    r_disconnect_cb = noref;
    command_cb_list = record { head = 3; tail = 4 };
    channels = empty;
    patterns = empty;
    timers = empty;
    flags = no_client_flags;
    stream_flags = no_streams;
    reader = replies_of exchanges;
  };
  memory = store;
  log = [];
}

callback-Attached :
    (p : Ptr) (f : ℕ) → p ≢ null → store.callback p ≡ some (callback f) → Attached store p 1
callback-Attached p f ne there = record {
  at = callback f;
  there = there;
  attached = refl;
  whole = λ j h. absurd (omega arith);
  ne_null = ne;
}

store-Counted : Counted store (cells_of exchanges)
store-Counted c some_cells = elim (Bool-cases (c == 1)) [
  | inl e ↦
      subst (λ x. Attached store x (count x (cells_of exchanges))) (sym ((==_iff c 1).0 e))
        (callback-Attached 1 8 (ground arith) refl)
  | inr other ↦ elim (Bool-cases (c == 2)) [
    | inl e ↦
        subst (λ x. Attached store x (count x (cells_of exchanges))) (sym ((==_iff c 2).0 e))
          (callback-Attached 2 9 (ground arith) refl)
    | inr neither ↦ absurd (ground arith)
  ]
]

env-IsWaiting : IsWaiting env (cells_of exchanges) []
env-IsWaiting = record {
  queue = record {
    chain =
        cons (ground arith) (omega arith) refl refl
          (cons (ground arith) (omega arith) refl refl nil);
    end = refl;
  };
  counted = store-Counted;
}

exchanges-Matched : Matched store exchanges
unfolding push_reply
exchanges-Matched = (refl, refl, refl, (refl, refl, refl, tt))

abbrev pub buffer : Buffer
buffer = record { base = 20; len = 65536 }

on_read-answers_example :
    (e' : Env (List Reply)) × (on_read host 3 10 (pos 11) (bytes "+PONG\r\n:3\r\n") buffer env
      ≡ done tt e')
    × IsWaiting e' [] []
    × (e'.log ≡ closing [] 10 (all_exchanged exchanges []))
on_read-answers_example =
    on_read-answers host 3 10 (pos 11) (bytes "+PONG\r\n:3\r\n") buffer exchanges [] [] env
      host-IsPassive (ground arith) refl refl refl refl (ground arith) refl
      (more refl (more refl (nothing refl))) env-IsWaiting exchanges-Matched (omega arith)
