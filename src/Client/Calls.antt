-- ===== src/Client/Calls.antt =====
-- The loops of src/crazysnail.c over a list of callbacks, for Lua functions that leave the memory of
-- the client alone: what they do besides is free.
use crazy_snail.Common.{
  ℕ, zero, suc, ltb, ◌+◌, ◌%◌, ◌^◌, ℤ, pos, negsuc, Bool-cases, inl, inr, ◌<◌, ◌≡◌, refl, sym,
  subst, ◌∙◌, ◌≢◌, Bool, true, false, some, List, [], ◌∷◌, arith, if◌then◌else◌, length, ==_ne,
}
use crazy_snail.Memory.{
  Ptr, null, Ref, noref, refnil, ref, Callback, CallbackEnds, Memory, load_wrapper, load_callback,
  ok,
}
use crazy_snail.Text.{Bytes, bytes, strcmp, is_eq}
use crazy_snail.Tree.{Node, Tree, Place, node_at, search_key}
use crazy_snail.Tree.Timers.{IsOrdered, search_timer_iff}
use crazy_snail.Queue.Cells.{Cells, IsQueue, Seg, nil, cons, head_ne_null}
use crazy_snail.Reply.{
  Reply, Replies, array, item, string, LuaValue, lua_nil, text, int, table, at_index, no_fields,
  push_sub_reply,
}
use crazy_snail.Client.{pcall, pcall_nil, Env, Host, done, call, call_if}
use crazy_snail.Client.Dispatch.{
  to_lua_integer, timer_fields, call_with_reply, message_loop, timer_loop, on_timer, deliver,
  get_and_call_sub_cb, pvariant_of, kind_of,
}

-- The callbacks that the cells hold, in order.
abbrev pub Holds : Memory → Cells → List Callback → Type 0
Holds m [] [] = Unit {0}
Holds m [] (k ∷ ks) = ⊥
Holds m (x ∷ xs) [] = ⊥
Holds m ((p, c) ∷ xs) (k ∷ ks) = (c ≢ null) × (m.callback c ≡ some k) × Holds m xs ks

-- A callback that is not initialized gets a message instead of the value.
abbrev pub arguments : LuaValue → Callback → List LuaValue
arguments v k =
    if k.initialized
    then lua_nil ∷ v ∷ []
    else text (bytes "event received but not initialized") ∷ []

-- The signed 64-bit number with the same bits as an unsigned one.
abbrev pub IsSigned : ℕ → ℤ → Type 0
IsSigned n (pos k) = (k < 2 ^ 63) × (k ≡ n % 2 ^ 64)
IsSigned n (negsuc k) = (k < 2 ^ 63) × (k + 1 + n % 2 ^ 64 ≡ 2 ^ 64)

to_lua_integer-IsSigned : (n : ℕ) → IsSigned n (to_lua_integer n)
to_lua_integer-IsSigned n = elim (Bool-cases (ltb (n % 2 ^ 64) (2 ^ 63))) [
  | inl small ↦ rw small (ground arith, refl)
  | inr big ↦ rw big (ground arith, ground arith)
]

-- The event of a timer: its name, its period and its timeout.
abbrev pub IsEvent : ℕ → ℕ → LuaValue → Type 0
IsEvent repeat timeout v =
    (a b : ℤ) × (v
      ≡ table
          (at_index 1 (text (bytes "timer")) (at_index 2 (int a) (at_index 3 (int b) no_fields))))
    × IsSigned repeat a
    × IsSigned timeout b

pub timer_fields-IsEvent :
    (repeat timeout : ℕ) → IsEvent repeat timeout (timer_fields repeat timeout)
timer_fields-IsEvent repeat timeout = (
  to_lua_integer repeat,
  to_lua_integer timeout,
  refl,
  to_lua_integer-IsSigned repeat,
  to_lua_integer-IsSigned timeout,
)

-- No Lua function touches the memory.
abbrev pub IsTame : Host → Type 0
IsTame H = (k : ℕ) (args : List LuaValue) (e : Env H.Reader) → (H.script k args e).memory ≡ e.memory

module _ (H : Host) where
  -- What is left of a call of one function, and of one for each callback, in order.
  abbrev pub called : Ref → List LuaValue → Env H.Reader → Env H.Reader
  called noref args e = record e { log = pcall_nil args ∷ e.log }
  called refnil args e = record e { log = pcall_nil args ∷ e.log }
  called (ref k) args e = H.script k args (record e { log = pcall k args ∷ e.log })

  -- What is left of a call that is made if there is a function.
  abbrev pub called_if : Ref → List LuaValue → Env H.Reader → Env H.Reader
  called_if noref args e = e
  called_if refnil args e = e
  called_if (ref k) args e = H.script k args (record e { log = pcall k args ∷ e.log })

  pub call_if-called :
      (r : Ref) (args : List LuaValue) (e : Env H.Reader)
      → call_if H r args e ≡ done tt (called_if r args e)
  unfolding call_if call
  call_if-called noref args e = refl
  call_if-called refnil args e = refl
  call_if-called (ref k) args e = refl

  abbrev pub called_all : LuaValue → List Callback → Env H.Reader → Env H.Reader
  called_all v [] e = e
  called_all v (k ∷ ks) e = called_all v ks (called k.ref (arguments v k) e)

  pub call-called :
      (r : Ref) (args : List LuaValue) (e : Env H.Reader)
      → call H r args e ≡ done tt (called r args e)
  unfolding call
  call-called noref args e = refl
  call-called refnil args e = refl
  call-called (ref k) args e = refl

  -- The tree of a kind of message.
  abbrev pub tree_for : Bool → Env H.Reader → Tree
  tree_for pvariant e = if pvariant then e.client.patterns else e.client.channels

  module _ (tame : IsTame H) where
    called-memory :
        (r : Ref) (args : List LuaValue) (e : Env H.Reader) → (called r args e).memory ≡ e.memory
    called-memory noref args e = refl
    called-memory refnil args e = refl
    called-memory (ref k) args e = tame k args _

    module _ (reply : Reply) (v : LuaValue) (is : push_sub_reply reply ≡ some v) where
      message_loop_step :
          (n : ℕ) (e : Env H.Reader) {p c q : Ptr} {k : Callback}
          → p ≢ null
          → e.memory.wrapper p ≡ some (record { cb = c; next = q })
          → c ≢ null
          → e.memory.callback c ≡ some k
          → message_loop H (suc n) reply p e
            ≡ message_loop H n reply q (called k.ref (arguments v k) e)
      unfolding message_loop call_with_reply load_wrapper load_callback
      message_loop_step n e {p} {c} {q} {k} ne w cne cb =
          let kept = called-memory k.ref (arguments v k) e in
          ground (arith, is, call-called k.ref (arguments v k) e)

      message_loop-calls :
          (n : ℕ) (e : Env H.Reader) {p : Ptr} {xs : Cells} (ks : List Callback)
          → Seg e.memory p xs
          → Holds e.memory xs ks
          → length xs < n
          → message_loop H n reply p e ≡ done tt (called_all v ks e)
      unfolding message_loop
      message_loop-calls zero e ks s h fuel = absurd (omega arith)
      message_loop-calls (suc n) e [] nil h fuel = refl
      message_loop-calls (suc n) e (k ∷ ks) nil h fuel = absurd h
      message_loop-calls (suc n) e [] (cons ne b w out s) h fuel = absurd h
      message_loop-calls (suc n) e (k ∷ ks) (cons {q} {xs} ne b w out s) (cne, cb, h) fuel =
          let e' : Env H.Reader = called k.ref (arguments v k) e in
          let kept : e'.memory ≡ e.memory = called-memory k.ref (arguments v k) e in
          message_loop_step n e ne w cne cb
          ∙ message_loop-calls n e' ks (subst (λ m. Seg m q xs) (sym kept) s)
              (subst (λ m. Holds m xs ks) (sym kept) h) (omega arith)

    module _ (repeat timeout : ℕ) where
      timer_loop_step :
          (n : ℕ) (e : Env H.Reader) {p c q : Ptr} {k : Callback}
          → p ≢ null
          → e.memory.wrapper p ≡ some (record { cb = c; next = q })
          → c ≢ null
          → e.memory.callback c ≡ some k
          → timer_loop H (suc n) repeat timeout p e
            ≡ timer_loop H n repeat timeout q
                (called k.ref (arguments (timer_fields repeat timeout) k) e)
      unfolding timer_loop load_wrapper load_callback
      timer_loop_step n e {k} ne w cne cb =
          let args = arguments (timer_fields repeat timeout) k in
          let kept = called-memory k.ref args e in ground (arith, call-called k.ref args e)

      timer_loop-calls :
          (n : ℕ) (e : Env H.Reader) {p : Ptr} {xs : Cells} (ks : List Callback)
          → Seg e.memory p xs
          → Holds e.memory xs ks
          → length xs < n
          → timer_loop H n repeat timeout p e
            ≡ done tt (called_all (timer_fields repeat timeout) ks e)
      unfolding timer_loop
      timer_loop-calls zero e ks s h fuel = absurd (omega arith)
      timer_loop-calls (suc n) e [] nil h fuel = refl
      timer_loop-calls (suc n) e (k ∷ ks) nil h fuel = absurd h
      timer_loop-calls (suc n) e [] (cons ne b w out s) h fuel = absurd h
      timer_loop-calls (suc n) e (k ∷ ks) (cons {q} {xs} ne b w out s) (cne, cb, h) fuel =
          let args = arguments (timer_fields repeat timeout) k in
          let e' : Env H.Reader = called k.ref args e in
          let kept : e'.memory ≡ e.memory = called-memory k.ref args e in
          timer_loop_step n e ne w cne cb
          ∙ timer_loop-calls n e' ks (subst (λ m. Seg m q xs) (sym kept) s)
              (subst (λ m. Holds m xs ks) (sym kept) h) (omega arith)

      on_timer-run :
          (n : ℕ) (e : Env H.Reader) (place : Place) (x : Node) (l : CallbackEnds) {xs : Cells}
          (ks : List Callback)
          → e.client.flags.disconnecting ≡ false
          → IsOrdered e.client.timers
          → node_at e.client.timers place ≡ some x
          → x.ikey ≡ repeat
          → x.cb_list ≡ some l
          → IsQueue e.memory l xs
          → Holds e.memory xs ks
          → length xs < n
          → on_timer H n repeat timeout e ≡ done tt (called_all (timer_fields repeat timeout) ks e)
      unfolding on_timer
      on_timer-run n e place x l ks on ordered at period listed q h fuel = ground (
        arith,
        (search_timer_iff e.client.timers repeat place e.memory ordered).1 (x, at, period),
        timer_loop-calls n e ks q.chain h fuel,
      )

      -- A timer that fires calls the functions of all callbacks that wait for its period, each once and
      -- in the order of subscription, with the name of the event, the period and the timeout as signed
      -- 64-bit numbers, if the client is not disconnecting, if its tree of timers is ordered and has the
      -- period, if the fuel exceeds the length of the list, and if no Lua function touches the memory. A
      -- callback that is not initialized gets a message instead.
      pub on_timer-calls :
          (n : ℕ) (e : Env H.Reader) (place : Place) (x : Node) (l : CallbackEnds) {xs : Cells}
          (ks : List Callback)
          → e.client.flags.disconnecting ≡ false
          → IsOrdered e.client.timers
          → node_at e.client.timers place ≡ some x
          → x.ikey ≡ repeat
          → x.cb_list ≡ some l
          → IsQueue e.memory l xs
          → Holds e.memory xs ks
          → length xs < n
          → (v : LuaValue) × IsEvent repeat timeout v
            × (on_timer H n repeat timeout e ≡ done tt (called_all v ks e))
      on_timer-calls n e place x l ks on ordered at period listed q h fuel = (
        timer_fields repeat timeout,
        timer_fields-IsEvent repeat timeout,
        on_timer-run n e place x l ks on ordered at period listed q h fuel,
      )

    deliver-calls :
        (n : ℕ) (reply : Reply) (v : LuaValue) (e : Env H.Reader) (pvariant : Bool)
        (kind sname : Bytes) (place : Place) (x : Node) (l : CallbackEnds) (y : Ptr × Ptr)
        {xs : Cells} (ks : List Callback)
        → push_sub_reply reply ≡ some v
        → is_eq (strcmp kind (bytes "subscribe")) ≡ false
        → search_key sname (tree_for pvariant e) e.memory ≡ ok place e.memory
        → node_at (tree_for pvariant e) place ≡ some x
        → x.cb_list ≡ some l
        → IsQueue e.memory l (y ∷ xs)
        → Holds e.memory (y ∷ xs) ks
        → suc (length xs) < n
        → deliver H n reply pvariant kind sname e ≡ done tt (called_all v ks e)
    unfolding deliver
    deliver-calls n reply v e true kind sname place x l y ks is message led at listed q h fuel =
        rw (deliver, led, at, listed, ==_ne _ _ (head_ne_null q.chain), message)
          (message_loop-calls reply v is n e ks q.chain h fuel)
    deliver-calls n reply v e false kind sname place x l y ks is message led at listed q h fuel =
        rw (deliver, led, at, listed, ==_ne _ _ (head_ne_null q.chain), message)
          (message_loop-calls reply v is n e ks q.chain h fuel)

    -- The same for any node that the name leads to.
    pub get_and_call_sub_cb-led :
        (n : ℕ) (stype sname : Bytes) (more : Replies) (v : LuaValue) (e : Env H.Reader)
        (place : Place) (x : Node) (l : CallbackEnds) (y : Ptr × Ptr) {xs : Cells}
        (ks : List Callback)
        → push_sub_reply (array (item (string stype) (item (string sname) more))) ≡ some v
        → is_eq (strcmp (kind_of stype) (bytes "unsubscribe")) ≡ false
        → is_eq (strcmp (kind_of stype) (bytes "subscribe")) ≡ false
        → search_key sname (tree_for (pvariant_of stype) e) e.memory ≡ ok place e.memory
        → node_at (tree_for (pvariant_of stype) e) place ≡ some x
        → x.cb_list ≡ some l
        → IsQueue e.memory l (y ∷ xs)
        → Holds e.memory (y ∷ xs) ks
        → suc (length xs) < n
        → get_and_call_sub_cb H n (array (item (string stype) (item (string sname) more))) e
          ≡ done tt (called_all v ks e)
    unfolding get_and_call_sub_cb
    get_and_call_sub_cb-led n stype sname more v e place x l y ks is leaves message led at listed q
          h fuel =
        rw (get_and_call_sub_cb, leaves)
          (deliver-calls n (array (item (string stype) (item (string sname) more))) v e
            (pvariant_of stype) (kind_of stype) sname place x l y ks is message led at listed q h
            fuel)
