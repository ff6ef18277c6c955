-- ===== src/Client/Replies.antt =====
-- The loop of `on_read` in src/crazysnail.c over the replies of a whole read.
use crazy_snail.Common.{
  ℕ, zero, suc, ◌≡◌, ◌⊎◌, refl, ap, ◌∙◌, ◌<◌, ◌≢◌, false, Option, none, some, List, [], ◌∷◌, ◌++◌,
  arith, inl, inr, length, pos,
}
use crazy_snail.Memory.{Ptr, Ref, noref, refnil, ref, Callback, Memory}
use crazy_snail.Queue.Cells.{Cells, count}
use crazy_snail.Reply.{Reply, LuaValue, lua_nil, push_reply}
use crazy_snail.Client.{Effect, pcall, unref, Env, Host, done}
use crazy_snail.Client.Read.{answer, read_loop, stopped}
use crazy_snail.Client.Answers.{IsWaiting, queued, answered, answer-IsWaiting}

-- The replies that the reader has, in order, and the reader after them.
pub data Yields (H : Host) : H.Reader → List Reply → H.Reader → Type 0 where
  nothing : {a b : H.Reader} → H.get_reply a ≡ (pos 0, none, b) → Yields H a [] b
  more :
      {a b c : H.Reader} {r : Reply} {rs : List Reply}
      → H.get_reply a ≡ (pos 0, some r, b)
      → Yields H b rs c
      → Yields H a (r ∷ rs) c

-- A command with its cell, the address of its callback and the callback, and the reply to it with what
-- Lua gets of it.
pub record Exchange : Type 0 where
  pub cell : Ptr
  pub at : Ptr
  pub callback : Callback
  pub reply : Reply
  pub value : LuaValue

abbrev pub cells_of : List Exchange → Cells
cells_of [] = []
cells_of (x ∷ xs) = (x.cell, x.at) ∷ cells_of xs

abbrev pub replies_of : List Exchange → List Reply
replies_of [] = []
replies_of (x ∷ xs) = x.reply ∷ replies_of xs

-- The callbacks are there, each with one cell, and the replies can be converted.
abbrev pub Matched : Memory → List Exchange → Type 0
Matched m [] = Unit {0}
Matched m (x ∷ xs) =
    (m.callback x.at ≡ some x.callback)
    × (count x.at (cells_of xs) ≡ 0)
    × (push_reply x.reply ≡ some x.value)
    × Matched m xs

-- What is asked of Lua for one command, and for all, the newest first.
abbrev pub exchanged : Exchange → List Effect → List Effect
exchanged x log = elim x.callback.ref [
  | ref f ↦ pcall f (lua_nil ∷ x.value ∷ []) ∷ unref f ∷ log
  | _ ↦ log
]

abbrev pub all_exchanged : List Exchange → List Effect → List Effect
all_exchanged [] log = log
all_exchanged (x ∷ xs) log = all_exchanged xs (exchanged x log)

pub Ref-cases : (r : Ref) → ((f : ℕ) × (r ≡ ref f)) ⊎ ((r ≡ noref) ⊎ (r ≡ refnil))
Ref-cases noref = inr (inl refl)
Ref-cases refnil = inr (inr refl)
Ref-cases (ref f) = inl (f, refl)

-- No Lua function calls back into the client.
abbrev pub IsPassive : Host → Type 0
IsPassive H = (k : ℕ) (args : List LuaValue) (e : Env H.Reader) → H.script k args e ≡ e

module _ (H : Host) where
  abbrev pub with_reader : H.Reader → Env H.Reader → Env H.Reader
  with_reader rd e = record e { client = record e.client { reader = rd } }

  read_stop :
      (n : ℕ) (cb : Option Callback) (e : Env H.Reader) (rd : H.Reader)
      → H.get_reply e.client.reader ≡ (pos 0, none, rd)
      → e.client.flags.disconnecting ≡ false
      → e.client.flags.monitoring ≡ false
      → read_loop H (suc n) false cb e ≡ done (stopped (pos 0)) (with_reader rd e)
  unfolding read_loop
  read_stop n cb e rd none_left on quiet = ground (arith, none_left)

  read_step :
      (n : ℕ) (cb cb' : Option Callback) (e e' : Env H.Reader) (rd : H.Reader) (r : Reply)
      → H.get_reply e.client.reader ≡ (pos 0, some r, rd)
      → answer H r cb (with_reader rd e) ≡ done cb' e'
      → read_loop H (suc n) false cb e ≡ read_loop H n false cb' e'
  unfolding read_loop
  read_step n cb cb' e e' rd r one_more run = rw (read_loop, one_more, run) refl

  answered-exchanged :
      (x : Exchange) (e : Env H.Reader)
      → IsPassive H
      → answered H x.value x.callback e
        ≡ done (some x.callback) (record e { log = exchanged x e.log })
  answered-exchanged x e passive = elim (Ref-cases x.callback.ref) [
    | inl (f, is) ↦
        let ran =
          passive f (lua_nil ∷ x.value ∷ [])
            (record e { log = pcall f (lua_nil ∷ x.value ∷ []) ∷ unref f ∷ e.log }) in
        ground (arith, ran)
    | inr (inl is) ↦ ground arith
    | inr (inr is) ↦ ground arith
  ]

  keep_Matched :
      (m m' : Memory) (c : Ptr) (xs : List Exchange)
      → ((d : Ptr) → d ≢ c → m'.callback d ≡ m.callback d)
      → count c (cells_of xs) ≡ 0
      → Matched m xs
      → Matched m' xs
  keep_Matched m m' c [] others z h = tt
  keep_Matched m m' c (x ∷ xs) others z (at, own, is, h) =
      (others x.at (ground arith) ∙ at, own, is, keep_Matched m m' c xs others (omega arith) h)

  -- A read of exactly the replies to the commands that wait longest, on a well-formed queue with right
  -- reference counts, outside of monitor mode and while the client is not disconnecting: the loop ends
  -- within its fuel, if that exceeds the number of replies, and has given each reply, in order, to the
  -- function of its own command, once and with its reference given back. The other commands still wait.
  -- The commands have callbacks of their own, their replies can be converted, and no Lua function calls
  -- back into the client.
  pub read_loop-answers :
      (n : ℕ) (xs : List Exchange) (more_cells ys : Cells) (cb : Option Callback) (e : Env H.Reader)
      {a b : H.Reader}
      → IsPassive H
      → e.client.flags.disconnecting ≡ false
      → e.client.flags.monitoring ≡ false
      → e.client.reader ≡ a
      → Yields H a (replies_of xs) b
      → IsWaiting e (cells_of xs ++ more_cells) ys
      → Matched e.memory xs
      → length xs < n
      → (e' : Env H.Reader) × (read_loop H n false cb e ≡ done (stopped (pos 0)) e')
        × IsWaiting e' more_cells ys
        × (e'.log ≡ all_exchanged xs e.log)
        × (e'.client.reader ≡ b)
  read_loop-answers zero xs more_cells ys cb e passive on quiet rd y w h fuel = absurd (omega arith)
  read_loop-answers (suc n) [] more_cells ys cb e passive on quiet rd (nothing {b} left) w h fuel =
      (
        with_reader b e,
        read_stop n cb e b (ap H.get_reply rd ∙ left) on quiet,
        record { queue = w.queue; counted = w.counted },
        refl,
        refl,
      )
  read_loop-answers (suc n) (x ∷ xs) more_cells ys cb e passive on quiet rd (more {b} one y) w
        (at, own, is, h) fuel =
      let (l, m, run, w2, freed, others) =
        answer-IsWaiting H (with_reader b e) x.reply x.value cb x.cell x.at x.callback
          (cells_of xs ++ more_cells) ys is (record { queue = w.queue; counted = w.counted }) at in
      let e2 : Env H.Reader = record (queued H (with_reader b e) l m) { log = exchanged x e.log } in
      let (e', runs, w', log, reader) =
        read_loop-answers n xs more_cells ys (some x.callback) e2 passive on quiet refl y
          (record { queue = w2.queue; counted = w2.counted })
          (keep_Matched e.memory m x.at xs others own h) (omega arith) in
      (
        e',
        read_step n cb (some x.callback) e e2 b x.reply (ap H.get_reply rd ∙ one)
              (run ∙ answered-exchanged x (queued H (with_reader b e) l m) passive)
            ∙ runs,
        w',
        log,
        reader,
      )
