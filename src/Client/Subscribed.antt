-- ===== src/Client/Subscribed.antt =====
-- One channel or pattern of a subscription in `lua_client_command` of src/crazysnail.c.
use crazy_snail.Common.{
  ℕ, suc, ◌≡◌, ◌≢◌, refl, ◌<◌, Bool, true, false, Option, some, List, arith, length,
}
use crazy_snail.Text.{Bytes}
use crazy_snail.Memory.{Ptr, null, Channel, Callback, Memory, ok}
use crazy_snail.Callback.{snail_ok}
use crazy_snail.Queue.Cells.{Cells}
use crazy_snail.Tree.{Tree, Place, insert}
use crazy_snail.Tree.Refill.{relisted}
use crazy_snail.Tree.Orders.{name_order}
use crazy_snail.Tree.Growth.{insert-Inserted}
use crazy_snail.Client.{Client, Env, Host, done}
use crazy_snail.Client.Command.{file_at, subscribe_one}
use crazy_snail.Client.Building.{new_channel, create_channel-ok, set_channel-ok}
use crazy_snail.Client.Step.{Stepped, Stepped-Placed, file_at-Underway}
use crazy_snail.Client.Underway.{Underway, channeled, Underway-channel, Underway-Inserted}

-- The tree of a kind of subscription, and the client with another.
abbrev pub tree_of : {R : Type 0} → (pvariant : Bool) → Client R → Tree
tree_of true cc = cc.patterns
tree_of false cc = cc.channels

abbrev pub with_tree : {R : Type 0} → (pvariant : Bool) → Client R → Tree → Client R
with_tree true cc t = record cc { patterns = t }
with_tree false cc t = record cc { channels = t }

module _ (H : Host) (e : Env H.Reader) (pvariant : Bool) where
  -- The client with a tree and a memory.
  abbrev pub grown : Tree → Memory → Env H.Reader
  grown t m = record e { client = with_tree pvariant e.client t; memory = m }

-- Two blocks later.
abbrev made : {R : Type 0} → Env R → Env R
made e = record e { memory = record e.memory { next = suc (suc e.memory.next) } }

module _ (H : Host) (e : Env H.Reader) where
  pub subscribe_one-run :
      (pvariant : Bool) (p : Ptr) (i : ℕ) (name : Bytes) (k : Callback) {t t' : Tree}
      {leaf : Option Place} {m m' : Memory}
      → e.memory.next ≢ null
      → ((a : Ptr) → e.memory.oom a ≡ false)
      → p ≢ null
      → e.memory.callback p ≡ some k
      → insert
          (tree_of pvariant e.client)
          name
          (channeled e.memory (suc (suc e.memory.next)) p i (new_channel name) k)
        ≡ ok (snail_ok, t, leaf) m
      → file_at H t leaf p (grown H e pvariant t m) ≡ done t' (grown H e pvariant t m')
      → subscribe_one H pvariant p i name e ≡ done tt (grown H e pvariant t' m')
  unfolding subscribe_one
  subscribe_one-run true p i name k ne room pne there inserted filed =
      rw
        (
          subscribe_one,
          create_channel-ok e.memory name ne room,
          set_channel-ok H (made e) p i (new_channel name) k pne there,
          inserted,
          filed,
        )
        refl
  subscribe_one-run false p i name k ne room pne there inserted filed =
      rw
        (
          subscribe_one,
          create_channel-ok e.memory name ne room,
          set_channel-ok H (made e) p i (new_channel name) k pne there,
          inserted,
          filed,
        )
        refl

module _ (H : Host) (e : Env H.Reader) (pvariant : Bool) {xs ys : Cells} {p : Ptr}
    {chs : List Channel} {total : ℕ} (name : Bytes)
    (u : Underway name_order e.memory (tree_of pvariant e.client) xs ys p chs total)
    (h : length chs < total) where
  -- One channel or pattern.
  pub subscribe_one-Stepped :
      (t' : Tree) × (m' : Memory) × (xs' : Cells) × (subscribe_one H pvariant p (length chs) name e
        ≡ done tt (grown H e pvariant t' m'))
      × Stepped name_order e.memory
          (tree_of pvariant e.client)
          xs
          ys
          p
          chs
          total
          (new_channel name)
          name
          m'
          t'
          xs'
  subscribe_one-Stepped =
      let n : Ptr = suc (suc e.memory.next) in
      let m1 : Memory = channeled e.memory n p (length chs) (new_channel name) u.attached.at in
      let u1 = Underway-channel (new_channel name) n (omega arith) h u in
      let (t', leaf, k, run, ins) = insert-Inserted name u1.forest u1.sound u1.ne_null u1.room in
      let (l', m', filed, d) =
        file_at-Underway H (grown H e pvariant t' m1) ins (Underway-Inserted u1 ins) in
      (
        relisted t' leaf l',
        m',
        d.cells,
        subscribe_one-run H e pvariant p (length chs) name u.attached.at u.ne_null u.room
            u.attached.ne_null u.attached.there run filed,
        Stepped-Placed name_order (new_channel name) n (omega arith) h name u ins d,
      )
