-- ===== src/Client/Filing.antt =====
-- `lua_client_command` of src/crazysnail.c files a callback under a channel or a timer.
use crazy_snail.Common.{suc, ◌≡◌, refl, ◌≢◌, false, some, [], ◌∷◌, ◌++◌, arith}
use crazy_snail.Memory.{Ptr, null, Callback, CallbackEnds, Memory, ok, update}
use crazy_snail.Memory.Returns.{ending}
use crazy_snail.Queue.{push_cb}
use crazy_snail.Queue.Cells.{
  Cells, has-append, count, frame, IsQueue, AttachedBy, CountedBy, Attached, Counted, Counted-same,
  gained,
}
use crazy_snail.Queue.Push.{LooseBy, PushedBy, push_cb-By}
use crazy_snail.Tree.{Node, Tree, Place, node_at}
use crazy_snail.Tree.Refill.{relisted}
use crazy_snail.Client.{Env, Host, done}
use crazy_snail.Client.Answers.{IsFresh, wrap_cb-ok}
use crazy_snail.Client.Command.{file_at}

-- The memory with a new cell that holds `p`.
abbrev pub celled : Memory → Ptr → Memory
celled m p = record m {
  next = suc m.next;
  wrapper = update m.wrapper m.next (some (record { cb = p; next = null }));
}

module _ (m : Memory) (p : Ptr) (xs ys : Cells) (fresh : IsFresh m (xs ++ ys)) where
  celled-IsQueue : {l : CallbackEnds} → IsQueue m l xs → IsQueue (celled m p) l xs
  celled-IsQueue q = record {
    chain = frame q.chain (omega arith) λ a i. ground (arith, fresh a, has-append a xs ys);
    end = q.end;
  }

  celled-LooseBy :
      {W : Ptr → Callback → Type 0}
      → m.next ≢ null
      → AttachedBy W m p (count p (xs ++ ys))
      → LooseBy W (celled m p) m.next p (xs ++ ys)
  celled-LooseBy ne att = record {
    ne_null = ne;
    made = omega arith;
    holds = ground arith;
    apart = (fresh m.next (omega arith)).0;
    attached = record {
      at = att.at;
      there = att.there;
      attached = att.attached;
      whole = att.whole;
      ne_null = att.ne_null;
    };
  }

module _ (H : Host) (e : Env H.Reader) where
  file_at_run :
      (t : Tree) (place : Place) (n : Node) (l : CallbackEnds) (p : Ptr) {l' : CallbackEnds}
      {m' : Memory}
      → p ≢ null
      → e.memory.next ≢ null
      → ((a : Ptr) → e.memory.oom a ≡ false)
      → node_at t place ≡ some n
      → n.cb_list ≡ some l
      → push_cb (some l) e.memory.next (celled e.memory p) ≡ ok l' m'
      → file_at H t (some place) p e ≡ done (relisted t place l') (record e { memory = m' })
  unfolding file_at
  file_at_run t place n l p pne ne room at listed run =
      rw (file_at, wrap_cb-ok e.memory p pne ne room, at, listed, run) refl

  -- The same for any property of callbacks that a further reference keeps.
  pub file_at-By :
      {W : Ptr → Callback → Type 0} (keep : (a : Ptr) (k : Callback) → W a k → W a (gained k))
      (t : Tree) (place : Place) (n : Node) (l : CallbackEnds) (p : Ptr) (xs ys : Cells)
      → node_at t place ≡ some n
      → n.cb_list ≡ some l
      → IsQueue e.memory l xs
      → CountedBy W e.memory (xs ++ ys)
      → AttachedBy W e.memory p (count p (xs ++ ys))
      → IsFresh e.memory (xs ++ ys)
      → e.memory.next ≢ null
      → ((a : Ptr) → e.memory.oom a ≡ false)
      → (l' : CallbackEnds) × (m' : Memory) × (file_at H t (some place) p e
          ≡ done (relisted t place l') (record e { memory = m' }))
        × PushedBy W (celled e.memory p) xs ys (e.memory.next, p) l' m'
  file_at-By keep t place n l p xs ys at listed q all att fresh ne room =
      ending
        (push_cb-By keep l xs ys (celled-IsQueue e.memory p xs ys fresh q)
          (Counted-same (xs ++ ys) refl all) (celled-LooseBy e.memory p xs ys fresh ne att))
        λ l' m' run pushed.
          (l', m', file_at_run t place n l p att.ne_null ne room at listed run, pushed)

  -- If `malloc` refuses nothing, a callback is filed behind all others of the list at the place, in a
  -- new cell, and the reference counts of all lists stay right, provided that the list is well-formed
  -- and that no list has an address that was not given out.
  pub file_at-IsQueue :
      (t : Tree) (place : Place) (n : Node) (l : CallbackEnds) (p : Ptr) (xs ys : Cells)
      → node_at t place ≡ some n
      → n.cb_list ≡ some l
      → IsQueue e.memory l xs
      → Counted e.memory (xs ++ ys)
      → Attached e.memory p (count p (xs ++ ys))
      → IsFresh e.memory (xs ++ ys)
      → e.memory.next ≢ null
      → ((a : Ptr) → e.memory.oom a ≡ false)
      → (l' : CallbackEnds) × (m' : Memory) × (s : Ptr) × (file_at H t (some place) p e
          ≡ done (relisted t place l') (record e { memory = m' }))
        × IsQueue m' l' (xs ++ (s, p) ∷ [])
        × Counted m' ((xs ++ (s, p) ∷ []) ++ ys)
  file_at-IsQueue t place n l p xs ys at listed q all att fresh ne room =
      let (l', m', run, (q', all', _, _, _)) =
        file_at-By (λ a k w. w) t place n l p xs ys at listed q all att fresh ne room in
      (l', m', e.memory.next, run, q', all')
