-- ===== src/Client/Underway.antt =====
-- The state of the loops of `lua_client_command` of src/crazysnail.c over the channels and timers of a
-- subscription.
use crazy_snail.Common.{
  ℕ, ◌+◌, ◌≡◌, ◌≢◌, refl, ap, ◌∙◌, ◌<◌, ◌≤◌, true, false, Option, some, List, [], ◌∷◌, ◌++◌, arith,
  ◌==◌, if◌then◌else◌, length,
}
use mathlib.Core.Option
use crazy_snail.Memory.{Ptr, null, Ref, Channel, Callback, CallbackEnds, Memory, update}
use crazy_snail.Queue.Cells.{Cells, has, count, count-append, AttachedBy, CountedBy, Counted-same}
use crazy_snail.Tree.{Tree, Place}
use crazy_snail.Tree.Destroy.{Apart, Forest, frame_Forest}
use crazy_snail.Tree.Refill.{relisted}
use crazy_snail.Tree.Orders.{Order}
use crazy_snail.Tree.Growth.{Inserted}
use crazy_snail.Client.Answers.{IsFresh}
use crazy_snail.Client.Building.{Building, with_channel, Attached-channel, Counted-channel}
use crazy_snail.Client.Placing.{Placed}
use crazy_snail.Client.Filed.{IsFiled, IsFiled-same}

-- The callback `p` has the channels `chs` of `total`; the tree has the cells `xs`, and other lists
-- have the cells `ys`.
pub record Underway {K : Type 0} (O : Order K) (m : Memory) (t : Tree) (xs ys : Cells) (p : Ptr)
    (chs : List Channel) (total : ℕ) : Type 0 where
  pub forest : Forest m t xs
  pub sound : O.Sound t
  pub apart : Apart xs ys
  pub counted : CountedBy (Building p chs total) m (xs ++ ys)
  pub attached : AttachedBy (Building p chs total) m p (count p (xs ++ ys))
  pub fresh : IsFresh m (xs ++ ys)
  pub below : p < m.next
  pub ne_null : m.next ≢ null
  pub room : (a : Ptr) → m.oom a ≡ false

-- The function of the callback at an address.
abbrev pub ref_at : Memory → Ptr → Option Ref
ref_at m p = Option.map (λ k. k.ref) (m.callback p)

-- What changes: `p` has `n` cells more, and the other lists, callbacks and names keep theirs.
pub record Kept {K : Type 0} (O : Order K) (m : Memory) (t : Tree) (xs ys : Cells) (p : Ptr) (n : ℕ)
    (m' : Memory) (t' : Tree) (xs' : Cells) : Type 0 where
  pub more : (c : Ptr) → count c xs' ≡ count c xs + (if c == p then n else 0)
  pub grown : m.next ≤ m'.next
  pub spared : (a : Ptr) → has a ys ≡ true → m'.wrapper a ≡ m.wrapper a
  pub others : (c : Ptr) → c ≢ p → m'.callback c ≡ m.callback c
  pub requests : m'.requests ≡ m.requests
  pub function : ref_at m' p ≡ ref_at m p
  pub filed : (name : K) (q : Ptr) → IsFiled O m t name q → IsFiled O m' t' name q

-- The memory when the channel has been made, with the next address `n`.
abbrev pub channeled : Memory → Ptr → Ptr → ℕ → Channel → Callback → Memory
channeled m n p i ch k = record m {
  next = n;
  callback = update m.callback p (some (with_channel k i ch));
}

pub Kept-refl :
    {K : Type 0} {O : Order K} {m m' : Memory} {t : Tree} {xs ys : Cells} {p : Ptr}
    → m.next ≤ m'.next
    → m'.wrapper ≡ m.wrapper
    → ((c : Ptr) → c ≢ p → m'.callback c ≡ m.callback c)
    → m'.requests ≡ m.requests
    → ref_at m' p ≡ ref_at m p
    → Kept O m t xs ys p 0 m' t xs
Kept-refl later same others requests function = record {
  more = λ c. ground arith;
  grown = later;
  spared = λ a i. ap (λ w. w a) same;
  others = others;
  requests = requests;
  function = function;
  filed = λ name q f. IsFiled-same later same f;
}

pub Kept-trans :
    {K : Type 0} {O : Order K} {m m1 m2 : Memory} {t t1 t2 : Tree} {xs xs1 xs2 ys : Cells} {p : Ptr}
    {n k : ℕ}
    → Kept O m t xs ys p n m1 t1 xs1
    → Kept O m1 t1 xs1 ys p k m2 t2 xs2
    → Kept O m t xs ys p (n + k) m2 t2 xs2
Kept-trans {p} {n} {k} i j = record {
  more = λ c. ground (arith, i.more c, j.more c);
  grown = omega (arith, i.grown, j.grown);
  spared = λ a h. j.spared a h ∙ i.spared a h;
  others = λ c ne. j.others c ne ∙ i.others c ne;
  requests = j.requests ∙ i.requests;
  function = j.function ∙ i.function;
  filed = λ name q f. j.filed name q (i.filed name q f);
}

module _ {K : Type 0} {O : Order K} {m : Memory} {t : Tree} {xs ys : Cells} {p : Ptr}
    {chs : List Channel} {total : ℕ} where
  -- The new channel is in the callback.
  pub Underway-channel :
      (ch : Channel) (n : Ptr)
      → m.next ≤ n
      → length chs < total
      → (u : Underway O m t xs ys p chs total)
      → Underway O (channeled m n p (length chs) ch u.attached.at) t xs ys p (chs ++ ch ∷ []) total
  Underway-channel ch n later h u = record {
    forest = frame_Forest u.forest later (λ a i. refl);
    sound = u.sound;
    apart = u.apart;
    counted = Counted-channel p chs ch total (xs ++ ys) h u.attached refl u.counted;
    attached = Attached-channel p chs ch total h u.attached refl;
    fresh = λ a i. u.fresh a (omega arith);
    below = omega (arith, u.below);
    ne_null = ground (arith, u.ne_null, later);
    room = u.room;
  }

  pub Underway-Inserted :
      {key : K} {t' : Tree} {leaf : Place} {k : Ptr}
      → Underway O m t xs ys p chs total
      → Inserted O m t key xs t' leaf k
      → Underway O (record m { next = k }) t' xs ys p chs total
  Underway-Inserted {k} u d =
      let grown : m.next ≤ k = d.grown in
      record {
        forest = d.forest;
        sound = d.sound;
        apart = u.apart;
        counted = Counted-same (xs ++ ys) refl u.counted;
        attached = record {
          at = u.attached.at;
          there = u.attached.there;
          attached = u.attached.attached;
          whole = u.attached.whole;
          ne_null = u.attached.ne_null;
        };
        fresh = λ a i. u.fresh a (omega (arith, grown));
        below = omega (arith, u.below, grown);
        ne_null = ground (arith, u.ne_null, grown);
        room = u.room;
      }

  pub Underway-Placed :
      {zs : Cells} {place : Place} {l' : CallbackEnds} {m' : Memory}
      → Underway O m t xs ys p chs total
      → (d : Placed (Building p chs total) m t place xs ys zs p l' m')
      → Underway O m' (relisted t place l') d.cells ys p chs total
  Underway-Placed {place} {l'} u d = record {
    forest = d.forest;
    sound = O.Sound-relisted l' t place u.sound;
    apart = d.apart;
    counted = d.counted;
    attached = d.counted p (ground (arith, d.more p, count-append p d.cells ys));
    fresh = d.fresh;
    below = omega (arith, u.below, d.next);
    ne_null = ground (arith, d.next);
    room = λ a. ap (λ f. f a) d.oom ∙ u.room a;
  }
