-- ===== src/Client/Start.antt =====
-- A subscription of src/crazysnail.c starts with a callback that has no channels yet.
use crazy_snail.Common.{
  ℕ, suc, ◌≡◌, ◌≢◌, refl, sym, ap, false, none, some, List, [], ◌++◌, arith, length,
  length-replicate, replicate, pos, subst,
}
use crazy_snail.Memory.{
  Ptr, null, Ref, Channel, Callback, Memory, ok, malloc, update, bit, put_callback,
}
use crazy_snail.Callback.{create_callback, snail_ok}
use crazy_snail.Queue.Cells.{Cells, Counted, CountedBy}
use crazy_snail.Tree.{Tree}
use crazy_snail.Tree.Destroy.{Apart, Forest, frame_Forest}
use crazy_snail.Tree.Orders.{Order}
use crazy_snail.Client.Answers.{IsFresh}
use crazy_snail.Client.Building.{Building, Building-Whole}
use crazy_snail.Client.Underway.{Underway}

-- The callback for `n` channels, and the memory with it.
abbrev pub blank : Memory → Ref → ℕ → Callback
blank m r n = record {
  ref = r;
  initialized = bit 0 (m.junk m.next 1);
  nb_channel = n;
  attach = pos 0;
  channels = replicate n none;
}

abbrev pub created : Memory → Ref → ℕ → Memory
created m r n = record m {
  next = suc (suc m.next);
  callback =
      update (update m.callback m.next (some (record (blank m r n) { channels = [] }))) m.next
        (some (blank m r n));
}

pub create_callback-created :
    (m : Memory) (r : Ref) (n : ℕ)
    → m.next ≢ null
    → ((p : Ptr) → m.oom p ≡ false)
    → create_callback null r n m ≡ ok (snail_ok, m.next) (created m r n)
unfolding create_callback malloc put_callback
create_callback-created m r n ne room = ground (arith, room m.next, room (suc m.next))

pub Underway-start :
    {K : Type 0} (O : Order K) {m : Memory} {t : Tree} {xs : Cells} (ys : Cells) (r : Ref) (n : ℕ)
    → Forest m t xs
    → O.Sound t
    → Apart xs ys
    → Counted m (xs ++ ys)
    → IsFresh m (xs ++ ys)
    → m.next ≢ null
    → ((a : Ptr) → m.oom a ≡ false)
    → Underway O (created m r n) t xs ys m.next [] n
Underway-start O {m} {xs} ys r n f sound apart all fresh ne room = record {
  forest = frame_Forest f (omega arith) (λ a i. refl);
  sound = sound;
  apart = apart;
  counted = λ c some_cells.
      let old = all c some_cells in
      let elsewhere : c ≢ m.next = λ e. ground (arith, fresh c) in
      record {
        at = old.at;
        there = ground (arith, old.there);
        attached = old.attached;
        whole = ((λ _. old.whole), λ s. absurd (elsewhere s));
        ne_null = old.ne_null;
      };
  attached = record {
    at = blank m r n;
    there = ground arith;
    attached = ap pos (sym ((fresh m.next (omega arith)).1));
    whole = (
      (λ other. absurd (other refl)),
      λ _. record { number = refl; room = length-replicate n none; channels = λ j ch e. cc },
    );
    ne_null = ne;
  };
  fresh = λ a h. fresh a (omega arith);
  below = omega arith;
  ne_null = ground arith;
  room = room;
}

-- When all channels are there, the counts are right as everywhere else.
pub Counted-built :
    {m : Memory} {p : Ptr} {chs : List Channel} {total : ℕ} (xs : Cells)
    → total ≡ length chs
    → CountedBy (Building p chs total) m xs
    → Counted m xs
Counted-built {p} {chs} {total} xs e all c some_cells =
    let x = all c some_cells in
    record {
      at = x.at;
      there = x.there;
      attached = x.attached;
      whole = Building-Whole p chs c x.at (subst (λ n. Building p chs n c x.at) e x.whole);
      ne_null = x.ne_null;
    }
