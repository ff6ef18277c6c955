-- ===== src/Queue/Release.antt =====
-- `destroy_callback` and `destroy_wrapper` of src/cb.c, on a cell whose callback is whole.
use crazy_snail.Common.{
  ℕ, zero, suc, ◌+◌, ◌<◌, ◌≡◌, refl, sym, subst, ◌≢◌, Option, none, some, List, ◌∷◌, arith, ◌==◌,
  ==_iff, Bool-cases, inl, inr, if◌then◌else◌, pos, dec, is_one, get_elem?,
}
use crazy_snail.Memory.{
  Ptr, null, Channel, Callback, Wrapper, Memory, ok, update, load_callback, put_callback,
  load_wrapper, put_wrapper,
}
use crazy_snail.Callback.{destroy_channels, destroy_callback}
use crazy_snail.Queue.{destroy_wrapper}
use crazy_snail.Queue.Cells.{Cells, count, Whole, Attached, Counted}

destroy_channels-ok :
    (n i : ℕ) (chs : List (Option Channel)) (m : Memory)
    → ((j : ℕ) → j < i + n → (ch : Channel) × (get_elem? chs j ≡ some (some ch)))
    → destroy_channels n i chs m ≡ ok tt m
unfolding destroy_channels
destroy_channels-ok zero i chs m h = refl
destroy_channels-ok (suc n) i chs m h =
    let (ch, e) = h i (omega arith) in
    rw (e, destroy_channels) (destroy_channels-ok n (suc i) chs m (λ j lt. h j (omega arith)))

pub destroy_callback-ok :
    (p : Ptr) (k : Callback) (m : Memory)
    → p ≢ null
    → m.callback p ≡ some k
    → Whole k
    → destroy_callback p m ≡ ok tt (record m { callback = update m.callback p none })
unfolding destroy_callback load_callback put_callback
destroy_callback-ok p k m ne e h =
    ground (arith, destroy_channels-ok k.nb_channel 0 k.channels m (λ j lt. h j (omega arith)))

-- What is left of a callback when one of its cells goes.
abbrev pub released : Callback → Option Callback
released k = if is_one k.attach then none else some (record k { attach = dec k.attach })

-- The memory once the cell `p` of the callback `c` is gone.
abbrev pub without : Memory → (p c : Ptr) → Callback → Memory
without m p c k = record m {
  callback = update m.callback c (released k);
  wrapper = update m.wrapper p none;
}

pub destroy_wrapper-ok :
    (p : Ptr) (w : Wrapper) (k : Callback) (m : Memory)
    → p ≢ null
    → m.wrapper p ≡ some w
    → w.cb ≢ null
    → m.callback w.cb ≡ some k
    → Whole k
    → destroy_wrapper p m ≡ ok tt (without m p w.cb k)
unfolding destroy_wrapper load_wrapper put_wrapper load_callback put_callback
destroy_wrapper-ok p w k m ne e cne ce h = ground (arith, destroy_callback-ok w.cb k m cne ce h)

-- The count that a callback is left with decides its fate.
released_lem :
    (k : Callback) (n : ℕ)
    → k.attach ≡ pos (suc n)
    → released k ≡ (if n == 0 then none else some (record k { attach = pos n }))
released_lem k zero e = rw e
released_lem k (suc n) e = rw e (ground arith)

-- One cell less keeps all counts right.
pub Counted-release :
    {m : Memory} {c : Ptr} (p : Ptr) (zs : Cells) (att : Attached m c (suc (count c zs)))
    → (m' : Memory) → m'.callback ≡ update m.callback c (released att.at)
    → Counted m ((p, c) ∷ zs)
    → Counted m' zs
Counted-release {m} {c} p zs att m' e all a some_cells = elim (Bool-cases (a == c)) [
  | inl same ↦
      let here : a ≡ c = (==_iff a c).0 same in
      let more : 0 < count c zs = subst (λ x. 0 < count x zs) here some_cells in
      subst (λ x. Attached m' x (count x zs)) (sym here)
        (record {
          at = record att.at { attach = pos (count c zs) };
          there = rw e (ground (arith, released_lem att.at (count c zs) att.attached));
          attached = refl;
          whole = att.whole;
          ne_null = att.ne_null;
        })
  | inr other ↦
      let kept : count a ((p, c) ∷ zs) ≡ count a zs = ground arith in
      let old : Attached m a (count a zs) = subst (Attached m a) kept (all a (omega arith)) in
      record {
        at = old.at;
        there = rw (e, other) old.there;
        attached = old.attached;
        whole = old.whole;
        ne_null = old.ne_null;
      }
]

-- The callback goes with its last cell.
pub gone_with_last :
    {m : Memory} {c : Ptr} {n : ℕ} (att : Attached m c (suc n)) → n ≡ 0 → released att.at ≡ none
gone_with_last {n} att e = rw (released_lem att.at n att.attached, e)
