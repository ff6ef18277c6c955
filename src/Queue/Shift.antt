-- ===== src/Queue/Shift.antt =====
-- `shift_cb` of src/cb.c.
use crazy_snail.Common.{
  ◌≢◌, suc, ◌≡◌, refl, sym, subst, false, Option, none, some, [], ◌∷◌, ◌++◌, arith, ◌==◌,
  if◌then◌else◌, ℤ,
}
use crazy_snail.Memory.{Ptr, null, Callback, CallbackEnds, Memory, ok, load_callback, load_wrapper}
use crazy_snail.Memory.Returns.{Returns, returns}
use crazy_snail.Callback.{snail_ok, snail_err}
use crazy_snail.Queue.{shift_cb}
use crazy_snail.Queue.Cells.{
  Cells, has, count, Seg, cons, last, frame, eq_of_nil, has-last, IsQueue, Attached, Counted,
  SameOutside, SamePools,
}
use crazy_snail.Queue.Release.{without, destroy_wrapper-ok, Counted-release, gone_with_last}

-- The list loses its first cell `(p, c)`. The caller gets a copy of the callback as it was, which is
-- gone if no other cell holds it.
pub record Shifted (m : Memory) (p c : Ptr) (xs ys : Cells) (r : ℤ × CallbackEnds × Option Callback)
    (m' : Memory) : Type 0 where
  pub status : r.0 ≡ snail_ok
  pub rest : IsQueue m' r.1 xs
  pub copy : r.2 ≡ m.callback c
  pub counted : Counted m' (xs ++ ys)
  pub freed : m'.wrapper p ≡ none
  pub gone : count c (xs ++ ys) ≡ 0 → m'.callback c ≡ none
  pub others : (d : Ptr) → d ≢ c → m'.callback d ≡ m.callback d
  pub same : SameOutside ((p, c) ∷ []) m m'
  pub pools : SamePools m m'

tail_of :
    (p c : Ptr) (xs : Cells)
    → has p xs ≡ false
    → (if p == last ((p, c) ∷ xs) then null else last ((p, c) ∷ xs)) ≡ last xs
tail_of p c [] out = ground arith
tail_of p c (x ∷ xs) out = ground (arith, has-last x xs)

shift_Seg :
    {m : Memory} {h t p c : Ptr} {xs : Cells} (ys : Cells)
    → Seg m h ((p, c) ∷ xs)
    → t ≡ last ((p, c) ∷ xs)
    → Counted m (((p, c) ∷ xs) ++ ys)
    → Returns (Shifted m p c xs ys) (shift_cb (record { head = h; tail = t }) m)
unfolding shift_cb load_wrapper load_callback
shift_Seg {m} {t} ys (cons {p} {c} {q} {xs} ne b e out s) te all =
    let here : count c (((p, c) ∷ xs) ++ ys) ≡ suc (count c (xs ++ ys)) = ground arith in
    let att : Attached m c (suc (count c (xs ++ ys))) =
      subst (Attached m c) here (all c (omega arith)) in
    let m' : Memory = without m p c att.at in
    let run : shift_cb (record { head = p; tail = t }) m
        ≡ ok (snail_ok, record { head = q; tail = if p == t then null else t }, some att.at) m' =
      ground (
        arith,
        att.there,
        att.ne_null,
        destroy_wrapper-ok p (record { cb = c; next = q }) att.at m ne e att.ne_null att.there
            att.whole,
      ) in
    rw run (
      returns (record {
        status = refl;
        rest = record {
          chain = frame s (omega arith) (λ a i. ground arith);
          end = rw te (tail_of p c xs out);
        };
        copy = sym att.there;
        counted = Counted-release p (xs ++ ys) att m' refl all;
        freed = ground arith;
        gone = λ z. ground (arith, gone_with_last att z);
        others = λ d apart. ground arith;
        same = λ a o. ground arith;
        pools = record { next = refl; oom = refl; requests = refl; buffers = refl; stopped = refl };
      }))

-- On a list that begins with `(p, c)`, among other lists with the cells `ys`, `shift_cb` succeeds,
-- hands out the callback, keeps the rest of the list in order, and frees the cell, and the callback
-- too if that was its last cell.
pub shift_cb-IsQueue :
    {m : Memory} (l : CallbackEnds) (p c : Ptr) (xs ys : Cells)
    → IsQueue m l ((p, c) ∷ xs)
    → Counted m (((p, c) ∷ xs) ++ ys)
    → Returns (Shifted m p c xs ys) (shift_cb l m)
shift_cb-IsQueue l p c xs ys q all = shift_Seg ys q.chain q.end all

-- On an empty list it fails, and changes nothing.
pub shift_cb-empty :
    {m : Memory} (l : CallbackEnds) → IsQueue m l [] → shift_cb l m ≡ ok (snail_err, l, none) m
unfolding shift_cb
shift_cb-empty l q = ground (arith, eq_of_nil q.chain)
