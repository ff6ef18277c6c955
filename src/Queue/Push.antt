-- ===== src/Queue/Push.antt =====
-- `push_cb` of src/cb.c.
use crazy_snail.Common.{
  ◌+◌, ◌<◌, ◌≡◌, refl, sym, subst, ap, ◌≢◌, false, Option, none, some, [], ◌∷◌, ◌++◌, arith, ◌==◌,
  ==_iff, Bool-cases, inl, inr, if◌then◌else◌,
}
use mathlib.Core.Option
use crazy_snail.Memory.{
  Ptr, null, Callback, CallbackEnds, Memory, ok, update, load_callback, put_callback, load_wrapper,
  put_wrapper,
}
use crazy_snail.Memory.Returns.{Returns, returns}
use crazy_snail.Queue.{push_cb, set_next, attach_cb}
use crazy_snail.Queue.Cells.{
  Cells, has, count, count-append, Seg, nil, cons, last, last-snoc, last_cell, Seg-snoc, IsQueue,
  AttachedBy, CountedBy, Counted, Whole, gained, SameOutside, SamePools, ne-last, eq_of_nil,
  not-mem-left, head_ne_null,
}

-- A cell that is in no list yet, with its callback.
pub record LooseBy (W : Ptr → Callback → Type 0) (m : Memory) (s c : Ptr) (cells : Cells)
    : Type 0 where
  pub ne_null : s ≢ null
  pub made : s < m.next
  pub holds : m.wrapper s ≡ some (record { cb = c; next = null })
  pub apart : has s cells ≡ false
  pub attached : AttachedBy W m c (count c cells)

abbrev pub IsLoose : Memory → Ptr → Ptr → Cells → Type 0
IsLoose = LooseBy (λ c. Whole)

-- The memory after a push onto the cell `t`, if there is one.
abbrev pushed : Memory → (t s c : Ptr) → Callback → Option Ptr → Memory
pushed m t s c k none = record m { callback = update m.callback c (some (gained k)) }
pushed m t s c k (some d) = record m {
  callback = update m.callback c (some (gained k));
  wrapper = update m.wrapper t (some (record { cb = d; next = s }));
}

push_cb-nil :
    (s c : Ptr) (k : Callback) (m : Memory)
    → s ≢ null
    → m.wrapper s ≡ some (record { cb = c; next = null })
    → c ≢ null
    → m.callback c ≡ some k
    → push_cb (some (record { head = null; tail = null })) s m
      ≡ ok (record { head = s; tail = s }) (pushed m null s c k none)
unfolding push_cb attach_cb load_callback put_callback load_wrapper
push_cb-nil s c k m ne e cne ce = ground arith

push_cb-cons :
    (h t s c d : Ptr) (k : Callback) (m : Memory)
    → s ≢ null
    → m.wrapper s ≡ some (record { cb = c; next = null })
    → c ≢ null
    → m.callback c ≡ some k
    → h ≢ null
    → t ≢ null
    → t ≢ s
    → m.wrapper t ≡ some (record { cb = d; next = null })
    → push_cb (some (record { head = h; tail = t })) s m
      ≡ ok (record { head = h; tail = s }) (pushed m t s c k (some d))
unfolding push_cb set_next attach_cb load_callback put_callback load_wrapper put_wrapper
push_cb-cons h t s c d k m ne e cne ce hne tne apart te = ground arith

-- One more cell that holds `c` keeps all counts right.
Counted-gain :
    {W : Ptr → Callback → Type 0} (keep : (a : Ptr) (k : Callback) → W a k → W a (gained k))
    {m : Memory} {c : Ptr} (zs : Cells) (att : AttachedBy W m c (count c zs))
    → (m' : Memory) (zs' : Cells) → m'.callback ≡ update m.callback c (some (gained att.at))
    → ((a : Ptr) → count a zs' ≡ count a zs + (if a == c then 1 else 0))
    → CountedBy W m zs
    → CountedBy W m' zs'
Counted-gain {W} keep {m} {c} zs att m' zs' e n all a some_cells = elim (Bool-cases (a == c)) [
  | inl same ↦
      subst (λ x. AttachedBy W m' x (count x zs')) (sym ((==_iff a c).0 same))
        (record {
          at = gained att.at;
          there = rw e (ground arith);
          attached = ground (arith, att.attached, n c);
          whole = keep c att.at att.whole;
          ne_null = att.ne_null;
        })
  | inr other ↦
      let kept : count a zs' ≡ count a zs = ground (arith, n a) in
      let old : AttachedBy W m a (count a zs) = all a (omega arith) in
      record {
        at = old.at;
        there = rw (e, other) old.there;
        attached = rw kept old.attached;
        whole = old.whole;
        ne_null = old.ne_null;
      }
]

count-push :
    (s c : Ptr) (xs ys : Cells) (a : Ptr)
    → count a ((xs ++ (s, c) ∷ []) ++ ys) ≡ count a (xs ++ ys) + (if a == c then 1 else 0)
count-push s c xs ys a = omega (
  arith,
  count-append a (xs ++ (s, c) ∷ []) ys,
  count-append a xs ((s, c) ∷ []),
  count-append a xs ys,
)

abbrev pub PushedBy :
    (Ptr → Callback → Type 0) → Memory → Cells → Cells → Ptr × Ptr → CallbackEnds → Memory → Type 0
PushedBy W m xs ys x l' m' =
    IsQueue m' l' (xs ++ x ∷ [])
    × CountedBy W m' ((xs ++ x ∷ []) ++ ys)
    × SameOutside xs m m'
    × SamePools m m'
    × (m'.callback ≡ update m.callback (x.1) (Option.map gained (m.callback (x.1))))

abbrev pub Pushed : Memory → Cells → Cells → Ptr × Ptr → CallbackEnds → Memory → Type 0
Pushed = PushedBy (λ c. Whole)

module _ {W : Ptr → Callback → Type 0} (keep : (a : Ptr) (k : Callback) → W a k → W a (gained k))
    {m : Memory} {s c : Ptr} (ys : Cells) where
  push-empty :
      {h t : Ptr}
      → h ≡ null
      → t ≡ null
      → CountedBy W m ys
      → LooseBy W m s c ys
      → Returns (PushedBy W m [] ys (s, c)) (push_cb (some (record { head = h; tail = t })) s m)
  push-empty {h} {t} he te all new =
      let att : AttachedBy W m c (count c ys) = new.attached in
      rw (he, te, push_cb-nil s c att.at m new.ne_null new.holds att.ne_null att.there)
        (returns (
          record { chain = cons new.ne_null new.made new.holds refl nil; end = refl },
          Counted-gain keep ys att _ ((s, c) ∷ ys) refl (λ a. omega arith) all,
          λ p o. refl,
          record { next = refl; oom = refl; requests = refl; buffers = refl; stopped = refl },
          ap (λ o. update m.callback c (Option.map gained o)) (sym att.there),
        ))

  push-more :
      (xs : Cells) (x : Ptr × Ptr) {h t : Ptr}
      → Seg m h (x ∷ xs)
      → t ≡ last (x ∷ xs)
      → CountedBy W m ((x ∷ xs) ++ ys)
      → LooseBy W m s c ((x ∷ xs) ++ ys)
      → Returns
          (PushedBy W m (x ∷ xs) ys (s, c))
          (push_cb (some (record { head = h; tail = t })) s m)
  push-more xs x {h} {t} chain te all new =
      let att : AttachedBy W m c (count c ((x ∷ xs) ++ ys)) = new.attached in
      let (lne, d, le) = last_cell chain in
      let out : has s (x ∷ xs) ≡ false = not-mem-left s (x ∷ xs) ys new.apart in
      let apart : last (x ∷ xs) ≢ s = λ e. ne-last s x xs out (sym e) in
      let m' : Memory = pushed m (last (x ∷ xs)) s c att.at (some d) in
      let fresh : Seg m' s ((s, c) ∷ []) =
        cons new.ne_null new.made (ground (arith, new.holds)) refl nil in
      let linked : Seg m' h ((x ∷ xs) ++ (s, c) ∷ []) =
        Seg-snoc chain (omega arith) fresh out (λ a i ne. ground arith)
          (λ e le'. ground (arith, le, le')) (λ z. cc) in
      rw te (
        rw
          (push_cb-cons h (last (x ∷ xs)) s c d att.at m new.ne_null new.holds att.ne_null att.there
            (head_ne_null chain) lne apart le)
          (returns (
            record { chain = linked; end = sym (last-snoc (x ∷ xs) s c) },
            Counted-gain keep ((x ∷ xs) ++ ys) att m' (((x ∷ xs) ++ (s, c) ∷ []) ++ ys) refl
                (count-push s c (x ∷ xs) ys) all,
            λ p o. ground (arith, ne-last p x xs o),
            record { next = refl; oom = refl; requests = refl; buffers = refl; stopped = refl },
            ap (λ o. update m.callback c (Option.map gained o)) (sym att.there),
          )))

-- The same for any property of callbacks that a further reference keeps.
pub push_cb-By :
    {W : Ptr → Callback → Type 0} (keep : (a : Ptr) (k : Callback) → W a k → W a (gained k))
    {m : Memory} {s c : Ptr} (l : CallbackEnds) (xs ys : Cells)
    → IsQueue m l xs
    → CountedBy W m (xs ++ ys)
    → LooseBy W m s c (xs ++ ys)
    → Returns (PushedBy W m xs ys (s, c)) (push_cb (some l) s m)
push_cb-By keep l [] ys q all new = push-empty keep ys (eq_of_nil q.chain) q.end all new
push_cb-By keep l (x ∷ xs) ys q all new = push-more keep ys xs x q.chain q.end all new

-- On a list with the cells `xs`, among other lists with the cells `ys`, `push_cb` puts a loose cell
-- behind all others and counts it in its callback, which stays as it was otherwise. It touches no cell
-- outside the list, no other callback and no free list.
pub push_cb-IsQueue :
    {m : Memory} {s c : Ptr} (l : CallbackEnds) (xs ys : Cells)
    → IsQueue m l xs
    → Counted m (xs ++ ys)
    → IsLoose m s c (xs ++ ys)
    → Returns (Pushed m xs ys (s, c)) (push_cb (some l) s m)
push_cb-IsQueue l xs ys q all new = push_cb-By (λ a k w. w) l xs ys q all new
