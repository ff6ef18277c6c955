-- ===== src/Queue/Cells.antt =====
-- What a list of callbacks stands for: its cells in order, each an address and the callback that it
-- holds.
use crazy_snail.Common.{
  ℕ, ◌+◌, ◌≤◌, ◌<◌, ◌≡◌, refl, sym, subst, ap, ◌∙◌, ◌≢◌, Bool, true, false, ◌||◌, some, List, [],
  ◌∷◌, ◌++◌, arith, ◌==◌, if◌then◌else◌, pos, inc, get_elem?,
}
use crazy_snail.Memory.{Ptr, null, Channel, Callback, CallbackEnds, Memory}

abbrev pub Cells : Type 0
Cells = List (Ptr × Ptr)

abbrev pub has : Ptr → Cells → Bool
has p [] = false
has p ((q, _) ∷ xs) = (p == q) || has p xs

-- The cells that hold the callback `c`.
abbrev pub count : Ptr → Cells → ℕ
count c [] = 0
count c ((_, d) ∷ xs) = (if c == d then 1 else 0) + count c xs

pub count-append : (c : Ptr) (xs ys : Cells) → count c (xs ++ ys) ≡ count c xs + count c ys
count-append c [] ys = omega arith
count-append c ((p, d) ∷ xs) ys = omega (arith, count-append c xs ys)

-- From `p` the `next` pointers lead through the distinct cells `xs` to NULL.
pub data Seg (m : Memory) : Ptr → Cells → Type 0 where
  nil : Seg m null []
  cons :
      {p c q : Ptr} {xs : Cells}
      → p ≢ null
      → p < m.next
      → m.wrapper p ≡ some (record { cb = c; next = q })
      → has p xs ≡ false
      → Seg m q xs
      → Seg m p ((p, c) ∷ xs)

abbrev pub last : Cells → Ptr
last [] = null
last ((p, c) ∷ []) = p
last (x ∷ y ∷ xs) = last (y ∷ xs)

pub record IsQueue (m : Memory) (l : CallbackEnds) (xs : Cells) : Type 0 where
  pub chain : Seg m l.head xs
  pub end : l.tail ≡ last xs

-- Every channel that the callback counts is there.
abbrev pub Whole : Callback → Type 0
Whole k = (j : ℕ) → j < k.nb_channel → (ch : Channel) × (get_elem? k.channels j ≡ some (some ch))

-- At `c` there is a callback that `n` cells hold, and of which `W` is true.
pub record AttachedBy (W : Ptr → Callback → Type 0) (m : Memory) (c : Ptr) (n : ℕ) : Type 0 where
  pub at : Callback
  pub there : m.callback c ≡ some at
  pub attached : at.attach ≡ pos n
  pub whole : W c at
  pub ne_null : c ≢ null

-- The reference counts are right for all cells that exist.
abbrev pub CountedBy : (Ptr → Callback → Type 0) → Memory → Cells → Type 0
CountedBy W m xs = (c : Ptr) → 0 < count c xs → AttachedBy W m c (count c xs)

abbrev pub Attached : Memory → Ptr → ℕ → Type 0
Attached = AttachedBy (λ c. Whole)

abbrev pub Counted : Memory → Cells → Type 0
Counted = CountedBy (λ c. Whole)

-- The callback with one reference more, and with one less.
abbrev pub gained : Callback → Callback
gained k = record k { attach = inc k.attach }

-- The cells outside `xs` are as they were.
abbrev pub SameOutside : Cells → Memory → Memory → Type 0
SameOutside xs m m' = (p : Ptr) → has p xs ≡ false → m'.wrapper p ≡ m.wrapper p

-- Nothing is allocated, and the free lists and the stopped timers are as they were.
pub record SamePools (m m' : Memory) : Type 0 where
  pub next : m'.next ≡ m.next
  pub oom : m'.oom ≡ m.oom
  pub requests : m'.requests ≡ m.requests
  pub buffers : m'.buffers ≡ m.buffers
  pub stopped : m'.stopped ≡ m.stopped

pub has-append : (p : Ptr) (xs ys : Cells) → has p (xs ++ ys) ≡ (has p xs || has p ys)
has-append p [] ys = refl
has-append p (x ∷ xs) ys = ground (arith, has-append p xs ys)

pub not-mem-left : (p : Ptr) (xs ys : Cells) → has p (xs ++ ys) ≡ false → has p xs ≡ false
not-mem-left p [] ys out = refl
not-mem-left p (x ∷ xs) ys out = ground (arith, not-mem-left p xs ys)

pub has-last : (x : Ptr × Ptr) (xs : Cells) → has (last (x ∷ xs)) (x ∷ xs) ≡ true
has-last (p, c) [] = ground arith
has-last (p, c) (y ∷ xs) = ground (arith, has-last y xs)

pub ne-last : (p : Ptr) (x : Ptr × Ptr) (xs : Cells) → has p (x ∷ xs) ≡ false → p ≢ last (x ∷ xs)
ne-last p x xs out e = cc (has-last x xs, ap (λ a. has a (x ∷ xs)) e)

has-snoc : (p s c : Ptr) (xs : Cells) → has p xs ≡ false → p ≢ s → has p (xs ++ (s, c) ∷ []) ≡ false
has-snoc p s c xs out ne = rw (has-append p xs) (ground arith)

pub last-snoc : (xs : Cells) (s c : Ptr) → last (xs ++ (s, c) ∷ []) ≡ s
last-snoc [] s c = refl
last-snoc (x ∷ []) s c = refl
last-snoc (x ∷ y ∷ xs) s c = last-snoc (y ∷ xs) s c

pub Counted-same :
    {W : Ptr → Callback → Type 0} {m m' : Memory} (xs : Cells)
    → m'.callback ≡ m.callback
    → CountedBy W m xs
    → CountedBy W m' xs
Counted-same xs same all c some_cells =
    let x = all c some_cells in
    record {
      at = x.at;
      there = ap (λ f. f c) same ∙ x.there;
      attached = x.attached;
      whole = x.whole;
      ne_null = x.ne_null;
    }

-- Only the counts matter.
pub CountedBy-counts :
    {W : Ptr → Callback → Type 0} {m : Memory} (xs ys : Cells)
    → ((c : Ptr) → count c ys ≡ count c xs)
    → CountedBy W m xs
    → CountedBy W m ys
CountedBy-counts {W} {m} xs ys same all c some_cells =
    subst (AttachedBy W m c) (sym (same c)) (all c (omega (arith, same c)))

module _ {m : Memory} where
  pub head_ne_null : {p : Ptr} {x : Ptr × Ptr} {xs : Cells} → Seg m p (x ∷ xs) → p ≢ null
  head_ne_null (cons ne b e out s) = ne

  pub eq_of_nil : {p : Ptr} → Seg m p [] → p ≡ null
  eq_of_nil nil = refl

  -- A list survives any change that spares its own cells.
  pub frame :
      {m' : Memory} {p : Ptr} {xs : Cells}
      → Seg m p xs
      → m.next ≤ m'.next
      → ((a : Ptr) → has a xs ≡ true → m'.wrapper a ≡ m.wrapper a)
      → Seg m' p xs
  frame nil grown same = nil
  frame (cons {p} ne b e out s) grown same =
      cons ne (omega arith) (same p (ground arith) ∙ e) out
        (frame s grown λ a i. same a (ground arith))

  pub IsQueue-same :
      {m' : Memory} {l : CallbackEnds} {xs : Cells}
      → m'.next ≡ m.next
      → m'.wrapper ≡ m.wrapper
      → IsQueue m l xs
      → IsQueue m' l xs
  IsQueue-same n same q = record {
    chain = frame q.chain (omega (arith, n)) (λ a i. ap (λ f. f a) same);
    end = q.end;
  }

  -- The last cell of a list that is not empty.
  pub last_cell :
      {p : Ptr} {x : Ptr × Ptr} {xs : Cells}
      → Seg m p (x ∷ xs)
      → (last (x ∷ xs) ≢ null)
        × (d : Ptr) × (m.wrapper (last (x ∷ xs)) ≡ some (record { cb = d; next = null }))
  last_cell (cons {c} ne b e out nil) = (ne, c, e)
  last_cell (cons ne b e out (cons ne' b' e' out' s)) = last_cell (cons ne' b' e' out' s)

  -- Linking a new cell behind the last one.
  pub Seg-snoc :
      {m' : Memory} {p s c : Ptr} {xs : Cells}
      → Seg m p xs
      → m.next ≤ m'.next
      → Seg m' s ((s, c) ∷ [])
      → has s xs ≡ false
      → ((a : Ptr) → has a xs ≡ true → a ≢ last xs → m'.wrapper a ≡ m.wrapper a)
      → ((d : Ptr)
          → m.wrapper (last xs) ≡ some (record { cb = d; next = null })
          → m'.wrapper (last xs) ≡ some (record { cb = d; next = s }))
      → xs ≢ []
      → Seg m' p (xs ++ (s, c) ∷ [])
  Seg-snoc nil grown new apart same link ne = absurd (ne refl)
  Seg-snoc (cons {p} {c = d} ne b e out nil) grown new apart same link _ =
      cons ne (omega arith) (link d e) (ground arith) new
  Seg-snoc {s} {c} (cons {p} ne b e out (cons {p = q} {c = d} {xs} ne' b' e' out' t)) grown new
        apart same link _ =
      cons ne (omega arith) (same p (ground arith) (ne-last p (q, d) xs out) ∙ e)
        (has-snoc p s c ((q, d) ∷ xs) out (ground arith))
        (Seg-snoc (cons ne' b' e' out' t) grown new (ground arith) (λ a i. same a (ground arith))
          link (λ z. cc))
