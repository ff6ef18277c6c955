-- ===== src/Queue/Destroy.antt =====
-- `destroy_list` of src/cb.c.
use crazy_snail.Common.{
  ℕ, zero, suc, ◌≤◌, ◌<◌, ◌≡◌, refl, subst, ◌∙◌, true, false, none, some, [], ◌∷◌, ◌++◌, arith,
  ◌==◌, ==_iff, Bool-cases, inl, inr, if◌then◌else◌, length,
}
use crazy_snail.Memory.{Ptr, CallbackEnds, Memory, ok}
use crazy_snail.Memory.Access.{load_wrapper-ok}
use crazy_snail.Memory.Returns
use crazy_snail.Memory.Returns.{Returns, returns}
use crazy_snail.Queue.{destroy_wrapper, destroy_cells, destroy_list, no_ends}
use crazy_snail.Queue.Cells.{
  Cells, has, count, count-append, Seg, nil, cons, frame, IsQueue, Attached, Counted, SameOutside,
  SamePools,
}
use crazy_snail.Queue.Release.{without, destroy_wrapper-ok, Counted-release, gone_with_last}

pub record Destroyed (m : Memory) (xs ys : Cells) (m' : Memory) : Type 0 where
  pub freed : (a : Ptr) → has a xs ≡ true → m'.wrapper a ≡ none
  pub same : SameOutside xs m m'
  pub pools : SamePools m m'
  pub counted : Counted m' ys
  pub gone : (c : Ptr) → 0 < count c xs → count c ys ≡ 0 → m'.callback c ≡ none
  pub kept : (c : Ptr) → count c xs ≡ 0 → m'.callback c ≡ m.callback c

count-none : (c : Ptr) (xs ys : Cells) → count c xs ≡ 0 → count c ys ≡ 0 → count c (xs ++ ys) ≡ 0
count-none c xs ys hx hy = omega (arith, count-append c xs ys)

module _ {m : Memory} (p : Ptr) {c : Ptr} (xs ys : Cells)
    (att : Attached m c (suc (count c (xs ++ ys)))) {m' : Memory}
    (d : Destroyed (without m p c att.at) xs ys m') where
  gone-cons : (a : Ptr) → 0 < count a ((p, c) ∷ xs) → count a ys ≡ 0 → m'.callback a ≡ none
  gone-cons a some_cells z = elim (Bool-cases (count a xs == 0)) [
    | inl e ↦
        let here : a ≡ c = ground arith in
        d.kept a ((==_iff _ _).0 e) ∙ ground (arith, gone_with_last att, count-none c xs ys, here)
    | inr more ↦ d.gone a (ground arith) z
  ]

  Destroyed-cons : Destroyed m ((p, c) ∷ xs) ys m'
  Destroyed-cons = record {
    freed = λ a i. elim (Bool-cases (has a xs)) [
      | inl more ↦ d.freed a more
      | inr last ↦ d.same a last ∙ ground arith
    ];
    same = λ a o. d.same a (ground arith) ∙ ground arith;
    pools = record {
      next = d.pools.next;
      oom = d.pools.oom;
      requests = d.pools.requests;
      buffers = d.pools.buffers;
      stopped = d.pools.stopped;
    };
    counted = d.counted;
    gone = gone-cons;
    kept = λ a z. d.kept a (ground arith) ∙ ground arith;
  }

destroy_cells-Seg :
    (k : ℕ) {m : Memory} {p : Ptr} {xs : Cells} (ys : Cells)
    → Seg m p xs
    → Counted m (xs ++ ys)
    → length xs < k
    → Returns (λ _. Destroyed m xs ys) (destroy_cells k p m)
unfolding destroy_cells
destroy_cells-Seg zero ys s all fuel = absurd (omega arith)
destroy_cells-Seg (suc k) ys nil all fuel = returns (record {
  freed = λ a i. cc;
  same = λ a o. refl;
  pools = record { next = refl; oom = refl; requests = refl; buffers = refl; stopped = refl };
  counted = all;
  gone = λ c h. absurd (omega arith);
  kept = λ c z. refl;
})
destroy_cells-Seg (suc k) {m} ys (cons {p} {c} {q} {xs} ne b e out s) all fuel =
    let here : count c (((p, c) ∷ xs) ++ ys) ≡ suc (count c (xs ++ ys)) = ground arith in
    let att : Attached m c (suc (count c (xs ++ ys))) =
      subst (Attached m c) here (all c (omega arith)) in
    let m1 : Memory = without m p c att.at in
    let run : destroy_wrapper p m ≡ ok tt m1 =
      destroy_wrapper-ok p (record { cb = c; next = q }) att.at m ne e att.ne_null att.there
        att.whole in
    let rest : Seg m1 q xs = frame s (omega arith) (λ a i. ground arith) in
    let step : destroy_cells (suc k) p m ≡ destroy_cells k q m1 =
      ground (arith, load_wrapper-ok {m = m} ne e, run) in
    rw step (
      Returns.mono
        (destroy_cells-Seg k ys rest (Counted-release p (xs ++ ys) att m1 refl all) (omega arith))
        λ _ m' d. Destroyed-cons p xs ys att d)

-- A list has at most as many cells as there are addresses below the next one.
below : {m : Memory} {p : Ptr} {xs : Cells} (a : Ptr) → Seg m p xs → has a xs ≡ true → a < m.next
below a nil i = cc
below a (cons {p} ne b e out s) i = elim (Bool-cases (a == p)) [
  | inl here ↦ ground arith
  | inr more ↦ below a s (ground arith)
]

abbrev remove : Ptr → Cells → Cells
remove a [] = []
remove a ((p, c) ∷ xs) = if a == p then xs else (p, c) ∷ remove a xs

length-remove : (a : Ptr) (xs : Cells) → length xs ≤ suc (length (remove a xs))
length-remove a [] = omega arith
length-remove a ((p, c) ∷ xs) = ground (arith, length-remove a xs)

abbrev Distinct : Cells → Type 0
Distinct [] = Unit {0}
Distinct ((p, c) ∷ xs) = (has p xs ≡ false) × Distinct xs

has-remove : (a b : Ptr) (xs : Cells) → has b xs ≡ false → has b (remove a xs) ≡ false
has-remove a b [] h = refl
has-remove a b ((p, c) ∷ xs) h = ground (arith, has-remove a b xs)

remove-Distinct : (a : Ptr) (xs : Cells) → Distinct xs → Distinct (remove a xs)
remove-Distinct a [] d = tt
remove-Distinct a ((p, c) ∷ xs) d = ground (arith, has-remove a p xs, remove-Distinct a xs d.1)

not-mem-remove : (a : Ptr) (xs : Cells) → Distinct xs → has a (remove a xs) ≡ false
not-mem-remove a [] d = refl
not-mem-remove a ((p, c) ∷ xs) d = ground (arith, not-mem-remove a xs d.1)

length-le :
    (n : ℕ) (xs : Cells) → Distinct xs → ((a : Ptr) → has a xs ≡ true → a < n) → length xs ≤ n
length-le zero [] d h = omega arith
length-le zero ((p, c) ∷ xs) d h = absurd (omega (arith, h p (ground arith)))
length-le (suc n) xs d h = omega (
  arith,
  length-remove n xs,
  length-le n (remove n xs) (remove-Distinct n xs d)
      λ a i. ground (arith, h a, has-remove n a xs, not-mem-remove n xs d),
)

Seg-Distinct : {m : Memory} {p : Ptr} {xs : Cells} → Seg m p xs → Distinct xs
Seg-Distinct nil = tt
Seg-Distinct (cons ne b e out s) = (out, Seg-Distinct s)

pub length-Seg : {m : Memory} {p : Ptr} {xs : Cells} → Seg m p xs → length xs ≤ m.next
length-Seg {m} {xs} s = length-le m.next xs (Seg-Distinct s) (λ a. below a s)

-- On a list with the cells `xs`, among other lists with the cells `ys`, `destroy_list` ends, with an
-- empty list: it frees exactly the cells `xs`, keeps every callback that `ys` holds, with its count
-- lowered, and frees the others that `xs` held.
pub destroy_list-Destroyed :
    {m : Memory} (l : CallbackEnds) (xs ys : Cells)
    → IsQueue m l xs
    → Counted m (xs ++ ys)
    → Returns (λ r m'. (r ≡ some no_ends) × Destroyed m xs ys m') (destroy_list (some l) m)
unfolding destroy_list
destroy_list-Destroyed {m} l xs ys q all =
    Returns.bind (destroy_cells-Seg (suc m.next) ys q.chain all (omega (arith, length-Seg q.chain)))
      λ _ m' d. returns (refl, d)
