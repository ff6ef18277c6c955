-- ===== src/Pools/Requests.antt =====
-- Who has which request: `req_alloc` and `req_free` of src/crazysnail.c.
use crazy_snail.Common.{
  ℕ, suc, ◌+◌, ◌≡◌, refl, sym, subst, ◌⊎◌, ◌∙◌, ◌≤◌, ◌<◌, ◌≢◌, List, [], ◌∷◌, arith, ◌==◌, ==_iff,
  ==_ne, Bool-cases, inl, inr, if◌then◌else◌,
}
use crazy_snail.Memory.{Ptr, null, Memory}
use crazy_snail.Memory.Returns
use crazy_snail.Memory.Returns.{Returns, returns, malloc-Returns}
use crazy_snail.Pools.{req_alloc, req_free}

abbrev pub times : Ptr → List Ptr → ℕ
times a [] = 0
times a (p ∷ ps) = (if a == p then 1 else 0) + times a ps

-- The requests `out` are with somebody, and those of the free list are not; no request is twice
-- there, and all of them were allocated.
pub record IsPool (m : Memory) (out : List Ptr) : Type 0 where
  pub once : (a : Ptr) → times a out + times a m.requests ≤ 1
  pub made : (a : Ptr) → 0 < times a out + times a m.requests → (a ≢ null) × (a < m.next)

-- What `req_alloc` returns: NULL, with the pool as it was, or a request that nobody has.
pub data Allocated (out : List Ptr) (p : Ptr) (m : Memory) : Type 0 where
  refused : p ≡ null → IsPool m out → Allocated out p m
  given : times p out ≡ 0 → IsPool m (p ∷ out) → Allocated out p m

new_address :
    {m : Memory} {out : List Ptr} → IsPool m out → times m.next out + times m.next m.requests ≡ 0
new_address {m} {out} pool = elim (Bool-cases (times m.next out + times m.next m.requests == 0)) [
  | inl e ↦ (==_iff _ _).0 e
  | inr e ↦ absurd (ground (arith, pool.made m.next))
]

fresh-IsPool :
    {m : Memory} {out : List Ptr}
    → IsPool m out
    → m.next ≢ null
    → IsPool (record m { next = suc m.next }) (m.next ∷ out)
fresh-IsPool {m} {out} pool ne = record {
  once = λ a. elim (Bool-cases (a == m.next)) [
    | inl e ↦ let here : a ≡ m.next = (==_iff _ _).0 e in ground (arith, here, new_address pool)
    | inr e ↦ ground (arith, pool.once a)
  ];
  made = λ a h. elim (Bool-cases (a == m.next)) [
    | inl e ↦
        let here : a ≡ m.next = (==_iff _ _).0 e in (λ z. ne (sym here ∙ z), omega (arith, here))
    | inr e ↦ let (ane, old) = pool.made a (ground arith) in (ane, omega (arith, old))
  ];
}

-- An address that is lost.
lost-IsPool :
    {m : Memory} {out : List Ptr} → IsPool m out → IsPool (record m { next = suc m.next }) out
lost-IsPool pool = record {
  once = pool.once;
  made = λ a h. let (ane, old) = pool.made a h in (ane, omega (arith, old));
}

malloc-Allocated :
    {m m' : Memory} {out : List Ptr} {p : Ptr}
    → IsPool m out
    → m.next ≢ null
    → (p ≡ null) ⊎ (p ≡ m.next)
    → m' ≡ record m { next = suc m.next }
    → Allocated out p m'
malloc-Allocated {out} pool ne (inl z) same =
    refused z (subst (λ x. IsPool x out) (sym same) (lost-IsPool pool))
malloc-Allocated {m} {m'} {out} pool ne (inr z) same =
    subst (λ x. Allocated out x m') (sym z)
      (given (omega (arith, new_address pool))
        (subst (λ x. IsPool x (m.next ∷ out)) (sym same) (fresh-IsPool pool ne)))

taken-Allocated :
    {m : Memory} {out : List Ptr} (q : Ptr) (qs : List Ptr)
    → IsPool m out
    → m.requests ≡ q ∷ qs
    → Allocated out q (record m { requests = qs })
taken-Allocated {m} {out} q qs pool e =
    let once : (a : Ptr) → times a out + times a (q ∷ qs) ≤ 1 =
      λ a. subst (λ r. times a out + times a r ≤ 1) e (pool.once a) in
    let made : (a : Ptr) → 0 < times a out + times a (q ∷ qs) → (a ≢ null) × (a < m.next) =
      λ a. subst (λ r. 0 < times a out + times a r → (a ≢ null) × (a < m.next)) e (pool.made a) in
    given (ground (arith, once q))
      (record { once = λ a. omega (arith, once a); made = λ a h. made a (omega (arith, h)) })

alloc_cases :
    (m : Memory) {out : List Ptr} (rs : List Ptr)
    → m.requests ≡ rs
    → IsPool m out
    → m.next ≢ null
    → Returns (Allocated out) (req_alloc m)
unfolding req_alloc
alloc_cases m [] e pool ne =
    rw (req_alloc, e)
      (Returns.mono (malloc-Returns m) λ p m' (which, same). malloc-Allocated pool ne which same)
alloc_cases m (q ∷ qs) e pool ne = rw (req_alloc, e) (returns (taken-Allocated q qs pool e))

-- If no request is with two users, `req_alloc` returns NULL, or a request that nobody has, and leaves
-- no request with two users and none both with a user and in the free list.
pub req_alloc-IsPool :
    (m : Memory) {out : List Ptr}
    → IsPool m out
    → m.next ≢ null
    → Returns (Allocated out) (req_alloc m)
req_alloc-IsPool m pool ne = alloc_cases m m.requests refl pool ne

-- In such a pool a request that is given back is in the free list, and with nobody any more.
pub req_free-IsPool :
    (m : Memory) (p : Ptr) (out : List Ptr)
    → IsPool m (p ∷ out)
    → Returns (λ _ m'. IsPool m' out × (m'.requests ≡ p ∷ m.requests)) (req_free p m)
unfolding req_free
req_free-IsPool m p out pool =
    let (ne, made) = pool.made p (ground arith) in
    rw (==_ne _ _ ne) (
      returns {m = record m { requests = p ∷ m.requests }} (
        record {
          once = λ a. omega (arith, pool.once a);
          made = λ a h. pool.made a (omega (arith, h));
        },
        refl,
      ))
