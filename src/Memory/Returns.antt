-- ===== src/Memory/Returns.antt =====
-- Total correctness of a command: no fault, no failed assertion, enough fuel, and a postcondition.
use crazy_snail.Common.{
  suc, ◌≡◌, refl, ◌⊎◌, inl, inr, Bool, true, false, Bool-cases, none, some, if◌then◌else◌,
}
use crazy_snail.Text.{Bytes, c_str}
use crazy_snail.Memory.{Memory, Run, ok, Cmd, and_then, null, malloc, strdup}

pub data Returns {ℓ κ} {A : Type ℓ} (P : A → Memory → Type κ) : Run A → Type (ℓ ⊔ κ) where
  returns : {a : A} {m : Memory} → P a m → Returns P (ok a m)

module _ {ℓ κ} {A : Type ℓ} {P : A → Memory → Type κ} where
  pub bind {ι ο} :
      {B : Type ι} {Q : B → Memory → Type ο} {r : Run A} {k : A → Cmd B}
      → Returns P r
      → ((a : A) (m : Memory) → P a m → Returns Q (k a m))
      → Returns Q (and_then r k)
  bind (returns p) next = next _ _ p

  pub mono {ο} :
      {Q : A → Memory → Type ο} {r : Run A}
      → Returns P r
      → ((a : A) (m : Memory) → P a m → Q a m)
      → Returns Q r
  mono (returns p) weaken = returns (weaken _ _ p)

-- A run that returns, with its result and its memory.
pub ending {ℓ κ ι} :
    {A : Type ℓ} {P : A → Memory → Type κ} {r : Run A} {G : Type ι}
    → Returns P r
    → ((a : A) (m : Memory) → r ≡ ok a m → P a m → G)
    → G
ending (returns p) k = k _ _ refl p

-- `malloc` always returns, with an address or with NULL, and touches no block.
pub malloc-Returns :
    (m : Memory)
    → Returns
        (λ p m'. ((p ≡ null) ⊎ (p ≡ m.next)) × (m' ≡ record m { next = suc m.next }))
        (malloc m)
unfolding malloc
malloc-Returns m = elim (Bool-cases (m.oom m.next)) [
  | inl e ↦ rw e (returns (inl refl, refl))
  | inr e ↦ rw e (returns (inr refl, refl))
]

pub strdup-Returns :
    (s : Bytes) (m : Memory)
    → Returns
        (λ r m'. ((r ≡ none) ⊎ (r ≡ some (c_str s))) × (m' ≡ record m { next = suc m.next }))
        (strdup s m)
unfolding strdup
strdup-Returns s m = returns (copied _, refl)
  where
    copied :
        (b : Bool)
        → ((if b then none else some (c_str s)) ≡ none)
          ⊎ ((if b then none else some (c_str s)) ≡ some (c_str s))
    copied true = inl refl
    copied false = inr refl
