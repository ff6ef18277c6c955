-- ===== src/Text/Width.antt =====
-- The room that src/crazysnail.c gives to a number that it prints.
use crazy_snail.Common.{
  ℕ, zero, suc, ◌+◌, ◌-◌, ◌/◌, ◌%◌, ◌^◌, ◌≡◌, subst, ap, ◌∙◌, ◌<◌, ◌≤◌, true, false, [], ◌∷◌, arith,
  ◌==◌, Bool-cases, inl, inr, length, take, take-all,
}
use crazy_snail.Text.{Bytes}
use crazy_snail.Text.Decimal.{digits, print_decimal, log10, decimal_length, snprintf_decimal}

-- One digit more than the logarithm, whatever stands behind.
length-digits : (f n : ℕ) (s : Bytes) → n < f → length (digits f n s) ≡ suc (log10 f n) + length s
unfolding digits log10
length-digits zero n s h = absurd (omega arith)
length-digits (suc f) n s h = elim (Bool-cases (n / 10 == 0)) [
  | inl e ↦ ground arith
  | inr e ↦
      let more = length-digits f (n / 10) ((48 + n % 10) ∷ s) (ground arith) in ground (arith, more)
]

log10-step : (f n : ℕ) → (n / 10 == 0) ≡ false → log10 (suc f) n ≡ suc (log10 f (n / 10))
unfolding log10
log10-step f n e = ground arith

log10-small : (f n : ℕ) → (n / 10 == 0) ≡ true → log10 (suc f) n ≡ 0
unfolding log10
log10-small f n e = ground arith

log10-bounds : (f n : ℕ) → n < f → 0 < n → (10 ^ log10 f n ≤ n) × (n < 10 ^ suc (log10 f n))
log10-bounds zero n h some_digit = absurd (omega arith)
log10-bounds (suc f) n h some_digit = elim (Bool-cases (n / 10 == 0)) [
  | inl e ↦ rw (log10-small f n e) (omega arith, ground arith)
  | inr e ↦
      let (low, high) = log10-bounds f (n / 10) (ground arith) (ground arith) in
      rw (log10-step f n e) (ten_times (log10 f (n / 10)) low high)
]
  where
    ten_times :
        (k : ℕ) → 10 ^ k ≤ n / 10 → n / 10 < 10 ^ suc k → (10 ^ suc k ≤ n) × (n < 10 ^ suc (suc k))
    ten_times k low high = (omega arith, omega arith)

decimal_length-log10 : (n : ℕ) → 0 < n → decimal_length n ≡ suc (log10 (suc n) n)
unfolding decimal_length
decimal_length-log10 n h = ground arith

-- The digits of a number.
length-print_decimal : (n : ℕ) → length (print_decimal n) ≡ decimal_length n
unfolding print_decimal decimal_length log10
length-print_decimal zero = ground arith
length-print_decimal (suc n) =
    length-digits (suc (suc n)) (suc n) [] (omega arith)
    ∙ omega (arith, decimal_length-log10 (suc n) (omega arith))

-- Nothing is cut off.
pub snprintf_decimal-whole : (n : ℕ) → snprintf_decimal (decimal_length n + 1) n ≡ print_decimal n
unfolding snprintf_decimal
snprintf_decimal-whole n =
    ap (λ k. take k (print_decimal n)) (omega arith)
    ∙ take-all (decimal_length n) (print_decimal n) (length-print_decimal n)

-- The buffer for a number above 0 has room for exactly its digits and the terminator: `snprintf` cuts
-- nothing off, and the number lies between the powers of 10 that have that many digits and one more.
pub snprintf_decimal-decimal_length :
    (n : ℕ)
    → 0 < n
    → (snprintf_decimal (decimal_length n + 1) n ≡ print_decimal n)
      × (length (print_decimal n) ≡ decimal_length n)
      × (10 ^ (decimal_length n - 1) ≤ n)
      × (n < 10 ^ decimal_length n)
snprintf_decimal-decimal_length n some_digit =
    let (low, high) = log10-bounds (suc n) n (omega arith) some_digit in
    let len = decimal_length-log10 n some_digit in
    (
      snprintf_decimal-whole n,
      length-print_decimal n,
      subst (λ k. 10 ^ k ≤ n) (omega (arith, len)) low,
      rw len high,
    )
