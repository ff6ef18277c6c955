-- ===== src/Text/Numbers.antt =====
-- Numbers printed and read by the functions of the C library.
use crazy_snail.Common.{
  ℕ, zero, suc, ◌+◌, ◌-◌, ◌*◌, ◌/◌, ◌%◌, ◌≡◌, sym, ap, ◌∙◌, ◌<◌, ◌≤◌, true, false, [], ◌∷◌, arith,
  ◌==◌, Bool-cases, inl, inr,
}
use crazy_snail.Text.{Bytes}
use crazy_snail.Text.Decimal.{
  digits, print_decimal, is_digit, read_digits, long_max, saturate, strtol,
}

is_digit_lem : (n : ℕ) → is_digit (48 + n % 10) ≡ true
is_digit_lem n = ground arith

-- Reading the digits of `n` and then `s` is reading `s` with `n` behind it.
read_digits-digits : (f n : ℕ) (s : Bytes) → n < f → read_digits 0 (digits f n s) ≡ read_digits n s
unfolding digits read_digits
read_digits-digits zero n s h = absurd (omega arith)
read_digits-digits (suc f) n s h = elim (Bool-cases (n / 10 == 0)) [
  | inl e ↦
      let last : 0 * 10 + (48 + n % 10 - 48) ≡ n = ground arith in
      ground (arith, is_digit_lem n, ap (λ k. read_digits k s) last)
  | inr e ↦
      let more : n / 10 * 10 + (48 + n % 10 - 48) ≡ n = ground arith in
      let rest : read_digits 0 (digits f (n / 10) ((48 + n % 10) ∷ s))
          ≡ read_digits (n / 10) ((48 + n % 10) ∷ s) =
        read_digits-digits f (n / 10) ((48 + n % 10) ∷ s) (ground arith) in
      ground (arith, is_digit_lem n, ap (λ k. read_digits k s) more, rest)
]

-- The first digit.
digits-digit :
    (f n : ℕ) (s : Bytes)
    → n < f
    → (c : ℕ) × (t : Bytes) × (digits f n s ≡ c ∷ t) × (is_digit c ≡ true)
unfolding digits
digits-digit zero n s h = absurd (omega arith)
digits-digit (suc f) n s h = elim (Bool-cases (n / 10 == 0)) [
  | inl e ↦ (48 + n % 10, s, ground arith, is_digit_lem n)
  | inr e ↦
      let (c, t, same, is) = digits-digit f (n / 10) ((48 + n % 10) ∷ s) (ground arith) in
      (c, t, ground (arith, same), is)
]

strtol-digit :
    (c : ℕ) (t : Bytes)
    → is_digit c ≡ true
    → strtol (c ∷ t) ≡ saturate false (read_digits 0 (c ∷ t))
unfolding strtol
strtol-digit c t is = ground arith

-- A number below `LONG_MAX` is read as it was printed.
pub strtol-print_decimal : (n : ℕ) → n ≤ long_max → strtol (print_decimal n) ≡ n
unfolding print_decimal read_digits
strtol-print_decimal n h =
    let (c, t, same, is) = digits-digit (suc n) n [] (omega arith) in
    let read : read_digits 0 (digits (suc n) n []) ≡ n =
      read_digits-digits (suc n) n [] (omega arith) in
    ap strtol same
    ∙ strtol-digit c t is
    ∙ ap (λ w. saturate false (read_digits 0 w)) (sym same)
    ∙ ground (arith, read)
