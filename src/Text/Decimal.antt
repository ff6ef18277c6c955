-- ===== src/Text/Decimal.antt =====
-- `snprintf("%d")` of a number that is not negative, and `strtol` in base 10 as it is stored in a
-- `uint64_t`.
use crazy_snail.Common.{
  ℕ, zero, suc, ◌+◌, ◌-◌, ◌*◌, ◌/◌, ◌%◌, ◌^◌, Bool, true, false, ◌&&◌, ◌||◌, [], ◌∷◌, ◌==◌, leb,
  take, if◌then◌else◌, ℤ, pos, negsuc,
}
use crazy_snail.Text.{Bytes}

-- The digits of `n` before `acc`, on fuel; a number has at most as many digits as it says.
unfoldable pub digits : ℕ → ℕ → Bytes → Bytes
digits zero n acc = acc
digits (suc f) n acc = elim (n / 10 == 0) [
  | true ↦ (b'0' + n % 10) ∷ acc
  | false ↦ digits f (n / 10) ((b'0' + n % 10) ∷ acc)
]

unfoldable pub print_decimal : ℕ → Bytes
unfolding digits
print_decimal n = digits (suc n) n []

-- The whole part of `log10`, on fuel: each division by 10 takes one away.
unfoldable pub log10 : ℕ → ℕ → ℕ
log10 zero n = 0
log10 (suc f) n = elim (n / 10 == 0) [ true ↦ 0 | false ↦ suc (log10 f (n / 10)) ]

-- `n == 0 ? 1 : (int)(log10(n) + 1)`
unfoldable pub decimal_length : ℕ → ℕ
unfolding log10
decimal_length n = if n == 0 then 1 else log10 (suc n) n + 1

-- `snprintf` of "%d" keeps one byte of the buffer for the terminator.
unfoldable pub snprintf_decimal : (size : ℕ) → ℕ → Bytes
unfolding print_decimal
snprintf_decimal size n = take (size - 1) (print_decimal n)

abbrev pub is_digit : ℕ → Bool
is_digit c = leb b'0' c && leb c b'9'

-- `isspace` in the C locale.
abbrev pub is_space : ℕ → Bool
is_space c = c == 32 || (leb 9 c && leb c 13)

-- The digits up to the first other byte.
unfoldable pub read_digits : ℕ → Bytes → ℕ
read_digits acc [] = acc
read_digits acc (c ∷ s) = elim (is_digit c) [
  | true ↦ read_digits (acc * 10 + (c - b'0')) s
  | false ↦ acc
]

abbrev pub long_max : ℕ
long_max = 2 ^ 63 - 1

-- `strtol` stops at `LONG_MAX` and at `LONG_MIN`; a negative value wraps in the `uint64_t`.
abbrev pub saturate : Bool → ℕ → ℕ
saturate false v = if leb v long_max then v else long_max
saturate true v = (2 ^ 64 - (if leb v (2 ^ 63) then v else 2 ^ 63)) % 2 ^ 64

unfoldable pub strtol : Bytes → ℕ
unfolding read_digits
strtol [] = 0
strtol (c ∷ s) =
    let more = strtol s in
    if is_space c
    then more
    else if c == b'-'
    then saturate true (read_digits 0 s)
    else if c == b'+'
    then saturate false (read_digits 0 s)
    else saturate false (read_digits 0 (c ∷ s))

-- `lua_tolstring` of an integral number.
unfoldable pub print_int : ℤ → Bytes
unfolding print_decimal
print_int (pos n) = print_decimal n
print_int (negsuc n) = b'-' ∷ print_decimal (suc n)
