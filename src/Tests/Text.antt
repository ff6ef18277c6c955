-- ===== src/Tests/Text.antt =====
-- Numbers and keys.
use crazy_snail.Common.{
  ◌+◌, ◌-◌, ◌^◌, ◌<◌, ◌≤◌, length, ◌≡◌, refl, arith, false, ◌↔◌, ◌⊎◌, ◌++◌, ℕ, some, get_elem?,
}
use crazy_snail.Text.{bytes, c_str, strncmp, strlen, strcmp}
use crazy_snail.Text.Decimal.{print_decimal, decimal_length, snprintf_decimal, strtol}
use crazy_snail.Text.Numbers.{strtol-print_decimal}
use crazy_snail.Text.Width.{snprintf_decimal-decimal_length}
use crazy_snail.Reply.{key_event, key_space, strip_prefix}
use crazy_snail.Client.Subscribe.{events, is_event, prefix_key}
use crazy_snail.Client.Keys.{is_prefixed, prefix_key-strip_prefix}

strtol-print_decimal_example : strtol (print_decimal 1500) ≡ 1500
strtol-print_decimal_example = strtol-print_decimal 1500 (omega arith)

set_is_bare : is_prefixed (bytes "set") ≡ false
unfolding strncmp strlen c_str
set_is_bare = refl

-- As in the README.
set_is_event : prefix_key (bytes "set") ≡ bytes "__keyevent@0__:set"
unfolding prefix_key is_event strcmp strncmp strlen c_str
set_is_event = refl

prefix_key-strip_prefix_example :
    (strip_prefix (prefix_key (bytes "set")) ≡ c_str (bytes "set"))
    × (prefix_key (prefix_key (bytes "set")) ≡ prefix_key (bytes "set"))
    × ((prefix_key (bytes "set") ≡ key_event ++ c_str (bytes "set"))
        ↔ ((i : ℕ) × (get_elem? events i ≡ some (c_str (bytes "set")))))
    × ((prefix_key (bytes "set") ≡ key_event ++ c_str (bytes "set"))
        ⊎ (prefix_key (bytes "set") ≡ key_space ++ c_str (bytes "set")))
prefix_key-strip_prefix_example = prefix_key-strip_prefix (bytes "set") set_is_bare

snprintf_decimal-decimal_length_example :
    (snprintf_decimal (decimal_length 1000 + 1) 1000 ≡ print_decimal 1000)
    × (length (print_decimal 1000) ≡ decimal_length 1000)
    × (10 ^ (decimal_length 1000 - 1) ≤ 1000)
    × (1000 < 10 ^ decimal_length 1000)
snprintf_decimal-decimal_length_example = snprintf_decimal-decimal_length 1000 (omega arith)
