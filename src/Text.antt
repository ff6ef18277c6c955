-- ===== src/Text.antt =====
-- C strings as lists of bytes, and the functions of string.h and ctype.h that the sources call. A
-- byte 0 ends a string early; past the last byte there is a terminator.
pub mod Compare
pub mod Decimal
pub mod Numbers
pub mod Width
use crazy_snail.Common.{
  ℕ, zero, suc, ◌+◌, Bool, true, false, ◌&&◌, List, [], ◌∷◌, map, ◌==◌, leb, if◌then◌else◌, compare,
  Ordering, length,
}
use Prim.Native.Char.{code}
use Prim.Native.String.{String}

abbrev pub Bytes : Type 0
Bytes = List ℕ

-- The bytes of a literal.
abbrev pub bytes : String → Bytes
bytes String.[] = []
bytes (String.◌∷◌ c s) = code c ∷ bytes s

abbrev pub first : Bytes → ℕ
first [] = 0
first (c ∷ s) = c

abbrev pub rest : Bytes → Bytes
rest [] = []
rest (c ∷ s) = s

-- What a reader of a `char *` sees.
unfoldable pub c_str : Bytes → Bytes
c_str [] = []
c_str (c ∷ s) = let more = c ∷ c_str s in if c == 0 then [] else more

unfoldable pub strlen : Bytes → ℕ
unfolding c_str
strlen s = length (c_str s)

unfoldable pub strncmp : Bytes → Bytes → ℕ → Ordering
strncmp a b zero = Ordering.eq
strncmp a b (suc n) = elim (compare (first a) (first b)) [
  | Ordering.lt ↦ Ordering.lt
  | Ordering.gt ↦ Ordering.gt
  | Ordering.eq ↦ elim (first a == 0) [ true ↦ Ordering.eq | false ↦ strncmp (rest a) (rest b) n ]
]

unfoldable pub strcmp : Bytes → Bytes → Ordering
unfolding strncmp strlen
strcmp a b = strncmp a b (suc (strlen a))

unfoldable pub tolower : ℕ → ℕ
tolower c = if leb b'A' c && leb c b'Z' then c + 32 else c

unfoldable pub strncasecmp : Bytes → Bytes → ℕ → Ordering
unfolding strncmp tolower
strncasecmp a b n = strncmp (map tolower a) (map tolower b) n

-- A comparison found equality.
abbrev pub is_eq : Ordering → Bool
is_eq Ordering.lt = false
is_eq Ordering.eq = true
is_eq Ordering.gt = false
