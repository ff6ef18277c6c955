-- ===== src/Text/Compare.antt =====
-- What the string comparisons decide.
use crazy_snail.Common.{
  ℕ, zero, suc, ◌≡◌, refl, [], ◌∷◌, ◌++◌, arith, ◌==◌, Ordering, inl, inr, Bool-cases,
}
use crazy_snail.Text.{Bytes, rest, c_str, strlen, strncmp, strcmp}

pub strncmp_refl : (a : Bytes) (n : ℕ) → strncmp a a n ≡ Ordering.eq
unfolding strncmp
strncmp_refl a zero = refl
strncmp_refl a (suc n) = ground (arith, strncmp_refl (rest a) n)

-- A comparison over the length of the key finds equality exactly where the key is a prefix.
pub strncmp-append : (a s : Bytes) → strncmp a (c_str a ++ s) (strlen a) ≡ Ordering.eq
unfolding strncmp strlen c_str
strncmp-append [] s = refl
strncmp-append (c ∷ a) s = elim (Bool-cases (c == 0)) [
  | inl z ↦ ground arith
  | inr nz ↦ ground (arith, strncmp-append a s)
]

pub prefix_of_strncmp :
    (a b : Bytes) → strncmp a b (strlen a) ≡ Ordering.eq → (s : Bytes) × (b ≡ c_str a ++ s)
unfolding strncmp strlen c_str
prefix_of_strncmp [] b e = (b, refl)
prefix_of_strncmp (c ∷ a) [] e = elim (Bool-cases (c == 0)) [
  | inl z ↦ ([], ground arith)
  | inr nz ↦ absurd (ground arith)
]
prefix_of_strncmp (c ∷ a) (d ∷ b) e = elim (Bool-cases (c == 0)) [
  | inl z ↦ (d ∷ b, ground arith)
  | inr nz ↦ let ih = prefix_of_strncmp a b (ground arith) in (ih.0, ground (arith, ih.1))
]

pub c_str_idem : (a : Bytes) → c_str (c_str a) ≡ c_str a
unfolding c_str
c_str_idem [] = refl
c_str_idem (c ∷ a) = ground (arith, c_str_idem a)

-- Comparisons do not look behind the terminator.
pub strncmp-c_str : (a b : Bytes) → strncmp (c_str a) b (strlen (c_str a)) ≡ strncmp a b (strlen a)
unfolding strncmp strlen c_str
strncmp-c_str [] b = refl
strncmp-c_str (c ∷ a) b = ground (arith, strncmp-c_str a (rest b))

-- A prefix of a string leaves a prefix of what the reader sees.
pub c_str-append : (a b : Bytes) → (s : Bytes) × (c_str (a ++ b) ≡ c_str a ++ s)
unfolding c_str
c_str-append [] b = (c_str b, refl)
c_str-append (c ∷ a) b = elim (Bool-cases (c == 0)) [
  | inl z ↦ ([], ground arith)
  | inr nz ↦ let ih = c_str-append a b in (ih.0, ground (arith, ih.1))
]

-- Two strings that differ in no byte up to the terminator are the same.
pub strcmp_eq : (a b : Bytes) → strcmp a b ≡ Ordering.eq → c_str a ≡ c_str b
unfolding strcmp strncmp strlen c_str
strcmp_eq [] [] e = refl
strcmp_eq [] (d ∷ b) e = elim (Bool-cases (d == 0)) [
  | inl z ↦ ground arith
  | inr nz ↦ absurd (ground arith)
]
strcmp_eq (c ∷ a) [] e = elim (Bool-cases (c == 0)) [
  | inl z ↦ ground arith
  | inr nz ↦ absurd (ground arith)
]
strcmp_eq (c ∷ a) (d ∷ b) e = elim (Bool-cases (c == 0)) [
  | inl z ↦ ground arith
  | inr nz ↦ let ih = strcmp_eq a b (ground arith) in ground (arith, ih)
]

pub strcmp_same : (a b : Bytes) → c_str a ≡ c_str b → strcmp a b ≡ Ordering.eq
unfolding strcmp strncmp strlen c_str
strcmp_same [] [] e = refl
strcmp_same [] (d ∷ b) e = ground arith
strcmp_same (c ∷ a) [] e = ground arith
strcmp_same (c ∷ a) (d ∷ b) e = elim (Bool-cases (c == 0)) [
  | inl z ↦ ground arith
  | inr nz ↦ let ih = strcmp_same a b (ground arith) in ground (arith, ih)
]
