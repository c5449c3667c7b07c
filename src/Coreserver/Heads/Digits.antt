-- ===== src/Coreserver/Heads/Digits.antt =====
-- The numbers that the server writes, read again by its own parser.
use pulsys.Common.{
  ℕ, zero, suc, ◌+◌, ◌-◌, ◌*◌, ◌/◌, ◌%◌, ◌<◌, true, [], ◌∷◌, ◌++◌, some, leb, ◌≡◌, ◌≢◌, refl, ap,
  ◌∙◌, arith, inl, inr, Bool-cases, all, Bytes, two63, all-append,
}
use pulsys.Coreserver.Heads.{write_digits, write_uint}
use pulsys.Coreserver.Chars.Decimal.{is_digit, parse_decimal_int64}
use pulsys.Coreserver.Chars.Decimal.Exact.{value_from, parse_decimal_int64_exact}

-- 10 to the given power.
abbrev ten_to : ℕ → ℕ
ten_to zero = 1
ten_to (suc n) = ten_to n * 10

value_from-snoc :
    (v c : ℕ) (s : Bytes) → value_from v (s ++ c ∷ []) ≡ value_from v s * 10 + (c - b'0')
value_from-snoc v c [] = refl
value_from-snoc v c (d ∷ s) = value_from-snoc (v * 10 + (d - b'0')) c s

-- Written behind nothing, the digits say the number.
value_from-write_digits : (fuel v : ℕ) → v < ten_to fuel → value_from 0 (write_digits fuel [] v) ≡ v
unfolding write_digits
value_from-write_digits zero v h = omega arith
value_from-write_digits (suc fuel) v h = elim (Bool-cases (leb 10 v)) [
  | inl e ↦
      let rest = value_from-write_digits fuel (v / 10) (omega arith) in
      let last = value_from-snoc 0 (b'0' + v % 10) (write_digits fuel [] (v / 10)) in
      rw (e, last, rest) (omega arith)
  | inr e ↦ rw e (ground arith)
]

all-write_digits : (fuel v : ℕ) → all is_digit (write_digits fuel [] v) ≡ true
unfolding write_digits
all-write_digits zero v = refl
all-write_digits (suc fuel) v = elim (Bool-cases (leb 10 v)) [
  | inl e ↦
      let rest = all-write_digits fuel (v / 10) in
      let joined = all-append is_digit (write_digits fuel [] (v / 10)) ((b'0' + v % 10) ∷ []) in
      rw (e, joined, rest) (ground arith)
  | inr e ↦ rw e (ground arith)
]

snoc-ne-nil : (s : Bytes) (c : ℕ) → s ++ c ∷ [] ≢ []
snoc-ne-nil [] c e = cc
snoc-ne-nil (d ∷ s) c e = cc

write_digits-ne-nil : (fuel v : ℕ) → write_digits (suc fuel) [] v ≢ []
unfolding write_digits
write_digits-ne-nil fuel v = snoc-ne-nil _ _

parse_decimal_int64-write_digits :
    (fuel v : ℕ)
    → v < ten_to (suc fuel)
    → v < two63
    → parse_decimal_int64 (write_digits (suc fuel) [] v) ≡ some v
parse_decimal_int64-write_digits fuel v fits h =
    let value = value_from-write_digits (suc fuel) v fits in
    (parse_decimal_int64_exact (write_digits (suc fuel) [] v)).0 (write_digits-ne-nil fuel v)
      (all-write_digits (suc fuel) v) (rw value h)
    ∙ ap some value

-- A length that the server writes is read by its parser as the same number, if it is an `int64`.
pub parse_decimal_int64-write_uint :
    (n : ℕ) → n < two63 → parse_decimal_int64 (write_uint [] n) ≡ some n
unfolding write_uint
parse_decimal_int64-write_uint n h = parse_decimal_int64-write_digits 19 n (omega arith) h
