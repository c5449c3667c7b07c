-- ===== src/Cache/Ranges/Bounds.antt =====
-- The bounds of the interval that a Range header asks for.
use pulsys.Common.{
  zero, suc, ◌≤◌, ◌<◌, ◌<ℤ◌, ◌+ℤ◌, two63, wrap64, wrap64-lt, leb, leb_iff, digits_value, negated,
  some_injective, ℕ, Bool, true, false, not, [], ◌∷◌, Option, none, some, if◌then◌else◌, Bytes,
  codes, cut_prefix, split_at, ◌==◌, drop, ℤ, pos, ◌≤ℤ◌, trim, to_lower, parse_int, ◌≡◌, refl, inl,
  inr, arith, all, all-trim, and-eq-true, Bool-cases, Option-cases, bind-eq-some, magnitude,
}
use pulsys.Cache.Ranges.{range_end, range_of_parts, parse_single_range}

abbrev not_dash : ℕ → Bool
not_dash c = not (c == b'-')

-- Before the first dash there is none.
all-split_at :
    (s first last : Bytes)
    → split_at (λ c. c == b'-') s ≡ some (first, last)
    → all not_dash first ≡ true
all-split_at [] first last h = cc
all-split_at (c ∷ s) first last h = elim (Bool-cases (c == b'-')) [
  | inl e ↦
      let at_dash : some ([], s) ≡ some (first, last) = rw (e, split_at) at h in
      let empty : [] ≡ first = cc in rw⁻¹ empty refl
  | inr e ↦ elim (Option-cases (split_at (λ d. d == b'-') s)) [
    | inl f ↦ let missing : none ≡ some (first, last) = rw (e, split_at, f) at h in cc
    | inr ((before, behind), f) ↦
        let found : some (c ∷ before, behind) ≡ some (first, last) = rw (e, split_at, f) at h in
        let same : c ∷ before ≡ first = cc in
        rw⁻¹ same (rw (e, all-split_at s before behind f) refl)
  ]
]

read_positive :
    (v : Option ℕ) (n : ℤ) → (elim v [ none ↦ none | some m ↦ some (pos m) ]) ≡ some n → pos 0 ≤ℤ n
read_positive none n run = cc
read_positive (some m) n run = let same : pos m ≡ n = cc in rw⁻¹ same (omega arith)

unsigned :
    (plus : Bool) (v w : Option ℕ) (n : ℤ)
    → (if plus
        then (elim v [ none ↦ none | some m ↦ some (pos m) ])
        else elim w [ none ↦ none | some m ↦ some (pos m) ])
      ≡ some n
    → pos 0 ≤ℤ n
unsigned true v w n run = read_positive v n run
unsigned false v w n run = read_positive w n run

-- Without a dash a number is not negative.
parse_int-nonneg : (s : Bytes) (n : ℤ) → all not_dash s ≡ true → parse_int s ≡ some n → pos 0 ≤ℤ n
unfolding parse_int
parse_int-nonneg [] n h run = cc
parse_int-nonneg (c ∷ s) n h run =
    let (first, rest) = and-eq-true (not_dash c) (all not_dash s) h in
    let no_dash : (c == b'-') ≡ false = ground arith in
    unsigned (c == b'+') (magnitude 9223372036854775807 s) (magnitude 9223372036854775807 (c ∷ s)) n
      (rw no_dash at run)

-- The interval of an accepted header starts at 0 or behind it.
pub parse_single_range_start :
    (v : Bytes) (total start stop : ℤ)
    → parse_single_range v total ≡ some (start, stop)
    → pos 0 ≤ℤ start
unfolding parse_single_range range_of_parts
parse_single_range_start v total start stop h =
    let (rest, has_prefix, h1) =
      bind-eq-some (cut_prefix (codes "bytes=") (to_lower (trim v))) _ h in
    let ((first, last), splits, h2) =
      bind-eq-some (split_at (λ c. c == b'-') (drop 6 (trim v))) _ h1 in
    let (n, number, h3) = bind-eq-some (parse_int (trim first)) _ h2 in
    let (m, ends, h4) = bind-eq-some (range_end (trim last) total) _ h3 in
    let same : n ≡ start = cc in
    let plain = all-split_at (drop 6 (trim v)) first last splits in
    rw⁻¹ same (parse_int-nonneg (trim first) n (all-trim not_dash first plain) number)

kept_if : (b : Bool) (n v : ℕ) → (if b then some n else none) ≡ some v → (b ≡ true) × (n ≡ v)
kept_if true n v h = (refl, cc)
kept_if false n v h = cc

negated-lt : (m : ℕ) → negated m <ℤ pos two63
unfolding negated
negated-lt zero = omega arith
negated-lt (suc m) = omega arith

magnitude-le : (limit v : ℕ) (s : Bytes) → magnitude limit s ≡ some v → v ≤ limit
unfolding magnitude
magnitude-le limit v [] h = cc
magnitude-le limit v (c ∷ s) h = elim (Option-cases (digits_value 0 (c ∷ s))) [
  | inl e ↦ let missing : none ≡ some v = rw (e, magnitude) at h in cc
  | inr (n, e) ↦
      let (fits, same) = kept_if (leb n limit) n v (rw (e, magnitude) at h) in
      let bound = (leb_iff n limit).0 fits in omega (arith, same, bound)
]

small_positive :
    (limit : ℕ) (s : Bytes) (n : ℤ)
    → limit < two63
    → (elim (magnitude limit s) [ none ↦ none | some m ↦ some (pos m) ]) ≡ some n
    → n <ℤ pos two63
small_positive limit s n small run =
    let (m, read, same) = bind-eq-some (magnitude limit s) (λ m. some (pos m)) run in
    let bound = magnitude-le limit m s read in rw⁻¹ (some_injective (pos m) n same) (omega arith)

small_negated :
    (s : Bytes) (n : ℤ)
    → (elim (magnitude 9223372036854775808 s) [ none ↦ none | some m ↦ some (negated m) ]) ≡ some n
    → n <ℤ pos two63
unfolding negated
small_negated s n run =
    let (m, read, same) =
      bind-eq-some (magnitude 9223372036854775808 s) (λ m. some (negated m)) run in
    rw⁻¹ (some_injective (negated m) n same) (negated-lt m)

-- A number that is read is below 2^63.
parse_int-lt : (s : Bytes) (n : ℤ) → parse_int s ≡ some n → n <ℤ pos two63
unfolding parse_int
parse_int-lt [] n run = cc
parse_int-lt (c ∷ s) n run = elim (Bool-cases (c == b'-')) [
  | inl e ↦ small_negated s n (rw e at run)
  | inr e ↦ elim (Bool-cases (c == b'+')) [
    | inl f ↦ small_positive 9223372036854775807 s n (omega arith) (rw (e, f) at run)
    | inr f ↦ small_positive 9223372036854775807 (c ∷ s) n (omega arith) (rw (e, f) at run)
  ]
]

range_end-lt :
    (last : Bytes) (total stop : ℤ)
    → total <ℤ pos two63
    → range_end last total ≡ some stop
    → stop <ℤ pos two63
unfolding range_end
range_end-lt [] total stop small h = rw⁻¹ (some_injective _ stop h) (ground arith)
range_end-lt (c ∷ s) total stop small h =
    let (n, read, same) = bind-eq-some (parse_int (c ∷ s)) (λ n. some (wrap64 (n +ℤ pos 1))) h in
    rw⁻¹ (some_injective _ stop same) (wrap64-lt (n +ℤ pos 1))

-- Both ends of an accepted interval are below 2^63, if the total is.
pub parse_single_range-lt :
    (v : Bytes) (total start stop : ℤ)
    → total <ℤ pos two63
    → parse_single_range v total ≡ some (start, stop)
    → (start <ℤ pos two63) × (stop <ℤ pos two63)
unfolding parse_single_range range_of_parts
parse_single_range-lt v total start stop small h =
    let (rest, has_prefix, h1) =
      bind-eq-some (cut_prefix (codes "bytes=") (to_lower (trim v))) _ h in
    let ((first, last), splits, h2) =
      bind-eq-some (split_at (λ c. c == b'-') (drop 6 (trim v))) _ h1 in
    let (n, number, h3) = bind-eq-some (parse_int (trim first)) _ h2 in
    let (m, ends, h4) = bind-eq-some (range_end (trim last) total) _ h3 in
    let same : n ≡ start = cc in
    let equal : m ≡ stop = cc in
    (
      rw⁻¹ same (parse_int-lt (trim first) n number),
      rw⁻¹ equal (range_end-lt (trim last) total m small ends),
    )
