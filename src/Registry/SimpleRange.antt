-- ===== src/Registry/SimpleRange.antt =====
-- The bounds of a range that the registry serves.
use pulsys.Common.{
  ℕ, ◌-◌, ◌<◌, ◌≤◌, two63, false, ◌||◌, [], ◌∷◌, Option, some, ◌==◌, Bytes, codes, cut_prefix,
  split_at, any_byte, parse_int, ℤ, pos, negsuc, ◌-ℤ◌, lebℤ, ltbℤ, wrap64, ◌≡◌, refl, arith,
  bind-eq-some, guard-eq-some, or-eq-false, some_injective,
}
use pulsys.Cache.Writer.Reserved.{sub-pos}
use pulsys.Registry.{suffix_range, simple_range_end, simple_range_of, parse_simple_range}

-- Both ends are in the object, in their order.
pub record IsWithin (size : ℕ) (r : ℤ × ℤ) : Type 0 where
  pub first : ℕ
  pub last : ℕ
  pub is_first : r.0 ≡ pos first
  pub is_last : r.1 ≡ pos last
  pub in_order : first ≤ last
  pub in_object : last < size

pair_split :
    (a b c d : ℤ) → ◌≡◌ {A = Option (ℤ × ℤ)} (some (a, b)) (some (c, d)) → (a ≡ c) × (b ≡ d)
pair_split a b c d h = (cc, cc)

IsWithin-suffix :
    (size : ℕ) (n : ℤ)
    → size < two63
    → lebℤ n (pos 0) ≡ false
    → ltbℤ (pos size) n ≡ false
    → IsWithin size (wrap64 (pos size -ℤ n), wrap64 (pos size -ℤ pos 1))
IsWithin-suffix size (negsuc n) fits positive le = absurd (ground arith)
IsWithin-suffix size (pos n) fits positive le =
    let some_bytes : 0 < n = ground arith in
    let within : n ≤ size = ground arith in
    record {
      first = size - n;
      last = size - 1;
      is_first = sub-pos size n within fits;
      is_last = sub-pos size 1 (omega arith) fits;
      in_order = omega arith;
      in_object = omega arith;
    }

IsWithin-suffix_range :
    (size : ℕ) (b : Bytes) (r : ℤ × ℤ)
    → size < two63
    → suffix_range b (pos size) ≡ some r
    → IsWithin size r
unfolding suffix_range
IsWithin-suffix_range size b r fits h =
    let (n, parsed, h1) = bind-eq-some (parse_int b) _ h in
    let (out, h2) = guard-eq-some (lebℤ n (pos 0) || ltbℤ (pos size) n) _ h1 in
    let (positive, within) = or-eq-false (lebℤ n (pos 0)) (ltbℤ (pos size) n) out in
    let same = some_injective (wrap64 (pos size -ℤ n), wrap64 (pos size -ℤ pos 1)) r h2 in
    rw (← same) (IsWithin-suffix size n fits positive within)

IsWithin-ends :
    (size : ℕ) (start stop : ℤ)
    → ltbℤ start (pos 0) ≡ false
    → ltbℤ stop start ≡ false
    → lebℤ (pos size) stop ≡ false
    → IsWithin size (start, stop)
IsWithin-ends size (negsuc a) stop nonneg order within = absurd (ground arith)
IsWithin-ends size (pos a) (negsuc b) nonneg order within = absurd (ground arith)
IsWithin-ends size (pos a) (pos b) nonneg order within = record {
  first = a;
  last = b;
  is_first = refl;
  is_last = refl;
  in_order = ground arith;
  in_object = ground arith;
}

IsWithin-to_end :
    (size : ℕ) (start : ℤ)
    → size < two63
    → ltbℤ start (pos 0) ≡ false
    → lebℤ (pos size) start ≡ false
    → IsWithin size (start, wrap64 (pos size -ℤ pos 1))
IsWithin-to_end size (negsuc a) fits nonneg within = absurd (ground arith)
IsWithin-to_end size (pos a) fits nonneg within =
    let inside : a < size = ground arith in
    record {
      first = a;
      last = size - 1;
      is_first = refl;
      is_last = sub-pos size 1 (omega arith) fits;
      in_order = omega arith;
      in_object = omega arith;
    }

IsWithin-simple_range_end :
    (size : ℕ) (start : ℤ) (b : Bytes) (r : ℤ × ℤ)
    → size < two63
    → ltbℤ start (pos 0) ≡ false
    → lebℤ (pos size) start ≡ false
    → simple_range_end start b (pos size) ≡ some r
    → IsWithin size r
unfolding simple_range_end
IsWithin-simple_range_end size start [] r fits nonneg within h =
    let same = some_injective (start, wrap64 (pos size -ℤ pos 1)) r h in
    rw (← same) (IsWithin-to_end size start fits nonneg within)
IsWithin-simple_range_end size start (c ∷ b) r fits nonneg within h =
    let (stop, parsed, h1) = bind-eq-some (parse_int (c ∷ b)) _ h in
    let (out, h2) = guard-eq-some (ltbℤ stop start || lebℤ (pos size) stop) _ h1 in
    let (order, inside) = or-eq-false (ltbℤ stop start) (lebℤ (pos size) stop) out in
    let same = some_injective (start, stop) r h2 in
    rw (← same) (IsWithin-ends size start stop nonneg order inside)

IsWithin-simple_range_of :
    (size : ℕ) (a b : Bytes) (r : ℤ × ℤ)
    → size < two63
    → simple_range_of a b (pos size) ≡ some r
    → IsWithin size r
unfolding simple_range_of
IsWithin-simple_range_of size [] b r fits h = IsWithin-suffix_range size b r fits h
IsWithin-simple_range_of size (c ∷ a) b r fits h =
    let (start, parsed, h1) = bind-eq-some (parse_int (c ∷ a)) _ h in
    let (out, h2) = guard-eq-some (ltbℤ start (pos 0) || lebℤ (pos size) start) _ h1 in
    let (nonneg, within) = or-eq-false (ltbℤ start (pos 0)) (lebℤ (pos size) start) out in
    IsWithin-simple_range_end size start b r fits nonneg within h2

-- A range that the registry accepts for an object of a size below 2^63, be it closed, open or a suffix,
-- begins and ends in the object and does not end before it begins.
pub parse_simple_range-IsWithin :
    (size : ℕ) (h : Bytes) (r : ℤ × ℤ)
    → size < two63
    → parse_simple_range h (pos size) ≡ some r
    → IsWithin size r
unfolding parse_simple_range
parse_simple_range-IsWithin size h r fits e =
    let (rest, cut, e1) = bind-eq-some (cut_prefix (codes "bytes=") h) _ e in
    let (single, e2) = guard-eq-some (any_byte (λ c. c == b',') rest) _ e1 in
    let (parts, split, e3) = bind-eq-some (split_at (λ c. c == b'-') rest) _ e2 in
    IsWithin-simple_range_of size parts.0 parts.1 r fits e3
