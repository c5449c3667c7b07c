-- ===== src/Cache/Ranges.antt =====
-- internal/cache/store.go: `ParseSingleRange`.
pub mod Bounds
use pulsys.Common.{
  Bool, true, false, not, List, [], ◌∷◌, Option, none, some, if◌then◌else◌, Bytes, codes,
  cut_prefix, split_at, ◌==◌, drop, ℤ, pos, negsuc, lebℤ, ◌+ℤ◌, wrap64, trim, to_lower, parse_int,
}

-- The end of the range: what stands behind the dash, for an object of this total size.
unfoldable pub range_end : Bytes → ℤ → Option ℤ
unfolding parse_int
range_end [] total = some (if lebℤ total (pos 0) then negsuc 0 else total)
range_end (c ∷ s) total = elim (parse_int (c ∷ s)) [
  | none ↦ none
  | some n ↦ some (wrap64 (n +ℤ pos 1))
]

unfoldable pub range_of_parts : Bytes → Bytes → ℤ → Option (ℤ × ℤ)
unfolding range_end parse_int trim
range_of_parts first last total = elim (parse_int (trim first)) [
  | none ↦ none
  | some start ↦ elim (range_end (trim last) total) [ none ↦ none | some stop ↦ some (start, stop) ]
]

-- The start and the end of the range, half-open; an end of -1 means that the total is not known.
unfoldable pub parse_single_range : Bytes → ℤ → Option (ℤ × ℤ)
unfolding range_of_parts trim
parse_single_range v total = elim (cut_prefix (codes "bytes=") (to_lower (trim v))) [
  | none ↦ none
  | some _ ↦ elim (split_at (λ c. c == b'-') (drop 6 (trim v))) [
    | none ↦ none
    | some (first, last) ↦ range_of_parts first last total
  ]
]
