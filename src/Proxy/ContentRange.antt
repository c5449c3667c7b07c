-- ===== src/Proxy/ContentRange.antt =====
-- internal/proxy/util.go: `parseContentRangeResponse`.
use pulsys.Common.{
  ◌||◌, List, [], ◌∷◌, Option, none, some, if◌then◌else◌, ◌==◌, Bytes, codes, bytes_eq, cut_prefix,
  split_at, split_on, drop, trim, to_lower, parse_int, ℤ, pos, negsuc, ◌+ℤ◌, ltbℤ, wrap64,
}

-- The start, the end and the total, half-open, with -1 for a total that is not known.
pub record ContentRange : Type 0 where
  pub start : ℤ
  pub stop : ℤ
  pub total : ℤ

unfoldable pub range_total : Bytes → Option ℤ
unfolding parse_int
range_total s =
    if bytes_eq s (codes "*")
    then some (negsuc 0)
    else elim (parse_int s) [ none ↦ none | some t ↦ if ltbℤ t (pos 0) then none else some t ]

unfoldable pub range_numbers : Bytes → Bytes → Bytes → Option ContentRange
unfolding parse_int range_total
range_numbers first last total_text = elim (parse_int first) [
  | none ↦ none
  | some a ↦ elim (parse_int last) [
    | none ↦ none
    | some b ↦ if ltbℤ a (pos 0) || ltbℤ b a then none else elim (range_total total_text) [
      | none ↦ none
      | some t ↦ some (record { start = a; stop = wrap64 (b +ℤ pos 1); total = t })
    ]
  ]
]

unfoldable pub range_of_pieces : List Bytes → Option ContentRange
unfolding trim range_numbers
range_of_pieces (se ∷ total_text ∷ []) = elim (split_at (λ c. c == b'-') (trim se)) [
  | none ↦ none
  | some (first, last) ↦ range_numbers first last (trim total_text)
]
range_of_pieces _ = none

unfoldable pub parse_content_range_response : Bytes → Option ContentRange
unfolding trim split_on range_of_pieces
parse_content_range_response s = elim (cut_prefix (codes "bytes ") (to_lower (trim s))) [
  | none ↦ none
  | some _ ↦ range_of_pieces (split_on b'/' (drop 6 (trim s)))
]
