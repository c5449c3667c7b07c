-- ===== src/Cache/Spans.antt =====
-- internal/cache/key.go: `Span`, `MergeSpans`, `isSortedAndDisjoint` and `Covers`. Offsets are
-- int64 values; this code only compares them.
pub mod Points
pub mod Merge
pub mod Cover
use pulsys.Common.{Bool, true, false, ◌&&◌, ◌||◌, List, [], ◌∷◌, if◌then◌else◌, ℤ, lebℤ, ltbℤ}

-- The half-open interval [start, stop).
pub record Span : Type 0 where
  pub start : ℤ
  pub stop : ℤ

-- The loop compares each span with the one before it.
unfoldable pub is_sorted_and_disjoint : List Span → Bool
is_sorted_and_disjoint [] = true
is_sorted_and_disjoint (a ∷ []) = true
is_sorted_and_disjoint (a ∷ b ∷ rest) =
    if ltbℤ b.start a.stop then false else is_sorted_and_disjoint (b ∷ rest)

-- The order that is passed to `sort.Slice`: by start, then by end.
abbrev pub span_less : Span → Span → Bool
span_less a b =
    if lebℤ a.start b.start && lebℤ b.start a.start
    then ltbℤ a.stop b.stop
    else ltbℤ a.start b.start

-- `sort.Slice`: spans that the order does not tell apart are equal, so any sort gives this list.
unfoldable pub insert_span : Span → List Span → List Span
insert_span s [] = s ∷ []
insert_span s (t ∷ rest) = if span_less t s then t ∷ insert_span s rest else s ∷ t ∷ rest

unfoldable pub sort_spans : List Span → List Span
unfolding insert_span
sort_spans [] = []
sort_spans (s ∷ rest) = insert_span s (sort_spans rest)

abbrev pub extend : Span → Span → Span
extend last s = if ltbℤ last.stop s.stop then record last { stop = s.stop } else last

-- The loop of `MergeSpans`: `last` is the last element of `out`; those before it no longer change.
unfoldable pub merge_loop : Span → List Span → List Span
merge_loop last [] = last ∷ []
merge_loop last (s ∷ rest) = elim (lebℤ s.start last.stop) [
  | true ↦ merge_loop (extend last s) rest
  | false ↦ last ∷ merge_loop s rest
]

unfoldable pub merge_sorted : List Span → List Span
unfolding merge_loop
merge_sorted [] = []
merge_sorted (s ∷ rest) = merge_loop s rest

unfoldable pub merge_spans : List Span → List Span
unfolding is_sorted_and_disjoint sort_spans merge_sorted
merge_spans [] = []
merge_spans (s ∷ []) = s ∷ []
merge_spans (s ∷ t ∷ rest) =
    if is_sorted_and_disjoint (s ∷ t ∷ rest)
    then s ∷ t ∷ rest
    else merge_sorted (sort_spans (s ∷ t ∷ rest))

-- The loop of `Covers` over merged spans. After `end <= s.End` it makes the same test twice more,
-- as `s.End >= end` and, with `start = s.End`, as `start >= end`.
unfoldable pub cover_loop : List Span → ℤ → ℤ → Bool
cover_loop [] start stop = false
cover_loop (s ∷ rest) start stop = elim (lebℤ s.stop start) [
  | true ↦ cover_loop rest start stop
  | false ↦ elim (ltbℤ start s.start) [
    | true ↦ false
    | false ↦ elim (lebℤ stop s.stop) [
      | true ↦ true
      | false ↦ elim (lebℤ stop s.stop || lebℤ stop s.stop) [
        | true ↦ true
        | false ↦ cover_loop rest s.stop stop
      ]
    ]
  ]
]

-- What `Covers` does when the interval is not empty.
unfoldable pub covers_wanted : List Span → ℤ → ℤ → Bool
unfolding merge_spans cover_loop
covers_wanted (s ∷ []) start stop = lebℤ s.start start && lebℤ stop s.stop
covers_wanted spans start stop = cover_loop (merge_spans spans) start stop

unfoldable pub covers : List Span → ℤ → ℤ → Bool
unfolding covers_wanted
covers spans start stop = if lebℤ stop start then true else covers_wanted spans start stop
