-- ===== src/Tests/Spans.antt =====
-- Tests of the span algebra.
use pulsys.Common.{◌≡◌, refl, true, false, List, [], ◌∷◌, ◌↔◌, ℤ, pos, arith}
use pulsys.Cache.Spans.{Span, merge_spans, covers}
use pulsys.Cache.Spans.Points.{AreValid, HoldsAny, IsDisjoint, IsStartSorted}
use pulsys.Cache.Spans.Merge.{HoldsAny-merge_spans, merge_spans_order}
use pulsys.Cache.Spans.Cover.{IsCovered, covers_iff, covers_empty}

abbrev span : ℤ → ℤ → Span
span a b = record { start = a; stop = b }

abbrev three : List Span
three = span (pos 20) (pos 30) ∷ span (pos 0) (pos 12) ∷ span (pos 10) (pos 15) ∷ []

three-AreValid : AreValid three
three-AreValid = (omega arith, (omega arith, (omega arith, tt)))

merge_three : merge_spans three ≡ span (pos 0) (pos 15) ∷ span (pos 20) (pos 30) ∷ []
unfolding merge_spans
merge_three = refl

three_covered : covers three (pos 3) (pos 14) ≡ true
unfolding covers
three_covered = refl

gap_found : covers three (pos 3) (pos 21) ≡ false
unfolding covers
gap_found = refl

covers_iff_example : (covers three (pos 3) (pos 14) ≡ true) ↔ IsCovered three (pos 3) (pos 14)
covers_iff_example = covers_iff three (pos 3) (pos 14) three-AreValid

HoldsAny-merge_spans_example : HoldsAny (pos 11) (merge_spans three) ↔ HoldsAny (pos 11) three
HoldsAny-merge_spans_example = HoldsAny-merge_spans (pos 11) three

merge_spans_order_example : IsDisjoint (merge_spans three) × IsStartSorted (merge_spans three)
merge_spans_order_example = merge_spans_order three three-AreValid

covers_empty_example : covers [] (pos 10) (pos 4) ≡ true
covers_empty_example = covers_empty [] (pos 10) (pos 4) (omega arith)
