-- ===== src/Cache/Spans/Points.antt =====
-- The offsets that a list of spans holds, and the order of the spans by their starts.
use pulsys.Common.{List, [], ◌∷◌, inl, inr, arith, ℤ, ◌≤ℤ◌, ◌<ℤ◌, All, Any}
use pulsys.Cache.Spans.{Span}

-- The offset x lies in the span.
abbrev pub Holds : ℤ → Span → Type 0
Holds x s = (s.start ≤ℤ x) × (x <ℤ s.stop)

-- The offset x lies in one of the spans.
abbrev pub HoldsAny : ℤ → List Span → Type 0
HoldsAny x = Any (Holds x)

abbrev pub IsValidSpan : Span → Type 0
IsValidSpan s = s.start ≤ℤ s.stop

abbrev pub AreValid : List Span → Type 0
AreValid = All IsValidSpan

-- No span of the list starts before s does.
abbrev pub StartsFrom : Span → List Span → Type 0
StartsFrom s = All (λ t. s.start ≤ℤ t.start)

abbrev pub IsStartSorted : List Span → Type 0
IsStartSorted [] = Unit
IsStartSorted (s ∷ rest) = StartsFrom s rest × IsStartSorted rest

-- Every span starts at the bound or behind it, and ends before the next one starts.
abbrev pub IsDisjointFrom : ℤ → List Span → Type 0
IsDisjointFrom bound [] = Unit
IsDisjointFrom bound (s ∷ rest) = (bound ≤ℤ s.start) × IsDisjointFrom s.stop rest

abbrev pub IsDisjoint : List Span → Type 0
IsDisjoint [] = Unit
IsDisjoint (s ∷ rest) = IsDisjointFrom s.stop rest

pub StartsFrom-weaken :
    (s t : Span) (l : List Span) → s.start ≤ℤ t.start → StartsFrom t l → StartsFrom s l
StartsFrom-weaken s t [] h f = tt
StartsFrom-weaken s t (u ∷ l) h f = (omega arith, StartsFrom-weaken s t l h f.1)

-- An offset before every start is in no span.
pub not-HoldsAny_of_lt :
    (x : ℤ) (s : Span) (l : List Span) → x <ℤ s.start → StartsFrom s l → HoldsAny x l → ⊥
not-HoldsAny_of_lt x s [] h f m = m
not-HoldsAny_of_lt x s (u ∷ l) h f (inl m) = omega arith
not-HoldsAny_of_lt x s (u ∷ l) h f (inr m) = not-HoldsAny_of_lt x s l h f.1 m
