-- ===== src/Cache/Spans/Merge.antt =====
-- `MergeSpans` keeps the set of offsets, and gives sorted spans that do not overlap.
use pulsys.Common.{
  true, false, List, [], ◌∷◌, ◌≡◌, ◌⊎◌, inl, inr, ◌↔◌, arith, Bool-cases, ℤ, ◌≤ℤ◌, ◌<ℤ◌, lebℤ, ltbℤ,
}
use pulsys.Cache.Spans.{
  Span, is_sorted_and_disjoint, span_less, insert_span, sort_spans, extend, merge_loop,
  merge_sorted, merge_spans,
}
use pulsys.Cache.Spans.Points.{
  Holds, HoldsAny, AreValid, StartsFrom, IsStartSorted, IsDisjointFrom, IsDisjoint,
  StartsFrom-weaken,
}

lebℤ→le : (a b : ℤ) → lebℤ a b ≡ true → a ≤ℤ b
lebℤ→le a b h = ground arith

lebℤ→lt : (a b : ℤ) → lebℤ a b ≡ false → b <ℤ a
lebℤ→lt a b h = ground arith

span_less-start : (s t : Span) → span_less s t ≡ true → s.start ≤ℤ t.start
span_less-start s t h = ground arith

not-span_less-start : (s t : Span) → span_less s t ≡ false → t.start ≤ℤ s.start
not-span_less-start s t h = ground arith

HoldsAny-insert :
    (x : ℤ) (s : Span) (l : List Span) → HoldsAny x (insert_span s l) ↔ (Holds x s ⊎ HoldsAny x l)
unfolding insert_span
HoldsAny-insert x s [] = (λ h. h, λ h. h)
HoldsAny-insert x s (t ∷ l) = elim (Bool-cases (span_less t s)) [
  | inl e ↦ rw e (
    λ h. elim h [
      | inl a ↦ inr (inl a)
      | inr b ↦ elim ((HoldsAny-insert x s l).0 b) [ inl c ↦ inl c | inr d ↦ inr (inr d) ]
    ],
    λ h. elim h [
      | inl a ↦ inr ((HoldsAny-insert x s l).1 (inl a))
      | inr b ↦ elim b [ inl c ↦ inl c | inr d ↦ inr ((HoldsAny-insert x s l).1 (inr d)) ]
    ],
  )
  | inr e ↦ rw e (λ h. h, λ h. h)
]

HoldsAny-sort : (x : ℤ) (l : List Span) → HoldsAny x (sort_spans l) ↔ HoldsAny x l
unfolding sort_spans
HoldsAny-sort x [] = (λ h. h, λ h. h)
HoldsAny-sort x (s ∷ l) =
    let here = HoldsAny-insert x s (sort_spans l) in
    (
      λ h. elim (here.0 h) [ inl a ↦ inl a | inr b ↦ inr ((HoldsAny-sort x l).0 b) ],
      λ h. here.1 (elim h [ inl a ↦ inl a | inr b ↦ inr ((HoldsAny-sort x l).1 b) ]),
    )

StartsFrom-insert :
    (u s : Span) (l : List Span)
    → u.start ≤ℤ s.start
    → StartsFrom u l
    → StartsFrom u (insert_span s l)
unfolding insert_span
StartsFrom-insert u s [] h f = (h, tt)
StartsFrom-insert u s (t ∷ l) h f = elim (Bool-cases (span_less t s)) [
  | inl e ↦ rw e (f.0, StartsFrom-insert u s l h f.1)
  | inr e ↦ rw e (h, f)
]

IsStartSorted-insert :
    (s : Span) (l : List Span) → IsStartSorted l → IsStartSorted (insert_span s l)
unfolding insert_span
IsStartSorted-insert s [] h = (tt, tt)
IsStartSorted-insert s (t ∷ l) h = elim (Bool-cases (span_less t s)) [
  | inl e ↦ rw e (StartsFrom-insert t s l (span_less-start t s e) h.0, IsStartSorted-insert s l h.1)
  | inr e ↦ let le = not-span_less-start t s e in rw e ((le, StartsFrom-weaken s t l le h.0), h)
]

pub IsStartSorted-sort : (l : List Span) → IsStartSorted (sort_spans l)
unfolding sort_spans
IsStartSorted-sort [] = tt
IsStartSorted-sort (s ∷ l) = IsStartSorted-insert s (sort_spans l) (IsStartSorted-sort l)

extend-start : (s t : Span) → (extend s t).start ≡ s.start
extend-start s t = ground arith

Holds-extend :
    (x : ℤ) (s t : Span)
    → s.start ≤ℤ t.start
    → t.start ≤ℤ s.stop
    → Holds x (extend s t) ↔ (Holds x s ⊎ Holds x t)
Holds-extend x s t h k = ground arith

StartsFrom-extend : (s t : Span) (l : List Span) → StartsFrom s l → StartsFrom (extend s t) l
StartsFrom-extend s t l f = StartsFrom-weaken (extend s t) s l (rw extend-start (omega arith)) f

HoldsAny-merge_loop :
    (x : ℤ) (s : Span) (l : List Span)
    → StartsFrom s l
    → IsStartSorted l
    → HoldsAny x (merge_loop s l) ↔ (Holds x s ⊎ HoldsAny x l)
unfolding merge_loop
HoldsAny-merge_loop x s [] f o = (λ h. h, λ h. h)
HoldsAny-merge_loop x s (t ∷ l) f o = elim (Bool-cases (lebℤ t.start s.stop)) [
  | inl e ↦
      let here = Holds-extend x s t f.0 (lebℤ→le t.start s.stop e) in
      let later = HoldsAny-merge_loop x (extend s t) l (StartsFrom-extend s t l f.1) o.1 in
      rw (e, merge_loop)
        (
          λ h. elim (later.0 h) [
            | inl a ↦ elim (here.0 a) [ inl b ↦ inl b | inr c ↦ inr (inl c) ]
            | inr d ↦ inr (inr d)
          ],
          λ h. later.1 (elim h [
            | inl a ↦ inl (here.1 (inl a))
            | inr b ↦ elim b [ inl c ↦ inl (here.1 (inr c)) | inr d ↦ inr d ]
          ]),
        )
  | inr e ↦
      let later = HoldsAny-merge_loop x t l o.0 o.1 in
      rw (e, merge_loop)
        (
          λ h. elim h [ inl a ↦ inl a | inr b ↦ inr (later.0 b) ],
          λ h. elim h [ inl a ↦ inl a | inr b ↦ inr (later.1 b) ],
        )
]

StartsFrom-merge_loop :
    (u s : Span) (l : List Span)
    → u.start ≤ℤ s.start
    → StartsFrom u l
    → StartsFrom u (merge_loop s l)
unfolding merge_loop
StartsFrom-merge_loop u s [] h f = (h, tt)
StartsFrom-merge_loop u s (t ∷ l) h f = elim (Bool-cases (lebℤ t.start s.stop)) [
  | inl e ↦ rw (e, merge_loop) (StartsFrom-merge_loop u (extend s t) l (rw extend-start h) f.1)
  | inr e ↦ rw (e, merge_loop) (h, StartsFrom-merge_loop u t l f.0 f.1)
]

IsStartSorted-merge_loop :
    (s : Span) (l : List Span) → StartsFrom s l → IsStartSorted l → IsStartSorted (merge_loop s l)
unfolding merge_loop
IsStartSorted-merge_loop s [] f o = (tt, tt)
IsStartSorted-merge_loop s (t ∷ l) f o = elim (Bool-cases (lebℤ t.start s.stop)) [
  | inl e ↦
      rw (e, merge_loop) (IsStartSorted-merge_loop (extend s t) l (StartsFrom-extend s t l f.1) o.1)
  | inr e ↦
      rw (e, merge_loop) (StartsFrom-merge_loop s t l f.0 f.1, IsStartSorted-merge_loop t l o.0 o.1)
]

IsDisjointFrom-merge_loop :
    (bound : ℤ) (s : Span) (l : List Span)
    → bound ≤ℤ s.start
    → IsDisjointFrom bound (merge_loop s l)
unfolding merge_loop
IsDisjointFrom-merge_loop bound s [] h = (h, tt)
IsDisjointFrom-merge_loop bound s (t ∷ l) h = elim (Bool-cases (lebℤ t.start s.stop)) [
  | inl e ↦ rw (e, merge_loop) (IsDisjointFrom-merge_loop bound (extend s t) l (rw extend-start h))
  | inr e ↦ rw (e, merge_loop) (h, IsDisjointFrom-merge_loop s.stop t l (ground arith))
]

DisjointFrom_of_test :
    (s : Span) (l : List Span) → is_sorted_and_disjoint (s ∷ l) ≡ true → IsDisjointFrom s.stop l
unfolding is_sorted_and_disjoint
DisjointFrom_of_test s [] h = tt
DisjointFrom_of_test s (t ∷ l) h = elim (Bool-cases (ltbℤ t.start s.stop)) [
  | inl e ↦ cc
  | inr e ↦ (ground arith, DisjointFrom_of_test t l (rw e at h))
]

-- Spans that are valid and disjoint are in order.
StartsFrom-of_disjoint :
    (u s : Span) (l : List Span)
    → u.start ≤ℤ s.stop
    → AreValid l
    → IsDisjointFrom s.stop l
    → StartsFrom u l
StartsFrom-of_disjoint u s [] h v d = tt
StartsFrom-of_disjoint u s (t ∷ l) h v d =
    (omega arith, StartsFrom-of_disjoint u t l (omega arith) v.1 d.1)

IsStartSorted-of_disjoint : (l : List Span) → AreValid l → IsDisjoint l → IsStartSorted l
IsStartSorted-of_disjoint [] v d = tt
IsStartSorted-of_disjoint (s ∷ []) v d = (tt, tt)
IsStartSorted-of_disjoint (s ∷ t ∷ l) v d =
    (StartsFrom-of_disjoint s s (t ∷ l) v.0 v.1 d, IsStartSorted-of_disjoint (t ∷ l) v.1 d.1)

IsDisjoint-of_from : (bound : ℤ) (l : List Span) → IsDisjointFrom bound l → IsDisjoint l
IsDisjoint-of_from bound [] d = tt
IsDisjoint-of_from bound (s ∷ l) d = d.1

HoldsAny-merge_sorted :
    (x : ℤ) (l : List Span) → IsStartSorted l → HoldsAny x (merge_sorted l) ↔ HoldsAny x l
unfolding merge_sorted
HoldsAny-merge_sorted x [] o = (λ h. h, λ h. h)
HoldsAny-merge_sorted x (s ∷ l) o = HoldsAny-merge_loop x s l o.0 o.1

merge_sorted_order :
    (l : List Span) → IsStartSorted l → IsDisjoint (merge_sorted l) × IsStartSorted (merge_sorted l)
unfolding merge_sorted
merge_sorted_order [] o = (tt, tt)
merge_sorted_order (s ∷ l) o = (
  IsDisjoint-of_from s.start (merge_loop s l) (IsDisjointFrom-merge_loop s.start s l (omega arith)),
  IsStartSorted-merge_loop s l o.0 o.1,
)

-- The merged spans hold the same offsets as the given ones, whatever the spans are.
pub HoldsAny-merge_spans : (x : ℤ) (l : List Span) → HoldsAny x (merge_spans l) ↔ HoldsAny x l
unfolding merge_spans
HoldsAny-merge_spans x [] = (λ h. h, λ h. h)
HoldsAny-merge_spans x (s ∷ []) = (λ h. h, λ h. h)
HoldsAny-merge_spans x (s ∷ t ∷ l) =
    let all = s ∷ t ∷ l in
    elim (Bool-cases (is_sorted_and_disjoint all)) [
      | inl e ↦ rw e (λ h. h, λ h. h)
      | inr e ↦
          let merged = HoldsAny-merge_sorted x (sort_spans all) (IsStartSorted-sort all) in
          let sorted = HoldsAny-sort x all in
          rw e (λ h. sorted.0 (merged.0 h), λ h. merged.1 (sorted.1 h))
    ]

-- Of spans that do not end before they start, the merged ones are in the order of their starts, and
-- each of them ends before the next one starts or where it starts.
pub merge_spans_order :
    (l : List Span) → AreValid l → IsDisjoint (merge_spans l) × IsStartSorted (merge_spans l)
unfolding merge_spans
merge_spans_order [] v = (tt, tt)
merge_spans_order (s ∷ []) v = (tt, (tt, tt))
merge_spans_order (s ∷ t ∷ l) v =
    let all = s ∷ t ∷ l in
    elim (Bool-cases (is_sorted_and_disjoint all)) [
      | inl e ↦
          let d = DisjointFrom_of_test s (t ∷ l) e in rw e (d, IsStartSorted-of_disjoint all v d)
      | inr e ↦ rw e (merge_sorted_order (sort_spans all) (IsStartSorted-sort all))
    ]
