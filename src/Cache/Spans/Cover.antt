-- ===== src/Cache/Spans/Cover.antt =====
-- `Covers` decides whether every offset of the wanted interval lies in a span.
use pulsys.Common.{
  ◌&&◌, true, List, [], ◌∷◌, ◌≡◌, inl, inr, ◌↔◌, arith, Bool-cases, refl, ℤ, ◌≤ℤ◌, ◌<ℤ◌, lebℤ, ltbℤ,
}
use pulsys.Cache.Spans.{Span, merge_spans, cover_loop, covers_wanted, covers}
use pulsys.Cache.Spans.Merge.{HoldsAny-merge_spans, merge_spans_order}
use pulsys.Cache.Spans.Points.{HoldsAny, AreValid, IsStartSorted, not-HoldsAny_of_lt}

-- Every offset of [start, stop) is in one of the spans.
abbrev pub IsCovered : List Span → ℤ → ℤ → Type 0
IsCovered l start stop = (x : ℤ) → start ≤ℤ x → x <ℤ stop → HoldsAny x l

cover_loop_sound :
    (l : List Span) (start stop : ℤ) → cover_loop l start stop ≡ true → IsCovered l start stop
unfolding cover_loop
cover_loop_sound [] start stop h x lo hi = cc
cover_loop_sound (s ∷ l) start stop h x lo hi = elim (Bool-cases (lebℤ s.stop start)) [
  | inl e ↦ inr (cover_loop_sound l start stop (rw (e, cover_loop) at h) x lo hi)
  | inr e ↦ elim (Bool-cases (ltbℤ start s.start)) [
    | inl f ↦ absurd (ground arith)
    | inr f ↦ elim (Bool-cases (ltbℤ x s.stop)) [
      | inl g ↦ inl (ground arith)
      | inr g ↦ inr (cover_loop_sound l s.stop stop (ground arith) x (ground arith) hi)
    ]
  ]
]

-- What is covered behind the end of the first span is covered by the others.
IsCovered-tail :
    (s : Span) (l : List Span) (start from stop : ℤ)
    → start ≤ℤ from
    → s.stop ≤ℤ from
    → IsCovered (s ∷ l) start stop
    → IsCovered l from stop
IsCovered-tail s l start from stop h k c x lo hi = elim (c x (omega arith) hi) [
  | inl m ↦ absurd (omega arith)
  | inr m ↦ m
]

cover_loop_complete :
    (l : List Span) (start stop : ℤ)
    → IsStartSorted l
    → start <ℤ stop
    → IsCovered l start stop
    → cover_loop l start stop ≡ true
unfolding cover_loop
cover_loop_complete [] start stop o h c = absurd (c start (omega arith) h)
cover_loop_complete (s ∷ l) start stop o h c = elim (Bool-cases (lebℤ s.stop start)) [
  | inl e ↦
      rw (e, cover_loop)
        (cover_loop_complete l start stop o.1 h
          (IsCovered-tail s l start start stop (omega arith) (ground arith) c))
  | inr e ↦ elim (Bool-cases (ltbℤ start s.start)) [
    | inl f ↦ absurd (elim (c start (omega arith) h) [
      | inl m ↦ ground arith
      | inr m ↦ not-HoldsAny_of_lt start s l (ground arith) o.0 m
    ])
    | inr f ↦ elim (Bool-cases (lebℤ stop s.stop)) [
      | inl g ↦ ground arith
      | inr g ↦
          let later =
            cover_loop_complete l s.stop stop o.1 (ground arith)
              (IsCovered-tail s l start s.stop stop (ground arith) (omega arith) c) in
          ground arith
    ]
  ]
]

one_span :
    (s : Span) (start stop : ℤ)
    → start <ℤ stop
    → ((lebℤ s.start start && lebℤ stop s.stop) ≡ true) ↔ IsCovered (s ∷ []) start stop
one_span s start stop h = (
  λ e x lo hi. inl (ground arith),
  λ c. elim (Bool-cases (lebℤ s.start start)) [
    | inl e ↦ elim (Bool-cases (lebℤ stop s.stop)) [
      | inl f ↦ ground arith
      | inr f ↦ elim (Bool-cases (lebℤ start s.stop)) [
        | inl g ↦
            absurd
              (elim (c s.stop (ground arith) (ground arith)) [ inl m ↦ omega arith | inr m ↦ m ])
        | inr g ↦ absurd (elim (c start (omega arith) h) [ inl m ↦ ground arith | inr m ↦ m ])
      ]
    ]
    | inr e ↦ absurd (elim (c start (omega arith) h) [ inl m ↦ ground arith | inr m ↦ m ])
  ],
)

merged_iff :
    (l : List Span) (start stop : ℤ)
    → AreValid l
    → start <ℤ stop
    → (cover_loop (merge_spans l) start stop ≡ true) ↔ IsCovered l start stop
merged_iff l start stop v h =
    let order = merge_spans_order l v in
    (
      λ e x lo hi.
          (HoldsAny-merge_spans x l).0 (cover_loop_sound (merge_spans l) start stop e x lo hi),
      λ c.
          cover_loop_complete (merge_spans l) start stop order.1 h
            (λ x lo hi. (HoldsAny-merge_spans x l).1 (c x lo hi)),
    )

covers_wanted_iff :
    (l : List Span) (start stop : ℤ)
    → AreValid l
    → start <ℤ stop
    → (covers_wanted l start stop ≡ true) ↔ IsCovered l start stop
unfolding covers_wanted
covers_wanted_iff [] start stop v h = merged_iff [] start stop v h
covers_wanted_iff (s ∷ []) start stop v h = one_span s start stop h
covers_wanted_iff (s ∷ t ∷ l) start stop v h = merged_iff (s ∷ t ∷ l) start stop v h

-- For spans that do not end before they start, given in any order and overlapping in any way,
-- `Covers` answers true exactly when every offset of the wanted interval lies in one of the spans.
pub covers_iff :
    (l : List Span) (start stop : ℤ)
    → AreValid l
    → (covers l start stop ≡ true) ↔ IsCovered l start stop
unfolding covers
covers_iff l start stop v = elim (Bool-cases (lebℤ stop start)) [
  | inl e ↦ rw e ((λ h x lo hi. absurd (ground arith)), λ c. refl)
  | inr e ↦ rw e (covers_wanted_iff l start stop v (ground arith))
]

-- An interval that is empty, or that ends before it starts, is covered by any spans, also by none.
pub covers_empty : (l : List Span) (start stop : ℤ) → stop ≤ℤ start → covers l start stop ≡ true
unfolding covers
covers_empty l start stop h = ground arith
