-- ===== src/Cache/Segment/Recorded.antt =====
-- What a finished segment leaves in an object's metadata.
use pulsys.Common.{
  ℕ, zero, suc, ◌+◌, ◌<◌, ◌≤◌, All, two63, wrap64_small, add-pos, negsuc, true, List, [], ◌∷◌, ◌++◌,
  Option, none, some, ◌≡◌, refl, ap, ◌∙◌, ◌↔◌, ◌⊎◌, inl, inr, arith, ℤ, pos, ltbℤ, ◌≤ℤ◌, ◌<ℤ◌,
}
use pulsys.Cache.Meta.{Meta}
use pulsys.Cache.Spans.{Span, merge_spans, covers}
use pulsys.Cache.Spans.Merge.{HoldsAny-merge_spans}
use pulsys.Cache.Spans.Points.{Holds, HoldsAny}
use pulsys.Cache.Segment.{
  SegmentParams, start_meta, add_origin, written_span, add_span, commit_spans, commit_total,
  commit_meta, checkpoint_meta,
}

HoldsAny-snoc :
    (x : ℤ) (l : List Span) (s : Span) → HoldsAny x (l ++ s ∷ []) ↔ (HoldsAny x l ⊎ Holds x s)
HoldsAny-snoc x [] s = (
  λ h. elim h [ inl k ↦ inr k | inr k ↦ absurd k ],
  λ h. elim h [ inl k ↦ absurd k | inr k ↦ inl k ],
)
HoldsAny-snoc x (t ∷ l) s =
    let (to, from) = HoldsAny-snoc x l s in
    (
      λ h. elim h [
        | inl k ↦ inl (inl k)
        | inr k ↦ elim (to k) [ inl a ↦ inl (inr a) | inr a ↦ inr a ]
      ],
      λ h. elim h [
        | inl k ↦ elim k [ inl a ↦ inl a | inr a ↦ inr (from (inl a)) ]
        | inr k ↦ inr (from (inr k))
      ],
    )

-- The spans that stood in the metadata, if there were any.
abbrev pub old_spans : Option Meta → List Span
old_spans none = []
old_spans (some m) = m.spans

HoldsAny-add_span :
    (x : ℤ) (l : List Span) (s : Span) → HoldsAny x (add_span l s) ↔ (HoldsAny x l ⊎ Holds x s)
unfolding add_span
HoldsAny-add_span x l s =
    let (out, back) = HoldsAny-merge_spans x (l ++ s ∷ []) in
    let (to, from) = HoldsAny-snoc x l s in (λ h. to (out h), λ h. back (from h))

spans-start_meta :
    (old : Option Meta) (p : SegmentParams) → (start_meta old p).spans ≡ old_spans old
unfolding start_meta
spans-start_meta none p = refl
spans-start_meta (some m) p = refl

-- The metadata after checkpoints at these numbers of bytes written.
pub checkpoint_all : Option Meta → SegmentParams → List ℕ → Option Meta
checkpoint_all old p [] = old
checkpoint_all old p (k ∷ ks) = checkpoint_all (some (checkpoint_meta old p (pos k))) p ks

-- The offset is one of the n behind the start.
abbrev pub IsWritten : ℕ → ℕ → ℤ → Type 0
IsWritten start n x = (pos start ≤ℤ x) × (x <ℤ pos (start + n))

written_span_lem :
    (p : SegmentParams) (start n : ℕ) (x : ℤ)
    → p.start ≡ pos start
    → start + n < two63
    → Holds x (written_span p (pos n)) ↔ IsWritten start n x
unfolding written_span
written_span_lem p start n x at fits =
    let stop = wrap64_small (start + n) fits in rw (at, add-pos start n, stop) ((λ h. h), λ h. h)

module _ (p : SegmentParams) (start : ℕ) (at : p.start ≡ pos start) (x : ℤ) where
  HoldsAny-checkpoint_meta :
      (old : Option Meta) (k : ℕ)
      → start + k < two63
      → HoldsAny x (checkpoint_meta old p (pos k)).spans
        ↔ (HoldsAny x (old_spans old) ⊎ IsWritten start k x)
  unfolding checkpoint_meta add_origin
  HoldsAny-checkpoint_meta old k fits =
      let (to, from) = written_span_lem p start k x at fits in
      let (out, back) = HoldsAny-add_span x (old_spans old) (written_span p (pos k)) in
      rw (spans-start_meta old p) (
        λ h. elim (out h) [ inl a ↦ inl a | inr a ↦ inr (to a) ],
        λ h. back (elim h [ inl a ↦ inl a | inr a ↦ inr (from a) ]),
      )

  HoldsAny-commit_meta :
      (old : Option Meta) (n : ℕ)
      → start + n < two63
      → HoldsAny x (commit_meta old p (pos n)).spans
        ↔ (HoldsAny x (old_spans old) ⊎ IsWritten start n x)
  unfolding commit_meta commit_spans add_origin
  HoldsAny-commit_meta old zero fits =
      rw (spans-start_meta old p)
        ((λ h. inl h), λ h. elim h [ inl a ↦ a | inr a ↦ absurd (omega arith) ])
  HoldsAny-commit_meta old (suc n) fits =
      let test : ltbℤ (pos 0) (pos (suc n)) ≡ true = ground arith in
      let (to, from) = written_span_lem p start (suc n) x at fits in
      let (out, back) = HoldsAny-add_span x (old_spans old) (written_span p (pos (suc n))) in
      rw (test, spans-start_meta old p)
        (
          λ h. elim (out h) [ inl a ↦ inl a | inr a ↦ inr (to a) ],
          λ h. back (elim h [ inl a ↦ inl a | inr a ↦ inr (from a) ]),
        )

  -- Checkpoints add nothing that is not written at the end.
  HoldsAny-checkpoint_all :
      (old : Option Meta) (ks : List ℕ) (n : ℕ)
      → start + n < two63
      → All (λ k. k ≤ n) ks
      → (HoldsAny x (old_spans old) → HoldsAny x (old_spans (checkpoint_all old p ks)))
        × (HoldsAny x (old_spans (checkpoint_all old p ks))
            → HoldsAny x (old_spans old) ⊎ IsWritten start n x)
  unfolding checkpoint_all
  HoldsAny-checkpoint_all old [] n fits below = ((λ h. h), λ h. inl h)
  HoldsAny-checkpoint_all old (k ∷ ks) n fits below =
      let here = below.0 in
      let (to, from) = HoldsAny-checkpoint_meta old k (omega arith) in
      let (kept, only) =
        HoldsAny-checkpoint_all (some (checkpoint_meta old p (pos k))) ks n fits below.1 in
      (
        λ h. kept (from (inl h)),
        λ h. elim (only h) [
          | inl a ↦ elim (to a) [ inl b ↦ inl b | inr b ↦ inr (b.0, let hi = b.1 in omega arith) ]
          | inr a ↦ inr a
        ],
      )

  -- When a segment is committed that wrote n bytes from its start on, the metadata say that a byte is on
  -- disk exactly if they said so before the segment or it is one of the n bytes, however often a
  -- checkpoint was made of at most n bytes meanwhile; the end of the segment is below 2^63.
  pub commit_meta-checkpoint_all :
      (old : Option Meta) (ks : List ℕ) (n : ℕ)
      → start + n < two63
      → All (λ k. k ≤ n) ks
      → HoldsAny x (commit_meta (checkpoint_all old p ks) p (pos n)).spans
        ↔ (HoldsAny x (old_spans old) ⊎ IsWritten start n x)
  commit_meta-checkpoint_all old ks n fits below =
      let (to, from) = HoldsAny-commit_meta (checkpoint_all old p ks) n fits in
      let (kept, only) = HoldsAny-checkpoint_all old ks n fits below in
      (
        λ h. elim (to h) [ inl a ↦ only a | inr a ↦ inr a ],
        λ h. from (elim h [ inl a ↦ inl (kept a) | inr a ↦ inr a ]),
      )

covers-one :
    (n : ℕ) → 0 < n → covers (record { start = pos 0; stop = pos n } ∷ []) (pos 0) (pos n) ≡ true
unfolding covers
covers-one n h = ground arith

first_span :
    (p : SegmentParams) (n : ℕ)
    → p.start ≡ pos 0
    → 0 < n
    → n < two63
    → commit_spans [] p (pos n) ≡ record { start = pos 0; stop = pos n } ∷ []
unfolding commit_spans written_span add_span merge_spans
first_span p n start some_bytes fits =
    let test : ltbℤ (pos 0) (pos n) ≡ true = ground arith in
    let from_zero : 0 + n ≡ n = omega arith in
    rw (test, start, add-pos 0 n, from_zero, wrap64_small n fits) refl

-- A body of unknown length is recorded as whole, with what was written as its total, at whatever point
-- its transfer stopped: a first segment of status 200, from offset 0 and with neither a length nor a
-- total, that wrote n bytes leaves the total n and spans that cover all of it.
pub commit_meta_unknown_length :
    (p : SegmentParams) (n : ℕ)
    → p.status ≡ 200
    → p.start ≡ pos 0
    → p.size ≡ negsuc 0
    → p.total ≡ negsuc 0
    → 0 < n
    → n < two63
    → ((commit_meta none p (pos n)).total ≡ some (pos n))
      × (covers (commit_meta none p (pos n)).spans (pos 0) (pos n) ≡ true)
unfolding commit_meta add_origin start_meta
commit_meta_unknown_length p n status start size total some_bytes fits = (
  rw (commit_total, total, status, start, size) (ground arith),
  ap (λ l. covers l (pos 0) (pos n)) (first_span p n start some_bytes fits)
      ∙ covers-one n some_bytes,
)
