-- ===== src/Cache/Inflight/Disjoint.antt =====
-- No byte of an object is fetched by two callers at a time.
use pulsys.Common.{
  ℕ, suc, ◌≤◌, Bool, true, false, ◌&&◌, List, [], ◌∷◌, ◌++◌, if◌then◌else◌, ◌≡◌, refl, arith, inl,
  inr, ◌⊎◌, Bool-cases, All, All-append, ℤ, ◌≤ℤ◌, ◌<ℤ◌, lebℤ, ltbℤ,
}
use pulsys.Cache.Inflight.{
  spans_overlap, taken, gave_up, waits, acquire, acquire_ctx, release, Step, acquires, acquires_ctx,
  releases, Reachable, empty, after,
}
use pulsys.Cache.Spans.{Span}

-- The number of spans that the offset lies in.
abbrev pub holders : ℤ → List Span → ℕ
holders x [] = 0
holders x (s ∷ set) =
    let rest = holders x set in if lebℤ s.start x && ltbℤ x s.stop then suc rest else rest

-- One of the two ends before the other starts.
abbrev Apart : Span → Span → Type 0
Apart s t = (t.stop ≤ℤ s.start) ⊎ (s.stop ≤ℤ t.start)

abbrev AllApart : List Span → Type 0
AllApart [] = Unit
AllApart (s ∷ set) = All (Apart s) set × AllApart set

AllApart-snoc :
    (set : List Span) (t : Span)
    → AllApart set
    → spans_overlap set t.start t.stop ≡ false
    → AllApart (set ++ t ∷ [])
unfolding spans_overlap
AllApart-snoc [] t h free = (tt, tt)
AllApart-snoc (s ∷ set) t h free =
    let apart : Apart s t = ground arith in
    let rest : spans_overlap set t.start t.stop ≡ false = ground arith in
    (All-append (Apart s) set (t ∷ []) h.0 (apart, tt), AllApart-snoc set t h.1 rest)

All-release :
    (P : Span → Type 0) (set : List Span) (start stop : ℤ)
    → All P set
    → All P (release set start stop)
unfolding release
All-release P [] start stop h = h
All-release P (s ∷ set) start stop h =
    elim (Bool-cases
      ((lebℤ s.start start && lebℤ start s.start) && (lebℤ s.stop stop && lebℤ stop s.stop))) [
        | inl e ↦ rw e h.1
        | inr e ↦ rw e (h.0, All-release P set start stop h.1)
      ]

AllApart-release :
    (set : List Span) (start stop : ℤ) → AllApart set → AllApart (release set start stop)
unfolding release
AllApart-release [] start stop h = h
AllApart-release (s ∷ set) start stop h =
    elim (Bool-cases
      ((lebℤ s.start start && lebℤ start s.start) && (lebℤ s.stop stop && lebℤ stop s.stop))) [
        | inl e ↦ rw e h.1
        | inr e ↦
            rw e (All-release (Apart s) set start stop h.0, AllApart-release set start stop h.1)
      ]

-- Taking an interval that overlaps none.
AllApart-taken :
    (set set' : List Span) (start stop : ℤ)
    → AllApart set
    → spans_overlap set start stop ≡ false
    → taken (set ++ (record { start = start; stop = stop }) ∷ []) ≡ taken set'
    → AllApart set'
AllApart-taken set set' start stop h free e =
    let same : set ++ (record { start = start; stop = stop }) ∷ [] ≡ set' = cc in
    rw⁻¹ same (AllApart-snoc set (record { start = start; stop = stop }) h free)

blocked_not_taken :
    (cancelled expired : Bool) (set : List Span)
    → (if cancelled then gave_up else if expired then gave_up else waits) ≡ taken set
    → ⊥
blocked_not_taken true expired set h = cc
blocked_not_taken false true set h = cc
blocked_not_taken false false set h = cc

AllApart-Step : {set set' : List Span} → Step set set' → AllApart set → AllApart set'
unfolding acquire acquire_ctx
AllApart-Step (acquires set set' start stop run) h =
    elim (Bool-cases (spans_overlap set start stop)) [
      | inl e ↦ let blocked : waits ≡ taken set' = rw e at run in cc
      | inr e ↦ AllApart-taken set set' start stop h e (rw e at run)
    ]
AllApart-Step (acquires_ctx set set' start stop cancelled expired run) h =
    elim (Bool-cases (spans_overlap set start stop)) [
      | inl e ↦ absurd (blocked_not_taken cancelled expired set' (rw e at run))
      | inr e ↦ AllApart-taken set set' start stop h e (rw e at run)
    ]
AllApart-Step (releases set start stop) h = AllApart-release set start stop h

AllApart-Reachable : {set : List Span} → Reachable set → AllApart set
AllApart-Reachable empty = tt
AllApart-Reachable (after before step) = AllApart-Step step (AllApart-Reachable before)

no-holders :
    (x : ℤ) (s : Span) (set : List Span)
    → s.start ≤ℤ x
    → x <ℤ s.stop
    → All (Apart s) set
    → holders x set ≡ 0
no-holders x s [] lo hi h = refl
no-holders x s (t ∷ set) lo hi h =
    let rest = no-holders x s set lo hi h.1 in
    elim h.0 [ inl before ↦ ground arith | inr behind ↦ ground arith ]

holders-le-one : (x : ℤ) (set : List Span) → AllApart set → holders x set ≤ 1
holders-le-one x [] h = omega arith
holders-le-one x (s ∷ set) h = elim (Bool-cases (lebℤ s.start x && ltbℤ x s.stop)) [
  | inl e ↦ let none_else = no-holders x s set (ground arith) (ground arith) h.0 in ground arith
  | inr e ↦ let rest = holders-le-one x set h.1 in ground arith
]

-- Whatever callers take and give back, and in whatever order, an offset lies in at most one of the
-- intervals that are being fetched.
pub held_once : (x : ℤ) (set : List Span) → Reachable set → holders x set ≤ 1
held_once x set reached = holders-le-one x set (AllApart-Reachable reached)
