-- ===== src/Cache/Inflight.antt =====
-- internal/cache/inflight.go: the intervals of one object that are being fetched. A caller takes an
-- interval under the set's mutex, so each step is one function on the list; a caller whose interval
-- overlaps waits on the condition and tries again after the next broadcast.
pub mod Disjoint
use pulsys.Common.{Bool, true, false, ◌&&◌, List, [], ◌∷◌, ◌++◌, if◌then◌else◌, ◌≡◌, ℤ, lebℤ, ltbℤ}
use pulsys.Cache.Spans.{Span}

unfoldable pub spans_overlap : List Span → ℤ → ℤ → Bool
spans_overlap [] start stop = false
spans_overlap (sp ∷ set) start stop =
    if ltbℤ sp.start stop && ltbℤ start sp.stop then true else spans_overlap set start stop

-- What one look at the set under the mutex comes to: the interval is taken, the caller gives up, or it
-- waits. `acquire` never gives up; `acquireCtx` does when its context is done or its time is over.
pub data Look : Type 0 where
  taken : List Span → Look
  gave_up : Look
  waits : Look

unfoldable pub acquire : List Span → ℤ → ℤ → Look
unfolding spans_overlap
acquire set start stop =
    if spans_overlap set start stop
    then waits
    else taken (set ++ (record { start = start; stop = stop }) ∷ [])

unfoldable pub acquire_ctx : List Span → ℤ → ℤ → Bool → Bool → Look
unfolding spans_overlap
acquire_ctx set start stop cancelled expired =
    if spans_overlap set start stop
    then (if cancelled then gave_up else if expired then gave_up else waits)
    else taken (set ++ (record { start = start; stop = stop }) ∷ [])

-- Removes the first span with these bounds.
unfoldable pub release : List Span → ℤ → ℤ → List Span
release [] start stop = []
release (sp ∷ set) start stop =
    if (lebℤ sp.start start && lebℤ start sp.start) && (lebℤ sp.stop stop && lebℤ stop sp.stop)
    then set
    else sp ∷ release set start stop

-- The steps that callers take on the set, in any order.
pub data Step : List Span → List Span → Type 0 where
  acquires :
      (set set' : List Span) (start stop : ℤ) → acquire set start stop ≡ taken set' → Step set set'
  acquires_ctx :
      (set set' : List Span) (start stop : ℤ) (cancelled expired : Bool)
      → acquire_ctx set start stop cancelled expired ≡ taken set'
      → Step set set'
  releases : (set : List Span) (start stop : ℤ) → Step set (release set start stop)

-- The sets that come up, from the empty one.
pub data Reachable : List Span → Type 0 where
  empty : Reachable []
  after : {set set' : List Span} → Reachable set → Step set set' → Reachable set'
