-- ===== src/Cache/Writer/Closed.antt =====
-- A writer that is closed holds none of the quota.
use pulsys.Common.{
  ℕ, zero, suc, ◌+◌, ◌<◌, ◌≤◌, two63, Bool, true, false, List, some, ◌≡◌, refl, ap, sym, ◌∙◌, arith,
  ℤ, pos, ◌-ℤ◌, ltbℤ, lebℤ, if◌then◌else◌, wrap64, wrap64_small, some_injective, add-pos,
  pos_injective, Bool-cases, Option-cases, inl, inr, Bytes, ◌+ℤ◌,
}
use pulsys.Cache.Quota.{Counters, reserve_quota}
use pulsys.Cache.Segment.{SegmentParams, quota_reservation_for, validate_segment_params}
use pulsys.Cache.Store.{Store}
use pulsys.Cache.Writer.{
  SegmentWriter, BeginError, Chunk, begun, refused, begin_segment, new_writer, release_reserved,
  commit, close, tee_copy,
}
use pulsys.Cache.Writer.Reserved.{Holding, sub-pos, Holding-release_reserved}
use pulsys.Cache.Writer.Written.{
  Holding-commit, Holding-tee_copy, total_size, reserve_quota-reserved,
}

sub_self : (k : ℕ) → k < two63 → wrap64 (pos k -ℤ pos k) ≡ pos 0
sub_self k h = sub-pos k k (omega arith) h ∙ ap pos (omega arith)

-- All that the writer holds is given back.
reserved-release_reserved :
    (own k : ℕ) (st : Store) (w : SegmentWriter)
    → own ≤ k
    → k < two63
    → w.reserved ≡ pos own
    → (release_reserved (st, w) (pos k)).1.reserved ≡ pos 0
unfolding release_reserved
reserved-release_reserved own zero st w le fits h =
    let nothing : own ≡ 0 = omega arith in h ∙ ap pos nothing
reserved-release_reserved zero (suc k) st w le fits h =
    let positive : lebℤ (pos (suc k)) (pos 0) ≡ false = ground arith in
    let none_held : lebℤ w.reserved (pos 0) ≡ true = rw h (ground arith) in
    rw (positive, none_held) h
reserved-release_reserved (suc own) (suc k) st w le fits h =
    let positive : lebℤ (pos (suc k)) (pos 0) ≡ false = ground arith in
    let some_held : lebℤ w.reserved (pos 0) ≡ false = rw h (ground arith) in
    elim (Bool-cases (ltbℤ w.reserved (pos (suc k)))) [
      | inl e ↦ rw (positive, some_held, e, h) (sub_self (suc own) (omega arith))
      | inr e ↦
          let test : ltbℤ (pos (suc own)) (pos (suc k)) ≡ false = rw h at e in
          let same : suc own ≡ suc k = ground arith in
          rw (positive, some_held, e, h, same) (sub_self (suc k) fits)
    ]

reserved-release_as :
    (own k : ℕ) (z : ℤ) (st : Store) (w : SegmentWriter)
    → z ≡ pos k
    → own ≤ k
    → k < two63
    → w.reserved ≡ pos own
    → (release_reserved (st, w) z).1.reserved ≡ pos 0
reserved-release_as own k z st w same le fits h =
    ap (λ y. (release_reserved (st, w) y).1.reserved) same
    ∙ reserved-release_reserved own k st w le fits h

if_false {ℓ} : {A : Type ℓ} (b : Bool) (x y : A) → b ≡ false → (if b then x else y) ≡ y
if_false true x y h = cc
if_false false x y h = refl

close-eq :
    (st : Store) (w : SegmentWriter)
    → w.closed ≡ false
    → close (st, w) ≡ release_reserved (commit (st, record w { closed = true })) w.reserved
unfolding close
close-eq st w h = if_false w.closed (st, w) _ h

-- What is closed holds nothing.
pub closed_reserved :
    (others bound : ℕ) (st : Store) (w : SegmentWriter)
    → others + bound < two63
    → Holding false others bound (st, w)
    → ((close (st, w)).1.reserved ≡ pos 0)
      × ((close (st, w)).0.counters.reserved_bytes ≡ pos others)
closed_reserved others bound st w fits h =
    let tight : Holding true others h.own (st, record w { closed = true }) = record {
      own = h.own;
      is_total = h.is_total;
      is_own = h.is_own;
      is_bounded = omega arith;
      is_limited = h.is_limited;
      is_state = refl;
    } in
    let small : others + h.own < two63 = omega (arith, h.is_bounded) in
    let done = Holding-commit true others h.own st (record w { closed = true }) small tight in
    let c = commit (st, record w { closed = true }) in
    let held = Holding-release_reserved true others h.own w.reserved c.0 c.1 small done in
    let none_left =
      reserved-release_as done.own h.own w.reserved c.0 c.1 h.is_own done.is_bounded (omega arith)
        done.is_own in
    let gone : held.own ≡ 0 = pos_injective held.own 0 (sym held.is_own ∙ none_left) in
    let rest : others + held.own ≡ others = omega (arith, gone) in
    let closed = close-eq st w h.is_state in
    (
      ap (λ s. s.1.reserved) closed ∙ none_left,
      ap (λ s. s.0.counters.reserved_bytes) closed ∙ held.is_total ∙ ap pos rest,
    )

reserve_quota_nothing : (c c' : Counters) → reserve_quota c (pos 0) ≡ some c' → c' ≡ c
unfolding reserve_quota
reserve_quota_nothing c c' h = elim (Bool-cases (lebℤ c.max_bytes (pos 0))) [
  | inl e ↦ let h1 : some c ≡ some c' = rw (e, reserve_quota) at h in sym (some_injective c c' h1)
  | inr e ↦ let h1 : some c ≡ some c' = rw (e, reserve_quota) at h in sym (some_injective c c' h1)
]

begun-Holding :
    (others r : ℕ) (st : Store) (key : Bytes) (p : SegmentParams) (c : Counters)
    → others + r < two63
    → quota_reservation_for p ≡ pos r
    → st.counters.reserved_bytes ≡ pos others
    → ltbℤ (pos 0) st.counters.max_bytes ≡ true
    → reserve_quota st.counters (quota_reservation_for p) ≡ some c
    → Holding false others r (record st { counters = c }, new_writer key p c)
unfolding new_writer
begun-Holding others zero st key p c fits amount held limited e =
    let reserves : reserve_quota st.counters (pos 0) ≡ some c = rw amount at e in
    let same = reserve_quota_nothing st.counters c reserves in
    record {
      own = 0;
      is_total = ap (λ d. d.reserved_bytes) same ∙ held ∙ ap pos (omega arith);
      is_own = amount;
      is_bounded = omega arith;
      is_limited = rw same limited;
      is_state = refl;
    }
begun-Holding others (suc r) st key p c fits amount held limited e =
    let reserves : reserve_quota st.counters (pos (suc r)) ≡ some c = rw amount at e in
    let (total, limit) =
      reserve_quota-reserved st.counters c (suc r) (omega arith) limited reserves in
    record {
      own = suc r;
      is_total =
          total
          ∙ ap (λ z. wrap64 (z +ℤ pos (suc r))) held
          ∙ ap wrap64 (add-pos others (suc r))
          ∙ wrap64_small (others + suc r) fits;
      is_own = amount;
      is_bounded = omega arith;
      is_limited = rw limit limited;
      is_state = refl;
    }

begun_injective : (a b : Store) (v w : SegmentWriter) → begun a v ≡ begun b w → (a ≡ b) × (v ≡ w)
begun_injective a b v w h = (cc, cc)

not_begun : (a b : Store) (e : BeginError) (w : SegmentWriter) → refused a e ≡ begun b w → ⊥
not_begun a b e w h = cc

-- What a segment that has begun rests on.
begin_segment-begun :
    (st st' : Store) (w : SegmentWriter) (key : Bytes) (p : SegmentParams) (opens : Bool)
    → begin_segment st key p opens ≡ begun st' w
    → (c : Counters) × (reserve_quota st.counters (quota_reservation_for p) ≡ some c)
      × (record st { counters = c } ≡ st')
      × (new_writer key p c ≡ w)
unfolding begin_segment
begin_segment-begun st st' w key p opens h = elim (Bool-cases (validate_segment_params key p)) [
  | inr e ↦ absurd (not_begun st st' _ w (rw (e, begin_segment) at h))
  | inl e ↦ elim (Option-cases (reserve_quota st.counters (quota_reservation_for p))) [
    | inl f ↦ absurd (not_begun st st' _ w (rw (e, f, begin_segment) at h))
    | inr (c, f) ↦ elim (Bool-cases opens) [
      | inl g ↦
          let (store, writer) = begun_injective _ st' _ w (rw (e, f, g, begin_segment) at h) in
          (c, f, store, writer)
      | inr g ↦ absurd (not_begun _ st' _ w (rw (e, f, g, begin_segment) at h))
    ]
  ]
]

-- The quota that a segment reserves is given back: a segment that begins where a limit is set, is
-- copied chunk by chunk, whatever the disk takes of each, and is closed leaves as much reserved as
-- there was before, and its writer holds nothing. The reservation and the chunks are to add up to less
-- than 2^63 with what others have reserved.
pub segment_reserved :
    (st st' : Store) (w : SegmentWriter) (key : Bytes) (p : SegmentParams) (opens : Bool)
    (interval : ℤ) (chunks : List Chunk) (others r : ℕ)
    → begin_segment st key p opens ≡ begun st' w
    → ltbℤ (pos 0) st.counters.max_bytes ≡ true
    → st.counters.reserved_bytes ≡ pos others
    → quota_reservation_for p ≡ pos r
    → others + (r + total_size chunks) < two63
    → ((close (tee_copy interval (st', w) chunks).0).0.counters.reserved_bytes
        ≡ st.counters.reserved_bytes)
      × ((close (tee_copy interval (st', w) chunks).0).1.reserved ≡ pos 0)
segment_reserved st st' w key p opens interval chunks others r h limited held amount fits =
    let (c, reserves, store, writer) = begin_segment-begun st st' w key p opens h in
    let start : Holding false others r (st', w) =
      rw (← store, ← writer)
        (begun-Holding others r st key p c (omega arith) amount held limited reserves) in
    let copied = tee_copy interval (st', w) chunks in
    let after = Holding-tee_copy interval chunks false others r (st', w) fits start in
    let (nothing, total) =
      closed_reserved others (r + total_size chunks) copied.0.0 copied.0.1 fits after in
    (total ∙ sym held, nothing)
