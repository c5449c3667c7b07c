-- ===== src/Tests/Store.antt =====
-- Tests of the store: owners, intervals in flight, quota, segments and the bounded table.
use pulsys.Common.{
  ℕ, ◌+◌, ◌<◌, ◌≤◌, true, List, [], ◌∷◌, none, some, Bytes, codes, ◌≡◌, refl, ◌↔◌, ◌⊎◌, arith, pos,
  negsuc,
}
use pulsys.Cache.Inflight.{acquire, taken, Reachable, empty, after, acquires}
use pulsys.Cache.Inflight.Disjoint.{holders, held_once}
use pulsys.Cache.Lru.{get, add, get_or_add, delete}
use pulsys.Cache.Lru.Bounded.{IsTable, IsTable-calls}
use pulsys.Cache.Owners.{append_owner, bytes_less}
use pulsys.Cache.Owners.Ordered.{IsOrdered, IsOwnersAfter, append_owner-IsOwnersAfter}
use pulsys.Cache.Quota.{Counters, reserve_quota, release_reservation}
use pulsys.Cache.Quota.Bounds.{counted, reserve_quota_iff, reserve_quota_wraps}
use pulsys.Cache.Segment.{SegmentParams, commit_meta, validate_segment_params}
use pulsys.Cache.Segment.Recorded.{old_spans, checkpoint_all, IsWritten, commit_meta-checkpoint_all}
use pulsys.Cache.Spans.{Span}
use pulsys.Cache.Spans.Points.{HoldsAny}

abbrev a_c : List Bytes
a_c = codes "a" ∷ codes "c" ∷ []

append_b : append_owner a_c (codes "b") ≡ codes "a" ∷ codes "b" ∷ codes "c" ∷ []
unfolding append_owner
append_b = refl

a_c-IsOrdered : IsOrdered a_c
unfolding bytes_less
a_c-IsOrdered = (refl, tt)

append_owner-IsOwnersAfter_example : IsOwnersAfter a_c (codes "b") (append_owner a_c (codes "b"))
append_owner-IsOwnersAfter_example =
    append_owner-IsOwnersAfter a_c (codes "b") a_c-IsOrdered (omega arith)

abbrev five : List Span
five = record { start = pos 0; stop = pos 5 } ∷ []

abbrev nine : List Span
nine = record { start = pos 0; stop = pos 5 } ∷ record { start = pos 5; stop = pos 9 } ∷ []

take_five : acquire [] (pos 0) (pos 5) ≡ taken five
unfolding acquire
take_five = refl

take_nine : acquire five (pos 5) (pos 9) ≡ taken nine
unfolding acquire
take_nine = refl

nine-Reachable : Reachable nine
nine-Reachable =
    after (after empty (acquires [] five (pos 0) (pos 5) take_five))
      (acquires five nine (pos 5) (pos 9) take_nine)

held_once_example : holders (pos 5) nine ≤ 1
held_once_example = held_once (pos 5) nine nine-Reachable

reserve_quota_iff_example :
    (reserve_quota (counted 100 10 20 (pos 1)) (pos 30) ≡ some (counted 100 10 50 (pos 1))) ↔ (
      (10 < 100)
      × (10 + 20 + 30 ≤ 100)
      × (counted 100 10 50 (pos 1) ≡ counted 100 10 (20 + 30) (pos 1))
      × (release_reservation (counted 100 10 50 (pos 1)) (pos 30) ≡ counted 100 10 20 (pos 1)))
reserve_quota_iff_example =
    reserve_quota_iff 100 10 20 30 (pos 1) (counted 100 10 50 (pos 1)) (omega arith) (omega arith)
      (omega arith)

abbrev chunked : SegmentParams
chunked = record {
  status = 200;
  upstream_host = codes "hub";
  path = codes "/f";
  raw_query = [];
  etag = [];
  content_type = [];
  start = pos 0;
  size = negsuc 0;
  total = negsuc 0;
  extra_headers = [];
  origin_path = [];
}

chunked_accepted : validate_segment_params (codes "key") chunked ≡ true
unfolding validate_segment_params
chunked_accepted = refl

-- After two checkpoints, of 3 and of 5 bytes.
commit_meta-checkpoint_all_example :
    HoldsAny (pos 3) (commit_meta (checkpoint_all none chunked (3 ∷ 5 ∷ [])) chunked (pos 7)).spans
    ↔ (HoldsAny (pos 3) (old_spans none) ⊎ IsWritten 0 7 (pos 3))
commit_meta-checkpoint_all_example =
    commit_meta-checkpoint_all chunked 0 refl (pos 3) none (3 ∷ 5 ∷ []) 7 (omega arith)
      (omega arith, (omega arith, tt))

reserve_quota_wraps_example :
    (c : Counters) × (reserve_quota (counted 100 10 20 (pos 1)) (pos 9223372036854775800) ≡ some c)
reserve_quota_wraps_example =
    reserve_quota_wraps 100 10 20 9223372036854775800 (pos 1) (omega arith) (omega arith)
      (omega arith) (omega arith) (omega arith)

abbrev one_entry : List (Bytes × ℕ)
one_entry = (codes "a", 1) ∷ []

add_evicts : add 1 (codes "b") 2 one_entry ≡ ((codes "b", 2) ∷ [], some (codes "a", 1))
unfolding add
add_evicts = refl

IsTable-calls_example :
    IsTable 1 (get (codes "b") one_entry).0
    × IsTable 1 (add 1 (codes "b") 2 one_entry).0
    × IsTable 1 (get_or_add 1 (codes "b") 2 one_entry).0.0
    × IsTable 1 (delete (codes "b") one_entry).0
IsTable-calls_example = IsTable-calls 1 (codes "b") 2 one_entry ((tt, tt), omega arith)
