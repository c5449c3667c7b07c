-- ===== src/Cache/Quota/Bounds.antt =====
-- When the quota is kept, and when it is not.
use pulsys.Common.{
  guard-eq-some, wrap64_small, add-pos, ℕ, ◌+◌, ◌-◌, ◌%◌, ◌≤◌, ◌<◌, false, ◌||◌, some, ◌≡◌, refl,
  ◌↔◌, arith, ℤ, pos, negsuc, ◌+ℤ◌, ◌-ℤ◌, lebℤ, ltbℤ, wrap64, two63, two64,
}
use pulsys.Cache.Quota.{Counters, reserve_quota, release_reservation}

-- The top bit makes it negative.
wrap64_large : (n : ℕ) → two63 ≤ n → n < two64 → wrap64 (pos n) ≡ negsuc (two64 - n - 1)
wrap64_large n lo hi = let same : n % two64 ≡ n = omega arith in rw same (ground arith)

sub-pos : (a b : ℕ) → pos (a + b) -ℤ pos b ≡ pos a
sub-pos a b = ground arith

sum_small :
    (a b n : ℕ) → a + b + n < two63 → wrap64 (wrap64 (pos a +ℤ pos b) +ℤ pos n) ≡ pos (a + b + n)
sum_small a b n h =
    rw (add-pos a b, wrap64_small (a + b) (omega arith), add-pos (a + b) n)
      (wrap64_small (a + b + n) h)

sum_large :
    (a b n : ℕ)
    → a + b < two63
    → n < two63
    → two63 ≤ a + b + n
    → wrap64 (wrap64 (pos a +ℤ pos b) +ℤ pos n) ≡ negsuc (two64 - (a + b + n) - 1)
sum_large a b n h k past =
    rw (add-pos a b, wrap64_small (a + b) h, add-pos (a + b) n)
      (wrap64_large (a + b + n) past (omega arith))

-- A store with these counters.
abbrev pub counted : ℕ → ℕ → ℕ → ℤ → Counters
counted max used reserved entries = record {
  max_bytes = pos max;
  used_bytes = pos used;
  reserved_bytes = pos reserved;
  entry_count = entries;
}

module _ (max used reserved n : ℕ) (entries : ℤ) (some_max : 0 < max) (some_n : 0 < n)
    (fits : used + reserved + n < two63) where
  granted :
      used < max
      → used + reserved + n ≤ max
      → reserve_quota (counted max used reserved entries) (pos n)
        ≡ some (counted max used (reserved + n) entries)
  unfolding reserve_quota
  granted below room =
      let positive : (lebℤ (pos max) (pos 0) || lebℤ (pos n) (pos 0)) ≡ false = ground arith in
      let enough : (lebℤ (pos max) (pos used) || ltbℤ (pos max) (pos (used + reserved + n)))
          ≡ false =
        ground arith in
      rw
        (
          positive,
          sum_small used reserved n fits,
          enough,
          add-pos reserved n,
          wrap64_small (reserved + n) (omega arith),
        )
        refl

  within_quota :
      (c : Counters)
      → reserve_quota (counted max used reserved entries) (pos n) ≡ some c
      → (used < max) × (used + reserved + n ≤ max)
  unfolding reserve_quota
  within_quota c h =
      let positive : (lebℤ (pos max) (pos 0) || lebℤ (pos n) (pos 0)) ≡ false = ground arith in
      let run = rw (positive, sum_small used reserved n fits) at h in
      let passed =
        (guard-eq-some (lebℤ (pos max) (pos used) || ltbℤ (pos max) (pos (used + reserved + n))) _
          run).0 in
      ground arith

  given_back :
      release_reservation (counted max used (reserved + n) entries) (pos n)
      ≡ counted max used reserved entries
  unfolding release_reservation
  given_back =
      let positive : lebℤ (pos n) (pos 0) ≡ false = ground arith in
      rw (positive, sub-pos reserved n, wrap64_small reserved (omega arith)) refl

-- As long as the sum of the counters and the request is an `int64`, a reservation is granted exactly
-- when what is used, reserved and asked for is at most the quota and what is used is less than it; the
-- bytes asked for are then reserved, and giving them back restores the counters.
pub reserve_quota_iff :
    (max used reserved n : ℕ) (entries : ℤ) (c : Counters)
    → 0 < max
    → 0 < n
    → used + reserved + n < two63
    → (reserve_quota (counted max used reserved entries) (pos n) ≡ some c) ↔ (
        (used < max)
        × (used + reserved + n ≤ max)
        × (c ≡ counted max used (reserved + n) entries)
        × (release_reservation c (pos n) ≡ counted max used reserved entries))
unfolding reserve_quota release_reservation
reserve_quota_iff max used reserved n entries c some_max some_n fits = (
  λ h.
      let (below, room) = within_quota max used reserved n entries some_max some_n fits c h in
      let run = granted max used reserved n entries some_max some_n fits below room in
      let same : c ≡ counted max used (reserved + n) entries = cc in
      let back = given_back max used reserved n entries some_max some_n fits in
      (below, room, same, rw same back),
  λ (below, room, same, back).
      rw same (granted max used reserved n entries some_max some_n fits below room),
)

-- The sum of the counters and the request wraps round. So a request that takes it past the largest
-- `int64` is granted whatever the quota is, if what is used is less than the quota.
pub reserve_quota_wraps :
    (max used reserved n : ℕ) (entries : ℤ)
    → used < max
    → 0 < n
    → n < two63
    → used + reserved < two63
    → two63 ≤ used + reserved + n
    → (c : Counters) × (reserve_quota (counted max used reserved entries) (pos n) ≡ some c)
unfolding reserve_quota
reserve_quota_wraps max used reserved n entries below some_n small before past =
    let positive : (lebℤ (pos max) (pos 0) || lebℤ (pos n) (pos 0)) ≡ false = ground arith in
    let rest = two64 - (used + reserved + n) - 1 in
    let passed : (lebℤ (pos max) (pos used) || ltbℤ (pos max) (negsuc rest)) ≡ false =
      ground arith in
    (
      record (counted max used reserved entries) {
        reserved_bytes = wrap64 (pos reserved +ℤ pos n);
      },
      rw (positive, sum_large used reserved n before small past, passed) refl,
    )
