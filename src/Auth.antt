-- ===== src/Auth.antt =====
-- internal/auth/proxygate.go: the gate of the data plane, which wants a personal access token and
-- keeps the accepted ones for a while. Times are clock readings. SHA-256 and the token store are
-- parameters: `lookup t token` is what the store answers in the call whose result is kept at the
-- time t. The mutex makes each use of the kept tokens one step.
pub mod Ttl
pub mod Roles
pub mod Csrf
use mathlib.Core.List.{map}
use pulsys.Common.{
  ℕ, ◌+◌, Bool, true, false, not, ◌||◌, List, [], ◌∷◌, Option, none, some, if◌then◌else◌, ltb, ◌==◌,
  length, take, drop, Bytes, codes, bytes_eq, lower, trim, cut_prefix,
}

pub data Verdict : Type 0 where
  valid invalid_session lookup_failed : Verdict

-- The token of the header's value, if it names the scheme.
unfoldable pub some_token : Bytes → Option Bytes
some_token [] = none
some_token (c ∷ s) = some (c ∷ s)

unfoldable pub bearer_from_bytes : Bytes → Option Bytes
unfolding trim some_token
bearer_from_bytes auth =
    if ltb (length auth) 7
    then none
    else if not (bytes_eq (map lower (take 7 auth)) (map lower (codes "Bearer ")))
    then none
    else some_token (trim (drop 7 auth))

unfoldable pub is_pat : Bytes → Bool
is_pat token = elim (cut_prefix (codes "pulsys_") token) [ none ↦ false | some _ ↦ true ]

unfoldable pub is_public : Bytes → Bool
is_public path =
    bytes_eq path (codes "/healthz")
    || bytes_eq path (codes "/readyz")
    || bytes_eq path (codes "/metrics")

-- The map from hashes to the times at which they expire.
unfoldable pub expires_at : Bytes → List (Bytes × ℕ) → Option ℕ
expires_at h [] = none
expires_at h ((k, e) ∷ kept) = let rest = expires_at h kept in if bytes_eq k h then some e else rest

unfoldable pub forget : Bytes → List (Bytes × ℕ) → List (Bytes × ℕ)
forget h [] = []
forget h ((k, e) ∷ kept) = let rest = forget h kept in if bytes_eq k h then rest else (k, e) ∷ rest

unfoldable pub invalidate_by_hash : Bytes → List (Bytes × ℕ) → List (Bytes × ℕ)
unfolding forget
invalidate_by_hash hash kept = if not (length hash == 32) then kept else forget hash kept

unfoldable pub lookup_cached : Bytes → ℕ → List (Bytes × ℕ) → List (Bytes × ℕ) × Bool
unfolding expires_at forget
lookup_cached h now kept = elim (expires_at h kept) [
  | none ↦ (kept, false)
  | some e ↦ if ltb e now then (forget h kept, false) else (kept, true)
]

unfoldable pub store_cached : Bytes → ℕ → ℕ → List (Bytes × ℕ) → List (Bytes × ℕ)
unfolding forget
store_cached h later ttl kept = (h, later + ttl) ∷ forget h kept

-- What follows the lookup in the store.
unfoldable pub after_lookup :
    Verdict → Bytes → ℕ → ℕ → List (Bytes × ℕ) → List (Bytes × ℕ) × (ℕ × Bytes)
unfolding store_cached
after_lookup valid h later ttl kept = (store_cached h later ttl kept, (0, []))
after_lookup invalid_session h later ttl kept = (kept, (401, codes "invalid or revoked token"))
after_lookup lookup_failed h later ttl kept = (kept, (401, codes "authentication failed"))

module _ (sha256 : Bytes → Bytes) (lookup : ℕ → Bytes → Verdict) (ttl : ℕ) where
  unfoldable pub check_token : Bytes → ℕ → ℕ → List (Bytes × ℕ) → List (Bytes × ℕ) × (ℕ × Bytes)
  unfolding is_pat lookup_cached after_lookup
  check_token token now later kept =
      if not (is_pat token)
      then (kept, (401, codes "unsupported credential (expected Bearer pulsys_...)"))
      else (let (kept', hit) = lookup_cached (sha256 token) now kept in
          if hit
          then (kept', (0, []))
          else after_lookup (lookup later token) (sha256 token) later ttl kept')

  -- `Check`: the clock shows `now` when the kept tokens are looked up, and `later` when one is kept.
  unfoldable pub check : Bytes → Bytes → ℕ → ℕ → List (Bytes × ℕ) → List (Bytes × ℕ) × (ℕ × Bytes)
  unfolding is_public bearer_from_bytes check_token
  check auth path now later kept =
      if is_public path then (kept, (0, [])) else elim (bearer_from_bytes auth) [
        | none ↦ (kept, (401, codes "missing Authorization (expected Bearer pulsys_...)"))
        | some token ↦ check_token token now later kept
      ]

  -- The kept tokens after any calls.
  pub data Reachable : List (Bytes × ℕ) → Type 0 where
    empty : Reachable []
    checked :
        {kept : List (Bytes × ℕ)} (auth path : Bytes) (now later : ℕ)
        → Reachable kept
        → Reachable (check auth path now later kept).0
    invalidated :
        {kept : List (Bytes × ℕ)} (hash : Bytes)
        → Reachable kept
        → Reachable (invalidate_by_hash hash kept)
