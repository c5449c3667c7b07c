-- ===== src/Auth/Ttl.antt =====
-- How long the gate admits a token that the store no longer knows.
use pulsys.Common.{
  ℕ, ◌+◌, ◌≤◌, true, false, List, [], ◌∷◌, none, some, ltb, ◌==◌, length, Bytes, bytes_eq,
  bytes_eq_iff, ◌≡◌, refl, sym, ◌∙◌, arith, inl, inr, ◌⊎◌, Bool-cases, Option-cases, All,
}
use pulsys.Auth.{
  Verdict, valid, invalid_session, lookup_failed, bearer_from_bytes, is_pat, is_public, expires_at,
  forget, invalidate_by_hash, lookup_cached, store_cached, after_lookup, check_token, check,
  Reachable, empty, checked, invalidated,
}

no_admission : (status : ℕ) → status ≡ 401 → status ≡ 0 → ⊥
no_admission status rejected admitted = omega arith

module _ (sha256 : Bytes → Bytes) (lookup : ℕ → Bytes → Verdict) (ttl : ℕ) where
  -- An entry that the store vouched for: at the time t it knew a token with this hash.
  abbrev pub IsVouched : Bytes × ℕ → Type 0
  IsVouched (h, e) =
      (t : ℕ) × (token : Bytes) × (lookup t token ≡ valid) × (sha256 token ≡ h) × (e ≡ t + ttl)

  All-forget :
      (h : Bytes) (kept : List (Bytes × ℕ)) → All IsVouched kept → All IsVouched (forget h kept)
  unfolding forget
  All-forget h [] v = tt
  All-forget h ((k, e) ∷ kept) v = elim (Bool-cases (bytes_eq k h)) [
    | inl same ↦ rw same (All-forget h kept v.1)
    | inr other ↦ rw other (v.0, All-forget h kept v.1)
  ]

  All-lookup_cached :
      (h : Bytes) (now : ℕ) (kept : List (Bytes × ℕ))
      → All IsVouched kept
      → All IsVouched (lookup_cached h now kept).0
  unfolding lookup_cached
  All-lookup_cached h now kept v = elim (Option-cases (expires_at h kept)) [
    | inl e ↦ rw (e, lookup_cached) v
    | inr (expiry, e) ↦ elim (Bool-cases (ltb expiry now)) [
      | inl old ↦ rw (e, lookup_cached, old) (All-forget h kept v)
      | inr fresh ↦ rw (e, lookup_cached, fresh) v
    ]
  ]

  All-after_lookup :
      (token : Bytes) (later : ℕ) (kept : List (Bytes × ℕ)) (verdict : Verdict)
      → lookup later token ≡ verdict
      → All IsVouched kept
      → All IsVouched (after_lookup verdict (sha256 token) later ttl kept).0
  unfolding after_lookup store_cached
  All-after_lookup token later kept valid said v =
      ((later, token, said, refl, refl), All-forget (sha256 token) kept v)
  All-after_lookup token later kept invalid_session said v = v
  All-after_lookup token later kept lookup_failed said v = v

  All-check_token :
      (token : Bytes) (now later : ℕ) (kept : List (Bytes × ℕ))
      → All IsVouched kept
      → All IsVouched (check_token sha256 lookup ttl token now later kept).0
  unfolding check_token
  All-check_token token now later kept v =
      let looked = All-lookup_cached (sha256 token) now kept v in
      elim (Bool-cases (is_pat token)) [
        | inl pat ↦ elim (Bool-cases (lookup_cached (sha256 token) now kept).1) [
          | inl hit ↦ rw (pat, hit) looked
          | inr miss ↦
              rw (pat, miss) (All-after_lookup token later _ (lookup later token) refl looked)
        ]
        | inr other ↦ rw other v
      ]

  All-check :
      (auth path : Bytes) (now later : ℕ) (kept : List (Bytes × ℕ))
      → All IsVouched kept
      → All IsVouched (check sha256 lookup ttl auth path now later kept).0
  unfolding check
  All-check auth path now later kept v = elim (Bool-cases (is_public path)) [
    | inl e ↦ rw e v
    | inr e ↦ elim (Option-cases (bearer_from_bytes auth)) [
      | inl f ↦ rw (e, f) v
      | inr (token, f) ↦ rw (e, f) (All-check_token token now later kept v)
    ]
  ]

  All-Reachable : {kept : List (Bytes × ℕ)} → Reachable sha256 lookup ttl kept → All IsVouched kept
  unfolding invalidate_by_hash
  All-Reachable empty = tt
  All-Reachable (checked auth path now later before) =
      All-check auth path now later _ (All-Reachable before)
  All-Reachable (invalidated hash before) = elim (Bool-cases (length hash == 32)) [
    | inl e ↦ rw e (All-forget hash _ (All-Reachable before))
    | inr e ↦ rw e (All-Reachable before)
  ]

  IsVouched-expires_at :
      (h : Bytes) (kept : List (Bytes × ℕ)) (e : ℕ)
      → All IsVouched kept
      → expires_at h kept ≡ some e
      → IsVouched (h, e)
  unfolding expires_at
  IsVouched-expires_at h [] e v found = absurd (cc)
  IsVouched-expires_at h ((k, d) ∷ kept) e v found = elim (Bool-cases (bytes_eq k h)) [
    | inl same ↦
        let key = (bytes_eq_iff k h).0 same in
        let here : some d ≡ some e = rw same at found in
        let expiry : d ≡ e = cc in
        let (t, token, said, hashed, ends) = v.0 in
        (t, token, said, hashed ∙ key, sym expiry ∙ ends)
    | inr other ↦ IsVouched-expires_at h kept e v.1 (rw other at found)
  ]

  lookup_cached_hit :
      (h : Bytes) (now : ℕ) (kept : List (Bytes × ℕ))
      → (lookup_cached h now kept).1 ≡ true
      → (e : ℕ) × (expires_at h kept ≡ some e) × (now ≤ e)
  unfolding lookup_cached
  lookup_cached_hit h now kept hit = elim (Option-cases (expires_at h kept)) [
    | inl e ↦ let missed : false ≡ true = rw (e, lookup_cached) at hit in absurd (cc)
    | inr (expiry, e) ↦ elim (Bool-cases (ltb expiry now)) [
      | inl old ↦ let missed : false ≡ true = rw (e, lookup_cached, old) at hit in absurd (cc)
      | inr fresh ↦ (expiry, e, ground arith)
    ]
  ]

  -- The store knew the token at the time of the call, or it knew a token with the same hash at a time
  -- that is at most the lifetime of a kept token ago.
  abbrev pub IsKnown : Bytes → ℕ → ℕ → Type 0
  IsKnown token now later =
      (lookup later token ≡ valid)
      ⊎ ((t : ℕ) × (other : Bytes) × (lookup t other ≡ valid)
          × (sha256 other ≡ sha256 token)
          × (now ≤ t + ttl))

  accepted-valid :
      (verdict : Verdict) (h : Bytes) (later : ℕ) (kept : List (Bytes × ℕ))
      → (after_lookup verdict h later ttl kept).1.0 ≡ 0
      → verdict ≡ valid
  unfolding after_lookup
  accepted-valid valid h later kept admitted = refl
  accepted-valid invalid_session h later kept admitted = absurd (omega arith)
  accepted-valid lookup_failed h later kept admitted = absurd (omega arith)

  check_token-IsKnown :
      (token : Bytes) (now later : ℕ) (kept : List (Bytes × ℕ))
      → All IsVouched kept
      → (check_token sha256 lookup ttl token now later kept).1.0 ≡ 0
      → (is_pat token ≡ true) × IsKnown token now later
  unfolding check_token
  check_token-IsKnown token now later kept v admitted = elim (Bool-cases (is_pat token)) [
    | inl pat ↦ elim (Bool-cases (lookup_cached (sha256 token) now kept).1) [
      | inl hit ↦
          let (e, found, fresh) = lookup_cached_hit (sha256 token) now kept hit in
          let (t, other, said, hashed, ends) = IsVouched-expires_at (sha256 token) kept e v found in
          (pat, inr (t, other, said, hashed, omega (arith, fresh, ends)))
      | inr miss ↦
          (pat, inl (accepted-valid (lookup later token) _ later _ (rw (pat, miss) at admitted)))
    ]
    | inr other ↦ absurd (no_admission 401 refl (rw other at admitted))
  ]

  -- Whatever calls came before, the gate admits a request only if its path is one of the three public
  -- ones, or its credentials are a bearer token with the prefix of the tokens, which the store knows at
  -- the call, or of which it knew one with the same hash at most the lifetime of a kept token ago.
  pub check-IsKnown :
      (auth path : Bytes) (now later : ℕ) (kept : List (Bytes × ℕ))
      → Reachable sha256 lookup ttl kept
      → (check sha256 lookup ttl auth path now later kept).1.0 ≡ 0
      → (is_public path ≡ true)
        ⊎ ((token : Bytes) × (bearer_from_bytes auth ≡ some token)
            × (is_pat token ≡ true)
            × IsKnown token now later)
  unfolding check
  check-IsKnown auth path now later kept reached admitted = elim (Bool-cases (is_public path)) [
    | inl e ↦ inl e
    | inr e ↦ elim (Option-cases (bearer_from_bytes auth)) [
      | inl f ↦ absurd (no_admission 401 refl (rw (e, f) at admitted))
      | inr (token, f) ↦
          let (pat, known) =
            check_token-IsKnown token now later kept (All-Reachable reached)
              (rw (e, f) at admitted) in
          inr (token, f, pat, known)
    ]
  ]

  expires_at-forget : (h : Bytes) (kept : List (Bytes × ℕ)) → expires_at h (forget h kept) ≡ none
  unfolding expires_at forget
  expires_at-forget h [] = refl
  expires_at-forget h ((k, e) ∷ kept) = elim (Bool-cases (bytes_eq k h)) [
    | inl same ↦ rw same (expires_at-forget h kept)
    | inr other ↦ rw (other, expires_at, other) (expires_at-forget h kept)
  ]

  lookup_cached-forget :
      (h : Bytes) (now : ℕ) (kept : List (Bytes × ℕ))
      → lookup_cached h now (forget h kept) ≡ (forget h kept, false)
  unfolding lookup_cached
  lookup_cached-forget h now kept = rw (expires_at-forget h kept, lookup_cached) refl

  -- Once the hash of a token is invalidated and the store calls the token invalid, a request with it is
  -- rejected with status 401, if its path is not public; a hash has 32 bytes.
  pub check-invalidate_by_hash :
      (auth path token : Bytes) (now later : ℕ) (kept : List (Bytes × ℕ))
      → is_public path ≡ false
      → bearer_from_bytes auth ≡ some token
      → length (sha256 token) ≡ 32
      → lookup later token ≡ invalid_session
      → (check sha256 lookup ttl auth path now later (invalidate_by_hash (sha256 token) kept)).1.0
        ≡ 401
  unfolding check check_token invalidate_by_hash after_lookup
  check-invalidate_by_hash auth path token now later kept private bearer size said =
      let missed = lookup_cached-forget (sha256 token) now kept in
      let fits : (length (sha256 token) == 32) ≡ true = ground arith in
      elim (Bool-cases (is_pat token)) [
        | inl pat ↦ rw (private, bearer, pat, fits, missed, said) refl
        | inr other ↦ rw (private, bearer, other) refl
      ]
