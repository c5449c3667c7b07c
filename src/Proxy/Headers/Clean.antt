-- ===== src/Proxy/Headers/Clean.antt =====
-- What the headers that go to the client, and those that go upstream, cannot hold.
use pulsys.Common.{
  false, ◌||◌, List, [], ◌∷◌, Option, none, some, if◌then◌else◌, Bytes, codes, bytes_eq, to_lower,
  All, All-append, Bool-cases, Option-cases, ◌≡◌, refl, inl, inr, or-eq-false,
}
use pulsys.Cache.Key.{has_key}
use pulsys.Proxy.Links.{strip_xet_links}
use pulsys.Proxy.Headers.{
  Headers, header_get, header_set, header_add, add_values, hop_request_headers,
  hop_response_headers, is_splitting, is_dropped, sanitise_header_value, sanitised_values,
  copy_headers, rewrite_header, set_sanitised, copy_and_rewrite_headers, outbound_from,
}

-- Each name satisfies one predicate and each value another.
abbrev pub EachHeader : (Bytes → Type 0) → (Bytes → Type 0) → Headers → Type 0
EachHeader P Q = All (λ h. P h.0 × All Q h.1)

module _ (P Q : Bytes → Type 0) where
  EachHeader-header_set :
      (k v : Bytes) (hs : Headers)
      → P k
      → Q v
      → EachHeader P Q hs
      → EachHeader P Q (header_set k v hs)
  unfolding header_set
  EachHeader-header_set k v [] p q h = ((p, (q, tt)), tt)
  EachHeader-header_set k v ((k', vv) ∷ hs) p q (first, rest) = elim (Bool-cases (bytes_eq k k')) [
    | inl e ↦ rw (e, header_set) ((first.0, (q, tt)), rest)
    | inr e ↦ rw (e, header_set) (first, EachHeader-header_set k v hs p q rest)
  ]

  EachHeader-header_add :
      (k v : Bytes) (hs : Headers)
      → P k
      → Q v
      → EachHeader P Q hs
      → EachHeader P Q (header_add k v hs)
  unfolding header_add
  EachHeader-header_add k v [] p q h = ((p, (q, tt)), tt)
  EachHeader-header_add k v ((k', vv) ∷ hs) p q (first, rest) = elim (Bool-cases (bytes_eq k k')) [
    | inl e ↦ rw (e, header_add) ((first.0, All-append Q vv (v ∷ []) first.1 (q, tt)), rest)
    | inr e ↦ rw (e, header_add) (first, EachHeader-header_add k v hs p q rest)
  ]

  EachHeader-add_values :
      (k : Bytes) (vv : List Bytes) (hs : Headers)
      → P k
      → All Q vv
      → EachHeader P Q hs
      → EachHeader P Q (add_values k vv hs)
  unfolding add_values
  EachHeader-add_values k [] hs p q h = h
  EachHeader-add_values k (v ∷ vv) hs p (first, rest) h =
      EachHeader-add_values k vv (header_add k v hs) p rest (EachHeader-header_add k v hs p first h)

-- The name of no hop header, without a byte that splits a response.
abbrev pub IsRelayedName : Bytes → Type 0
IsRelayedName k = (has_key (to_lower k) hop_response_headers ≡ false) × (is_splitting k ≡ false)

abbrev pub IsUnsplit : Bytes → Type 0
IsUnsplit v = is_splitting v ≡ false

IsRelayedName-of_kept : (k : Bytes) → is_dropped k ≡ false → IsRelayedName k
unfolding is_dropped
IsRelayedName-of_kept k h =
    let (hop, h1) = or-eq-false (has_key (to_lower k) hop_response_headers) _ h in
    let (framing, h2) = or-eq-false (bytes_eq (to_lower k) (codes "content-length")) _ h1 in
    let (located, unsplit) =
      or-eq-false
        (bytes_eq (to_lower k) (codes "location")
          || bytes_eq (to_lower k) (codes "content-location"))
        _ h2 in
    (hop, unsplit)

IsUnsplit-of_sanitised : (v s : Bytes) → sanitise_header_value v ≡ some s → IsUnsplit s
unfolding sanitise_header_value
IsUnsplit-of_sanitised v s h = elim (Bool-cases (is_splitting v)) [
  | inl e ↦ let missing : none ≡ some s = rw e at h in cc
  | inr e ↦ let same : some v ≡ some s = rw e at h in let here : v ≡ s = cc in rw (← here) e
]

All-sanitised_values : (vv : List Bytes) → All IsUnsplit (sanitised_values vv)
unfolding sanitised_values
All-sanitised_values [] = tt
All-sanitised_values (v ∷ vv) = elim (Option-cases (sanitise_header_value v)) [
  | inl e ↦ rw (e, sanitised_values) (All-sanitised_values vv)
  | inr (s, e) ↦ rw (e, sanitised_values) (IsUnsplit-of_sanitised v s e, All-sanitised_values vv)
]

EachHeader-copy_headers :
    (src dst : Headers)
    → EachHeader IsRelayedName IsUnsplit dst
    → EachHeader IsRelayedName IsUnsplit (copy_headers dst src)
unfolding copy_headers
EachHeader-copy_headers [] dst h = h
EachHeader-copy_headers ((k, vv) ∷ src) dst h = elim (Bool-cases (is_dropped k)) [
  | inl e ↦ rw e (EachHeader-copy_headers src dst h)
  | inr e ↦ rw e (
      EachHeader-copy_headers src _ (
        EachHeader-add_values IsRelayedName IsUnsplit k _ dst (IsRelayedName-of_kept k e)
          (All-sanitised_values
            (if bytes_eq (to_lower k) (codes "link") then strip_xet_links vv else vv))
          h))
]

EachHeader-set_sanitised :
    (name v : Bytes) (dst : Headers)
    → IsRelayedName name
    → EachHeader IsRelayedName IsUnsplit dst
    → EachHeader IsRelayedName IsUnsplit (set_sanitised name v dst)
unfolding set_sanitised
EachHeader-set_sanitised name v dst named h = elim (Option-cases (sanitise_header_value v)) [
  | inl e ↦ rw (e, set_sanitised) h
  | inr (s, e) ↦
      let set =
        EachHeader-header_set IsRelayedName IsUnsplit name s dst named
          (IsUnsplit-of_sanitised v s e) h in
      rw (e, set_sanitised) set
]

EachHeader-rewrite_header :
    (to_proxy : Bytes → Option Bytes) (name : Bytes) (src dst : Headers)
    → IsRelayedName name
    → EachHeader IsRelayedName IsUnsplit dst
    → EachHeader IsRelayedName IsUnsplit (rewrite_header to_proxy name src dst)
unfolding rewrite_header
EachHeader-rewrite_header to_proxy name src dst named h =
    elim (Bool-cases (bytes_eq (header_get name src) [])) [
      | inl e ↦ rw e h
      | inr e ↦ rw e (
          EachHeader-set_sanitised name
            (elim (to_proxy (header_get name src)) [ none ↦ header_get name src | some nl ↦ nl ])
            dst named h)
    ]

-- No header that is relayed to the client, of a response that is copied over headers of which this is
-- true, is a hop header or has a carriage return, a line feed or a null byte in its name or in one of
-- its values, the rewritten locations included.
pub copy_and_rewrite_headers-EachHeader :
    (to_proxy : Bytes → Option Bytes) (dst src : Headers)
    → EachHeader IsRelayedName IsUnsplit dst
    → EachHeader IsRelayedName IsUnsplit (copy_and_rewrite_headers to_proxy dst src)
unfolding copy_and_rewrite_headers hop_response_headers
copy_and_rewrite_headers-EachHeader to_proxy dst src h =
    EachHeader-rewrite_header to_proxy (codes "Content-Location") src _ (refl, refl)
      (EachHeader-rewrite_header to_proxy (codes "Location") src _ (refl, refl)
        (EachHeader-copy_headers src dst h))

-- A name that is sent upstream on behalf of a client.
abbrev pub IsForwardedName : Bytes → Type 0
IsForwardedName k =
    (has_key (to_lower k) hop_request_headers ≡ false)
    × (bytes_eq (to_lower k) (codes "authorization") ≡ false)

All-tt : (vv : List Bytes) → All (λ v. Unit) vv
All-tt [] = tt
All-tt (v ∷ vv) = (tt, All-tt vv)

-- Of the client's headers none that goes upstream is a hop header or has its credentials.
pub EachHeader-outbound_from :
    (src hdr : Headers)
    → EachHeader IsForwardedName (λ v. Unit) hdr
    → EachHeader IsForwardedName (λ v. Unit) (outbound_from hdr src)
unfolding outbound_from
EachHeader-outbound_from [] hdr h = h
EachHeader-outbound_from ((k, vv) ∷ src) hdr h =
    elim (Bool-cases
      (has_key (to_lower k) hop_request_headers || bytes_eq (to_lower k) (codes "authorization"))) [
        | inl e ↦ rw e (EachHeader-outbound_from src hdr h)
        | inr e ↦
            let forwarded = or-eq-false (has_key (to_lower k) hop_request_headers) _ e in
            rw e (
              EachHeader-outbound_from src _ (
                EachHeader-add_values IsForwardedName (λ v. Unit) k vv hdr forwarded (All-tt vv) h))
      ]
