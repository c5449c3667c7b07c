-- ===== src/Proxy/Forward/Outbound.antt =====
-- What the upstream is asked, and with which credentials.
use pulsys.Common.{
  Bool, true, false, not, ◌||◌, ◌&&◌, List, [], ◌∷◌, ◌++◌, Option, none, some, if◌then◌else◌, ◌==◌,
  Bytes, codes, bytes_eq, bytes_eq_iff, All, ◌≡◌, refl, sym, ◌⊎◌, inl, inr, Bool-cases,
  Option-cases, ℤ, and-eq-true,
}
use pulsys.Cache.Key.{is_content_addressed_host}
use pulsys.Cache.Store.{Store, is_cacheable_redirect_status}
use pulsys.Proxy.Calls.{
  UpstreamRequest, Response, Call, Claim, Outcome, injects_token, outbound_headers,
  upstream_request, relayed_headers, cached_or,
}
use pulsys.Proxy.Forward.{relay, relay_result, ask, forward}
use pulsys.Proxy.Redirects.{unranged, cacheable_location, cache_redirect}
use pulsys.Proxy.Handler.{Handler, Answer}
use pulsys.Proxy.Headers.{Headers, header_get, header_set, header_del, outbound_from}
use pulsys.Proxy.Headers.Clean.{EachHeader, IsForwardedName, EachHeader-outbound_from}

-- A header that may go to this host: one of the client's that is no hop header and no credentials, or
-- the proxy's own token, to a host that is not content-addressed.
abbrev pub IsOutboundHeader : Handler → Bytes → Bytes × List Bytes → Type 0
IsOutboundHeader h host (k, vv) =
    IsForwardedName k
    ⊎ ((k ≡ codes "Authorization")
        × (vv ≡ (codes "Bearer " ++ h.upstream_hf_token) ∷ [])
        × (is_content_addressed_host host ≡ false))

-- Such a request.
abbrev pub IsOutbound : Handler → UpstreamRequest → Type 0
IsOutbound h r = All (IsOutboundHeader h r.host) r.headers

All-forwarded :
    (h : Handler) (host : Bytes) (hs : Headers)
    → EachHeader IsForwardedName (λ v. Unit) hs
    → All (IsOutboundHeader h host) hs
All-forwarded h host [] e = tt
All-forwarded h host ((k, vv) ∷ hs) (first, rest) = (inl first.0, All-forwarded h host hs rest)

All-token :
    (h : Handler) (host : Bytes) (hs : Headers)
    → is_content_addressed_host host ≡ false
    → EachHeader IsForwardedName (λ v. Unit) hs
    → All
        (IsOutboundHeader h host)
        (header_set (codes "Authorization") (codes "Bearer " ++ h.upstream_hf_token) hs)
unfolding header_set
All-token h host [] plain e = (inr (refl, refl, plain), tt)
All-token h host ((k, vv) ∷ hs) plain (first, rest) =
    elim (Bool-cases (bytes_eq (codes "Authorization") k)) [
      | inl f ↦
          let same = (bytes_eq_iff (codes "Authorization") k).0 f in
          rw (f, header_set) (inr (sym same, refl, plain), All-forwarded h host hs rest)
      | inr f ↦ rw (f, header_set) (inl first.0, All-token h host hs plain rest)
    ]

not-eq-true : (b : Bool) → not b ≡ true → b ≡ false
not-eq-true false h = refl
not-eq-true true h = cc

All-outbound_headers :
    (h : Handler) (host : Bytes) (headers : Headers)
    → All (IsOutboundHeader h host) (outbound_headers h host headers)
unfolding outbound_headers injects_token
All-outbound_headers h host headers =
    let clean = EachHeader-outbound_from headers [] tt in
    elim (Bool-cases (injects_token h host)) [
      | inl e ↦
          let (plain, token) = and-eq-true (not (is_content_addressed_host host)) _ e in
          rw e (All-token h host (outbound_from [] headers) (not-eq-true _ plain) clean)
      | inr e ↦ rw e (All-forwarded h host (outbound_from [] headers) clean)
    ]

All-header_del :
    (P : Bytes × List Bytes → Type 0) (k : Bytes) (hs : Headers)
    → All P hs
    → All P (header_del k hs)
unfolding header_del
All-header_del P k [] e = tt
All-header_del P k ((k', vv) ∷ hs) (first, rest) = elim (Bool-cases (bytes_eq k k')) [
  | inl f ↦ rw (f, header_del) (All-header_del P k hs rest)
  | inr f ↦ rw (f, header_del) (first, All-header_del P k hs rest)
]

pub IsOutbound-upstream_request :
    (h : Handler) (call : Call) → IsOutbound h (upstream_request h call)
unfolding upstream_request
IsOutbound-upstream_request h call = All-outbound_headers h call.host call.headers

pub IsOutbound-unranged :
    (h : Handler) (r : UpstreamRequest) → IsOutbound h r → IsOutbound h (unranged r)
unfolding unranged
IsOutbound-unranged h r e = All-header_del (IsOutboundHeader h r.host) (codes "Range") r.headers e

-- A test between two values that both have a property.
pub either_holds {ℓ} :
    {A : Type ℓ} (P : A → Type 0) (b : Bool) (x y : A) → P x → P y → P (if b then x else y)
either_holds P true x y px py = px
either_holds P false x y px py = py

-- A property of requests that one keeps without its Range header.
module _ (h : Handler) (upstream : UpstreamRequest → Option Response) (P : UpstreamRequest → Type 0)
    (stable : (r : UpstreamRequest) → P r → P (unranged r)) where
  -- Each request of the outcome has the property.
  abbrev pub Asks : Outcome → Type 0
  Asks o = All P o.asked

  All-location_asked :
      (r : UpstreamRequest) (resp : Response) → P r → All P (cacheable_location h upstream r resp).1
  unfolding cacheable_location
  All-location_asked r resp e =
      elim (Bool-cases (bytes_eq (header_get (codes "Range") r.headers) [])) [
        | inl f ↦ rw f tt
        | inr f ↦ elim (Option-cases (upstream (unranged r))) [
          | inl g ↦ rw (f, g) (stable r e, tt)
          | inr (fresh, g) ↦
              rw (f, g)
                (either_holds
                  (λ (found : Option (Bytes × Headers) × List UpstreamRequest). All P found.1)
                  (not (is_cacheable_redirect_status fresh.status)
                    || bytes_eq (header_get (codes "Location") fresh.headers) [])
                  (none, unranged r ∷ [])
                  (
                    some (header_get (codes "Location") fresh.headers, fresh.headers),
                    unranged r ∷ [],
                  )
                  (stable r e, tt) (stable r e, tt))
        ]
      ]

  Asks-cache_redirect :
      (call : Call) (r : UpstreamRequest) (resp : Response) (hdr : Headers) (st : Store)
      → P r
      → Asks (cache_redirect h upstream call r resp hdr st)
  unfolding cache_redirect
  Asks-cache_redirect call r resp hdr st e =
      either_holds Asks (bytes_eq (header_get (codes "Location") resp.headers) []) _ _ (e, tt)
        (e, All-location_asked r resp e)

  pub Asks-cached_or :
      (cached : Option Answer) (st : Store) (miss : Outcome)
      → Asks miss
      → Asks (cached_or cached st miss)
  unfolding cached_or
  Asks-cached_or none st miss e = e
  Asks-cached_or (some a) st miss e = tt

  module _ (body_opens : Bytes → Bool) (interval : ℤ) (file_opens : Bool) where
    Asks-relay :
        (call : Call) (passthrough : Bool) (r : UpstreamRequest) (st : Store) (resp : Response)
        → P r
        → Asks (relay h upstream body_opens interval file_opens call passthrough r st resp)
    unfolding relay
    Asks-relay call passthrough r st resp e =
        either_holds Asks passthrough _ _ (e, tt)
          (either_holds Asks (bytes_eq call.method (codes "GET") && resp.status == 200) _ _ (e, tt)
            (either_holds Asks (bytes_eq call.method (codes "GET") && resp.status == 206) _ _
              (e, tt)
              (either_holds Asks
                (bytes_eq call.method (codes "GET") && is_cacheable_redirect_status resp.status) _ _
                (Asks-cache_redirect call r resp (relayed_headers h call resp.headers) st e)
                (e, tt))))

    Asks-relay_result :
        (call : Call) (passthrough : Bool) (r : UpstreamRequest) (st : Store) (o : Option Response)
        → P r
        → Asks (relay_result h upstream body_opens interval file_opens call passthrough r st o)
    unfolding relay_result
    Asks-relay_result call passthrough r st none e = (e, tt)
    Asks-relay_result call passthrough r st (some resp) e = Asks-relay call passthrough r st resp e

    Asks-ask :
        (call : Call) (passthrough : Bool) (st : Store)
        → P (upstream_request h call)
        → Asks (ask h upstream body_opens interval file_opens call passthrough st)
    unfolding ask
    Asks-ask call passthrough st e =
        Asks-relay_result call passthrough (upstream_request h call) st
          (upstream (upstream_request h call)) e

    pub Asks-forward :
        (call : Call) (claim : Claim)
        → P (upstream_request h call)
        → Asks (forward h upstream body_opens interval file_opens call claim)
    unfolding forward
    Asks-forward call claim e =
        either_holds Asks (call.artifact && bytes_eq call.method (codes "GET")) _ _
          (Asks-cached_or _ claim.store _ (Asks-ask call _ claim.store e))
          (Asks-ask call false claim.store e)
