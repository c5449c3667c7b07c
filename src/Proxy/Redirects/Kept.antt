-- ===== src/Proxy/Redirects/Kept.antt =====
-- The location that is kept of a redirect.
use pulsys.Common.{
  not, ◌||◌, [], ◌∷◌, Option, none, some, Bytes, codes, bytes_eq, bytes_eq_iff, ◌≡◌, refl, sym,
  Bool-cases, Option-cases, inl, inr,
}
use pulsys.Cache.Store.{is_cacheable_redirect_status}
use pulsys.Proxy.Calls.{UpstreamRequest, Response}
use pulsys.Proxy.Redirects.{unranged, cacheable_location}
use pulsys.Proxy.Handler.{Handler}
use pulsys.Proxy.Headers.{Headers, header_get, header_del}

header_get-header_del : (k : Bytes) (hs : Headers) → header_get k (header_del k hs) ≡ []
unfolding header_get header_del
header_get-header_del k [] = refl
header_get-header_del k ((k', vv) ∷ hs) = elim (Bool-cases (bytes_eq k k')) [
  | inl e ↦ rw (e, header_del) (header_get-header_del k hs)
  | inr e ↦ rw (e, header_del) (rw (e, header_get) (header_get-header_del k hs))
]

range-unranged : (r : UpstreamRequest) → header_get (codes "Range") (unranged r).headers ≡ []
unfolding unranged
range-unranged r = header_get-header_del (codes "Range") r.headers

pair_injective :
    (a b : Bytes) (x y : Headers)
    → ◌≡◌ {A = Option (Bytes × Headers)} (some (a, x)) (some (b, y))
    → (a ≡ b) × (x ≡ y)
pair_injective a b x y h = (cc, cc)

module _ (h : Handler) (upstream : UpstreamRequest → Option Response) where
  -- Where a location came from: a request without a Range header, and the response to it.
  pub record IsUnranged (loc : Bytes) (headers : Headers) : Type 0 where
    pub request : UpstreamRequest
    pub response : Response
    pub answered : upstream request ≡ some response
    pub no_range : header_get (codes "Range") request.headers ≡ []
    pub is_headers : headers ≡ response.headers
    pub is_location : loc ≡ header_get (codes "Location") response.headers

  -- A location that is kept for later requests, with the headers that are kept with it, comes from the
  -- upstream's response to a request without a Range header, also when the request at hand had one.
  pub cacheable_location-IsUnranged :
      (r : UpstreamRequest) (resp : Response) (loc : Bytes) (headers : Headers)
      → upstream r ≡ some resp
      → (cacheable_location h upstream r resp).0 ≡ some (loc, headers)
      → IsUnranged loc headers
  unfolding cacheable_location
  cacheable_location-IsUnranged r resp loc headers answered e =
      elim (Bool-cases (bytes_eq (header_get (codes "Range") r.headers) [])) [
        | inl f ↦
            let (same, from) =
              pair_injective (header_get (codes "Location") resp.headers) loc resp.headers headers
                (rw (f, cacheable_location) at e) in
            record {
              request = r;
              response = resp;
              answered = answered;
              no_range = (bytes_eq_iff (header_get (codes "Range") r.headers) []).0 f;
              is_headers = sym from;
              is_location = sym same;
            }
        | inr f ↦ elim (Option-cases (upstream (unranged r))) [
          | inl g ↦
              let missing : none ≡ some (loc, headers) = rw (f, g, cacheable_location) at e in cc
          | inr (fresh, g) ↦
              elim (Bool-cases (
                not (is_cacheable_redirect_status fresh.status)
                || bytes_eq (header_get (codes "Location") fresh.headers) [])) [
                  | inl k ↦
                      let missing : none ≡ some (loc, headers) =
                        rw (f, g, k, cacheable_location) at e in
                      cc
                  | inr k ↦
                      let (same, from) =
                        pair_injective (header_get (codes "Location") fresh.headers) loc
                          fresh.headers headers (rw (f, g, k, cacheable_location) at e) in
                      record {
                        request = unranged r;
                        response = fresh;
                        answered = g;
                        no_range = range-unranged r;
                        is_headers = sym from;
                        is_location = sym same;
                      }
                ]
        ]
      ]
