-- ===== src/Tests/Proxy.antt =====
-- Tests of the handler: headers, answers from the cache and requests upstream.
use pulsys.Common.{
  Bool, true, false, List, [], ◌∷◌, ◌++◌, Option, none, some, Bytes, codes, bytes_eq, ◌≡◌, refl,
  pos, All, ℤ,
}
use pulsys.Cache.Meta.{Meta}
use pulsys.Cache.Quota.{Counters}
use pulsys.Cache.Store.{Store, empty_meta}
use pulsys.Cache.Segment.{SegmentParams}
use pulsys.Classify.{artifact_get}
use pulsys.Coreserver.Request.{Request, empty_request}
use pulsys.Coreserver.Warm.{Served, warm_key, try_serve_warm}
use pulsys.Proxy.Calls.{UpstreamRequest, Response, Call, Claim}
use pulsys.Proxy.Forward.{forward}
use pulsys.Proxy.Redirects.{cacheable_location}
use pulsys.Proxy.Redirects.Kept.{IsUnranged, cacheable_location-IsUnranged}
use pulsys.Proxy.Handler.{Handler, Answer, file, security_headers}
use pulsys.Proxy.Headers.{hop_response_headers, Headers, copy_and_rewrite_headers}
use pulsys.Proxy.Headers.Clean.{
  EachHeader, IsRelayedName, IsUnsplit, copy_and_rewrite_headers-EachHeader,
}
use pulsys.Proxy.Links.{strip_xet_links}
use pulsys.Proxy.Lookup.{try_serve_from_cache, is_cached_redirect}
use pulsys.Proxy.Lookup.Refines.{IsBodyEntry, try_serve_warm-Refines}
use pulsys.Proxy.Route.{routed, route_upstream, resolve_rev_alias_path}
use pulsys.Proxy.Serve.{HttpRequest, serve_http}
use pulsys.Proxy.Serve.Reach.{
  IsPermitted, serve_http-IsPermitted, serve_http_offline, forward_contended,
}
use pulsys.Rewrite.{Location}

abbrev allow_cdn : Bytes → Bool
allow_cdn host = bytes_eq host (codes "cdn.hf.co")

-- Every location is on the host of the content, whatever it says.
abbrev parse_cdn : Bytes → Option Location
parse_cdn s = some (record {
  scheme = codes "https";
  host = codes "cdn.hf.co";
  hostname = codes "cdn.hf.co";
  escaped_path = s;
  raw_query = [];
})

abbrev join_text : Bytes → Bytes → Option Bytes
join_text host path = some (codes "http://p/_p/" ++ (host ++ (codes "/" ++ path)))

abbrev with_text : Bytes → Bytes → Bytes
with_text u q = u ++ (codes "?" ++ q)

abbrev same_text : Bytes → Bytes
same_text s = s

abbrev decoded : Bytes → Option Bytes
decoded s = some s

abbrev handler : Handler
handler = record {
  default_host = codes "hf.co";
  offline = true;
  strict_offline = false;
  upstream_hf_token = codes "hf_x";
  bounded_wait = true;
  allowf = allow_cdn;
  sha256 = same_text;
  escape = same_text;
  unescape = decoded;
  parse_url = parse_cdn;
  join_public = join_text;
  with_query = with_text;
}

abbrev counters : Counters
counters = record {
  max_bytes = pos 100;
  used_bytes = pos 0;
  reserved_bytes = pos 0;
  entry_count = pos 0;
}

abbrev empty_store : Store
empty_store = record { counters = counters; objects = [] }

abbrev redirected : Response
redirected = record {
  status = 302;
  headers =
      (codes "Location", codes "/blob" ∷ [])
      ∷ (codes "Connection", codes "close" ∷ [])
      ∷ (codes "X-Split", codes "a\r\nb" ∷ codes "c" ∷ [])
      ∷ [];
  content_length = pos 0;
  chunks = [];
}

-- The upstream answers everything with the redirect.
abbrev upstream : UpstreamRequest → Option Response
upstream r = some redirected

abbrev closed_files : Bytes → Bool
closed_files key = false

abbrev get_file : HttpRequest
get_file = record {
  method = codes "GET";
  path = codes "/o/r/resolve/main/f";
  raw_query = [];
  headers =
      (codes "Authorization", codes "Bearer pulsys_1" ∷ [])
      ∷ (codes "Range", codes "bytes=0-4" ∷ [])
      ∷ [];
  body = [];
}

abbrev claim : Claim
claim = record { claimed = true; store = empty_store }

-- Both requests, the one at hand and the one without its range, have the token of the proxy.
abbrev sent_headers : List UpstreamRequest → List Headers
sent_headers [] = []
sent_headers (r ∷ rest) = r.headers ∷ sent_headers rest

both_asked :
    sent_headers
      (serve_http handler upstream closed_files (pos 16) true get_file empty_store claim).asked
    ≡ ((codes "Range", codes "bytes=0-4" ∷ [])
        ∷ (codes "Authorization", codes "Bearer hf_x" ∷ [])
        ∷ [])
      ∷ ((codes "Authorization", codes "Bearer hf_x" ∷ []) ∷ [])
      ∷ []
unfolding serve_http
both_asked = refl

serve_http-IsPermitted_example :
    All
      (IsPermitted handler)
      (serve_http handler upstream closed_files (pos 16) true get_file empty_store claim).asked
serve_http-IsPermitted_example =
    serve_http-IsPermitted handler upstream closed_files (pos 16) true get_file empty_store claim

abbrev offline_handler : Handler
offline_handler = record handler { strict_offline = true }

serve_http_offline_example :
    ((serve_http offline_handler upstream closed_files
        (pos 16)
        true
        get_file
        empty_store
        claim).asked
      ≡ [])
    × ((serve_http offline_handler upstream closed_files
          (pos 16)
          true
          get_file
          empty_store
          claim).store
        ≡ empty_store)
serve_http_offline_example =
    serve_http_offline offline_handler upstream closed_files (pos 16) true get_file empty_store
      claim refl

abbrev call : Call
call = record {
  method = codes "GET";
  host = codes "hf.co";
  path = codes "/o/r/resolve/main/f";
  query = [];
  url_path = codes "/o/r/resolve/main/f";
  headers = [];
  body = [];
  key = codes "k";
  artifact = true;
  origin = [];
}

abbrev no_claim : Claim
no_claim = record { claimed = false; store = empty_store }

forward_contended_example :
    (forward handler upstream closed_files (pos 16) true call no_claim).store ≡ empty_store
forward_contended_example =
    forward_contended handler upstream closed_files (pos 16) true call no_claim refl refl refl refl

abbrev ranged_request : UpstreamRequest
ranged_request = record {
  method = codes "GET";
  host = codes "hf.co";
  path = codes "/f";
  query = [];
  headers = (codes "Range", codes "bytes=0-4" ∷ []) ∷ [];
  body = [];
}

location_found :
    (cacheable_location handler upstream ranged_request redirected).0
    ≡ some (codes "/blob", redirected.headers)
unfolding cacheable_location
location_found = refl

cacheable_location-IsUnranged_example :
    IsUnranged handler upstream (codes "/blob") redirected.headers
cacheable_location-IsUnranged_example =
    cacheable_location-IsUnranged handler upstream ranged_request redirected (codes "/blob")
      redirected.headers refl location_found

to_cdn : route_upstream handler (codes "/_p/CDN.hf.co/x") ≡ routed (codes "cdn.hf.co") (codes "/x")
unfolding route_upstream
to_cdn = refl

aliased_path :
    resolve_rev_alias_path (codes "/o/r/resolve/main/f") (codes "abc")
    ≡ some (codes "/o/r/resolve/abc/f")
unfolding resolve_rev_alias_path
aliased_path = refl

stripped_links :
    strip_xet_links
      (codes "<a>; rel=\"xet-auth\", <b,c>; rel=next" ∷ codes "<d>; rel=xet-auth" ∷ [])
    ≡ codes "<b,c>; rel=next" ∷ []
unfolding strip_xet_links
stripped_links = refl

abbrev no_rewrite : Bytes → Option Bytes
no_rewrite s = none

copied :
    copy_and_rewrite_headers no_rewrite security_headers redirected.headers
    ≡ (codes "X-Content-Type-Options", codes "nosniff" ∷ [])
      ∷ (codes "X-Split", codes "c" ∷ [])
      ∷ (codes "Location", codes "/blob" ∷ [])
      ∷ []
unfolding copy_and_rewrite_headers security_headers
copied = refl

security_headers-EachHeader : EachHeader IsRelayedName IsUnsplit security_headers
unfolding security_headers hop_response_headers
security_headers-EachHeader = (((refl, refl), (refl, tt)), tt)

copy_and_rewrite_headers-EachHeader_example :
    EachHeader IsRelayedName IsUnsplit
      (copy_and_rewrite_headers no_rewrite security_headers redirected.headers)
copy_and_rewrite_headers-EachHeader_example =
    copy_and_rewrite_headers-EachHeader no_rewrite security_headers redirected.headers
      security_headers-EachHeader

abbrev stored : Meta
stored = record empty_meta {
  spans = record { start = pos 0; stop = pos 20 } ∷ [];
  total = some (pos 20);
  etag = codes "x";
  status_code = 200;
}

abbrev lookup_stored : Bytes → Option Meta
lookup_stored key = some stored

abbrev every_body : Bytes → Bool
every_body key = true

abbrev ranged : Request
ranged = record empty_request {
  method = codes "GET";
  path = codes "/f";
  range = codes "bytes=5-9";
  keep_alive = true;
}

abbrev ranged_key : Bytes
ranged_key = warm_key same_text lookup_stored every_body (codes "hf.co") true ranged

answered_5_9 :
    try_serve_from_cache handler lookup_stored every_body [] (codes "bytes=5-9") (codes "k") false
    ≡ some (record {
      status = 206;
      headers =
          (codes "Etag", codes "x" ∷ [])
          ∷ (codes "Content-Length", codes "5" ∷ [])
          ∷ (codes "Content-Range", codes "bytes 5-9/20" ∷ [])
          ∷ [];
      body = file (codes "k") (pos 5) (pos 5);
    })
unfolding try_serve_from_cache
answered_5_9 = refl

stored-IsBodyEntry : IsBodyEntry handler lookup_stored every_body ranged_key stored
unfolding is_cached_redirect
stored-IsBodyEntry = record { loaded = refl; no_alias = refl; no_redirect = refl }

get_f_artifact : artifact_get (codes "hf.co") (codes "hf.co") (codes "GET") (codes "/f") ≡ true
unfolding artifact_get
get_f_artifact = refl

try_serve_warm-Refines_example :
    ((served : Served)
      → try_serve_warm same_text lookup_stored every_body (codes "hf.co") true ranged ≡ some served
      → (a : Answer) × (try_serve_from_cache handler lookup_stored every_body [] ranged.range
            ranged_key false
          ≡ some a)
        × (a.body ≡ file ranged_key served.offset served.count))
    × ((a : Answer)
        → try_serve_from_cache handler lookup_stored every_body [] ranged.range ranged_key false
          ≡ some a
        → (served : Served) × (try_serve_warm same_text lookup_stored every_body
              (codes "hf.co")
              true
              ranged
            ≡ some served)
          × (a.body ≡ file ranged_key served.offset served.count))
try_serve_warm-Refines_example =
    try_serve_warm-Refines handler lookup_stored every_body (codes "hf.co") true ranged [] stored
      refl get_f_artifact stored-IsBodyEntry

abbrev alias : Meta
alias = record empty_meta { alias_of = codes "gone" }

abbrev alias_store : Store
alias_store = record { counters = counters; objects = (codes "k", alias) ∷ [] }

abbrev params : SegmentParams
params = record {
  status = 200;
  upstream_host = codes "hf.co";
  path = codes "/f";
  raw_query = [];
  etag = [];
  content_type = [];
  start = pos 0;
  size = pos 10;
  total = pos 10;
  extra_headers = [];
  origin_path = [];
}

-- A segment under the alias's key, and one under another.
abbrev two_segments : List (Bytes × SegmentParams × ℤ)
two_segments = (codes "k", params, pos 10) ∷ (codes "other", params, pos 10) ∷ []
