-- ===== src/Proxy/Serve.antt =====
-- internal/proxy/handler.go: `ServeHTTP`, from a request to its answer.
pub mod Reach
use pulsys.Common.{
  Bool, true, false, not, ◌||◌, ◌&&◌, List, [], ◌∷◌, Option, none, some, if◌then◌else◌, Bytes,
  codes, bytes_eq, ℤ,
}
use pulsys.Cache.Store.{Store, load_meta}
use pulsys.Proxy.Calls.{UpstreamRequest, Response, Call, Claim, Outcome, lookup_call, cached_or}
use pulsys.Proxy.Forward.{forward}
use pulsys.Proxy.Handler.{Handler, Answer, text, security_headers}
use pulsys.Proxy.Headers.{Headers, header_get}
use pulsys.Proxy.Lookup.{try_serve_from_cache}
use pulsys.Proxy.Route.{
  Routed, routed, bad_path, not_allowed, route_upstream, request_key, is_artifact, error_answer,
  respond_offline,
}
use pulsys.Rewrite.{extract_and_strip_origin}

pub record HttpRequest : Type 0 where
  pub method : Bytes
  pub path : Bytes
  pub raw_query : Bytes
  pub headers : Headers
  pub body : Bytes

-- The origin, and the query that goes on.
unfoldable pub lift_origin : Handler → Bytes → Bytes × Bytes
unfolding extract_and_strip_origin
lift_origin h raw_query =
    let found = extract_and_strip_origin h.unescape raw_query in
    if bytes_eq found.0 [] then ([], raw_query) else found

unfoldable pub call_of : Handler → HttpRequest → Bytes → Bytes → Call
unfolding lift_origin request_key is_artifact
call_of h req host path =
    let lifted = lift_origin h req.raw_query in
    record {
      method = req.method;
      host = host;
      path = path;
      query = lifted.1;
      url_path = req.path;
      headers = req.headers;
      body = req.body;
      key = request_key h req.method host path lifted.1;
      artifact = is_artifact h host req.method path;
      origin = lifted.0;
    }

-- The request is one that the cache may answer.
unfoldable pub reads_cache : Handler → Call → Bool
reads_cache h call =
    (bytes_eq call.method (codes "GET") || bytes_eq call.method (codes "HEAD"))
    && (call.artifact || h.offline)

-- A HEAD is looked up as the GET.
unfoldable pub lookup_key : Handler → Call → Bytes
unfolding request_key
lookup_key h call =
    if bytes_eq call.method (codes "HEAD")
    then request_key h (codes "GET") call.host call.path call.query
    else call.key

module _ (h : Handler) (upstream : UpstreamRequest → Option Response) (body_opens : Bytes → Bool)
    (interval : ℤ) (file_opens : Bool) where
  -- What follows a miss.
  unfoldable pub serve_miss : Call → Store → Claim → Outcome
  unfolding respond_offline forward header_get security_headers
  serve_miss call st claim =
      let range = header_get (codes "Range") call.headers in
      if h.strict_offline
      then record {
        answer =
            respond_offline security_headers call.host call.path range call.key call.artifact
              call.method;
        store = st;
        asked = [];
      }
      else forward h upstream body_opens interval file_opens call claim

  unfoldable pub serve_call : Call → Store → Claim → Outcome
  unfolding serve_miss reads_cache lookup_key lookup_call cached_or
  serve_call call st claim =
      let head_only = bytes_eq call.method (codes "HEAD") in
      let cached = lookup_call h body_opens st call (lookup_key h call) head_only in
      let miss = serve_miss call st claim in
      if reads_cache h call then cached_or cached st miss else miss

  unfoldable pub serve_routed : HttpRequest → Store → Claim → Routed → Outcome
  unfolding serve_call call_of error_answer security_headers
  serve_routed req st claim bad_path = record {
    answer = error_answer security_headers 400 (codes "bad /_p/ path");
    store = st;
    asked = [];
  }
  serve_routed req st claim not_allowed = record {
    answer = error_answer security_headers 403 (codes "host not allowed");
    store = st;
    asked = [];
  }
  serve_routed req st claim (routed host path) = serve_call (call_of h req host path) st claim

  unfoldable pub serve_http : HttpRequest → Store → Claim → Outcome
  unfolding serve_routed route_upstream security_headers
  serve_http req st claim =
      if bytes_eq req.path (codes "/healthz")
      then record {
        answer = record { status = 200; headers = security_headers; body = text (codes "ok") };
        store = st;
        asked = [];
      }
      else serve_routed req st claim (route_upstream h req.path)
