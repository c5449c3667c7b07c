-- ===== src/Proxy/Calls.antt =====
-- internal/proxy/handler.go: what `forward` reads and gives, the request that goes upstream, and the parts
-- of an answer that the kinds of responses share. A claim is what became of the wait for an interval
-- in flight: whether it was got, and the store at its end; a response's body is the chunks that came
-- in, with what the disk takes of each, and the client takes all.
use pulsys.Common.{
  ℕ, ◌+◌, Bool, not, ◌||◌, ◌&&◌, List, [], ◌∷◌, ◌++◌, Option, none, some, if◌then◌else◌, Bytes,
  codes, bytes_eq, ℤ, pos, ltbℤ, has_prefix, take,
}
use pulsys.Cache.Key.{is_content_addressed_host}
use pulsys.Cache.Store.{Store, load_meta, store_alias}
use pulsys.Cache.Writer.{Chunk}
use pulsys.Coreserver.Heads.{write_int}
use pulsys.Proxy.Handler.{Handler, Answer, relayed, to_proxy, security_headers}
use pulsys.Proxy.Headers.{
  Headers, header_get, header_set, header_del, outbound_from, copy_and_rewrite_headers,
}
use pulsys.Proxy.Lookup.{try_serve_from_cache}
use pulsys.Proxy.Route.{request_key, resolve_rev_alias_path}

pub record UpstreamRequest : Type 0 where
  pub method : Bytes
  pub host : Bytes
  pub path : Bytes
  pub query : Bytes
  pub headers : Headers
  pub body : Bytes

pub record Response : Type 0 where
  pub status : ℕ
  pub headers : Headers
  pub content_length : ℤ
  pub chunks : List Chunk

-- A client's request, once it is routed.
pub record Call : Type 0 where
  pub method : Bytes
  pub host : Bytes
  pub path : Bytes
  pub query : Bytes
  pub url_path : Bytes
  pub headers : Headers
  pub body : Bytes
  pub key : Bytes
  pub artifact : Bool
  pub origin : Bytes

pub record Claim : Type 0 where
  pub claimed : Bool
  pub store : Store

-- The answer, the store behind it, and what the upstream was asked.
pub record Outcome : Type 0 where
  pub answer : Answer
  pub store : Store
  pub asked : List UpstreamRequest

-- An answer of the cache, or what follows a miss.
unfoldable pub cached_or : Option Answer → Store → Outcome → Outcome
cached_or none st miss = miss
cached_or (some a) st miss = record { answer = a; store = st; asked = [] }

-- What the cache has for the call, under this key.
unfoldable pub lookup_call : Handler → (Bytes → Bool) → Store → Call → Bytes → Bool → Option Answer
unfolding try_serve_from_cache header_get load_meta security_headers
lookup_call h body_opens st call key head_only =
    try_serve_from_cache h (load_meta st) body_opens security_headers
      (header_get (codes "Range") call.headers) key head_only

unfoldable pub injects_token : Handler → Bytes → Bool
unfolding is_content_addressed_host
injects_token h host = not (is_content_addressed_host host) && not (bytes_eq h.upstream_hf_token [])

unfoldable pub outbound_headers : Handler → Bytes → Headers → Headers
unfolding injects_token outbound_from header_set
outbound_headers h host headers =
    if injects_token h host
    then header_set (codes "Authorization") (codes "Bearer " ++ h.upstream_hf_token)
        (outbound_from [] headers)
    else outbound_from [] headers

-- What is read of a client's body: 256 << 20 bytes at most.
abbrev max_request_body : ℕ
max_request_body = 268435456

unfoldable pub upstream_request : Handler → Call → UpstreamRequest
unfolding outbound_headers
upstream_request h call = record {
  method = call.method;
  host = call.host;
  path = call.path;
  query = call.query;
  headers = outbound_headers h call.host call.headers;
  body =
      if bytes_eq call.method (codes "GET") || bytes_eq call.method (codes "HEAD")
      then []
      else take max_request_body call.body;
}

abbrev pub sum_sizes : List Chunk → ℕ
sum_sizes [] = 0
sum_sizes (ch ∷ chunks) = ch.size + sum_sizes chunks

unfoldable pub set_artifact_headers : Headers → ℤ → Headers
unfolding header_set header_del write_int
set_artifact_headers hdr n =
    if ltbℤ n (pos 0)
    then header_del (codes "Content-Length") hdr
    else header_set (codes "Content-Length") (write_int [] n) hdr

unfoldable pub stream_metadata : Headers → Response → Answer
unfolding set_artifact_headers
stream_metadata hdr resp = record {
  status = resp.status;
  headers = set_artifact_headers hdr resp.content_length;
  body = relayed (sum_sizes resp.chunks);
}

-- The alias under the commit's hash; a store that refuses it stays as it is.
unfoldable pub maybe_write_rev_alias : Handler → Call → Headers → Store → Store
unfolding header_get resolve_rev_alias_path request_key store_alias
maybe_write_rev_alias h call headers st =
    let sha = header_get (codes "X-Repo-Commit") headers in
    if bytes_eq sha [] then st else elim (resolve_rev_alias_path call.path sha) [
      | none ↦ st
      | some alias_path ↦
          let alias_key = request_key h (codes "GET") call.host alias_path call.query in
          if bytes_eq alias_path call.path || bytes_eq alias_key call.key
          then st
          else elim (store_alias st alias_key call.key call.host alias_path call.query) [
            | none ↦ st
            | some st' ↦ st'
          ]
    ]

-- The headers for the client. The origin is the path of the client's request, unless that came with one
-- or followed a rewritten redirect.
unfoldable pub relayed_headers : Handler → Call → Headers → Headers
unfolding copy_and_rewrite_headers to_proxy security_headers
relayed_headers h call headers =
    let origin =
      if bytes_eq call.origin [] && not (has_prefix (codes "/_p/") call.url_path)
      then call.url_path
      else call.origin in
    copy_and_rewrite_headers (to_proxy h origin) security_headers headers
