-- ===== src/Proxy/Redirects.antt =====
-- internal/proxy/handler.go: a redirect, which is kept for all ranges, `cacheRedirect`.
pub mod Kept
use pulsys.Common.{
  ℕ, ◌+◌, Bool, true, false, not, ◌||◌, ◌&&◌, List, [], ◌∷◌, ◌++◌, Option, none, some,
  if◌then◌else◌, ◌==◌, Bytes, codes, bytes_eq, ℤ, pos, negsuc, ◌-ℤ◌, ltbℤ, lebℤ, wrap64, has_prefix,
  take,
}
use pulsys.Cache.Key.{is_content_addressed_host}
use pulsys.Cache.Ranges.{parse_single_range}
use pulsys.Cache.Segment.{SegmentParams}
use pulsys.Cache.Store.{
  Store, Redirect, load_meta, is_cacheable_redirect_status, store_alias, store_redirect,
}
use pulsys.Cache.Writer.{
  Chunk, BeginError, bad_params, quota_exceeded, not_opened, Begun, begun, refused, SegmentWriter,
  begin_segment, tee_copy, close,
}
use pulsys.Coreserver.Heads.{write_int}
use pulsys.Proxy.ContentRange.{ContentRange, parse_content_range_response}
use pulsys.Proxy.Handler.{Handler, Answer, text, relayed, to_proxy, security_headers}
use pulsys.Proxy.Headers.{
  Headers, header_get, header_set, header_del, outbound_from, copy_and_rewrite_headers,
  pick_preserved_headers,
}
use pulsys.Proxy.Lookup.{format_content_range, try_serve_from_cache}
use pulsys.Proxy.Route.{request_key, resolve_rev_alias_path, error_answer}
use pulsys.Proxy.Calls.{
  Call, Outcome, Response, UpstreamRequest, maybe_write_rev_alias, stream_metadata,
}

-- The redirect goes to the client as it was rewritten.
unfoldable pub forward_redirect : Headers → Response → Answer
unfolding header_set
forward_redirect hdr resp = record {
  status = resp.status;
  headers = header_set (codes "Content-Length") (codes "0") hdr;
  body = text [];
}

-- The request without its Range header.
unfoldable pub unranged : UpstreamRequest → UpstreamRequest
unfolding header_del
unranged r = record r {
  method = codes "GET";
  headers = header_del (codes "Range") r.headers;
  body = [];
}

module _ (h : Handler) (upstream : UpstreamRequest → Option Response) where
  -- A location that holds for each range, with the headers it came with; and what was asked for it.
  unfoldable pub cacheable_location :
      UpstreamRequest → Response → Option (Bytes × Headers) × List UpstreamRequest
  unfolding header_get unranged is_cacheable_redirect_status
  cacheable_location r resp =
      if bytes_eq (header_get (codes "Range") r.headers) []
      then (some (header_get (codes "Location") resp.headers, resp.headers), [])
      else (elim (upstream (unranged r)) [
        | none ↦ (none, unranged r ∷ [])
        | some fresh ↦
            if not (is_cacheable_redirect_status fresh.status)
              || bytes_eq (header_get (codes "Location") fresh.headers) []
            then (none, unranged r ∷ [])
            else (
              some (header_get (codes "Location") fresh.headers, fresh.headers),
              unranged r ∷ [],
            )
      ])

  unfoldable pub redirect_of : Call → ℕ → Bytes → Headers → Redirect
  unfolding header_get pick_preserved_headers
  redirect_of call status loc headers = record {
    status = status;
    host = call.host;
    path = call.path;
    raw_query = call.query;
    location = loc;
    content_type = header_get (codes "Content-Type") headers;
    etag = header_get (codes "Etag") headers;
    extra_headers = pick_preserved_headers headers;
  }

  -- The redirect is kept, if it can be, and the alias under the commit's hash.
  unfoldable pub keep_redirect : Call → ℕ → Bytes → Headers → Store → Store
  unfolding store_redirect redirect_of maybe_write_rev_alias
  keep_redirect call status loc headers st =
      let kept : Store = elim (store_redirect st call.key (redirect_of call status loc headers)) [
        | none ↦ st
        | some st' ↦ st'
      ] in
      maybe_write_rev_alias h call headers kept

  unfoldable pub cache_redirect : Call → UpstreamRequest → Response → Headers → Store → Outcome
  unfolding header_get stream_metadata forward_redirect cacheable_location keep_redirect
  cache_redirect call r resp hdr st =
      let found = cacheable_location r resp in
      if bytes_eq (header_get (codes "Location") resp.headers) []
      then record { answer = stream_metadata hdr resp; store = st; asked = r ∷ [] }
      else record {
        answer = forward_redirect hdr resp;
        store = elim found.0 [
          | none ↦ st
          | some (loc, headers) ↦ keep_redirect call resp.status loc headers st
        ];
        asked = r ∷ found.1;
      }
