-- ===== src/Proxy/Forward.antt =====
-- internal/proxy/handler.go: `forward`, which asks the upstream, keeps what can be kept and relays the
-- rest. The upstream is a parameter, a function from requests to responses.
pub mod Outbound
use pulsys.Common.{
  ℕ, ◌+◌, Bool, true, false, not, ◌||◌, ◌&&◌, List, [], ◌∷◌, ◌++◌, Option, none, some,
  if◌then◌else◌, ◌==◌, Bytes, codes, bytes_eq, ℤ, pos, negsuc, ◌-ℤ◌, ltbℤ, lebℤ, wrap64, has_prefix,
  take,
}
use pulsys.Cache.Key.{is_content_addressed_host}
use pulsys.Cache.Ranges.{parse_single_range}
use pulsys.Cache.Segment.{SegmentParams}
use pulsys.Cache.Store.{
  Store, Redirect, load_meta, is_cacheable_redirect_status, store_alias, store_redirect,
}
use pulsys.Cache.Writer.{
  Chunk, BeginError, bad_params, quota_exceeded, not_opened, Begun, begun, refused, SegmentWriter,
  begin_segment, tee_copy, close,
}
use pulsys.Coreserver.Heads.{write_int}
use pulsys.Proxy.ContentRange.{ContentRange, parse_content_range_response}
use pulsys.Proxy.Handler.{Handler, Answer, text, relayed, to_proxy, security_headers}
use pulsys.Proxy.Headers.{
  Headers, header_get, header_set, header_del, outbound_from, copy_and_rewrite_headers,
  pick_preserved_headers,
}
use pulsys.Proxy.Lookup.{format_content_range, try_serve_from_cache}
use pulsys.Proxy.Route.{request_key, resolve_rev_alias_path, error_answer}
use pulsys.Proxy.Calls.{
  Call, Claim, Outcome, Response, UpstreamRequest, cached_or, lookup_call, relayed_headers,
  stream_metadata, upstream_request,
}
use pulsys.Proxy.Segments.{stream_cacheable200, stream_cacheable206}
use pulsys.Proxy.Redirects.{cache_redirect}

module _ (h : Handler) (upstream : UpstreamRequest → Option Response) where
  module _ (body_opens : Bytes → Bool) (interval : ℤ) (file_opens : Bool) where
    -- What follows a response of the upstream.
    unfoldable pub relay : Call → Bool → UpstreamRequest → Store → Response → Outcome
    unfolding relayed_headers stream_metadata stream_cacheable200 stream_cacheable206 cache_redirect
        is_cacheable_redirect_status
    relay call passthrough r st resp =
        let hdr = relayed_headers h call resp.headers in
        let is_get = bytes_eq call.method (codes "GET") in
        let whole = stream_cacheable200 h interval file_opens call resp hdr st in
        let part = stream_cacheable206 h interval file_opens call resp hdr st in
        if passthrough
        then record { answer = stream_metadata hdr resp; store = st; asked = r ∷ [] }
        else if is_get && resp.status == 200
        then record { answer = whole.0; store = whole.1; asked = r ∷ [] }
        else if is_get && resp.status == 206
        then record { answer = part.0; store = part.1; asked = r ∷ [] }
        else if is_get && is_cacheable_redirect_status resp.status
        then cache_redirect h upstream call r resp hdr st
        else record { answer = stream_metadata hdr resp; store = st; asked = r ∷ [] }

    unfoldable pub relay_result : Call → Bool → UpstreamRequest → Store → Option Response → Outcome
    unfolding relay error_answer security_headers
    relay_result call passthrough r st none = record {
      answer = error_answer security_headers 502 (codes "upstream error");
      store = st;
      asked = r ∷ [];
    }
    relay_result call passthrough r st (some resp) = relay call passthrough r st resp

    unfoldable pub ask : Call → Bool → Store → Outcome
    unfolding upstream_request relay_result
    ask call passthrough st =
        let r = upstream_request h call in relay_result call passthrough r st (upstream r)

    -- Without a ticket for the interval, the request passes through and leaves the store alone.
    unfoldable pub forward : Call → Claim → Outcome
    unfolding lookup_call cached_or ask
    forward call claim =
        let cached = lookup_call h body_opens claim.store call call.key false in
        let miss = ask call (h.bounded_wait && not claim.claimed) claim.store in
        if call.artifact && bytes_eq call.method (codes "GET")
        then cached_or cached claim.store miss
        else ask call false claim.store

-- The interval that an artifact's GET claims.
unfoldable pub claimed_interval : Bytes → ℤ × ℤ
unfolding parse_single_range
claimed_interval [] = (pos 0, pos 9223372036854775807)
claimed_interval (c ∷ s) = elim (parse_single_range (c ∷ s) (negsuc 0)) [
  | none ↦ (pos 0, pos 9223372036854775807)
  | some (start, stop) ↦ if ltbℤ start stop then (start, stop) else (pos 0, pos 9223372036854775807)
]
