-- ===== src/Proxy/Segments.antt =====
-- internal/proxy/handler.go: a response whose body is kept, `streamCacheable200` and `streamCacheable206`.
use pulsys.Common.{ℕ, Bool, [], none, some, codes, ℤ, pos, ◌-ℤ◌, wrap64}
use pulsys.Cache.Segment.{SegmentParams}
use pulsys.Cache.Store.{Store}
use pulsys.Cache.Writer.{
  BeginError, bad_params, quota_exceeded, not_opened, Begun, begun, refused, begin_segment,
  tee_copy, close,
}
use pulsys.Proxy.ContentRange.{parse_content_range_response}
use pulsys.Proxy.Handler.{Handler, Answer, text, relayed}
use pulsys.Proxy.Headers.{Headers, header_get, header_set, pick_preserved_headers}
use pulsys.Proxy.Lookup.{format_content_range}
use pulsys.Proxy.Route.{error_answer}
use pulsys.Proxy.Calls.{
  Call, Response, maybe_write_rev_alias, set_artifact_headers, stream_metadata,
}

unfoldable pub begin_error_answer : Headers → BeginError → Answer
unfolding error_answer
begin_error_answer hdr quota_exceeded = error_answer hdr 507 (codes "cache storage quota exceeded")
begin_error_answer hdr bad_params = error_answer hdr 500 (codes "cache write failed")
begin_error_answer hdr not_opened = error_answer hdr 500 (codes "cache write failed")

-- What of a segment does not hang on the kind of the response.
unfoldable pub segment_params : Call → Response → ℕ → ℤ → ℤ → ℤ → SegmentParams
unfolding header_get pick_preserved_headers
segment_params call resp status start size total = record {
  status = status;
  upstream_host = call.host;
  path = call.path;
  raw_query = call.query;
  etag = header_get (codes "Etag") resp.headers;
  content_type = header_get (codes "Content-Type") resp.headers;
  start = start;
  size = size;
  total = total;
  extra_headers = pick_preserved_headers resp.headers;
  origin_path = call.origin;
}

module _ (h : Handler) (interval : ℤ) (file_opens : Bool) where
  -- What follows `BeginSegment`: the body goes to the client and the disk.
  unfoldable pub tee_body : Call → Response → Headers → Answer → Begun → Answer × Store
  unfolding begin_error_answer tee_copy close maybe_write_rev_alias
  tee_body call resp hdr head (refused st e) = (begin_error_answer hdr e, st)
  tee_body call resp hdr head (begun st w) =
      let copied = tee_copy interval (st, w) resp.chunks in
      (
        record head { body = relayed copied.1 },
        maybe_write_rev_alias h call resp.headers (close copied.0).0,
      )

  unfoldable pub stream_cacheable200 : Call → Response → Headers → Store → Answer × Store
  unfolding segment_params begin_segment tee_body set_artifact_headers
  stream_cacheable200 call resp hdr st =
      let p = segment_params call resp 200 (pos 0) resp.content_length resp.content_length in
      let head : Answer = record {
        status = 200;
        headers = set_artifact_headers hdr resp.content_length;
        body = text [];
      } in
      tee_body call resp hdr head (begin_segment st call.key p file_opens)

  unfoldable pub stream_cacheable206 : Call → Response → Headers → Store → Answer × Store
  unfolding header_get parse_content_range_response stream_metadata segment_params begin_segment
      tee_body header_set set_artifact_headers format_content_range
  stream_cacheable206 call resp hdr st =
      elim (parse_content_range_response (header_get (codes "Content-Range") resp.headers)) [
        | none ↦ (stream_metadata hdr resp, st)
        | some r ↦
            let size = wrap64 (r.stop -ℤ r.start) in
            let p = segment_params call resp 206 r.start size r.total in
            let head : Answer = record {
              status = 206;
              headers =
                  set_artifact_headers
                    (header_set (codes "Content-Range")
                      (format_content_range r.start r.stop r.total) hdr)
                    size;
              body = text [];
            } in
            tee_body call resp hdr head (begin_segment st call.key p file_opens)
      ]
