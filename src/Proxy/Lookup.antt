-- ===== src/Proxy/Lookup.antt =====
-- internal/proxy/handler.go: `tryServeFromCache` and the answers from metadata. What the store has
-- under a key and whether an object's file opens are parameters.
pub mod Refines
pub mod Stale
use pulsys.Common.{
  ℕ, Bool, true, false, not, ◌||◌, ◌&&◌, List, [], ◌∷◌, ◌++◌, Option, none, some, if◌then◌else◌,
  Bytes, codes, bytes_eq, ℤ, pos, ◌-ℤ◌, ltbℤ, wrap64,
}
use pulsys.Cache.Meta.{Meta}
use pulsys.Cache.Spans.{covers}
use pulsys.Cache.Store.{is_cacheable_redirect_status}
use pulsys.Coreserver.Heads.{write_int}
use pulsys.Coreserver.Warm.{known_total, wanted_interval, has_spans}
use pulsys.Proxy.Handler.{Handler, Answer, to_proxy, text, file}
use pulsys.Proxy.Headers.{Headers, header_set, set_known, apply_extra_headers}

unfoldable pub format_content_range : ℤ → ℤ → ℤ → Bytes
unfolding write_int
format_content_range start stop total =
    let last = wrap64 (stop -ℤ pos 1) in
    let prefix = codes "bytes " ++ (write_int [] start ++ (codes "-" ++ write_int [] last)) in
    if ltbℤ total (pos 0) then prefix ++ codes "/*" else prefix ++ (codes "/" ++ write_int [] total)

unfoldable pub meta_headers : Headers → Meta → Headers
unfolding set_known apply_extra_headers
meta_headers hdr meta =
    apply_extra_headers
      (set_known (codes "Etag") meta.etag (set_known (codes "Content-Type") meta.content_type hdr))
      meta.extra_headers

-- `if meta.Total != nil && *meta.Total >= 0`
unfoldable pub set_total : Option ℤ → Headers → Headers
unfolding header_set write_int
set_total none hdr = hdr
set_total (some t) hdr =
    if ltbℤ t (pos 0) then hdr else header_set (codes "Content-Length") (write_int [] t) hdr

unfoldable pub serve_cached_head : Headers → Meta → Answer
unfolding meta_headers set_total
serve_cached_head hdr meta = record {
  status = 200;
  headers = set_total meta.total (meta_headers hdr meta);
  body = text [];
}

unfoldable pub serve_cached_redirect : Handler → Headers → Meta → Answer
unfolding to_proxy meta_headers header_set
serve_cached_redirect h hdr meta =
    let loc : Bytes = elim (to_proxy h meta.path meta.location) [
      | none ↦ meta.location
      | some nl ↦ nl
    ] in
    record {
      status = meta.status_code;
      headers =
          header_set (codes "Content-Length") (codes "0")
            (meta_headers (header_set (codes "Location") loc hdr) meta);
      body = text [];
    }

-- The status and the headers of the bytes of an object, for a request with this Range header.
unfoldable pub ranged_head : Headers → Bytes → ℤ → ℤ → ℤ → ℕ × Headers
unfolding header_set format_content_range
ranged_head hdr [] start stop total = (200, hdr)
ranged_head hdr (c ∷ s) start stop total =
    (206, header_set (codes "Content-Range") (format_content_range start stop total) hdr)

unfoldable pub is_cached_redirect : Meta → Bool
unfolding is_cacheable_redirect_status
is_cached_redirect meta =
    is_cacheable_redirect_status meta.status_code && not (bytes_eq meta.location [])

-- The interval of the object's file, with its head.
unfoldable pub body_answer : Headers → Bytes → Bytes → Meta → ℤ → ℤ → Answer
unfolding known_total meta_headers ranged_head header_set write_int
body_answer hdr range key meta start stop =
    let count = wrap64 (stop -ℤ start) in
    let counted =
      header_set (codes "Content-Length") (write_int [] count) (meta_headers hdr meta) in
    let head = ranged_head counted range start stop (known_total meta.total) in
    record { status = head.0; headers = head.1; body = file key start count }

module _ (h : Handler) (load_meta : Bytes → Option Meta) (body_opens : Bytes → Bool) where
  -- The bytes of the object that the request wants, once its metadata are at hand.
  unfoldable pub serve_body : Headers → Bytes → Bytes → Meta → Option Answer
  unfolding has_spans wanted_interval known_total covers body_answer
  serve_body hdr range key meta =
      if not (has_spans meta) then none else elim (wanted_interval range (known_total meta.total)) [
        | none ↦ none
        | some (start, stop) ↦
            if not (covers meta.spans start stop)
            then none
            else if not (body_opens key)
            then none
            else some (body_answer hdr range key meta start stop)
      ]

  unfoldable pub serve_found : Headers → Bytes → Bool → Bytes → Meta → Option Answer
  unfolding is_cached_redirect serve_cached_redirect serve_cached_head serve_body
  serve_found hdr range head_only key meta =
      if is_cached_redirect meta
      then some (serve_cached_redirect h hdr meta)
      else if head_only
      then some (serve_cached_head hdr meta)
      else serve_body hdr range key meta

  -- One hop of an alias is followed.
  unfoldable pub serve_entry : Headers → Bytes → Bool → Bytes → Meta → Option Answer
  unfolding serve_found
  serve_entry hdr range head_only key meta =
      if bytes_eq meta.alias_of []
      then serve_found hdr range head_only key meta
      else elim (load_meta meta.alias_of) [
        | none ↦ none
        | some canonical ↦ serve_found hdr range head_only meta.alias_of canonical
      ]

  -- `none` is a miss.
  unfoldable pub try_serve_from_cache : Headers → Bytes → Bytes → Bool → Option Answer
  unfolding serve_entry
  try_serve_from_cache hdr range key head_only = elim (load_meta key) [
    | none ↦ none
    | some meta ↦ serve_entry hdr range head_only key meta
  ]
