-- ===== src/Cache/Segment.antt =====
-- internal/cache/store.go: `SegmentParams`, its validation, and what a `SegmentWriter` records of an
-- object: `checkpoint` while the body streams in, and `commit` at its end. The steps that only touch
-- files are not modelled; an object's metadata are read from the store and written back whole.
pub mod Recorded
use pulsys.Common.{
  ℕ, Bool, true, false, ◌&&◌, ◌||◌, List, [], ◌∷◌, ◌++◌, Option, none, some, if◌then◌else◌, ◌==◌,
  Bytes, bytes_eq, ℤ, pos, negsuc, ◌+ℤ◌, lebℤ, ltbℤ, wrap64,
}
use pulsys.Cache.Meta.{Meta}
use pulsys.Cache.Owners.{append_owner}
use pulsys.Cache.Spans.{Span, merge_spans}

pub record SegmentParams : Type 0 where
  pub status : ℕ
  pub upstream_host : Bytes
  pub path : Bytes
  pub raw_query : Bytes
  pub etag : Bytes
  pub content_type : Bytes
  pub start : ℤ
  pub size : ℤ
  pub total : ℤ
  pub extra_headers : List (Bytes × Bytes)
  pub origin_path : Bytes

-- True if `validateSegmentParams` has no error.
unfoldable pub validate_segment_params : Bytes → SegmentParams → Bool
validate_segment_params [] p = false
validate_segment_params (c ∷ key) p =
    if ltbℤ p.start (pos 0)
    then false
    else if ltbℤ p.size (negsuc 0)
    then false
    else if ltbℤ p.total (negsuc 0)
    then false
    else p.status == 200 || p.status == 206

unfoldable pub quota_reservation_for : SegmentParams → ℤ
quota_reservation_for p =
    if ltbℤ (pos 0) p.total then p.total else if ltbℤ (pos 0) p.size then p.size else pos 0

-- The value that is not empty, the first one before the second.
unfoldable pub or_else : Bytes → Bytes → Bytes
or_else [] t = t
or_else (c ∷ s) t = c ∷ s

-- The metadata that the writer starts from.
unfoldable pub start_meta : Option Meta → SegmentParams → Meta
start_meta (some m) p = m
start_meta none p = record {
  version = pos 1;
  upstream_host = p.upstream_host;
  path = p.path;
  raw_query = p.raw_query;
  spans = [];
  total = none;
  etag = p.etag;
  content_type = p.content_type;
  status_code = p.status;
  location = [];
  extra_headers = [];
  alias_of = [];
  origin_path = p.origin_path;
  origin_paths = [];
}

unfoldable pub add_origin : Meta → Bytes → Meta
unfolding or_else append_owner
add_origin m origin = record m {
  origin_path = or_else m.origin_path origin;
  origin_paths = append_owner m.origin_paths origin;
}

-- `meta.ExtraHeaders[k] = v`, on an association list.
unfoldable pub set_key : Bytes → Bytes → List (Bytes × Bytes) → List (Bytes × Bytes)
set_key k v [] = (k, v) ∷ []
set_key k v ((k', v') ∷ rest) =
    let more = set_key k v rest in if bytes_eq k k' then (k, v) ∷ rest else (k', v') ∷ more

unfoldable pub merge_extra_headers :
    List (Bytes × Bytes) → List (Bytes × Bytes) → List (Bytes × Bytes)
unfolding set_key
merge_extra_headers headers [] = headers
merge_extra_headers headers ((k, []) ∷ extra) = merge_extra_headers headers extra
merge_extra_headers headers ((k, c ∷ v) ∷ extra) =
    merge_extra_headers (set_key k (c ∷ v) headers) extra

-- The interval written so far.
unfoldable pub written_span : SegmentParams → ℤ → Span
written_span p written = record { start = p.start; stop = wrap64 (p.start +ℤ written) }

unfoldable pub add_span : List Span → Span → List Span
unfolding merge_spans
add_span spans s = merge_spans (spans ++ s ∷ [])

-- The metadata that `checkpoint` writes, when bytes have come in since the last one.
unfoldable pub checkpoint_meta : Option Meta → SegmentParams → ℤ → Meta
unfolding start_meta add_origin merge_extra_headers add_span written_span
checkpoint_meta old p written =
    let m = add_origin (start_meta old p) p.origin_path in
    record m {
      spans = add_span m.spans (written_span p written);
      total = if ltbℤ (pos 0) p.total then some p.total else m.total;
      extra_headers = merge_extra_headers m.extra_headers p.extra_headers;
    }

unfoldable pub commit_spans : List Span → SegmentParams → ℤ → List Span
unfolding add_span written_span
commit_spans spans p written =
    if ltbℤ (pos 0) written then add_span spans (written_span p written) else spans

-- The total: as announced, or all that was written of a whole body of unknown length.
unfoldable pub commit_total : Option ℤ → SegmentParams → ℤ → Option ℤ
commit_total total p written =
    if ltbℤ (pos 0) p.total
    then some p.total
    else if p.status == 200
        && ((lebℤ p.start (pos 0) && lebℤ (pos 0) p.start)
            && (ltbℤ p.size (pos 0) && ltbℤ (pos 0) written))
    then some written
    else total

unfoldable pub commit_status : ℕ → ℕ → ℕ
commit_status old new =
    if new == 0 then old else if old == 0 || (new == 200 && old == 206) then new else old

-- The metadata that `commit` writes.
unfoldable pub commit_meta : Option Meta → SegmentParams → ℤ → Meta
unfolding start_meta add_origin merge_extra_headers commit_spans commit_total commit_status or_else
commit_meta old p written =
    let m = add_origin (start_meta old p) p.origin_path in
    record m {
      spans = commit_spans m.spans p written;
      total = commit_total m.total p written;
      status_code = commit_status m.status_code p.status;
      etag = or_else p.etag m.etag;
      content_type = or_else p.content_type m.content_type;
      upstream_host = or_else m.upstream_host p.upstream_host;
      path = or_else m.path p.path;
      raw_query = or_else m.raw_query p.raw_query;
      extra_headers = merge_extra_headers m.extra_headers p.extra_headers;
    }
