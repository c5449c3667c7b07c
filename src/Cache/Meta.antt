-- ===== src/Cache/Meta.antt =====
-- internal/cache/store.go: `Meta`, what the cache keeps of an object beside its bytes.
use pulsys.Common.{ℕ, List, Option, Bytes, ℤ}
use pulsys.Cache.Spans.{Span}

pub record Meta : Type 0 where
  pub version : ℤ
  pub upstream_host : Bytes
  pub path : Bytes
  pub raw_query : Bytes
  pub spans : List Span
  pub total : Option ℤ
  pub etag : Bytes
  pub content_type : Bytes
  pub status_code : ℕ
  pub location : Bytes
  pub extra_headers : List (Bytes × Bytes)
  pub alias_of : Bytes
  pub origin_path : Bytes
  pub origin_paths : List Bytes
