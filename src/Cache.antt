-- ===== src/Cache.antt =====
-- internal/cache: the on-disk cache of upstream bodies.
pub mod Spans
pub mod Ranges
pub mod Key
pub mod Meta
pub mod Inflight
pub mod Owners
pub mod Quota
pub mod Segment
pub mod Lru
pub mod Store
pub mod Writer
