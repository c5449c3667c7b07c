-- ===== src/Tests/Writer.antt =====
-- Tests of the store's operations and of its writers.
use pulsys.Common.{
  Bool, true, false, List, [], ◌∷◌, some, Bytes, codes, bytes_eq, ◌≡◌, refl, arith, ℤ, pos, negsuc,
}
use pulsys.Cache.Meta.{Meta}
use pulsys.Cache.Segment.{SegmentParams, quota_reservation_for}
use pulsys.Cache.Store.{Store, empty_meta, purge_keys}
use pulsys.Cache.Writer.{SegmentWriter, Chunk, begun, begin_segment, tee_copy, close}
use pulsys.Cache.Writer.Closed.{segment_reserved}

abbrev limited : ℤ → Store
limited reserved = record {
  counters = record {
    max_bytes = pos 100;
    used_bytes = pos 0;
    reserved_bytes = reserved;
    entry_count = pos 0;
  };
  objects = [];
}

abbrev ten_bytes : SegmentParams
ten_bytes = record {
  status = 200;
  upstream_host = codes "hub";
  path = codes "/f";
  raw_query = [];
  etag = [];
  content_type = [];
  start = pos 0;
  size = pos 10;
  total = pos 10;
  extra_headers = [];
  origin_path = [];
}

abbrev writer : SegmentWriter
writer = record {
  key = codes "k";
  params = ten_bytes;
  written = pos 0;
  last_checkpoint = pos 0;
  closed = false;
  reserved = pos 10;
  dynamic_quota = false;
}

ten_begun :
    begin_segment (limited (pos 7)) (codes "k") ten_bytes true ≡ begun (limited (pos 17)) writer
unfolding begin_segment
ten_begun = refl

abbrev failing : List Chunk
failing = record { size = 4; took = 4 } ∷ record { size = 6; took = 1 } ∷ []

-- The disk takes five of the ten bytes, and the client gets all of them.
client_gets_all : (tee_copy (pos 16) (limited (pos 17), writer) failing).1 ≡ 10
unfolding tee_copy
client_gets_all = refl

disk_gets_five : (tee_copy (pos 16) (limited (pos 17), writer) failing).0.1.written ≡ pos 5
unfolding tee_copy
disk_gets_five = refl

ten_reserved : quota_reservation_for ten_bytes ≡ pos 10
unfolding quota_reservation_for
ten_reserved = refl

segment_reserved_example :
    ((close (tee_copy (pos 16) (limited (pos 17), writer) failing).0).0.counters.reserved_bytes
      ≡ pos 7)
    × ((close (tee_copy (pos 16) (limited (pos 17), writer) failing).0).1.reserved ≡ pos 0)
segment_reserved_example =
    segment_reserved (limited (pos 7)) (limited (pos 17)) writer (codes "k") ten_bytes true (pos 16)
      failing 7 10 ten_begun refl refl ten_reserved (omega arith)

-- Without a limit nothing is reserved, but ten bytes are given back.
abbrev unlimited : Store
unlimited = record {
  counters = record {
    max_bytes = pos 0;
    used_bytes = pos 0;
    reserved_bytes = pos 0;
    entry_count = pos 0;
  };
  objects = [];
}

given_back : (close (unlimited, writer)).0.counters.reserved_bytes ≡ negsuc 9
unfolding close
given_back = refl

abbrev two_objects : Store
two_objects = record (limited (pos 0)) {
  objects =
      (codes "a", record empty_meta { total = some (pos 5) })
      ∷ (codes "b", record empty_meta { total = some (pos 6) })
      ∷ [];
}

abbrev is_a : Bytes → Meta → Bool
is_a k m = bytes_eq k (codes "a")

five_freed : (purge_keys two_objects is_a).1.bytes_freed ≡ pos 5
unfolding purge_keys
five_freed = refl
