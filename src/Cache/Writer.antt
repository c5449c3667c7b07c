-- ===== src/Cache/Writer.antt =====
-- internal/cache/store.go: `BeginSegment` and the `SegmentWriter`, which writes the body of an object
-- with its quota reserved and publishes what it wrote; and `diskTeeReader` of
-- internal/proxy/handler.go under `io.Copy`. The body's file is not modelled: that it opens is an
-- argument, and a chunk says how many of its bytes the file takes (fewer than all is an error).
pub mod Closed
pub mod Reserved
pub mod Written
use pulsys.Common.{
  ℕ, ◌+◌, ◌-◌, Bool, true, false, not, ◌&&◌, ◌||◌, List, [], ◌∷◌, Option, none, some, if◌then◌else◌,
  ◌==◌, Bytes, ℤ, pos, ◌+ℤ◌, ◌-ℤ◌, lebℤ, ltbℤ, wrap64, ltb, leb,
}
use pulsys.Cache.Meta.{Meta}
use pulsys.Cache.Quota.{Counters, reserve_quota, release_reservation}
use pulsys.Cache.Segment.{
  SegmentParams, validate_segment_params, quota_reservation_for, checkpoint_meta, commit_meta,
}
use pulsys.Cache.Store.{Store, lookup_object, publish_meta}

pub record SegmentWriter : Type 0 where
  pub key : Bytes
  pub params : SegmentParams
  pub written : ℤ
  pub last_checkpoint : ℤ
  pub closed : Bool
  pub reserved : ℤ
  pub dynamic_quota : Bool

-- The store with the counters, and the writer.
abbrev pub Writing : Type 0
Writing = Store × SegmentWriter

pub data BeginError : Type 0 where
  bad_params : BeginError
  quota_exceeded : BeginError
  not_opened : BeginError

pub data Begun : Type 0 where
  refused : Store → BeginError → Begun
  begun : Store → SegmentWriter → Begun

unfoldable pub new_writer : Bytes → SegmentParams → Counters → SegmentWriter
unfolding quota_reservation_for
new_writer key p c = record {
  key = key;
  params = p;
  written = pos 0;
  last_checkpoint = pos 0;
  closed = false;
  reserved = quota_reservation_for p;
  dynamic_quota =
      (lebℤ (quota_reservation_for p) (pos 0) && lebℤ (pos 0) (quota_reservation_for p))
      && (ltbℤ (pos 0) c.max_bytes && (lebℤ p.total (pos 0) && lebℤ p.size (pos 0)));
}

unfoldable pub begin_segment : Store → Bytes → SegmentParams → Bool → Begun
unfolding validate_segment_params quota_reservation_for reserve_quota release_reservation new_writer
begin_segment st key p opens =
    if not (validate_segment_params key p)
    then refused st bad_params
    else elim (reserve_quota st.counters (quota_reservation_for p)) [
      | none ↦ refused st quota_exceeded
      | some c ↦
          if opens
          then begun (record st { counters = c }) (new_writer key p c)
          else refused (record st { counters = release_reservation c (quota_reservation_for p) })
              not_opened
    ]

unfoldable pub release_reserved : Writing → ℤ → Writing
unfolding release_reservation
release_reserved (st, w) n =
    let m = if ltbℤ w.reserved n then w.reserved else n in
    if lebℤ n (pos 0) || lebℤ w.reserved (pos 0) then (st, w) else (
      record st { counters = release_reservation st.counters m },
      record w { reserved = wrap64 (w.reserved -ℤ m) },
    )

-- The writer's metadata are put in place, and what they account for is no longer reserved.
unfoldable pub publish : Writing → Meta → Writing
unfolding publish_meta release_reserved
publish (st, w) m =
    let published = publish_meta st w.key m in release_reserved (published.0, w) published.1

unfoldable pub checkpoint : Writing → Writing
unfolding lookup_object publish checkpoint_meta
checkpoint (st, w) =
    let after =
      publish (st, w) (checkpoint_meta (lookup_object w.key st.objects) w.params w.written) in
    if lebℤ w.written w.last_checkpoint && lebℤ w.last_checkpoint w.written
    then (st, w)
    else (after.0, record after.1 { last_checkpoint = w.written })

-- A chunk of the body: its size, and how many of its bytes the file takes.
pub record Chunk : Type 0 where
  pub size : ℕ
  pub took : ℕ

-- What the file did not take of a chunk is given back, if the chunk was reserved.
unfoldable pub give_back : Writing → Chunk → Writing
unfolding release_reserved
give_back (st, w) ch =
    if w.dynamic_quota && ltb ch.took ch.size
    then release_reserved (st, w) (pos (ch.size - ch.took))
    else (st, w)

unfoldable pub count_bytes : Writing → ℕ → Writing
count_bytes (st, w) took =
    (st, record w { written = if ltb 0 took then wrap64 (w.written +ℤ pos took) else w.written })

-- Enough was written since the last checkpoint; `interval` is `CheckpointInterval`.
unfoldable pub is_due : ℤ → SegmentWriter → Bool
is_due interval w = ltbℤ (pos 0) interval && lebℤ interval (wrap64 (w.written -ℤ w.last_checkpoint))

-- What follows once the chunk's quota is reserved.
unfoldable pub write_reserved : ℤ → Writing → Chunk → Writing × Bool
unfolding give_back count_bytes is_due checkpoint
write_reserved interval s ch =
    let counted = count_bytes (give_back s ch) ch.took in
    (
      if leb ch.size ch.took && is_due interval counted.1 then checkpoint counted else counted,
      leb ch.size ch.took,
    )

-- The counters with the chunk's reservation, if there is room for it.
unfoldable pub write_granted : ℤ → Writing → Chunk → Option Counters → Writing × Bool
unfolding write_reserved
write_granted interval s ch none = (s, false)
write_granted interval (st, w) ch (some c) =
    write_reserved interval
      (record st { counters = c }, record w { reserved = wrap64 (w.reserved +ℤ pos ch.size) }) ch

-- The state behind a write, and whether it had no error.
unfoldable pub write : ℤ → Writing → Chunk → Writing × Bool
unfolding write_reserved write_granted reserve_quota
write interval (st, w) ch =
    if ch.size == 0
    then ((st, w), true)
    else if w.dynamic_quota
    then write_granted interval (st, w) ch (reserve_quota st.counters (pos ch.size))
    else write_reserved interval (st, w) ch

unfoldable pub commit : Writing → Writing
unfolding lookup_object publish commit_meta
commit (st, w) = publish (st, w) (commit_meta (lookup_object w.key st.objects) w.params w.written)

unfoldable pub close : Writing → Writing
unfolding commit release_reserved
close (st, w) =
    if w.closed
    then (st, w)
    else release_reserved (commit (st, record w { closed = true })) w.reserved

-- `io.Copy` from the tee: the state, and how many bytes went to the client, which takes all. Each read
-- hands on what the body gave, also when the write to the disk failed, and stops behind it then.
unfoldable pub tee_copy : ℤ → Writing → List Chunk → Writing × ℕ
unfolding write
tee_copy interval s [] = (s, 0)
tee_copy interval s (ch ∷ chunks) =
    let after = write interval s ch in
    let rest = tee_copy interval after.0 chunks in
    if after.1 then (rest.0, ch.size + rest.1) else (after.0, ch.size)
