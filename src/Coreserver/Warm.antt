-- ===== src/Coreserver/Warm.antt =====
-- internal/coreserver/server.go: `tryServeWarm`, which answers a request from the cache. SHA-256, what
-- the store has under a key and whether the object's file opens are parameters; `fused` says that the
-- connection has a raw socket and the file a descriptor. The transfer of the body is system calls:
-- the answer names the head, and the offset and the number of the bytes to send behind it.
pub mod Hits
pub mod Interval
pub mod Status
pub mod Answers
use pulsys.Common.{
  ℕ, Bool, true, false, not, List, [], ◌∷◌, Option, none, some, if◌then◌else◌, Bytes, codes,
  bytes_eq, ℤ, pos, negsuc, ◌-ℤ◌, ltbℤ, wrap64,
}
use pulsys.Cache.Key.{is_content_addressed_host, key_hex}
use pulsys.Cache.Meta.{Meta}
use pulsys.Cache.Ranges.{parse_single_range}
use pulsys.Cache.Spans.{Span, covers}
use pulsys.Classify.{artifact_get}
use pulsys.Coreserver.HeaderBuf.{write_warm_head200_buf, write_warm_head206_buf}
use pulsys.Coreserver.Heads.{write_warm_head200, write_warm_head206}
use pulsys.Coreserver.Request.{Request}

pub record Served : Type 0 where
  pub head : Bytes
  pub offset : ℤ
  pub count : ℤ

-- The total of the object, or -1.
unfoldable pub known_total : Option ℤ → ℤ
known_total none = negsuc 0
known_total (some total) = total

-- `wantStart` and `wantEnd`
unfoldable pub wanted_interval : Bytes → ℤ → Option (ℤ × ℤ)
unfolding parse_single_range
wanted_interval [] total = if ltbℤ total (pos 0) then none else some (pos 0, total)
wanted_interval (c ∷ s) total = elim (parse_single_range (c ∷ s) total) [
  | none ↦ none
  | some (start, stop) ↦ if ltbℤ stop (pos 0) then none else some (start, stop)
]

unfoldable pub warm_head : Bool → Bytes → ℤ → ℤ → ℤ → Meta → Bool → Bytes
unfolding write_warm_head200_buf write_warm_head206_buf write_warm_head200 write_warm_head206
warm_head true [] start stop total meta keep_alive =
    write_warm_head200_buf [] (wrap64 (stop -ℤ start)) meta keep_alive
warm_head true (c ∷ s) start stop total meta keep_alive =
    write_warm_head206_buf [] start stop total (wrap64 (stop -ℤ start)) meta keep_alive
warm_head false [] start stop total meta keep_alive =
    write_warm_head200 [] (wrap64 (stop -ℤ start)) meta keep_alive
warm_head false (c ∷ s) start stop total meta keep_alive =
    write_warm_head206 [] start stop total (wrap64 (stop -ℤ start)) meta keep_alive

unfoldable pub has_spans : Meta → Bool
has_spans meta = elim meta.spans [ [] ↦ false | s ∷ rest ↦ true ]

module _ (sha256 : Bytes → Bytes) (load_meta : Bytes → Option Meta) (body_opens : Bytes → Bool)
    (host : Bytes) (fused : Bool) where
  unfoldable pub warm_key : Request → Bytes
  unfolding is_content_addressed_host key_hex
  warm_key req =
      let key_query = if is_content_addressed_host host then [] else req.query in
      key_hex sha256 (codes "GET") host req.path key_query []

  -- What follows once the object's metadata are at hand.
  unfoldable pub serve_meta : Request → Bytes → Meta → Option Served
  unfolding has_spans wanted_interval known_total covers warm_head
  serve_meta req key meta =
      let total = known_total meta.total in
      if not (has_spans meta) then none else elim (wanted_interval req.range total) [
        | none ↦ none
        | some (start, stop) ↦
            if not (covers meta.spans start stop)
            then none
            else if not (body_opens key)
            then none
            else some (record {
              head = warm_head fused req.range start stop total meta req.keep_alive;
              offset = start;
              count = wrap64 (stop -ℤ start);
            })
      ]

  unfoldable pub try_serve_warm : Request → Option Served
  unfolding artifact_get warm_key serve_meta
  try_serve_warm req =
      if not (bytes_eq req.method (codes "GET"))
      then none
      else if not (artifact_get host host (codes "GET") req.path)
      then none
      else elim (load_meta (warm_key req)) [
        | none ↦ none
        | some meta ↦ serve_meta req (warm_key req) meta
      ]
