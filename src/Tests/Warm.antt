-- ===== src/Tests/Warm.antt =====
-- Tests of warm answers, their heads and the loop over a connection.
use pulsys.Common.{
  ℕ, bytes_eq, if◌then◌else◌, Bool, true, List, [], ◌∷◌, Option, none, some, Bytes, codes, ◌≡◌,
  refl, ◌↔◌, arith, take, ℤ, pos, negsuc, ◌<ℤ◌, ◌+ℤ◌, ◌≤ℤ◌,
}
use pulsys.Cache.Meta.{Meta}
use pulsys.Cache.Spans.{Span}
use pulsys.Cache.Spans.Points.{HoldsAny}
use pulsys.Coreserver.Chars.Decimal.{parse_decimal_int64}
use pulsys.Coreserver.Conn.{Server, Event, warm, serve_conn}
use pulsys.Coreserver.Conn.Admission.{ReadsForward, IsGoodRun, serve_conn-IsGoodRun}
use pulsys.Coreserver.HeaderBuf.{write_warm_head200_buf, write_warm_head206_buf}
use pulsys.Coreserver.HeaderBuf.Same.{header_buf-take}
use pulsys.Coreserver.Heads.{write_uint, write_warm_head200, write_warm_head206}
use pulsys.Coreserver.Heads.Digits.{parse_decimal_int64-write_uint}
use pulsys.Coreserver.Request.{Request, empty_request}
use pulsys.Coreserver.Warm.{Served, try_serve_warm, warm_key, known_total}
use pulsys.Coreserver.Warm.Answers.{IsStored, WarmAnswer, try_serve_warm_iff, served-IsCovered}

abbrev spans : List Span
spans = record { start = pos 0; stop = pos 20 } ∷ []

abbrev stored : Meta
stored = record {
  version = pos 1;
  upstream_host = codes "hub";
  path = codes "/f";
  raw_query = [];
  spans = spans;
  total = some (pos 20);
  etag = codes "\"x\"";
  content_type = [];
  status_code = 200;
  location = [];
  extra_headers = [];
  alias_of = [];
  origin_path = [];
  origin_paths = [];
}

-- A digest, a store and a file that stand for those of a running server.
abbrev digest : Bytes → Bytes
digest s = take 8 s

abbrev lookup_stored : Bytes → Option Meta
lookup_stored key = some stored

abbrev every_body : Bytes → Bool
every_body key = true

abbrev ranged : Bytes → Request
ranged range = record empty_request {
  method = codes "GET";
  path = codes "/f";
  range = range;
  keep_alive = true;
}

abbrev head206 : Bytes
head206 =
    codes
      "HTTP/1.1 206 Partial Content\r\nETag: \"x\"\r\nContent-Range: bytes 5-9/20\r\nContent-Length: 5\r\nConnection: keep-alive\r\n\r\n"

abbrev answered : Served
answered = record { head = head206; offset = pos 5; count = pos 5 }

answer_5_9 :
    try_serve_warm digest lookup_stored every_body (codes "hub") true (ranged (codes "bytes=5-9"))
    ≡ some answered
unfolding try_serve_warm
answer_5_9 = refl

lookup_stored_lem : (key : Bytes) (meta : Meta) → lookup_stored key ≡ some meta → IsStored meta
unfolding known_total
lookup_stored_lem key meta e =
    let same : stored ≡ meta = cc in
    rw⁻¹ same (record { valid = (omega arith, tt); total_fits = omega arith })

try_serve_warm_iff_example :
    (try_serve_warm digest lookup_stored every_body (codes "hub") true (ranged (codes "bytes=5-9"))
      ≡ some answered)
    ↔ WarmAnswer digest lookup_stored every_body
        (codes "hub")
        true
        (ranged (codes "bytes=5-9"))
        answered
try_serve_warm_iff_example =
    try_serve_warm_iff digest lookup_stored every_body (codes "hub") true lookup_stored_lem
      (ranged (codes "bytes=5-9")) answered

served-IsCovered_example :
    (meta : Meta) × (lookup_stored
        (warm_key digest lookup_stored every_body (codes "hub") true (ranged (codes "bytes=5-9")))
      ≡ some meta)
    × ((x : ℤ) → pos 5 ≤ℤ x → x <ℤ pos 5 +ℤ pos 5 → HoldsAny x meta.spans)
served-IsCovered_example =
    served-IsCovered digest lookup_stored every_body (codes "hub") true lookup_stored_lem
      (ranged (codes "bytes=5-9")) answered answer_5_9

-- A range that ends before it starts is answered too, with a length of -6.
abbrev count_of : Option Served → ℤ
count_of none = pos 0
count_of (some served) = served.count

inverted_answered :
    count_of (
      try_serve_warm digest lookup_stored every_body
        (codes "hub")
        true
        (ranged (codes "bytes=10-3")))
    ≡ negsuc 5
unfolding try_serve_warm
inverted_answered = refl

parse_decimal_int64-write_uint_example : parse_decimal_int64 (write_uint [] 1234) ≡ some 1234
parse_decimal_int64-write_uint_example = parse_decimal_int64-write_uint 1234 (omega arith)

header_buf-take_example :
    (write_warm_head200_buf [] (pos 5) stored true
      ≡ take 512 (write_warm_head200 [] (pos 5) stored true))
    × (write_warm_head206_buf [] (pos 5) (pos 10) (pos 20) (pos 5) stored true
        ≡ take 512 (write_warm_head206 [] (pos 5) (pos 10) (pos 20) (pos 5) stored true))
header_buf-take_example = header_buf-take (pos 5) (pos 10) (pos 20) (pos 5) stored true

-- A server whose gate wants the credentials "ok" and whose cache has every object.
abbrev open_gate : Bytes → Bytes → ℕ × Bytes
open_gate auth path = if bytes_eq auth (codes "ok") then (0, []) else (401, codes "no")

abbrev every_object : Request → Option Served
every_object req = some answered

abbrev server : Server
server = record {
  auth_gate = some open_gate;
  require_auth = true;
  try_warm = every_object;
  fallback = none;
}

server-ReadsForward : ReadsForward server
server-ReadsForward handle e req left out left' run = absurd (cc)

abbrev two_requests : Bytes
two_requests =
    codes
      "GET /f HTTP/1.1\r\nHost: h\r\nAuthorization: ok\r\n\r\nGET /g HTTP/1.1\r\nHost: h\r\n\r\nGET"

serve_conn-IsGoodRun_example : IsGoodRun server (serve_conn 100 server two_requests)
serve_conn-IsGoodRun_example =
    serve_conn-IsGoodRun server server-ReadsForward 100 two_requests (omega arith)

-- The body of a request that the cache answers is left on the connection: its bytes are read as the
-- next request.
abbrev with_body : Bytes
with_body =
    codes
      "GET /f HTTP/1.1\r\nHost: h\r\nAuthorization: ok\r\nContent-Length: 38\r\n\r\nGET /x HTTP/1.1\r\nHost: h\r\nAuthorization: ok\r\n\r\n"

abbrev paths : List Event → List Bytes
paths [] = []
paths (warm req _ ∷ events) = req.path ∷ paths events
paths (_ ∷ events) = paths events

abbrev answered_paths : Option (List Event) → List Bytes
answered_paths none = []
answered_paths (some events) = paths events

body_answered : answered_paths (serve_conn 100 server with_body) ≡ codes "/f" ∷ codes "/x" ∷ []
unfolding serve_conn
body_answered = refl
