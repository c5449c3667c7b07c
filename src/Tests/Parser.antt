-- ===== src/Tests/Parser.antt =====
-- Tests of the request parser.
use pulsys.Common.{◌+◌, ◌≡◌, ◌≢◌, ◌↔◌, refl, Bytes, codes, true, some, [], arith, length}
use pulsys.Coreserver.Chars.Decimal.{parse_decimal_int64}
use pulsys.Coreserver.Chars.Decimal.Exact.{parse_decimal_int64_wraps}
use pulsys.Coreserver.Parser.{read_request, parse_request_from_buf, consumed}
use pulsys.Coreserver.Parser.Accepts.{RequestRead, read_request_iff}
use pulsys.Coreserver.Parser.Framing.{HasUniqueFraming, read_request-HasUniqueFraming}
use pulsys.Coreserver.Parser.Lockstep.{lockstep}
use pulsys.Coreserver.Request.{
  Request, ok, err, bad_request, empty_request, set_request_line, parse_request_line,
}
use pulsys.Coreserver.Request.Line.{RequestLine, parse_request_line_iff}

abbrev get_text : Bytes
get_text = codes "GET /a/resolve/main/f?x=1 HTTP/1.1\r\nHost: hub\r\nRange: bytes=0-9 \r\n\r\nrest"

abbrev get_request : Request
get_request = record {
  method = codes "GET";
  request_uri = codes "/a/resolve/main/f?x=1";
  path = codes "/a/resolve/main/f";
  query = codes "x=1";
  host = codes "hub";
  auth = [];
  range = codes "bytes=0-9";
  raw = codes "GET /a/resolve/main/f?x=1 HTTP/1.1\r\nHost: hub\r\nRange: bytes=0-9 \r\n\r\n";
  content_len = 0;
  keep_alive = true;
  http11 = true;
}

read_get : read_request get_text ≡ ok (get_request, codes "rest")
unfolding read_request
read_get = refl

buf_get : parse_request_from_buf get_text ≡ consumed get_request 68
unfolding parse_request_from_buf
buf_get = refl

decimal_wraps : parse_decimal_int64 (codes "18446744073709551621") ≡ some 5
unfolding parse_decimal_int64
decimal_wraps = refl

bare_lf : read_request (codes "GET / HTTP/1.1\r\nHost: h\r\n\n") ≡ err bad_request
unfolding read_request
bare_lf = refl

abbrev get_line : Bytes
get_line = codes "GET /f HTTP/1.0"

abbrev line_request : Request
line_request = set_request_line (codes "GET") (codes "/f") (codes "HTTP/1.0") empty_request

read_request_iff_example :
    (read_request get_text ≡ ok (get_request, codes "rest"))
    ↔ RequestRead get_text get_request (codes "rest")
read_request_iff_example = read_request_iff get_text get_request (codes "rest")

read_request-HasUniqueFraming_example :
    (r : RequestRead get_text get_request (codes "rest")) × HasUniqueFraming r.fields get_request
read_request-HasUniqueFraming_example =
    read_request-HasUniqueFraming get_text get_request (codes "rest") read_get

lockstep_example : (parse_request_from_buf get_text ≡ consumed get_request 68) ↔ (
    (left : Bytes) × (read_request get_text ≡ ok (get_request, left))
    × (length get_text ≡ 68 + length left))
lockstep_example = lockstep get_text get_request 68 (omega arith)

parse_request_line_iff_example : (parse_request_line get_line empty_request ≡ ok line_request) ↔ (
    (r : RequestLine get_line) × (line_request
      ≡ set_request_line r.method r.target r.proto empty_request))
parse_request_line_iff_example = parse_request_line_iff get_line empty_request line_request

some_digits : codes "1844674407370955162" ≢ []
some_digits e = cc

parse_decimal_int64_wraps_example : parse_decimal_int64 (codes "18446744073709551621") ≡ some 5
parse_decimal_int64_wraps_example =
    parse_decimal_int64_wraps (codes "1844674407370955162") b'1' some_digits refl refl (omega arith)
      (omega arith) (omega arith)
