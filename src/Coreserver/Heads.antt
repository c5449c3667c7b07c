-- ===== src/Coreserver/Heads.antt =====
-- internal/coreserver/server.go: what the server writes in front of a body, and its own short
-- responses. A `bufio.Writer` is the bytes written to it.
pub mod Digits
use pulsys.Common.{
  ℕ, zero, suc, ◌+◌, ◌/◌, ◌%◌, Bool, true, false, [], ◌∷◌, ◌++◌, Option, none, some, leb, ltb, ◌==◌,
  if◌then◌else◌, Bytes, codes, length, ℤ, pos, negsuc, ◌-ℤ◌, lebℤ, wrap64,
}
use pulsys.Cache.Meta.{Meta}
use pulsys.Coreserver.Request.{
  ParseError, bad_request, header_too_large, smuggling_suspect, io_error,
}

-- `writeUint`, with the depth of the recursion bounded.
unfoldable pub write_digits : ℕ → Bytes → ℕ → Bytes
write_digits zero out v = out
write_digits (suc fuel) out v =
    let before = write_digits fuel out (v / 10) in
    (if leb 10 v then before else out) ++ (b'0' + v % 10) ∷ []

-- A 64-bit number has at most 20 digits.
unfoldable pub write_uint : Bytes → ℕ → Bytes
unfolding write_digits
write_uint = write_digits 20

unfoldable pub write_int : Bytes → ℤ → Bytes
unfolding write_uint
write_int out (pos n) = write_uint out n
write_int out (negsuc n) = write_uint (out ++ codes "-") (suc n)

-- A header line, if its value is not empty.
unfoldable pub write_known : Bytes → Bytes → Bytes → Bytes
write_known out name [] = out
write_known out name (c ∷ s) = ((out ++ name) ++ c ∷ s) ++ codes "\r\n"

unfoldable pub write_content_meta : Bytes → Meta → Bytes
unfolding write_known
write_content_meta out meta =
    write_known (write_known out (codes "Content-Type: ") meta.content_type) (codes "ETag: ")
      meta.etag

unfoldable pub write_content_length : Bytes → ℤ → Bytes
unfolding write_int
write_content_length out n = write_int (out ++ codes "Content-Length: ") n ++ codes "\r\n"

unfoldable pub write_connection : Bytes → Bool → Bytes
write_connection out true = out ++ codes "Connection: keep-alive\r\n"
write_connection out false = out ++ codes "Connection: close\r\n"

unfoldable pub write_warm_head200 : Bytes → ℤ → Meta → Bool → Bytes
unfolding write_connection write_content_length write_content_meta
write_warm_head200 out n meta keep_alive =
    write_connection
      (write_content_length (write_content_meta (out ++ codes "HTTP/1.1 200 OK\r\n") meta) n)
      keep_alive
    ++ codes "\r\n"

-- The total of a `Content-Range` header; a negative one is not known.
unfoldable pub write_total : Bytes → ℤ → Bytes
unfolding write_int
write_total out (pos n) = write_int out (pos n)
write_total out (negsuc n) = out ++ codes "*"

unfoldable pub write_warm_head206 : Bytes → ℤ → ℤ → ℤ → ℤ → Meta → Bool → Bytes
unfolding write_connection write_content_length write_content_meta write_int write_total
write_warm_head206 out start stop total n meta keep_alive =
    let described = write_content_meta (out ++ codes "HTTP/1.1 206 Partial Content\r\n") meta in
    let first = write_int (described ++ codes "Content-Range: bytes ") start in
    let last = write_int (first ++ codes "-") (wrap64 (stop -ℤ pos 1)) in
    let ranged = write_total (last ++ codes "/") total ++ codes "\r\n" in
    write_connection (write_content_length ranged n) keep_alive ++ codes "\r\n"

unfoldable pub write_status : Bytes → ℕ → Bytes → Bytes
unfolding write_int
write_status out code reason =
    ((write_int (out ++ codes "HTTP/1.1 ") (pos code) ++ codes " ") ++ reason)
    ++ codes "\r\nContent-Length: 0\r\nConnection: close\r\n\r\n"

-- The bytes of the response; the counters of the errors are not modelled.
unfoldable pub write_parser_error_response : Bytes → ParseError → Bytes
unfolding write_status
write_parser_error_response out header_too_large =
    write_status out 431 (codes "Request Header Fields Too Large")
write_parser_error_response out smuggling_suspect = write_status out 400 (codes "Bad Request")
write_parser_error_response out bad_request = write_status out 400 (codes "Bad Request")
write_parser_error_response out io_error = out

unfoldable pub status_text : ℕ → Bytes
status_text code =
    if code == 400
    then codes "Bad Request"
    else if code == 401
    then codes "Unauthorized"
    else if code == 403
    then codes "Forbidden"
    else if code == 404
    then codes "Not Found"
    else if code == 500
    then codes "Internal Server Error"
    else if code == 503
    then codes "Service Unavailable"
    else []

unfoldable pub render_auth_reject_with_keep_alive : ℕ → Bytes → Bool → Bytes
unfolding write_int status_text
render_auth_reject_with_keep_alive status reason keep_alive =
    let line = write_int (codes "HTTP/1.1 ") (pos status) ++ codes " " ++ status_text status in
    let fixed =
      codes "\r\nWWW-Authenticate: Bearer error=\"invalid_token\"\r\n"
      ++ codes "Content-Type: text/plain; charset=utf-8\r\nContent-Length: " in
    let connection = if keep_alive then codes "keep-alive" else codes "close" in
    write_int (line ++ fixed) (pos (length reason))
    ++ codes "\r\nConnection: "
    ++ connection
    ++ codes "\r\n\r\n"
    ++ reason

unfoldable pub render_auth_reject : ℕ → Bytes → Bytes
unfolding render_auth_reject_with_keep_alive
render_auth_reject status reason = render_auth_reject_with_keep_alive status reason false

unfoldable pub write_auth_reject : Bytes → ℕ → Bytes → Bool → Bytes
unfolding render_auth_reject_with_keep_alive
write_auth_reject out status reason keep_alive =
    out ++ render_auth_reject_with_keep_alive status reason keep_alive
