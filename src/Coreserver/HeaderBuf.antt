-- ===== src/Coreserver/HeaderBuf.antt =====
-- internal/coreserver/header_buf.go: the scratch buffer of 512 bytes for the head of a warm
-- response, as the bytes in use.
pub mod Same
use pulsys.Common.{
  ℕ, zero, suc, ◌+◌, ◌-◌, ◌/◌, ◌%◌, Bool, true, false, [], ◌∷◌, ◌++◌, leb, ltb, if◌then◌else◌,
  Bytes, codes, length, take, ℤ, pos, negsuc, ◌-ℤ◌, wrap64,
}
use pulsys.Cache.Meta.{Meta}

abbrev pub header_buf_size : ℕ
header_buf_size = 512

-- `copy` takes as many bytes as there is room for.
unfoldable pub write_string : Bytes → Bytes → Bytes
write_string b s = b ++ take (header_buf_size - length b) s

unfoldable pub write_byte : Bytes → ℕ → Bytes
write_byte b c = if ltb (length b) header_buf_size then b ++ c ∷ [] else b

-- `headerBuf.writeUint`, with the depth of the recursion bounded.
unfoldable pub write_digits_buf : ℕ → Bytes → ℕ → Bytes
unfolding write_byte
write_digits_buf zero b v = b
write_digits_buf (suc fuel) b v =
    let before = write_digits_buf fuel b (v / 10) in
    write_byte (if leb 10 v then before else b) (b'0' + v % 10)

unfoldable pub write_uint_buf : Bytes → ℕ → Bytes
unfolding write_digits_buf
write_uint_buf = write_digits_buf 20

unfoldable pub write_int_buf : Bytes → ℤ → Bytes
unfolding write_uint_buf write_byte
write_int_buf b (pos n) = write_uint_buf b n
write_int_buf b (negsuc n) = write_uint_buf (write_byte b b'-') (suc n)

unfoldable pub write_known_buf : Bytes → Bytes → Bytes → Bytes
unfolding write_string
write_known_buf b name [] = b
write_known_buf b name (c ∷ s) =
    write_string (write_string (write_string b name) (c ∷ s)) (codes "\r\n")

unfoldable pub write_content_meta_buf : Bytes → Meta → Bytes
unfolding write_known_buf
write_content_meta_buf b meta =
    write_known_buf (write_known_buf b (codes "Content-Type: ") meta.content_type) (codes "ETag: ")
      meta.etag

unfoldable pub write_content_length_buf : Bytes → ℤ → Bytes
unfolding write_int_buf write_string
write_content_length_buf b n =
    write_string (write_int_buf (write_string b (codes "Content-Length: ")) n) (codes "\r\n")

unfoldable pub write_connection_buf : Bytes → Bool → Bytes
unfolding write_string
write_connection_buf b true = write_string b (codes "Connection: keep-alive\r\n")
write_connection_buf b false = write_string b (codes "Connection: close\r\n")

unfoldable pub write_warm_head200_buf : Bytes → ℤ → Meta → Bool → Bytes
unfolding write_connection_buf write_content_length_buf write_content_meta_buf write_string
write_warm_head200_buf b n meta keep_alive =
    let described = write_content_meta_buf (write_string b (codes "HTTP/1.1 200 OK\r\n")) meta in
    write_string (write_connection_buf (write_content_length_buf described n) keep_alive)
      (codes "\r\n")

unfoldable pub write_total_buf : Bytes → ℤ → Bytes
unfolding write_int_buf write_byte
write_total_buf b (pos n) = write_int_buf b (pos n)
write_total_buf b (negsuc n) = write_byte b b'*'

unfoldable pub write_warm_head206_buf : Bytes → ℤ → ℤ → ℤ → ℤ → Meta → Bool → Bytes
unfolding write_connection_buf write_content_length_buf write_content_meta_buf write_int_buf
    write_string write_byte write_total_buf
write_warm_head206_buf b start stop total n meta keep_alive =
    let line = write_string b (codes "HTTP/1.1 206 Partial Content\r\n") in
    let described = write_content_meta_buf line meta in
    let first = write_int_buf (write_string described (codes "Content-Range: bytes ")) start in
    let last = write_int_buf (write_byte first b'-') (wrap64 (stop -ℤ pos 1)) in
    let ranged = write_string (write_total_buf (write_byte last b'/') total) (codes "\r\n") in
    write_string (write_connection_buf (write_content_length_buf ranged n) keep_alive)
      (codes "\r\n")
