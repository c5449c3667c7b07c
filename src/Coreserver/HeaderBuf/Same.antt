-- ===== src/Coreserver/HeaderBuf/Same.antt =====
-- The scratch buffer against the `bufio.Writer`: the same head, cut off at 512 bytes.
use pulsys.Common.{
  ℕ, zero, suc, ◌-◌, ◌/◌, Bool, true, false, List, [], ◌∷◌, ◌++◌, leb, ltb, ◌≡◌, refl, sym, ap,
  arith, inl, inr, Bool-cases, Bytes, codes, length, take, ℤ, pos, negsuc, ◌-ℤ◌, wrap64, append-nil,
}
use pulsys.Cache.Meta.{Meta}
use pulsys.Coreserver.Heads.{
  write_digits, write_uint, write_int, write_known, write_content_meta, write_content_length,
  write_connection, write_warm_head200, write_total, write_warm_head206,
}
use pulsys.Coreserver.HeaderBuf.{
  write_string, write_byte, write_digits_buf, write_uint_buf, write_int_buf, write_known_buf,
  write_content_meta_buf, write_content_length_buf, write_connection_buf, write_warm_head200_buf,
  write_total_buf, write_warm_head206_buf,
}

take-nil {ℓ} : {A : Type ℓ} (n : ℕ) → take {A = A} n [] ≡ []
take-nil zero = refl
take-nil (suc n) = refl

-- Filling up what a cut list leaves of the room cuts the whole.
take-append {ℓ} :
    {A : Type ℓ} (n : ℕ) (xs ys : List A)
    → take n xs ++ take (n - length (take n xs)) ys ≡ take n (xs ++ ys)
take-append zero xs ys = refl
take-append (suc n) [] ys = let all : suc n - 0 ≡ suc n = omega arith in rw all refl
take-append (suc n) (x ∷ xs) ys =
    let rest : suc n - suc (length (take n xs)) ≡ n - length (take n xs) = omega arith in
    rw rest (ap (◌∷◌ x) (take-append n xs ys))

-- The buffer holds what was written, cut off.
record IsCut (b w : Bytes) : Type 0 where
  same : b ≡ take 512 w

write_string-IsCut : {b w : Bytes} (s : Bytes) → IsCut b w → IsCut (write_string b s) (w ++ s)
unfolding write_string
write_string-IsCut {w = w} s h = record { same = rw h.same (take-append 512 w s) }

write_byte_lem : (b : Bytes) (c : ℕ) → write_byte b c ≡ write_string b (c ∷ [])
unfolding write_byte write_string
write_byte_lem b c = elim (Bool-cases (ltb (length b) 512)) [
  | inl e ↦
      let room : 512 - length b ≡ suc (511 - length b) = ground arith in
      rw (e, room) (ap (λ t. b ++ c ∷ t) (sym (take-nil (511 - length b))))
  | inr e ↦ let full : 512 - length b ≡ 0 = ground arith in rw (e, full) (sym (append-nil b))
]

write_byte-IsCut : {b w : Bytes} (c : ℕ) → IsCut b w → IsCut (write_byte b c) (w ++ c ∷ [])
write_byte-IsCut {b = b} c h = rw (write_byte_lem b c) (write_string-IsCut (c ∷ []) h)

write_digits_buf-IsCut :
    (fuel : ℕ) {b w : Bytes} (v : ℕ)
    → IsCut b w
    → IsCut (write_digits_buf fuel b v) (write_digits fuel w v)
unfolding write_digits_buf write_digits
write_digits_buf-IsCut zero v h = h
write_digits_buf-IsCut (suc fuel) v h = elim (Bool-cases (leb 10 v)) [
  | inl e ↦ rw e (write_byte-IsCut _ (write_digits_buf-IsCut fuel (v / 10) h))
  | inr e ↦ rw e (write_byte-IsCut _ h)
]

write_int_buf-IsCut : {b w : Bytes} (v : ℤ) → IsCut b w → IsCut (write_int_buf b v) (write_int w v)
unfolding write_int_buf write_uint_buf write_int write_uint
write_int_buf-IsCut (pos n) h = write_digits_buf-IsCut 20 n h
write_int_buf-IsCut (negsuc n) h = write_digits_buf-IsCut 20 (suc n) (write_byte-IsCut b'-' h)

write_known_buf-IsCut :
    {b w : Bytes} (name value : Bytes)
    → IsCut b w
    → IsCut (write_known_buf b name value) (write_known w name value)
unfolding write_known_buf write_known
write_known_buf-IsCut name [] h = h
write_known_buf-IsCut name (c ∷ s) h =
    write_string-IsCut (codes "\r\n") (write_string-IsCut (c ∷ s) (write_string-IsCut name h))

write_content_meta_buf-IsCut :
    {b w : Bytes} (meta : Meta)
    → IsCut b w
    → IsCut (write_content_meta_buf b meta) (write_content_meta w meta)
unfolding write_content_meta_buf write_content_meta
write_content_meta_buf-IsCut meta h =
    write_known_buf-IsCut (codes "ETag: ") meta.etag
      (write_known_buf-IsCut (codes "Content-Type: ") meta.content_type h)

write_content_length_buf-IsCut :
    {b w : Bytes} (n : ℤ)
    → IsCut b w
    → IsCut (write_content_length_buf b n) (write_content_length w n)
unfolding write_content_length_buf write_content_length
write_content_length_buf-IsCut n h =
    write_string-IsCut (codes "\r\n")
      (write_int_buf-IsCut n (write_string-IsCut (codes "Content-Length: ") h))

write_connection_buf-IsCut :
    {b w : Bytes} (keep_alive : Bool)
    → IsCut b w
    → IsCut (write_connection_buf b keep_alive) (write_connection w keep_alive)
unfolding write_connection_buf write_connection
write_connection_buf-IsCut true h = write_string-IsCut (codes "Connection: keep-alive\r\n") h
write_connection_buf-IsCut false h = write_string-IsCut (codes "Connection: close\r\n") h

write_total_buf-IsCut :
    {b w : Bytes} (total : ℤ) → IsCut b w → IsCut (write_total_buf b total) (write_total w total)
unfolding write_total_buf write_total
write_total_buf-IsCut (pos n) h = write_int_buf-IsCut (pos n) h
write_total_buf-IsCut (negsuc n) h = write_byte-IsCut b'*' h

-- What both heads end with.
end-IsCut :
    {b w : Bytes} (n : ℤ) (keep_alive : Bool)
    → IsCut b w
    → IsCut
        (write_string
          (write_connection_buf (write_content_length_buf b n) keep_alive)
          (codes "\r\n"))
        (write_connection (write_content_length w n) keep_alive ++ codes "\r\n")
end-IsCut n keep_alive h =
    write_string-IsCut (codes "\r\n")
      (write_connection_buf-IsCut keep_alive (write_content_length_buf-IsCut n h))

start-IsCut : IsCut [] []
start-IsCut = record { same = refl }

-- The heads that the scratch buffer holds are the ones written to a `bufio.Writer`, cut off at 512
-- bytes: for a whole object, and for a part of one.
pub header_buf-take :
    (start stop total n : ℤ) (meta : Meta) (keep_alive : Bool)
    → (write_warm_head200_buf [] n meta keep_alive
        ≡ take 512 (write_warm_head200 [] n meta keep_alive))
      × (write_warm_head206_buf [] start stop total n meta keep_alive
          ≡ take 512 (write_warm_head206 [] start stop total n meta keep_alive))
unfolding write_warm_head200_buf write_warm_head200 write_warm_head206_buf write_warm_head206
header_buf-take start stop total n meta keep_alive =
    let line200 = write_string-IsCut (codes "HTTP/1.1 200 OK\r\n") start-IsCut in
    let line = write_string-IsCut (codes "HTTP/1.1 206 Partial Content\r\n") start-IsCut in
    let described = write_content_meta_buf-IsCut meta line in
    let named = write_string-IsCut (codes "Content-Range: bytes ") described in
    let first = write_byte-IsCut b'-' (write_int_buf-IsCut start named) in
    let last = write_byte-IsCut b'/' (write_int_buf-IsCut (wrap64 (stop -ℤ pos 1)) first) in
    let ranged = write_string-IsCut (codes "\r\n") (write_total_buf-IsCut total last) in
    (
      (end-IsCut n keep_alive (write_content_meta_buf-IsCut meta line200)).same,
      (end-IsCut n keep_alive ranged).same,
    )
