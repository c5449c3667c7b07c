-- ===== src/Coreserver/Warm/Status.antt =====
-- The head of a warm answer, and the line that it begins with.
use pulsys.Common.{
  zero, suc, ◌/◌, leb, Bool-cases, inl, inr, append_assoc, append-nil, ℕ, ◌<◌, Bool, true, false,
  [], ◌∷◌, ◌++◌, Bytes, codes, ℤ, pos, negsuc, ◌-ℤ◌, two63, wrap64, wrap64_sub, ◌≡◌, refl, sym, ap,
  ◌∙◌, take,
}
use pulsys.Cache.Meta.{Meta}
use pulsys.Classify.Fold.{Begins}
use pulsys.Coreserver.HeaderBuf.Same.{header_buf-take}
use pulsys.Coreserver.Heads.{
  write_digits, write_uint, write_int, write_known, write_content_meta, write_content_length,
  write_connection, write_total, write_warm_head200, write_warm_head206,
}
use pulsys.Coreserver.Warm.{known_total, warm_head}

-- The head as it is written to a bufio.Writer.
pub whole_head : Bytes → ℕ → ℕ → Meta → Bool → Bytes
whole_head [] start stop meta keep_alive =
    write_warm_head200 [] (pos stop -ℤ pos start) meta keep_alive
whole_head (c ∷ s) start stop meta keep_alive =
    write_warm_head206 [] (pos start) (pos stop) (known_total meta.total) (pos stop -ℤ pos start)
      meta keep_alive

-- On a raw socket it is cut off at 512 bytes.
pub sent_head : Bool → Bytes → Bytes
sent_head true head = take 512 head
sent_head false head = head

abbrev pub status_line : Bytes → Bytes
status_line [] = codes "HTTP/1.1 200 OK\r\n"
status_line (c ∷ s) = codes "HTTP/1.1 206 Partial Content\r\n"

pub warm_head_lem :
    (fused : Bool) (range : Bytes) (start stop : ℕ) (meta : Meta) (keep_alive : Bool)
    → start < two63
    → stop < two63
    → warm_head fused range (pos start) (pos stop) (known_total meta.total) meta keep_alive
      ≡ sent_head fused (whole_head range start stop meta keep_alive)
unfolding warm_head sent_head whole_head
warm_head_lem true [] start stop meta keep_alive lo hi =
    let cut =
      header_buf-take (pos start) (pos stop) (known_total meta.total) (pos stop -ℤ pos start) meta
        keep_alive in
    rw (wrap64_sub stop start hi lo) cut.0
warm_head_lem true (c ∷ s) start stop meta keep_alive lo hi =
    let cut =
      header_buf-take (pos start) (pos stop) (known_total meta.total) (pos stop -ℤ pos start) meta
        keep_alive in
    rw (wrap64_sub stop start hi lo) cut.1
warm_head_lem false [] start stop meta keep_alive lo hi = rw (wrap64_sub stop start hi lo) refl
warm_head_lem false (c ∷ s) start stop meta keep_alive lo hi = rw (wrap64_sub stop start hi lo) refl

-- What is written stays at the front.
module _ (text : Bytes) where
  Begins-append : (out more : Bytes) → Begins text out → Begins text (out ++ more)
  Begins-append out more b = record {
    rest = b.rest ++ more;
    whole = ap (λ o. o ++ more) b.whole ∙ append_assoc text b.rest more;
  }

  Begins-write_digits :
      (fuel : ℕ) (out : Bytes) (v : ℕ) → Begins text out → Begins text (write_digits fuel out v)
  unfolding write_digits
  Begins-write_digits zero out v b = b
  Begins-write_digits (suc fuel) out v b = elim (Bool-cases (leb 10 v)) [
    | inl e ↦
        rw (e, write_digits)
          (Begins-append (write_digits fuel out (v / 10)) _
            (Begins-write_digits fuel out (v / 10) b))
    | inr e ↦ rw (e, write_digits) (Begins-append out _ b)
  ]

  Begins-write_int : (out : Bytes) (v : ℤ) → Begins text out → Begins text (write_int out v)
  unfolding write_int write_uint
  Begins-write_int out (pos n) b = Begins-write_digits 20 out n b
  Begins-write_int out (negsuc n) b = Begins-write_digits 20 _ (suc n) (Begins-append out _ b)

  Begins-write_known :
      (out name value : Bytes) → Begins text out → Begins text (write_known out name value)
  unfolding write_known
  Begins-write_known out name [] b = b
  Begins-write_known out name (c ∷ s) b =
      Begins-append _ _ (Begins-append _ _ (Begins-append out name b))

  Begins-write_content_meta :
      (out : Bytes) (meta : Meta) → Begins text out → Begins text (write_content_meta out meta)
  unfolding write_content_meta
  Begins-write_content_meta out meta b =
      Begins-write_known _ (codes "ETag: ") meta.etag
        (Begins-write_known out (codes "Content-Type: ") meta.content_type b)

  Begins-write_total : (out : Bytes) (v : ℤ) → Begins text out → Begins text (write_total out v)
  unfolding write_total
  Begins-write_total out (pos n) b = Begins-write_int out (pos n) b
  Begins-write_total out (negsuc n) b = Begins-append out _ b

  -- The end of either head.
  Begins-end :
      (out : Bytes) (n : ℤ) (keep_alive : Bool)
      → Begins text out
      → Begins text (write_connection (write_content_length out n) keep_alive ++ codes "\r\n")
  unfolding write_connection write_content_length
  Begins-end out n true b =
      Begins-append _ _
        (Begins-append _ _ (Begins-append _ _ (Begins-write_int _ n (Begins-append out _ b))))
  Begins-end out n false b =
      Begins-append _ _
        (Begins-append _ _ (Begins-append _ _ (Begins-write_int _ n (Begins-append out _ b))))

pub Begins-whole_head :
    (range : Bytes) (start stop : ℕ) (meta : Meta) (keep_alive : Bool)
    → Begins (status_line range) (whole_head range start stop meta keep_alive)
unfolding whole_head write_warm_head200 write_warm_head206
Begins-whole_head [] start stop meta keep_alive =
    let line = codes "HTTP/1.1 200 OK\r\n" in
    Begins-end line _ (pos stop -ℤ pos start) keep_alive (
      Begins-write_content_meta line line meta
        (record { rest = []; whole = sym (append-nil line) }))
Begins-whole_head (c ∷ s) start stop meta keep_alive =
    let line = codes "HTTP/1.1 206 Partial Content\r\n" in
    let described =
      Begins-write_content_meta line line meta
        (record { rest = []; whole = sym (append-nil line) }) in
    let first =
      Begins-write_int line _ (pos start)
        (Begins-append line _ (codes "Content-Range: bytes ") described) in
    let last =
      Begins-write_int line _ (wrap64 (pos stop -ℤ pos 1))
        (Begins-append line _ (codes "-") first) in
    let total =
      Begins-write_total line _ (known_total meta.total) (Begins-append line _ (codes "/") last) in
    Begins-end line _ (pos stop -ℤ pos start) keep_alive (Begins-append line _ (codes "\r\n") total)

-- A status line is shorter than the buffer.
pub Begins-sent_head :
    (fused : Bool) (range head : Bytes)
    → Begins (status_line range) head
    → Begins (status_line range) (sent_head fused head)
unfolding sent_head
Begins-sent_head false range head b = b
Begins-sent_head true [] head b = record { rest = take 495 b.rest; whole = ap (take 512) b.whole }
Begins-sent_head true (c ∷ s) head b = record {
  rest = take 482 b.rest;
  whole = ap (take 512) b.whole;
}
