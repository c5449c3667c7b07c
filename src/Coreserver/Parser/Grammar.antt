-- ===== src/Coreserver/Parser/Grammar.antt =====
-- What `readRequest` accepts, as a grammar of the bytes on the connection.
use mathlib.Core.Path.{fun_ext, subst}
use pulsys.Common.{
  false, ◌&&◌, List, [], ◌∷◌, ◌++◌, ◌≡◌, ◌≢◌, ◌⊎◌, refl, ap, ◌∙◌, inl, inr, arith, ◌==◌, Bool-cases,
  All, Bytes,
}
use pulsys.Coreserver.Parser.Clean.{
  NoLf, parse_header_round, NoLf-IsFieldLine, NoLf-RequestLine, RequestLine-ne-nil,
}
use pulsys.Coreserver.Parser.Lines.{crlf_lines_push, crlf_lines_cut, join_crlf, crlf_lines_join}
use pulsys.Coreserver.Parser.{
  push_byte, lf_lines, crlf_lines, Progress, parse_header, parse_headers, check_framing,
  start_headers, parse_lines, parse_block,
}
use pulsys.Coreserver.Request.Line.{parse_request_line_sound}
use pulsys.Coreserver.Request.{
  Result, ok, ◌>>=◌, >>=-eq-ok, Request, empty_request, parse_request_line,
}

abbrev pub crlf : Bytes
crlf = b'\r' ∷ b'\n' ∷ []

-- A line with something on it, and no line feed.
abbrev pub IsPlain : Bytes → Type 0
IsPlain line = NoLf line × (line ≢ [])

-- The header loop on the lines of a header block.
unfoldable pub parse_fields : List Bytes → Progress → Result Progress
parse_fields [] p = ok p
parse_fields (line ∷ lines) p = parse_header line p >>= parse_fields lines

-- The whole parser on a request line and header lines.
unfoldable pub parse_head : Bytes → List Bytes → Bytes → Result Request
parse_head line lines raw = do
  req ← parse_request_line line (record empty_request { raw = raw })
  p ← parse_fields lines (start_headers req)
  check_framing p

pub lf_lines_line :
    (h s : Bytes)
    → NoLf h
    → lf_lines (h ++ b'\r' ∷ b'\n' ∷ s) ≡ ((h ++ crlf) ∷ (lf_lines s).0, (lf_lines s).1)
unfolding lf_lines push_byte
lf_lines_line [] s plain = refl
lf_lines_line (c ∷ h) s plain = elim (Bool-cases (c == b'\n')) [
  | inl e ↦ absurd (plain.0 (ground arith))
  | inr e ↦ rw (lf_lines_line h s plain.1, e)
]

pub crlf_lines_line :
    (h s : Bytes)
    → NoLf h
    → crlf_lines (h ++ b'\r' ∷ b'\n' ∷ s) ≡ (h ∷ (crlf_lines s).0, (crlf_lines s).1)
unfolding push_byte
crlf_lines_line [] s plain = crlf_lines_cut s
crlf_lines_line (c ∷ []) s plain =
    rw (crlf_lines_push c b'\r' (b'\n' ∷ s) (ground arith), crlf_lines_cut s) refl
crlf_lines_line (c ∷ d ∷ h) s plain =
    let test : (c == b'\r' && d == b'\n') ≡ false = ground (arith, plain.1.0) in
    rw (crlf_lines_push c d (h ++ b'\r' ∷ b'\n' ∷ s) test, crlf_lines_line (d ∷ h) s plain.1) refl

-- What an accepted run of the header loop has read.
record HeadersRead (lines : List Bytes) (rest : Bytes) (p q : Progress) : Type 0 where
  fields : List Bytes
  behind : Bytes
  joined : join_crlf lines rest ≡ join_crlf fields behind
  plain : All IsPlain fields
  parsed : parse_fields fields p ≡ ok q
  ended : (behind ≡ []) ⊎ ((left : Bytes) × (behind ≡ b'\r' ∷ b'\n' ∷ left))

parse_headers_sound :
    (lines : List Bytes) (rest : Bytes) (p q : Progress)
    → parse_headers lines rest p ≡ ok q
    → HeadersRead lines rest p q
unfolding parse_headers parse_fields
parse_headers_sound [] [] p q h = record {
  fields = [];
  behind = [];
  joined = refl;
  plain = tt;
  parsed = h;
  ended = inl refl;
}
parse_headers_sound [] (c ∷ rest) p q h = cc
parse_headers_sound ([] ∷ lines) rest p q h = record {
  fields = [];
  behind = b'\r' ∷ b'\n' ∷ join_crlf lines rest;
  joined = refl;
  plain = tt;
  parsed = h;
  ended = inr (join_crlf lines rest, refl);
}
parse_headers_sound ((c ∷ s) ∷ lines) rest p q h =
    let (p', here, later) = >>=-eq-ok (parse_header (c ∷ s) p) (parse_headers lines rest) h in
    let r = parse_headers_sound lines rest p' q later in
    let field = parse_header_round c s p p' here in
    record {
      fields = (c ∷ s) ∷ r.fields;
      behind = r.behind;
      joined = ap (λ t. c ∷ (s ++ b'\r' ∷ b'\n' ∷ t)) r.joined;
      plain = ((NoLf-IsFieldLine (c ∷ s) field.0, λ e. cc), r.plain);
      parsed = ap (λ m. m >>= parse_fields r.fields) here ∙ r.parsed;
      ended = r.ended;
    }

parse_headers_complete :
    (fields : List Bytes) (behind : Bytes) (p : Progress)
    → All IsPlain fields
    → (behind ≡ []) ⊎ ((left : Bytes) × (behind ≡ b'\r' ∷ b'\n' ∷ left))
    → parse_headers
        (crlf_lines (join_crlf fields behind)).0
        (crlf_lines (join_crlf fields behind)).1
        p
      ≡ parse_fields fields p
unfolding parse_headers parse_fields
parse_headers_complete [] behind p plain (inl e) = rw e (unfold crlf_lines in refl)
parse_headers_complete [] behind p plain (inr (left, e)) = rw (e, crlf_lines_cut left) refl
parse_headers_complete ([] ∷ fields) behind p plain ended = absurd (plain.0.1 refl)
parse_headers_complete ((c ∷ s) ∷ fields) behind p plain ended =
    let cut = crlf_lines_line (c ∷ s) (join_crlf fields behind) plain.0.0 in
    rw cut (
      ap (λ f. parse_header (c ∷ s) p >>= f)
        (fun_ext (λ q. parse_headers_complete fields behind q plain.1 ended)))

-- What an accepted block is made of.
pub record BlockRead (block raw : Bytes) (req : Request) : Type 0 where
  pub line : Bytes
  pub fields : List Bytes
  pub behind : Bytes
  pub joined : block ≡ join_crlf (line ∷ fields) behind
  pub plain : All IsPlain (line ∷ fields)
  pub parsed : parse_head line fields raw ≡ ok req
  pub ended : (behind ≡ []) ⊎ ((left : Bytes) × (behind ≡ b'\r' ∷ b'\n' ∷ left))

parse_lines_sound :
    (lines : List Bytes) (rest raw : Bytes) (req : Request)
    → parse_lines lines rest (record empty_request { raw = raw }) ≡ ok req
    → BlockRead (join_crlf lines rest) raw req
unfolding parse_lines parse_head
parse_lines_sound [] rest raw req h = cc
parse_lines_sound (line ∷ lines) rest raw req h =
    let start = record empty_request { raw = raw } in
    let (first, request_line, more) = >>=-eq-ok (parse_request_line line start) _ h in
    let (q, headers, checked) =
      >>=-eq-ok (parse_headers lines rest (start_headers first)) check_framing more in
    let r = parse_headers_sound lines rest (start_headers first) q headers in
    let parts = parse_request_line_sound line start first request_line in
    record {
      line = line;
      fields = r.fields;
      behind = r.behind;
      joined = ap (λ t. line ++ b'\r' ∷ b'\n' ∷ t) r.joined;
      plain = ((NoLf-RequestLine line parts.0, RequestLine-ne-nil line parts.0), r.plain);
      parsed =
          ap (λ m. m >>= λ f. parse_fields r.fields (start_headers f) >>= check_framing)
            request_line
          ∙ ap (λ m. m >>= check_framing) r.parsed
          ∙ checked;
      ended = r.ended;
    }

pub parse_block_sound :
    (block raw : Bytes) (req : Request) → parse_block block raw ≡ ok req → BlockRead block raw req
unfolding parse_block
parse_block_sound block raw req h =
    subst (λ b. BlockRead b raw req) (crlf_lines_join block)
      (parse_lines_sound (crlf_lines block).0 (crlf_lines block).1 raw req h)

pub parse_block_complete :
    (line : Bytes) (fields : List Bytes) (behind raw : Bytes)
    → All IsPlain (line ∷ fields)
    → (behind ≡ []) ⊎ ((left : Bytes) × (behind ≡ b'\r' ∷ b'\n' ∷ left))
    → parse_block (join_crlf (line ∷ fields) behind) raw ≡ parse_head line fields raw
unfolding parse_block parse_lines parse_head
parse_block_complete line fields behind raw plain ended =
    let start = record empty_request { raw = raw } in
    rw (crlf_lines_line line (join_crlf fields behind) plain.0.0) (
      ap (λ f. parse_request_line line start >>= f)
        (fun_ext λ req.
          ap (λ m. m >>= check_framing)
            (parse_headers_complete fields behind (start_headers req) plain.1 ended)))
