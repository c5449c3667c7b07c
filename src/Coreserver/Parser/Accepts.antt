-- ===== src/Coreserver/Parser/Accepts.antt =====
-- `readRequest` accepts exactly the requests of the grammar, and takes them off the connection whole.
use mathlib.Core.Path.{subst, subst₂}
use pulsys.Common.{
  ℕ, ◌+◌, ◌≤◌, false, List, [], ◌∷◌, ◌++◌, ◌≡◌, ◌≢◌, ◌⊎◌, refl, sym, ap, ◌∙◌, inl, inr, ◌↔◌, arith,
  ltb, All, Bytes, length, length-append, append_assoc,
}
use pulsys.Coreserver.Parser.Grammar.{
  crlf, IsPlain, parse_head, lf_lines_line, parse_block_sound, parse_block_complete,
}
use pulsys.Coreserver.Parser.Lines.{join_crlf, lf_lines_concat, read_block_round, read_block_splits}
use pulsys.Coreserver.Parser.{
  lf_lines, concat_lines, is_terminator, read_block, parse_block, read_request,
}
use pulsys.Coreserver.Request.{Result, ok, ◌>>=◌, >>=-eq-ok, Request}

pub join-append :
    (lines : List Bytes) (a b : Bytes) → join_crlf lines a ++ b ≡ join_crlf lines (a ++ b)
join-append [] a b = refl
join-append (line ∷ lines) a b =
    append_assoc line (b'\r' ∷ b'\n' ∷ join_crlf lines a) b
    ∙ ap (λ t. line ++ b'\r' ∷ b'\n' ∷ t) (join-append lines a b)

append_cancel : (h a b : Bytes) → h ++ a ≡ h ++ b → a ≡ b
append_cancel [] a b e = e
append_cancel (c ∷ h) a b e = append_cancel h a b (cc e)

join_cancel : (lines : List Bytes) (a b : Bytes) → join_crlf lines a ≡ join_crlf lines b → a ≡ b
join_cancel [] a b e = e
join_cancel (line ∷ lines) a b e =
    let tail = append_cancel line _ _ e in join_cancel lines a b (cc tail)

-- The first loop on what is to come, at `n` bytes.
abbrev pub read_head : ℕ → Bytes → Result (Bytes × List Bytes)
read_head n s = read_block n (lf_lines s).0 (lf_lines s).1

not-terminator : (h : Bytes) → IsPlain h → is_terminator (h ++ crlf) ≡ false
not-terminator [] plain = absurd (plain.1 refl)
not-terminator (c ∷ []) plain = ground (arith, plain.0.0)
not-terminator (c ∷ d ∷ h) plain = ground (arith, plain.0.0, plain.0.1.0)

-- The loop goes through plain lines.
read_head_skips :
    (lines : List Bytes) (n : ℕ) (s block : Bytes) (left : List Bytes)
    → All IsPlain lines
    → read_head n (join_crlf lines s) ≡ ok (block, left)
    → (m : ℕ) × (more : Bytes) × (read_head m s ≡ ok (more, left)) × (block ≡ join_crlf lines more)
read_head_skips [] n s block left plain h = (n, block, h, refl)
read_head_skips (line ∷ lines) n s block left plain h =
    let cut = lf_lines_line line (join_crlf lines s) plain.0.0 in
    let first = rw cut at h in
    let (fits, how) = read_block_round n (line ++ crlf) _ _ block left first in
    elim how [
      | inl (ends, _, _) ↦ cc (not-terminator line plain.0)
      | inr (_, more, run, whole) ↦
          let (m, more', run', whole') =
            read_head_skips lines (n + length (line ++ crlf)) s more left plain.1 run in
          (m, more', run', whole ∙ ap (λ t. (line ++ crlf) ++ t) whole' ∙ append_assoc line crlf _)
    ]

read_head_reads :
    (lines : List Bytes) (n : ℕ) (left : Bytes)
    → All IsPlain lines
    → n + length (join_crlf lines crlf) ≤ 16384
    → read_head n (join_crlf lines (b'\r' ∷ b'\n' ∷ left))
      ≡ ok (join_crlf lines crlf, (lf_lines left).0)
unfolding read_block
read_head_reads [] n left plain fits = rw (lf_lines_line [] left tt) (ground arith)
read_head_reads (line ∷ lines) n left plain fits =
    let total = length-append {0} line (crlf ++ join_crlf lines crlf) in
    let here = length-append {0} line crlf in
    let later =
      read_head_reads lines (n + length (line ++ crlf)) left plain.1 (omega (arith, total, here)) in
    let split = append_assoc line crlf (join_crlf lines crlf) in
    let ends = not-terminator line plain.0 in
    let fits_buffer : ltb 16384 (length (line ++ crlf)) ≡ false = ground (arith, total, here) in
    let fits_scratch : ltb 16384 (n + length (line ++ crlf)) ≡ false =
      ground (arith, total, here) in
    rw (lf_lines_line line (join_crlf lines (b'\r' ∷ b'\n' ∷ left)) plain.0.0)
      (rw (fits_buffer, fits_scratch, ends, later) (ap (λ t. ok (t, (lf_lines left).0)) split))

append-nil_right : (a b : Bytes) → a ++ b ≡ [] → b ≡ []
append-nil_right [] b e = e
append-nil_right (c ∷ a) b e = cc

read_block-ne-nil :
    (lines : List Bytes) (n : ℕ) (rest block : Bytes) (left : List Bytes)
    → read_block n lines rest ≡ ok (block, left)
    → block ≢ []
unfolding read_block
read_block-ne-nil [] n rest block left h e = cc
read_block-ne-nil (line ∷ lines) n rest block left h e =
    let (_, how) = read_block_round n line lines rest block left h in
    elim how [
      | inl (ends, whole, _) ↦ let nil : line ≡ [] = sym whole ∙ e in cc (rw nil at ends)
      | inr (_, more, run, whole) ↦
          read_block-ne-nil lines (n + length line) rest more left run
            (append-nil_right line more (sym whole ∙ e))
    ]

-- An accepted request, in the bytes of the connection.
pub record RequestRead (stream : Bytes) (req : Request) (left : Bytes) : Type 0 where
  pub line : Bytes
  pub fields : List Bytes
  pub plain : All IsPlain (line ∷ fields)
  pub joined : stream ≡ join_crlf (line ∷ fields) (b'\r' ∷ b'\n' ∷ left)
  pub fits : length (join_crlf (line ∷ fields) crlf) ≤ 16384
  pub parsed : parse_head line fields (join_crlf (line ∷ fields) crlf) ≡ ok req

-- Behind plain lines an accepted block has the empty line and nothing more.
block_end :
    (lines : List Bytes) (behind tail : Bytes) (left : List Bytes)
    → All IsPlain lines
    → (behind ≡ []) ⊎ ((t : Bytes) × (behind ≡ b'\r' ∷ b'\n' ∷ t))
    → read_head 0 (join_crlf lines (behind ++ tail)) ≡ ok (join_crlf lines behind, left)
    → behind ≡ crlf
block_end lines behind tail left plain ended h =
    let (m, more, run, whole) =
      read_head_skips lines 0 (behind ++ tail) (join_crlf lines behind) left plain h in
    let same = join_cancel lines behind more whole in
    elim ended [
      | inl nil ↦ absurd (
          read_block-ne-nil (lf_lines (behind ++ tail)).0 m (lf_lines (behind ++ tail)).1 more left
            run (sym same ∙ nil))
      | inr (t, e) ↦
          let next : read_head m (b'\r' ∷ b'\n' ∷ (t ++ tail)) ≡ ok (more, left) =
            subst (λ b. read_head m (b ++ tail) ≡ ok (more, left)) e run in
          let first = rw (lf_lines_line [] (t ++ tail) tt) at next in
          let (_, how) = read_block_round m crlf _ _ more left first in
          elim how [ inl (_, whole', _) ↦ same ∙ whole' | inr (goes_on, _, _, _) ↦ cc ]
    ]

read_request_sound :
    (stream : Bytes) (req : Request) (left : Bytes)
    → read_request stream ≡ ok (req, left)
    → RequestRead stream req left
unfolding read_request
read_request_sound stream req left h =
    let rest = (lf_lines stream).1 in
    let ((block, lines), run, parse) =
      >>=-eq-ok (read_block 0 (lf_lines stream).0 rest)
        (λ (block, left). parse_block block block >>= λ r. ok (r, concat_lines left rest)) h in
    let (r, parsed, same) =
      >>=-eq-ok (parse_block block block) (λ r. ok (r, concat_lines lines rest)) parse in
    let b = parse_block_sound block block r parsed in
    let head = b.line ∷ b.fields in
    let (splits, fits) = read_block_splits 0 (lf_lines stream).0 rest block lines run in
    let tail = concat_lines lines rest in
    let whole : stream ≡ join_crlf head (b.behind ++ tail) =
      sym (splits ∙ lf_lines_concat stream)
      ∙ ap (λ t. t ++ tail) b.joined
      ∙ join-append head b.behind tail in
    let run' : read_head 0 (join_crlf head (b.behind ++ tail))
        ≡ ok (join_crlf head b.behind, lines) =
      subst₂ (λ s t. read_head 0 s ≡ ok (t, lines)) whole b.joined run in
    let fits' : length block ≤ 16384 = omega arith in
    let ends = block_end head b.behind tail lines b.plain b.ended run' in
    let raw : block ≡ join_crlf head crlf = b.joined ∙ ap (join_crlf head) ends in
    let same_req : r ≡ req = ground arith in
    let same_left : tail ≡ left = ground arith in
    record {
      line = b.line;
      fields = b.fields;
      plain = b.plain;
      joined =
          whole
          ∙ ap (λ t. join_crlf head (t ++ tail)) ends
          ∙ ap (λ t. join_crlf head (b'\r' ∷ b'\n' ∷ t)) same_left;
      fits = subst (λ t. length t ≤ 16384) raw fits';
      parsed = subst (λ t. parse_head b.line b.fields t ≡ ok req) raw (b.parsed ∙ ap ok same_req);
    }

lf_rest :
    (lines : List Bytes) (left : Bytes)
    → All IsPlain lines
    → (lf_lines (join_crlf lines (b'\r' ∷ b'\n' ∷ left))).1 ≡ (lf_lines left).1
lf_rest [] left plain = rw (lf_lines_line [] left tt) refl
lf_rest (line ∷ lines) left plain =
    rw (lf_lines_line line (join_crlf lines (b'\r' ∷ b'\n' ∷ left)) plain.0.0)
      (lf_rest lines left plain.1)

read_request_complete :
    (stream : Bytes) (req : Request) (left : Bytes)
    → RequestRead stream req left
    → read_request stream ≡ ok (req, left)
unfolding read_request
read_request_complete stream req left r =
    let head = r.line ∷ r.fields in
    let run = read_head_reads head 0 left r.plain (omega (arith, r.fits)) in
    let raw = join_crlf head crlf in
    let parsed =
      parse_block_complete r.line r.fields crlf raw r.plain (inr ([], refl)) ∙ r.parsed in
    let rest = lf_rest head left r.plain in
    rw r.joined (rw run (rw parsed (rw rest (rw lf_lines_concat refl))))

-- `readRequest` accepts a request exactly when the bytes on the connection are a request line and
-- header lines, each ended by CRLF, an empty line, and what is left for the next request; no line
-- holds a line feed or is empty, the block has at most 16384 bytes, and the checks of the request
-- line, of each header and of the framing pass. The request is then what these checks set.
pub read_request_iff :
    (stream : Bytes) (req : Request) (left : Bytes)
    → (read_request stream ≡ ok (req, left)) ↔ RequestRead stream req left
read_request_iff stream req left =
    (read_request_sound stream req left, read_request_complete stream req left)
