-- ===== src/Coreserver/Parser.antt =====
-- internal/coreserver/server.go, `readRequest`, and internal/coreserver/iouring_parser_linux.go,
-- `parseRequestFromBuf`. The two share the code for one header line, in the source by a copy.
use pulsys.Common.{
  ℕ, suc, ◌+◌, ◌-◌, Bool, true, false, not, ◌&&◌, ◌||◌, List, [], ◌∷◌, ◌++◌, Option, none, some,
  ltb, leb, ◌==◌, if◌then◌else◌, Bytes, codes, bytes_eq, length, take,
}
pub mod Lines
pub mod Clean
pub mod Grammar
pub mod Accepts
pub mod Framing
pub mod Lockstep
use mathlib.Core.Option
use pulsys.Coreserver.Chars.{
  is_blank, valid_header_name, valid_header_value, trim_space, ascii_equal_fold,
  ascii_contains_token_fold,
}
use pulsys.Coreserver.Chars.Decimal.{parse_decimal_int64}
use pulsys.Coreserver.Request.{
  ParseError, bad_request, header_too_large, smuggling_suspect, io_error, Result, ok, err, ◌>>=◌,
  Request, empty_request, cut_after_some, parse_request_line,
}

-- `bufReadSize` and `headerScratchSize`
abbrev pub buf_read_size : ℕ
buf_read_size = 16384

abbrev pub header_scratch_size : ℕ
header_scratch_size = 16384

-- A line read with its end, and what follows.
unfoldable pub push_byte : ℕ → List Bytes × Bytes → List Bytes × Bytes
push_byte c ([], rest) = ([], c ∷ rest)
push_byte c (line ∷ lines, rest) = ((c ∷ line) ∷ lines, rest)

-- The slices that successive calls of `ReadSlice('\n')` give, each with its newline, and the bytes
-- behind the last newline.
unfoldable pub lf_lines : Bytes → List Bytes × Bytes
unfolding push_byte
lf_lines [] = ([], [])
lf_lines (c ∷ s) =
    let (lines, rest) = lf_lines s in
    if c == b'\n' then ((c ∷ []) ∷ lines, rest) else push_byte c (lines, rest)

-- The slices that successive calls of `bytes.Index(hdr, crlf)` cut off, each without its CRLF, and
-- the bytes behind the last CRLF.
unfoldable pub crlf_lines : Bytes → List Bytes × Bytes
unfolding push_byte
crlf_lines [] = ([], [])
crlf_lines (c ∷ []) = ([], c ∷ [])
crlf_lines (c ∷ d ∷ s) = elim (c == b'\r' && d == b'\n') [
  | true ↦ let (lines, rest) = crlf_lines s in ([] ∷ lines, rest)
  | false ↦ push_byte c (crlf_lines (d ∷ s))
]

unfoldable pub concat_lines : List Bytes → Bytes → Bytes
concat_lines [] rest = rest
concat_lines (line ∷ lines) rest = line ++ concat_lines lines rest

abbrev pub is_terminator : Bytes → Bool
is_terminator line = bytes_eq line (codes "\r\n") || bytes_eq line (codes "\n")

-- The first loop of `readRequest`, on the lines still to come: the header block, and the lines that
-- are left. `n` bytes of `scratch` are in use.
unfoldable pub read_block : ℕ → List Bytes → Bytes → Result (Bytes × List Bytes)
read_block n [] rest = err (if leb buf_read_size (length rest) then header_too_large else io_error)
read_block n (line ∷ lines) rest =
    if ltb buf_read_size (length line)
    then err header_too_large
    else if ltb header_scratch_size (n + length line)
    then err header_too_large
    else if is_terminator line
    then ok (line, lines)
    else (do (block, left) ← read_block (n + length line) lines rest; ok (line ++ block, left))

-- The variables of the header loop.
pub record Progress : Type 0 where
  pub req : Request
  pub seen_cl : Bool
  pub seen_te : Bool
  pub seen_host : Bool

-- The switch on the header's name.
unfoldable pub set_host : Bytes → Progress → Result Progress
set_host value p =
    if p.seen_host
    then err smuggling_suspect
    else ok (record p { seen_host = true; req = record p.req { host = value } })

unfoldable pub set_content_length : Bytes → Progress → Result Progress
unfolding parse_decimal_int64
set_content_length value p =
    if p.seen_cl then err smuggling_suspect else elim (parse_decimal_int64 value) [
      | none ↦ err smuggling_suspect
      | some n ↦ ok (record p { seen_cl = true; req = record p.req { content_len = n } })
    ]

unfoldable pub set_transfer_encoding : Bytes → Progress → Result Progress
unfolding ascii_equal_fold
set_transfer_encoding value p =
    if not (ascii_equal_fold value (codes "identity"))
    then err smuggling_suspect
    else ok (record p { seen_te = true })

unfoldable pub set_connection : Bytes → Progress → Progress
unfolding ascii_contains_token_fold
set_connection value p =
    if ascii_contains_token_fold value (codes "close")
    then record p { req = record p.req { keep_alive = false } }
    else if not p.req.http11
    then record p { req = record p.req { keep_alive = true } }
    else p

unfoldable pub set_header : Bytes → Bytes → Progress → Result Progress
unfolding set_host set_content_length set_transfer_encoding set_connection
set_header name value p =
    if ascii_equal_fold name (codes "host")
    then set_host value p
    else if ascii_equal_fold name (codes "range")
    then ok (record p { req = record p.req { range = value } })
    else if ascii_equal_fold name (codes "authorization")
    then ok (record p { req = record p.req { auth = value } })
    else if ascii_equal_fold name (codes "content-length")
    then set_content_length value p
    else if ascii_equal_fold name (codes "transfer-encoding")
    then set_transfer_encoding value p
    else if ascii_equal_fold name (codes "connection")
    then ok (set_connection value p)
    else ok p

-- One round of the header loop, on a line that is not empty.
unfoldable pub parse_header : Bytes → Progress → Result Progress
unfolding set_header is_blank cut_after_some valid_header_name valid_header_value trim_space
parse_header [] p = ok p
parse_header (c ∷ s) p =
    if is_blank c then err smuggling_suspect else elim (cut_after_some b':' (c ∷ s)) [
      | none ↦ err bad_request
      | some (name, rest) ↦
          if not (valid_header_name name)
          then err bad_request
          else if not (valid_header_value (trim_space rest))
          then err smuggling_suspect
          else set_header name (trim_space rest) p
    ]

-- The header loop. It ends at an empty line or at the end of the bytes; bytes without a CRLF behind
-- them are refused.
unfoldable pub parse_headers : List Bytes → Bytes → Progress → Result Progress
unfolding parse_header
parse_headers [] [] p = ok p
parse_headers [] (_ ∷ _) p = err bad_request
parse_headers ([] ∷ lines) rest p = ok p
parse_headers ((c ∷ s) ∷ lines) rest p = do q ← parse_header (c ∷ s) p; parse_headers lines rest q

-- The checks behind the loop.
unfoldable pub check_framing : Progress → Result Request
check_framing p =
    if p.seen_te && p.seen_cl
    then err smuggling_suspect
    else if not p.seen_host
    then err bad_request
    else ok p.req

unfoldable pub start_headers : Request → Progress
start_headers req = record {
  req = record req { keep_alive = req.http11 };
  seen_cl = false;
  seen_te = false;
  seen_host = false;
}

-- The request line and the headers of a block that is split at its CRLFs.
unfoldable pub parse_lines : List Bytes → Bytes → Request → Result Request
unfolding parse_headers check_framing start_headers parse_request_line
parse_lines [] rest req = err bad_request
parse_lines (line ∷ lines) rest req = do
  req' ← parse_request_line line req
  p ← parse_headers lines rest (start_headers req')
  check_framing p

unfoldable pub parse_block : Bytes → Bytes → Result Request
unfolding parse_lines crlf_lines
parse_block block raw =
    parse_lines (crlf_lines block).0 (crlf_lines block).1 (record empty_request { raw = raw })

-- `readRequest`: the request, and what is left to read.
unfoldable pub read_request : Bytes → Result (Request × Bytes)
unfolding read_block parse_block lf_lines concat_lines
read_request stream = do
  (block, left) ← read_block 0 (lf_lines stream).0 (lf_lines stream).1
  req ← parse_block block block
  ok (req, concat_lines left (lf_lines stream).1)

-- `bytes.Index(buf, crlfcrlf)` with 4 added.
unfoldable pub header_end : Bytes → Option ℕ
header_end [] = none
header_end (c ∷ s) =
    if bytes_eq (take 4 (c ∷ s)) (codes "\r\n\r\n") then some 4 else Option.map suc (header_end s)

pub data BufResult : Type 0 where
  consumed : Request → ℕ → BufResult
  need_more_data : BufResult
  failed : ParseError → BufResult

unfoldable pub as_buf_result : ℕ → Result Request → BufResult
as_buf_result n (ok req) = consumed req n
as_buf_result n (err e) = failed e

-- `parseRequestFromBuf`
unfoldable pub parse_request_from_buf : Bytes → BufResult
unfolding header_end as_buf_result parse_block
parse_request_from_buf buf = elim (header_end buf) [
  | none ↦ need_more_data
  | some n ↦ as_buf_result n (parse_block (take (n - 2) buf) (take n buf))
]
