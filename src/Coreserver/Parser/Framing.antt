-- ===== src/Coreserver/Parser/Framing.antt =====
-- No accepted request can be framed in two ways: its Host, Content-Length and Transfer-Encoding
-- headers are unique and do not contradict one another.
use mathlib.Core.Path.{subst}
use pulsys.Common.{
  ℕ, ◌+◌, ◌≤◌, Bool, true, false, ◌||◌, List, [], ◌∷◌, none, some, ◌≡◌, ◌⊎◌, refl, ◌∙◌, arith, All,
  Bytes, codes, all, two63, some_injective, sym, ◌<◌,
}
use pulsys.Coreserver.Chars.Decimal.{is_digit, parse_decimal_int64}
use pulsys.Coreserver.Chars.Decimal.Exact.{value_from, parse_decimal_int64_exact}
use pulsys.Coreserver.Chars.Fold.{fold_ne}
use pulsys.Coreserver.Chars.{ascii_equal_fold, trim_space}
use pulsys.Coreserver.Parser.Accepts.{RequestRead, read_request_iff}
use pulsys.Coreserver.Parser.Clean.{parse_header_round}
use pulsys.Coreserver.Parser.Grammar.{IsPlain, parse_fields, parse_head}
use pulsys.Coreserver.Parser.{
  Progress, set_header, parse_header, check_framing, start_headers, read_request,
}
use pulsys.Coreserver.Request.Line.{parse_request_line_sound}
use pulsys.Coreserver.Request.{
  ok, >>=-eq-ok, Request, empty_request, cut_after_some, parse_request_line, set_request_line,
}

abbrev pub host_name : Bytes
host_name = codes "host"

abbrev pub length_name : Bytes
length_name = codes "content-length"

abbrev pub encoding_name : Bytes
encoding_name = codes "transfer-encoding"

abbrev pub one_if : Bool → ℕ
one_if true = 1
one_if false = 0

-- The header line has the name, in any case.
pub named : Bytes → Bytes → Bool
named name line = elim (cut_after_some b':' line) [
  | none ↦ false
  | some (n, v) ↦ ascii_equal_fold n name
]

-- What stands behind the colon, without blanks at its ends.
pub value_of : Bytes → Bytes
value_of line = elim (cut_after_some b':' line) [ none ↦ [] | some (n, v) ↦ trim_space v ]

pub count_named : Bytes → List Bytes → ℕ
count_named name [] = 0
count_named name (line ∷ lines) = one_if (named name line) + count_named name lines

-- What a header line does to the three variables, and what it leaves alone.
record Effect (n v : Bytes) (p q : Progress) : Type 0 where
  host_once : one_if q.seen_host ≡ one_if p.seen_host + one_if (ascii_equal_fold n host_name)
  length_once : one_if q.seen_cl ≡ one_if p.seen_cl + one_if (ascii_equal_fold n length_name)
  encoding_seen : q.seen_te ≡ (p.seen_te || ascii_equal_fold n encoding_name)
  host_set : ascii_equal_fold n host_name ≡ true → q.req.host ≡ v
  host_kept : ascii_equal_fold n host_name ≡ false → q.req.host ≡ p.req.host
  length_set :
      ascii_equal_fold n length_name ≡ true → parse_decimal_int64 v ≡ some q.req.content_len
  length_kept : ascii_equal_fold n length_name ≡ false → q.req.content_len ≡ p.req.content_len
  encoding_identity :
      ascii_equal_fold n encoding_name ≡ true → ascii_equal_fold v (codes "identity") ≡ true

-- A name that equals one of the literals does not equal another.
module _ (n : Bytes) where
  range_not-length :
      ascii_equal_fold n (codes "range") ≡ true → ascii_equal_fold n length_name ≡ false
  range_not-length e = fold_ne n (codes "range") length_name e refl

  range_not-encoding :
      ascii_equal_fold n (codes "range") ≡ true → ascii_equal_fold n encoding_name ≡ false
  range_not-encoding e = fold_ne n (codes "range") encoding_name e refl

  auth_not-length :
      ascii_equal_fold n (codes "authorization") ≡ true → ascii_equal_fold n length_name ≡ false
  auth_not-length e = fold_ne n (codes "authorization") length_name e refl

  auth_not-encoding :
      ascii_equal_fold n (codes "authorization") ≡ true → ascii_equal_fold n encoding_name ≡ false
  auth_not-encoding e = fold_ne n (codes "authorization") encoding_name e refl

  host_not-length : ascii_equal_fold n host_name ≡ true → ascii_equal_fold n length_name ≡ false
  host_not-length e = fold_ne n host_name length_name e refl

  host_not-encoding : ascii_equal_fold n host_name ≡ true → ascii_equal_fold n encoding_name ≡ false
  host_not-encoding e = fold_ne n host_name encoding_name e refl

  length_not-encoding :
      ascii_equal_fold n length_name ≡ true → ascii_equal_fold n encoding_name ≡ false
  length_not-encoding e = fold_ne n length_name encoding_name e refl

set_header-Effect : (n v : Bytes) (p q : Progress) → set_header n v p ≡ ok q → Effect n v p q
unfolding set_header
set_header-Effect n v p q h = ground (
  arith,
  range_not-length n,
  range_not-encoding n,
  auth_not-length n,
  auth_not-encoding n,
  host_not-length n,
  host_not-encoding n,
  length_not-encoding n,
)

-- The same of a header line that the loop has read.
header-Effect :
    (c : ℕ) (s : Bytes) (p q : Progress)
    → parse_header (c ∷ s) p ≡ ok q
    → (n : Bytes) × (v : Bytes) × Effect n v p q
      × (value_of (c ∷ s) ≡ v)
      × ((name : Bytes) → named name (c ∷ s) ≡ ascii_equal_fold n name)
unfolding named value_of
header-Effect c s p q h =
    let (f, _, set) = parse_header_round c s p q h in
    (
      f.name,
      trim_space f.rest,
      set_header-Effect f.name (trim_space f.rest) p q set,
      rw (f.cut, value_of),
      λ name. rw (f.cut, named),
    )

-- A Content-Length line has only digits, and if the number that they say is below 2^63 it is the
-- request's length.
pub record SaysLength (req : Request) (line : Bytes) : Type 0 where
  pub digits : named length_name line ≡ true → all is_digit (value_of line) ≡ true
  pub number :
      named length_name line ≡ true
      → value_from 0 (value_of line) < two63
      → req.content_len ≡ value_from 0 (value_of line)

-- What the header lines together say of the request.
pub record HasUniqueFraming (fields : List Bytes) (req : Request) : Type 0 where
  pub one_host : count_named host_name fields ≡ 1
  pub one_length : count_named length_name fields ≤ 1
  pub not_both : (count_named length_name fields ≡ 0) ⊎ (count_named encoding_name fields ≡ 0)
  pub host_is : All (λ l. named host_name l ≡ true → value_of l ≡ req.host) fields
  pub length_is :
      All
        (λ l. named length_name l ≡ true → parse_decimal_int64 (value_of l) ≡ some req.content_len)
        fields
  pub length_exact : All (SaysLength req) fields
  pub no_length : count_named length_name fields ≡ 0 → req.content_len ≡ 0
  pub encoding_is :
      All
        (λ l.
          named encoding_name l ≡ true → ascii_equal_fold (value_of l) (codes "identity") ≡ true)
        fields

module _ (q : Progress) where
  abbrev HostIs : Bytes → Type 0
  HostIs l = named host_name l ≡ true → value_of l ≡ q.req.host

  abbrev LengthIs : Bytes → Type 0
  LengthIs l =
      named length_name l ≡ true → parse_decimal_int64 (value_of l) ≡ some q.req.content_len

  abbrev EncodingIs : Bytes → Type 0
  EncodingIs l =
      named encoding_name l ≡ true → ascii_equal_fold (value_of l) (codes "identity") ≡ true

  record FieldsEffect (fields : List Bytes) (p : Progress) : Type 0 where
    host_count : one_if q.seen_host ≡ one_if p.seen_host + count_named host_name fields
    length_count : one_if q.seen_cl ≡ one_if p.seen_cl + count_named length_name fields
    encoding_none : q.seen_te ≡ false → (count_named encoding_name fields ≡ 0) × (p.seen_te ≡ false)
    host_kept : count_named host_name fields ≡ 0 → q.req.host ≡ p.req.host
    length_kept : count_named length_name fields ≡ 0 → q.req.content_len ≡ p.req.content_len
    hosts : All HostIs fields
    lengths : All LengthIs fields
    encodings : All EncodingIs fields

one_if-le : (b : Bool) → one_if b ≤ 1
one_if-le true = omega arith
one_if-le false = omega arith

fields-Effect :
    (fields : List Bytes) (p q : Progress)
    → All IsPlain fields
    → parse_fields fields p ≡ ok q
    → FieldsEffect q fields p
unfolding parse_fields count_named
fields-Effect [] p q plain h = ground arith
fields-Effect ([] ∷ fields) p q plain h = absurd (plain.0.1 refl)
fields-Effect ((c ∷ s) ∷ fields) p q plain h =
    let (p', here, later) = >>=-eq-ok (parse_header (c ∷ s) p) (parse_fields fields) h in
    let r = fields-Effect fields p' q plain.1 later in
    let (n, v, e, value, name) = header-Effect c s p p' here in
    let at_most = one_if-le q.seen_host in
    let at_most' = one_if-le q.seen_cl in
    let host = name host_name in
    let len = name length_name in
    let enc = name encoding_name in
    record {
      host_count = ground arith;
      length_count = ground arith;
      encoding_none = ground arith;
      host_kept = ground arith;
      length_kept = ground arith;
      hosts = (ground arith, r.hosts);
      lengths = (ground arith, r.lengths);
      encodings = (ground arith, r.encodings);
    }

SaysLength-of_read :
    (req : Request) (line : Bytes)
    → (named length_name line ≡ true → parse_decimal_int64 (value_of line) ≡ some req.content_len)
    → SaysLength req line
SaysLength-of_read req line read =
    let (exact, accepted) = parse_decimal_int64_exact (value_of line) in
    record {
      digits = λ name. (accepted req.content_len (read name)).1;
      number = λ name fits.
          let (some_digits, digits) = accepted req.content_len (read name) in
          some_injective _ _ (sym (read name) ∙ exact some_digits digits fits);
    }

All-SaysLength :
    (req : Request) (fields : List Bytes)
    → All
        (λ l. named length_name l ≡ true → parse_decimal_int64 (value_of l) ≡ some req.content_len)
        fields
    → All (SaysLength req) fields
All-SaysLength req [] h = tt
All-SaysLength req (line ∷ fields) h =
    (SaysLength-of_read req line h.0, All-SaysLength req fields h.1)

parse_request_line_keeps :
    (line : Bytes) (req req' : Request)
    → parse_request_line line req ≡ ok req'
    → req'.content_len ≡ req.content_len
unfolding set_request_line
parse_request_line_keeps line req req' h =
    let (r, same) = parse_request_line_sound line req req' h in ground arith

parse_head-HasUniqueFraming :
    (line : Bytes) (fields : List Bytes) (raw : Bytes) (req : Request)
    → All IsPlain fields
    → parse_head line fields raw ≡ ok req
    → HasUniqueFraming fields req
unfolding parse_head check_framing start_headers
parse_head-HasUniqueFraming line fields raw req plain h =
    let (first, request_line, more) =
      >>=-eq-ok (parse_request_line line (record empty_request { raw = raw })) _ h in
    let (q, headers, checked) =
      >>=-eq-ok (parse_fields fields (start_headers first)) check_framing more in
    let r = fields-Effect fields (start_headers first) q plain headers in
    let at_most = one_if-le q.seen_cl in
    let same : q.req ≡ req = ground arith in
    let empty = parse_request_line_keeps line _ first request_line in
    subst (HasUniqueFraming fields) same (record {
      one_host = ground arith;
      one_length = ground arith;
      not_both = ground arith;
      host_is = r.hosts;
      length_is = r.lengths;
      length_exact = All-SaysLength q.req fields r.lengths;
      no_length = λ e. r.length_kept e ∙ empty;
      encoding_is = r.encodings;
    })

-- Of an accepted request exactly one header line is named Host, at most one Content-Length, and not
-- both a Content-Length and a Transfer-Encoding line occur; the request's host is the value of the
-- Host line; its length is 0 if there is no Content-Length line, and what `parseDecimalInt64` reads in
-- that line, which has only digits, if there is one: the number that they say, if it is below 2^63;
-- and each Transfer-Encoding line says "identity".
pub read_request-HasUniqueFraming :
    (stream : Bytes) (req : Request) (left : Bytes)
    → read_request stream ≡ ok (req, left)
    → (r : RequestRead stream req left) × HasUniqueFraming r.fields req
read_request-HasUniqueFraming stream req left h =
    let r = (read_request_iff stream req left).0 h in
    (r, parse_head-HasUniqueFraming r.line r.fields _ req r.plain.1 r.parsed)
