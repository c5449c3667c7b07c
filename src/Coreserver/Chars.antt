-- ===== src/Coreserver/Chars.antt =====
-- internal/coreserver/server.go: the byte-level tests of the request parser, and the decimal number
-- of a Content-Length header.
pub mod Decimal
pub mod Fold
use pulsys.Common.{
  ℕ, zero, suc, ◌+◌, ◌-◌, ◌*◌, ◌%◌, ◌^◌, Bool, true, false, not, ◌&&◌, ◌||◌, List, [], ◌∷◌, ◌++◌,
  Option, none, some, ltb, leb, ◌==◌, if◌then◌else◌, all, Bytes, codes, bytes_eq, cut_prefix, lower,
  length,
}

abbrev pub within : ℕ → ℕ → ℕ → Bool
within lo hi c = leb lo c && leb c hi

unfoldable pub is_blank : ℕ → Bool
is_blank c = c == b' ' || c == b'\t'

-- The bytes of `slice` that are not empty satisfy the test.
unfoldable pub valid_method : Bytes → Bool
valid_method [] = false
valid_method b = all (λ c. not (ltb c b'A' || ltb b'Z' c)) b

unfoldable pub valid_origin_form_target : Bytes → Bool
valid_origin_form_target [] = false
valid_origin_form_target (c ∷ s) =
    if not (c == b'/') then false else all (λ d. not (ltb d 0x21 || ltb 0x7e d)) (c ∷ s)

-- The switch on `b[5]`, and the test of `b[6]` and `b[7]`.
unfoldable pub valid_version_digits : Bytes → Bool
valid_version_digits (major ∷ dot ∷ minor ∷ []) =
    major == b'1' && (dot == b'.' && (minor == b'0' || minor == b'1'))
valid_version_digits _ = false

unfoldable pub valid_protocol_version : Bytes → Bool
unfolding valid_version_digits
valid_protocol_version b =
    if not (length b == 8)
    then false
    else elim (cut_prefix (codes "HTTP/") b) [ none ↦ false | some s ↦ valid_version_digits s ]

unfoldable pub is_tchar : ℕ → Bool
is_tchar c =
    within b'A' b'Z' c
    || within b'a' b'z' c
    || within b'0' b'9' c
    || c == b'!'
    || c == b'#'
    || c == b'$'
    || c == b'%'
    || c == b'&'
    || c == b'\''
    || c == b'*'
    || c == b'+'
    || c == b'-'
    || c == b'.'
    || c == b'^'
    || c == b'_'
    || c == b'`'
    || c == b'|'
    || c == b'~'

unfoldable pub valid_header_name : Bytes → Bool
unfolding is_tchar
valid_header_name [] = false
valid_header_name b = all is_tchar b

unfoldable pub valid_value_byte : ℕ → Bool
unfolding is_blank
valid_value_byte c = is_blank c || (leb 0x21 c && leb c 0x7e) || leb 0x80 c

unfoldable pub valid_header_value : Bytes → Bool
unfolding valid_value_byte
valid_header_value b = all valid_value_byte b

unfoldable pub drop_blanks : Bytes → Bytes
unfolding is_blank
drop_blanks [] = []
drop_blanks (c ∷ s) = if is_blank c then drop_blanks s else c ∷ s

-- A byte in front of what the loop on `j` leaves of the bytes behind it.
unfoldable pub keep_byte : ℕ → Bytes → Bytes
unfolding is_blank
keep_byte c [] = if is_blank c then [] else c ∷ []
keep_byte c (d ∷ t) = c ∷ d ∷ t

unfoldable pub drop_end_blanks : Bytes → Bytes
unfolding keep_byte
drop_end_blanks [] = []
drop_end_blanks (c ∷ s) = keep_byte c (drop_end_blanks s)

unfoldable pub trim_space : Bytes → Bytes
unfolding drop_blanks drop_end_blanks
trim_space b = drop_end_blanks (drop_blanks b)

unfoldable pub ascii_equal_fold : Bytes → Bytes → Bool
ascii_equal_fold [] [] = true
ascii_equal_fold (a ∷ s) (b ∷ t) = if lower a == b then ascii_equal_fold s t else false
ascii_equal_fold _ _ = false

unfoldable pub is_separator : ℕ → Bool
is_separator c = c == b',' || c == b' ' || c == b'\t'

-- The rounds of `asciiContainsTokenFold`: what stands between separators, from the slice read so far
-- in this round. A round that begins with separators skips them.
unfoldable pub tokens_from : Bytes → Bytes → List Bytes
unfolding is_separator
tokens_from token [] = token ∷ []
tokens_from token (c ∷ s) = elim (is_separator c) [
  | true ↦ elim token [ [] ↦ tokens_from [] s | a ∷ t ↦ (a ∷ t) ∷ tokens_from [] s ]
  | false ↦ tokens_from (token ++ c ∷ []) s
]

unfoldable pub any_equal_fold : Bytes → List Bytes → Bool
unfolding ascii_equal_fold
any_equal_fold token [] = false
any_equal_fold token (t ∷ ts) = if ascii_equal_fold t token then true else any_equal_fold token ts

unfoldable pub ascii_contains_token_fold : Bytes → Bytes → Bool
unfolding tokens_from any_equal_fold
ascii_contains_token_fold [] token = false
ascii_contains_token_fold haystack token = any_equal_fold token (tokens_from [] haystack)
