-- ===== src/Coreserver/Request.antt =====
-- internal/coreserver/server.go: `Request`, the errors of the parser and `parseRequestLine`.
pub mod Line
use pulsys.Common.{
  ℕ, Bool, false, not, [], ◌∷◌, Option, none, some, ◌==◌, if◌then◌else◌, Bytes, codes, bytes_eq,
  split_at, ◌≡◌, refl,
}
use pulsys.Coreserver.Chars.{valid_method, valid_origin_form_target, valid_protocol_version}

-- `io_error` stands for what the connection returns, such as `io.EOF`.
pub data ParseError : Type 0 where
  bad_request header_too_large smuggling_suspect io_error : ParseError

pub data Result {ℓ} (A : Type ℓ) : Type ℓ where
  ok : A → Result A
  err : ParseError → Result A

infixl 5 ◌>>=◌
abbrev pub ◌>>=◌ {ℓ κ} : {A : Type ℓ} {B : Type κ} → Result A → (A → Result B) → Result B
ok a >>= f = f a
err e >>= f = err e

pub >>=-eq-ok {ℓ κ} :
    {S : Type ℓ} {T : Type κ} {t : T} (m : Result S) (next : S → Result T)
    → (m >>= next) ≡ ok t
    → (s : S) × (m ≡ ok s) × (next s ≡ ok t)
>>=-eq-ok (ok s) next h = (s, refl, h)
>>=-eq-ok (err e) next h = cc

pub record Request : Type 0 where
  pub method : Bytes
  pub request_uri : Bytes
  pub path : Bytes
  pub query : Bytes
  pub host : Bytes
  pub auth : Bytes
  pub range : Bytes
  pub raw : Bytes
  pub content_len : ℕ
  pub keep_alive : Bool
  pub http11 : Bool

-- `Request{}`
abbrev pub empty_request : Request
empty_request = record {
  method = [];
  request_uri = [];
  path = [];
  query = [];
  host = [];
  auth = [];
  range = [];
  raw = [];
  content_len = 0;
  keep_alive = false;
  http11 = false;
}

-- `bytes.IndexByte` with the slices before and behind the byte; a byte in the first place counts as
-- missing, as in `sp1 <= 0`, `sp2 <= 0` and `colon <= 0`.
unfoldable pub cut_after_some : ℕ → Bytes → Option (Bytes × Bytes)
cut_after_some c b = elim (split_at (λ d. d == c) b) [
  | none ↦ none
  | some (before, after) ↦ elim before [ [] ↦ none | a ∷ s ↦ some (a ∷ s, after) ]
]

unfoldable pub split_query : Bytes → Bytes × Bytes
split_query target = elim (split_at (λ d. d == b'?') target) [
  | none ↦ (target, [])
  | some (before, after) ↦ (before, after)
]

-- The assignments at the end of `parseRequestLine`.
unfoldable pub set_request_line : Bytes → Bytes → Bytes → Request → Request
unfolding split_query
set_request_line method target proto req = record req {
  method = method;
  request_uri = target;
  http11 = bytes_eq proto (codes "HTTP/1.1");
  path = (split_query target).0;
  query = (split_query target).1;
}

unfoldable pub parse_request_line : Bytes → Request → Result Request
unfolding cut_after_some set_request_line valid_method valid_origin_form_target
    valid_protocol_version
parse_request_line line req = elim (cut_after_some b' ' line) [
  | none ↦ err bad_request
  | some (method, rest) ↦
      if not (valid_method method) then err bad_request else elim (cut_after_some b' ' rest) [
        | none ↦ err bad_request
        | some (target, proto) ↦
            if not (valid_origin_form_target target)
            then err bad_request
            else if not (valid_protocol_version proto)
            then err bad_request
            else ok (set_request_line method target proto req)
      ]
]
