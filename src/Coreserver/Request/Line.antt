-- ===== src/Coreserver/Request/Line.antt =====
-- What `parseRequestLine` accepts: exactly the request lines of the grammar that it documents.
use pulsys.Common.{
  ℕ, Bool, true, false, not, ◌||◌, [], ◌∷◌, ◌++◌, some, ◌≡◌, ◌≢◌, ◌⊎◌, refl, sym, ap, ◌∙◌, inl, inr,
  ◌↔◌, arith, ltb, ◌==◌, Bool-cases, Option-cases, All, Bytes, codes, split_at, and-eq-true, all,
  cut_prefix,
}
use pulsys.Coreserver.Chars.{
  valid_method, valid_origin_form_target, valid_version_digits, valid_protocol_version,
}
use pulsys.Coreserver.Request.{ok, Request, cut_after_some, set_request_line, parse_request_line}

module _ (p : ℕ → Bool) where
  pub split_at_parts :
      (s a b : Bytes)
      → split_at p s ≡ some (a, b)
      → (c : ℕ) × (s ≡ a ++ c ∷ b) × (p c ≡ true) × All (λ d. p d ≡ false) a
  split_at_parts [] a b h = cc
  split_at_parts (c ∷ s) a b h = elim (Bool-cases (p c)) [
    | inl e ↦ (c, ground arith, e, (let nil : a ≡ [] = ground arith in rw nil tt))
    | inr e ↦ elim (Option-cases (split_at p s)) [
      | inl f ↦ absurd (ground arith)
      | inr ((a', b'), f) ↦
          let (d, parts, pd, before) = split_at_parts s a' b' f in
          let cons : a ≡ c ∷ a' = ground arith in (d, ground arith, pd, rw cons (e, before))
    ]
  ]

  pub split_at_here :
      (a b : Bytes) (c : ℕ)
      → p c ≡ true
      → All (λ d. p d ≡ false) a
      → split_at p (a ++ c ∷ b) ≡ some (a, b)
  split_at_here [] b c h before = rw h
  split_at_here (d ∷ a) b c h before = rw (before.0, split_at_here a b c h before.1)

-- A cut gives the two sides of the first such byte, the first side not empty.
pub cut_after_some_parts :
    (c : ℕ) (s a b : Bytes) → cut_after_some c s ≡ some (a, b) → (s ≡ a ++ c ∷ b) × (a ≢ [])
unfolding cut_after_some
cut_after_some_parts c s a b h = elim (Option-cases (split_at (λ d. d == c) s)) [
  | inl e ↦ absurd (ground arith)
  | inr (([], t), e) ↦ absurd (ground arith)
  | inr ((x ∷ u, t), e) ↦
      let (d, parts, same, before) = split_at_parts (λ d. d == c) s (x ∷ u) t e in
      (ground arith, ground arith)
]

pub cut_after_some_here :
    (c : ℕ) (a b : Bytes)
    → a ≢ []
    → All (λ d. (d == c) ≡ false) a
    → cut_after_some c (a ++ c ∷ b) ≡ some (a, b)
unfolding cut_after_some
cut_after_some_here c [] b ne before = absurd (ne refl)
cut_after_some_here c (x ∷ a) b ne before =
    rw (split_at_here (λ d. d == c) (x ∷ a) b c (ground arith) before, cut_after_some)

-- A test that is false of a byte keeps the byte out.
pub All-of_all :
    (p : ℕ → Bool) (c : ℕ)
    → p c ≡ false
    → (s : Bytes) → all p s ≡ true
    → All (λ d. (d == c) ≡ false) s
All-of_all p c bad [] h = tt
All-of_all p c bad (d ∷ s) h =
    let (here, later) = and-eq-true (p d) (all p s) h in
    (
      (elim (Bool-cases (d == c)) [
        | inl e ↦ let same : d ≡ c = ground arith in absurd (cc (rw same at here))
        | inr e ↦ e
      ]),
      All-of_all p c bad s later,
    )

method_bytes : (s : Bytes) → valid_method s ≡ true → (s ≢ []) × All (λ d. (d == b' ') ≡ false) s
unfolding valid_method
method_bytes [] h = cc
method_bytes (c ∷ s) h =
    ((λ e. cc), All-of_all (λ d. not (ltb d b'A' || ltb b'Z' d)) b' ' refl (c ∷ s) h)

target_bytes :
    (s : Bytes) → valid_origin_form_target s ≡ true → (s ≢ []) × All (λ d. (d == b' ') ≡ false) s
unfolding valid_origin_form_target
target_bytes [] h = cc
target_bytes (c ∷ s) h =
    (λ e. cc, All-of_all (λ d. not (ltb d 0x21 || ltb 0x7e d)) b' ' refl (c ∷ s) (ground arith))

cut_prefix_parts : (a s t : Bytes) → cut_prefix a s ≡ some t → s ≡ a ++ t
cut_prefix_parts [] s t h = ground arith
cut_prefix_parts (x ∷ a) [] t h = cc
cut_prefix_parts (x ∷ a) (y ∷ s) t h = elim (Bool-cases (x == y)) [
  | inl e ↦ let tail = cut_prefix_parts a s t (rw e at h) in ground arith
  | inr e ↦ cc (rw e at h)
]

-- The two versions of the protocol.
abbrev pub IsVersion : Bytes → Type 0
IsVersion s = (s ≡ codes "HTTP/1.0") ⊎ (s ≡ codes "HTTP/1.1")

version_digits : (s : Bytes) → valid_version_digits s ≡ true → (s ≡ codes "1.0") ⊎ (s ≡ codes "1.1")
unfolding valid_version_digits
version_digits [] h = cc
version_digits (a ∷ []) h = cc
version_digits (a ∷ b ∷ []) h = cc
version_digits (a ∷ b ∷ c ∷ []) h = ground arith
version_digits (a ∷ b ∷ c ∷ d ∷ s) h = cc

IsVersion-of_valid : (s : Bytes) → valid_protocol_version s ≡ true → IsVersion s
unfolding valid_protocol_version
IsVersion-of_valid s h = elim (Option-cases (cut_prefix (codes "HTTP/") s)) [
  | inl e ↦ absurd (ground arith)
  | inr (t, e) ↦
      let parts = cut_prefix_parts (codes "HTTP/") s t e in
      elim (version_digits t (ground arith)) [
        | inl f ↦ inl (rw (parts, f))
        | inr f ↦ inr (rw (parts, f))
      ]
]

valid_of_version : (s : Bytes) → IsVersion s → valid_protocol_version s ≡ true
unfolding valid_protocol_version valid_version_digits
valid_of_version s (inl e) = rw e
valid_of_version s (inr e) = rw e

-- The parts of a request line.
pub record RequestLine (line : Bytes) : Type 0 where
  pub method : Bytes
  pub target : Bytes
  pub proto : Bytes
  pub splits : line ≡ method ++ b' ' ∷ (target ++ b' ' ∷ proto)
  pub method_valid : valid_method method ≡ true
  pub target_valid : valid_origin_form_target target ≡ true
  pub version : IsVersion proto

pub parse_request_line_sound :
    (line : Bytes) (req req' : Request)
    → parse_request_line line req ≡ ok req'
    → (r : RequestLine line) × (req' ≡ set_request_line r.method r.target r.proto req)
unfolding parse_request_line
parse_request_line_sound line req req' h = elim (Option-cases (cut_after_some b' ' line)) [
  | inl e ↦ absurd (ground arith)
  | inr ((method, rest), e) ↦ elim (Bool-cases (valid_method method)) [
    | inr f ↦ absurd (ground arith)
    | inl f ↦ elim (Option-cases (cut_after_some b' ' rest)) [
      | inl g ↦ absurd (ground arith)
      | inr ((target, proto), g) ↦ elim (Bool-cases (valid_origin_form_target target)) [
        | inr k ↦ absurd (ground arith)
        | inl k ↦ elim (Bool-cases (valid_protocol_version proto)) [
          | inr l ↦ absurd (ground arith)
          | inl l ↦ (
            record {
              method = method;
              target = target;
              proto = proto;
              splits =
                  rw (← (cut_after_some_parts b' ' rest target proto g).0)
                    (cut_after_some_parts b' ' line method rest e).0;
              method_valid = f;
              target_valid = k;
              version = IsVersion-of_valid proto l;
            },
            ground arith,
          )
        ]
      ]
    ]
  ]
]

parse_request_line_complete :
    (line : Bytes) (req : Request) (r : RequestLine line)
    → parse_request_line line req ≡ ok (set_request_line r.method r.target r.proto req)
unfolding parse_request_line
parse_request_line_complete line req r =
    let (some_method, method_plain) = method_bytes r.method r.method_valid in
    let (some_target, target_plain) = target_bytes r.target r.target_valid in
    let first : cut_after_some b' ' line ≡ some (r.method, r.target ++ b' ' ∷ r.proto) =
      rw r.splits (cut_after_some_here b' ' r.method _ some_method method_plain) in
    let second = cut_after_some_here b' ' r.target r.proto some_target target_plain in
    let version = valid_of_version r.proto r.version in
    rw (first, parse_request_line, r.method_valid, second, r.target_valid, version)

-- `parseRequestLine` accepts a line exactly when it is a method of upper-case letters, a space, an
-- origin-form target of printable ASCII, a space, and "HTTP/1.0" or "HTTP/1.1"; the request then
-- takes its fields from these parts.
pub parse_request_line_iff :
    (line : Bytes) (req req' : Request)
    → (parse_request_line line req ≡ ok req')
      ↔ ((r : RequestLine line) × (req' ≡ set_request_line r.method r.target r.proto req))
parse_request_line_iff line req req' = (
  parse_request_line_sound line req req',
  λ (r, same). parse_request_line_complete line req r ∙ ap ok (sym same),
)
