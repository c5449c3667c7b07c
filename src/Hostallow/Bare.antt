-- ===== src/Hostallow/Bare.antt =====
-- How a host is written, and what is left of it without its brackets and its port.
use pulsys.Common.{
  Option-cases, append_assoc, ℕ, none, some, codes, ◌==◌, any_byte, refl, or-eq-false,
  if◌then◌else◌, split_at, cut_last, trim_front, trim_back, has_prefix, arith, ap, ◌∙◌, Bool, false,
  [], ◌∷◌, ◌++◌, Bytes, bytes_eq, ◌≡◌, inl, inr,
}
use pulsys.Hostallow.{is_bracket, trim_brackets, bare_literal, bare_host}

abbrev is_colon : ℕ → Bool
is_colon c = c == b':'

-- How a host is written, by a name or an address.
pub data HostForm (h name : Bytes) : Type 0 where
  plain : any_byte is_colon name ≡ false → h ≡ name → HostForm h name
  with_port :
      (port : Bytes)
      → any_byte is_colon name ≡ false
      → any_byte is_colon port ≡ false
      → h ≡ name ++ b':' ∷ port
      → HostForm h name
  literal : h ≡ b'[' ∷ (name ++ b']' ∷ []) → HostForm h name
  literal_port : (port : Bytes) → h ≡ b'[' ∷ (name ++ b']' ∷ b':' ∷ port) → HostForm h name

-- The host is a name without colons, or an address in brackets, with a port behind it or without.
pub record IsHostOf (h name : Bytes) : Type 0 where
  pub no_bracket : any_byte is_bracket name ≡ false
  pub form : HostForm h name

cut_last-eq-none : (s : Bytes) → any_byte is_colon s ≡ false → cut_last b':' s ≡ none
unfolding cut_last
cut_last-eq-none [] h = refl
cut_last-eq-none (c ∷ s) h =
    let (here, later) = or-eq-false (c == b':') (any_byte is_colon s) h in
    rw (cut_last-eq-none s later, here) refl

cut_last-port :
    (s port : Bytes)
    → any_byte is_colon port ≡ false
    → cut_last b':' (s ++ b':' ∷ port) ≡ some (s, port)
unfolding cut_last
cut_last-port [] port h = rw (cut_last-eq-none port h) refl
cut_last-port (c ∷ s) port h = rw (cut_last-port s port h) refl

trim_front-same :
    (s t : Bytes)
    → any_byte is_bracket s ≡ false
    → trim_front is_bracket (s ++ b']' ∷ t)
      ≡ (if bytes_eq s [] then trim_front is_bracket t else s ++ b']' ∷ t)
unfolding trim_front
trim_front-same [] t h = refl
trim_front-same (c ∷ s) t h =
    let (here, later) = or-eq-false (is_bracket c) (any_byte is_bracket s) h in rw here refl

trim_back-same : (s : Bytes) → any_byte is_bracket s ≡ false → trim_back is_bracket s ≡ s
unfolding trim_back
trim_back-same [] h = refl
trim_back-same (c ∷ []) h = let (here, later) = or-eq-false (is_bracket c) false h in rw here refl
trim_back-same (c ∷ d ∷ s) h =
    let (here, later) = or-eq-false (is_bracket c) (any_byte is_bracket (d ∷ s)) h in
    rw (trim_back-same (d ∷ s) later) refl

trim_back-bracket :
    (s : Bytes) → any_byte is_bracket s ≡ false → trim_back is_bracket (s ++ b']' ∷ []) ≡ s
unfolding trim_back
trim_back-bracket [] h = refl
trim_back-bracket (c ∷ []) h =
    let (here, later) = or-eq-false (is_bracket c) false h in rw here refl
trim_back-bracket (c ∷ d ∷ s) h =
    let (here, later) = or-eq-false (is_bracket c) (any_byte is_bracket (d ∷ s)) h in
    rw (trim_back-bracket (d ∷ s) later) refl

trim_brackets-literal :
    (name : Bytes)
    → any_byte is_bracket name ≡ false
    → trim_brackets (b'[' ∷ (name ++ b']' ∷ [])) ≡ name
unfolding trim_brackets trim_front
trim_brackets-literal [] h = refl
trim_brackets-literal (c ∷ s) h = rw (trim_front-same (c ∷ s) [] h) (trim_back-bracket (c ∷ s) h)

pub trim_brackets-same :
    (name : Bytes) → any_byte is_bracket name ≡ false → trim_brackets name ≡ name
unfolding trim_brackets trim_front
trim_brackets-same [] h = refl
trim_brackets-same (c ∷ s) h =
    let (here, later) = or-eq-false (is_bracket c) (any_byte is_bracket s) h in
    rw here (trim_back-same (c ∷ s) h)

split_at-literal :
    (name rest : Bytes)
    → any_byte is_bracket name ≡ false
    → split_at (λ c. c == b']') (name ++ b']' ∷ rest) ≡ some (name, rest)
split_at-literal [] rest h = refl
split_at-literal (c ∷ s) rest h =
    let (here, later) = or-eq-false (is_bracket c) (any_byte is_bracket s) h in
    let (_, other) = or-eq-false (c == b'[') (c == b']') here in
    rw (other, split_at, split_at-literal s rest later) refl

bare_literal-literal :
    (name rest : Bytes)
    → any_byte is_bracket name ≡ false
    → bare_literal (b'[' ∷ (name ++ b']' ∷ rest)) ≡ name
unfolding bare_literal
bare_literal-literal name rest h =
    rw (bare_literal, split_at, split_at-literal name rest h) (trim_brackets-literal name h)

no_opening :
    (c : ℕ) (s t : Bytes)
    → any_byte is_bracket (c ∷ s) ≡ false
    → has_prefix (codes "[") (c ∷ t) ≡ false
no_opening c s t h =
    let (here, later) = or-eq-false (is_bracket c) (any_byte is_bracket s) h in
    let (other, _) = or-eq-false (c == b'[') (c == b']') here in ground arith

bare_host-plain :
    (name : Bytes)
    → any_byte is_bracket name ≡ false
    → any_byte is_colon name ≡ false
    → bare_host name ≡ name
unfolding bare_host
bare_host-plain [] h k = refl
bare_host-plain (c ∷ s) h k = rw (bare_host, cut_last-eq-none (c ∷ s) k, no_opening c s s h) refl

bare_host-port :
    (name port : Bytes)
    → any_byte is_bracket name ≡ false
    → any_byte is_colon port ≡ false
    → bare_host (name ++ b':' ∷ port) ≡ name
unfolding bare_host
bare_host-port [] port h k = rw (bare_host, cut_last-port [] port k) refl
bare_host-port (c ∷ s) port h k =
    rw (bare_host, cut_last-port (c ∷ s) port k, no_opening c s (s ++ b':' ∷ port) h) refl

bare_host-literal :
    (name : Bytes)
    → any_byte is_bracket name ≡ false
    → bare_host (b'[' ∷ (name ++ b']' ∷ [])) ≡ name
unfolding bare_host
bare_host-literal name h = elim (Option-cases (cut_last b':' (b'[' ∷ (name ++ b']' ∷ [])))) [
  | inr ((before, port), e) ↦ rw (bare_host, e) (bare_literal-literal name [] h)
  | inl e ↦ rw (bare_host, e) (trim_brackets-literal name h)
]

-- A colon is found.
cut_last-ne-none : (s port : Bytes) → cut_last b':' (s ++ b':' ∷ port) ≡ none → ⊥
unfolding cut_last
cut_last-ne-none [] port h = elim (Option-cases (cut_last b':' port)) [
  | inl e ↦ let found : some ([], port) ≡ none = rw (e, cut_last) at h in cc
  | inr ((a, b), e) ↦ let found : some (b':' ∷ a, b) ≡ none = rw (e, cut_last) at h in cc
]
cut_last-ne-none (c ∷ s) port h = elim (Option-cases (cut_last b':' (s ++ b':' ∷ port))) [
  | inl e ↦ cut_last-ne-none s port e
  | inr ((a, b), e) ↦ let found : some (c ∷ a, b) ≡ none = rw (e, cut_last) at h in cc
]

bare_host-literal_port :
    (name port : Bytes)
    → any_byte is_bracket name ≡ false
    → bare_host (b'[' ∷ (name ++ b']' ∷ b':' ∷ port)) ≡ name
unfolding bare_host
bare_host-literal_port name port h =
    elim (Option-cases (cut_last b':' (b'[' ∷ (name ++ b']' ∷ b':' ∷ port)))) [
      | inr ((before, behind), e) ↦ rw (bare_host, e) (bare_literal-literal name (b':' ∷ port) h)
      | inl e ↦
          let same = append_assoc (b'[' ∷ name) (b']' ∷ []) (b':' ∷ port) in
          absurd (cut_last-ne-none (b'[' ∷ (name ++ b']' ∷ [])) port (ap (cut_last b':') same ∙ e))
    ]

pub bare_host-IsHostOf : (h name : Bytes) → IsHostOf h name → bare_host h ≡ name
bare_host-IsHostOf h name host = elim host.form [
  | plain colons same ↦ ap bare_host same ∙ bare_host-plain name host.no_bracket colons
  | with_port port _ colons same ↦
      ap bare_host same ∙ bare_host-port name port host.no_bracket colons
  | literal same ↦ ap bare_host same ∙ bare_host-literal name host.no_bracket
  | literal_port port same ↦ ap bare_host same ∙ bare_host-literal_port name port host.no_bracket
]
