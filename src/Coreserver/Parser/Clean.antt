-- ===== src/Coreserver/Parser/Clean.antt =====
-- Lines without a line feed, and why the checks of the parser leave no other.
use pulsys.Common.{
  ℕ, Bool, true, false, not, ◌||◌, [], ◌∷◌, ◌++◌, some, ◌≡◌, ◌≢◌, refl, sym, ◌∙◌, inl, inr, arith,
  ltb, Bool-cases, Option-cases, All, All-append, Bytes, and-eq-true, all,
}
use pulsys.Coreserver.Chars.{
  is_blank, valid_method, valid_origin_form_target, is_tchar, valid_header_name, valid_value_byte,
  valid_header_value, drop_blanks, keep_byte, drop_end_blanks, trim_space,
}
use pulsys.Coreserver.Parser.{parse_header, Progress, set_header}
use pulsys.Coreserver.Request.Line.{RequestLine, IsVersion, cut_after_some_parts}
use pulsys.Coreserver.Request.{ok, cut_after_some}

abbrev pub NoLf : Bytes → Type 0
NoLf = All (λ c. c ≢ 10)

NoLf-of_all : (p : ℕ → Bool) → p 10 ≡ false → (s : Bytes) → all p s ≡ true → NoLf s
NoLf-of_all p bad [] h = tt
NoLf-of_all p bad (c ∷ s) h =
    let (here, later) = and-eq-true (p c) (all p s) h in ((λ e. cc), NoLf-of_all p bad s later)

NoLf-method : (s : Bytes) → valid_method s ≡ true → NoLf s
unfolding valid_method
NoLf-method [] h = tt
NoLf-method (c ∷ s) h = NoLf-of_all (λ d. not (ltb d b'A' || ltb b'Z' d)) refl (c ∷ s) h

NoLf-target : (s : Bytes) → valid_origin_form_target s ≡ true → NoLf s
unfolding valid_origin_form_target
NoLf-target [] h = tt
NoLf-target (c ∷ s) h =
    NoLf-of_all (λ d. not (ltb d 0x21 || ltb 0x7e d)) refl (c ∷ s) (ground arith)

NoLf-name : (s : Bytes) → valid_header_name s ≡ true → NoLf s
unfolding valid_header_name
NoLf-name [] h = tt
NoLf-name (c ∷ s) h = NoLf-of_all is_tchar refl (c ∷ s) h

NoLf-value : (s : Bytes) → valid_header_value s ≡ true → NoLf s
unfolding valid_header_value
NoLf-value s h = NoLf-of_all valid_value_byte refl s h

-- Trimming takes off blanks alone.
NoLf-drop_blanks : (s : Bytes) → NoLf (drop_blanks s) → NoLf s
unfolding drop_blanks
NoLf-drop_blanks [] h = tt
NoLf-drop_blanks (c ∷ s) h = elim (Bool-cases (is_blank c)) [
  | inl e ↦ (ground arith, NoLf-drop_blanks s (rw e at h))
  | inr e ↦ rw e at h
]

NoLf-keep_byte : (c : ℕ) (s : Bytes) → NoLf (keep_byte c s) → (c ≢ 10) × NoLf s
unfolding keep_byte
NoLf-keep_byte c [] h = elim (Bool-cases (is_blank c)) [
  | inl e ↦ (ground arith, tt)
  | inr e ↦ ((rw e at h).0, tt)
]
NoLf-keep_byte c (d ∷ s) h = (h.0, h.1)

NoLf-drop_end_blanks : (s : Bytes) → NoLf (drop_end_blanks s) → NoLf s
unfolding drop_end_blanks
NoLf-drop_end_blanks [] h = tt
NoLf-drop_end_blanks (c ∷ s) h =
    let (here, later) = NoLf-keep_byte c (drop_end_blanks s) h in
    (here, NoLf-drop_end_blanks s later)

NoLf-trim : (s : Bytes) → NoLf (trim_space s) → NoLf s
unfolding trim_space
NoLf-trim s h = NoLf-drop_blanks s (NoLf-drop_end_blanks (drop_blanks s) h)

-- A header line that passes its checks: it is not folded, its name is a token, and its value has
-- neither a line feed nor any other byte that a value may not have.
pub record IsFieldLine (line : Bytes) : Type 0 where
  pub name : Bytes
  pub rest : Bytes
  pub splits : line ≡ name ++ b':' ∷ rest
  pub cut : cut_after_some b':' line ≡ some (name, rest)
  pub name_valid : valid_header_name name ≡ true
  pub value_valid : valid_header_value (trim_space rest) ≡ true

pub parse_header_round :
    (c : ℕ) (s : Bytes) (p q : Progress)
    → parse_header (c ∷ s) p ≡ ok q
    → (f : IsFieldLine (c ∷ s)) × (is_blank c ≡ false)
      × (set_header f.name (trim_space f.rest) p ≡ ok q)
unfolding parse_header
parse_header_round c s p q h = elim (Bool-cases (is_blank c)) [
  | inl e ↦ cc (rw e at h)
  | inr e ↦ elim (Option-cases (cut_after_some b':' (c ∷ s))) [
    | inl f ↦ absurd (ground arith)
    | inr ((name, rest), f) ↦ elim (Bool-cases (valid_header_name name)) [
      | inl g ↦ elim (Bool-cases (valid_header_value (trim_space rest))) [
        | inl k ↦ (
          record {
            name = name;
            rest = rest;
            splits = (cut_after_some_parts b':' (c ∷ s) name rest f).0;
            cut = f;
            name_valid = g;
            value_valid = k;
          },
          e,
          ground arith,
        )
        | inr k ↦ absurd (ground arith)
      ]
      | inr g ↦ absurd (ground arith)
    ]
  ]
]

pub NoLf-IsFieldLine : (line : Bytes) → IsFieldLine line → NoLf line
NoLf-IsFieldLine line f = rw f.splits (
    All-append (λ c. c ≢ 10) f.name (b':' ∷ f.rest) (NoLf-name f.name f.name_valid)
      (omega arith, NoLf-trim f.rest (NoLf-value (trim_space f.rest) f.value_valid)))

NoLf-version : (s : Bytes) → IsVersion s → NoLf s
NoLf-version s (inl e) = rw e (omega arith)
NoLf-version s (inr e) = rw e (omega arith)

pub NoLf-RequestLine : (line : Bytes) → RequestLine line → NoLf line
NoLf-RequestLine line r = rw r.splits (
    All-append (λ c. c ≢ 10) r.method _ (NoLf-method r.method r.method_valid)
      (
        omega arith,
        All-append (λ c. c ≢ 10) r.target _ (NoLf-target r.target r.target_valid)
            (omega arith, NoLf-version r.proto r.version),
      ))

append_cons-ne-nil : (a b : Bytes) (c : ℕ) → a ++ c ∷ b ≢ []
append_cons-ne-nil [] b c e = cc
append_cons-ne-nil (x ∷ a) b c e = cc

pub RequestLine-ne-nil : (line : Bytes) → RequestLine line → line ≢ []
RequestLine-ne-nil line r e = append_cons-ne-nil r.method _ b' ' (sym r.splits ∙ e)
