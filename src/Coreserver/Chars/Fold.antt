-- ===== src/Coreserver/Chars/Fold.antt =====
-- `asciiEqualFold`: a name equals at most one lower-case literal, in any case.
use pulsys.Common.{
  true, false, [], ◌∷◌, ◌≡◌, refl, sym, ◌∙◌, map, ◌==◌, Bytes, bytes_eq, bytes_eq_iff, lower,
  Bool-cases, ==_iff, inl, inr,
}
use pulsys.Coreserver.Chars.{ascii_equal_fold}

pub map-lower_of_fold : (a b : Bytes) → ascii_equal_fold a b ≡ true → map lower a ≡ b
unfolding ascii_equal_fold
map-lower_of_fold [] [] h = refl
map-lower_of_fold [] (y ∷ b) h = cc
map-lower_of_fold (x ∷ a) [] h = cc
map-lower_of_fold (x ∷ a) (y ∷ b) h = elim (Bool-cases (lower x == y)) [
  | inl e ↦
      let tail = map-lower_of_fold a b (rw e at h) in let head = (==_iff (lower x) y).0 e in cc
  | inr e ↦ cc (rw e at h)
]

pub fold_of_map-lower : (a : Bytes) → ascii_equal_fold a (map lower a) ≡ true
unfolding ascii_equal_fold
fold_of_map-lower [] = refl
fold_of_map-lower (x ∷ a) = rw ((==_iff (lower x) (lower x)).1 refl) (fold_of_map-lower a)

-- Two literals that differ are not both equal to a name.
pub fold_ne :
    (a b c : Bytes)
    → ascii_equal_fold a b ≡ true
    → bytes_eq b c ≡ false
    → ascii_equal_fold a c ≡ false
fold_ne a b c h ne = elim (Bool-cases (ascii_equal_fold a c)) [
  | inl e ↦
      let same = (bytes_eq_iff b c).1 (sym (map-lower_of_fold a b h) ∙ map-lower_of_fold a c e) in
      cc
  | inr e ↦ e
]
