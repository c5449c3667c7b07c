-- ===== src/Classify/Fold.antt =====
-- What the tests on the path say of its text.
use mathlib.Core.List.{map}
use pulsys.Common.{
  ℕ, ◌<◌, ◌≤◌, true, false, [], ◌∷◌, ◌++◌, Bytes, ◌≡◌, ◌↔◌, inl, inr, refl, sym, ap, ◌∙◌, arith,
  lower, length, take, drop, length-append, take-append-drop, ltb, guard-eq-true, suc, ◌==◌, ==_iff,
  Bool-cases, Option-cases, has_prefix, cut_prefix, cut_prefix-eq-some, cut_prefix-append,
}
use pulsys.Classify.{equal_fold_ascii, contains_from, contains_lower, contains_lower_prefix}

-- The path begins with the text, letter by letter.
pub record Begins (text path : Bytes) : Type 0 where
  pub rest : Bytes
  pub whole : path ≡ text ++ rest

-- The path begins with the text, whose letters are in lower case, in any case.
pub record BeginsFold (text path : Bytes) : Type 0 where
  pub found : Bytes
  pub rest : Bytes
  pub whole : path ≡ found ++ rest
  pub folded : map lower found ≡ text

-- The text stands somewhere in the path, in any case.
pub record ContainsFold (text path : Bytes) : Type 0 where
  pub before : Bytes
  pub found : Bytes
  pub rest : Bytes
  pub whole : path ≡ before ++ (found ++ rest)
  pub folded : map lower found ≡ text

pub Begins-has_prefix : (text path : Bytes) → (has_prefix text path ≡ true) ↔ Begins text path
Begins-has_prefix text path = (
  λ h. elim (Option-cases (cut_prefix text path)) [
    | inl e ↦ let missing : false ≡ true = rw (e, has_prefix) at h in cc
    | inr (rest, e) ↦ record { rest = rest; whole = cut_prefix-eq-some text path rest e }
  ],
  λ b. rw (b.whole, has_prefix, cut_prefix-append text b.rest) refl,
)

equal_fold_ascii_iff : (a b : Bytes) → (equal_fold_ascii a b ≡ true) ↔ (map lower a ≡ b)
unfolding equal_fold_ascii
equal_fold_ascii_iff [] [] = ((λ h. refl), λ h. refl)
equal_fold_ascii_iff [] (y ∷ b) = ((λ h. cc), λ h. cc)
equal_fold_ascii_iff (x ∷ a) [] = ((λ h. cc), λ h. cc)
equal_fold_ascii_iff (x ∷ a) (y ∷ b) =
    let (to, from) = equal_fold_ascii_iff a b in
    let (same, equal) = ==_iff (lower x) y in
    elim (Bool-cases (lower x == y)) [
      | inl e ↦ rw e ((λ h. let tail = to h in let head = same e in cc), λ h. from (cc))
      | inr e ↦ rw e ((λ h. cc), λ h. let head = equal (cc) in cc)
    ]

length-fold : (a b : Bytes) → map lower a ≡ b → length a ≡ length b
length-fold [] b h = ap length h
length-fold (x ∷ a) [] h = cc
length-fold (x ∷ a) (y ∷ b) h = let tail = length-fold a b (cc) in omega (arith, tail)

take-found : (found rest : Bytes) → take (length found) (found ++ rest) ≡ found
take-found [] rest = refl
take-found (x ∷ found) rest = ap (◌∷◌ x) (take-found found rest)

-- What the comparison of the first bytes says.
BeginsFold-take :
    (text path : Bytes)
    → (equal_fold_ascii (take (length text) path) text ≡ true) ↔ BeginsFold text path
BeginsFold-take text path =
    let (to, from) = equal_fold_ascii_iff (take (length text) path) text in
    (
      λ h. record {
        found = take (length text) path;
        rest = drop (length text) path;
        whole = sym (take-append-drop (length text) path);
        folded = to h;
      },
      λ b. from (
          ap (map lower) (
            ap (take (length text)) b.whole
            ∙ ap (λ n. take n (b.found ++ b.rest)) (sym (length-fold b.found text b.folded))
            ∙ take-found b.found b.rest)
          ∙ b.folded),
    )

long_enough : (text path : Bytes) → BeginsFold text path → ltb (length path) (length text) ≡ false
long_enough text path b =
    let size = ap length b.whole in
    let parts = length-append b.found b.rest in
    let same = length-fold b.found text b.folded in
    let fits : length text ≤ length path = omega (arith, size, parts, same) in ground arith

pub contains_lower_prefix_iff :
    (path text : Bytes) → (contains_lower_prefix path text ≡ true) ↔ BeginsFold text path
unfolding contains_lower_prefix
contains_lower_prefix_iff path text =
    let (to, from) = BeginsFold-take text path in
    (
      λ h. to (guard-eq-true (ltb (length path) (length text)) _ h).1,
      λ b. rw (long_enough text path b) (from b),
    )

contains_from_sound : (path text : Bytes) → contains_from path text ≡ true → ContainsFold text path
unfolding contains_from
contains_from_sound [] text h = cc
contains_from_sound (c ∷ s) text h =
    let (fits, h1) = guard-eq-true (ltb (length (c ∷ s)) (length text)) _ h in
    elim (Bool-cases (equal_fold_ascii (take (length text) (c ∷ s)) text)) [
      | inl e ↦
          let b = (BeginsFold-take text (c ∷ s)).0 e in
          record { before = []; found = b.found; rest = b.rest; whole = b.whole; folded = b.folded }
      | inr e ↦
          let later = contains_from_sound s text (rw e at h1) in
          record {
            before = c ∷ later.before;
            found = later.found;
            rest = later.rest;
            whole = ap (◌∷◌ c) later.whole;
            folded = later.folded;
          }
    ]

contains_from-begins :
    (c : ℕ) (s text : Bytes) → BeginsFold text (c ∷ s) → contains_from (c ∷ s) text ≡ true
unfolding contains_from
contains_from-begins c s text b =
    rw (long_enough text (c ∷ s) b, (BeginsFold-take text (c ∷ s)).1 b) refl

contains_from_complete :
    (before found rest text : Bytes)
    → 0 < length text
    → map lower found ≡ text
    → contains_from (before ++ (found ++ rest)) text ≡ true
unfolding contains_from
contains_from_complete [] [] rest text some_text folded =
    absurd (let size = ap length folded in omega (arith, size))
contains_from_complete [] (d ∷ found) rest text some_text folded =
    contains_from-begins d (found ++ rest) text
      (record { found = d ∷ found; rest = rest; whole = refl; folded = folded })
contains_from_complete (c ∷ before) found rest text some_text folded =
    let later = contains_from_complete before found rest text some_text folded in
    let whole = length-append before (found ++ rest) in
    let parts = length-append found rest in
    let same = length-fold found text folded in
    let fits : ltb (length (c ∷ before ++ (found ++ rest))) (length text) ≡ false =
      let room : length text ≤ suc (length (before ++ (found ++ rest))) =
        omega (arith, whole, parts, same) in
      ground arith in
    rw fits (ground (arith, later))

pub contains_lower_iff :
    (path text : Bytes)
    → 0 < length text
    → (contains_lower path text ≡ true) ↔ ContainsFold text path
unfolding contains_lower
contains_lower_iff path [] h = absurd (omega arith)
contains_lower_iff path (n ∷ text) h = (
  λ e. contains_from_sound path (n ∷ text) e,
  λ b. rw b.whole (contains_from_complete b.before b.found b.rest (n ∷ text) h b.folded),
)
