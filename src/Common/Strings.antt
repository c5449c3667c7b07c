-- ===== src/Common/Strings.antt =====
-- What the program uses of Go's package strings to search, split and join byte strings.
use Prim.Native.Nat.{ℕ}
use mathlib.Core.Bool.{Bool, true, false, ◌||◌}
use mathlib.Core.List.{List, [], ◌∷◌, ◌++◌}
use mathlib.Core.Logic.{inl, inr}
use mathlib.Core.Option.{Option, none, some}
use mathlib.Core.Path.{◌≡◌, refl, ap, ◌∙◌}
use native.Mathlib.Omega.{arith}
use pulsys.Common.ByteStrings.{split_at, Bytes, bytes_eq, bytes_eq_iff, cut_prefix}
use pulsys.Common.Tests.{◌==◌, if◌then◌else◌, Bool-cases, Option-cases, or-eq-true}

-- `strings.HasPrefix`
abbrev pub has_prefix : Bytes → Bytes → Bool
has_prefix p s = elim (cut_prefix p s) [ none ↦ false | some _ ↦ true ]

-- `strings.HasSuffix`
unfoldable pub has_suffix : Bytes → Bytes → Bool
has_suffix p [] = bytes_eq [] p
has_suffix p (c ∷ s) = bytes_eq (c ∷ s) p || has_suffix p s

-- Before and behind the first place where the marker stands.
unfoldable pub cut_text : Bytes → Bytes → Option (Bytes × Bytes)
cut_text m [] = elim (cut_prefix m []) [ none ↦ none | some rest ↦ some ([], rest) ]
cut_text m (c ∷ s) =
    let later = cut_text m s in
    elim (cut_prefix m (c ∷ s)) [
      | some rest ↦ some ([], rest)
      | none ↦ elim later [ none ↦ none | some (a, b) ↦ some (c ∷ a, b) ]
    ]

-- `strings.Contains`
unfoldable pub contains_text : Bytes → Bytes → Bool
unfolding cut_text
contains_text m s = elim (cut_text m s) [ none ↦ false | some _ ↦ true ]

-- `strings.Split`, at a byte: there is always a first piece.
unfoldable pub split_head : ℕ → Bytes → Bytes × List Bytes
split_head sep [] = ([], [])
split_head sep (c ∷ s) =
    let rest = split_head sep s in if c == sep then ([], rest.0 ∷ rest.1) else (c ∷ rest.0, rest.1)

unfoldable pub split_on : ℕ → Bytes → List Bytes
unfolding split_head
split_on sep s = (split_head sep s).0 ∷ (split_head sep s).1

-- `strings.Join`
unfoldable pub join_with : Bytes → List Bytes → Bytes
join_with sep [] = []
join_with sep (a ∷ []) = a
join_with sep (a ∷ b ∷ rest) = a ++ (sep ++ join_with sep (b ∷ rest))

-- Before and behind the last place where the byte stands.
unfoldable pub cut_last : ℕ → Bytes → Option (Bytes × Bytes)
cut_last m [] = none
cut_last m (c ∷ s) =
    let later = cut_last m s in
    elim later [ some (a, b) ↦ some (c ∷ a, b) | none ↦ if c == m then some ([], s) else none ]

-- `strings.Trim`, of the bytes that pass the test.
unfoldable pub trim_front : (ℕ → Bool) → Bytes → Bytes
trim_front p [] = []
trim_front p (c ∷ s) = let rest = trim_front p s in if p c then rest else c ∷ s

unfoldable pub trim_back : (ℕ → Bool) → Bytes → Bytes
trim_back p [] = []
trim_back p (c ∷ s) = elim (trim_back p s) [ [] ↦ if p c then [] else c ∷ [] | d ∷ t ↦ c ∷ d ∷ t ]

-- One of the bytes passes the test.
abbrev pub any_byte : (ℕ → Bool) → Bytes → Bool
any_byte p [] = false
any_byte p (c ∷ s) = p c || any_byte p s

pub cut_prefix-eq-some : (m s rest : Bytes) → cut_prefix m s ≡ some rest → s ≡ m ++ rest
cut_prefix-eq-some [] s rest h = cc
cut_prefix-eq-some (p ∷ ps) [] rest h = cc
cut_prefix-eq-some (p ∷ ps) (c ∷ s) rest h = elim (Bool-cases (p == c)) [
  | inl e ↦
      let more = cut_prefix-eq-some ps s rest (rw (e, cut_prefix) at h) in
      let same : p ≡ c = ground arith in rw (same, more) refl
  | inr e ↦ let missing : none ≡ some rest = rw (e, cut_prefix) at h in cc
]

pub cut_prefix-append : (m rest : Bytes) → cut_prefix m (m ++ rest) ≡ some rest
cut_prefix-append [] rest = refl
cut_prefix-append (p ∷ ps) rest =
    let same : (p == p) ≡ true = ground arith in rw same (cut_prefix-append ps rest)

pub cut_text-eq-some : (m s a b : Bytes) → cut_text m s ≡ some (a, b) → s ≡ a ++ (m ++ b)
unfolding cut_text
cut_text-eq-some m [] a b h = elim (Option-cases (cut_prefix m [])) [
  | inl e ↦ let missing : none ≡ some (a, b) = rw (e, cut_text) at h in cc
  | inr (rest, e) ↦
      let found : some ([], rest) ≡ some (a, b) = rw (e, cut_text) at h in
      let before : [] ≡ a = cc in
      let behind : rest ≡ b = cc in rw (← before, ← behind) (cut_prefix-eq-some m [] rest e)
]
cut_text-eq-some m (c ∷ s) a b h = elim (Option-cases (cut_prefix m (c ∷ s))) [
  | inr (rest, e) ↦
      let found : some ([], rest) ≡ some (a, b) = rw (e, cut_text) at h in
      let before : [] ≡ a = cc in
      let behind : rest ≡ b = cc in rw (← before, ← behind) (cut_prefix-eq-some m (c ∷ s) rest e)
  | inl e ↦ elim (Option-cases (cut_text m s)) [
    | inl f ↦ let missing : none ≡ some (a, b) = rw (e, cut_text, f) at h in cc
    | inr ((a', b'), f) ↦
        let found : some (c ∷ a', b') ≡ some (a, b) = rw (e, cut_text, f) at h in
        let before : c ∷ a' ≡ a = cc in
        let behind : b' ≡ b = cc in
        rw (← before, ← behind) (ap (◌∷◌ c) (cut_text-eq-some m s a' b' f))
  ]
]

contains_text-of_prefix : (m s rest : Bytes) → cut_prefix m s ≡ some rest → contains_text m s ≡ true
unfolding contains_text
contains_text-of_prefix m [] rest h = rw (h, contains_text, cut_text) refl
contains_text-of_prefix m (c ∷ s) rest h = rw (h, contains_text, cut_text) refl

contains_text-of_tail :
    (m : Bytes) (c : ℕ) (s : Bytes) → contains_text m s ≡ true → contains_text m (c ∷ s) ≡ true
unfolding contains_text
contains_text-of_tail m c s h = elim (Option-cases (cut_prefix m (c ∷ s))) [
  | inr (rest, e) ↦ rw (e, contains_text, cut_text) refl
  | inl e ↦ elim (Option-cases (cut_text m s)) [
    | inl f ↦ let missing : false ≡ true = rw (f, contains_text) at h in cc
    | inr ((a, b), f) ↦ rw (e, f, contains_text, cut_text) refl
  ]
]

-- A text that stands in another is found.
pub contains_text-append : (m a b : Bytes) → contains_text m (a ++ (m ++ b)) ≡ true
contains_text-append m [] b = contains_text-of_prefix m (m ++ b) b (cut_prefix-append m b)
contains_text-append m (c ∷ a) b =
    contains_text-of_tail m c (a ++ (m ++ b)) (contains_text-append m a b)

join_with-cons_head :
    (sep : Bytes) (c : ℕ) (a : Bytes) (rest : List Bytes)
    → join_with sep ((c ∷ a) ∷ rest) ≡ c ∷ join_with sep (a ∷ rest)
unfolding join_with
join_with-cons_head sep c a [] = refl
join_with-cons_head sep c a (b ∷ rest) = refl

-- The pieces, joined again.
pub join_with-split_on : (sep : ℕ) (s : Bytes) → join_with (sep ∷ []) (split_on sep s) ≡ s
unfolding split_on join_with
join_with-split_on sep [] = refl
join_with-split_on sep (c ∷ s) = elim (Bool-cases (c == sep)) [
  | inl e ↦
      let same : c ≡ sep = ground arith in rw e (rw same (ap (◌∷◌ sep) (join_with-split_on sep s)))
  | inr e ↦
      let head = join_with-cons_head (sep ∷ []) c (split_head sep s).0 (split_head sep s).1 in
      rw e (head ∙ ap (◌∷◌ c) (join_with-split_on sep s))
]

split_head-append :
    (sep : ℕ) (s t : Bytes)
    → split_head sep (s ++ sep ∷ t) ≡ ((split_head sep s).0, (split_head sep s).1 ++ split_on sep t)
unfolding split_on
split_head-append sep [] t = let same : (sep == sep) ≡ true = ground arith in rw same refl
split_head-append sep (c ∷ s) t = elim (Bool-cases (c == sep)) [
  | inl e ↦ rw (e, split_head-append sep s t) refl
  | inr e ↦ rw (e, split_head-append sep s t) refl
]

-- Text behind a separator is split by itself.
pub split_on-append :
    (sep : ℕ) (s t : Bytes) → split_on sep (s ++ sep ∷ t) ≡ split_on sep s ++ split_on sep t
unfolding split_on
split_on-append sep s t = rw (split_head-append sep s t) refl

-- Text without the separator is one piece.
pub split_on-one :
    (sep : ℕ) (s : Bytes) → any_byte (λ c. c == sep) s ≡ false → split_on sep s ≡ s ∷ []
unfolding split_on
split_on-one sep [] h = refl
split_on-one sep (c ∷ s) h =
    let other : (c == sep) ≡ false = ground arith in
    let rest = split_on-one sep s (ground arith) in
    let head : (split_head sep s).0 ≡ s = cc in
    let tail : (split_head sep s).1 ≡ [] = cc in rw (other, head, tail) refl

pub has_suffix-eq-true : (p s : Bytes) → has_suffix p s ≡ true → (a : Bytes) × (s ≡ a ++ p)
unfolding has_suffix
has_suffix-eq-true p [] h = ([], (bytes_eq_iff [] p).0 h)
has_suffix-eq-true p (c ∷ s) h = elim (or-eq-true (bytes_eq (c ∷ s) p) (has_suffix p s) h) [
  | inl e ↦ ([], (bytes_eq_iff (c ∷ s) p).0 e)
  | inr e ↦ let (a, same) = has_suffix-eq-true p s e in (c ∷ a, ap (◌∷◌ c) same)
]

pub split_at-eq-some :
    (p : ℕ → Bool) (s a b : Bytes)
    → split_at p s ≡ some (a, b)
    → (d : ℕ) × (s ≡ a ++ d ∷ b) × (p d ≡ true)
split_at-eq-some p [] a b h = cc
split_at-eq-some p (c ∷ s) a b h = elim (Bool-cases (p c)) [
  | inl e ↦
      let found : some ([], s) ≡ some (a, b) = rw (e, split_at) at h in
      let before : [] ≡ a = cc in let behind : s ≡ b = cc in (c, rw (← before, ← behind) refl, e)
  | inr e ↦ elim (Option-cases (split_at p s)) [
    | inl f ↦ let missing : none ≡ some (a, b) = rw (e, f, split_at) at h in cc
    | inr ((a', b'), f) ↦
        let found : some (c ∷ a', b') ≡ some (a, b) = rw (e, f, split_at) at h in
        let before : c ∷ a' ≡ a = cc in
        let behind : b' ≡ b = cc in
        let (d, same, test) = split_at-eq-some p s a' b' f in
        (d, rw (← before, ← behind) (ap (◌∷◌ c) same), test)
  ]
]
