-- ===== src/Common/Text.antt =====
-- What the program uses of Go's packages strings and strconv, on ASCII text: white space and letters
-- outside ASCII are not modelled.
use Prim.Native.Nat.{ℕ, zero, suc, ◌+◌, ◌-◌, ◌*◌, ◌/◌, ◌%◌}
use mathlib.Core.Bool.{Bool, true, ◌&&◌, ◌||◌}
use mathlib.Core.List.{[], ◌∷◌, map}
use mathlib.Core.Option.{Option, none, some}
use pulsys.Common.ByteStrings.{Bytes, lower}
use pulsys.Common.Int.{ℤ, pos, negsuc}
use mathlib.Core.Path.{◌≡◌, refl}
use mathlib.Core.Logic.{inl, inr}
use pulsys.Common.Lists.{all}
use pulsys.Common.Tests.{Bool-cases, and-eq-true, ◌==◌, leb, ltb, if◌then◌else◌}

abbrev pub is_space : ℕ → Bool
is_space c = c == b' ' || (leb 9 c && leb c 13)

trim_left : Bytes → Bytes
trim_left [] = []
trim_left (c ∷ s) = if is_space c then trim_left s else c ∷ s

keep_last : ℕ → Bytes → Bytes
keep_last c [] = if is_space c then [] else c ∷ []
keep_last c (d ∷ s) = c ∷ d ∷ s

trim_right : Bytes → Bytes
unfolding keep_last
trim_right [] = []
trim_right (c ∷ s) = keep_last c (trim_right s)

-- `strings.TrimSpace`
unfoldable pub trim : Bytes → Bytes
unfolding trim_left trim_right
trim s = trim_right (trim_left s)

all-trim_left : (p : ℕ → Bool) (s : Bytes) → all p s ≡ true → all p (trim_left s) ≡ true
unfolding trim_left
all-trim_left p [] h = refl
all-trim_left p (c ∷ s) h = elim (Bool-cases (is_space c)) [
  | inl e ↦ rw (e, trim_left) (all-trim_left p s (and-eq-true (p c) (all p s) h).1)
  | inr e ↦ rw (e, trim_left) h
]

all-keep_last :
    (p : ℕ → Bool) (c : ℕ) (s : Bytes) → p c ≡ true → all p s ≡ true → all p (keep_last c s) ≡ true
unfolding keep_last
all-keep_last p c [] h k = elim (Bool-cases (is_space c)) [
  | inl e ↦ rw e refl
  | inr e ↦ rw (e, h) refl
]
all-keep_last p c (d ∷ s) h k = rw h k

all-trim_right : (p : ℕ → Bool) (s : Bytes) → all p s ≡ true → all p (trim_right s) ≡ true
unfolding trim_right
all-trim_right p [] h = refl
all-trim_right p (c ∷ s) h =
    let (first, rest) = and-eq-true (p c) (all p s) h in
    all-keep_last p c (trim_right s) first (all-trim_right p s rest)

-- Trimming leaves only bytes that were there.
pub all-trim : (p : ℕ → Bool) (s : Bytes) → all p s ≡ true → all p (trim s) ≡ true
unfolding trim
all-trim p s h = all-trim_right p (trim_left s) (all-trim_left p s h)

-- `strings.ToLower`
abbrev pub to_lower : Bytes → Bytes
to_lower = map lower

abbrev upper : ℕ → ℕ
upper c = if leb b'a' c && leb c b'z' then c - 32 else c

-- `strings.ToUpper`
abbrev pub to_upper : Bytes → Bytes
to_upper = map upper

-- The number that digits say; `none` if another byte stands among them.
unfoldable pub digits_value : ℕ → Bytes → Option ℕ
digits_value v [] = some v
digits_value v (c ∷ s) =
    let rest = digits_value (v * 10 + (c - b'0')) s in
    if leb b'0' c && leb c b'9' then rest else none

-- At least one digit, and none past the limit.
unfoldable pub magnitude : ℕ → Bytes → Option ℕ
unfolding digits_value
magnitude limit [] = none
magnitude limit (c ∷ s) = elim (digits_value 0 (c ∷ s)) [
  | none ↦ none
  | some v ↦ if leb v limit then some v else none
]

unfoldable pub negated : ℕ → ℤ
negated zero = pos 0
negated (suc n) = negsuc n

-- `strconv.ParseInt(s, 10, 64)`
unfoldable pub parse_int : Bytes → Option ℤ
unfolding magnitude negated
parse_int [] = none
parse_int (c ∷ s) =
    if c == b'-'
    then (elim (magnitude 9223372036854775808 s) [ none ↦ none | some v ↦ some (negated v) ])
    else if c == b'+'
    then (elim (magnitude 9223372036854775807 s) [ none ↦ none | some v ↦ some (pos v) ])
    else elim (magnitude 9223372036854775807 (c ∷ s)) [ none ↦ none | some v ↦ some (pos v) ]

hex_digit : ℕ → ℕ
hex_digit n = if ltb n 10 then b'0' + n else b'a' + (n - 10)

-- `hex.Encode`
unfoldable pub hex_encode : Bytes → Bytes
unfolding hex_digit
hex_encode [] = []
hex_encode (c ∷ s) = hex_digit (c / 16) ∷ hex_digit (c % 16) ∷ hex_encode s
