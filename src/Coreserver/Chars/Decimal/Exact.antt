-- ===== src/Coreserver/Chars/Decimal/Exact.antt =====
-- When the number that `parseDecimalInt64` gives is the number that its digits say.
use pulsys.Common.{
  ℕ, ◌+◌, ◌-◌, ◌*◌, ◌%◌, ◌≤◌, ◌<◌, true, [], ◌∷◌, ◌++◌, some, ◌≡◌, ◌≢◌, refl, ◌∙◌, arith, all,
  Bytes, and-eq-true, two63, two64,
}
use pulsys.Coreserver.Chars.Decimal.{is_digit, decimal_loop, parse_decimal_int64}

-- The number that the digits say, behind those that said `v`.
abbrev pub value_from : ℕ → Bytes → ℕ
value_from v [] = v
value_from v (c ∷ s) = value_from (v * 10 + (c - b'0')) s

pub le-value_from : (v : ℕ) (s : Bytes) → v ≤ value_from v s
le-value_from v [] = omega arith
le-value_from v (c ∷ s) = omega (arith, le-value_from (v * 10 + (c - b'0')) s)

decimal_loop_exact :
    (v : ℕ) (s : Bytes)
    → all is_digit s ≡ true
    → value_from v s < two63
    → decimal_loop v s ≡ some (value_from v s)
unfolding decimal_loop
decimal_loop_exact v [] digits fits = refl
decimal_loop_exact v (c ∷ s) digits fits =
    let (here, later) = and-eq-true (is_digit c) (all is_digit s) digits in
    let next = v * 10 + (c - b'0') in
    let bound = le-value_from next s in
    let same : next % two64 ≡ next = omega arith in
    rw same (ground (arith, decimal_loop_exact next s later fits))

decimal_loop_digits : (v r : ℕ) (s : Bytes) → decimal_loop v s ≡ some r → all is_digit s ≡ true
unfolding decimal_loop
decimal_loop_digits v r [] h = refl
decimal_loop_digits v r (c ∷ s) h =
    ground (arith, decimal_loop_digits ((v * 10 + (c - b'0')) % two64) r s)

decimal_loop-append :
    (v w : ℕ) (s t : Bytes) → decimal_loop v s ≡ some w → decimal_loop v (s ++ t) ≡ decimal_loop w t
unfolding decimal_loop
decimal_loop-append v w [] t h = ground arith
decimal_loop-append v w (c ∷ s) t h =
    ground (arith, decimal_loop-append ((v * 10 + (c - b'0')) % two64) w s t)

last_round_wraps :
    (v c : ℕ)
    → is_digit c ≡ true
    → two64 ≤ v * 10 + (c - b'0')
    → v * 10 + (c - b'0') < two64 + two63
    → decimal_loop v (c ∷ []) ≡ some (v * 10 + (c - b'0') - two64)
unfolding decimal_loop
last_round_wraps v c digit lo hi =
    let next = v * 10 + (c - b'0') in
    let wrapped : next % two64 ≡ next - two64 = omega arith in rw wrapped (ground arith)

-- Digits that say a number below 2^63 give that number; and whatever is accepted is digits.
pub parse_decimal_int64_exact :
    (s : Bytes)
    → ((s ≢ [])
        → all is_digit s ≡ true
        → value_from 0 s < two63
        → parse_decimal_int64 s ≡ some (value_from 0 s))
      × ((r : ℕ) → parse_decimal_int64 s ≡ some r → (s ≢ []) × (all is_digit s ≡ true))
unfolding parse_decimal_int64
parse_decimal_int64_exact [] = ((λ ne digits fits. absurd (ne refl)), λ r h. cc)
parse_decimal_int64_exact (c ∷ s) = (
  λ ne digits fits. decimal_loop_exact 0 (c ∷ s) digits fits,
  λ r h. ((λ e. cc), decimal_loop_digits 0 r (c ∷ s) h),
)

-- The test for overflow looks at the sign of the wrapped number. So where digits that say a number
-- below 2^63 are followed by one more, and all of them say a number between 2^64 and 2^64 + 2^63,
-- the length is accepted, and it is 2^64 less than what the header says.
pub parse_decimal_int64_wraps :
    (s : Bytes) (c : ℕ)
    → s ≢ []
    → all is_digit s ≡ true
    → is_digit c ≡ true
    → value_from 0 s < two63
    → two64 ≤ value_from 0 s * 10 + (c - b'0')
    → value_from 0 s * 10 + (c - b'0') < two64 + two63
    → parse_decimal_int64 (s ++ c ∷ []) ≡ some (value_from 0 s * 10 + (c - b'0') - two64)
unfolding parse_decimal_int64
parse_decimal_int64_wraps [] c ne digits digit fits lo hi = absurd (ne refl)
parse_decimal_int64_wraps (d ∷ s) c ne digits digit fits lo hi =
    decimal_loop-append 0 (value_from 0 (d ∷ s)) (d ∷ s) (c ∷ [])
      (decimal_loop_exact 0 (d ∷ s) digits fits)
    ∙ last_round_wraps (value_from 0 (d ∷ s)) c digit lo hi
