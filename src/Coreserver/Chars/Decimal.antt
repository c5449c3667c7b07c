-- ===== src/Coreserver/Chars/Decimal.antt =====
-- `parseDecimalInt64`, whose accumulator is a 64-bit integer that wraps round.
pub mod Exact
use pulsys.Common.{
  ℕ, ◌+◌, ◌-◌, ◌*◌, ◌%◌, Bool, ◌&&◌, ◌||◌, [], ◌∷◌, Option, none, some, ltb, leb, if◌then◌else◌,
  Bytes, two63, two64,
}

abbrev pub is_digit : ℕ → Bool
is_digit c = leb b'0' c && leb c b'9'

-- `v` is not negative at the start of a round; it is after the assignment if its top bit is set.
pub decimal_loop : ℕ → Bytes → Option ℕ
decimal_loop v [] = some v
decimal_loop v (c ∷ s) =
    let next = (v * 10 + (c - b'0')) % two64 in
    let rest = decimal_loop next s in
    if ltb c b'0' || ltb b'9' c then none else if leb two63 next then none else rest

unfoldable pub parse_decimal_int64 : Bytes → Option ℕ
unfolding decimal_loop
parse_decimal_int64 [] = none
parse_decimal_int64 b = decimal_loop 0 b
