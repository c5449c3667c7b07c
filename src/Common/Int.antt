-- ===== src/Common/Int.antt =====
-- Signed integers, with their order as tests, and the wrap-around of a 64-bit machine integer.
use Prim.Native.Nat.{ℕ, suc, ◌+◌, ◌-◌, ◌%◌, ◌≤◌, ◌<◌}
use mathlib.Core.Path.{◌≡◌, refl, sym, ap, ◌∙◌}
use native.Mathlib.Omega.{arith}
use mathlib.Core.Bool.{Bool, true, false}
use mathlib.Core.Logic.{◌⊎◌, inl, inr}
use pulsys.Common.Tests.{ltb, leb, if◌then◌else◌}

-- `negsuc n` is -(n + 1).
pub data ℤ : Type 0 where
  pos : ℕ → ℤ
  negsuc : ℕ → ℤ

abbrev pub pos_part : ℤ → ℕ
pos_part (pos n) = n
pos_part (negsuc n) = 0

abbrev pub neg_part : ℤ → ℕ
neg_part (pos n) = 0
neg_part (negsuc n) = suc n

-- a - b, as an integer.
abbrev pub sub_ℕ : ℕ → ℕ → ℤ
sub_ℕ a b = if leb b a then pos (a - b) else negsuc (b - a - 1)

infix 50 ◌≤ℤ◌ ◌<ℤ◌
abbrev pub ◌≤ℤ◌ : ℤ → ℤ → Type 0
a ≤ℤ b = pos_part a + neg_part b ≤ pos_part b + neg_part a

abbrev pub ◌<ℤ◌ : ℤ → ℤ → Type 0
a <ℤ b = pos_part a + neg_part b < pos_part b + neg_part a

abbrev pub lebℤ : ℤ → ℤ → Bool
lebℤ a b = leb (pos_part a + neg_part b) (pos_part b + neg_part a)

abbrev pub ltbℤ : ℤ → ℤ → Bool
ltbℤ a b = ltb (pos_part a + neg_part b) (pos_part b + neg_part a)

infixl 65 ◌+ℤ◌ ◌-ℤ◌
abbrev pub ◌+ℤ◌ : ℤ → ℤ → ℤ
a +ℤ b = sub_ℕ (pos_part a + pos_part b) (neg_part a + neg_part b)

abbrev pub ◌-ℤ◌ : ℤ → ℤ → ℤ
a -ℤ b = sub_ℕ (pos_part a + neg_part b) (neg_part a + pos_part b)

abbrev pub two63 : ℕ
two63 = 9223372036854775808

abbrev pub two64 : ℕ
two64 = 18446744073709551616

-- A bit pattern read as an `int64`.
abbrev signed : ℕ → ℤ
signed m = if ltb m two63 then pos m else negsuc (two64 - m - 1)

-- The `int64` that an integer wraps round to.
abbrev pub wrap64 : ℤ → ℤ
wrap64 (pos n) = signed (n % two64)
wrap64 (negsuc n) = signed (two64 - 1 - n % two64)

leb_cases : (a b : ℕ) → (leb a b ≡ true) ⊎ ((leb a b ≡ false) × (b < a))
leb_cases a b = ground arith

-- A number of 63 bits is not changed.
pub wrap64_small : (n : ℕ) → n < two63 → wrap64 (pos n) ≡ pos n
wrap64_small n h = let same : n % two64 ≡ n = omega arith in rw same (ground arith)

pub add-pos : (a b : ℕ) → pos a +ℤ pos b ≡ pos (a + b)
add-pos a b = ground arith

pub pos_injective : (a b : ℕ) → pos a ≡ pos b → a ≡ b
pos_injective a b h = cc

signed-lt : (m : ℕ) → signed m <ℤ pos two63
signed-lt m = ground arith

-- What wraps round is an `int64`.
pub wrap64-lt : (z : ℤ) → wrap64 z <ℤ pos two63
wrap64-lt (pos n) = signed-lt (n % two64)
wrap64-lt (negsuc n) = signed-lt (two64 - 1 - n % two64)

sub-pos_le : (a b : ℕ) → b ≤ a → pos a -ℤ pos b ≡ pos (a - b)
sub-pos_le a b h = ground arith

sub-pos_lt : (a b : ℕ) → a < b → pos a -ℤ pos b ≡ negsuc (b - a - 1)
sub-pos_lt a b h = ground arith

wrap64_negsuc : (n : ℕ) → n < two63 → wrap64 (negsuc n) ≡ negsuc n
wrap64_negsuc n h =
    let same : n % two64 ≡ n = omega arith in
    let back : two64 - (two64 - 1 - n) - 1 ≡ n = omega arith in
    let big : ltb (two64 - 1 - n) two63 ≡ false = ground arith in rw same (rw (big, back) refl)

-- The difference of two numbers of 63 bits is not changed.
pub wrap64_sub : (a b : ℕ) → a < two63 → b < two63 → wrap64 (pos a -ℤ pos b) ≡ pos a -ℤ pos b
wrap64_sub a b ha hb = elim (leb_cases b a) [
  | inl e ↦
      let same = sub-pos_le a b (ground arith) in
      ap wrap64 same ∙ wrap64_small (a - b) (omega arith) ∙ sym same
  | inr (e, lt) ↦
      let same = sub-pos_lt a b lt in
      ap wrap64 same ∙ wrap64_negsuc (b - a - 1) (omega arith) ∙ sym same
]

pub add-sub : (a b : ℕ) → pos b +ℤ (pos a -ℤ pos b) ≡ pos a
add-sub a b = ground arith
