-- ===== src/Coreserver/Warm/Interval.antt =====
-- The interval of the object that a request asks for.
use mathlib.Core.Path.{subst}
use pulsys.Common.{
  ℕ, ◌<◌, false, [], ◌∷◌, Option, none, some, Bytes, ℤ, pos, negsuc, ◌≤ℤ◌, ◌<ℤ◌, ltbℤ, two63, ◌≡◌,
  ◌≢◌, refl, sym, ap, ◌∙◌, arith, guard-eq-some, bind-eq-some,
}
use pulsys.Cache.Ranges.{parse_single_range}
use pulsys.Cache.Ranges.Bounds.{parse_single_range_start, parse_single_range-lt}
use pulsys.Coreserver.Warm.{known_total, wanted_interval}

-- The interval that a request asks for: the whole object, or the range of its Range header.
pub data Asks (range : Bytes) (total : Option ℤ) (start stop : ℕ) : Type 0 where
  whole : range ≡ [] → start ≡ 0 → total ≡ some (pos stop) → Asks range total start stop
  part :
      range ≢ []
      → parse_single_range range (known_total total) ≡ some (pos start, pos stop)
      → Asks range total start stop

nonneg_small : (z : ℤ) → pos 0 ≤ℤ z → z <ℤ pos two63 → (n : ℕ) × (z ≡ pos n) × (n < two63)
nonneg_small (pos n) lo hi = (n, refl, omega arith)
nonneg_small (negsuc n) lo hi = absurd (omega arith)

-- The interval that the code takes is the one that is asked for, of numbers below 2^63.
pub record Interval (range : Bytes) (total : Option ℤ) (start stop : ℤ) : Type 0 where
  pub first : ℕ
  pub last : ℕ
  pub is_first : start ≡ pos first
  pub is_last : stop ≡ pos last
  pub first_fits : first < two63
  pub last_fits : last < two63
  pub asked : Asks range total first last

total-known : (total : Option ℤ) (n : ℕ) → known_total total ≡ pos n → total ≡ some (pos n)
unfolding known_total
total-known none n h = cc
total-known (some t) n h = ap (λ t. some t) h

pub Interval-wanted :
    (range : Bytes) (total : Option ℤ) (start stop : ℤ)
    → known_total total <ℤ pos two63
    → wanted_interval range (known_total total) ≡ some (start, stop)
    → Interval range total start stop
unfolding wanted_interval
Interval-wanted [] total start stop small h =
    let (test, h1) = guard-eq-some (ltbℤ (known_total total) (pos 0)) _ h in
    let at : pos 0 ≡ start = cc in
    let end : known_total total ≡ stop = cc in
    let (n, same, fits) = nonneg_small (known_total total) (ground arith) small in
    record {
      first = 0;
      last = n;
      is_first = sym at;
      is_last = sym end ∙ same;
      first_fits = omega arith;
      last_fits = fits;
      asked = whole refl refl (total-known total n same);
    }
Interval-wanted (c ∷ s) total start stop small h =
    let ((a, b), parsed, h1) = bind-eq-some (parse_single_range (c ∷ s) (known_total total)) _ h in
    let (test, h2) = guard-eq-some (ltbℤ b (pos 0)) _ h1 in
    let at : a ≡ start = cc in
    let end : b ≡ stop = cc in
    let lo = parse_single_range_start (c ∷ s) (known_total total) a b parsed in
    let (hi, hi') = parse_single_range-lt (c ∷ s) (known_total total) a b small parsed in
    let (n, same, fits) = nonneg_small a lo hi in
    let (m, same', fits') = nonneg_small b (ground arith) hi' in
    record {
      first = n;
      last = m;
      is_first = sym at ∙ same;
      is_last = sym end ∙ same';
      first_fits = fits;
      last_fits = fits';
      asked =
          part (λ e. cc)
            (parsed ∙ ap (λ p. some p) (ap (λ x. (x, b)) same ∙ ap (λ y. (pos n, y)) same'));
    }

nonneg-test : (n : ℕ) → ltbℤ (pos n) (pos 0) ≡ false
nonneg-test n = ground arith

pub wanted_interval-asked :
    (range : Bytes) (total : Option ℤ) (start stop : ℕ)
    → Asks range total start stop
    → wanted_interval range (known_total total) ≡ some (pos start, pos stop)
unfolding wanted_interval known_total
wanted_interval-asked [] total start stop (whole e at known) =
    rw (known, at) (rw (nonneg-test stop) refl)
wanted_interval-asked [] total start stop (part e parsed) = absurd (e refl)
wanted_interval-asked (c ∷ s) total start stop (whole e at known) = cc
wanted_interval-asked (c ∷ s) total start stop (part e parsed) =
    rw (parsed, wanted_interval) (rw (nonneg-test stop) refl)

-- The ends are below 2^63, if the total is.
pub Asks-fits :
    (range : Bytes) (total : Option ℤ) (start stop : ℕ)
    → known_total total <ℤ pos two63
    → Asks range total start stop
    → (start < two63) × (stop < two63)
unfolding known_total
Asks-fits range total start stop small (whole e at known) =
    let size : known_total total ≡ pos stop = ap known_total known in
    let below : pos stop <ℤ pos two63 = subst (λ z. z <ℤ pos two63) size small in
    (omega (arith, at), omega (arith, below))
Asks-fits range total start stop small (part e parsed) =
    let (lo, hi) =
      parse_single_range-lt range (known_total total) (pos start) (pos stop) small parsed in
    (omega (arith, lo), omega (arith, hi))
