-- ===== src/Common/Options.antt =====
-- What a result of a chain of tests and lookups says of each of them.
use mathlib.Core.Bool.{Bool, true, false, not}
use mathlib.Core.Option.{Option, none, some}
use mathlib.Core.Path.{◌≡◌, refl}
use pulsys.Common.Tests.{if◌then◌else◌}

-- An early return of nothing was not taken.
pub not-guard-eq-some {ℓ} :
    {A : Type ℓ} {a : A} (b : Bool) (next : Option A)
    → (if not b then none else next) ≡ some a
    → (b ≡ true) × (next ≡ some a)
not-guard-eq-some true next h = (refl, h)
not-guard-eq-some false next h = cc

pub guard-eq-some {ℓ} :
    {A : Type ℓ} {a : A} (b : Bool) (next : Option A)
    → (if b then none else next) ≡ some a
    → (b ≡ false) × (next ≡ some a)
guard-eq-some false next h = (refl, h)
guard-eq-some true next h = cc

pub bind-eq-some {ℓ κ} :
    {A : Type ℓ} {B : Type κ} {b : B} (o : Option A) (next : A → Option B)
    → (elim o [ none ↦ none | some a ↦ next a ]) ≡ some b
    → (a : A) × (o ≡ some a) × (next a ≡ some b)
bind-eq-some (some a) next h = (a, refl, h)
bind-eq-some none next h = cc

pub some_injective {ℓ} : {A : Type ℓ} (a b : A) → some a ≡ some b → a ≡ b
some_injective a b h = cc
