-- ===== src/Prelude/Options.antt =====
-- Chains of lookups: Go's `value, ok` and `if err != nil { return }` where the error's text is lost.
use mathlib.Core.Path.{◌≡◌, refl}
use mathlib.Core.Bool.{Bool, true, false}
use mathlib.Core.Option.{Option, none, some}

infixl 5 ◌>>=◌
abbrev pub ◌>>=◌ {ℓ κ} : {A : Type ℓ} {B : Type κ} → Option A → (A → Option B) → Option B
none >>= f = none
some a >>= f = f a

-- `if !test { return nil, false }`
abbrev pub guard {ℓ} : {A : Type ℓ} → Bool → A → Option A
guard true a = some a
guard false a = none

pub >>=-eq-some {ℓ κ} :
    {A : Type ℓ} {B : Type κ} (m : Option A) (f : A → Option B) {b : B}
    → (m >>= f) ≡ some b
    → (a : A) × (m ≡ some a) × (f a ≡ some b)
>>=-eq-some none f h = cc
>>=-eq-some (some a) f h = (a, refl, h)

pub guard-some {ℓ} :
    {A : Type ℓ} (t : Bool) (a : A) {b : A} → guard t a ≡ some b → (t ≡ true) × (a ≡ b)
guard-some true a h = (refl, mathlib.Core.Option.some-injective _ _ h)
guard-some false a h = cc
