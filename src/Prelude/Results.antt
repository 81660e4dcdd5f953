-- ===== src/Prelude/Results.antt =====
-- Errors as values: Go's `(value, error)` and `error`.
use mathlib.Core.Path.{◌≡◌, refl}
use mathlib.Core.Bool.{Bool, true, false}

-- Go's pair of an error and a value, of which only one counts.
pub data Result (Failure Value : Type 0) : Type 0 where
  err : Failure → Result Failure Value
  ok : Value → Result Failure Value

module _ {Failure : Type 0} where
  -- `if err != nil { return err }`, then what follows.
  abbrev pub and_then :
      {V U : Type 0} → (V → Result Failure U) → Result Failure V → Result Failure U
  and_then next (err x) = err x
  and_then next (ok v) = next v

  -- What a chain that succeeds went through.
  pub >>=-eq-ok :
      {V U : Type 0} (first : Result Failure V) (next : V → Result Failure U) {u : U}
      → and_then next first ≡ ok u
      → (v : V) × (first ≡ ok v) × (next v ≡ ok u)
  >>=-eq-ok (err x) next h = cc
  >>=-eq-ok (ok v) next h = (v, refl, h)

  -- `if !test { return e }`
  abbrev pub require : Bool → Failure → Result Failure (Unit {0})
  require passes e = elim passes [ false ↦ err e | true ↦ ok tt ]

  pub require-ok :
      (passes : Bool) (e : Failure) {u : Unit {0}} → require passes e ≡ ok u → passes ≡ true
  require-ok false e h = cc
  require-ok true e h = refl

infixl 5 ◌>>=◌ ◌>>◌
abbrev pub ◌>>=◌ :
    {Failure V U : Type 0} → Result Failure V → (V → Result Failure U) → Result Failure U
first >>= next = and_then next first

abbrev pub ◌>>◌ :
    {Failure U : Type 0} → Result Failure (Unit {0}) → Result Failure U → Result Failure U
first >> rest = and_then (λ done. rest) first
