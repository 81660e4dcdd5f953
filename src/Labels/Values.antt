-- ===== src/Labels/Values.antt =====
-- internal/labels/labels.go: what ValidateValue answers.
use proxy_manager.Prelude.{
  ℕ, ◌≤◌, ◌≡◌, ◌≢◌, ◌↔◌, refl, Bool, true, false, not, ◌&&◌, ◌||◌, List, [], ◌∷◌, Option, none,
  some, Bytes, bytes_eq, nat_eq, ◌==◌, leb, leb→le, le→leb, length, all, Bool-cases, Option-cases,
  inl, inr, arith,
}
use proxy_manager.Prelude.Assoc.{lookup}
use proxy_manager.Prelude.Results.{Result, ok, err, ◌>>◌, require, >>=-eq-ok, require-ok}
use proxy_manager.Labels.{
  Spec, registry, is_live, live_spec, managed, key_error, validate_value, validator_of,
  run_validator, is_some, LabelError, nil_validator, bad_value, empty_value, too_long,
  control_chars, lookup_label,
}
use proxy_manager.Labels.Validators.{is_nonempty, has_control, max_value_bytes}

-- A live key comes with its validator.
abbrev is_complete : Spec → Bool
is_complete s = not (is_live s.class) || is_some s.validate

lookup-all :
    (p : Spec → Bool) (k : Bytes) (s : Spec) (m : List (Bytes × Spec))
    → all (λ e. p e.1) m ≡ true
    → lookup k m ≡ some s
    → p s ≡ true
lookup-all p k s [] h found = cc
lookup-all p k s ((j, t) ∷ m) h found = elim (Bool-cases (j == k)) [
  | inl same ↦
      let value : t ≡ s = ground (arith, found, same) in
      let first : p t ≡ true = and_first (p t) _ h in rw (← value) first
  | inr other ↦ lookup-all p k s m (and_second (p t) _ h) (ground (arith, found, other))
]
  where
    and_first : (a b : Bool) → (a && b) ≡ true → a ≡ true
    and_first true b h = refl
    and_first false b h = cc

    and_second : (a b : Bool) → (a && b) ≡ true → b ≡ true
    and_second true b h = h
    and_second false b h = cc

registry_complete :
    (pd : Bytes → Option (Bool × ℕ)) → all (λ e. is_complete e.1) (registry pd) ≡ true
unfolding registry is_live
registry_complete pd = refl

require-ne :
    {E : Type 0} (b : Bool) (e x : E) (m : Result E (Unit {0}))
    → e ≢ x
    → m ≢ err x
    → (require b e >> m) ≢ err x
require-ne true e x m h k = k
require-ne false e x m h k = λ same. h (err_same e x same)
  where
    err_same : {E : Type 0} (e x : E) → ◌≡◌ {A = Result E (Unit {0})} (err e) (err x) → e ≡ x
    err_same e x h = ground (arith, h)

key_error-ne-nil :
    (pd : Bytes → Option (Bool × ℕ)) (key : Bytes) → key_error pd key ≢ nil_validator key
unfolding key_error
key_error-ne-nil pd key = elim (Option-cases (lookup_label pd key)) [
  | inl missing ↦ rw missing (λ h. cc)
  | inr (s, found) ↦ rw found (λ h. cc)
]

-- What ValidateValue asks of a key and a value.
pub record Accepts (pd : Bytes → Option (Bool × ℕ)) (key value : Bytes) : Type 0 where
  pub spec : Spec
  pub validator : Bytes → Bool
  pub listed : lookup key (registry pd) ≡ some spec
  pub settable : is_live spec.class ≡ true
  pub own : spec.validate ≡ some validator
  pub nonempty : is_nonempty value ≡ true
  pub short : length value ≤ max_value_bytes
  pub clean : has_control value ≡ false
  pub good : validator value ≡ true

validate_value-ne-nil :
    (pd : Bytes → Option (Bool × ℕ)) (key value : Bytes)
    → validate_value pd key value ≢ err (nil_validator key)
unfolding validate_value managed
validate_value-ne-nil pd key value = elim (Bool-cases (live_spec (lookup key (registry pd)))) [
  | inr fixed ↦ rw fixed (λ h. key_error-ne-nil pd key (err_inner h))
  | inl live ↦ rw live (
      require-ne (is_nonempty value) (empty_value key) (nil_validator key) _ (λ h. cc)
        (require-ne (leb (length value) max_value_bytes) (too_long key) (nil_validator key) _
          (λ h. cc)
          (require-ne (not (has_control value)) (control_chars key) (nil_validator key) _ (λ h. cc)
            (runs (lookup key (registry pd)) refl live))))
]
  where
    err_inner : {e x : LabelError} → ◌≡◌ {A = Result LabelError (Unit {0})} (err e) (err x) → e ≡ x
    err_inner h = ground (arith, h)

    judged : (b : Bool) → require b (bad_value key) ≢ err (nil_validator key)
    judged true = λ h. cc
    judged false = λ h. cc

    run_some :
        (o : Option (Bytes → Bool))
        → is_some o ≡ true
        → run_validator key value o ≢ err (nil_validator key)
    run_some (some v) e = judged (v value)
    run_some none e = cc

    own : (s : Spec) → is_live s.class ≡ true → is_complete s ≡ true → is_some s.validate ≡ true
    own s live c = cases (is_live s.class) (is_some s.validate) live c
      where
        cases : (a b : Bool) → a ≡ true → (not a || b) ≡ true → b ≡ true
        cases true b l c = c
        cases false b l c = cc

    runs :
        (o : Option Spec)
        → lookup key (registry pd) ≡ o
        → live_spec o ≡ true
        → run_validator key value (validator_of o) ≢ err (nil_validator key)
    runs none e live = cc
    runs (some s) e live =
        run_some s.validate
          (own s live (lookup-all is_complete key s (registry pd) (registry_complete pd) e))

accepted-Accepts :
    (pd : Bytes → Option (Bool × ℕ)) (key value : Bytes)
    → validate_value pd key value ≡ ok tt
    → Accepts pd key value
unfolding validate_value managed
accepted-Accepts pd key value h =
    let (_, live, h1) = >>=-eq-ok (require (managed pd key) (key_error pd key)) _ h in
    let (_, present, h2) = >>=-eq-ok (require (is_nonempty value) (empty_value key)) _ h1 in
    let (_, short, h3) =
      >>=-eq-ok (require (leb (length value) max_value_bytes) (too_long key)) _ h2 in
    let (_, clean, h4) = >>=-eq-ok (require (not (has_control value)) (control_chars key)) _ h3 in
    from_spec (lookup key (registry pd)) refl (require-ok _ _ live) (require-ok _ _ present)
      (leb→le _ _ (require-ok _ _ short)) (not_true (has_control value) (require-ok _ _ clean)) h4
  where
    not_true : (b : Bool) → not b ≡ true → b ≡ false
    not_true false e = refl
    not_true true e = cc

    from_validator :
        (s : Spec) (o : Option (Bytes → Bool))
        → s.validate ≡ o
        → lookup key (registry pd) ≡ some s
        → is_live s.class ≡ true
        → is_nonempty value ≡ true
        → length value ≤ max_value_bytes
        → has_control value ≡ false
        → run_validator key value o ≡ ok tt
        → Accepts pd key value
    from_validator s none own listed live present short clean good = cc
    from_validator s (some v) own listed live present short clean good = record {
      spec = s;
      validator = v;
      listed = listed;
      settable = live;
      own = own;
      nonempty = present;
      short = short;
      clean = clean;
      good = require-ok _ _ good;
    }

    from_spec :
        (o : Option Spec)
        → lookup key (registry pd) ≡ o
        → live_spec o ≡ true
        → is_nonempty value ≡ true
        → length value ≤ max_value_bytes
        → has_control value ≡ false
        → run_validator key value (validator_of o) ≡ ok tt
        → Accepts pd key value
    from_spec none e live present short clean good = cc
    from_spec (some s) e live present short clean good =
        from_validator s s.validate refl e live present short clean good

Accepts-accepted :
    (pd : Bytes → Option (Bool × ℕ)) (key value : Bytes)
    → Accepts pd key value
    → validate_value pd key value ≡ ok tt
unfolding validate_value managed
Accepts-accepted pd key value a =
    rw (a.listed, a.settable, a.nonempty, le→leb _ _ a.short, a.clean, a.own, a.good) refl

-- A value is accepted exactly for a key of the registry whose class may be set centrally, when it is
-- not empty, of at most 1024 bytes, free of control characters and passes the key's own validator;
-- and whatever the key and the value, no call of a nil validator is reached.
pub validate_value-Accepts :
    (pd : Bytes → Option (Bool × ℕ)) (key value : Bytes)
    → ((validate_value pd key value ≡ ok tt) ↔ Accepts pd key value)
      × (validate_value pd key value ≢ err (nil_validator key))
validate_value-Accepts pd key value = (
  (accepted-Accepts pd key value, Accepts-accepted pd key value),
  validate_value-ne-nil pd key value,
)
