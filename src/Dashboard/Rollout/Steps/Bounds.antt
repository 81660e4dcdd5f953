-- ===== src/Dashboard/Rollout/Steps/Bounds.antt =====
-- cmd/dashboard/rollout.go: what validateRolloutSteps asks of a ramp, and the counts of ceilPct.
use proxy_manager.Prelude.{
  ℕ, ◌+◌, ◌-◌, ◌*◌, ◌≤◌, ◌<◌, ◌≡◌, ◌↔◌, ◌⊎◌, ap, refl, true, not, ◌||◌, List, [], ◌∷◌, Option, none,
  some, nat_eq, ◌==◌, ltb, leb, length, get_elem?, arith,
}
use proxy_manager.Prelude.Results.{ok, require, >>=-eq-ok, require-ok}
use proxy_manager.Dashboard.Rollout.Steps.{
  invalid_step, not_ascending, check_steps, check_last, validate_rollout_steps, ceil_pct,
}
use native.Mathlib.Nat.{mul-le-mul_left}

-- Percentages above `prev`, each above the one before it, and 100 at most.
abbrev pub Ascending : ℕ → List ℕ → Type 0
Ascending prev [] = Unit {0}
Ascending prev (s ∷ steps) = (prev < s) × ((s ≤ 100) × Ascending s steps)

step_tests :
    (s prev : ℕ)
    → not (s == 0 || ltb 100 s) ≡ true
    → not (leb s prev) ≡ true
    → (prev < s) × (s ≤ 100)
step_tests s prev a b = (ground arith, ground arith)

tests_step :
    (s prev : ℕ)
    → prev < s
    → s ≤ 100
    → (not (s == 0 || ltb 100 s) ≡ true) × (not (leb s prev) ≡ true)
tests_step s prev a b = (ground arith, ground arith)

check_steps-Ascending :
    (prev : ℕ) (steps : List ℕ) → check_steps prev steps ≡ ok tt → Ascending prev steps
unfolding check_steps
check_steps-Ascending prev [] h = tt
check_steps-Ascending prev (s ∷ steps) h =
    let (u, first, h1) = >>=-eq-ok (require (not (s == 0 || ltb 100 s)) (invalid_step s)) _ h in
    let (v, second, h2) = >>=-eq-ok (require (not (leb s prev)) (not_ascending s)) _ h1 in
    let (above, low) = step_tests s prev (require-ok _ _ first) (require-ok _ _ second) in
    (above, (low, check_steps-Ascending s steps h2))

Ascending-check_steps :
    (prev : ℕ) (steps : List ℕ) → Ascending prev steps → check_steps prev steps ≡ ok tt
unfolding check_steps
Ascending-check_steps prev [] a = refl
Ascending-check_steps prev (s ∷ steps) a =
    let (inside, above) = tests_step s prev a.0 a.1.0 in
    rw (inside, above) (Ascending-check_steps s steps a.1.1)

check_last_iff : (o : Option ℕ) → (check_last o ≡ ok tt) ↔ (o ≡ some 100)
check_last_iff none = ((λ h. cc), (λ h. cc))
check_last_iff (some s) = (
  λ h. ap some ((nat_eq.eq_test_iff s 100).0 (require-ok _ _ h)),
  λ h. let same : s ≡ 100 = ground (arith, h) in rw same refl,
)

-- Steps are accepted exactly when they are percentages from 1 to 100, strictly ascending, the last of
-- them 100.
pub validate_rollout_steps_iff :
    (steps : List ℕ)
    → (validate_rollout_steps steps ≡ ok tt)
      ↔ (Ascending 0 steps × (get_elem? steps (length steps - 1) ≡ some 100))
unfolding validate_rollout_steps
validate_rollout_steps_iff steps = (
  λ h.
      let (u, first, last) = >>=-eq-ok (check_steps 0 steps) _ h in
      (check_steps-Ascending 0 steps first, (check_last_iff _).0 last),
  λ h. rw (Ascending-check_steps 0 steps h.0) ((check_last_iff _).1 h.1),
)

-- For a service with a replica and a percentage up to 100, the count of canaries is between 1 and the
-- count of replicas, all of them at 100 per cent; it is at least the percentage, and less than one
-- more than it where it is above 1; and a higher percentage asks for no fewer canaries.
pub ceil_pct_bounds :
    (total p q : ℕ)
    → 1 ≤ total
    → p ≤ q
    → q ≤ 100
    → (1 ≤ ceil_pct total p)
      × (ceil_pct total p ≤ total)
      × (ceil_pct total 100 ≡ total)
      × (total * p ≤ 100 * ceil_pct total p)
      × ((ceil_pct total p ≡ 1) ⊎ (100 * ceil_pct total p < total * p + 100))
      × (ceil_pct total p ≤ ceil_pct total q)
unfolding ceil_pct
ceil_pct_bounds total p q some_live le le_100 =
    let up : total * p ≤ total * q = mul-le-mul_left total le in
    let top : total * q ≤ total * 100 = mul-le-mul_left total le_100 in
    (
      ground (arith, up, top),
      ground (arith, up, top),
      ground arith,
      ground (arith, up, top),
      ground (arith, up, top),
      ground (arith, up, top),
    )
