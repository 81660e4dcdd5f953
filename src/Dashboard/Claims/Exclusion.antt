-- ===== src/Dashboard/Claims/Exclusion.antt =====
-- cmd/dashboard/rollingop.go: `serviceClaims` over whole sequences of calls.
use proxy_manager.Prelude.{
  ◌≡◌, ◌≢◌, refl, sym, ap, subst, ◌∙◌, Bool, true, false, List, [], ◌∷◌, Option, none, some, Bytes,
  bytes_eq, ◌==◌, ◌||◌, ◌&&◌, if◌then◌else◌, All, Bool-cases, inl, inr, arith,
}
use proxy_manager.Prelude.Assoc.{lookup}
use proxy_manager.Prelude.Options.{◌>>=◌}
use proxy_manager.Dashboard.Claims.{
  ServiceClaims, no_claims, owners, or_nobody, taken_by_other, with_claim, holder, try_claim,
}
use proxy_manager.Dashboard.Claims.Lock.{
  Table, set_holder, ClaimOp, claim_op, release_op, transfer_op, lock_step, lock_run, claims_step,
  Represents, claims_step-Agrees, not_empty,
}

unfoldable pub claims_run : List ClaimOp → ServiceClaims → Option (List Bool × ServiceClaims)
claims_run [] c = some ([], c)
claims_run (op ∷ ops) c = do
  (b, c') ← claims_step op c
  (bs, c'') ← claims_run ops c'
  some (b ∷ bs, c'')

-- A sequence that went through, with the answers and the table of the abstract one.
pub record RunAgrees (r : Option (List Bool × ServiceClaims)) (s : List Bool × Table) : Type 0 where
  pub final : ServiceClaims
  pub ran : r ≡ some (s.0, final)
  pub stands : Represents final s.1

run-Agrees :
    (ops : List ClaimOp) (c : ServiceClaims) (t : Table)
    → Represents c t
    → RunAgrees (claims_run ops c) (lock_run ops t)
unfolding claims_run
run-Agrees [] c t r = record { final = c; ran = refl; stands = r }
run-Agrees (op ∷ ops) c t r =
    let step = claims_step-Agrees op c t r in
    let rest = run-Agrees ops step.next ((lock_step op t).1) step.still in
    record { final = rest.final; ran = rw (step.ran, rest.ran) refl; stands = rest.stands }

-- From the zero value on, every sequence of calls by named owners goes through without a panic, and
-- answers as a table of locks does that starts with no service held.
pub claims_run-refines :
    (ops : List ClaimOp) → RunAgrees (claims_run ops no_claims) (lock_run ops (λ j. []))
unfolding holder
claims_run-refines ops =
    run-Agrees ops no_claims (λ j. []) (record { same = λ j. refl; named = λ j o h. cc })

-- The calls by which an owner gives a service up.
abbrev pub gives_up : Bytes → Bytes → ClaimOp → Bool
gives_up svc a (claim_op s o n) = false
gives_up svc a (release_op s o n) = s == svc && o == a
gives_up svc a (transfer_op s from to n k) = s == svc && from == a

abbrev table_of : Bool × Table → Table
table_of r = r.1

abbrev answer_of : Bool × ServiceClaims → Bool
answer_of r = r.0

module _ (svc a : Bytes) where
  branch_keeps :
      (test : Bool) (x y : Bool × Table)
      → x.1 svc ≡ a
      → y.1 svc ≡ a
      → (if test then x else y).1 svc ≡ a
  branch_keeps true x y p q = p
  branch_keeps false x y p q = q

  -- A service that another holds is not the caller's.
  refused : (t : Table) (s o : Bytes) → s ≡ svc → t svc ≡ a → (o == a) ≡ false → (t s == o) ≡ false
  refused t s o same held other = elim (Bool-cases (t s == o)) [
    | inr kept ↦ kept
    | inl mine ↦
        let owner : o ≡ a = sym ((bytes_eq.eq_test_iff (t s) o).0 mine) ∙ ap t same ∙ held in
        let again = (bytes_eq.eq_test_iff o a).1 owner in cc
  ]

  claim_keeps :
      (t : Table) (s o : Bytes)
      → a ≢ []
      → t svc ≡ a
      → table_of (if t s == [] || t s == o then (true, set_holder t s o) else (false, t)) svc ≡ a
  claim_keeps t s o n held = elim (Bool-cases (s == svc)) [
    | inr other ↦ branch_keeps (t s == [] || t s == o) _ _ (rw other held) held
    | inl same ↦
        let here = (bytes_eq.eq_test_iff s svc).0 same in
        elim (Bool-cases (t s == o)) [
          | inl mine ↦
              branch_keeps (t s == [] || t s == o) _ _
                (rw same (sym ((bytes_eq.eq_test_iff (t s) o).0 mine) ∙ ap t here ∙ held)) held
          | inr theirs ↦ rw (theirs, ap t here ∙ held, not_empty a n) held
        ]
  ]

  -- A release and a transfer by the holder's own name alone take a service from it.
  hand_keeps :
      (t : Table) (s o to : Bytes) (answer : Bool)
      → t svc ≡ a
      → (s == svc && o == a) ≡ false
      → table_of (if t s == o then (true, set_holder t s to) else (answer, t)) svc ≡ a
  hand_keeps t s o to answer held keep = elim (Bool-cases (s == svc)) [
    | inr other ↦ branch_keeps (t s == o) _ _ (rw other held) held
    | inl same ↦
        rw (refused t s o ((bytes_eq.eq_test_iff s svc).0 same) held (ground (arith, keep, same)))
          held
  ]

  step_keeps :
      (op : ClaimOp) (t : Table)
      → a ≢ []
      → gives_up svc a op ≡ false
      → t svc ≡ a
      → (lock_step op t).1 svc ≡ a
  step_keeps (claim_op s o k) t n keep held = claim_keeps t s o n held
  step_keeps (release_op s o k) t n keep held = hand_keeps t s o [] true held keep
  step_keeps (transfer_op s from to j k) t n keep held = hand_keeps t s from to false held keep

  run_keeps :
      (ops : List ClaimOp) (t : Table)
      → a ≢ []
      → All (λ op. gives_up svc a op ≡ false) ops
      → t svc ≡ a
      → (lock_run ops t).1 svc ≡ a
  run_keeps [] t n keep held = held
  run_keeps (op ∷ ops) t n keep held =
      run_keeps ops ((lock_step op t).1) n keep.1 (step_keeps op t n keep.0 held)

-- Another owner's claim of a held service.
claim_refused :
    (c : ServiceClaims) (t : Table) (svc a b : Bytes)
    → Represents c t
    → a ≢ []
    → a ≢ b
    → t svc ≡ a
    → (try_claim c svc b).0 ≡ false
unfolding try_claim holder
claim_refused c t svc a b r n differ held = stored (lookup svc (owners c.owner)) (r.same svc ∙ held)
  where
    stored :
        (x : Option Bytes)
        → or_nobody x ≡ a
        → answer_of (if taken_by_other x b then (false, c) else (true, with_claim svc b c)) ≡ false
    stored none e = absurd (n (sym e))
    stored (some cur) e = elim (Bool-cases (cur == b)) [
      | inl same ↦ absurd (differ (sym e ∙ (bytes_eq.eq_test_iff cur b).0 same))
      | inr other ↦ rw other refl
    ]

-- An owner that a run of calls has made the holder of a service keeps it over every further sequence
-- of calls in which the owner does not give it up: it stays the holder, and no other owner's claim
-- of the service succeeds.
pub claim-exclusive :
    (before after : List ClaimOp) (svc a b : Bytes) (answers : List Bool) (c : ServiceClaims)
    → a ≢ []
    → a ≢ b
    → claims_run before no_claims ≡ some (answers, c)
    → holder c svc ≡ a
    → All (λ op. gives_up svc a op ≡ false) after
    → (later : List Bool) × (c' : ServiceClaims) × (claims_run after c ≡ some (later, c'))
      × (holder c' svc ≡ a)
      × ((try_claim c' svc b).0 ≡ false)
claim-exclusive before after svc a b answers c na differ ran held keep = (
  (lock_run after t).0,
  run.final,
  run.ran,
  run.stands.same svc ∙ kept,
  claim_refused run.final ((lock_run after t).1) svc a b run.stands na differ kept,
)
  where
    first : RunAgrees (claims_run before no_claims) (lock_run before (λ j. []))
    first = claims_run-refines before

    t : Table
    t = (lock_run before (λ j. [])).1

    here : first.final ≡ c
    here = let both = sym first.ran ∙ ran in ground (arith, both)

    r : Represents c t
    r = subst (λ x. Represents x t) here first.stands

    run : RunAgrees (claims_run after c) (lock_run after t)
    run = run-Agrees after c t r

    kept : (lock_run after t).1 svc ≡ a
    kept = run_keeps svc a after t na keep (sym (r.same svc) ∙ held)
