-- ===== src/Dashboard/Claims/Examples.antt =====
-- cmd/dashboard/rollingop.go: `serviceClaims` on concrete calls.
use proxy_manager.Prelude.{◌≡◌, ◌≢◌, refl, Bool, true, false, List, [], ◌∷◌, some, Bytes, codes}
use proxy_manager.Dashboard.Claims.{ServiceClaims, no_claims, holder, try_claim}
use proxy_manager.Dashboard.Claims.Lock.{ClaimOp, claim_op, release_op, transfer_op, lock_run}
use proxy_manager.Dashboard.Claims.Exclusion.{
  claims_run, RunAgrees, claims_run-refines, claim-exclusive,
}

abbrev web : Bytes
web = codes "web"

abbrev updater : Bytes
updater = codes "autoupdate"

abbrev env_job : Bytes
env_job = codes "env"

updater_named : updater ≢ []
updater_named e = cc

env_job_named : env_job ≢ []
env_job_named e = cc

updater_ne_env_job : updater ≢ env_job
updater_ne_env_job e = cc

abbrev first_calls : List ClaimOp
first_calls = claim_op web updater updater_named ∷ []

abbrev more_calls : List ClaimOp
more_calls = claim_op web env_job env_job_named ∷ release_op web env_job env_job_named ∷ []

abbrev after_first : ServiceClaims
after_first = record { owner = some ((web, updater) ∷ []) }

first_runs : claims_run first_calls no_claims ≡ some (true ∷ [], after_first)
unfolding claims_run try_claim
first_runs = refl

claims_run-refines_example :
    RunAgrees
      (claims_run
        (transfer_op web updater env_job updater_named env_job_named ∷ first_calls)
        no_claims)
      (lock_run
        (transfer_op web updater env_job updater_named env_job_named ∷ first_calls)
        (λ j. []))
claims_run-refines_example =
    claims_run-refines (transfer_op web updater env_job updater_named env_job_named ∷ first_calls)

claim-exclusive_example :
    (later : List Bool) × (c' : ServiceClaims) × (claims_run more_calls after_first
      ≡ some (later, c'))
    × (holder c' web ≡ updater)
    × ((try_claim c' web env_job).0 ≡ false)
unfolding holder
claim-exclusive_example =
    claim-exclusive first_calls more_calls web updater env_job (true ∷ []) after_first updater_named
      updater_ne_env_job first_runs refl (refl, (refl, tt))
