-- ===== src/Dashboard/Rollout/Examples.antt =====
-- cmd/dashboard/rollout.go on a simulated Docker that counts replicas.
use proxy_manager.Prelude.{
  ℕ, zero, suc, ◌+◌, ◌*◌, ◌≤◌, ◌<◌, ◌≡◌, ◌⊎◌, refl, true, List, [], ◌∷◌, none, some, Bytes,
  bytes_eq, codes, arith,
}
use proxy_manager.Prelude.Assoc.{lookup}
use proxy_manager.Prelude.Results.{Result, ok}
use proxy_manager.Dashboard.Rollout.Steps.{validate_rollout_steps, check_steps, ceil_pct}
use proxy_manager.Dashboard.Rollout.Steps.Bounds.{ceil_pct_bounds}
use proxy_manager.Dashboard.Rollout.{
  RolloutState, completed, ReplaceServiceRequest, Substrate, Manager, rollout_active, check_health,
  scale_canary_to, scale_live_to, promote,
}
use proxy_manager.Dashboard.Rollout.Control.{
  start_rollout, advance_rollout, do_advance, advance_healthy, promote_now, new_rollout,
}
use proxy_manager.Dashboard.Rollout.Tracked.Kept.{AllTracked}
use proxy_manager.Dashboard.Rollout.Tracked.Runs.{
  start_op, advance_op, abort_op, tick_op, run_ops, run_ops-AllTracked,
}
use proxy_manager.Dashboard.Rollout.Progress.{IsWell, Succeeds}
use proxy_manager.Dashboard.Rollout.Completion.{Completes, rollout-Completes}
use proxy_manager.Dashboard.Rollout.Gate.{AfterCheck, advance-completed}

pub record Sim : Type 0 where
  pub serving : ℕ
  pub canary : ℕ

abbrev did : Sim → Result Bytes (Unit {0}) × Sim
did w = (ok tt, w)

abbrev sim : Substrate Sim
sim = record {
  onboarded = λ w name. none;
  count_live_canary = λ name w. (ok (w.serving, w.canary), w);
  check_onboarded_canary = λ name port w. (ok (true, []), w);
  check_canary = λ name w. (ok (true, []), w);
  stage_onboarded_canary = λ name req n w. did w;
  create_canary_replicas = λ name req n w. did (record w { canary = n });
  scale_onboarded_canary = λ name n w. did w;
  scale_canary = λ name n w. did (record w { canary = n });
  scale_onboarded = λ name n w. did w;
  scale_service = λ name n w. did (record w { serving = n });
  promote_onboarded = λ name w. did w;
  promote_canary = λ name w. did (record { serving = w.canary; canary = 0 });
  set_replicas = λ name n w. did w;
  discard_onboarded = λ name w. did w;
  discard_canary = λ name w. did (record w { canary = 0 });
  proxy_refresh = λ w. w;
}

abbrev web : Bytes
web = codes "web"

abbrev request : ReplaceServiceRequest
request = record { image = codes "web:2"; env = []; env_ack = [] }

abbrev four_live : Sim
four_live = record { serving = 4; canary = 0 }

abbrev staged : List ℕ
staged = 25 ∷ 50 ∷ 100 ∷ []

abbrev started : List ℕ → Manager Sim
started steps =
    run_ops sim (start_op 7 web request steps ∷ []) (record { rollouts = []; world = four_live })

started_found :
    lookup web (started staged).rollouts ≡ some (new_rollout web (codes "web:2") staged 4 7)
unfolding start_rollout validate_rollout_steps check_steps ceil_pct scale_live_to rollout_active
started_found = refl

sim-IsWell : IsWell sim
unfolding check_health scale_canary_to scale_live_to promote
sim-IsWell = record {
  passes = λ name s. ([], s, refl);
  scales =
      λ name n s. (tt, record s { world = record { serving = s.world.serving; canary = n } }, refl);
  lives = λ name n s. to_live name n s;
  promotes =
      λ name s. (tt, record s { world = record { serving = s.world.canary; canary = 0 } }, refl);
}
  where
    to_live : (name : Bytes) (n : ℕ) → Succeeds (scale_live_to sim name n)
    to_live name zero = λ s. (tt, s, refl)
    to_live name (suc n) =
        λ s. (tt, record s { world = record { serving = suc n; canary = s.world.canary } }, refl)

ceil_pct_bounds_example :
    (1 ≤ ceil_pct 3 25)
    × (ceil_pct 3 25 ≤ 3)
    × (ceil_pct 3 100 ≡ 3)
    × (3 * 25 ≤ 100 * ceil_pct 3 25)
    × ((ceil_pct 3 25 ≡ 1) ⊎ (100 * ceil_pct 3 25 < 3 * 25 + 100))
    × (ceil_pct 3 25 ≤ ceil_pct 3 50)
ceil_pct_bounds_example = ceil_pct_bounds 3 25 50 (omega arith) (omega arith) (omega arith)

run_ops-AllTracked_example :
    AllTracked
      (run_ops sim
        (start_op 7 web request staged ∷ advance_op web ∷ tick_op ∷ abort_op web ∷ [])
        (record { rollouts = []; world = four_live })).rollouts
run_ops-AllTracked_example =
    run_ops-AllTracked sim four_live
      (start_op 7 web request staged ∷ advance_op web ∷ tick_op ∷ abort_op web ∷ [])

rollout-Completes_example : Completes sim web 3 (started staged)
unfolding rollout_active
rollout-Completes_example =
    rollout-Completes sim web (new_rollout web (codes "web:2") staged 4 7) (started staged)
      sim-IsWell (run_ops-AllTracked sim four_live (start_op 7 web request staged ∷ []))
      started_found refl

abbrev all_at_once : RolloutState
all_at_once = record (new_rollout web (codes "web:2") (100 ∷ []) 4 7) { status = completed }

abbrev promoted : Manager Sim
promoted = record { rollouts = (web, all_at_once) ∷ []; world = record { serving = 4; canary = 0 } }

promotes_at_once : advance_rollout sim web (started (100 ∷ [])) ≡ (ok (some all_at_once), promoted)
unfolding start_rollout validate_rollout_steps check_steps ceil_pct scale_live_to rollout_active
    advance_rollout do_advance advance_healthy promote_now check_health promote
promotes_at_once = refl

advance-completed_example : AfterCheck sim web (started (100 ∷ [])) promoted
advance-completed_example =
    advance-completed sim web (started (100 ∷ [])) promoted all_at_once
      (run_ops-AllTracked sim four_live (start_op 7 web request (100 ∷ []) ∷ [])) promotes_at_once
      refl
