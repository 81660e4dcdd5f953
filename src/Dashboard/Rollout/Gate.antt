-- ===== src/Dashboard/Rollout/Gate.antt =====
-- cmd/dashboard/rollout.go: what has to happen before an advance reports a rollout as completed.
pub mod Branches
use proxy_manager.Prelude.{
  ℕ, suc, ◌-◌, ◌≡◌, ◌≢◌, ◌∙◌, refl, sym, ap, subst, Bool, true, false, ◌&&◌, Option, none, some,
  Bytes, bytes_eq, nat_eq, leb, if◌then◌else◌, arith,
}
use proxy_manager.Prelude.Assoc.{lookup, insert, lookup-insert}
use proxy_manager.Prelude.Results.{Result, ok, err}
use proxy_manager.Dashboard.Rollout.Steps.{RolloutError, docker_error, ceil_pct, no_active_rollout}
use proxy_manager.Dashboard.Rollout.{
  completed, failed, RolloutState, rollout_active, Substrate, Rollouts, Manager, Step, after, ◌>>=◌,
  pure, fail, attempt, docker, changed, is_some, set_status, rolling, failure_text, check_health,
  scale_canary_to, scale_live_to, promote, rollback_containers, auto_rollback,
}
use proxy_manager.Dashboard.Rollout.Control.{
  outcome, promote_now, fill_result, fill_and_promote, next_step, ramp_up, step_at, at_last_step,
  go_on, advance_healthy, on_health, do_advance, if_active, advance_rollout,
}
use proxy_manager.Dashboard.Rollout.Tracked.{
  Frames-docker, Frames-check_health, Frames-scale_canary_to, Frames-scale_live_to,
}
use proxy_manager.Dashboard.Rollout.Progress.{same_rollouts}
use proxy_manager.Dashboard.Rollout.Tracked.Kept.{AllTracked}
use proxy_manager.Dashboard.Rollout.Gate.Branches.{
  Promoted, OnlyWith, auto_rollback-OnlyWith, advance_healthy-OnlyWith,
}

module _ {W : Type 0} (sub : Substrate W) where
  -- The health check of the service answered that every canary is healthy.
  pub record Healthy (name : Bytes) (s : Manager W) : Type 0 where
    pub reason : Bytes
    pub checked : Manager W
    pub passed : check_health sub name s ≡ (ok (true, reason), checked)

  -- The check of `s` passed, and the promote began where the check had ended.
  pub record AfterCheck (name : Bytes) (s s' : Manager W) : Type 0 where
    pub sound : Healthy name s
    pub promoted : Promoted sub name sound.checked s'

  do_advance-OnlyWith :
      (st : RolloutState) (s : Manager W)
      → lookup st.service s.rollouts ≡ some st
      → rollout_active st.status ≡ true
      → OnlyWith sub (AfterCheck st.service s) (do_advance sub st s)
  unfolding do_advance
  do_advance-OnlyWith st s found active = ends (check_health sub st.service s) refl
    where
      known :
          (a : Bool × Bytes) (s' : Manager W)
          → check_health sub st.service s ≡ (ok a, s')
          → lookup st.service s'.rollouts ≡ some st
      known a s' e =
          ap (lookup st.service) (
            same_rollouts (check_health sub st.service) s s' a (Frames-check_health sub st.service)
              e)
          ∙ found

      ends :
          (r : Result Bytes (Bool × Bytes) × Manager W)
          → check_health sub st.service s ≡ r
          → OnlyWith sub (AfterCheck st.service s) (
              after
                (on_health sub st)
                (λ e s'. (err e, s'))
                (after {B = Result RolloutError (Bool × Bytes) × Manager W}
                  (λ a s'. (ok a, s'))
                  (λ e s'. (err (docker_error e), s'))
                  r))
      ends (ok (true, reason), s') e x h done = record {
        sound = record { reason = reason; checked = s'; passed = e };
        promoted = advance_healthy-OnlyWith sub st s' (known (true, reason) s' e) active x h done;
      }
      ends (ok (false, reason), s') e x h done =
          auto_rollback-OnlyWith sub (AfterCheck st.service s) st reason s' x h done
      ends (err z, s') e x h done = cc

  -- An advance reports a rollout as completed only if the health check that it began with found every
  -- canary healthy, and then a promote of the service went through, in the state that the check left
  -- or the one that a scaling of the canary led to from there, with no further call of Docker.
  pub advance-completed :
      (name : Bytes) (s s' : Manager W) (x : RolloutState)
      → AllTracked s.rollouts
      → advance_rollout sub name s ≡ (ok (some x), s')
      → x.status ≡ completed
      → AfterCheck name s s'
  unfolding advance_rollout
  advance-completed name s s' x all h done =
      subst (AfterCheck name s) (ap (λ r. r.1) h)
        (tracked (lookup name s.rollouts) refl (ap (λ r. r.0) h))
    where
      active :
          (st : RolloutState) (b : Bool)
          → lookup name s.rollouts ≡ some st
          → rollout_active st.status ≡ b
          → ((if b then do_advance sub st else fail (no_active_rollout name)) s).0 ≡ ok (some x)
          → AfterCheck name s ((if b then do_advance sub st else fail (no_active_rollout name)) s).1
      active st false found e k = cc
      active st true found e k =
          let own = (all name st found).own in
          subst (λ n. AfterCheck n s (do_advance sub st s).1) own
            (do_advance-OnlyWith st s (subst (λ n. lookup n s.rollouts ≡ some st) (sym own) found) e
              x k done)

      tracked :
          (o : Option RolloutState)
          → lookup name s.rollouts ≡ o
          → (if_active name (do_advance sub) o s).0 ≡ ok (some x)
          → AfterCheck name s (if_active name (do_advance sub) o s).1
      tracked none found k = cc
      tracked (some st) found k = active st (rollout_active st.status) found refl k
