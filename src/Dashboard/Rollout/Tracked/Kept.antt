-- ===== src/Dashboard/Rollout/Tracked/Kept.antt =====
-- cmd/dashboard/rollout.go: the well-formedness of the tracked rollouts.
use proxy_manager.Prelude.{
  ℕ, ◌<◌, ◌≤◌, ◌≡◌, refl, sym, subst, [], Option, none, some, Bytes, bytes_eq, nat_eq, ◌==◌, length,
  Bool-cases, inl, inr, arith,
}
use proxy_manager.Prelude.Assoc.{lookup, insert, lookup-insert}
use proxy_manager.Prelude.Results.{Result, ok, err}
use proxy_manager.Dashboard.Rollout.Steps.{RolloutError, validate_rollout_steps}
use proxy_manager.Dashboard.Rollout.{
  RolloutStatus, RolloutState, Substrate, Rollouts, Manager, Step, after, ◌>>=◌, attempt, changed,
  set_status, rolling, failed, completed, failure_text, scale_canary_to, promote,
  rollback_containers, auto_rollback,
}
use proxy_manager.Dashboard.Rollout.Control.{outcome, promote_now, fill_result, fill_and_promote}
use proxy_manager.Dashboard.Rollout.Tracked.{
  Frames, Frames-attempt, Frames-scale_canary_to, Frames-promote, Frames-rollback_containers,
}

-- A rollout that is tracked under a name: it is of that service, ramps through valid steps and stands
-- at one of them, and began with a live replica.
pub record IsTracked (name : Bytes) (r : RolloutState) : Type 0 where
  pub own : r.service ≡ name
  pub ramp : validate_rollout_steps r.steps ≡ ok tt
  pub within : r.step_idx < length r.steps
  pub had_live : 1 ≤ r.orig_live_replicas

abbrev pub AllTracked : Rollouts → Type 0
AllTracked rs = (name : Bytes) (r : RolloutState) → lookup name rs ≡ some r → IsTracked name r

pub insert-AllTracked :
    (rs : Rollouts) (name : Bytes) (r : RolloutState)
    → AllTracked rs
    → IsTracked name r
    → AllTracked (insert name r rs)
insert-AllTracked rs name r all own j x h = elim (Bool-cases (name == j)) [
  | inl hit ↦
      let written = lookup-insert name j r rs in
      let value : r ≡ x = ground (arith, h, hit, written) in
      subst (λ i. IsTracked i x) ((bytes_eq.eq_test_iff name j).0 hit)
        (subst (IsTracked name) value own)
  | inr miss ↦ let kept = lookup-insert name j r rs in all j x (ground (arith, h, miss, kept))
]

pub changed-AllTracked :
    (rs : Rollouts) (name : Bytes) (f : RolloutState → RolloutState) (o : Option RolloutState)
    → lookup name rs ≡ o
    → AllTracked rs
    → ((r : RolloutState) → o ≡ some r → IsTracked name r → IsTracked name (f r))
    → AllTracked (changed name f rs o)
changed-AllTracked rs name f none e all keeps = all
changed-AllTracked rs name f (some r) e all keeps =
    insert-AllTracked rs name (f r) all (keeps r refl (all name r e))

pub status_keeps :
    (name : Bytes) (status : RolloutStatus) (e : Bytes) (r : RolloutState)
    → IsTracked name r
    → IsTracked name (set_status status e r)
status_keeps name status e r t = record {
  own = t.own;
  ramp = t.ramp;
  within = t.within;
  had_live = t.had_live;
}

pub rolling_keeps :
    (name : Bytes) (r : RolloutState) → IsTracked name r → IsTracked name (rolling r)
rolling_keeps name r t = record {
  own = t.own;
  ramp = t.ramp;
  within = t.within;
  had_live = t.had_live;
}

pub set_status-Keeps :
    (name : Bytes) (f : RolloutState → RolloutState)
    → ((r : RolloutState) → IsTracked name r → IsTracked name (f r))
    → (rs : Rollouts) → AllTracked rs
    → AllTracked (changed name f rs (lookup name rs))
set_status-Keeps name f keeps rs all =
    changed-AllTracked rs name f (lookup name rs) refl all (λ r e t. keeps r t)

outcome_keeps :
    (name : Bytes) (o : Result Bytes (Unit {0})) (r : RolloutState)
    → IsTracked name r
    → IsTracked name (outcome o r)
outcome_keeps name (ok u) r t = status_keeps name completed [] r t
outcome_keeps name (err e) r t = status_keeps name failed e r t

module _ {W : Type 0} where
  -- After a step that leaves the rollouts alone.
  pub frames_then :
      (P Q : Rollouts → Type 0) {E A B : Type 0} (m : Step W E A) (f : A → Step W E B)
      → Frames m
      → ((a : A) (s : Manager W) → P s.rollouts → Q (f a s).1.rollouts)
      → ((rs : Rollouts) → P rs → Q rs)
      → (s : Manager W) → P s.rollouts
      → Q ((m >>= f) s).1.rollouts
  frames_then P Q {E} {A} {B} m f fm ff weaker s p = ends (m s) (fm s)
    where
      ends :
          (r : Result E A × Manager W)
          → r.1.rollouts ≡ s.rollouts
          → Q (after f (λ e s'. (err e, s')) r).1.rollouts
      ends (ok a, s') e = ff a s' (subst P (sym e) p)
      ends (err x, s') e = weaker s'.rollouts (subst P (sym e) p)

  -- A step that keeps the rollouts well formed.
  abbrev pub Keeps : {E A : Type 0} → Step W E A → Type 0
  Keeps m = (s : Manager W) → AllTracked s.rollouts → AllTracked (m s).1.rollouts

  pub auto_rollback-Keeps :
      (sub : Substrate W) (st : RolloutState) (reason : Bytes) → Keeps (auto_rollback sub st reason)
  unfolding auto_rollback
  auto_rollback-Keeps sub st reason s all =
      frames_then AllTracked AllTracked (attempt (rollback_containers sub st)) _
        (Frames-attempt RolloutError (rollback_containers sub st)
          (Frames-rollback_containers sub st))
        (λ r s'.
          set_status-Keeps st.service (set_status failed (failure_text reason r))
            (status_keeps st.service failed (failure_text reason r)) s'.rollouts)
        (λ rs a. a)
        (record s {
          rollouts = changed st.service rolling s.rollouts (lookup st.service s.rollouts);
        })
        (set_status-Keeps st.service rolling (rolling_keeps st.service) s.rollouts all)

  pub promote_now-Keeps : (sub : Substrate W) (st : RolloutState) → Keeps (promote_now sub st)
  unfolding promote_now
  promote_now-Keeps sub st =
      frames_then AllTracked AllTracked (attempt (promote sub st.service)) _
        (Frames-attempt RolloutError (promote sub st.service) (Frames-promote sub st.service))
        (λ r s'. set_status-Keeps st.service (outcome r) (outcome_keeps st.service r) s'.rollouts)
        (λ rs a. a)

  pub fill_and_promote-Keeps :
      (sub : Substrate W) (st : RolloutState) (n : ℕ) → Keeps (fill_and_promote sub st n)
  unfolding fill_and_promote
  fill_and_promote-Keeps sub st n =
      frames_then AllTracked AllTracked (attempt (scale_canary_to sub st.service n))
        (fill_result sub st)
        (Frames-attempt RolloutError (scale_canary_to sub st.service n)
          (Frames-scale_canary_to sub st.service n))
        either (λ rs a. a)
    where
      either : (r : Result Bytes (Unit {0})) → Keeps (fill_result sub st r)
      either (ok u) = promote_now-Keeps sub st
      either (err e) = λ s.
          set_status-Keeps st.service (set_status failed e) (status_keeps st.service failed e)
            s.rollouts
