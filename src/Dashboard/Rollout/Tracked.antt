-- ===== src/Dashboard/Rollout/Tracked.antt =====
-- cmd/dashboard/rollout.go: what a step leaves of the tracked rollouts.
pub mod Kept
pub mod Moves
pub mod Starts
pub mod Runs
use proxy_manager.Prelude.{
  ℕ, zero, suc, ◌+◌, ◌-◌, ◌<◌, ◌≤◌, ◌≡◌, ◌≢◌, ◌∙◌, refl, sym, ap, subst, Bool, true, false, not,
  ◌&&◌, List, [], ◌∷◌, Option, none, some, Bytes, bytes_eq, nat_eq, ◌==◌, ltb, leb, if◌then◌else◌,
  length, get_elem?, Bool-cases, inl, inr, arith,
}
use proxy_manager.Prelude.Assoc.{lookup, insert, lookup-insert}
use proxy_manager.Prelude.Results.{Result, ok, err}
use proxy_manager.Dashboard.Rollout.Steps.{RolloutError, docker_error, validate_rollout_steps}
use proxy_manager.Dashboard.Rollout.{
  RolloutStatus, RolloutState, Onboarded, Substrate, Rollouts, Manager, Step, Call, after, ◌>>=◌,
  ◌>>◌, pure, fail, attempt, docker, call, in_world, refresh, onboarded_svc, changed, when,
  check_health, check_health_of, scale_canary_to, scale_canary_of, scale_live_to, scale_live_of,
  promote, promote_of, discard, discard_of, rollback_containers, rollback_of,
}

-- A step that leaves the rollouts as they were, whether it fails or not.
abbrev pub Frames : {W E A : Type 0} → Step W E A → Type 0
Frames {W} m = (s : Manager W) → (m s).1.rollouts ≡ s.rollouts

module _ {W : Type 0} where
  pub Frames-after :
      {E E' A B : Type 0} (m : Step W E A) (f : A → Step W E' B) (g : E → Step W E' B)
      → Frames m
      → ((a : A) → Frames (f a))
      → ((e : E) → Frames (g e))
      → (s : Manager W) → (after f g (m s)).1.rollouts ≡ s.rollouts
  Frames-after {E} {E'} {A} {B} m f g fm ff fg s = ends (m s) (fm s)
    where
      ends :
          (r : Result E A × Manager W)
          → r.1.rollouts ≡ s.rollouts
          → (after f g r).1.rollouts ≡ s.rollouts
      ends (ok a, s') e = ff a s' ∙ e
      ends (err x, s') e = fg x s' ∙ e

  pub Frames->>= :
      {E A B : Type 0} (m : Step W E A) (f : A → Step W E B)
      → Frames m
      → ((a : A) → Frames (f a))
      → Frames (m >>= f)
  Frames->>= m f fm ff = Frames-after m f (λ e s. (err e, s)) fm ff (λ e s. refl)

  pub Frames-docker : {A : Type 0} (m : Step W Bytes A) → Frames m → Frames (docker m)
  Frames-docker m fm =
      Frames-after m (λ a s. (ok a, s)) (λ e s. (err (docker_error e), s)) fm (λ a s. refl)
        (λ e s. refl)

  pub Frames-attempt :
      (E' : Type 0) {E A : Type 0} (m : Step W E A) → Frames m → Frames (attempt {E' = E'} m)
  Frames-attempt E' m fm =
      Frames-after m (λ a s. (ok (ok a), s)) (λ e s. (ok (err e), s)) fm (λ a s. refl) (λ e s. refl)

  pub Frames-call : {A : Type 0} (f : Call W A) → Frames (call f)
  Frames-call f s = refl

  pub Frames-when : {E : Type 0} (b : Bool) (m : Step W E (Unit {0})) → Frames m → Frames (when b m)
  Frames-when true m fm = fm
  Frames-when false m fm = λ s. refl

  pub Frames-check_health : (sub : Substrate W) (name : Bytes) → Frames (check_health sub name)
  unfolding check_health
  Frames-check_health sub name =
      Frames->>= (onboarded_svc sub name) (check_health_of sub name) (λ s. refl) either
    where
      either : (o : Option Onboarded) → Frames (check_health_of sub name o)
      either none = Frames-call (sub.check_canary name)
      either (some o) = Frames-call (sub.check_onboarded_canary name o.port)

  pub Frames-scale_canary_to :
      (sub : Substrate W) (name : Bytes) (n : ℕ) → Frames (scale_canary_to sub name n)
  unfolding scale_canary_to
  Frames-scale_canary_to sub name n =
      Frames->>= (onboarded_svc sub name) (scale_canary_of sub name n) (λ s. refl) either
    where
      either : (o : Option Onboarded) → Frames (scale_canary_of sub name n o)
      either none = Frames-call (sub.scale_canary name n)
      either (some o) =
          Frames->>= (call (sub.scale_onboarded_canary name n)) (λ u. refresh sub)
            (Frames-call (sub.scale_onboarded_canary name n)) (λ u s. refl)

  pub Frames-scale_live_to :
      (sub : Substrate W) (name : Bytes) (n : ℕ) → Frames (scale_live_to sub name n)
  unfolding scale_live_to
  Frames-scale_live_to sub name zero = λ s. refl
  Frames-scale_live_to sub name (suc n) =
      Frames->>= (onboarded_svc sub name) (scale_live_of sub name (suc n)) (λ s. refl) either
    where
      either : (o : Option Onboarded) → Frames (scale_live_of sub name (suc n) o)
      either none = Frames-call (sub.scale_service name (suc n))
      either (some o) =
          Frames->>= (call (sub.scale_onboarded name (suc n))) (λ u. refresh sub)
            (Frames-call (sub.scale_onboarded name (suc n))) (λ u s. refl)

  pub Frames-promote : (sub : Substrate W) (name : Bytes) → Frames (promote sub name)
  unfolding promote
  Frames-promote sub name =
      Frames->>= (onboarded_svc sub name) (promote_of sub name) (λ s. refl) either
    where
      either : (o : Option Onboarded) → Frames (promote_of sub name o)
      either none = Frames-call (sub.promote_canary name)
      either (some o) =
          Frames->>= (call (sub.promote_onboarded name) >> refresh sub)
            (λ u. call (sub.set_replicas name o.canary_replicas))
            (Frames->>= (call (sub.promote_onboarded name)) (λ u. refresh sub)
              (Frames-call (sub.promote_onboarded name)) (λ u s. refl))
            (λ u. Frames-call (sub.set_replicas name o.canary_replicas))

  Frames-discard : (sub : Substrate W) (name : Bytes) → Frames (discard sub name)
  unfolding discard
  Frames-discard sub name =
      Frames->>= (onboarded_svc sub name) (discard_of sub name) (λ s. refl) either
    where
      either : (o : Option Onboarded) → Frames (discard_of sub name o)
      either none = Frames-call (sub.discard_canary name)
      either (some o) =
          Frames->>= (call (sub.discard_onboarded name)) (λ u. refresh sub)
            (Frames-call (sub.discard_onboarded name)) (λ u s. refl)

  pub Frames-rollback_containers :
      (sub : Substrate W) (st : RolloutState) → Frames (rollback_containers sub st)
  unfolding rollback_containers
  Frames-rollback_containers sub st =
      Frames->>= (onboarded_svc sub st.service) (rollback_of sub st) (λ s. refl) either
    where
      name : Bytes
      name = st.service

      either : (o : Option Onboarded) → Frames (rollback_of sub st o)
      either none =
          Frames->>= (call (sub.count_live_canary name)) _
            (Frames-call (sub.count_live_canary name))
            (λ n.
              Frames->>= (when (ltb 0 n.1) (call (sub.discard_canary name))) _
                (Frames-when (ltb 0 n.1) (call (sub.discard_canary name))
                  (Frames-call (sub.discard_canary name)))
                (λ u. Frames-call (sub.scale_service name st.orig_live_replicas)))
      either (some o) =
          Frames->>= (when o.has_canary (discard sub name)) _
            (Frames-when o.has_canary (discard sub name) (Frames-discard sub name))
            (λ u. Frames-scale_live_to sub name st.orig_live_replicas)
