-- ===== src/Dashboard/Rollout/Tracked/Starts.antt =====
-- cmd/dashboard/rollout.go: the well-formedness of the tracked rollouts when one starts.
use proxy_manager.Prelude.{
  ℕ, ◌-◌, ◌<◌, ◌≤◌, ◌≡◌, refl, sym, subst, Bool, true, false, not, List, [], ◌∷◌, Option, none,
  some, Bytes, bytes_eq, nat_eq, ◌==◌, ltb, length, arith,
}
use proxy_manager.Prelude.Assoc.{lookup}
use proxy_manager.Prelude.Results.{Result, ok, err}
use proxy_manager.Dashboard.Rollout.Steps.{
  RolloutError, validate_rollout_steps, ceil_pct, image_required, already_active, managed_only,
  already_has_canary, no_live_replicas,
}
use proxy_manager.Dashboard.Rollout.{
  RolloutState, Onboarded, ReplaceServiceRequest, Substrate, Rollouts, Manager, Step, after, ◌>>=◌,
  ◌>>◌, pure, docker, call, refresh, onboarded_svc, get_rollout, put_rollout, when, scale_live_to,
}
use proxy_manager.Dashboard.Rollout.Control.{
  step_at, refuse, steps_or_default, of_result, is_active, place_onboarded, place_labelled,
  place_live, stage_counted, stage_first, new_rollout, start_rollout,
}
use proxy_manager.Dashboard.Rollout.Tracked.{
  Frames, Frames->>=, Frames-docker, Frames-when, Frames-call, Frames-scale_live_to,
}
use proxy_manager.Dashboard.Rollout.Tracked.Kept.{AllTracked, Keeps, insert-AllTracked, frames_then}

abbrev Good : {A : Type 0} → (A → Type 0) → Result RolloutError A → Type 0
Good V (ok a) = V a
Good V (err e) = Unit {0}

steps_or_default-cons : (given : List ℕ) → 0 < length (steps_or_default given)
steps_or_default-cons [] = omega arith
steps_or_default-cons (s ∷ steps) = omega arith

module _ {W : Type 0} where
  -- What a step that succeeds answers with.
  abbrev Yields : {A : Type 0} → (A → Type 0) → Step W RolloutError A → Type 0
  Yields V m = (s : Manager W) → Good V (m s).0

  Yields->>= :
      {A B : Type 0} (V : B → Type 0) (m : Step W RolloutError A) (f : A → Step W RolloutError B)
      → ((a : A) → Yields V (f a))
      → Yields V (m >>= f)
  Yields->>= {A} {B} V m f yf s = ends (m s)
    where
      ends : (r : Result RolloutError A × Manager W) → Good V (after f (λ e s'. (err e, s')) r).0
      ends (ok a, s') = yf a s'
      ends (err e, s') = tt

  refuse-Yields :
      {B : Type 0} (V : B → Type 0) (b : Bool) (e : RolloutError) (k : Step W RolloutError B)
      → (b ≡ false → Yields V k)
      → Yields V (refuse b e >> k)
  refuse-Yields V true e k y = λ s. tt
  refuse-Yields V false e k y = y refl

  refuse-Frames :
      {B : Type 0} (b : Bool) (e : RolloutError) (k : Step W RolloutError B)
      → Frames k
      → Frames (refuse b e >> k)
  refuse-Frames true e k fk = λ s. refl
  refuse-Frames false e k fk = fk

  place_live-Yields :
      (name : Bytes) (pct orig : ℕ) (place : ℕ → ℕ → Step W RolloutError (Unit {0}))
      → Yields (λ n. 1 ≤ n) (place_live name pct orig place)
  place_live-Yields name pct orig place =
      refuse-Yields (λ n. 1 ≤ n) (orig == 0) (no_live_replicas name)
        (place orig (ceil_pct orig pct) >> pure orig)
        (λ some_live.
          Yields->>= (λ n. 1 ≤ n) (place orig (ceil_pct orig pct)) (λ u. pure orig)
            (λ u s. positive orig some_live))
    where
      positive : (n : ℕ) → (n == 0) ≡ false → 1 ≤ n
      positive n h = ground (arith, h)

  place_live-Frames :
      (name : Bytes) (pct orig : ℕ) (place : ℕ → ℕ → Step W RolloutError (Unit {0}))
      → ((n k : ℕ) → Frames (place n k))
      → Frames (place_live name pct orig place)
  place_live-Frames name pct orig place fp =
      refuse-Frames (orig == 0) (no_live_replicas name)
        (place orig (ceil_pct orig pct) >> pure orig)
        (Frames->>= (place orig (ceil_pct orig pct)) (λ u. pure orig) (fp orig (ceil_pct orig pct))
          (λ u s. refl))

  place_onboarded-Frames :
      (sub : Substrate W) (name : Bytes) (req : ReplaceServiceRequest) (orig n : ℕ)
      → Frames (place_onboarded sub name req orig n)
  place_onboarded-Frames sub name req orig n =
      Frames->>= (docker (call (sub.stage_onboarded_canary name req n)))
        (λ u. refresh sub >> when (ltb n orig) less)
        (Frames-docker _ (Frames-call (sub.stage_onboarded_canary name req n)))
        (λ u.
          Frames->>= (refresh sub) (λ v. when (ltb n orig) less) (λ s. refl)
            (λ v. Frames-when (ltb n orig) less (
              Frames->>= (docker (call (sub.scale_onboarded name (orig - n)))) (λ w. refresh sub)
                (Frames-docker _ (Frames-call (sub.scale_onboarded name (orig - n))))
                (λ w s. refl))))
    where
      less : Step W RolloutError (Unit {0})
      less = docker (call (sub.scale_onboarded name (orig - n))) >> refresh sub

  place_labelled-Frames :
      (sub : Substrate W) (name : Bytes) (req : ReplaceServiceRequest) (orig n : ℕ)
      → Frames (place_labelled sub name req orig n)
  place_labelled-Frames sub name req orig n =
      Frames->>= (docker (call (sub.create_canary_replicas name req n)))
        (λ u. docker (scale_live_to sub name (orig - n)))
        (Frames-docker _ (Frames-call (sub.create_canary_replicas name req n)))
        (λ u.
          Frames-docker (scale_live_to sub name (orig - n))
            (Frames-scale_live_to sub name (orig - n)))

  stage_first-Yields :
      (sub : Substrate W) (name : Bytes) (req : ReplaceServiceRequest) (pct : ℕ)
      (o : Option Onboarded)
      → Yields (λ n. 1 ≤ n) (stage_first sub name req pct o)
  stage_first-Yields sub name req pct (some o) =
      refuse-Yields (λ n. 1 ≤ n) (not o.has_host) (managed_only name)
        (refuse o.has_canary (already_has_canary name) >> placed)
        (λ h.
          refuse-Yields (λ n. 1 ≤ n) o.has_canary (already_has_canary name) placed
            (λ c. place_live-Yields name pct o.replicas (place_onboarded sub name req)))
    where
      placed : Step W RolloutError ℕ
      placed = place_live name pct o.replicas (place_onboarded sub name req)
  stage_first-Yields sub name req pct none =
      Yields->>= (λ n. 1 ≤ n) (docker (call (sub.count_live_canary name)))
        (stage_counted sub name req pct)
        (λ c.
          refuse-Yields (λ n. 1 ≤ n) (ltb 0 c.1) (already_has_canary name)
            (place_live name pct c.0 (place_labelled sub name req))
            (λ h. place_live-Yields name pct c.0 (place_labelled sub name req)))

  Frames-stage_first :
      (sub : Substrate W) (name : Bytes) (req : ReplaceServiceRequest) (pct : ℕ)
      (o : Option Onboarded)
      → Frames (stage_first sub name req pct o)
  Frames-stage_first sub name req pct (some o) =
      refuse-Frames (not o.has_host) (managed_only name)
        (refuse o.has_canary (already_has_canary name) >> placed)
        (refuse-Frames o.has_canary (already_has_canary name) placed (
          place_live-Frames name pct o.replicas (place_onboarded sub name req)
            (place_onboarded-Frames sub name req)))
    where
      placed : Step W RolloutError ℕ
      placed = place_live name pct o.replicas (place_onboarded sub name req)
  Frames-stage_first sub name req pct none =
      Frames->>= (docker (call (sub.count_live_canary name))) (stage_counted sub name req pct)
        (Frames-docker _ (Frames-call (sub.count_live_canary name)))
        (λ c.
          refuse-Frames (ltb 0 c.1) (already_has_canary name)
            (place_live name pct c.0 (place_labelled sub name req))
            (place_live-Frames name pct c.0 (place_labelled sub name req)
              (place_labelled-Frames sub name req)))

  -- After a step that leaves the rollouts alone, with what it answered.
  frames_yield :
      (V : ℕ → Type 0) {B : Type 0} (m : Step W RolloutError ℕ) (f : ℕ → Step W RolloutError B)
      → Frames m
      → Yields V m
      → ((n : ℕ) → V n → Keeps (f n))
      → Keeps (m >>= f)
  frames_yield V {B} m f fm ym kf s all = ends (m s) (fm s) (ym s)
    where
      ends :
          (r : Result RolloutError ℕ × Manager W)
          → r.1.rollouts ≡ s.rollouts
          → Good V r.0
          → AllTracked (after f (λ e s'. (err e, s')) r).1.rollouts
      ends (ok n, s') e v = kf n v s' (subst AllTracked (sym e) all)
      ends (err x, s') e v = subst AllTracked (sym e) all

  refuse_keeps :
      {B : Type 0} (b : Bool) (e : RolloutError) (k : Step W RolloutError B)
      → Keeps k
      → Keeps (refuse b e >> k)
  refuse_keeps true e k kk = λ s all. all
  refuse_keeps false e k kk = kk

  pub start_rollout-Keeps :
      (sub : Substrate W) (now : ℕ) (name : Bytes) (req : ReplaceServiceRequest) (given : List ℕ)
      → Keeps (start_rollout sub now name req given)
  unfolding start_rollout
  start_rollout-Keeps sub now name req given =
      refuse_keeps (req.image == []) image_required _
        (validated (validate_rollout_steps steps) refl)
    where
      steps : List ℕ
      steps = steps_or_default given

      placed : Rollouts → Option Onboarded → Step W RolloutError RolloutState
      placed rs o = do
        pct ← step_at steps 0
        orig ← stage_first sub name req pct o
        put_rollout name (new_rollout name req.image steps orig now)
        pure (new_rollout name req.image steps orig now)

      placed_keeps :
          validate_rollout_steps steps ≡ ok tt
          → (rs : Rollouts) (o : Option Onboarded) → Keeps (placed rs o)
      placed_keeps valid rs o =
          frames_then AllTracked AllTracked (step_at steps 0) _ (λ s. refl)
            (λ pct.
              frames_yield (λ n. 1 ≤ n) (stage_first sub name req pct o) _
                (Frames-stage_first sub name req pct o) (stage_first-Yields sub name req pct o)
                (λ n live s all.
                  insert-AllTracked s.rollouts name (new_rollout name req.image steps n now) all
                    (record {
                      own = refl;
                      ramp = valid;
                      within = steps_or_default-cons given;
                      had_live = live;
                    })))
            (λ rs a. a)

      validated :
          (r : Result RolloutError (Unit {0}))
          → validate_rollout_steps steps ≡ r
          → Keeps (
              of_result r >>= λ u. get_rollout name >>= λ existing.
              refuse (is_active existing) (already_active name)
              >> (onboarded_svc sub name >>= placed []))
      validated (err e) valid = λ s all. all
      validated (ok u) valid = λ s all.
          refuse_keeps (is_active (lookup name s.rollouts)) (already_active name)
            (onboarded_svc sub name >>= placed [])
            (λ s'. placed_keeps valid [] (sub.onboarded s'.world name) s') s all
