-- ===== src/Dashboard/Rollout/Tracked/Moves.antt =====
-- cmd/dashboard/rollout.go: the well-formedness of the tracked rollouts over whole requests.
use proxy_manager.Prelude.{
  ℕ, suc, ◌-◌, ◌<◌, ◌≡◌, ◌∙◌, refl, sym, subst, Bool, true, false, ◌&&◌, List, [], ◌∷◌, Option,
  none, some, Bytes, bytes_eq, nat_eq, leb, if◌then◌else◌, length, Bool-cases, inl, inr, arith,
}
use proxy_manager.Prelude.Assoc.{lookup}
use proxy_manager.Prelude.Strings.{sort_strings}
use proxy_manager.Prelude.Results.{Result, ok, err}
use proxy_manager.Dashboard.Rollout.Steps.{RolloutError, ceil_pct, no_active_rollout}
use proxy_manager.Dashboard.Rollout.{
  RolloutState, Substrate, Rollouts, Manager, Step, after, ◌>>=◌, pure, fail, attempt, docker,
  changed, set_status, rolling, is_some, rolled_back, when, rollout_active, check_health,
  scale_canary_to, scale_live_to, rollback_containers, auto_rollback,
}
use proxy_manager.Dashboard.Rollout.Control.{
  next_step, ramp_up, step_at, at_last_step, go_on, advance_healthy, on_health, do_advance,
  if_active, advance_rollout, abort_active, abort_rollout, check_unhealthy, check_tracked,
  check_one, check_each, check_all, is_awaiting, awaiting_names,
}
use proxy_manager.Dashboard.Rollout.Tracked.{
  Frames, Frames-docker, Frames-attempt, Frames-check_health, Frames-scale_canary_to,
  Frames-scale_live_to, Frames-rollback_containers,
}
use proxy_manager.Dashboard.Rollout.Tracked.Kept.{
  IsTracked, AllTracked, Keeps, changed-AllTracked, frames_then, status_keeps, rolling_keeps,
  set_status-Keeps, auto_rollback-Keeps, promote_now-Keeps, fill_and_promote-Keeps,
}

-- One rollout is tracked as it is known.
abbrev Known : RolloutState → Rollouts → Type 0
Known st rs = AllTracked rs × (lookup st.service rs ≡ some st)

module _ {W : Type 0} where
  -- A step that begins with one rollout tracked as it is known.
  abbrev KeepsFrom : {E A : Type 0} → Bytes → RolloutState → Step W E A → Type 0
  KeepsFrom name st m =
      (s : Manager W)
      → AllTracked s.rollouts × (lookup name s.rollouts ≡ some st)
      → AllTracked (m s).1.rollouts

  ramp_up-Keeps :
      (sub : Substrate W) (st : RolloutState) (n : ℕ)
      → suc st.step_idx < length st.steps
      → KeepsFrom st.service st (ramp_up sub st n)
  unfolding ramp_up
  ramp_up-Keeps sub st n more =
      frames_then (Known st) AllTracked (docker (scale_canary_to sub st.service n)) _
        (Frames-docker (scale_canary_to sub st.service n) (Frames-scale_canary_to sub st.service n))
        (λ u.
          frames_then (Known st) AllTracked
            (docker (scale_live_to sub st.service (st.orig_live_replicas - n))) _
            (Frames-docker (scale_live_to sub st.service (st.orig_live_replicas - n))
              (Frames-scale_live_to sub st.service (st.orig_live_replicas - n)))
            (λ v s k.
              changed-AllTracked s.rollouts st.service next_step (lookup st.service s.rollouts) refl
                k.0 (λ r found t. advanced r (sym k.1 ∙ found) t))
            (λ rs k. k.0))
        (λ rs k. k.0)
    where
      advanced :
          (r : RolloutState)
          → ◌≡◌ {A = Option RolloutState} (some st) (some r)
          → IsTracked st.service r
          → IsTracked st.service (next_step r)
      advanced r both t =
          let same : st ≡ r = ground (arith, both) in
          record {
            own = t.own;
            ramp = t.ramp;
            within = subst (λ x. suc x.step_idx < length x.steps) same more;
            had_live = t.had_live;
          }

  go_on-Keeps :
      (sub : Substrate W) (st : RolloutState) (onb : Bool) (n : ℕ)
      → IsTracked st.service st
      → KeepsFrom st.service st (go_on sub st onb (at_last_step st) n)
  go_on-Keeps sub st onb n t s k = elim (Bool-cases (onb && leb st.orig_live_replicas n)) [
    | inl full ↦ rw full (fill_and_promote-Keeps sub st n s k.0)
    | inr room ↦ elim (Bool-cases (at_last_step st)) [
      | inl last ↦ rw (room, last) (promote_now-Keeps sub st s k.0)
      | inr before ↦ rw (room, before) (ramp_up-Keeps sub st n (more_steps st t.within before) s k)
    ]
  ]
    where
      more_steps :
          (st : RolloutState)
          → st.step_idx < length st.steps
          → at_last_step st ≡ false
          → suc st.step_idx < length st.steps
      more_steps st inside before = ground (arith, inside, before)

  advance_healthy-Keeps :
      (sub : Substrate W) (st : RolloutState)
      → IsTracked st.service st
      → KeepsFrom st.service st (advance_healthy sub st)
  unfolding advance_healthy
  advance_healthy-Keeps sub st t s k =
      frames_then (Known st) AllTracked (step_at st.steps st.step_idx) _ (λ s'. refl)
        (λ here.
          frames_then (Known st) AllTracked
            (if at_last_step st then pure here else step_at st.steps (suc st.step_idx)) _
            (one_of_two here (at_last_step st))
            (λ pct.
              go_on-Keeps sub st (is_some (sub.onboarded s.world st.service))
                (ceil_pct st.orig_live_replicas pct) t)
            (λ rs known. known.0))
        (λ rs known. known.0) s k
    where
      one_of_two :
          (here : ℕ) (b : Bool)
          → Frames {W = W} {E = RolloutError}
              (if b then pure here else step_at st.steps (suc st.step_idx))
      one_of_two here true s' = refl
      one_of_two here false s' = refl

  do_advance-Keeps :
      (sub : Substrate W) (st : RolloutState)
      → IsTracked st.service st
      → KeepsFrom st.service st (do_advance sub st)
  unfolding do_advance
  do_advance-Keeps sub st t =
      frames_then (Known st) AllTracked (docker (check_health sub st.service)) (on_health sub st)
        (Frames-docker (check_health sub st.service) (Frames-check_health sub st.service)) either
        (λ rs known. known.0)
    where
      either : (h : Bool × Bytes) → KeepsFrom st.service st (on_health sub st h)
      either (true, reason) = advance_healthy-Keeps sub st t
      either (false, reason) = λ s k. auto_rollback-Keeps sub st reason s k.0

  -- The rollout that is tracked under a name, if there is one, is handed to the step.
  pub advance_rollout-Keeps : (sub : Substrate W) (name : Bytes) → Keeps (advance_rollout sub name)
  unfolding advance_rollout
  advance_rollout-Keeps sub name s all = tracked (lookup name s.rollouts) refl
    where
      active :
          (st : RolloutState)
          → lookup name s.rollouts ≡ some st
          → (b : Bool)
          → AllTracked
              ((if b then do_advance sub st else fail (no_active_rollout name)) s).1.rollouts
      active st found false = all
      active st found true =
          let t = all name st found in
          do_advance-Keeps sub st (subst (λ n. IsTracked n st) (sym t.own) t) s
            (all, subst (λ n. lookup n s.rollouts ≡ some st) (sym t.own) found)

      tracked :
          (o : Option RolloutState)
          → lookup name s.rollouts ≡ o
          → AllTracked (if_active name (do_advance sub) o s).1.rollouts
      tracked none found = all
      tracked (some st) found = active st found (rollout_active st.status)

  abort_active-Keeps :
      (sub : Substrate W) (name : Bytes) (st : RolloutState) → Keeps (abort_active sub name st)
  abort_active-Keeps sub name st s all =
      frames_then AllTracked AllTracked (docker (rollback_containers sub st)) _
        (Frames-docker (rollback_containers sub st) (Frames-rollback_containers sub st))
        (λ u s'.
          set_status-Keeps name (set_status rolled_back []) (status_keeps name rolled_back [])
            s'.rollouts)
        (λ rs a. a)
        (record s { rollouts = changed name rolling s.rollouts (lookup name s.rollouts) })
        (set_status-Keeps name rolling (rolling_keeps name) s.rollouts all)

  pub abort_rollout-Keeps : (sub : Substrate W) (name : Bytes) → Keeps (abort_rollout sub name)
  unfolding abort_rollout
  abort_rollout-Keeps sub name s all = tracked (lookup name s.rollouts)
    where
      active :
          (st : RolloutState) (b : Bool)
          → AllTracked
              ((if b then abort_active sub name st else fail (no_active_rollout name)) s).1.rollouts
      active st false = all
      active st true = abort_active-Keeps sub name st s all

      tracked :
          (o : Option RolloutState)
          → AllTracked (if_active name (abort_active sub name) o s).1.rollouts
      tracked none = all
      tracked (some st) = active st (rollout_active st.status)

  Keeps->>= :
      {E A B : Type 0} (m : Step W E A) (f : A → Step W E B)
      → Keeps m
      → ((a : A) → Keeps (f a))
      → Keeps (m >>= f)
  Keeps->>= {E} {A} {B} m f km kf s all = ends (m s) (km s all)
    where
      ends :
          (r : Result E A × Manager W)
          → AllTracked r.1.rollouts
          → AllTracked (after f (λ e s'. (err e, s')) r).1.rollouts
      ends (ok a, s') k = kf a s' k
      ends (err x, s') k = k

  check_one-Keeps : (sub : Substrate W) (name : Bytes) → Keeps (check_one sub name)
  unfolding check_one
  check_one-Keeps sub name s all = tracked (lookup name s.rollouts)
    where
      judged :
          (st : RolloutState) (r : Result Bytes (Bool × Bytes)) → Keeps (check_unhealthy sub st r)
      judged st (err e) = λ s' a. a
      judged st (ok (true, reason)) = λ s' a. a
      judged st (ok (false, reason)) =
          Keeps->>= (auto_rollback sub st reason) _ (auto_rollback-Keeps sub st reason)
            (λ r s' a. a)

      waiting :
          (st : RolloutState) (b : Bool)
          → AllTracked
              (when b (attempt (check_health sub name) >>= check_unhealthy sub st) s).1.rollouts
      waiting st false = all
      waiting st true =
          frames_then AllTracked AllTracked (attempt (check_health sub name))
            (check_unhealthy sub st)
            (Frames-attempt RolloutError (check_health sub name) (Frames-check_health sub name))
            (judged st) (λ rs a. a) s all

      tracked : (o : Option RolloutState) → AllTracked (check_tracked sub name o s).1.rollouts
      tracked none = all
      tracked (some st) = waiting st (is_awaiting st.status)

  check_each-Keeps : (sub : Substrate W) (names : List Bytes) → Keeps (check_each sub names)
  unfolding check_each
  check_each-Keeps sub [] = λ s all. all
  check_each-Keeps sub (name ∷ names) =
      Keeps->>= (check_one sub name) (λ u. check_each sub names) (check_one-Keeps sub name)
        (λ u. check_each-Keeps sub names)

  pub check_all-Keeps : (sub : Substrate W) → Keeps (check_all sub)
  unfolding check_all
  check_all-Keeps sub s = check_each-Keeps sub (sort_strings (awaiting_names s.rollouts)) s
