-- ===== src/Dashboard/Rollout/Progress.antt =====
-- cmd/dashboard/rollout.go: rollouts whose canaries stay healthy, on a Docker that does what it is asked.
use proxy_manager.Prelude.{
  ℕ, suc, ◌-◌, ◌<◌, ◌≡◌, ◌⊎◌, ◌∙◌, refl, sym, ap, subst, Bool, true, false, ◌&&◌, [], some, Bytes,
  bytes_eq, nat_eq, leb, if◌then◌else◌, length, get_elem?, get_elem?-lt, Bool-cases, inl, inr,
  arith,
}
use proxy_manager.Prelude.Assoc.{lookup, lookup-insert}
use proxy_manager.Prelude.Results.{ok, err}
use proxy_manager.Dashboard.Rollout.Steps.{RolloutError, ceil_pct}
use proxy_manager.Dashboard.Rollout.{
  completed, RolloutState, rollout_active, Substrate, Rollouts, Manager, Step, after, ◌>>=◌, pure,
  changed, is_some, set_status, check_health, scale_canary_to, scale_live_to, promote,
}
use proxy_manager.Dashboard.Rollout.Control.{
  promote_now, fill_and_promote, next_step, ramp_up, step_at, at_last_step, go_on, advance_healthy,
  do_advance, advance_rollout,
}
use proxy_manager.Dashboard.Rollout.Tracked.{
  Frames, Frames-check_health, Frames-scale_canary_to, Frames-scale_live_to, Frames-promote,
}
use proxy_manager.Dashboard.Rollout.Tracked.Kept.{IsTracked, AllTracked}

lookup-changed :
    (name : Bytes) (f : RolloutState → RolloutState) (rs : Rollouts) (r : RolloutState)
    → lookup name rs ≡ some r
    → lookup name (changed name f rs (lookup name rs)) ≡ some (f r)
lookup-changed name f rs r found =
    rw (found, lookup-insert name name (f r) rs, (bytes_eq.eq_test_iff name name).1 refl) refl

pub more_steps :
    (st : RolloutState)
    → st.step_idx < length st.steps
    → at_last_step st ≡ false
    → suc st.step_idx < length st.steps
more_steps st inside before = ground (arith, inside, before)

module _ {W : Type 0} where
  -- A step that succeeds from every state.
  abbrev pub Succeeds : {E A : Type 0} → Step W E A → Type 0
  Succeeds {E} {A} m = (s : Manager W) → (a : A) × (s' : Manager W) × (m s ≡ (ok a, s'))

  -- Docker does what it is asked, and the canaries are healthy whenever they are checked.
  pub record IsWell (sub : Substrate W) : Type 0 where
    pub passes :
        (name : Bytes) (s : Manager W)
        → (reason : Bytes) × (s' : Manager W) × (check_health sub name s ≡ (ok (true, reason), s'))
    pub scales : (name : Bytes) (n : ℕ) → Succeeds (scale_canary_to sub name n)
    pub lives : (name : Bytes) (n : ℕ) → Succeeds (scale_live_to sub name n)
    pub promotes : (name : Bytes) → Succeeds (promote sub name)

  -- The state after a step that succeeded and left the rollouts alone.
  pub same_rollouts :
      {E A : Type 0} (m : Step W E A) (s s' : Manager W) (a : A)
      → Frames m
      → m s ≡ (ok a, s')
      → s'.rollouts ≡ s.rollouts
  same_rollouts m s s' a fm e = ap (λ r. r.1.rollouts) (sym e) ∙ fm s

  -- A step of a rollout: it is completed, or stands at the next step.
  pub record Moved (name : Bytes) (st : RolloutState) (s : Manager W) : Type 0 where
    pub now : RolloutState
    pub found : lookup name s.rollouts ≡ some now
    pub either :
        (now.status ≡ completed) ⊎ ((now ≡ next_step st) × (suc st.step_idx < length st.steps))

  promote_now-Moved :
      (sub : Substrate W) (st : RolloutState) (s : Manager W)
      → IsWell sub
      → lookup st.service s.rollouts ≡ some st
      → Moved st.service st (promote_now sub st s).1
  unfolding promote_now
  promote_now-Moved sub st s well found =
      let (u, s', e) = well.promotes st.service s in
      finish u s' e
        (same_rollouts (promote sub st.service) s s' u (Frames-promote sub st.service) e)
    where
      finish :
          (u : Unit {0}) (s' : Manager W)
          → promote sub st.service s ≡ (ok u, s')
          → s'.rollouts ≡ s.rollouts
          → Moved st.service st (promote_now sub st s).1
      finish u s' e same = rw e (record {
        now = set_status completed [] st;
        found =
            lookup-changed st.service (set_status completed []) s'.rollouts st
              (ap (lookup st.service) same ∙ found);
        either = inl refl;
      })

  fill_and_promote-Moved :
      (sub : Substrate W) (st : RolloutState) (n : ℕ) (s : Manager W)
      → IsWell sub
      → lookup st.service s.rollouts ≡ some st
      → Moved st.service st (fill_and_promote sub st n s).1
  unfolding fill_and_promote
  fill_and_promote-Moved sub st n s well found =
      let (u, s', e) = well.scales st.service n s in
      finish u s' e (
        same_rollouts (scale_canary_to sub st.service n) s s' u
          (Frames-scale_canary_to sub st.service n) e)
    where
      finish :
          (u : Unit {0}) (s' : Manager W)
          → scale_canary_to sub st.service n s ≡ (ok u, s')
          → s'.rollouts ≡ s.rollouts
          → Moved st.service st (fill_and_promote sub st n s).1
      finish u s' e same =
          rw e (promote_now-Moved sub st s' well (ap (lookup st.service) same ∙ found))

  ramp_up-Moved :
      (sub : Substrate W) (st : RolloutState) (n : ℕ) (s : Manager W)
      → IsWell sub
      → suc st.step_idx < length st.steps
      → lookup st.service s.rollouts ≡ some st
      → Moved st.service st (ramp_up sub st n s).1
  unfolding ramp_up
  ramp_up-Moved sub st n s well more found =
      let (u, s1, e1) = well.scales st.service n s in
      let (v, s2, e2) = well.lives st.service (st.orig_live_replicas - n) s1 in
      finish u s1 v s2 e1 e2
        (same_rollouts (scale_canary_to sub st.service n) s s1 u
          (Frames-scale_canary_to sub st.service n) e1)
        (same_rollouts (scale_live_to sub st.service (st.orig_live_replicas - n)) s1 s2 v
          (Frames-scale_live_to sub st.service (st.orig_live_replicas - n)) e2)
    where
      finish :
          (u : Unit {0}) (s1 : Manager W) (v : Unit {0}) (s2 : Manager W)
          → scale_canary_to sub st.service n s ≡ (ok u, s1)
          → scale_live_to sub st.service (st.orig_live_replicas - n) s1 ≡ (ok v, s2)
          → s1.rollouts ≡ s.rollouts
          → s2.rollouts ≡ s1.rollouts
          → Moved st.service st (ramp_up sub st n s).1
      finish u s1 v s2 e1 e2 same1 same2 =
          rw (e1, e2)
            (record {
              now = next_step st;
              found =
                  lookup-changed st.service next_step s2.rollouts st
                    (ap (lookup st.service) (same2 ∙ same1) ∙ found);
              either = inr (refl, more);
            })

  go_on-Moved :
      (sub : Substrate W) (st : RolloutState) (onb : Bool) (n : ℕ) (s : Manager W)
      → IsWell sub
      → IsTracked st.service st
      → lookup st.service s.rollouts ≡ some st
      → Moved st.service st (go_on sub st onb (at_last_step st) n s).1
  go_on-Moved sub st onb n s well t found = elim (Bool-cases (onb && leb st.orig_live_replicas n)) [
    | inl full ↦ rw full (fill_and_promote-Moved sub st n s well found)
    | inr room ↦ elim (Bool-cases (at_last_step st)) [
      | inl last ↦ rw (room, last) (promote_now-Moved sub st s well found)
      | inr before ↦
          rw (room, before) (ramp_up-Moved sub st n s well (more_steps st t.within before) found)
    ]
  ]

  advance_healthy-Moved :
      (sub : Substrate W) (st : RolloutState) (s : Manager W)
      → IsWell sub
      → IsTracked st.service st
      → lookup st.service s.rollouts ≡ some st
      → Moved st.service st (advance_healthy sub st s).1
  unfolding advance_healthy
  advance_healthy-Moved sub st s well t found =
      let (here, e) = get_elem?-lt st.steps st.step_idx t.within in
      let (pct, picked) = pick here (at_last_step st) refl in
      finish here pct (at_here here e) picked
    where
      onb : Bool
      onb = is_some (sub.onboarded s.world st.service)

      at_here :
          (here : ℕ)
          → get_elem? st.steps st.step_idx ≡ some here
          → step_at st.steps st.step_idx s ≡ (ok here, s)
      at_here here e = rw e refl

      choose : ℕ → Bool → Step W RolloutError ℕ
      choose here b = if b then pure here else step_at st.steps (suc st.step_idx)

      next_at :
          (p : ℕ)
          → get_elem? st.steps (suc st.step_idx) ≡ some p
          → step_at st.steps (suc st.step_idx) s ≡ (ok p, s)
      next_at p e = rw e refl

      pick :
          (here : ℕ) (b : Bool) → at_last_step st ≡ b → (pct : ℕ) × (choose here b s ≡ (ok pct, s))
      pick here true last = (here, refl)
      pick here false before =
          let (p, e) = get_elem?-lt st.steps (suc st.step_idx) (more_steps st t.within before) in
          (p, next_at p e)

      finish :
          (here pct : ℕ)
          → step_at st.steps st.step_idx s ≡ (ok here, s)
          → choose here (at_last_step st) s ≡ (ok pct, s)
          → Moved st.service st (advance_healthy sub st s).1
      finish here pct e1 e2 =
          let go = go_on-Moved sub st onb (ceil_pct st.orig_live_replicas pct) s well t found in
          let second : (choose here (at_last_step st) >>= λ p.
          go_on sub st onb (at_last_step st) (ceil_pct st.orig_live_replicas p))
                s
              ≡ go_on sub st onb (at_last_step st) (ceil_pct st.orig_live_replicas pct) s =
            ap
              (after (λ p. go_on sub st onb (at_last_step st) (ceil_pct st.orig_live_replicas p))
                (λ e s'. (err e, s')))
              e2 in
          let first : advance_healthy sub st s
              ≡ (choose here (at_last_step st) >>= λ p.
                    go_on sub st onb (at_last_step st) (ceil_pct st.orig_live_replicas p))
                  s =
            ap
              (after
                (λ h. choose h (at_last_step st) >>= λ p.
                  go_on sub st onb (at_last_step st) (ceil_pct st.orig_live_replicas p))
                (λ e s'. (err e, s')))
              e1 in
          subst (λ r. Moved st.service st r.1) (sym (first ∙ second)) go

  do_advance-Moved :
      (sub : Substrate W) (st : RolloutState) (s : Manager W)
      → IsWell sub
      → IsTracked st.service st
      → lookup st.service s.rollouts ≡ some st
      → Moved st.service st (do_advance sub st s).1
  unfolding do_advance
  do_advance-Moved sub st s well t found =
      let (reason, s', e) = well.passes st.service s in
      finish reason s' e (
        same_rollouts (check_health sub st.service) s s' (true, reason)
          (Frames-check_health sub st.service) e)
    where
      finish :
          (reason : Bytes) (s' : Manager W)
          → check_health sub st.service s ≡ (ok (true, reason), s')
          → s'.rollouts ≡ s.rollouts
          → Moved st.service st (do_advance sub st s).1
      finish reason s' e same =
          rw e (advance_healthy-Moved sub st s' well t (ap (lookup st.service) same ∙ found))

  pub advance_rollout-Moved :
      (sub : Substrate W) (name : Bytes) (st : RolloutState) (s : Manager W)
      → IsWell sub
      → AllTracked s.rollouts
      → lookup name s.rollouts ≡ some st
      → rollout_active st.status ≡ true
      → Moved name st (advance_rollout sub name s).1
  unfolding advance_rollout
  advance_rollout-Moved sub name st s well all found active =
      let t = all name st found in
      rw (found, active)
        (subst (λ n. Moved n st (do_advance sub st s).1) t.own
          (do_advance-Moved sub st s well (subst (λ n. IsTracked n st) (sym t.own) t)
            (subst (λ n. lookup n s.rollouts ≡ some st) (sym t.own) found)))
