-- ===== src/Dashboard/Rollout/Gate/Branches.antt =====
-- cmd/dashboard/rollout.go: the branches of an advance, and what each may report.
use proxy_manager.Prelude.{
  ℕ, suc, ◌-◌, ◌≡◌, ◌≢◌, ◌∙◌, refl, sym, ap, subst, ◌⊎◌, inl, inr, Bool, true, false, ◌&&◌, Option,
  none, some, Bytes, bytes_eq, nat_eq, leb, if◌then◌else◌, arith,
}
use proxy_manager.Prelude.Assoc.{lookup, insert, lookup-insert}
use proxy_manager.Prelude.Results.{Result, ok, err}
use proxy_manager.Dashboard.Rollout.Steps.{RolloutError, ceil_pct}
use proxy_manager.Dashboard.Rollout.{
  completed, failed, RolloutState, rollout_active, Substrate, Rollouts, Manager, Step, after, ◌>>=◌,
  pure, attempt, docker, changed, is_some, set_status, rolling, failure_text, scale_canary_to,
  scale_live_to, promote, rollback_containers, auto_rollback,
}
use proxy_manager.Dashboard.Rollout.Control.{
  outcome, promote_now, fill_result, fill_and_promote, next_step, ramp_up, step_at, at_last_step,
  go_on, advance_healthy,
}
use proxy_manager.Dashboard.Rollout.Tracked.{
  Frames-docker, Frames-scale_canary_to, Frames-scale_live_to,
}
use proxy_manager.Dashboard.Rollout.Progress.{same_rollouts}

-- The rollout after an update of the one that is tracked.
updated :
    (name : Bytes) (f : RolloutState → RolloutState) (rs : Rollouts) (o : Option RolloutState)
    (x : RolloutState)
    → lookup name rs ≡ o
    → lookup name (changed name f rs o) ≡ some x
    → (r : RolloutState) × (o ≡ some r) × (x ≡ f r)
updated name f rs none x found e = cc
updated name f rs (some r) x found e = (r, refl, same (f r) (sym (written (f r)) ∙ e))
  where
    written : (v : RolloutState) → lookup name (insert name v rs) ≡ some v
    written v = rw (lookup-insert name name v rs, (bytes_eq.eq_test_iff name name).1 refl) refl

    same : (v : RolloutState) → ◌≡◌ {A = Option RolloutState} (some v) (some x) → x ≡ v
    same v e = ground (arith, e)

not_completed_failed :
    (name e : Bytes) (rs : Rollouts) (x : RolloutState)
    → lookup name (changed name (set_status failed e) rs (lookup name rs)) ≡ some x
    → x.status ≢ completed
not_completed_failed name e rs x found done =
    let (r, was, is) = updated name (set_status failed e) rs (lookup name rs) x refl found in
    clash (ap (λ y. y.status) (sym is) ∙ done)
  where
    clash : failed ≢ completed
    clash h = cc

module _ {W : Type 0} (sub : Substrate W) where
  -- The state that a promote begins in: the one at the start, or the one that a scaling of the canary
  -- then led to.
  abbrev pub IsReached : Bytes → Manager W → Manager W → Type 0
  IsReached name start before =
      (before ≡ start) ⊎ ((n : ℕ) × (scale_canary_to sub name n start ≡ (ok tt, before)))

  -- Between `start` and `s'` a promote of the service went through, and it was the last call of
  -- Docker.
  pub record Promoted (name : Bytes) (start s' : Manager W) : Type 0 where
    pub before : Manager W
    pub afterwards : Manager W
    pub reached : IsReached name start before
    pub went : promote sub name before ≡ (ok tt, afterwards)
    pub last : s'.world ≡ afterwards.world

  -- A result that is a completed rollout comes with a `G` of the state that it leaves.
  abbrev pub OnlyWith :
      (Manager W → Type 0) → Result RolloutError (Option RolloutState) × Manager W → Type 0
  OnlyWith G r = (x : RolloutState) → r.0 ≡ ok (some x) → x.status ≡ completed → G r.1

  answer :
      {o : Option RolloutState} {x : RolloutState}
      → ◌≡◌ {A = Result RolloutError (Option RolloutState)} (ok o) (ok (some x))
      → o ≡ some x
  answer h = ground (arith, h)

  promote_now-OnlyWith :
      (st : RolloutState) (start s : Manager W)
      → IsReached st.service start s
      → OnlyWith (Promoted st.service start) (promote_now sub st s)
  unfolding promote_now
  promote_now-OnlyWith st start s here = ends (promote sub st.service s) refl
    where
      rest : Result Bytes (Unit {0}) → Step W RolloutError (Option RolloutState)
      rest r s' = (
        ok (
            lookup st.service
              (changed st.service (outcome r) s'.rollouts (lookup st.service s'.rollouts))),
        record s' {
          rollouts = changed st.service (outcome r) s'.rollouts (lookup st.service s'.rollouts);
        },
      )

      ends :
          (r : Result Bytes (Unit {0}) × Manager W)
          → promote sub st.service s ≡ r
          → OnlyWith (Promoted st.service start) (
              after rest
                (λ e s'. (err e, s'))
                (after {B = Result RolloutError (Result Bytes (Unit {0})) × Manager W}
                  (λ a s'. (ok (ok a), s'))
                  (λ e s'. (ok (err e), s'))
                  r))
      ends (ok u, s') went x e done = record {
        before = s;
        afterwards = s';
        reached = here;
        went = went;
        last = refl;
      }
      ends (err z, s') went x e done =
          absurd (not_completed_failed st.service z s'.rollouts x (answer e) done)

  OnlyWith-then :
      (G : Manager W → Type 0) {A : Type 0} (m : Step W RolloutError A)
      (f : A → Step W RolloutError (Option RolloutState)) (s : Manager W)
      → ((a : A) (s' : Manager W) → m s ≡ (ok a, s') → OnlyWith G (f a s'))
      → OnlyWith G ((m >>= f) s)
  OnlyWith-then G {A} m f s each = ends (m s) refl
    where
      ends :
          (r : Result RolloutError A × Manager W)
          → m s ≡ r
          → OnlyWith G (after f (λ e s'. (err e, s')) r)
      ends (ok a, s') e = each a s' e
      ends (err z, s') e = λ x h done. cc

  pub auto_rollback-OnlyWith :
      (G : Manager W → Type 0) (st : RolloutState) (reason : Bytes) (s : Manager W)
      → OnlyWith G (auto_rollback sub st reason s)
  unfolding auto_rollback
  auto_rollback-OnlyWith G st reason s =
      OnlyWith-then G (attempt (rollback_containers sub st)) _
        (record s {
          rollouts = changed st.service rolling s.rollouts (lookup st.service s.rollouts);
        })
        (λ r s' e x h done.
          absurd
            (not_completed_failed st.service (failure_text reason r) s'.rollouts x (answer h) done))

  attempt-ok :
      (m : Step W Bytes Unit) (s s' : Manager W)
      → attempt {E' = RolloutError} m s ≡ (ok (ok tt), s')
      → m s ≡ (ok tt, s')
  attempt-ok m s s' h = ends (m s) h
    where
      ends :
          (r : Result Bytes (Unit {0}) × Manager W)
          → after {B = Result RolloutError (Result Bytes (Unit {0})) × Manager W}
              (λ a s'. (ok (ok a), s'))
              (λ e s'. (ok (err e), s'))
              r
            ≡ (ok (ok tt), s')
          → r ≡ (ok tt, s')
      ends (ok u, t) e = ap (λ v. (ok tt, v)) (ap (λ r. r.1) e)
      ends (err z, t) e = absurd (refused z (ap (λ r. r.0) e))
        where
          refused :
              (z : Bytes)
              → ◌≡◌ {A = Result RolloutError (Result Bytes (Unit {0}))} (ok (err z)) (ok (ok tt))
              → ⊥
          refused z same = ground (arith, same)

  fill_and_promote-OnlyWith :
      (st : RolloutState) (n : ℕ) (s : Manager W)
      → OnlyWith (Promoted st.service s) (fill_and_promote sub st n s)
  unfolding fill_and_promote
  fill_and_promote-OnlyWith st n s =
      OnlyWith-then (Promoted st.service s) (attempt (scale_canary_to sub st.service n))
        (fill_result sub st) s either
    where
      either :
          (r : Result Bytes (Unit {0})) (s' : Manager W)
          → attempt {E' = RolloutError} (scale_canary_to sub st.service n) s ≡ (ok r, s')
          → OnlyWith (Promoted st.service s) (fill_result sub st r s')
      either (ok u) s' e =
          promote_now-OnlyWith st s s'
            (inr (n, attempt-ok (scale_canary_to sub st.service n) s s' e))
      either (err z) s' e =
          λ x h done. absurd (not_completed_failed st.service z s'.rollouts x (answer h) done)

  ramp_up-OnlyWith :
      (G : Manager W → Type 0) (st : RolloutState) (n : ℕ) (s : Manager W)
      → lookup st.service s.rollouts ≡ some st
      → rollout_active st.status ≡ true
      → OnlyWith G (ramp_up sub st n s)
  unfolding ramp_up rollout_active
  ramp_up-OnlyWith G st n s found active =
      OnlyWith-then G (docker (scale_canary_to sub st.service n)) _ s (λ u s1 e1.
        OnlyWith-then G (docker (scale_live_to sub st.service (st.orig_live_replicas - n))) _ s1
          (λ v s2 e2 x h done.
            let same1 =
              same_rollouts (docker (scale_canary_to sub st.service n)) s s1 u
                (Frames-docker _ (Frames-scale_canary_to sub st.service n)) e1 in
            let same2 =
              same_rollouts (docker (scale_live_to sub st.service (st.orig_live_replicas - n))) s1
                s2 v
                (Frames-docker _ (Frames-scale_live_to sub st.service (st.orig_live_replicas - n)))
                e2 in
            absurd (
              not_yet s2.rollouts x (ap (lookup st.service) (same2 ∙ same1) ∙ found) (answer h)
                done)))
    where
      clash :
          (t r : RolloutState)
          → ◌≡◌ {A = Option RolloutState} (some t) (some r)
          → r.status ≡ completed
          → rollout_active t.status ≡ true
          → ⊥
      clash t r same done active =
          let one : t ≡ r = ground (arith, same) in
          let off = ap rollout_active (ap (λ y. y.status) one ∙ done) in cc

      not_yet :
          (rs : Rollouts) (x : RolloutState)
          → lookup st.service rs ≡ some st
          → lookup st.service (changed st.service next_step rs (lookup st.service rs)) ≡ some x
          → x.status ≢ completed
      not_yet rs x known h done =
          let (r, was, is) = updated st.service next_step rs (lookup st.service rs) x refl h in
          clash st r (sym known ∙ was) (ap (λ y. y.status) (sym is) ∙ done) active

  go_on-OnlyWith :
      (st : RolloutState) (onb last : Bool) (n : ℕ) (s : Manager W)
      → lookup st.service s.rollouts ≡ some st
      → rollout_active st.status ≡ true
      → OnlyWith (Promoted st.service s) (go_on sub st onb last n s)
  go_on-OnlyWith st onb last n s found active = pick (onb && leb st.orig_live_replicas n) last
    where
      pick :
          (full last : Bool)
          → OnlyWith (Promoted st.service s) (
              (if full
                  then fill_and_promote sub st n
                  else if last
                  then promote_now sub st
                  else ramp_up sub st n)
                s)
      pick true last = fill_and_promote-OnlyWith st n s
      pick false true = promote_now-OnlyWith st s s (inl refl)
      pick false false = ramp_up-OnlyWith (Promoted st.service s) st n s found active

  pub advance_healthy-OnlyWith :
      (st : RolloutState) (s : Manager W)
      → lookup st.service s.rollouts ≡ some st
      → rollout_active st.status ≡ true
      → OnlyWith (Promoted st.service s) (advance_healthy sub st s)
  unfolding advance_healthy
  advance_healthy-OnlyWith st s found active =
      OnlyWith-then (Promoted st.service s) (step_at st.steps st.step_idx) _ s (λ here s1 e1.
        OnlyWith-then (Promoted st.service s) (choose here (at_last_step st)) _ s1 (λ pct s2 e2.
          go_at (is_some (sub.onboarded s.world st.service)) (ceil_pct st.orig_live_replicas pct) s2
            (still here (at_last_step st) s1 s2 pct e2 ∙ ap (λ r. r.1) (sym e1))))
    where
      go_at :
          (onb : Bool) (n : ℕ) (s2 : Manager W)
          → s2 ≡ s
          → OnlyWith (Promoted st.service s) (go_on sub st onb (at_last_step st) n s2)
      go_at onb n s2 same =
          subst (λ m. OnlyWith (Promoted st.service s) (go_on sub st onb (at_last_step st) n m))
            (sym same) (go_on-OnlyWith st onb (at_last_step st) n s found active)

      choose : ℕ → Bool → Step W RolloutError ℕ
      choose here b = if b then pure here else step_at st.steps (suc st.step_idx)

      still :
          (here : ℕ) (b : Bool) (s1 s2 : Manager W) (pct : ℕ)
          → choose here b s1 ≡ (ok pct, s2)
          → s2 ≡ s1
      still here true s1 s2 pct e = ap (λ r. r.1) (sym e)
      still here false s1 s2 pct e = ap (λ r. r.1) (sym e)
