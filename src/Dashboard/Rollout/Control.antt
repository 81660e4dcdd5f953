-- ===== src/Dashboard/Rollout/Control.antt =====
-- cmd/dashboard/rollout.go: starting, advancing, aborting and checking rollouts.
use proxy_manager.Prelude.{
  ℕ, suc, ◌-◌, Bool, true, false, not, ◌&&◌, List, [], ◌∷◌, map, Option, none, some, Bytes,
  bytes_eq, nat_eq, ◌==◌, ltb, leb, if◌then◌else◌, length, get_elem?, filter,
}
use proxy_manager.Prelude.Strings.{sort_strings}
use proxy_manager.Prelude.Results.{Result, ok, err}
use proxy_manager.Dashboard.Rollout.Steps.{
  RolloutError, image_required, index_panic, already_active, managed_only, already_has_canary,
  no_live_replicas, no_active_rollout, default_rollout_steps, validate_rollout_steps, ceil_pct,
}
use proxy_manager.Dashboard.Rollout.{
  RolloutStatus, awaiting_advance, rolled_back, completed, failed, RolloutState, rollout_active,
  Onboarded, ReplaceServiceRequest, Substrate, Rollouts, Step, ◌>>=◌, ◌>>◌, pure, fail, attempt,
  docker, call, refresh, onboarded_svc, get_rollout, update_rollout, put_rollout, set_status,
  rolling, is_some, when, check_health, scale_canary_to, scale_live_to, promote,
  rollback_containers, auto_rollback,
}

abbrev pub refuse : {W : Type 0} → Bool → RolloutError → Step W RolloutError (Unit {0})
refuse true e = fail e
refuse false e = pure tt

-- The result of an attempt, written to the rollout: why it failed, or that it is completed.
abbrev pub outcome : Result Bytes (Unit {0}) → RolloutState → RolloutState
outcome (ok u) = set_status completed []
outcome (err e) = set_status failed e

unfoldable pub promote_now :
    {W : Type 0} → Substrate W → RolloutState → Step W RolloutError (Option RolloutState)
promote_now sub st = do
  r ← attempt (promote sub st.service)
  update_rollout st.service (outcome r)
  get_rollout st.service

abbrev pub fill_result :
    {W : Type 0}
    → Substrate W
    → RolloutState
    → Result Bytes (Unit {0})
    → Step W RolloutError (Option RolloutState)
fill_result sub st (ok u) = promote_now sub st
fill_result sub st (err e) =
    update_rollout st.service (set_status failed e) >> get_rollout st.service

unfoldable pub fill_and_promote :
    {W : Type 0} → Substrate W → RolloutState → ℕ → Step W RolloutError (Option RolloutState)
fill_and_promote sub st target =
    attempt (scale_canary_to sub st.service target) >>= fill_result sub st

abbrev pub next_step : RolloutState → RolloutState
next_step r = record r { step_idx = suc r.step_idx }

unfoldable pub ramp_up :
    {W : Type 0} → Substrate W → RolloutState → ℕ → Step W RolloutError (Option RolloutState)
ramp_up sub st target = do
  docker (scale_canary_to sub st.service target)
  docker (scale_live_to sub st.service (st.orig_live_replicas - target))
  update_rollout st.service next_step
  get_rollout st.service

abbrev pub step_at : {W : Type 0} → List ℕ → ℕ → Step W RolloutError ℕ
step_at steps i s = (elim (get_elem? steps i) [ none ↦ err index_panic | some p ↦ ok p ], s)

abbrev pub at_last_step : RolloutState → Bool
at_last_step st = suc st.step_idx == length st.steps

-- Which way a healthy rollout goes on, given the number of canaries of its next step.
abbrev pub go_on :
    {W : Type 0}
    → Substrate W
    → RolloutState
    → Bool
    → Bool
    → ℕ
    → Step W RolloutError (Option RolloutState)
go_on sub st onboarded last target =
    if onboarded && leb st.orig_live_replicas target
    then fill_and_promote sub st target
    else if last
    then promote_now sub st
    else ramp_up sub st target

unfoldable pub advance_healthy :
    {W : Type 0} → Substrate W → RolloutState → Step W RolloutError (Option RolloutState)
advance_healthy sub st = do
  o ← onboarded_svc sub st.service
  here ← step_at st.steps st.step_idx
  pct ← if at_last_step st then pure here else step_at st.steps (suc st.step_idx)
  go_on sub st (is_some o) (at_last_step st) (ceil_pct st.orig_live_replicas pct)

abbrev pub on_health :
    {W : Type 0}
    → Substrate W
    → RolloutState
    → Bool × Bytes
    → Step W RolloutError (Option RolloutState)
on_health sub st (true, reason) = advance_healthy sub st
on_health sub st (false, reason) = auto_rollback sub st reason

unfoldable pub do_advance :
    {W : Type 0} → Substrate W → RolloutState → Step W RolloutError (Option RolloutState)
do_advance sub st = docker (check_health sub st.service) >>= on_health sub st

abbrev pub if_active :
    {W A : Type 0}
    → Bytes
    → (RolloutState → Step W RolloutError A)
    → Option RolloutState
    → Step W RolloutError A
if_active name f none = fail (no_active_rollout name)
if_active name f (some st) =
    if rollout_active st.status then f st else fail (no_active_rollout name)

unfoldable pub advance_rollout :
    {W : Type 0} → Substrate W → Bytes → Step W RolloutError (Option RolloutState)
advance_rollout sub name = get_rollout name >>= if_active name (do_advance sub)

abbrev pub abort_active :
    {W : Type 0} → Substrate W → Bytes → RolloutState → Step W RolloutError (Option RolloutState)
abort_active sub name st = do
  update_rollout name rolling
  docker (rollback_containers sub st)
  update_rollout name (set_status rolled_back [])
  get_rollout name

unfoldable pub abort_rollout :
    {W : Type 0} → Substrate W → Bytes → Step W RolloutError (Option RolloutState)
abort_rollout sub name = get_rollout name >>= if_active name (abort_active sub name)

abbrev pub is_active : Option RolloutState → Bool
is_active none = false
is_active (some st) = rollout_active st.status

-- The canaries of the first step, and the live replicas scaled down to match.
abbrev pub place_onboarded :
    {W : Type 0}
    → Substrate W
    → Bytes
    → ReplaceServiceRequest
    → ℕ
    → ℕ
    → Step W RolloutError (Unit {0})
place_onboarded sub name req orig count = do
  docker (call (sub.stage_onboarded_canary name req count))
  refresh sub
  when (ltb count orig) (docker (call (sub.scale_onboarded name (orig - count))) >> refresh sub)

abbrev pub place_labelled :
    {W : Type 0}
    → Substrate W
    → Bytes
    → ReplaceServiceRequest
    → ℕ
    → ℕ
    → Step W RolloutError (Unit {0})
place_labelled sub name req orig count = do
  docker (call (sub.create_canary_replicas name req count))
  docker (scale_live_to sub name (orig - count))

-- A service without a live replica is refused; one that has some is placed.
abbrev pub place_live :
    {W : Type 0} → Bytes → ℕ → ℕ → (ℕ → ℕ → Step W RolloutError (Unit {0})) → Step W RolloutError ℕ
place_live name pct orig place = do
  refuse (orig == 0) (no_live_replicas name)
  place orig (ceil_pct orig pct)
  pure orig

abbrev pub stage_counted :
    {W : Type 0} → Substrate W → Bytes → ReplaceServiceRequest → ℕ → ℕ × ℕ → Step W RolloutError ℕ
stage_counted sub name req pct (live, canary) = do
  refuse (ltb 0 canary) (already_has_canary name)
  place_live name pct live (place_labelled sub name req)

abbrev pub stage_first :
    {W : Type 0}
    → Substrate W
    → Bytes
    → ReplaceServiceRequest
    → ℕ
    → Option Onboarded
    → Step W RolloutError ℕ
stage_first sub name req pct (some o) = do
  refuse (not o.has_host) (managed_only name)
  refuse o.has_canary (already_has_canary name)
  place_live name pct o.replicas (place_onboarded sub name req)
stage_first sub name req pct none =
    docker (call (sub.count_live_canary name)) >>= stage_counted sub name req pct

abbrev pub steps_or_default : List ℕ → List ℕ
steps_or_default [] = default_rollout_steps
steps_or_default (s ∷ steps) = s ∷ steps

abbrev pub of_result : {W A : Type 0} → Result RolloutError A → Step W RolloutError A
of_result r s = (r, s)

abbrev pub new_rollout : Bytes → Bytes → List ℕ → ℕ → ℕ → RolloutState
new_rollout name image steps orig now = record {
  service = name;
  image = image;
  steps = steps;
  step_idx = 0;
  status = awaiting_advance;
  orig_live_replicas = orig;
  last_error = [];
  started_at = now;
}

unfoldable pub start_rollout :
    {W : Type 0}
    → Substrate W
    → ℕ
    → Bytes
    → ReplaceServiceRequest
    → List ℕ
    → Step W RolloutError RolloutState
start_rollout sub now name req given = do
  refuse (req.image == []) image_required
  let steps = steps_or_default given
  of_result (validate_rollout_steps steps)
  existing ← get_rollout name
  refuse (is_active existing) (already_active name)
  o ← onboarded_svc sub name
  pct ← step_at steps 0
  orig ← stage_first sub name req pct o
  put_rollout name (new_rollout name req.image steps orig now)
  pure (new_rollout name req.image steps orig now)

abbrev pub is_awaiting : RolloutStatus → Bool
is_awaiting awaiting_advance = true
is_awaiting _ = false

abbrev pub check_unhealthy :
    {W : Type 0}
    → Substrate W
    → RolloutState
    → Result Bytes (Bool × Bytes)
    → Step W RolloutError (Unit {0})
check_unhealthy sub st (err e) = pure tt
check_unhealthy sub st (ok (true, reason)) = pure tt
check_unhealthy sub st (ok (false, reason)) = auto_rollback sub st reason >>= λ r. pure tt

abbrev pub check_tracked :
    {W : Type 0} → Substrate W → Bytes → Option RolloutState → Step W RolloutError (Unit {0})
check_tracked sub name none = pure tt
check_tracked sub name (some st) =
    when (is_awaiting st.status) (attempt (check_health sub name) >>= check_unhealthy sub st)

unfoldable pub check_one : {W : Type 0} → Substrate W → Bytes → Step W RolloutError (Unit {0})
check_one sub name = get_rollout name >>= check_tracked sub name

unfoldable pub check_each : {W : Type 0} → Substrate W → List Bytes → Step W RolloutError (Unit {0})
check_each sub [] = pure tt
check_each sub (name ∷ names) = check_one sub name >> check_each sub names

abbrev pub awaiting_names : Rollouts → List Bytes
awaiting_names rs = map (λ e. e.0) (filter (λ e. is_awaiting e.1.status) rs)

unfoldable pub check_all : {W : Type 0} → Substrate W → Step W RolloutError (Unit {0})
check_all sub s = check_each sub (sort_strings (awaiting_names s.rollouts)) s
