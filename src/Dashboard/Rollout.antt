-- ===== src/Dashboard/Rollout.antt =====
-- cmd/dashboard/rollout.go: staged canary rollouts. A call that holds the service's lock is one step on
-- the tracked rollouts and on the world `W` of the containers. What it asks of Docker and of the store
-- of onboarded services (docker.go, onboarded.go) is the interface `Substrate`; a difference of
-- replica counts is cut at 0, which the steps up to 100 per cent never meet.
pub mod Steps
pub mod Control
pub mod Tracked
pub mod Gate
pub mod Progress
pub mod Completion
mod Examples
use proxy_manager.Prelude.{
  ℕ, zero, suc, ◌+◌, ◌-◌, Bool, true, false, not, ◌&&◌, ◌||◌, List, [], ◌∷◌, ◌++◌, map, Option,
  none, some, Bytes, bytes_eq, nat_eq, codes, ◌==◌, ltb, leb, if◌then◌else◌, length, get_elem?,
  filter,
}
use proxy_manager.Prelude.Assoc.{lookup, insert}
use proxy_manager.Prelude.Strings.{sort_strings}
use proxy_manager.Prelude.Results.{Result, ok, err}
use proxy_manager.Dashboard.Rollout.Steps.{
  RolloutError, image_required, index_panic, already_active, managed_only, already_has_canary,
  no_live_replicas, no_active_rollout, docker_error, default_rollout_steps, validate_rollout_steps,
  ceil_pct,
}

pub data RolloutStatus : Type 0 where
  awaiting_advance rolling_back rolled_back completed failed : RolloutStatus

pub record RolloutState : Type 0 where
  pub service : Bytes
  pub image : Bytes
  pub steps : List ℕ
  pub step_idx : ℕ
  pub status : RolloutStatus
  pub orig_live_replicas : ℕ
  pub last_error : Bytes
  pub started_at : ℕ

unfoldable pub rollout_active : RolloutStatus → Bool
rollout_active awaiting_advance = true
rollout_active rolling_back = true
rollout_active rolled_back = false
rollout_active completed = false
rollout_active failed = false

-- What an OnboardedService tells of its rollouts.
pub record Onboarded : Type 0 where
  pub has_host : Bool
  pub has_canary : Bool
  pub port : ℕ
  pub replicas : ℕ
  pub canary_replicas : ℕ

pub record ReplaceServiceRequest : Type 0 where
  pub image : Bytes
  pub env : List (Bytes × Bytes)
  pub env_ack : List Bytes

-- A call on the world: an error's text or a result, and the world after it.
abbrev pub Call : Type 0 → Type 0 → Type 0
Call W A = W → Result Bytes A × W

-- The methods of dockerClient and OnboardedStore that rollouts call. `count_live_canary` is listAll
-- with the lengths of liveOnly and canaryOnly; a health check answers with its reason.
pub record Substrate (W : Type 0) : Type 0 where
  pub onboarded : W → Bytes → Option Onboarded
  pub count_live_canary : Bytes → Call W (ℕ × ℕ)
  pub check_onboarded_canary : Bytes → ℕ → Call W (Bool × Bytes)
  pub check_canary : Bytes → Call W (Bool × Bytes)
  pub stage_onboarded_canary : Bytes → ReplaceServiceRequest → ℕ → Call W (Unit {0})
  pub create_canary_replicas : Bytes → ReplaceServiceRequest → ℕ → Call W (Unit {0})
  pub scale_onboarded_canary : Bytes → ℕ → Call W (Unit {0})
  pub scale_canary : Bytes → ℕ → Call W (Unit {0})
  pub scale_onboarded : Bytes → ℕ → Call W (Unit {0})
  pub scale_service : Bytes → ℕ → Call W (Unit {0})
  pub promote_onboarded : Bytes → Call W (Unit {0})
  pub promote_canary : Bytes → Call W (Unit {0})
  pub set_replicas : Bytes → ℕ → Call W (Unit {0})
  pub discard_onboarded : Bytes → Call W (Unit {0})
  pub discard_canary : Bytes → Call W (Unit {0})
  pub proxy_refresh : W → W

abbrev pub Rollouts : Type 0
Rollouts = List (Bytes × RolloutState)

pub record Manager (W : Type 0) : Type 0 where
  pub rollouts : Rollouts
  pub world : W

-- A step that may fail with an `E`, on the manager.
abbrev pub Step : Type 0 → Type 0 → Type 0 → Type 0
Step W E A = Manager W → Result E A × Manager W

abbrev pub after {ℓ} :
    {W E A : Type 0} {B : Type ℓ}
    → (A → Manager W → B)
    → (E → Manager W → B)
    → Result E A × Manager W
    → B
after f g (ok a, s) = f a s
after f g (err e, s) = g e s

infixl 5 ◌>>=◌ ◌>>◌
abbrev pub ◌>>=◌ : {W E A B : Type 0} → Step W E A → (A → Step W E B) → Step W E B
(m >>= f) s = after f (λ e s'. (err e, s')) (m s)

abbrev pub ◌>>◌ : {W E B : Type 0} → Step W E (Unit {0}) → Step W E B → Step W E B
m >> k = m >>= λ u. k

abbrev pub pure : {W E A : Type 0} → A → Step W E A
pure a s = (ok a, s)

abbrev pub fail : {W E A : Type 0} → E → Step W E A
fail e s = (err e, s)

-- `if err := m; err != nil`
abbrev pub attempt : {W E E' A : Type 0} → Step W E A → Step W E' (Result E A)
attempt m s = after (λ a s'. (ok (ok a), s')) (λ e s'. (ok (err e), s')) (m s)

-- `if err != nil { return nil, err }` on an error of Docker.
abbrev pub docker : {W A : Type 0} → Step W Bytes A → Step W RolloutError A
docker m s = after (λ a s'. (ok a, s')) (λ e s'. (err (docker_error e), s')) (m s)

abbrev pub in_world : {W A : Type 0} → Rollouts → Result Bytes A × W → Result Bytes A × Manager W
in_world rs (r, w) = (r, record { rollouts = rs; world = w })

abbrev pub call : {W A : Type 0} → Call W A → Step W Bytes A
call f s = in_world s.rollouts (f s.world)

abbrev pub refresh : {W E : Type 0} → Substrate W → Step W E (Unit {0})
refresh sub s = (ok tt, record s { world = sub.proxy_refresh s.world })

abbrev pub onboarded_svc : {W E : Type 0} → Substrate W → Bytes → Step W E (Option Onboarded)
onboarded_svc sub name s = (ok (sub.onboarded s.world name), s)

abbrev pub get_rollout : {W E : Type 0} → Bytes → Step W E (Option RolloutState)
get_rollout name s = (ok (lookup name s.rollouts), s)

abbrev pub changed :
    Bytes → (RolloutState → RolloutState) → Rollouts → Option RolloutState → Rollouts
changed name f rs none = rs
changed name f rs (some r) = insert name (f r) rs

abbrev pub update_rollout :
    {W E : Type 0} → Bytes → (RolloutState → RolloutState) → Step W E (Unit {0})
update_rollout name f s =
    (ok tt, record s { rollouts = changed name f s.rollouts (lookup name s.rollouts) })

abbrev pub put_rollout : {W E : Type 0} → Bytes → RolloutState → Step W E (Unit {0})
put_rollout name r s = (ok tt, record s { rollouts = insert name r s.rollouts })

abbrev pub set_status : RolloutStatus → Bytes → RolloutState → RolloutState
set_status status e r = record r { status = status; last_error = e }

abbrev pub rolling : RolloutState → RolloutState
rolling r = record r { status = rolling_back }

abbrev pub is_some : {A : Type 0} → Option A → Bool
is_some none = false
is_some (some a) = true

abbrev pub check_health_of :
    {W : Type 0} → Substrate W → Bytes → Option Onboarded → Step W Bytes (Bool × Bytes)
check_health_of sub name none = call (sub.check_canary name)
check_health_of sub name (some o) = call (sub.check_onboarded_canary name o.port)

unfoldable pub check_health : {W : Type 0} → Substrate W → Bytes → Step W Bytes (Bool × Bytes)
check_health sub name = onboarded_svc sub name >>= check_health_of sub name

abbrev pub scale_canary_of :
    {W : Type 0} → Substrate W → Bytes → ℕ → Option Onboarded → Step W Bytes (Unit {0})
scale_canary_of sub name target none = call (sub.scale_canary name target)
scale_canary_of sub name target (some o) =
    call (sub.scale_onboarded_canary name target) >> refresh sub

unfoldable pub scale_canary_to : {W : Type 0} → Substrate W → Bytes → ℕ → Step W Bytes (Unit {0})
scale_canary_to sub name target = onboarded_svc sub name >>= scale_canary_of sub name target

abbrev pub scale_live_of :
    {W : Type 0} → Substrate W → Bytes → ℕ → Option Onboarded → Step W Bytes (Unit {0})
scale_live_of sub name target none = call (sub.scale_service name target)
scale_live_of sub name target (some o) = call (sub.scale_onboarded name target) >> refresh sub

unfoldable pub scale_live_to : {W : Type 0} → Substrate W → Bytes → ℕ → Step W Bytes (Unit {0})
scale_live_to sub name zero = pure tt
scale_live_to sub name (suc target) = onboarded_svc sub name >>= scale_live_of sub name (suc target)

abbrev pub promote_of :
    {W : Type 0} → Substrate W → Bytes → Option Onboarded → Step W Bytes (Unit {0})
promote_of sub name none = call (sub.promote_canary name)
promote_of sub name (some o) =
    call (sub.promote_onboarded name)
    >> refresh sub
    >> call (sub.set_replicas name o.canary_replicas)

unfoldable pub promote : {W : Type 0} → Substrate W → Bytes → Step W Bytes (Unit {0})
promote sub name = onboarded_svc sub name >>= promote_of sub name

abbrev pub discard_of :
    {W : Type 0} → Substrate W → Bytes → Option Onboarded → Step W Bytes (Unit {0})
discard_of sub name none = call (sub.discard_canary name)
discard_of sub name (some o) = call (sub.discard_onboarded name) >> refresh sub

unfoldable pub discard : {W : Type 0} → Substrate W → Bytes → Step W Bytes (Unit {0})
discard sub name = onboarded_svc sub name >>= discard_of sub name

abbrev pub when : {W E : Type 0} → Bool → Step W E (Unit {0}) → Step W E (Unit {0})
when true m = m
when false m = pure tt

abbrev pub rollback_of :
    {W : Type 0} → Substrate W → RolloutState → Option Onboarded → Step W Bytes (Unit {0})
rollback_of sub st none = do
  (live, canary) ← call (sub.count_live_canary st.service)
  when (ltb 0 canary) (call (sub.discard_canary st.service))
  call (sub.scale_service st.service st.orig_live_replicas)
rollback_of sub st (some o) = do
  when o.has_canary (discard sub st.service)
  scale_live_to sub st.service st.orig_live_replicas

unfoldable pub rollback_containers :
    {W : Type 0} → Substrate W → RolloutState → Step W Bytes (Unit {0})
rollback_containers sub st = onboarded_svc sub st.service >>= rollback_of sub st

abbrev pub failure_text : Bytes → Result Bytes (Unit {0}) → Bytes
failure_text reason (ok u) = reason
failure_text reason (err e) =
    codes "auto-rollback failed after unhealthy canary (" ++ (reason ++ (codes "): " ++ e))

unfoldable pub auto_rollback :
    {W : Type 0} → Substrate W → RolloutState → Bytes → Step W RolloutError (Option RolloutState)
auto_rollback sub st reason = do
  update_rollout st.service rolling
  r ← attempt (rollback_containers sub st)
  update_rollout st.service (set_status failed (failure_text reason r))
  get_rollout st.service
