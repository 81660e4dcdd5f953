-- ===== src/Dashboard/Rollout/Steps.antt =====
-- cmd/dashboard/rollout.go: the steps of a ramp, and how many canaries a step asks for.
pub mod Bounds
use proxy_manager.Prelude.{
  ℕ, ◌+◌, ◌-◌, ◌*◌, ◌/◌, Bool, true, false, not, ◌||◌, List, [], ◌∷◌, Option, none, some, Bytes,
  nat_eq, ◌==◌, ltb, leb, if◌then◌else◌, length, get_elem?,
}
use proxy_manager.Prelude.Results.{Result, ok, err, ◌>>=◌, ◌>>◌, require}

abbrev pub default_rollout_steps : List ℕ
default_rollout_steps = 25 ∷ 50 ∷ 100 ∷ []

pub data RolloutError : Type 0 where
  image_required : RolloutError
  invalid_step not_ascending : ℕ → RolloutError
  not_ending_at_100 no_steps index_panic : RolloutError
  already_active managed_only already_has_canary no_live_replicas no_active_rollout :
      Bytes → RolloutError
  docker_error : Bytes → RolloutError

unfoldable pub check_steps : ℕ → List ℕ → Result RolloutError (Unit {0})
check_steps prev [] = ok tt
check_steps prev (s ∷ steps) = do
  require (not (s == 0 || ltb 100 s)) (invalid_step s)
  require (not (leb s prev)) (not_ascending s)
  check_steps s steps

-- `no_steps` is the panic of the index -1.
abbrev pub check_last : Option ℕ → Result RolloutError (Unit {0})
check_last none = err no_steps
check_last (some s) = require (s == 100) not_ending_at_100

unfoldable pub validate_rollout_steps : List ℕ → Result RolloutError (Unit {0})
validate_rollout_steps steps = do
  check_steps 0 steps
  check_last (get_elem? steps (length steps - 1))

unfoldable pub ceil_pct : ℕ → ℕ → ℕ
ceil_pct total pct = let n = (total * pct + 99) / 100 in if ltb n 1 then 1 else n
