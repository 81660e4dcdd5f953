-- ===== src/Dashboard/Rollout/Tracked/Runs.antt =====
-- cmd/dashboard/rollout.go: sequences of requests and of the ticker's checks.
use proxy_manager.Prelude.{ℕ, List, [], ◌∷◌, Bytes}
use proxy_manager.Dashboard.Rollout.{ReplaceServiceRequest, Substrate, Manager}
use proxy_manager.Dashboard.Rollout.Control.{
  start_rollout, advance_rollout, abort_rollout, check_all,
}
use proxy_manager.Dashboard.Rollout.Tracked.Kept.{AllTracked}
use proxy_manager.Dashboard.Rollout.Tracked.Moves.{
  advance_rollout-Keeps, abort_rollout-Keeps, check_all-Keeps,
}
use proxy_manager.Dashboard.Rollout.Tracked.Starts.{start_rollout-Keeps}

pub data RolloutOp : Type 0 where
  start_op : ℕ → Bytes → ReplaceServiceRequest → List ℕ → RolloutOp
  advance_op abort_op : Bytes → RolloutOp
  tick_op : RolloutOp

module _ {W : Type 0} (sub : Substrate W) where
  abbrev pub do_op : RolloutOp → Manager W → Manager W
  do_op (start_op now name req steps) s = (start_rollout sub now name req steps s).1
  do_op (advance_op name) s = (advance_rollout sub name s).1
  do_op (abort_op name) s = (abort_rollout sub name s).1
  do_op tick_op s = (check_all sub s).1

  abbrev pub run_ops : List RolloutOp → Manager W → Manager W
  run_ops [] s = s
  run_ops (op ∷ ops) s = run_ops ops (do_op op s)

  op_keeps :
      (op : RolloutOp) (s : Manager W) → AllTracked s.rollouts → AllTracked (do_op op s).rollouts
  op_keeps (start_op now name req steps) = start_rollout-Keeps sub now name req steps
  op_keeps (advance_op name) = advance_rollout-Keeps sub name
  op_keeps (abort_op name) = abort_rollout-Keeps sub name
  op_keeps tick_op = check_all-Keeps sub

  run_keeps :
      (ops : List RolloutOp) (s : Manager W)
      → AllTracked s.rollouts
      → AllTracked (run_ops ops s).rollouts
  run_keeps [] s all = all
  run_keeps (op ∷ ops) s all = run_keeps ops (do_op op s) (op_keeps op s all)

  -- Whatever Docker answers, after every sequence of starts, advances, aborts and ticks each tracked
  -- rollout is of the service it is tracked under, ramps through valid steps, stands at one of them
  -- and began with a live replica.
  pub run_ops-AllTracked :
      (w : W) (ops : List RolloutOp)
      → AllTracked (run_ops ops (record { rollouts = []; world = w })).rollouts
  run_ops-AllTracked w ops =
      run_keeps ops (record { rollouts = []; world = w }) (λ name r found. cc)
