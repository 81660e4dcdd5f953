-- ===== src/Dashboard/RollingOp.antt =====
-- cmd/dashboard/rollingop.go: `rollingOpManager`, the rolling replace that each service is in. What the
-- background job reports is a step of its own: its progress, and its end. The text of an error is
-- taken as scrubEnvValues left it.
pub mod Exclusive
mod Examples
use proxy_manager.Prelude.{
  ℕ, Bool, true, false, List, [], ◌∷◌, ◌++◌, Option, none, some, Bytes, bytes_eq, codes, ◌==◌,
  if◌then◌else◌,
}
use proxy_manager.Prelude.Assoc.{lookup, insert}
use proxy_manager.Prelude.Results.{Result, ok, err}

pub data RollingOpStatus : Type 0 where
  op_running op_completed op_failed : RollingOpStatus

pub record RollingOpReplica : Type 0 where
  pub name : Bytes
  pub verdict : Bytes

pub record RollingOpState : Type 0 where
  pub service : Bytes
  pub image : Bytes
  pub done : ℕ
  pub total : ℕ
  pub status : RollingOpStatus
  pub kind : Bytes
  pub note : Bytes
  pub last_error : Bytes
  pub started_at : ℕ
  pub replicas : List RollingOpReplica

unfoldable pub rolling_op_active : RollingOpStatus → Bool
rolling_op_active op_running = true
rolling_op_active op_completed = false
rolling_op_active op_failed = false

abbrev pub rolling_kind_restart : Bytes
rolling_kind_restart = codes "restart"

abbrev pub RollingOps : Type 0
RollingOps = List (Bytes × RollingOpState)

unfoldable pub get_op : RollingOps → Bytes → Option RollingOpState
get_op ops name = lookup name ops

abbrev pub changed_op :
    Bytes → (RollingOpState → RollingOpState) → RollingOps → Option RollingOpState → RollingOps
changed_op name f ops none = ops
changed_op name f ops (some r) = insert name (f r) ops

unfoldable pub update_op : Bytes → (RollingOpState → RollingOpState) → RollingOps → RollingOps
update_op name f ops = changed_op name f ops (lookup name ops)

abbrev pub op_is_active : Option RollingOpState → Bool
op_is_active none = false
op_is_active (some r) = rolling_op_active r.status

-- A dash between blanks, in UTF-8.
abbrev em_dash : Bytes
em_dash = b' ' ∷ 0xE2 ∷ 0x80 ∷ 0x94 ∷ b' ' ∷ []

unfoldable pub restart_note : Bytes → Bytes → Bytes
restart_note kind image =
    if kind == rolling_kind_restart
    then codes "restart recreates from "
      ++ (image
          ++ (em_dash
              ++ codes "whatever that reference currently points to on this host (not re-pulled)"))
    else []

abbrev pub new_op : Bytes → Bytes → Bytes → ℕ → RollingOpState
new_op name image kind now = record {
  service = name;
  image = image;
  done = 0;
  total = 0;
  status = op_running;
  kind = kind;
  note = restart_note kind image;
  last_error = [];
  started_at = now;
  replicas = [];
}

pub data StartError : Type 0 where
  active_rolling_replace : Bytes → StartError

-- The guard and the insert, under one hold of the mutex: the state that is returned, and the map.
unfoldable pub start_with :
    Bytes → Bytes → Bytes → ℕ → RollingOps → Result StartError RollingOpState × RollingOps
start_with name image kind now ops =
    if op_is_active (lookup name ops)
    then (err (active_rolling_replace name), ops)
    else (let st = new_op name image kind now in (ok st, insert name st ops))

abbrev pub add_replica : Bytes → Bytes → List RollingOpReplica → List RollingOpReplica
add_replica [] verdict rs = rs
add_replica (c ∷ name) verdict rs = rs ++ record { name = c ∷ name; verdict = verdict } ∷ []

unfoldable pub job_progress : ℕ → ℕ → Bytes → Bytes → RollingOpState → RollingOpState
job_progress done total replica verdict s = record s {
  done = done;
  total = total;
  replicas = add_replica replica verdict s.replicas;
}

-- How the job failed: at the health gate of a new replica, or elsewhere.
pub data JobError : Type 0 where
  gate_failed other_failure : Bytes → JobError

unfoldable pub failure_note : Bytes → JobError → Bytes
failure_note kind (other_failure e) = e
failure_note kind (gate_failed e) =
    if kind == rolling_kind_restart
    then codes "new replica never became healthy"
      ++ (em_dash ++ (codes "removed; old replica still serving: " ++ e))
    else e

unfoldable pub job_done : Bytes → Result JobError (Unit {0}) → RollingOpState → RollingOpState
job_done kind (ok u) s = record s { status = op_completed }
job_done kind (err e) s = record s { status = op_failed; last_error = failure_note kind e }
