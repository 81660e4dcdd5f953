-- ===== src/Dashboard/RollingOp/Exclusive.antt =====
-- cmd/dashboard/rollingop.go: `rollingOpManager` over sequences of starts and of the jobs' reports.
use proxy_manager.Prelude.{
  ℕ, ◌≡◌, ◌∙◌, refl, sym, ap, Bool, true, false, List, [], ◌∷◌, Option, none, some, Bytes, bytes_eq,
  ◌==◌, All, Bool-cases, inl, inr, arith,
}
use proxy_manager.Prelude.Assoc.{lookup, insert, lookup-insert}
use proxy_manager.Prelude.Results.{Result, ok, err}
use proxy_manager.Dashboard.RollingOp.{
  RollingOpState, RollingOps, rolling_op_active, changed_op, update_op, op_is_active, new_op,
  active_rolling_replace, start_with, job_progress, JobError, job_done,
}

pub data OpEvent : Type 0 where
  started : Bytes → Bytes → Bytes → ℕ → OpEvent
  progressed : Bytes → ℕ → ℕ → Bytes → Bytes → OpEvent
  ended : Bytes → Bytes → Result JobError (Unit {0}) → OpEvent

abbrev pub op_step : OpEvent → RollingOps → RollingOps
op_step (started name image kind now) ops = (start_with name image kind now ops).1
op_step (progressed name done total replica verdict) ops =
    update_op name (job_progress done total replica verdict) ops
op_step (ended name kind r) ops = update_op name (job_done kind r) ops

abbrev pub op_run : List OpEvent → RollingOps → RollingOps
op_run [] ops = ops
op_run (e ∷ es) ops = op_run es (op_step e ops)

-- The end of the job of a service.
abbrev pub ends_job : Bytes → OpEvent → Bool
ends_job svc (started name image kind now) = false
ends_job svc (progressed name done total replica verdict) = false
ends_job svc (ended name kind r) = name == svc

abbrev IsActive : Bytes → RollingOps → Type 0
IsActive svc ops = op_is_active (lookup svc ops) ≡ true

elsewhere :
    (svc name : Bytes) (r : RollingOpState) (ops : RollingOps)
    → (name == svc) ≡ false
    → IsActive svc ops
    → IsActive svc (insert name r ops)
elsewhere svc name r ops other active = rw (lookup-insert name svc r ops, other) active

here :
    (svc name : Bytes) (r : RollingOpState) (ops : RollingOps)
    → rolling_op_active r.status ≡ true
    → IsActive svc ops
    → IsActive svc (insert name r ops)
here svc name r ops running active = elim (Bool-cases (name == svc)) [
  | inl same ↦ rw (lookup-insert name svc r ops, same) running
  | inr other ↦ elsewhere svc name r ops other active
]

start_keeps :
    (svc name image kind : Bytes) (now : ℕ) (ops : RollingOps)
    → IsActive svc ops
    → IsActive svc (start_with name image kind now ops).1
unfolding start_with rolling_op_active
start_keeps svc name image kind now ops active =
    elim (Bool-cases (op_is_active (lookup name ops))) [
      | inl busy ↦ rw busy active
      | inr free ↦ rw free (here svc name (new_op name image kind now) ops refl active)
    ]

progress_keeps :
    (svc name : Bytes) (done total : ℕ) (replica verdict : Bytes) (ops : RollingOps)
    (o : Option RollingOpState)
    → lookup name ops ≡ o
    → IsActive svc ops
    → IsActive svc (changed_op name (job_progress done total replica verdict) ops o)
unfolding job_progress
progress_keeps svc name done total replica verdict ops none found active = active
progress_keeps svc name done total replica verdict ops (some r) found active =
    elim (Bool-cases (name == svc)) [
      | inr other ↦ elsewhere svc name (job_progress done total replica verdict r) ops other active
      | inl same ↦
          let known = ap (λ n. lookup n ops) ((bytes_eq.eq_test_iff name svc).0 same) in
          here svc name (job_progress done total replica verdict r) ops
            (ap op_is_active (sym found ∙ known) ∙ active) active
    ]

end_keeps :
    (svc name kind : Bytes) (res : Result JobError (Unit {0})) (ops : RollingOps)
    (o : Option RollingOpState)
    → (name == svc) ≡ false
    → IsActive svc ops
    → IsActive svc (changed_op name (job_done kind res) ops o)
end_keeps svc name kind res ops none other active = active
end_keeps svc name kind res ops (some r) other active =
    elsewhere svc name (job_done kind res r) ops other active

step_keeps :
    (svc : Bytes) (e : OpEvent) (ops : RollingOps)
    → ends_job svc e ≡ false
    → IsActive svc ops
    → IsActive svc (op_step e ops)
unfolding update_op
step_keeps svc (started name image kind now) ops keep active =
    start_keeps svc name image kind now ops active
step_keeps svc (progressed name done total replica verdict) ops keep active =
    progress_keeps svc name done total replica verdict ops (lookup name ops) refl active
step_keeps svc (ended name kind r) ops keep active =
    end_keeps svc name kind r ops (lookup name ops) keep active

run_keeps :
    (svc : Bytes) (es : List OpEvent) (ops : RollingOps)
    → All (λ e. ends_job svc e ≡ false) es
    → IsActive svc ops
    → IsActive svc (op_run es ops)
run_keeps svc [] ops keep active = active
run_keeps svc (e ∷ es) ops keep active =
    run_keeps svc es (op_step e ops) keep.1 (step_keeps svc e ops keep.0 active)

-- Once a rolling replace of a service has started, every further start for the service is refused and
-- changes nothing, whatever else happens, until the job of the service reports its end.
pub start_with-exclusive :
    (svc image kind image' kind' : Bytes) (now now' : ℕ) (ops : RollingOps) (st : RollingOpState)
    (es : List OpEvent)
    → (start_with svc image kind now ops).0 ≡ ok st
    → All (λ e. ends_job svc e ≡ false) es
    → start_with svc image' kind' now' (op_run es (start_with svc image kind now ops).1)
      ≡ (err (active_rolling_replace svc), op_run es (start_with svc image kind now ops).1)
unfolding start_with rolling_op_active
start_with-exclusive svc image kind image' kind' now now' ops st es went keep =
    rw (run_keeps svc es (start_with svc image kind now ops).1 keep running) refl
  where
    running : IsActive svc (start_with svc image kind now ops).1
    running = elim (Bool-cases (op_is_active (lookup svc ops))) [
      | inl busy ↦ absurd (ground (arith, went, busy))
      | inr free ↦
          rw
            (
              free,
              lookup-insert svc svc (new_op svc image kind now) ops,
              (bytes_eq.eq_test_iff svc svc).1 refl,
            )
            refl
    ]
