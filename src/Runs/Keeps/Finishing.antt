-- ===== src/Runs/Keeps/Finishing.antt =====
-- What becomes of a step whose spend is settled: whatever else the outcome changes is neutral.
use circuit_agent.Prelude.{
  ℕ, ◌+◌, ◌<◌, ◌≡◌, refl, arith, String, false, ◌||◌, Option, none, some, nat_eq, Bool-cases, inl,
  inr, truthy, map, all,
}
use circuit_agent.Plan.{StepStatus}
use circuit_agent.Runs.{
  Database, TaskRow, RunRow, StepRow, TaskStatus, RunState, patch_step, is_running_step,
  others_running, steps_of,
}
use circuit_agent.Runs.Lease.{queued_or_running}
use circuit_agent.Runs.Outcome.{
  OutcomeArgs, settle_spend, StepOutcome, completed, failed, checkpoint, resume_input, resumed_step,
  resume_step, finished_step, fail_run, effective_status, next_run_state, keep_preview,
  is_completed_run, complete_task, is_dispatchable, advance_run, with_reason, finish_failed,
  finish_completed, finish_checkpoint, finish_step, one_day,
}
use circuit_agent.Runs.Control.{runs_of}
use circuit_agent.Runs.Closed.{IsNeutral, resumes_of, KeepsResumes}
use circuit_agent.Runs.Keeps.{schedule_if-keeps, release_sandbox-keeps}
use circuit_agent.Budget.{ResumeAction, decide_step_resume, max_step_resumes}
use circuit_agent.Budget.Resume.{decide_step_resume_iff}

module _ (P : Database → Type 0) (neutral : IsNeutral P) where
  fail_run-keeps :
      (now : ℕ) (run : RunRow) (task : TaskRow) (db : Database)
      → P db
      → P (fail_run now run task db)
  fail_run-keeps now run task db sound =
      let failed_run =
        neutral.on_run run.id (λ r. record r { status = RunState.failed; completed_at = some now })
          db (λ r. (refl, refl, refl)) sound in
      neutral.on_rest _ _ refl refl refl refl (
        neutral.on_task task.id (λ t. record t { status = TaskStatus.blocked }) _
          (λ t. (refl, refl, refl, refl))
          (release_sandbox-keeps P neutral run (truthy run.sandbox_id) _ failed_run))

  keep_preview-keeps :
      (now : ℕ) (run : RunRow) (sandbox : Option String) (db : Database)
      → P db
      → P (keep_preview now run sandbox db)
  keep_preview-keeps now run none db sound = sound
  keep_preview-keeps now run (some sandbox_id) db sound = neutral.on_rest _ _ refl refl refl refl (
      neutral.on_run run.id (λ r. record r { preview_expires_at = some (now + one_day) }) db
        (λ r. (refl, refl, refl)) sound)

  complete_task-keeps :
      (now : ℕ) (run : RunRow) (task : TaskRow) (db : Database)
      → P db
      → P (complete_task now run task db)
  complete_task-keeps now run task db sound =
      elim (Bool-cases
        (all (λ r. nat_eq r.id run.id || is_completed_run r.status) (runs_of task.id db.runs))) [
          | inl over ↦ rw over (
              neutral.on_rest _ _ refl refl refl refl (
                neutral.on_task task.id (λ t. record t { status = TaskStatus.completed }) db
                  (λ t. (refl, refl, refl, refl)) sound))
          | inr more ↦ rw more sound
        ]

  advance_run-keeps :
      (now : ℕ) (run : RunRow) (step : StepRow) (task : TaskRow) (db : Database)
      → P db
      → P (advance_run now run step task db)
  advance_run-keeps now run step task db sound =
      let next = next_run_state (map (effective_status step.id) (steps_of run.id db.steps)) in
      elim (Bool-cases (is_completed_run next)) [
        | inl over ↦ rw over (
            complete_task-keeps now run task _ (
              keep_preview-keeps now run (truthy run.sandbox_id) _ (
                neutral.on_run run.id (λ r. record r { status = next; completed_at = some now }) db
                  (λ r. (refl, refl, refl)) sound)))
        | inr more ↦ rw more (
            schedule_if-keeps P neutral (is_dispatchable next) _ _ (
              neutral.on_run run.id (λ r. record r { status = next }) db (λ r. (refl, refl, refl))
                sound))
      ]

  module _ (args : OutcomeArgs) (now : ℕ) (run : RunRow) (step : StepRow) (task : TaskRow)
      (db : Database)
      (settled : (h : StepRow → StepRow)
        → is_running_step (h step).status ≡ false
        → ((s : StepRow) → ((h s).id ≡ s.id) × ((h s).run_id ≡ s.run_id))
        → KeepsResumes h step
        → P (patch_step step.id h (settle_spend args task run step db))) where
    finish_failed-keeps :
        (reason : Option String)
        → P (finish_failed args now run step task reason (settle_spend args task run step db))
    finish_failed-keeps reason = fail_run-keeps now run task _ (
        neutral.on_rest _ _ refl refl refl refl (
          settled
            (finished_step args now StepStatus.failed (with_reason args.summary (truthy reason)))
            refl (λ s. (refl, refl)) ((λ bound. bound), omega arith, λ e. absurd (cc e))))

    finish_completed-keeps :
        P (finish_completed args now run step task (settle_spend args task run step db))
    finish_completed-keeps = advance_run-keeps now run step task _ (
        neutral.on_rest _ _ refl refl refl refl (
          settled (finished_step args now StepStatus.completed args.summary) refl
            (λ s. (refl, refl)) ((λ bound. bound), omega arith, λ e. absurd (cc e))))

    resume_step-keeps :
        (reason : String)
        → resumes_of step < max_step_resumes
        → P (resume_step args now run step reason (settle_spend args task run step db))
    resume_step-keeps reason left =
        let stepped =
          settled (resumed_step args step) refl (λ s. (refl, refl))
            ((λ bound. ground (arith, left)), omega arith, λ e. inr (omega arith)) in
        neutral.on_rest _ _ refl refl refl refl (
          neutral.on_run run.id
            (λ r. record r {
              status = queued_or_running (
                  others_running
                    (patch_step step.id (resumed_step args step)
                      (settle_spend args task run step db))
                    run.id step.id);
            })
            _ (λ r. (refl, refl, refl)) stepped)

    finish_checkpoint-keeps :
        (action : ResumeAction) (reason : String)
        → (action ≡ ResumeAction.resume → resumes_of step < max_step_resumes)
        → P (
            finish_checkpoint args now run step task
              (record { action = action; reason = reason })
              (settle_spend args task run step db))
    finish_checkpoint-keeps ResumeAction.resume reason left = resume_step-keeps reason (left refl)
    finish_checkpoint-keeps ResumeAction.finalize reason left = finish_failed-keeps (some reason)

    pub finish_step-keeps :
        (outcome : StepOutcome)
        → P (finish_step args now run step task outcome (settle_spend args task run step db))
    finish_step-keeps completed = finish_completed-keeps
    finish_step-keeps failed = finish_failed-keeps none
    finish_step-keeps checkpoint =
        let decision = decide_step_resume (resume_input args task step) in
        finish_checkpoint-keeps decision.action decision.reason
          (λ goes_on. ((decide_step_resume_iff (resume_input args task step)).0 goes_on).1)
