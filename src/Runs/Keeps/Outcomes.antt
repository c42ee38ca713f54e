-- ===== src/Runs/Keeps/Outcomes.antt =====
-- The outcome of a step keeps what is closed.
use circuit_agent.Prelude.{
  ℕ, ◌+◌, ◌≡◌, refl, subst, true, not, ◌&&◌, Option, none, some, ltb, arith, Bool-cases, inl, inr,
  trim, is_blank, ok, ◌>>=◌, >>=-returns, throw_if-passed,
}
use circuit_agent.Plan.{is_empty}
use circuit_agent.Runs.{
  Database, TaskRow, RunRow, StepRow, UsageRow, run_key, step_key_of, is_running_step,
  is_cancelled_run, find_run_step, find_task,
}
use circuit_agent.Runs.Table.{get}
use circuit_agent.Runs.Sound.{IsFound}
use circuit_agent.Runs.Claim.{claimed_by_worker}
use circuit_agent.Runs.Lease.{reservation, is_expired}
use circuit_agent.Runs.Outcome.{
  OutcomeArgs, settle_spend, recorded_usage, is_failure, is_same_usage, finish_step, lacks_evidence,
  settle_owned, record_new_outcome, record_outcome, outcome_checked, record_step_outcome,
}
use circuit_agent.Runs.Closed.{IsClosed}
use circuit_agent.Runs.Keeps.{find_run_step-finds, find_task-finds}
use circuit_agent.Runs.Keeps.Finishing.{finish_step-keeps}

module _ (P : Database → Type 0) (closed : IsClosed P) where
  settle_owned-keeps :
      (args : OutcomeArgs) (now : ℕ) (run : RunRow) (step : StepRow) (task : TaskRow)
      (db after : Database)
      → IsFound db run step task
      → is_running_step step.status ≡ true
      → settle_owned args now run step task db ≡ ok after
      → recorded_usage args db ≡ none
      → P db
      → P after
  settle_owned-keeps args now run step task db after found runs e fresh sound =
      let covered =
        throw_if-passed (ltb task.reserved_rwf (reservation step))
          "Step reservation exceeds task reserved balance" _ after e in
      let within =
        throw_if-passed (ltb (reservation step) args.actual_rwf)
          "Actual usage exceeds the step reservation" _ after covered.1 in
      let fits =
        throw_if-passed (ltb task.max_rwf (task.spent_rwf + args.actual_rwf))
          "Usage exceeds approved task cap" _ after within.1 in
      let evident =
        throw_if-passed (lacks_evidence args step db)
          "A non-failure outcome references an artifact that was not recorded for this step" _ after
          fits.1 in
      let same : finish_step args now run step task args.outcome
            (settle_spend args task run step db)
          ≡ after =
        cc evident.1 in
      subst (λ d. P d) same
        (finish_step-keeps P closed.neutral args now run step task db
          (λ h over keeps counted.
            closed.on_settle args run step task h db found runs over keeps counted covered.0
              within.0 fresh sound)
          args.outcome)

  record_new_outcome-keeps :
      (args : OutcomeArgs) (now : ℕ) (run : RunRow) (step : StepRow) (db after : Database)
      → get step_key_of step.id db.steps ≡ some step
      → get run_key step.run_id db.runs ≡ some run
      → record_new_outcome args now run step db ≡ ok after
      → recorded_usage args db ≡ none
      → P db
      → P after
  record_new_outcome-keeps args now run step db after here_step here_run e fresh sound =
      let owned =
        throw_if-passed (not (claimed_by_worker step args.worker_id))
          "Worker does not own this running step lease" _ after e in
      let held_still =
        throw_if-passed (is_expired step.lease_expires_at now) "Worker step lease has expired" _
          after owned.1 in
      let live =
        throw_if-passed (is_cancelled_run run.status) "Run is cancelled" _ after held_still.1 in
      let (task, found, result) =
        >>=-returns (find_task db run.task_id) (λ task. settle_owned args now run step task db)
          after live.1 in
      let here : IsFound db run step task = record {
        found_step = here_step;
        found_run = here_run;
        found_task = find_task-finds db run.task_id task found;
      } in
      let runs : is_running_step step.status ≡ true = ground (arith, owned.0) in
      settle_owned-keeps args now run step task db after here runs result fresh sound

  record_outcome-keeps :
      (args : OutcomeArgs) (now : ℕ) (run : RunRow) (step : StepRow) (recorded : Option UsageRow)
      (db after : Database)
      → get step_key_of step.id db.steps ≡ some step
      → get run_key step.run_id db.runs ≡ some run
      → record_outcome args now run step recorded db ≡ ok after
      → recorded_usage args db ≡ recorded
      → P db
      → P after
  record_outcome-keeps args now run step none db after here_step here_run e fresh sound =
      record_new_outcome-keeps args now run step db after here_step here_run e fresh sound
  record_outcome-keeps args now run step (some usage) db after here_step here_run e known_usage
        sound =
      elim (Bool-cases (is_same_usage args run usage)) [
        | inl known ↦ let same : db ≡ after = cc (rw known at e) in subst (λ d. P d) same sound
        | inr collides ↦ cc (rw collides at e)
      ]

  pub record_step_outcome-keeps :
      (args : OutcomeArgs) (now : ℕ) (db after : Database)
      → record_step_outcome args now db ≡ ok after
      → P db
      → P after
  unfolding record_step_outcome
  record_step_outcome-keeps args now db after e sound =
      let summarised =
        throw_if-passed (is_blank (trim args.summary))
          "A worker outcome requires a non-empty summary" (outcome_checked args now db) after e in
      let evidenced =
        throw_if-passed (not (is_failure args.outcome) && is_empty args.artifact_references)
          "A non-failure outcome requires at least one evidence reference"
          (find_run_step db args.run_id args.step_id "Run step not found" >>= λ (run, step).
            record_outcome args now run step (recorded_usage args db) db)
          after summarised.1 in
      let ((run, step), found, result) =
        >>=-returns (find_run_step db args.run_id args.step_id "Run step not found")
          (λ (run, step). record_outcome args now run step (recorded_usage args db) db) after
          evidenced.1 in
      let (here_step, here_run) =
        find_run_step-finds db args.run_id args.step_id "Run step not found" run step found in
      record_outcome-keeps args now run step (recorded_usage args db) db after here_step here_run
        result refl sound
