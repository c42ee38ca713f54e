-- ===== src/Runs/Recovery.antt =====
-- apps/web/convex/agentRuns.ts: the sweep over leases that are over.
use circuit_agent.Prelude.{
  ℕ, suc, String, Bool, true, ◌&&◌, ◌||◌, Option, none, some, List, [], ◌∷◌, ltb, leb,
  if◌then◌else◌, filter, take, length, sort, by_key, Result, ok, ◌>>=◌, ◌>>◌, throw_if, or_else,
}
use circuit_agent.Plan.{StepStatus}
use circuit_agent.Runs.{
  Database, TaskRow, RunRow, StepRow, TaskStatus, RunState, task_key, run_key, patch_task,
  patch_run, patch_step, log_run, is_cancelled_run, is_running_step,
}
use circuit_agent.Runs.Table.{get}
use circuit_agent.Runs.Lease.{reservation, free}
use circuit_agent.Runs.Claim.{released}
use circuit_agent.Runs.Control.{release_run_sandbox}

abbrev pub lease_before : Option ℕ → ℕ → Bool
lease_before none now = true
lease_before (some expires_at) now = ltb expires_at now

-- An absent field is indexed before every number.
abbrev pub lease_is_over : ℕ → StepRow → Bool
lease_is_over now step = is_running_step step.status && lease_before step.lease_expires_at now

abbrev pub ended_step : ℕ → StepStatus → String → StepRow → StepRow
ended_step now status summary s = record s {
  status = status;
  completed_at = some now;
  summary = some summary;
  lease_expires_at = none;
  heartbeat_at = none;
  sandbox_id = none;
  reserved_rwf = none;
}

pub record Recovery : Type 0 where
  pub scanned : ℕ
  pub retried : ℕ
  pub failed : ℕ
  pub cancelled : ℕ

pub data Fate : Type 0 where
  cancelled failed retried : Fate

abbrev pub fate : ℕ → RunRow → StepRow → Fate
fate max_attempts run step =
    if is_cancelled_run run.status
    then Fate.cancelled
    else if leb max_attempts step.attempts
    then Fate.failed
    else Fate.retried

abbrev pub fate_message : Fate → String
fate_message Fate.cancelled =
    "Step released its reservation after the cancelled run's worker lease expired."
fate_message Fate.failed = "Step failed after its worker lease expired repeatedly."
fate_message Fate.retried = "Step returned to the queue after its worker lease expired."

abbrev pub apply_fate : ℕ → RunRow → StepRow → TaskRow → Fate → Database → Database
apply_fate now run step task Fate.cancelled db =
    patch_step step.id
      (ended_step now StepStatus.cancelled "Worker lease expired after the run was cancelled.") db
apply_fate now run step task Fate.failed db =
    let ended =
      patch_step step.id
        (ended_step now StepStatus.failed "Worker lease expired after the retry limit.") db in
    let failed_run =
      patch_run run.id (λ r. record r { status = RunState.failed; completed_at = some now })
        ended in
    release_run_sandbox run
      (patch_task task.id (λ t. record t { status = TaskStatus.blocked }) failed_run)
apply_fate now run step task Fate.retried db =
    patch_run run.id (λ r. record r { status = RunState.queued })
      (patch_step step.id (released StepStatus.pending) db)

abbrev pub count_fate : Fate → Recovery → Recovery
count_fate Fate.cancelled tally = record tally { cancelled = suc tally.cancelled }
count_fate Fate.failed tally = record tally { failed = suc tally.failed }
count_fate Fate.retried tally = record tally { retried = suc tally.retried }

abbrev pub recover_found :
    ℕ → ℕ → RunRow → StepRow → TaskRow → Database → Recovery → Result (Database × Recovery)
recover_found max_attempts now run step task db tally = do
  throw_if (ltb task.reserved_rwf (reservation step))
      "Expired step reservation exceeds task balance"
  ok (
    log_run run.id "lease_expired" (fate_message (fate max_attempts run step)) now
        (apply_fate now run step task (fate max_attempts run step) (free task step db)),
    count_fate (fate max_attempts run step) tally,
  )

-- A step whose run or task is gone is passed over.
abbrev pub recover_of :
    ℕ → ℕ → RunRow → StepRow → Option TaskRow → Database → Recovery → Result (Database × Recovery)
recover_of max_attempts now run step none db tally = ok (db, tally)
recover_of max_attempts now run step (some task) db tally =
    recover_found max_attempts now run step task db tally

abbrev pub recover_step :
    ℕ → ℕ → StepRow → Option RunRow → Database → Recovery → Result (Database × Recovery)
recover_step max_attempts now step none db tally = ok (db, tally)
recover_step max_attempts now step (some run) db tally =
    recover_of max_attempts now run step (get task_key run.task_id db.tasks) db tally

unfoldable pub recover_steps :
    ℕ → ℕ → List StepRow → Database × Recovery → Result (Database × Recovery)
recover_steps max_attempts now [] (db, tally) = ok (db, tally)
recover_steps max_attempts now (step ∷ steps) (db, tally) = do
  next ← recover_step max_attempts now step (get run_key step.run_id db.runs) db tally
  recover_steps max_attempts now steps next

-- At most a hundred steps in one sweep, those whose lease ended first.
abbrev pub expired_steps : ℕ → List StepRow → List StepRow
expired_steps now steps =
    take 100
      (sort (by_key (λ step. or_else step.lease_expires_at 0)) (filter (lease_is_over now) steps))

unfoldable pub recover_expired_leases : ℕ → ℕ → Database → Result (Database × Recovery)
unfolding recover_steps
recover_expired_leases max_attempts now db = do
  throw_if (ltb max_attempts 1 || ltb 10 max_attempts)
      "maxAttempts must be an integer between 1 and 10"
  recover_steps max_attempts now (expired_steps now db.steps) (
    db,
    record {
      scanned = length (expired_steps now db.steps);
      retried = 0;
      failed = 0;
      cancelled = 0;
    },
  )
