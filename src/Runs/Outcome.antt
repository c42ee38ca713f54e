-- ===== src/Runs/Outcome.antt =====
-- apps/web/convex/agentRuns.ts: a worker records what came of its step. The spend is settled first;
-- then the step is resumed, or it is over and its run and task follow.
use circuit_agent.Prelude.{
  ℕ, ◌+◌, ◌-◌, String, Bool, true, false, not, ◌&&◌, ◌||◌, Option, none, some, List, [], ◌∷◌, ◌++◌,
  map, ltb, nat_eq, if◌then◌else◌, any, all, find, Result, ok, err, ◌>>=◌, ◌>>◌, throw_if, template,
  trim, is_blank, or_else, truthy, ◌==◌,
}
use circuit_agent.Budget.{StepResumeDecision, ResumeAction, ResumeInput, decide_step_resume}
use circuit_agent.Plan.{StepStatus, is_empty}
use circuit_agent.Runs.{
  Database, TaskRow, RunRow, StepRow, UsageRow, TaskStatus, RunState, Scheduled, patch_task,
  patch_run, patch_step, log_run, log_task, schedule, find_run_step, find_task, steps_of,
  is_cancelled_run, others_running,
}
use circuit_agent.Runs.Claim.{claimed_by_worker, is_completed_step, schedule_if}
use circuit_agent.Runs.Lease.{reservation, queued_or_running, is_expired}
use circuit_agent.Runs.Control.{release_run_sandbox, runs_of}

pub data StepOutcome : Type 0 where
  completed failed checkpoint : StepOutcome

-- `quantity` is a natural number here; the source refuses one that is negative or not finite.
pub record OutcomeArgs : Type 0 where
  pub run_id : ℕ
  pub step_id : ℕ
  pub worker_id : String
  pub actual_rwf : ℕ
  pub provider : String
  pub meter : String
  pub quantity : ℕ
  pub usage_idempotency_key : String
  pub outcome : StepOutcome
  pub next_attempt_estimate_rwf : Option ℕ
  pub summary : String
  pub artifact_references : List String

abbrev pub is_failure : StepOutcome → Bool
is_failure failed = true
is_failure _ = false

abbrev pub usage_row : OutcomeArgs → TaskRow → RunRow → StepRow → UsageRow
usage_row args task run step = record {
  task_id = task.id;
  run_id = run.id;
  step_id = step.id;
  provider = args.provider;
  meter = args.meter;
  quantity = args.quantity;
  amount_rwf = args.actual_rwf;
  idempotency_key = args.usage_idempotency_key;
}

-- The usage that was recorded under the key before.
abbrev pub recorded_usage : OutcomeArgs → Database → Option UsageRow
recorded_usage args db =
    find (λ usage. usage.idempotency_key == args.usage_idempotency_key) db.usage

abbrev pub is_same_usage : OutcomeArgs → RunRow → UsageRow → Bool
is_same_usage args run usage =
    nat_eq usage.task_id run.task_id
    && nat_eq usage.run_id args.run_id
    && nat_eq usage.step_id args.step_id
    && nat_eq usage.amount_rwf args.actual_rwf

-- The reservation goes back to the task and what was used is spent.
abbrev pub settle_spend : OutcomeArgs → TaskRow → RunRow → StepRow → Database → Database
settle_spend args task run step db =
    let paid =
      patch_task task.id
        (λ t. record t {
          reserved_rwf = task.reserved_rwf - reservation step;
          spent_rwf = task.spent_rwf + args.actual_rwf;
        })
        db in
    record paid { usage = paid.usage ++ usage_row args task run step ∷ [] }

abbrev pub resume_input : OutcomeArgs → TaskRow → StepRow → ResumeInput
resume_input args task step = record {
  resumes = or_else step.resumes 0;
  spent_rwf = task.spent_rwf + args.actual_rwf;
  reserved_rwf = task.reserved_rwf - reservation step;
  max_rwf = task.max_rwf;
  next_attempt_estimate_rwf = or_else args.next_attempt_estimate_rwf (reservation step);
  run_cancelled = false;
}

abbrev pub resumed_step : OutcomeArgs → StepRow → StepRow → StepRow
resumed_step args step s = record s {
  status = StepStatus.ready;
  claimed_by = none;
  claimed_at = none;
  lease_expires_at = none;
  heartbeat_at = none;
  sandbox_id = none;
  reserved_rwf = none;
  phase = none;
  plan_bytes = none;
  resumes = some (or_else step.resumes 0 + 1);
  summary = some args.summary;
}

-- The checkpointed step goes on in the same sandbox.
abbrev pub resume_step : OutcomeArgs → ℕ → RunRow → StepRow → String → Database → Database
resume_step args now run step reason db =
    let stepped = patch_step step.id (resumed_step args step) db in
    let requeued =
      patch_run run.id
        (λ r. record r { status = queued_or_running (others_running stepped run.id step.id) })
        stepped in
    schedule (Scheduled.dispatch_tick 0)
      (log_run run.id "step_checkpoint" (template (step.title ∷ ": " ∷ reason ∷ [])) now requeued)

abbrev pub finished_step : OutcomeArgs → ℕ → StepStatus → String → StepRow → StepRow
finished_step args now status summary s = record s {
  status = status;
  completed_at = some now;
  summary = some summary;
  artifact_references = args.artifact_references;
  lease_expires_at = none;
  heartbeat_at = none;
  sandbox_id = none;
  reserved_rwf = none;
}

-- A failed step fails its run and blocks its task.
abbrev pub fail_run : ℕ → RunRow → TaskRow → Database → Database
fail_run now run task db =
    let failed_run =
      patch_run run.id (λ r. record r { status = RunState.failed; completed_at = some now }) db in
    let blocked =
      patch_task task.id (λ t. record t { status = TaskStatus.blocked })
        (release_run_sandbox run failed_run) in
    schedule (Scheduled.notify_run_lifecycle "failed" task.id run.id)
      (schedule (Scheduled.notify_linked_channels task.organization_id task.id) blocked)

abbrev pub is_active_step : StepStatus → Bool
is_active_step StepStatus.running = true
is_active_step StepStatus.ready = true
is_active_step _ = false

abbrev pub awaits_approval : StepStatus → Bool
awaits_approval StepStatus.awaiting_approval = true
awaits_approval _ = false

-- The statuses of the run's steps, the finished one as completed.
abbrev pub effective_status : ℕ → StepRow → StepStatus
effective_status step_id step = if nat_eq step.id step_id then StepStatus.completed else step.status

unfoldable pub next_run_state : List StepStatus → RunState
next_run_state statuses =
    if all is_completed_step statuses
    then RunState.completed
    else if any is_active_step statuses
    then RunState.running
    else if any awaits_approval statuses
    then RunState.awaiting_approval
    else RunState.queued

abbrev pub is_completed_run : RunState → Bool
is_completed_run RunState.completed = true
is_completed_run _ = false

abbrev pub one_day : ℕ
one_day = 86_400_000

-- A finished app can be seen for a day.
abbrev pub keep_preview : ℕ → RunRow → Option String → Database → Database
keep_preview now run none db = db
keep_preview now run (some sandbox_id) db =
    schedule (Scheduled.destroy_sandbox one_day sandbox_id run.id)
      (patch_run run.id (λ r. record r { preview_expires_at = some (now + one_day) }) db)

abbrev pub complete_task : ℕ → RunRow → TaskRow → Database → Database
complete_task now run task db =
    if all (λ r. nat_eq r.id run.id || is_completed_run r.status) (runs_of task.id db.runs)
    then schedule (Scheduled.notify_run_lifecycle "completed" task.id run.id) (
        schedule (Scheduled.notify_linked_channels task.organization_id task.id) (
          log_task task.id "task_completed" "All agent runs completed." now
            (patch_task task.id (λ t. record t { status = TaskStatus.completed }) db)))
    else db

abbrev pub is_dispatchable : RunState → Bool
is_dispatchable RunState.queued = true
is_dispatchable RunState.running = true
is_dispatchable _ = false

-- A completed step moves its run on: over, or back to the dispatcher.
abbrev pub advance_run : ℕ → RunRow → StepRow → TaskRow → Database → Database
advance_run now run step task db =
    let next = next_run_state (map (effective_status step.id) (steps_of run.id db.steps)) in
    if is_completed_run next
    then complete_task now run task (
        keep_preview now run (truthy run.sandbox_id)
          (patch_run run.id (λ r. record r { status = next; completed_at = some now }) db))
    else schedule_if (is_dispatchable next) (Scheduled.dispatch_tick 0)
        (patch_run run.id (λ r. record r { status = next }) db)

abbrev pub with_reason : String → Option String → String
with_reason summary none = summary
with_reason summary (some reason) = template (summary ∷ " — " ∷ reason ∷ [])

abbrev pub finish_failed :
    OutcomeArgs → ℕ → RunRow → StepRow → TaskRow → Option String → Database → Database
finish_failed args now run step task reason db =
    let summary = with_reason args.summary (truthy reason) in
    fail_run now run task (
      log_run run.id "step_failed" summary now
        (patch_step step.id (finished_step args now StepStatus.failed summary) db))

abbrev pub finish_completed : OutcomeArgs → ℕ → RunRow → StepRow → TaskRow → Database → Database
finish_completed args now run step task db = advance_run now run step task (
    log_run run.id "step_completed" args.summary now
      (patch_step step.id (finished_step args now StepStatus.completed args.summary) db))

abbrev pub finish_checkpoint :
    OutcomeArgs → ℕ → RunRow → StepRow → TaskRow → StepResumeDecision → Database → Database
finish_checkpoint args now run step task decision db = elim decision.action [
  | ResumeAction.resume ↦ resume_step args now run step decision.reason db
  | ResumeAction.finalize ↦ finish_failed args now run step task (some decision.reason) db
]

abbrev pub finish_step :
    OutcomeArgs → ℕ → RunRow → StepRow → TaskRow → StepOutcome → Database → Database
finish_step args now run step task completed db = finish_completed args now run step task db
finish_step args now run step task failed db = finish_failed args now run step task none db
finish_step args now run step task checkpoint db =
    finish_checkpoint args now run step task (decide_step_resume (resume_input args task step)) db

-- The evidence that was recorded for the step.
abbrev pub is_recorded : Database → ℕ → String → Bool
is_recorded db step_id reference =
    any (λ artifact. nat_eq artifact.step_id step_id && artifact.reference == reference)
      db.artifacts

-- A reference that was not recorded.
abbrev pub lacks_evidence : OutcomeArgs → StepRow → Database → Bool
lacks_evidence args step db =
    not (is_failure args.outcome)
    && any (λ reference. not (is_recorded db step.id reference)) args.artifact_references

abbrev pub settle_owned : OutcomeArgs → ℕ → RunRow → StepRow → TaskRow → Database → Result Database
settle_owned args now run step task db = do
  throw_if (ltb task.reserved_rwf (reservation step))
      "Step reservation exceeds task reserved balance"
  throw_if (ltb (reservation step) args.actual_rwf) "Actual usage exceeds the step reservation"
  throw_if (ltb task.max_rwf (task.spent_rwf + args.actual_rwf)) "Usage exceeds approved task cap"
  throw_if (lacks_evidence args step db)
      "A non-failure outcome references an artifact that was not recorded for this step"
  ok (finish_step args now run step task args.outcome (settle_spend args task run step db))

abbrev pub record_new_outcome : OutcomeArgs → ℕ → RunRow → StepRow → Database → Result Database
record_new_outcome args now run step db = do
  throw_if (not (claimed_by_worker step args.worker_id))
      "Worker does not own this running step lease"
  throw_if (is_expired step.lease_expires_at now) "Worker step lease has expired"
  throw_if (is_cancelled_run run.status) "Run is cancelled"
  task ← find_task db run.task_id
  settle_owned args now run step task db

abbrev pub record_outcome :
    OutcomeArgs → ℕ → RunRow → StepRow → Option UsageRow → Database → Result Database
record_outcome args now run step (some usage) db =
    if is_same_usage args run usage then ok db else err "Usage idempotency key collision"
record_outcome args now run step none db = record_new_outcome args now run step db

abbrev pub outcome_checked : OutcomeArgs → ℕ → Database → Result Database
outcome_checked args now db = do
  throw_if (not (is_failure args.outcome) && is_empty args.artifact_references)
      "A non-failure outcome requires at least one evidence reference"
  (run, step) ← find_run_step db args.run_id args.step_id "Run step not found"
  record_outcome args now run step (recorded_usage args db) db

unfoldable pub record_step_outcome : OutcomeArgs → ℕ → Database → Result Database
unfolding next_run_state
record_step_outcome args now db = do
  throw_if (is_blank (trim args.summary)) "A worker outcome requires a non-empty summary"
  outcome_checked args now db
