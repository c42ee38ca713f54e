-- ===== src/Runs/Control.antt =====
-- apps/web/convex/agentRuns.ts: a person cancels, pauses and resumes runs.
use circuit_agent.Prelude.{
  ℕ, suc, String, Bool, true, false, not, ◌&&◌, ◌||◌, Option, none, some, List, [], ◌∷◌, nat_eq,
  if◌then◌else◌, filter, any, all, Result, ok, ◌>>=◌, truthy,
}
use circuit_agent.Plan.{StepStatus}
use circuit_agent.Authz.{Permission, task_cancel, agent_run, require_organization_permission}
use circuit_agent.Runs.{
  Database, TaskRow, RunRow, StepRow, ApprovalRow, TaskStatus, RunState, ApprovalState, Scheduled,
  run_key, patch_task, patch_run, log_run, log_task, schedule, or_throw, find_task, steps_of,
  is_running_step,
}
use circuit_agent.Runs.Table.{get}
use circuit_agent.Runs.Claim.{is_live}

-- A finished run's sandbox is forgotten and destroyed.
abbrev pub release_sandbox : RunRow → Option String → Database → Database
release_sandbox run none db = db
release_sandbox run (some sandbox_id) db =
    schedule (Scheduled.destroy_sandbox 0 sandbox_id run.id)
      (patch_run run.id (λ r. record r { sandbox_id = none }) db)

abbrev pub release_run_sandbox : RunRow → Database → Database
release_run_sandbox run db = release_sandbox run (truthy run.sandbox_id) db

abbrev pub is_terminal_run : RunState → Bool
is_terminal_run RunState.completed = true
is_terminal_run RunState.failed = true
is_terminal_run RunState.cancelled = true
is_terminal_run _ = false

abbrev pub is_over : RunState → Bool
is_over RunState.completed = true
is_over RunState.failed = true
is_over RunState.blocked = true
is_over RunState.cancelled = true
is_over _ = false

abbrev pub is_failed_or_blocked : RunState → Bool
is_failed_or_blocked RunState.failed = true
is_failed_or_blocked RunState.blocked = true
is_failed_or_blocked _ = false

-- A step that no worker has is cancelled with its run.
abbrev pub is_waiting : StepStatus → Bool
is_waiting StepStatus.pending = true
is_waiting StepStatus.ready = true
is_waiting StepStatus.awaiting_approval = true
is_waiting _ = false

abbrev pub withdrawn : ℕ → StepRow → StepRow
withdrawn run_id step =
    if nat_eq step.run_id run_id && is_waiting step.status
    then record step { status = StepStatus.cancelled }
    else step

unfoldable pub cancel_steps : ℕ → List StepRow → List StepRow
cancel_steps run_id [] = []
cancel_steps run_id (step ∷ steps) = withdrawn run_id step ∷ cancel_steps run_id steps

abbrev pub is_pending_approval : ApprovalState → Bool
is_pending_approval ApprovalState.pending = true
is_pending_approval _ = false

unfoldable pub expire_pending_approvals :
    ℕ → (ApprovalRow → Bool) → ℕ → List ApprovalRow → List ApprovalRow
expire_pending_approvals task_id matches now [] = []
expire_pending_approvals task_id matches now (approval ∷ approvals) =
    (if nat_eq approval.task_id task_id && is_pending_approval approval.status && matches approval
      then record approval { status = ApprovalState.expired; decided_at = some now }
      else approval)
    ∷ expire_pending_approvals task_id matches now approvals

abbrev pub asks_about : ℕ → Option ℕ → Bool
asks_about run_id none = false
asks_about run_id (some id) = nat_eq id run_id

abbrev pub runs_of : ℕ → List RunRow → List RunRow
runs_of task_id runs = filter (λ run. nat_eq run.task_id task_id) runs

-- The task follows its last run.
abbrev pub settle_task : RunRow → TaskRow → Database → Database
settle_task run task db =
    let siblings = runs_of task.id db.runs in
    let failed = any (λ r. not (nat_eq r.id run.id) && is_failed_or_blocked r.status) siblings in
    if all (λ r. nat_eq r.id run.id || is_over r.status) siblings
    then patch_task task.id
        (λ t. record t { status = if failed then TaskStatus.blocked else TaskStatus.cancelled }) db
    else db

abbrev pub stopped : ℕ → RunRow → TaskRow → Database → Database
stopped now run task db =
    let marked =
      patch_run run.id
        (λ r. record r {
          status = RunState.cancelled;
          cancel_requested_at = some now;
          completed_at = some now;
        })
        db in
    let withdrawn_steps = record marked { steps = cancel_steps run.id marked.steps } in
    let settled = settle_task run task withdrawn_steps in
    let expired = record settled {
      approvals =
          expire_pending_approvals task.id (λ approval. asks_about run.id approval.run_id) now
            settled.approvals;
    } in
    schedule (Scheduled.notify_run_lifecycle "cancelled" task.id run.id) (
      log_run run.id "cancellation_requested"
        "Run cancelled. Active workers must stop at their next safe checkpoint." now
        (release_run_sandbox run expired))

-- `cancelRun`, which answers whether it did anything.
unfoldable pub cancel_run : ℕ → RunRow → TaskRow → Database → Database × Bool
unfolding cancel_steps expire_pending_approvals
cancel_run now run task db =
    if is_terminal_run run.status then (db, false) else (stopped now run task db, true)

abbrev pub find_run : Database → ℕ → Result RunRow
find_run db run_id = or_throw (get run_key run_id db.runs) "Agent run not found"

-- The run and its task, for a caller who has the permission.
abbrev pub permitted_run : Database → Option String → ℕ → Permission → Result (RunRow × TaskRow)
permitted_run db identity run_id permission = do
  run ← find_run db run_id
  task ← find_task db run.task_id
  admitted ← require_organization_permission db.memberships identity task.organization_id permission
  ok (run, task)

pub record Paused : Type 0 where
  pub paused : Bool
  pub step_in_flight : Bool

abbrev pub paused_message : Bool → String
paused_message true =
    "Run paused. The step already running will finish, and nothing further will start until you resume."
paused_message false = "Run paused. Nothing will start until you resume."

abbrev pub pause : ℕ → RunRow → Database → Database × Paused
pause now run db =
    let in_flight = any (λ step. is_running_step step.status) (steps_of run.id db.steps) in
    if is_live run.status
    then (
      log_run run.id "run_paused" (paused_message in_flight) now
          (patch_run run.id (λ r. record r { status = RunState.paused }) db),
      record { paused = true; step_in_flight = in_flight },
    )
    else (db, record { paused = false; step_in_flight = false })

unfoldable pub pause_run : Option String → ℕ → ℕ → Database → Result (Database × Paused)
pause_run identity run_id now db = do
  (run, task) ← permitted_run db identity run_id task_cancel
  ok (pause now run db)

abbrev pub is_paused : RunState → Bool
is_paused RunState.paused = true
is_paused _ = false

abbrev pub resume : ℕ → RunRow → Database → Database × Bool
resume now run db =
    if is_paused run.status
    then (
      schedule (Scheduled.dispatch_tick 0) (
          log_run run.id "run_resumed"
            "Run resumed. Its workspace is exactly as the paused step left it." now
            (patch_run run.id (λ r. record r { status = RunState.queued }) db)),
      true,
    )
    else (db, false)

unfoldable pub resume_run : Option String → ℕ → ℕ → Database → Result (Database × Bool)
resume_run identity run_id now db = do
  (run, task) ← permitted_run db identity run_id agent_run
  ok (resume now run db)

unfoldable pub request_cancellation : Option String → ℕ → ℕ → Database → Result Database
unfolding cancel_run
request_cancellation identity run_id now db = do
  (run, task) ← permitted_run db identity run_id task_cancel
  ok (cancel_run now run task db).0

-- The loop over the runs of a task, as they were read before it.
unfoldable pub cancel_runs : ℕ → TaskRow → List RunRow → Database × ℕ → Database × ℕ
unfolding cancel_run
cancel_runs now task [] (db, count) = (db, count)
cancel_runs now task (run ∷ runs) (db, count) =
    let (db', done) = cancel_run now run task db in
    cancel_runs now task runs (db', if done then suc count else count)

abbrev pub is_finished_task : TaskStatus → Bool
is_finished_task TaskStatus.completed = true
is_finished_task TaskStatus.cancelled = true
is_finished_task _ = false

-- A task without a run that could be cancelled is stopped itself.
abbrev pub stop_idle : ℕ → TaskRow → ℕ → Database → Database
stop_idle now task count db =
    if nat_eq count 0 && not (is_finished_task task.status)
    then log_task task.id "task_cancelled" "The task was stopped before any run started." now
        (patch_task task.id (λ t. record t { status = TaskStatus.cancelled }) db)
    else db

abbrev pub stop_task : ℕ → TaskRow → Database → Database × ℕ
stop_task now task db =
    let (cancelled, count) = cancel_runs now task (runs_of task.id db.runs) (db, 0) in
    let idle = stop_idle now task count cancelled in
    (
      record idle {
        approvals = expire_pending_approvals task.id (λ approval. true) now idle.approvals;
      },
      count,
    )

unfoldable pub request_task_cancellation : Option String → ℕ → ℕ → Database → Result (Database × ℕ)
unfolding cancel_runs
request_task_cancellation identity task_id now db = do
  task ← find_task db task_id
  admitted ←
      require_organization_permission db.memberships identity task.organization_id task_cancel
  ok (stop_task now task db)
