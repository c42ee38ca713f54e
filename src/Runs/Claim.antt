-- ===== src/Runs/Claim.antt =====
-- apps/web/convex/agentRuns.ts: a worker claims a step, keeps its lease, gives the step back, and
-- records evidence. A handler that throws leaves the database as it was.
use circuit_agent.Prelude.{
  ℕ, ◌+◌, String, Bool, true, false, not, ◌&&◌, Option, none, some, List, [], ◌∷◌, ◌++◌, map, ltb,
  leb, nat_eq, if◌then◌else◌, filter, all, includes, length, Result, ok, ◌>>=◌, ◌>>◌, throw_if,
  template, is_some, or_else, ◌==◌,
}
use circuit_agent.Plan.{AgentRole, StepStatus}
use circuit_agent.Runs.{
  Database, TaskRow, RunRow, StepRow, ApprovalRow, HoldRow, TaskStatus, RunState, StepApproval,
  ApprovalKind, ApprovalState, HoldStatus, Scheduled, patch_task, patch_run, patch_step, log_run,
  schedule, find_run_step, find_task, steps_of, is_running_step,
}

-- convex/approvals.ts: the approval belongs to the organization of its task.
pub record NewApproval : Type 0 where
  pub task_id : ℕ
  pub kind : ApprovalKind
  pub run_id : Option ℕ
  pub step_id : Option ℕ
  pub requested_rwf : Option ℕ

abbrev pub approval_row : Database → NewApproval → ℕ → ℕ → ApprovalRow
approval_row db approval organization_id now = record {
  id = db.next_id;
  organization_id = organization_id;
  task_id = approval.task_id;
  run_id = approval.run_id;
  step_id = approval.step_id;
  kind = approval.kind;
  status = ApprovalState.pending;
  requested_rwf = approval.requested_rwf;
  requested_at = now;
  decided_at = none;
  decided_by = none;
}

abbrev pub insert_approval : Database → NewApproval → ℕ → ℕ → Database
insert_approval db approval organization_id now = record db {
  approvals = db.approvals ++ approval_row db approval organization_id now ∷ [];
  next_id = db.next_id + 1;
}

unfoldable pub create_approval : Database → NewApproval → ℕ → Result Database
create_approval db approval now = do
  task ← find_task db approval.task_id
  ok (insert_approval db approval task.organization_id now)

pub record ClaimArgs : Type 0 where
  pub run_id : ℕ
  pub step_id : ℕ
  pub worker_id : String
  pub estimated_rwf : ℕ
  pub lease_ms : ℕ

pub data ClaimStatus : Type 0 where
  not_claimable awaiting_approval execution_budget_required : ClaimStatus
  budget_approval_required claimed : ClaimStatus

-- 5 seconds to 10 minutes.
abbrev pub is_lease : ℕ → Bool
is_lease lease_ms = leb 5_000 lease_ms && leb lease_ms 600_000

abbrev pub bad_lease : String
bad_lease = "leaseMs must be an integer between 5 seconds and 10 minutes"

abbrev pub is_live : RunState → Bool
is_live RunState.queued = true
is_live RunState.running = true
is_live _ = false

abbrev pub is_startable : StepStatus → Bool
is_startable StepStatus.pending = true
is_startable StepStatus.ready = true
is_startable _ = false

abbrev pub is_completed_step : StepStatus → Bool
is_completed_step StepStatus.completed = true
is_completed_step _ = false

abbrev pub completed_keys : List StepRow → List String
completed_keys steps =
    map (λ step. step.step_key) (filter (λ step. is_completed_step step.status) steps)

unfoldable pub running_count : List StepRow → ℕ
running_count steps = length (filter (λ step. is_running_step step.status) steps)

abbrev pub is_approved : StepApproval → Bool
is_approved StepApproval.approved = true
is_approved _ = false

-- The newest hold of a task.
unfoldable pub newest_hold : ℕ → List HoldRow → Option HoldRow
newest_hold task_id [] = none
newest_hold task_id (hold ∷ holds) =
    let later = newest_hold task_id holds in
    if is_some later then later else if nat_eq hold.task_id task_id then some hold else none

abbrev pub is_authorized : HoldStatus → Bool
is_authorized HoldStatus.authorized = true
is_authorized _ = false

-- An authorized hold that covers the cap.
abbrev pub covers : ℕ → Option HoldRow → Bool
covers max_rwf none = false
covers max_rwf (some hold) = is_authorized hold.status && leb max_rwf hold.amount_rwf

abbrev pub is_coding : AgentRole → Bool
is_coding AgentRole.coding = true
is_coding _ = false

abbrev pub claimed_step : ClaimArgs → ℕ → StepRow → StepRow
claimed_step args now step = record step {
  status = StepStatus.running;
  claimed_by = some args.worker_id;
  claimed_at = some now;
  heartbeat_at = some now;
  lease_expires_at = some (now + args.lease_ms);
  reserved_rwf = some args.estimated_rwf;
  attempts = step.attempts + 1;
}

abbrev pub schedule_if : Bool → Scheduled → Database → Database
schedule_if condition effect db = if condition then schedule effect db else db

-- The claim itself, when nothing stands against it.
abbrev pub commit_claim : ClaimArgs → ℕ → RunRow → StepRow → TaskRow → Database → Database
commit_claim args now run step task db =
    let reserved =
      patch_task task.id (λ t. record t { reserved_rwf = task.reserved_rwf + args.estimated_rwf })
        db in
    let started = patch_task task.id (λ t. record t { status = TaskStatus.running }) reserved in
    let stepped = patch_step step.id (claimed_step args now) started in
    let running =
      patch_run run.id
        (λ r. record r {
          status = RunState.running;
          started_at = some (or_else run.started_at now);
        })
        stepped in
    let logged =
      log_run run.id "step_claimed" (template (step.title ∷ " claimed by a worker." ∷ [])) now
        running in
    let notified =
      schedule_if (not (is_some run.started_at))
        (Scheduled.notify_run_lifecycle "started" task.id run.id) logged in
    schedule_if (is_coding step.role)
      (Scheduled.execute_claimed_step run.id step.id args.worker_id args.estimated_rwf
        (step.attempts + 1))
      notified

-- A claim over the cap asks for a larger one.
abbrev pub overage : ClaimArgs → RunRow → StepRow → TaskRow → NewApproval
overage args run step task = record {
  task_id = task.id;
  kind = ApprovalKind.budget_overage;
  run_id = some run.id;
  step_id = some step.id;
  requested_rwf = some (task.spent_rwf + task.reserved_rwf + args.estimated_rwf);
}

abbrev pub ask_overage :
    ClaimArgs → ℕ → RunRow → StepRow → TaskRow → Database → Result (Database × ClaimStatus)
ask_overage args now run step task db = do
  asked ← create_approval db (overage args run step task) now
  ok (
    patch_run run.id (λ r. record r { status = RunState.awaiting_approval }) asked,
    budget_approval_required,
  )

-- A task whose cap no hold covers.
abbrev pub ask_budget : ℕ → RunRow → Database → Database
ask_budget now run db =
    log_run run.id "execution_budget_required"
      "Execution is blocked until an internal budget reservation covers the approved task cap." now
      (patch_run run.id (λ r. record r { status = RunState.awaiting_approval }) db)

-- The gates of money: the hold, then the cap.
abbrev pub claim_funded :
    ClaimArgs → ℕ → RunRow → StepRow → TaskRow → Database → Result (Database × ClaimStatus)
claim_funded args now run step task db =
    if not (covers task.max_rwf (newest_hold task.id db.holds))
    then ok (ask_budget now run db, execution_budget_required)
    else if ltb task.max_rwf (task.spent_rwf + task.reserved_rwf + args.estimated_rwf)
    then ask_overage args now run step task db
    else ok (commit_claim args now run step task db, claimed)

-- A lost race is a status, not an error.
abbrev pub is_claimable : RunRow → StepRow → List StepRow → Bool
is_claimable run step steps =
    is_live run.status
    && is_startable step.status
    && all (includes (completed_keys steps)) step.depends_on
    && ltb (running_count steps) run.max_parallelism

abbrev pub needs_approval : StepRow → Bool
needs_approval step = step.requires_approval && not (is_approved step.approval_status)

abbrev pub ask_approval : RunRow → StepRow → Database → Database
ask_approval run step db =
    patch_run run.id (λ r. record r { status = RunState.awaiting_approval })
      (patch_step step.id (λ s. record s { status = StepStatus.awaiting_approval }) db)

abbrev pub claim_found :
    ClaimArgs → ℕ → RunRow → StepRow → Database → Result (Database × ClaimStatus)
claim_found args now run step db =
    if not (is_claimable run step (steps_of run.id db.steps))
    then ok (db, not_claimable)
    else if needs_approval step
    then ok (ask_approval run step db, awaiting_approval)
    else (find_task db run.task_id >>= λ task. claim_funded args now run step task db)

unfoldable pub claim_step : ClaimArgs → ℕ → Database → Result (Database × ClaimStatus)
unfolding running_count create_approval newest_hold
claim_step args now db = do
  throw_if (nat_eq args.estimated_rwf 0) "estimatedRwf must be a positive integer RWF amount"
  throw_if (not (is_lease args.lease_ms)) bad_lease
  (run, step) ← find_run_step db args.run_id args.step_id "Run step not found"
  claim_found args now run step db

abbrev pub step_claimant : Option String → String → Bool
step_claimant none worker_id = false
step_claimant (some claimant) worker_id = claimant == worker_id

-- The worker has the step.
abbrev pub claimed_by_worker : StepRow → String → Bool
claimed_by_worker step worker_id =
    is_running_step step.status && step_claimant step.claimed_by worker_id

-- What a step is when no worker has it any more.
abbrev pub released : StepStatus → StepRow → StepRow
released status step = record step {
  status = status;
  claimed_by = none;
  claimed_at = none;
  lease_expires_at = none;
  heartbeat_at = none;
  sandbox_id = none;
  reserved_rwf = none;
}
