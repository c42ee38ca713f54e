-- ===== src/Runs.antt =====
-- apps/web/convex/schema.ts, as far as runs go: the tasks, runs, steps, approvals, holds, usage and
-- artifacts of the hosted control plane, in one database that a mutation reads and changes at once.
-- Ids are numbers that the database gives out in order; amounts are natural numbers of RWF, which the
-- source keeps in 64 bits; an identity is that of the session.
pub mod Table
pub mod Rows
pub mod Claim
pub mod Lease
pub mod Control
pub mod Outcome
pub mod Recovery
pub mod Approve
pub mod Create
pub mod Balance
pub mod Sound
pub mod Closed
pub mod Keeps
pub mod Soundness
pub mod Commands
pub mod Account
pub mod Granted
pub mod Gates
pub mod Lost
pub mod Again
pub mod Charges
pub mod Resumes
pub mod Decided
pub mod Stored
pub mod Created
mod Samples
mod Examples
use circuit_agent.Prelude.{
  ℕ, zero, suc, ◌+◌, String, Bool, true, false, Option, none, some, List, [], ◌∷◌, ◌++◌, nat_eq,
  not, ◌||◌, ◌&&◌, if◌then◌else◌, filter, any, Result, ok, err, ◌>>=◌,
}
use circuit_agent.Plan.{AgentRole, StepStatus, SandboxTemplate}
use circuit_agent.Capabilities.{TaskKind}
use circuit_agent.Authz.{MembershipRow}
use circuit_agent.Runs.Table.{get, patch}

pub data TaskStatus : Type 0 where
  draft quoted awaiting_approval running completed blocked cancelled : TaskStatus

pub data RunState : Type 0 where
  queued running paused awaiting_approval blocked completed : RunState
  failed cancelled needs_configuration : RunState

pub data StepApproval : Type 0 where
  not_required pending approved rejected : StepApproval

pub data ApprovalKind : Type 0 where
  task_start execute_step budget_overage merge deploy external_action : ApprovalKind

pub data ApprovalState : Type 0 where
  pending approved rejected expired : ApprovalState

pub data HoldStatus : Type 0 where
  pending authorized captured released refunded : HoldStatus

pub data WorkPhase : Type 0 where
  planning building : WorkPhase

pub record TaskRow : Type 0 where
  pub id : ℕ
  pub organization_id : ℕ
  pub title : String
  pub kind : TaskKind
  pub status : TaskStatus
  pub max_rwf : ℕ
  pub spent_rwf : ℕ
  pub reserved_rwf : ℕ

pub record RunRow : Type 0 where
  pub id : ℕ
  pub task_id : ℕ
  pub kind : TaskKind
  pub role : AgentRole
  pub status : RunState
  pub objective : String
  pub capability_ids : List String
  pub max_parallelism : ℕ
  pub sandbox_id : Option String
  pub preview_expires_at : Option ℕ
  pub created_at : ℕ
  pub started_at : Option ℕ
  pub completed_at : Option ℕ
  pub cancel_requested_at : Option ℕ

pub record StepRow : Type 0 where
  pub id : ℕ
  pub run_id : ℕ
  pub step_key : String
  pub title : String
  pub role : AgentRole
  pub status : StepStatus
  pub depends_on : List String
  pub requires_approval : Bool
  pub sandbox_template : Option SandboxTemplate
  pub capability_ids : List String
  pub approval_status : StepApproval
  pub attempts : ℕ
  pub claimed_by : Option String
  pub claimed_at : Option ℕ
  pub lease_expires_at : Option ℕ
  pub heartbeat_at : Option ℕ
  pub sandbox_id : Option String
  pub phase : Option WorkPhase
  pub plan_bytes : Option ℕ
  pub resumes : Option ℕ
  pub reserved_rwf : Option ℕ
  pub completed_at : Option ℕ
  pub summary : Option String
  pub artifact_references : List String
  pub created_at : ℕ

pub record ApprovalRow : Type 0 where
  pub id : ℕ
  pub organization_id : ℕ
  pub task_id : ℕ
  pub run_id : Option ℕ
  pub step_id : Option ℕ
  pub kind : ApprovalKind
  pub status : ApprovalState
  pub requested_rwf : Option ℕ
  pub requested_at : ℕ
  pub decided_at : Option ℕ
  pub decided_by : Option String

pub record HoldRow : Type 0 where
  pub id : ℕ
  pub task_id : ℕ
  pub amount_rwf : ℕ
  pub status : HoldStatus

pub record UsageRow : Type 0 where
  pub task_id : ℕ
  pub run_id : ℕ
  pub step_id : ℕ
  pub provider : String
  pub meter : String
  pub quantity : ℕ
  pub amount_rwf : ℕ
  pub idempotency_key : String

pub record ArtifactRow : Type 0 where
  pub id : ℕ
  pub task_id : ℕ
  pub run_id : ℕ
  pub step_id : ℕ
  pub reference : String
  pub sha256 : String
  pub byte_length : ℕ

-- An event of a run or of a task.
pub record EventRow : Type 0 where
  pub about : ℕ
  pub kind : String
  pub message : String
  pub created_at : ℕ

-- What a mutation schedules. The texts of notifications are left out.
pub data Scheduled : Type 0 where
  dispatch_tick : (after_ms : ℕ) → Scheduled
  execute_claimed_step :
      (run_id step_id : ℕ) (worker_id : String) (reservation_rwf attempts : ℕ) → Scheduled
  destroy_sandbox : (after_ms : ℕ) (sandbox_id : String) (run_id : ℕ) → Scheduled
  notify_run_lifecycle : (event : String) (task_id run_id : ℕ) → Scheduled
  notify_linked_channels : (organization_id task_id : ℕ) → Scheduled
  prefetch_for_run : (run_id : ℕ) → Scheduled

pub record Database : Type 0 where
  pub tasks : List TaskRow
  pub runs : List RunRow
  pub steps : List StepRow
  pub approvals : List ApprovalRow
  pub holds : List HoldRow
  pub usage : List UsageRow
  pub artifacts : List ArtifactRow
  pub memberships : List MembershipRow
  pub run_events : List EventRow
  pub task_events : List EventRow
  pub effects : List Scheduled
  pub next_id : ℕ

abbrev pub task_key : TaskRow → ℕ
task_key row = row.id

abbrev pub run_key : RunRow → ℕ
run_key row = row.id

abbrev pub step_key_of : StepRow → ℕ
step_key_of row = row.id

abbrev pub approval_key : ApprovalRow → ℕ
approval_key row = row.id

abbrev pub hold_key : HoldRow → ℕ
hold_key row = row.id

abbrev pub patch_task : ℕ → (TaskRow → TaskRow) → Database → Database
patch_task id g db = record db { tasks = patch task_key id g db.tasks }

abbrev pub patch_run : ℕ → (RunRow → RunRow) → Database → Database
patch_run id g db = record db { runs = patch run_key id g db.runs }

abbrev pub patch_step : ℕ → (StepRow → StepRow) → Database → Database
patch_step id g db = record db { steps = patch step_key_of id g db.steps }

abbrev pub patch_approval : ℕ → (ApprovalRow → ApprovalRow) → Database → Database
patch_approval id g db = record db { approvals = patch approval_key id g db.approvals }

abbrev pub patch_hold : ℕ → (HoldRow → HoldRow) → Database → Database
patch_hold id g db = record db { holds = patch hold_key id g db.holds }

abbrev pub event : ℕ → String → String → ℕ → EventRow
event about kind message now = record {
  about = about;
  kind = kind;
  message = message;
  created_at = now;
}

abbrev pub log_run : ℕ → String → String → ℕ → Database → Database
log_run run_id kind message now db = record db {
  run_events = db.run_events ++ event run_id kind message now ∷ [];
}

abbrev pub log_task : ℕ → String → String → ℕ → Database → Database
log_task task_id kind message now db = record db {
  task_events = db.task_events ++ event task_id kind message now ∷ [];
}

abbrev pub schedule : Scheduled → Database → Database
schedule effect db = record db { effects = db.effects ++ effect ∷ [] }

abbrev pub or_throw {ℓ} : {A : Type ℓ} → Option A → String → Result A
or_throw none message = err message
or_throw (some a) message = ok a

-- `db.get` of a run and of a step of it.
abbrev pub step_of_run : ℕ → Option StepRow → Option StepRow
step_of_run run_id none = none
step_of_run run_id (some step) = if nat_eq step.run_id run_id then some step else none

abbrev pub find_run_step : Database → ℕ → ℕ → String → Result (RunRow × StepRow)
find_run_step db run_id step_id message = do
  run ← or_throw (get run_key run_id db.runs) message
  step ← or_throw (step_of_run run_id (get step_key_of step_id db.steps)) message
  ok (run, step)

abbrev pub find_task : Database → ℕ → Result TaskRow
find_task db task_id = or_throw (get task_key task_id db.tasks) "Task not found"

abbrev pub steps_of : ℕ → List StepRow → List StepRow
steps_of run_id steps = filter (λ step. nat_eq step.run_id run_id) steps

abbrev pub is_running_step : StepStatus → Bool
is_running_step StepStatus.running = true
is_running_step _ = false

abbrev pub is_cancelled_run : RunState → Bool
is_cancelled_run RunState.cancelled = true
is_cancelled_run _ = false

-- Another step of the run is running.
abbrev pub others_running : Database → ℕ → ℕ → Bool
others_running db run_id step_id =
    any (λ step. not (nat_eq step.id step_id) && is_running_step step.status)
      (steps_of run_id db.steps)
