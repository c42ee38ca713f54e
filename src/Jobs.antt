-- ===== src/Jobs.antt =====
-- packages/agent-core/src/nova-cli/jobs.ts: the durable job queue. A store is a list of jobs; an
-- operation returns the new store and its result. Times are epoch milliseconds. A field that the
-- source leaves undefined is `none`; an absent `executedApprovals` is the empty list, which every
-- reader treats alike.
pub mod Lifecycle
pub mod Approvals
pub mod Lookup
pub mod Invariant
pub mod Commands
pub mod Cases
pub mod Evolution
pub mod WellFormed
pub mod Approved
pub mod Leases
pub mod Recovery
mod Examples
use circuit_agent.Prelude.{
  truthy, ℕ, zero, ◌+◌, String, ◌≡◌, Bool, true, false, not, ◌&&◌, ◌||◌, Option, none, some, List,
  [], ◌∷◌, ◌++◌, map, ltb, leb, if◌then◌else◌, is_some, or_else, Result, ok, err, find, filter, any,
  includes, head?, sort, by_key, template, decimal, is_blank, trim, ◌==◌,
}

pub data JobStatus : Type 0 where
  queued running paused completed failed cancelled : JobStatus

pub data Cadence : Type 0 where
  daily weekly : Cadence

pub data ApprovalDecision : Type 0 where
  allow allow_always deny deny_always : ApprovalDecision

-- `"none"` is `no_effect`.
pub data Effect : Type 0 where
  no_effect workspace external : Effect

pub record JobLease : Type 0 where
  pub worker_id : String
  pub expires_at : ℕ

pub record ApprovalRequest : Type 0 where
  pub summary : String
  pub tool_name : String
  pub tool_call_id : String
  pub action_digest : String
  pub scope_key : String
  pub policy_version : String
  pub effect : Effect
  pub capability_id : String

pub record PendingApproval : Type 0 where
  pub request : ApprovalRequest
  pub requested_at : ℕ

pub record DeliveredDecision : Type 0 where
  pub decision : ApprovalDecision
  pub action_digest : String
  pub decided_at : ℕ

pub record Job : Type 0 where
  pub id : String
  pub objective : String
  pub status : JobStatus
  pub cwd : String
  pub created_at : ℕ
  pub updated_at : ℕ
  pub attempts : ℕ
  pub lease : Option JobLease
  pub last_error : Option String
  pub log_path : String
  pub cadence : Option Cadence
  pub next_run_at : Option ℕ
  pub session_id : Option String
  pub pending_approval : Option PendingApproval
  pub approval_decision : Option DeliveredDecision
  pub executed_approvals : List String

abbrev pub JobStore : Type 0
JobStore = List Job

abbrev pub max_attempts : ℕ
max_attempts = 3

abbrev pub is_terminal : JobStatus → Bool
is_terminal completed = true
is_terminal failed = true
is_terminal cancelled = true
is_terminal _ = false

abbrev pub is_queued : JobStatus → Bool
is_queued queued = true
is_queued _ = false

-- `status === "running" || status === "paused"`.
abbrev pub is_held : JobStatus → Bool
is_held running = true
is_held paused = true
is_held _ = false

abbrev pub empty_store : JobStore
empty_store = []

unfoldable pub replace : JobStore → Job → JobStore
replace [] job = []
replace (candidate ∷ jobs) job =
    (if candidate.id == job.id then job else candidate) ∷ replace jobs job

unfoldable pub find_job : JobStore → String → Option Job
find_job [] id = none
find_job (candidate ∷ jobs) id = if candidate.id == id then some candidate else find_job jobs id

pub record EnqueueOptions : Type 0 where
  pub id : String
  pub objective : String
  pub cwd : String
  pub log_path : String
  pub now : ℕ
  pub cadence : Option Cadence
  pub run_at : Option ℕ
  pub session_id : Option String

abbrev pub new_job : EnqueueOptions → Job
new_job options = record {
  id = options.id;
  objective = trim options.objective;
  status = queued;
  cwd = options.cwd;
  created_at = options.now;
  updated_at = options.now;
  attempts = 0;
  lease = none;
  last_error = none;
  log_path = options.log_path;
  cadence = options.cadence;
  next_run_at = options.run_at;
  session_id = truthy options.session_id;
  pending_approval = none;
  approval_decision = none;
  executed_approvals = [];
}

unfoldable pub enqueue : JobStore → EnqueueOptions → Result (JobStore × Job)
enqueue store options =
    if any (λ job. job.id == options.id) store
    then err (template ("Job " ∷ options.id ∷ " already exists" ∷ []))
    else if is_blank (trim options.objective)
    then err "A job needs an objective"
    else ok (store ++ new_job options ∷ [], new_job options)

abbrev pub expired : Option JobLease → ℕ → Bool
expired none now = false
expired (some lease) now = leb lease.expires_at now

unfoldable pub claimable : ℕ → Job → Bool
claimable now job =
    if is_queued job.status
    then leb (or_else job.next_run_at 0) now
    else is_held job.status && expired job.lease now

abbrev pub exhausted : ℕ → Job → Job
exhausted now target = record target {
  status = failed;
  updated_at = now;
  last_error = some (template ("Gave up after " ∷ decimal max_attempts ∷ " attempts" ∷ []));
  lease = none;
}

abbrev pub claimed : String → ℕ → ℕ → Job → Job
claimed worker_id now lease_ms target = record target {
  status = running;
  attempts = target.attempts + 1;
  updated_at = now;
  lease = some (record { worker_id = worker_id; expires_at = now + lease_ms });
  last_error = none;
  pending_approval = none;
  approval_decision = none;
}

unfoldable pub next_candidate : JobStore → ℕ → Option Job
next_candidate store now =
    head? (sort (by_key (λ job. job.created_at)) (filter (claimable now) store))

unfoldable pub claim : JobStore → String → ℕ → ℕ → JobStore × Option Job
claim store worker_id now lease_ms = elim (next_candidate store now) [
  | none ↦ (store, none)
  | some target ↦
      if ltb max_attempts (target.attempts + 1)
      then (replace store (exhausted now target), none)
      else (
        replace store (claimed worker_id now lease_ms target),
        some (claimed worker_id now lease_ms target),
      )
]

abbrev pub held_by : Option JobLease → String → ℕ → Bool
held_by none worker_id now = false
held_by (some lease) worker_id now = lease.worker_id == worker_id && ltb now lease.expires_at

unfoldable pub owned_by : Job → String → ℕ → Bool
owned_by job worker_id now = is_held job.status && held_by job.lease worker_id now
