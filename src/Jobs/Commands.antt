-- ===== src/Jobs/Commands.antt =====
-- packages/agent-core/src/nova-cli/job-store.ts: each exported function takes the lock, reads the
-- store, applies one reducer of jobs.ts and writes the result. A command is such a call; the lock
-- makes the commands of all processes one sequence, and a reducer that throws writes nothing.
use circuit_agent.Prelude.{
  ℕ, String, Option, none, some, List, [], ◌∷◌, Result, ok, err, if◌then◌else◌, is_blank,
}
use circuit_agent.Jobs.{JobStore, EnqueueOptions, ApprovalDecision, ApprovalRequest, enqueue, claim}
use circuit_agent.Jobs.Lifecycle.{Outcome, heartbeat, finish, detach, cancel, recover_stale}
use circuit_agent.Jobs.Approvals.{
  Collected, is_allowed, request_approval, resolve_approval, consume_approval,
}

-- The last argument of each is the time that `withJobs` reads from the clock; `enqueue` has it
-- among its options.
pub data Command : Type 0 where
  enqueue_job : EnqueueOptions → Command
  claim_job : (worker_id : String) (lease_ms now : ℕ) → Command
  heartbeat_job : (id worker_id : String) (lease_ms now : ℕ) → Command
  finish_job : (id worker_id : String) → Outcome → (error : Option String) (now : ℕ) → Command
  detach_job : (id worker_id : String) (now : ℕ) → Command
  cancel_job : (id : String) (now : ℕ) → Command
  request_job_approval : (id worker_id : String) → ApprovalRequest → (now : ℕ) → Command
  resolve_job_approval : (id : String) → ApprovalDecision → (digest : String) (now : ℕ) → Command
  consume_job_approval : (id worker_id : String) (now : ℕ) → Command
  list_jobs : (now : ℕ) → Command

-- What the file holds after a reducer that may throw.
abbrev pub written {ℓ} : {R : Type ℓ} → JobStore → Result (JobStore × R) → JobStore
written store (ok (store', result)) = store'
written store (err message) = store

unfoldable pub perform : Command → JobStore → JobStore
perform (enqueue_job options) store = written store (enqueue store options)
perform (claim_job worker_id lease_ms now) store = (claim store worker_id now lease_ms).0
perform (heartbeat_job id worker_id lease_ms now) store =
    (heartbeat store id worker_id now lease_ms).0
perform (finish_job id worker_id outcome error now) store =
    (finish store id worker_id outcome now error).0
perform (detach_job id worker_id now) store = (detach store id worker_id now).0
perform (cancel_job id now) store = (cancel store id now).0
perform (request_job_approval id worker_id request now) store =
    written store (request_approval store id worker_id request now)
perform (resolve_job_approval id decision digest now) store =
    (resolve_approval store id decision digest now).0
perform (consume_job_approval id worker_id now) store = (consume_approval store id worker_id now).0
perform (list_jobs now) store = (recover_stale store now).0

unfoldable pub run : List Command → JobStore → JobStore
run [] store = store
run (command ∷ commands) store = run commands (perform command store)

-- The action that a command lets a worker execute under a human's decision, with its job. The
-- source answers `undefined` at the empty digest.
abbrev pub authorized : String → Collected → Option (String × String)
authorized id none = none
authorized id (some (decision, digest)) =
    if is_allowed decision then (if is_blank digest then none else some (id, digest)) else none

unfoldable pub execution : Command → JobStore → Option (String × String)
execution (consume_job_approval id worker_id now) store =
    authorized id (consume_approval store id worker_id now).1
execution _ store = none

abbrev pub recorded : Option (String × String) → List (String × String) → List (String × String)
recorded none log = log
recorded (some e) log = e ∷ log

-- All such actions of a sequence of commands, in order.
unfoldable pub executions : List Command → JobStore → List (String × String)
executions [] store = []
executions (command ∷ commands) store =
    recorded (execution command store) (executions commands (perform command store))
