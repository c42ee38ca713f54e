-- ===== src/Jobs/Lifecycle.antt =====
-- packages/agent-core/src/nova-cli/jobs.ts: the operations of the worker that holds the lease, the
-- human's `cancel`, and the sweep for workers that stopped.
use circuit_agent.Prelude.{
  truthy, ℕ, ◌+◌, String, Bool, true, false, ◌&&◌, Option, none, some, List, [], ◌∷◌, leb,
  if◌then◌else◌, template, decimal,
}
use circuit_agent.Jobs.{
  JobStatus, queued, completed, failed, cancelled, Cadence, daily, weekly, JobLease, Job, JobStore,
  max_attempts, is_terminal, is_held, replace, find_job, expired, owned_by,
}

unfoldable pub heartbeat : JobStore → String → String → ℕ → ℕ → JobStore × Bool
heartbeat store id worker_id now lease_ms = elim (find_job store id) [
  | none ↦ (store, false)
  | some job ↦
      if owned_by job worker_id now
      then (
        replace store (record job {
          updated_at = now;
          lease = some (record { worker_id = worker_id; expires_at = now + lease_ms });
        }),
        true,
      )
      else (store, false)
]

pub data Outcome : Type 0 where
  succeeded broken : Outcome

-- The status that an outcome names.
abbrev pub outcome_status : Outcome → JobStatus
outcome_status succeeded = completed
outcome_status broken = failed

abbrev pub period : Cadence → ℕ
period daily = 86_400_000
period weekly = 604_800_000

abbrev pub requeued : ℕ → Cadence → Job → Job
requeued now cadence job = record job {
  status = queued;
  updated_at = now;
  attempts = 0;
  lease = none;
  next_run_at = some (now + period cadence);
  last_error = none;
}

abbrev pub or_error : Option String → Option String → Option String
or_error none old = old
or_error (some e) old = some e

abbrev pub ended : ℕ → Outcome → Option String → Job → Job
ended now outcome error job = record job {
  status = outcome_status outcome;
  updated_at = now;
  lease = none;
  last_error = or_error (truthy error) job.last_error;
}

unfoldable pub finished : ℕ → Outcome → Option String → Option Cadence → Job → Job
finished now succeeded error (some cadence) job = requeued now cadence job
finished now succeeded error none job = ended now succeeded error job
finished now broken error cadence job = ended now broken error job

unfoldable pub finish : JobStore → String → String → Outcome → ℕ → Option String → JobStore × Bool
unfolding finished
finish store id worker_id outcome now error = elim (find_job store id) [
  | none ↦ (store, false)
  | some job ↦
      if owned_by job worker_id now
      then (replace store (finished now outcome error job.cadence job), true)
      else (store, false)
]

unfoldable pub detach : JobStore → String → String → ℕ → JobStore × Bool
detach store id worker_id now = elim (find_job store id) [
  | none ↦ (store, false)
  | some job ↦
      if owned_by job worker_id now
      then (replace store (record job { status = queued; updated_at = now; lease = none }), true)
      else (store, false)
]

unfoldable pub cancel : JobStore → String → ℕ → JobStore × Bool
cancel store id now = elim (find_job store id) [
  | none ↦ (store, false)
  | some job ↦
      if is_terminal job.status
      then (store, false)
      else (replace store (record job { status = cancelled; updated_at = now; lease = none }), true)
]

-- A running or paused job whose lease is over.
abbrev pub is_stale : ℕ → Job → Bool
is_stale now job = is_held job.status && expired job.lease now

abbrev holder : Option JobLease → String
holder none = ""
holder (some lease) = lease.worker_id

unfoldable pub recovered_job : ℕ → Job → Job
recovered_job now job =
    if leb max_attempts job.attempts
    then record job {
      status = failed;
      updated_at = now;
      lease = none;
      pending_approval = none;
      approval_decision = none;
      last_error = some (
          template (
            "Worker "
            ∷ holder job.lease
            ∷ " stopped responding after "
            ∷ decimal job.attempts
            ∷ " attempts"
            ∷ []));
    }
    else record job {
      status = queued;
      updated_at = now;
      lease = none;
      pending_approval = none;
      approval_decision = none;
      last_error = some (template ("Worker " ∷ holder job.lease ∷ " stopped responding" ∷ []));
    }

unfoldable pub recover_stale : JobStore → ℕ → JobStore × List Job
unfolding recovered_job
recover_stale [] now = ([], [])
recover_stale (job ∷ jobs) now =
    let (jobs', recovered) = recover_stale jobs now in
    if is_stale now job
    then (recovered_job now job ∷ jobs', recovered_job now job ∷ recovered)
    else (job ∷ jobs', recovered)
