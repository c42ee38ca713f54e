-- ===== src/Runs/Lease.antt =====
-- apps/web/convex/agentRuns.ts: what a worker does with a step that it has: it keeps the lease,
-- gives the step back after a transient failure, reports, and records artifacts.
use Prim.Native.Char.{Char, code}
use circuit_agent.Prelude.{
  ℕ, ◌+◌, ◌-◌, String, Bool, true, false, not, ◌&&◌, ◌||◌, Option, none, some, [], ◌∷◌, ◌++◌, ltb,
  leb, nat_eq, if◌then◌else◌, find, Result, ok, err, ◌>>=◌, ◌>>◌, throw_if, template, trim,
  is_blank, or_else, truthy, ◌==◌,
}
use circuit_agent.Plan.{StepStatus}
use circuit_agent.Runs.{
  Database, TaskRow, RunRow, StepRow, ArtifactRow, RunState, WorkPhase, Scheduled, patch_task,
  patch_run, patch_step, log_run, find_run_step, find_task, is_cancelled_run, others_running,
}
use circuit_agent.Runs.Claim.{is_lease, bad_lease, claimed_by_worker, released, schedule_if}

abbrev pub reservation : StepRow → ℕ
reservation step = or_else step.reserved_rwf 0

-- The reservation of a step goes back to its task.
abbrev pub free : TaskRow → StepRow → Database → Database
free task step db =
    patch_task task.id (λ t. record t { reserved_rwf = task.reserved_rwf - reservation step }) db

abbrev pub queued_or_running : Bool → RunState
queued_or_running others = if others then RunState.running else RunState.queued

pub record RetryArgs : Type 0 where
  pub run_id : ℕ
  pub step_id : ℕ
  pub worker_id : String
  pub reason : String
  pub retry_after_ms : ℕ

abbrev pub requeue_run : RunRow → StepRow → Database → Database
requeue_run run step db =
    if is_cancelled_run run.status
    then db
    else patch_run run.id
        (λ r. record r { status = queued_or_running (others_running db run.id step.id) }) db

abbrev pub gave_back : RetryArgs → ℕ → RunRow → StepRow → TaskRow → Database → Database
gave_back args now run step task db =
    let freed = patch_step step.id (released StepStatus.pending) (free task step db) in
    let logged =
      log_run run.id "step_retry_scheduled"
        (template (step.title ∷ " will be retried after a transient failure: " ∷ args.reason ∷ []))
        now (requeue_run run step freed) in
    schedule_if (not (is_cancelled_run run.status)) (Scheduled.dispatch_tick args.retry_after_ms)
      logged

-- The subtraction is exact under the guard.
abbrev pub retry_owned : RetryArgs → ℕ → RunRow → StepRow → Database → Result (Database × Bool)
retry_owned args now run step db = do
  task ← find_task db run.task_id
  throw_if (ltb task.reserved_rwf (reservation step))
      "Step reservation exceeds task reserved balance"
  ok (gave_back args now run step task db, true)

abbrev pub retry_found : RetryArgs → ℕ → RunRow → StepRow → Database → Result (Database × Bool)
retry_found args now run step db =
    if claimed_by_worker step args.worker_id
    then retry_owned args now run step db
    else ok (db, false)

unfoldable pub release_step_for_retry : RetryArgs → ℕ → Database → Result (Database × Bool)
release_step_for_retry args now db = do
  throw_if (ltb 600_000 args.retry_after_ms)
      "retryAfterMs must be an integer between 0 and 10 minutes"
  (run, step) ← find_run_step db args.run_id args.step_id "Run step not found"
  retry_found args now run step db

pub record HeartbeatArgs : Type 0 where
  pub run_id : ℕ
  pub step_id : ℕ
  pub worker_id : String
  pub sandbox_id : Option String
  pub lease_ms : ℕ
  pub phase : Option WorkPhase
  pub plan_bytes : Option ℕ

-- `a ?? b` where both may be absent.
abbrev pub or_keep {ℓ} : {A : Type ℓ} → Option A → Option A → Option A
or_keep none old = old
or_keep (some a) old = some a

-- The bytes received are kept in the first phase, and cleared in the second.
abbrev pub next_plan_bytes : Option WorkPhase → Option ℕ → Option ℕ → Option ℕ
next_plan_bytes (some WorkPhase.planning) reported old = or_keep reported old
next_plan_bytes (some WorkPhase.building) reported old = none
next_plan_bytes none reported old = old

abbrev pub is_expired : Option ℕ → ℕ → Bool
is_expired none now = true
is_expired (some expires_at) now = nat_eq expires_at 0 || leb expires_at now

abbrev pub beaten : HeartbeatArgs → ℕ → StepRow → StepRow → StepRow
beaten args now step s = record s {
  heartbeat_at = some now;
  lease_expires_at = some (now + args.lease_ms);
  sandbox_id = or_keep args.sandbox_id step.sandbox_id;
  phase = or_keep args.phase step.phase;
  plan_bytes = next_plan_bytes args.phase args.plan_bytes step.plan_bytes;
}

abbrev pub same_text : Option String → Option String → Bool
same_text none none = true
same_text (some a) (some b) = a == b
same_text _ _ = false

-- The run remembers the sandbox of its steps.
abbrev pub remember_sandbox : RunRow → Option String → Database → Database
remember_sandbox run none db = db
remember_sandbox run (some sandbox_id) db =
    if same_text run.sandbox_id (some sandbox_id)
    then db
    else patch_run run.id (λ r. record r { sandbox_id = some sandbox_id }) db

pub record Heartbeat : Type 0 where
  pub continue_execution : Bool
  pub lease_expires_at : ℕ

abbrev pub owned_step : Database → ℕ → ℕ → String → Result (RunRow × StepRow)
owned_step db run_id step_id worker_id = do
  (run, step) ← find_run_step db run_id step_id "Worker does not own this running step lease"
  throw_if (not (claimed_by_worker step worker_id)) "Worker does not own this running step lease"
  ok (run, step)

abbrev pub beat : HeartbeatArgs → ℕ → RunRow → StepRow → Database → Database × Heartbeat
beat args now run step db =
    if is_cancelled_run run.status
    then (
      db,
      record { continue_execution = false; lease_expires_at = or_else step.lease_expires_at 0 },
    )
    else (
      remember_sandbox run (truthy args.sandbox_id) (patch_step step.id (beaten args now step) db),
      record { continue_execution = true; lease_expires_at = now + args.lease_ms },
    )

abbrev pub heartbeat_owned :
    HeartbeatArgs → ℕ → RunRow → StepRow → Database → Result (Database × Heartbeat)
heartbeat_owned args now run step db = do
  throw_if (is_expired step.lease_expires_at now) "Worker step lease has expired"
  ok (beat args now run step db)

unfoldable pub heartbeat_step : HeartbeatArgs → ℕ → Database → Result (Database × Heartbeat)
heartbeat_step args now db = do
  throw_if (not (is_lease args.lease_ms)) bad_lease
  (run, step) ← owned_step db args.run_id args.step_id args.worker_id
  heartbeat_owned args now run step db

-- `slice(0, n)` of a text.
unfoldable pub text_start : ℕ → String → String
text_start n String.[] = String.[]
text_start n (String.◌∷◌ c s) =
    let rest = String.◌∷◌ c (text_start (n - 1) s) in if nat_eq n 0 then String.[] else rest

abbrev pub report : ℕ → String → String → ℕ → Database → Database
report run_id kind message now db =
    if is_blank message
    then db
    else log_run run_id (or_else (truthy (some (text_start 40 kind))) "activity") message now db

-- A report of a worker that does not own the step is dropped.
abbrev pub report_owned : Result (RunRow × StepRow) → String → String → ℕ → Database → Database
report_owned (err missing) kind message now db = db
report_owned (ok (run, step)) kind message now db =
    if is_cancelled_run run.status
    then db
    else report run.id kind (text_start 400 (trim message)) now db

unfoldable pub record_worker_activity : ℕ → ℕ → String → String → String → ℕ → Database → Database
unfolding text_start
record_worker_activity run_id step_id worker_id kind message now db =
    report_owned (owned_step db run_id step_id worker_id) kind message now db

pub record ArtifactArgs : Type 0 where
  pub run_id : ℕ
  pub step_id : ℕ
  pub worker_id : String
  pub reference : String
  pub sha256 : String
  pub byte_length : ℕ

abbrev pub is_hex_digit : Char → Bool
is_hex_digit c = (leb 48 (code c) && leb (code c) 57) || (leb 97 (code c) && leb (code c) 102)

-- `/^[a-f0-9]{64}$/`, with the number of characters to come.
unfoldable pub is_hex : ℕ → String → Bool
is_hex n String.[] = nat_eq n 0
is_hex n (String.◌∷◌ c s) =
    let rest = is_hex (n - 1) s in not (nat_eq n 0) && is_hex_digit c && rest

abbrev pub artifact_row : ArtifactArgs → ℕ → TaskRow → ArtifactRow
artifact_row args id task = record {
  id = id;
  task_id = task.id;
  run_id = args.run_id;
  step_id = args.step_id;
  reference = args.reference;
  sha256 = args.sha256;
  byte_length = args.byte_length;
}

-- An artifact that is there already is not recorded again.
abbrev pub record_new :
    ArtifactArgs → TaskRow → Option ArtifactRow → Database → Result (Database × ℕ)
record_new args task (some existing) db =
    if not (nat_eq existing.step_id args.step_id) || not (existing.sha256 == args.sha256)
    then err "Artifact reference collision"
    else ok (db, existing.id)
record_new args task none db = ok (
  record db {
    artifacts = db.artifacts ++ artifact_row args db.next_id task ∷ [];
    next_id = db.next_id + 1;
  },
  db.next_id,
)

abbrev pub artifact_owned : ArtifactArgs → ℕ → RunRow → StepRow → Database → Result (Database × ℕ)
artifact_owned args now run step db = do
  throw_if (is_cancelled_run run.status) "Run is cancelled"
  throw_if (is_expired step.lease_expires_at now) "Worker step lease has expired"
  task ← find_task db run.task_id
  record_new args task (find (λ artifact. artifact.reference == args.reference) db.artifacts) db

abbrev pub artifact_checked : ArtifactArgs → ℕ → Database → Result (Database × ℕ)
artifact_checked args now db = do
  throw_if (ltb args.byte_length 1 || ltb 2_000_000 args.byte_length)
      "Artifact byteLength is invalid"
  (run, step) ← owned_step db args.run_id args.step_id args.worker_id
  artifact_owned args now run step db

unfoldable pub record_artifact : ArtifactArgs → ℕ → Database → Result (Database × ℕ)
unfolding is_hex
record_artifact args now db = do
  throw_if (is_blank (trim args.reference) || not (is_hex 64 args.sha256))
      "Artifact reference and SHA-256 are required"
  artifact_checked args now db
