-- ===== src/Runs/Keeps/Leases.antt =====
-- Giving a step back, a heartbeat, a report and an artifact keep what is closed.
use circuit_agent.Prelude.{
  ℕ, ◌+◌, ◌≡◌, refl, subst, String, Bool, true, false, not, ◌||◌, Option, none, some, [], ◌∷◌, ◌++◌,
  nat_eq, ltb, arith, Bool-cases, inl, inr, truthy, trim, is_blank, find, ◌==◌, Result, ok, err,
  ◌>>=◌, >>=-returns, >>-returns, throw_if-passed, throw_if,
}
use circuit_agent.Plan.{StepStatus}
use circuit_agent.Runs.{
  Database, TaskRow, RunRow, StepRow, ArtifactRow, run_key, step_key_of, is_running_step,
  is_cancelled_run, others_running, find_run_step, find_task,
}
use circuit_agent.Runs.Table.{get}
use circuit_agent.Runs.Sound.{IsFound}
use circuit_agent.Runs.Claim.{released, claimed_by_worker, is_lease, bad_lease}
use circuit_agent.Runs.Lease.{
  reservation, queued_or_running, is_expired, RetryArgs, HeartbeatArgs, Heartbeat, ArtifactArgs,
  requeue_run, gave_back, retry_owned, retry_found, heartbeat_owned, release_step_for_retry, beaten,
  remember_sandbox, same_text, owned_step, beat, heartbeat_step, report, text_start,
  record_worker_activity, report_owned, artifact_owned, artifact_checked, is_hex, record_new,
  artifact_row, record_artifact,
}
use circuit_agent.Runs.Closed.{IsClosed}
use circuit_agent.Runs.Keeps.{find_run_step-finds, find_task-finds, schedule_if-keeps}

module _ (P : Database → Type 0) (closed : IsClosed P) where
  requeue_run-keeps :
      (run : RunRow) (step : StepRow) (db : Database) → P db → P (requeue_run run step db)
  requeue_run-keeps run step db sound = elim (Bool-cases (is_cancelled_run run.status)) [
    | inl cancelled ↦ rw cancelled sound
    | inr live ↦ rw live (
        closed.neutral.on_run run.id
          (λ r. record r { status = queued_or_running (others_running db run.id step.id) }) db
          (λ r. (refl, refl, refl)) sound)
  ]

  gave_back-keeps :
      (args : RetryArgs) (now : ℕ) (run : RunRow) (step : StepRow) (task : TaskRow) (db : Database)
      → IsFound db run step task
      → is_running_step step.status ≡ true
      → ltb task.reserved_rwf (reservation step) ≡ false
      → P db
      → P (gave_back args now run step task db)
  gave_back-keeps args now run step task db found runs covered sound =
      schedule_if-keeps P closed.neutral (not (is_cancelled_run run.status)) _ _ (
        closed.neutral.on_rest _ _ refl refl refl refl (
          requeue_run-keeps run step _ (
            closed.on_release db run step task (released StepStatus.pending) found runs refl
              (λ s. (refl, refl)) ((λ bound. bound), omega arith, λ e. absurd (cc e)) covered
              sound)))

  retry_owned-keeps :
      (args : RetryArgs) (now : ℕ) (run : RunRow) (step : StepRow) (db after : Database)
      (done : Bool)
      → get step_key_of step.id db.steps ≡ some step
      → get run_key step.run_id db.runs ≡ some run
      → is_running_step step.status ≡ true
      → retry_owned args now run step db ≡ ok (after, done)
      → P db
      → P after
  retry_owned-keeps args now run step db after done here_step here_run runs e sound =
      let (task, found, result) = >>=-returns (find_task db run.task_id) _ (after, done) e in
      let here : IsFound db run step task = record {
        found_step = here_step;
        found_run = here_run;
        found_task = find_task-finds db run.task_id task found;
      } in
      elim (Bool-cases (ltb task.reserved_rwf (reservation step))) [
        | inl short ↦ cc (rw short at result)
        | inr covered ↦
            let same : gave_back args now run step task db ≡ after = cc (rw covered at result) in
            subst (λ d. P d) same
              (gave_back-keeps args now run step task db here runs covered sound)
      ]

  pub release_step_for_retry-keeps :
      (args : RetryArgs) (now : ℕ) (db after : Database) (done : Bool)
      → release_step_for_retry args now db ≡ ok (after, done)
      → P db
      → P after
  unfolding release_step_for_retry
  release_step_for_retry-keeps args now db after done e sound =
      let rest : (find_run_step db args.run_id args.step_id "Run step not found" >>= λ (run, step).
      retry_found args now run step db)
          ≡ ok (after, done) =
        >>-returns
          (throw_if (ltb 600_000 args.retry_after_ms)
            "retryAfterMs must be an integer between 0 and 10 minutes")
          _ (after, done) e in
      let ((run, step), found, result) =
        >>=-returns (find_run_step db args.run_id args.step_id "Run step not found")
          (λ (run, step). retry_found args now run step db) (after, done) rest in
      let (here_step, here_run) =
        find_run_step-finds db args.run_id args.step_id "Run step not found" run step found in
      elim (Bool-cases (claimed_by_worker step args.worker_id)) [
        | inl owned ↦
            retry_owned-keeps args now run step db after done here_step here_run
              (ground (arith, owned)) (rw owned at result) sound
        | inr lost ↦ let same : db ≡ after = cc (rw lost at result) in subst (λ d. P d) same sound
      ]

  remember_sandbox-keeps :
      (run : RunRow) (reported : Option String) (db : Database)
      → P db
      → P (remember_sandbox run reported db)
  remember_sandbox-keeps run none db sound = sound
  remember_sandbox-keeps run (some sandbox_id) db sound =
      elim (Bool-cases (same_text run.sandbox_id (some sandbox_id))) [
        | inl known ↦ rw known sound
        | inr fresh ↦ rw fresh (
            closed.neutral.on_run run.id (λ r. record r { sandbox_id = some sandbox_id }) db
              (λ r. (refl, refl, refl)) sound)
      ]

  beat-keeps :
      (args : HeartbeatArgs) (now : ℕ) (run : RunRow) (step : StepRow) (db : Database)
      → get step_key_of step.id db.steps ≡ some step
      → P db
      → P (beat args now run step db).0
  beat-keeps args now run step db here sound = elim (Bool-cases (is_cancelled_run run.status)) [
    | inl cancelled ↦ rw cancelled sound
    | inr live ↦ rw live (
        remember_sandbox-keeps run (truthy args.sandbox_id) _ (
          closed.on_step db step (beaten args now step) here (λ s. (refl, refl))
            ((λ bound. bound), omega arith, λ e. inl e) refl refl sound))
  ]

  owned_step-finds :
      (db : Database) (run_id step_id : ℕ) (worker_id : String) (run : RunRow) (step : StepRow)
      → owned_step db run_id step_id worker_id ≡ ok (run, step)
      → (get step_key_of step.id db.steps ≡ some step)
        × (get run_key step.run_id db.runs ≡ some run)
  owned_step-finds db run_id step_id worker_id run step e =
      let message : String = "Worker does not own this running step lease" in
      let ((run', step'), found, result) =
        >>=-returns (find_run_step db run_id step_id message) _ (run, step) e in
      let last : ok (run', step') ≡ ok (run, step) =
        >>-returns (throw_if (not (claimed_by_worker step' worker_id)) message) (ok (run', step'))
          (run, step) result in
      let same_run : run' ≡ run = cc last in
      let same_step : step' ≡ step = cc last in
      subst
        (λ r.
          (get step_key_of step.id db.steps ≡ some step)
          × (get run_key step.run_id db.runs ≡ some r))
        same_run
        (subst
          (λ s.
            (get step_key_of s.id db.steps ≡ some s) × (get run_key s.run_id db.runs ≡ some run'))
          same_step (find_run_step-finds db run_id step_id message run' step' found))

  pub heartbeat_step-keeps :
      (args : HeartbeatArgs) (now : ℕ) (db after : Database) (answer : Heartbeat)
      → heartbeat_step args now db ≡ ok (after, answer)
      → P db
      → P after
  unfolding heartbeat_step
  heartbeat_step-keeps args now db after answer e sound =
      let rest : (owned_step db args.run_id args.step_id args.worker_id >>= λ (run, step).
      heartbeat_owned args now run step db)
          ≡ ok (after, answer) =
        >>-returns (throw_if (not (is_lease args.lease_ms)) bad_lease) _ (after, answer) e in
      let ((run, step), found, result) =
        >>=-returns (owned_step db args.run_id args.step_id args.worker_id)
          (λ (run, step). heartbeat_owned args now run step db) (after, answer) rest in
      let (here_step, here_run) =
        owned_step-finds db args.run_id args.step_id args.worker_id run step found in
      let last : ok (beat args now run step db) ≡ ok (after, answer) =
        >>-returns (throw_if (is_expired step.lease_expires_at now) "Worker step lease has expired")
          (ok (beat args now run step db)) (after, answer) result in
      let same : (beat args now run step db).0 ≡ after = cc last in
      subst (λ d. P d) same (beat-keeps args now run step db here_step sound)

  report-keeps :
      (run_id : ℕ) (kind message : String) (now : ℕ) (db : Database)
      → P db
      → P (report run_id kind message now db)
  report-keeps run_id kind message now db sound = elim (Bool-cases (is_blank message)) [
    | inl blank ↦ rw blank sound
    | inr text ↦ rw text (closed.neutral.on_rest db _ refl refl refl refl sound)
  ]

  report_owned-keeps :
      (owned : Result (RunRow × StepRow)) (kind message : String) (now : ℕ) (db : Database)
      → P db
      → P (report_owned owned kind message now db)
  report_owned-keeps (err missing) kind message now db sound = sound
  report_owned-keeps (ok (run, step)) kind message now db sound =
      elim (Bool-cases (is_cancelled_run run.status)) [
        | inl cancelled ↦ rw cancelled sound
        | inr live ↦ rw live (report-keeps run.id kind (text_start 400 (trim message)) now db sound)
      ]

  pub record_worker_activity-keeps :
      (run_id step_id : ℕ) (worker_id kind message : String) (now : ℕ) (db : Database)
      → P db
      → P (record_worker_activity run_id step_id worker_id kind message now db)
  unfolding record_worker_activity
  record_worker_activity-keeps run_id step_id worker_id kind message now db sound =
      report_owned-keeps (owned_step db run_id step_id worker_id) kind message now db sound

  record_new-keeps :
      (args : ArtifactArgs) (task : TaskRow) (existing : Option ArtifactRow) (db after : Database)
      (id : ℕ)
      → record_new args task existing db ≡ ok (after, id)
      → P db
      → P after
  record_new-keeps args task (some existing) db after id e sound =
      elim (Bool-cases
        (not (nat_eq existing.step_id args.step_id) || not (existing.sha256 == args.sha256))) [
          | inl collides ↦ cc (rw collides at e)
          | inr known ↦ let same : db ≡ after = cc (rw known at e) in subst (λ d. P d) same sound
        ]
  record_new-keeps args task none db after id e sound =
      let new = record db {
        artifacts = db.artifacts ++ artifact_row args db.next_id task ∷ [];
        next_id = db.next_id + 1;
      } in
      let same : new ≡ after = cc e in
      subst (λ d. P d) same (closed.neutral.on_rest db new refl refl refl refl sound)

  artifact_owned-keeps :
      (args : ArtifactArgs) (now : ℕ) (run : RunRow) (step : StepRow) (db after : Database) (id : ℕ)
      → artifact_owned args now run step db ≡ ok (after, id)
      → P db
      → P after
  artifact_owned-keeps args now run step db after id e sound =
      let live = throw_if-passed (is_cancelled_run run.status) "Run is cancelled" _ (after, id) e in
      let held_still =
        throw_if-passed (is_expired step.lease_expires_at now) "Worker step lease has expired" _
          (after, id) live.1 in
      let (task, found, result) =
        >>=-returns (find_task db run.task_id) _ (after, id) held_still.1 in
      record_new-keeps args task
        (find (λ artifact. artifact.reference == args.reference) db.artifacts) db after id result
        sound

  pub record_artifact-keeps :
      (args : ArtifactArgs) (now : ℕ) (db after : Database) (id : ℕ)
      → record_artifact args now db ≡ ok (after, id)
      → P db
      → P after
  unfolding record_artifact
  record_artifact-keeps args now db after id e sound =
      let named =
        throw_if-passed (is_blank (trim args.reference) || not (is_hex 64 args.sha256))
          "Artifact reference and SHA-256 are required" (artifact_checked args now db) (after, id)
          e in
      let sized =
        throw_if-passed (ltb args.byte_length 1 || ltb 2_000_000 args.byte_length)
          "Artifact byteLength is invalid"
          (owned_step db args.run_id args.step_id args.worker_id >>= λ (run, step).
            artifact_owned args now run step db)
          (after, id) named.1 in
      let ((run, step), found, result) =
        >>=-returns (owned_step db args.run_id args.step_id args.worker_id)
          (λ (run, step). artifact_owned args now run step db) (after, id) sized.1 in
      artifact_owned-keeps args now run step db after id result sound
