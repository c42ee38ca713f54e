-- ===== src/Runs/Lost.antt =====
-- apps/web/convex/agentRuns.ts: a worker that has lost its step, to another worker or to the sweep.
use circuit_agent.Prelude.{
  ℕ, ◌≡◌, refl, String, Bool, true, false, not, ◌&&◌, ◌||◌, Option, none, some, nat_eq, ltb,
  Bool-cases, inl, inr, Result, ok, err, ◌>>◌, throw_if, trim, is_blank,
}
use circuit_agent.Plan.{is_empty}
use circuit_agent.Runs.{Database, RunRow, StepRow, UsageRow, run_key, step_key_of, find_run_step}
use circuit_agent.Runs.Table.{get}
use circuit_agent.Runs.Claim.{is_lease, bad_lease, claimed_by_worker}
use circuit_agent.Runs.Lease.{
  RetryArgs, HeartbeatArgs, ArtifactArgs, release_step_for_retry, heartbeat_step,
  record_worker_activity, record_artifact, owned_step, is_hex,
}
use circuit_agent.Runs.Outcome.{
  OutcomeArgs, is_failure, is_same_usage, record_outcome, record_step_outcome,
}
use circuit_agent.Runs.Commands.{
  release_for_retry, keep_lease, worker_activity, artifact, step_outcome, committed, committed_only,
  transact,
}

guarded-inert {ℓ} :
    {A : Type ℓ} (db : Database) (bad : Bool) (message : String) (after : Result (Database × A))
    → committed db after ≡ db
    → committed db (throw_if bad message >> after) ≡ db
guarded-inert db true message after h = refl
guarded-inert db false message after h = h

guarded_only-inert :
    (db : Database) (bad : Bool) (message : String) (after : Result Database)
    → committed_only db after ≡ db
    → committed_only db (throw_if bad message >> after) ≡ db
guarded_only-inert db true message after h = refl
guarded_only-inert db false message after h = h

record_outcome-lost :
    (args : OutcomeArgs) (now : ℕ) (run : RunRow) (step : StepRow) (recorded : Option UsageRow)
    (db : Database)
    → claimed_by_worker step args.worker_id ≡ false
    → committed_only db (record_outcome args now run step recorded db) ≡ db
record_outcome-lost args now run step none db lost = rw lost refl
record_outcome-lost args now run step (some usage) db lost =
    elim (Bool-cases (is_same_usage args run usage)) [
      | inl known ↦ rw known refl
      | inr collides ↦ rw collides refl
    ]

-- A worker that does not have a step, because another has it or none, changes nothing by anything that
-- it does about the step: not by a heartbeat, a report, an artifact, an outcome, nor by giving it back.
pub lost_lease-inert :
    (db : Database) (run_id step_id : ℕ) (worker_id : String) (run : RunRow) (step : StepRow)
    (now : ℕ) (beating : HeartbeatArgs) (kind message : String) (evidence : ArtifactArgs)
    (reported : OutcomeArgs) (retry : RetryArgs)
    → get run_key run_id db.runs ≡ some run
    → get step_key_of step_id db.steps ≡ some step
    → nat_eq step.run_id run_id ≡ true
    → claimed_by_worker step worker_id ≡ false
    → (transact
          (keep_lease
            (record beating { run_id = run_id; step_id = step_id; worker_id = worker_id }))
          now
          db
        ≡ db)
      × (transact (worker_activity run_id step_id worker_id kind message) now db ≡ db)
      × (transact
            (artifact
              (record evidence { run_id = run_id; step_id = step_id; worker_id = worker_id }))
            now
            db
          ≡ db)
      × (transact
            (step_outcome
              (record reported { run_id = run_id; step_id = step_id; worker_id = worker_id }))
            now
            db
          ≡ db)
      × (transact
            (release_for_retry
              (record retry { run_id = run_id; step_id = step_id; worker_id = worker_id }))
            now
            db
          ≡ db)
unfolding transact heartbeat_step record_worker_activity record_artifact record_step_outcome
    release_step_for_retry
lost_lease-inert db run_id step_id worker_id run step now beating kind message evidence reported
      retry here_run here_step of_run lost =
    let found : (wanted : String) → find_run_step db run_id step_id wanted ≡ ok (run, step) =
      λ wanted. rw (here_run, here_step, of_run) refl in
    let message' : String = "Worker does not own this running step lease" in
    let unowned : owned_step db run_id step_id worker_id ≡ err message' =
      rw (found message', lost) refl in
    (
      guarded-inert db (not (is_lease beating.lease_ms)) bad_lease _ (rw unowned refl),
      rw unowned refl,
      guarded-inert db (is_blank (trim evidence.reference) || not (is_hex 64 evidence.sha256))
          "Artifact reference and SHA-256 are required" _
          (guarded-inert db (ltb evidence.byte_length 1 || ltb 2_000_000 evidence.byte_length)
            "Artifact byteLength is invalid" _ (rw unowned refl)),
      guarded_only-inert db (is_blank (trim reported.summary))
          "A worker outcome requires a non-empty summary" _
          (guarded_only-inert db
            (not (is_failure reported.outcome) && is_empty reported.artifact_references)
            "A non-failure outcome requires at least one evidence reference" _
            (rw (found "Run step not found") (
              record_outcome-lost
                (record reported { run_id = run_id; step_id = step_id; worker_id = worker_id }) now
                run step _ db lost))),
      guarded-inert db (ltb 600_000 retry.retry_after_ms)
          "retryAfterMs must be an integer between 0 and 10 minutes" _
          (rw (found "Run step not found", lost) refl),
    )
