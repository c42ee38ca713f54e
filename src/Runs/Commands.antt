-- ===== src/Runs/Commands.antt =====
-- The mutations of apps/web/convex/agentRuns.ts in one sequence, as the database runs them: each is a
-- transaction, and one that throws leaves no trace.
use circuit_agent.Prelude.{ℕ, ◌≡◌, ◌≤◌, refl, String, Option, List, [], ◌∷◌, Result, ok, err}
use circuit_agent.Runs.{Database}
use circuit_agent.Runs.Claim.{ClaimArgs, claim_step}
use circuit_agent.Runs.Lease.{
  RetryArgs, HeartbeatArgs, ArtifactArgs, release_step_for_retry, heartbeat_step,
  record_worker_activity, record_artifact,
}
use circuit_agent.Runs.Outcome.{OutcomeArgs, record_step_outcome}
use circuit_agent.Runs.Recovery.{Recovery, recover_expired_leases}
use circuit_agent.Runs.Control.{
  pause_run, resume_run, request_cancellation, request_task_cancellation,
}
use circuit_agent.Runs.Closed.{IsClosed}
use circuit_agent.Runs.Keeps.Claims.{claim_step-keeps}
use circuit_agent.Runs.Keeps.Leases.{
  release_step_for_retry-keeps, heartbeat_step-keeps, record_worker_activity-keeps,
  record_artifact-keeps,
}
use circuit_agent.Runs.Keeps.Outcomes.{record_step_outcome-keeps}
use circuit_agent.Runs.Keeps.Sweep.{recover_expired_leases-keeps, recover_expired_leases-returns}
use circuit_agent.Runs.Keeps.Controls.{
  pause_run-keeps, resume_run-keeps, request_cancellation-keeps, request_task_cancellation-keeps,
}
use circuit_agent.Runs.Balance.{IsSound}
use circuit_agent.Runs.Soundness.{IsSound-IsClosed}

pub data Mutation : Type 0 where
  claim_a_step : ClaimArgs → Mutation
  release_for_retry : RetryArgs → Mutation
  keep_lease : HeartbeatArgs → Mutation
  worker_activity : (run_id step_id : ℕ) (worker_id kind message : String) → Mutation
  artifact : ArtifactArgs → Mutation
  step_outcome : OutcomeArgs → Mutation
  expired_leases : (max_attempts : ℕ) → Mutation
  pause_a_run : (identity : Option String) (run_id : ℕ) → Mutation
  resume_a_run : (identity : Option String) (run_id : ℕ) → Mutation
  cancel_a_run : (identity : Option String) (run_id : ℕ) → Mutation
  cancel_a_task : (identity : Option String) (task_id : ℕ) → Mutation

-- The transaction is rolled back if it throws.
abbrev pub committed {ℓ} : {A : Type ℓ} → Database → Result (Database × A) → Database
committed db (err message) = db
committed db (ok (after, answer)) = after

abbrev pub committed_only : Database → Result Database → Database
committed_only db (err message) = db
committed_only db (ok after) = after

unfoldable pub transact : Mutation → ℕ → Database → Database
transact (claim_a_step args) now db = committed db (claim_step args now db)
transact (release_for_retry args) now db = committed db (release_step_for_retry args now db)
transact (keep_lease args) now db = committed db (heartbeat_step args now db)
transact (worker_activity run_id step_id worker_id kind message) now db =
    record_worker_activity run_id step_id worker_id kind message now db
transact (artifact args) now db = committed db (record_artifact args now db)
transact (step_outcome args) now db = committed_only db (record_step_outcome args now db)
transact (expired_leases max_attempts) now db =
    committed db (recover_expired_leases max_attempts now db)
transact (pause_a_run identity run_id) now db = committed db (pause_run identity run_id now db)
transact (resume_a_run identity run_id) now db = committed db (resume_run identity run_id now db)
transact (cancel_a_run identity run_id) now db =
    committed_only db (request_cancellation identity run_id now db)
transact (cancel_a_task identity task_id) now db =
    committed db (request_task_cancellation identity task_id now db)

-- Each mutation at its own time.
unfoldable pub transact_all : List (Mutation × ℕ) → Database → Database
unfolding transact
transact_all [] db = db
transact_all ((mutation, now) ∷ mutations) db = transact_all mutations (transact mutation now db)

committed-keeps {ℓ κ} :
    {A : Type ℓ} (P : Database → Type κ) (db : Database) (result : Result (Database × A))
    → ((after : Database) (answer : A) → result ≡ ok (after, answer) → P after)
    → P db
    → P (committed db result)
committed-keeps P db (err message) keeps h = h
committed-keeps P db (ok (after, answer)) keeps h = keeps after answer refl

committed_only-keeps {κ} :
    (P : Database → Type κ) (db : Database) (result : Result Database)
    → ((after : Database) → result ≡ ok after → P after)
    → P db
    → P (committed_only db result)
committed_only-keeps P db (err message) keeps h = h
committed_only-keeps P db (ok after) keeps h = keeps after refl

module _ (P : Database → Type 0) (closed : IsClosed P) where
  pub transact-keeps :
      (mutation : Mutation) (now : ℕ) (db : Database) → P db → P (transact mutation now db)
  unfolding transact
  transact-keeps (claim_a_step args) now db h =
      committed-keeps P db (claim_step args now db)
        (λ after answer e. claim_step-keeps P closed args now db after answer e h) h
  transact-keeps (release_for_retry args) now db h =
      committed-keeps P db (release_step_for_retry args now db)
        (λ after answer e. release_step_for_retry-keeps P closed args now db after answer e h) h
  transact-keeps (keep_lease args) now db h =
      committed-keeps P db (heartbeat_step args now db)
        (λ after answer e. heartbeat_step-keeps P closed args now db after answer e h) h
  transact-keeps (worker_activity run_id step_id worker_id kind message) now db h =
      record_worker_activity-keeps P closed run_id step_id worker_id kind message now db h
  transact-keeps (artifact args) now db h =
      committed-keeps P db (record_artifact args now db)
        (λ after answer e. record_artifact-keeps P closed args now db after answer e h) h
  transact-keeps (step_outcome args) now db h =
      committed_only-keeps P db (record_step_outcome args now db)
        (λ after e. record_step_outcome-keeps P closed args now db after e h) h
  transact-keeps (expired_leases max_attempts) now db h =
      committed-keeps P db (recover_expired_leases max_attempts now db)
        (λ after answer e.
          recover_expired_leases-keeps P closed max_attempts now db after answer e h)
        h
  transact-keeps (pause_a_run identity run_id) now db h =
      committed-keeps P db (pause_run identity run_id now db)
        (λ after answer e. pause_run-keeps P closed identity run_id now db after answer e h) h
  transact-keeps (resume_a_run identity run_id) now db h =
      committed-keeps P db (resume_run identity run_id now db)
        (λ after answer e. resume_run-keeps P closed identity run_id now db after answer e h) h
  transact-keeps (cancel_a_run identity run_id) now db h =
      committed_only-keeps P db (request_cancellation identity run_id now db)
        (λ after e. request_cancellation-keeps P closed identity run_id now db after e h) h
  transact-keeps (cancel_a_task identity task_id) now db h =
      committed-keeps P db (request_task_cancellation identity task_id now db)
        (λ after answer e.
          request_task_cancellation-keeps P closed identity task_id now db after answer e h)
        h

  -- What is closed is kept over any sequence of mutations.
  pub transact_all-keeps :
      (mutations : List (Mutation × ℕ)) (db : Database) → P db → P (transact_all mutations db)
  unfolding transact_all
  transact_all-keeps [] db h = h
  transact_all-keeps ((mutation, now) ∷ mutations) db h =
      transact_all-keeps mutations (transact mutation now db) (transact-keeps mutation now db h)

-- Over any sequence of mutations a sound database stays sound: what every task has reserved is what its
-- running steps hold, what it has spent is what the usage ledger charges it, both are within its cap,
-- and no run has more steps running than its parallelism.
pub transact_all-IsSound :
    (mutations : List (Mutation × ℕ)) (db : Database)
    → IsSound db
    → IsSound (transact_all mutations db)
transact_all-IsSound mutations db sound =
    transact_all-keeps IsSound IsSound-IsClosed mutations db sound

-- On a sound database the sweep over the leases that are over returns, for every number of attempts
-- from one to ten, and leaves the database sound.
pub recover_expired_leases_total :
    (max_attempts now : ℕ) (db : Database)
    → IsSound db
    → 1 ≤ max_attempts
    → max_attempts ≤ 10
    → (after : Database) × (total : Recovery) × (recover_expired_leases max_attempts now db
        ≡ ok (after, total))
      × IsSound after
recover_expired_leases_total max_attempts now db sound least most =
    recover_expired_leases-returns IsSound IsSound-IsClosed max_attempts now db sound least most
