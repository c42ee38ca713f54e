-- ===== src/Runs/Examples.antt =====
-- What becomes of a task with one run of two steps.
use circuit_agent.Prelude.{
  err, decimal, ℕ, ◌+◌, ◌≡◌, ◌≤◌, refl, Bool, true, false, Option, none, some, List, [], ◌∷◌,
  Result, ok, err, arith, map, All,
}
use circuit_agent.Plan.{StepStatus}
use circuit_agent.Authz.{MembershipRow, OrganizationRole}
use circuit_agent.Runs.{
  find_task, Database, TaskRow, RunRow, StepRow, HoldRow, TaskStatus, RunState, StepApproval,
  HoldStatus, task_key, run_key, step_key_of,
}
use circuit_agent.Runs.Table.{get, AreDistinct}
use circuit_agent.Runs.Balance.{IsSound}
use circuit_agent.Runs.Claim.{claim_step, claimed}
use circuit_agent.Runs.Lease.{HeartbeatArgs, ArtifactArgs, RetryArgs}
use circuit_agent.Runs.Outcome.{record_step_outcome, OutcomeArgs, failed, checkpoint}
use circuit_agent.Runs.Recovery.{Recovery, recover_expired_leases}
use circuit_agent.Runs.Commands.{
  Mutation, claim_a_step, release_for_retry, keep_lease, worker_activity, artifact, step_outcome,
  pause_a_run, transact, transact_all, transact_all-IsSound, recover_expired_leases_total,
}
use circuit_agent.Runs.Account.{account_of, Moves, transact_all-Moves}
use circuit_agent.Capabilities.{TaskKind}
use circuit_agent.Authz.{MembershipRow, agent_run, require_organization_permission}
use circuit_agent.Runs.Control.{is_finished_task}
use circuit_agent.Runs.Create.{create_task_run}
use circuit_agent.Runs.Created.{IsCreated, create_task_run-IsSound}
use circuit_agent.Runs.Charges.{IsChargedOnce, transact_all-IsChargedOnce}
use circuit_agent.Budget.{max_step_resumes}
use circuit_agent.Runs.Closed.{resumes_of}
use circuit_agent.Runs.Resumes.{AreBounded, resumptions, transact_all-AreBounded}
use circuit_agent.Runs.Again.{record_step_outcome_again}
use circuit_agent.Runs.Approve.{Choice, ApprovalOutcome, decide_approval}
use circuit_agent.Runs.Decided.{decide_approval_once}
use circuit_agent.Runs.Granted.{IsStarted}
use circuit_agent.Runs.Gates.{IsGranted, claim_step-IsGranted}
use circuit_agent.Runs.Lost.{lost_lease-inert}
use circuit_agent.Runs.Samples.{
  created, two_steps, site_task, site_run, plan_step, site_db, claim_build, plan_failed,
  site_mutations, back_off, a_beat, a_patch, run_statuses, after_claim, asked_and_claimed,
  overage_approved, after_approval, site_db-IsSound,
}

-- What the first step used is spent, and nothing stays reserved. The run had failed; the sweep over
-- the lease of its other step puts it back into the queue.
site_spent : map (λ t. t.spent_rwf) (transact_all site_mutations site_db).tasks ≡ 25 ∷ []
unfolding transact_all recover_expired_leases circuit_agent.Prelude.sort
    circuit_agent.Runs.Outcome.record_step_outcome circuit_agent.Prelude.trim get claim_step
    circuit_agent.Runs.Table.patch circuit_agent.Prelude.insert_sorted
site_spent = refl

site_free : map (λ t. t.reserved_rwf) (transact_all site_mutations site_db).tasks ≡ 0 ∷ []
unfolding transact_all recover_expired_leases circuit_agent.Prelude.sort
    circuit_agent.Runs.Outcome.record_step_outcome circuit_agent.Prelude.trim get claim_step
    circuit_agent.Runs.Table.patch circuit_agent.Prelude.insert_sorted
site_free = refl

run_failed :
    run_statuses
      (transact_all ((claim_a_step claim_build, 10) ∷ (step_outcome plan_failed, 20) ∷ []) site_db)
    ≡ RunState.failed ∷ []
unfolding transact_all circuit_agent.Runs.Outcome.record_step_outcome circuit_agent.Prelude.trim get
    claim_step circuit_agent.Runs.Table.patch
run_failed = refl

failed_run_queued : run_statuses (transact_all site_mutations site_db) ≡ RunState.queued ∷ []
unfolding transact_all recover_expired_leases circuit_agent.Prelude.sort
    circuit_agent.Runs.Outcome.record_step_outcome circuit_agent.Prelude.trim get claim_step
    circuit_agent.Runs.Table.patch circuit_agent.Prelude.insert_sorted
failed_run_queued = refl

-- A paused run whose step in flight is given back is in the queue again, and its steps are claimed.
run_paused :
    run_statuses (transact_all ((pause_a_run (some "ann") 2, 10) ∷ []) site_db)
    ≡ RunState.paused ∷ []
unfolding transact_all circuit_agent.Runs.Control.pause_run get
    circuit_agent.Authz.require_organization_permission circuit_agent.Runs.Table.patch
run_paused = refl

paused_run_claimed :
    run_statuses (
      transact_all
        ((pause_a_run (some "ann") 2, 10)
          ∷ (release_for_retry back_off, 20)
          ∷ (claim_a_step claim_build, 30)
          ∷ [])
        site_db)
    ≡ RunState.running ∷ []
unfolding transact_all claim_step get circuit_agent.Runs.Lease.release_step_for_retry
    circuit_agent.Runs.Control.pause_run circuit_agent.Authz.require_organization_permission
    circuit_agent.Runs.Table.patch
paused_run_claimed = refl

site_granted : claim_step claim_build 10 site_db ≡ ok (after_claim, claimed)
unfolding transact claim_step get
site_granted = refl

transact_all-IsSound_example : IsSound (transact_all site_mutations site_db)
transact_all-IsSound_example = transact_all-IsSound site_mutations site_db site_db-IsSound

transact_all-Moves_example :
    (after : TaskRow) × (get task_key 1 (transact_all site_mutations site_db).tasks ≡ some after)
    × Moves (account_of site_task) (account_of after)
unfolding get
transact_all-Moves_example =
    transact_all-Moves 1 site_task site_mutations site_db site_db-IsSound refl

claim_step-IsGranted_example :
    (run : RunRow) × (step : StepRow) × (task : TaskRow) × IsGranted claim_build site_db run step
      task
    × IsStarted claim_build 10 run step task site_db after_claim
claim_step-IsGranted_example = claim_step-IsGranted claim_build 10 site_db after_claim site_granted

recover_expired_leases_total_example :
    (after : Database) × (total : Recovery) × (recover_expired_leases 3 90_000 site_db
      ≡ ok (after, total))
    × IsSound after
recover_expired_leases_total_example =
    recover_expired_leases_total 3 90_000 site_db site_db-IsSound (omega arith) (omega arith)

lost_lease-inert_example :
    (transact (keep_lease (record a_beat { run_id = 2; step_id = 3; worker_id = "w2" })) 10 site_db
      ≡ site_db)
    × (transact (worker_activity 2 3 "w2" "note" "hello") 10 site_db ≡ site_db)
    × (transact (artifact (record a_patch { run_id = 2; step_id = 3; worker_id = "w2" })) 10 site_db
        ≡ site_db)
    × (transact
          (step_outcome (record plan_failed { run_id = 2; step_id = 3; worker_id = "w2" }))
          10
          site_db
        ≡ site_db)
    × (transact
          (release_for_retry (record back_off { run_id = 2; step_id = 3; worker_id = "w2" }))
          10
          site_db
        ≡ site_db)
unfolding get
lost_lease-inert_example =
    lost_lease-inert site_db 2 3 "w2" site_run plan_step 10 a_beat "note" "hello" a_patch
      plan_failed back_off refl refl refl refl

plan_reported :
    record_step_outcome plan_failed 20 site_db ≡ ok (transact (step_outcome plan_failed) 20 site_db)
unfolding transact record_step_outcome circuit_agent.Prelude.trim get
plan_reported = refl

record_step_outcome_again_example :
    record_step_outcome plan_failed 500 (transact (step_outcome plan_failed) 20 site_db)
    ≡ ok (transact (step_outcome plan_failed) 20 site_db)
record_step_outcome_again_example =
    record_step_outcome_again plan_failed 20 500 site_db
      (transact (step_outcome plan_failed) 20 site_db) plan_reported

claimed_before :
    map (λ s. s.status) asked_and_claimed.steps ≡ StepStatus.pending ∷ StepStatus.running ∷ []
unfolding transact_all claim_step get circuit_agent.Runs.Lease.release_step_for_retry
    circuit_agent.Runs.Table.patch
claimed_before = refl

-- The step that a worker has is pending again, and its reservation stays with the task.
unclaimed_after :
    map (λ s. s.status) after_approval.steps ≡ StepStatus.pending ∷ StepStatus.pending ∷ []
unfolding transact_all decide_approval get claim_step
    circuit_agent.Runs.Lease.release_step_for_retry circuit_agent.Runs.Table.patch
    circuit_agent.Authz.require_organization_permission
unclaimed_after = refl

reserved_after : map (λ t. t.reserved_rwf) after_approval.tasks ≡ 50 ∷ []
unfolding transact_all decide_approval get claim_step
    circuit_agent.Runs.Lease.release_step_for_retry circuit_agent.Runs.Table.patch
    circuit_agent.Authz.require_organization_permission
reserved_after = refl

overage_returns : overage_approved ≡ ok (after_approval, ApprovalOutcome.started)
unfolding transact_all decide_approval get claim_step
    circuit_agent.Runs.Lease.release_step_for_retry circuit_agent.Runs.Table.patch
    circuit_agent.Authz.require_organization_permission
overage_returns = refl

decide_approval_once_example :
    decide_approval decimal (some "ann") 10 Choice.rejected 50 after_approval
    ≡ err "Pending approval not found"
decide_approval_once_example =
    decide_approval_once decimal (some "ann") (some "ann") 10 Choice.approved Choice.rejected 40 50
      asked_and_claimed after_approval ApprovalOutcome.started overage_returns

transact_all-IsChargedOnce_example : IsChargedOnce (transact_all site_mutations site_db).usage
transact_all-IsChargedOnce_example =
    transact_all-IsChargedOnce site_mutations site_db site_db-IsSound tt

-- A worker that ran out of time, with its work recorded.
abbrev checkpointed : List (Mutation × ℕ)
checkpointed =
    (artifact (record a_patch { run_id = 2; step_id = 3; worker_id = "w1" }), 15)
    ∷ (
      step_outcome
          (record plan_failed { outcome = checkpoint; artifact_references = "patch" ∷ [] }),
      20,
    )
    ∷ (claim_a_step claim_build, 30)
    ∷ []

checkpoint_counted :
    map (λ s. s.resumes) (transact_all checkpointed site_db).steps ≡ some 1 ∷ none ∷ []
unfolding transact_all circuit_agent.Runs.Outcome.record_step_outcome circuit_agent.Prelude.trim get
    claim_step circuit_agent.Runs.Table.patch circuit_agent.Runs.Lease.record_artifact
    circuit_agent.Budget.decide_step_resume
checkpoint_counted = refl

checkpoint_resumes : resumptions 3 checkpointed site_db ≡ 1
unfolding resumptions transact_all circuit_agent.Runs.Outcome.record_step_outcome
    circuit_agent.Prelude.trim get claim_step circuit_agent.Runs.Table.patch
    circuit_agent.Runs.Lease.record_artifact circuit_agent.Budget.decide_step_resume
checkpoint_resumes = refl

transact_all-AreBounded_example :
    AreBounded (transact_all checkpointed site_db).steps
    × ((k : ℕ) (row : StepRow)
        → get step_key_of k site_db.steps ≡ some row
        → resumes_of row + resumptions k checkpointed site_db ≤ max_step_resumes)
transact_all-AreBounded_example =
    transact_all-AreBounded checkpointed site_db site_db-IsSound (omega arith, (omega arith, tt))

run_is_created : create_task_run (some "ann") [] two_steps 3 site_db ≡ ok (created, 10)
unfolding create_task_run get require_organization_permission circuit_agent.Prelude.trim
    circuit_agent.Editor.Text.text_length circuit_agent.Plan.Validate.validate_task_graph
    circuit_agent.Plan.Validate.duplicate_issues circuit_agent.Plan.Validate.missing_issues
    circuit_agent.Plan.Validate.find_last circuit_agent.Capabilities.resolve
run_is_created = refl

create_task_run-IsSound_example :
    (task : TaskRow) × (member : MembershipRow) × (run : RunRow) × (rows : List StepRow)
    × (find_task site_db 1 ≡ ok task)
    × (require_organization_permission site_db.memberships
          (some "ann")
          task.organization_id
          agent_run
        ≡ ok member)
    × (is_finished_task task.status ≡ false)
    × IsCreated two_steps task site_db created 10 run rows
create_task_run-IsSound_example =
    create_task_run-IsSound (some "ann") [] two_steps 3 site_db created 10 run_is_created
