-- ===== src/Jobs/Examples.antt =====
-- Runs of jobs.ts on small stores, and the theorems applied to them.
use mathlib.Core.List.{Memᴰ}
use circuit_agent.Prelude.{
  ℕ, ◌+◌, ◌≤◌, String, ◌≡◌, refl, ◌≢◌, ◌↔◌, ◌⊎◌, true, false, none, some, List, [], ◌∷◌, ◌++◌,
  arith, eq_iff, sort, insert_sorted, trim, template, decimal, All,
}
use circuit_agent.Jobs.{
  JobStatus, daily, allow, workspace, ApprovalRequest, Job, JobStore, EnqueueOptions, empty_store,
  replace, find_job, enqueue, next_candidate, claimable, claim, claimed, owned_by, new_job,
}
use circuit_agent.Jobs.Lifecycle.{succeeded, heartbeat, finish, detach, cancel, recover_stale}
use circuit_agent.Jobs.Approvals.{request_approval, resolve_approval, consume_approval}
use circuit_agent.Jobs.Invariant.{IsWellFormed}
use circuit_agent.Jobs.Commands.{Command, perform, run, execution, executions}
use circuit_agent.Jobs.WellFormed.{run-IsWellFormed}
use circuit_agent.Jobs.Approved.{AllDistinct, executions-AllDistinct}
use circuit_agent.Jobs.Leases.{
  IsClaim, IsRefused, IsSpent, claim-IsClaim, claim-IsRefused, claim-eq-none,
}
use circuit_agent.Jobs.Recovery.{
  IsAbandoned, IsRecovered, ComesFrom, IsWaiting, recover_stale_lem, finish-recurs, run-terminal,
}

-- What a run of the queue computes with.
queue : Unit {0}
unfolding run perform enqueue claim next_candidate claimable sort insert_sorted replace find_job
    owned_by heartbeat finish detach cancel recover_stale request_approval resolve_approval
    consume_approval execution executions trim template decimal
queue = tt

abbrev options : String → ℕ → EnqueueOptions
options id now = record {
  id = id;
  objective = " tidy up ";
  cwd = "/w";
  log_path = "/w/log";
  now = now;
  cadence = some daily;
  run_at = none;
  session_id = some "";
}

abbrev question : ApprovalRequest
question = record {
  summary = "run npm test";
  tool_name = "run_command";
  tool_call_id = "c1";
  action_digest = "d1";
  scope_key = "v2:d1";
  policy_version = "v2";
  effect = workspace;
  capability_id = "workspace.terminal";
}

abbrev asked : List Command
asked =
    Command.enqueue_job (options "a" 5)
    ∷ Command.enqueue_job (options "b" 3)
    ∷ Command.claim_job "w1" 100 10
    ∷ Command.request_job_approval "b" "w1" question 20
    ∷ []

abbrev answered : List Command
answered =
    Command.resolve_job_approval "b" allow "d1" 30
    ∷ Command.consume_job_approval "b" "w1" 40
    ∷ Command.consume_job_approval "b" "w1" 41
    ∷ []

-- The older job is claimed first; one decision is spent once; asking again for the spent action and
-- answering again authorizes nothing.
executions_run :
    executions
      (asked ++ answered ++ Command.request_job_approval "b" "w1" question 50 ∷ answered)
      empty_store
    ≡ ("b", "d1") ∷ []
unfolding queue
executions_run = refl

-- A dead worker's job is claimed three times, then retired while another job waits.
abbrev crashes : List Command
crashes =
    Command.enqueue_job (options "a" 5)
    ∷ Command.enqueue_job (options "b" 6)
    ∷ Command.claim_job "w1" 10 100
    ∷ Command.claim_job "w2" 10 200
    ∷ Command.claim_job "w3" 10 300
    ∷ []

retired : (claim (run crashes empty_store) "w4" 400 10).1 ≡ none
unfolding queue
retired = refl

empty-IsWellFormed : IsWellFormed empty_store
empty-IsWellFormed = record { unique = tt; valid = tt }

run-IsWellFormed_example : IsWellFormed (run crashes empty_store)
run-IsWellFormed_example = run-IsWellFormed crashes empty_store empty-IsWellFormed

executions-AllDistinct_example : AllDistinct (executions (asked ++ answered) empty_store)
executions-AllDistinct_example =
    executions-AllDistinct (asked ++ answered) empty_store empty-IsWellFormed

abbrev waiting : JobStore
waiting = new_job (options "a" 5) ∷ new_job (options "b" 3) ∷ []

abbrev taken : Job
taken = claimed "w1" 10 100 (new_job (options "b" 3))

abbrev after_claim : JobStore
after_claim = new_job (options "a" 5) ∷ taken ∷ []

waiting-IsWellFormed : IsWellFormed waiting
unfolding queue
waiting-IsWellFormed = record {
  unique = (refl, (refl, tt));
  valid = (ground arith, (ground arith, tt));
}

claim_run : claim waiting "w1" 10 100 ≡ (after_claim, some taken)
unfolding queue
claim_run = refl

claim-IsClaim_example : IsClaim waiting after_claim "w1" 10 100 taken
claim-IsClaim_example =
    claim-IsClaim waiting after_claim "w1" 10 100 taken waiting-IsWellFormed claim_run

not_w1 : ◌≢◌ {A = String} "w2" "w1"
not_w1 = ground (arith, eq_iff "w2" "w1")

claim-IsRefused_example :
    IsRefused after_claim "b" "w2" 105 × ((claimable 105 taken ≡ true) ↔ (10 + 100 ≤ 105))
claim-IsRefused_example =
    claim-IsRefused waiting after_claim "w1" "w2" 10 105 100 taken waiting-IsWellFormed claim_run
      not_w1

crashed_claim :
    claim (run crashes empty_store) "w4" 400 10
    ≡ ((claim (run crashes empty_store) "w4" 400 10).0, none)
unfolding queue
crashed_claim = refl

claim-eq-none_example :
    (All (λ job. claimable 400 job ≡ false) (run crashes empty_store)
      × ((claim (run crashes empty_store) "w4" 400 10).0 ≡ run crashes empty_store))
    ⊎ IsSpent (run crashes empty_store) (claim (run crashes empty_store) "w4" 400 10).0 400
claim-eq-none_example =
    claim-eq-none (run crashes empty_store) (claim (run crashes empty_store) "w4" 400 10).0 "w4" 400
      10 (run-IsWellFormed crashes empty_store empty-IsWellFormed) crashed_claim

recover_stale_lem_example :
    ((id : String) (job : Job)
      → find_job (recover_stale after_claim 500).0 id ≡ some job
      → ¬ IsAbandoned 500 job)
    × ((id : String) (job : Job)
        → find_job after_claim id ≡ some job
        → ¬ IsAbandoned 500 job
        → find_job (recover_stale after_claim 500).0 id ≡ some job)
    × ((id : String) (job : Job)
        → find_job after_claim id ≡ some job
        → IsAbandoned 500 job
        → (job' : Job) × (find_job (recover_stale after_claim 500).0 id ≡ some job')
          × IsRecovered job job'
          × Memᴰ job' (recover_stale after_claim 500).1)
    × All (ComesFrom after_claim 500) (recover_stale after_claim 500).1
recover_stale_lem_example = recover_stale_lem after_claim 500

finish-recurs_example :
    ((finish after_claim "b" "w1" succeeded 50 none).1 ≡ true)
    × (job' : Job) × (find_job (finish after_claim "b" "w1" succeeded 50 none).0 "b" ≡ some job')
    × IsWaiting 50 daily job'
unfolding queue
finish-recurs_example = finish-recurs after_claim "b" "w1" 50 none taken daily refl refl refl

run-terminal_example :
    (job' : Job) × (find_job (run asked (run (Command.cancel_job "a" 9 ∷ []) waiting)) "a"
      ≡ some job')
    × (true ≡ true → job'.status ≡ JobStatus.cancelled)
unfolding queue
run-terminal_example =
    run-terminal asked (run (Command.cancel_job "a" 9 ∷ []) waiting) "a"
      (record (new_job (options "a" 5)) { status = JobStatus.cancelled; updated_at = 9 })
      (run-IsWellFormed (Command.cancel_job "a" 9 ∷ []) waiting waiting-IsWellFormed) refl
