-- ===== src/Runs/Keeps/Claims.antt =====
-- A claim keeps what is closed.
use circuit_agent.Prelude.{
  ℕ, ◌+◌, ◌≡◌, refl, subst, true, false, not, some, ltb, arith, Bool-cases, inl, inr, is_some, ok,
  >>=-returns, >>-returns, or_else,
}
use circuit_agent.Plan.{StepStatus}
use circuit_agent.Runs.{
  Database, TaskRow, RunRow, StepRow, TaskStatus, RunState, run_key, step_key_of, patch_run,
  is_running_step, steps_of, find_run_step, find_task,
}
use circuit_agent.Runs.Table.{get}
use circuit_agent.Runs.Sound.{IsFound}
use circuit_agent.Runs.Claim.{
  ClaimArgs, ClaimStatus, NewApproval, insert_approval, create_approval, running_count,
  commit_claim, overage, ask_overage, ask_budget, ask_approval, claim_funded, is_claimable,
  needs_approval, claim_found, claim_step, is_startable, is_coding, covers, newest_hold,
}
use circuit_agent.Runs.Lease.{free}
use circuit_agent.Runs.Closed.{IsClosed}
use circuit_agent.Runs.Keeps.{find_run_step-finds, find_task-finds, schedule_if-keeps}

pub startable-running :
    (status : StepStatus) → is_startable status ≡ true → is_running_step status ≡ false
startable-running status startable = ground arith

module _ (P : Database → Type 0) (closed : IsClosed P) where
  commit_claim-keeps :
      (args : ClaimArgs) (now : ℕ) (run : RunRow) (step : StepRow) (task : TaskRow) (db : Database)
      → IsFound db run step task
      → is_startable step.status ≡ true
      → ltb (running_count (steps_of run.id db.steps)) run.max_parallelism ≡ true
      → ltb task.max_rwf (task.spent_rwf + task.reserved_rwf + args.estimated_rwf) ≡ false
      → P db
      → P (commit_claim args now run step task db)
  commit_claim-keeps args now run step task db found startable room fits sound =
      let claims = closed.on_claim args now run step task db found startable room fits sound in
      let started =
        closed.neutral.on_task task.id (λ t. record t { status = TaskStatus.running }) _
          (λ t. (refl, refl, refl, refl)) claims in
      let running =
        closed.neutral.on_run run.id
          (λ r. record r {
            status = RunState.running;
            started_at = some (or_else run.started_at now);
          })
          _ (λ r. (refl, refl, refl)) started in
      schedule_if-keeps P closed.neutral (is_coding step.role) _ _ (
        schedule_if-keeps P closed.neutral (not (is_some run.started_at)) _ _
          (closed.neutral.on_rest _ _ refl refl refl refl running))

  create_approval-keeps :
      (db : Database) (approval : NewApproval) (now : ℕ) (after : Database)
      → create_approval db approval now ≡ ok after
      → P db
      → P after
  unfolding create_approval
  create_approval-keeps db approval now after e sound =
      let (task, found, result) = >>=-returns (find_task db approval.task_id) _ after e in
      let same : insert_approval db approval task.organization_id now ≡ after = cc result in
      subst (λ d. P d) same
        (closed.neutral.on_rest db (insert_approval db approval task.organization_id now) refl refl
          refl refl sound)

  -- A run waits for a decision.
  awaiting_approval-keeps :
      (run_id : ℕ) (db : Database)
      → P db
      → P (patch_run run_id (λ r. record r { status = RunState.awaiting_approval }) db)
  awaiting_approval-keeps run_id db sound =
      closed.neutral.on_run run_id (λ r. record r { status = RunState.awaiting_approval }) db
        (λ r. (refl, refl, refl)) sound

  ask_overage-keeps :
      (args : ClaimArgs) (now : ℕ) (run : RunRow) (step : StepRow) (task : TaskRow)
      (db after : Database) (status : ClaimStatus)
      → ask_overage args now run step task db ≡ ok (after, status)
      → P db
      → P after
  ask_overage-keeps args now run step task db after status e sound =
      let (asked, created, result) =
        >>=-returns (create_approval db (overage args run step task) now) _ (after, status) e in
      let same : patch_run run.id (λ r. record r { status = RunState.awaiting_approval }) asked
          ≡ after =
        cc result in
      subst (λ d. P d) same
        (awaiting_approval-keeps run.id asked
          (create_approval-keeps db (overage args run step task) now asked created sound))

  claim_funded-keeps :
      (args : ClaimArgs) (now : ℕ) (run : RunRow) (step : StepRow) (task : TaskRow)
      (db after : Database) (status : ClaimStatus)
      → IsFound db run step task
      → is_startable step.status ≡ true
      → ltb (running_count (steps_of run.id db.steps)) run.max_parallelism ≡ true
      → claim_funded args now run step task db ≡ ok (after, status)
      → P db
      → P after
  claim_funded-keeps args now run step task db after status found startable room e sound =
      elim (Bool-cases (covers task.max_rwf (newest_hold task.id db.holds))) [
        | inr unfunded ↦
            let same : ask_budget now run db ≡ after = cc (rw unfunded at e) in
            subst (λ d. P d) same
              (closed.neutral.on_rest _ _ refl refl refl refl
                (awaiting_approval-keeps run.id db sound))
        | inl funded ↦
            elim (Bool-cases
              (ltb task.max_rwf (task.spent_rwf + task.reserved_rwf + args.estimated_rwf))) [
                | inl over ↦
                    ask_overage-keeps args now run step task db after status
                      (rw (funded, over) at e) sound
                | inr fits ↦
                    let same : commit_claim args now run step task db ≡ after =
                      cc (rw (funded, fits) at e) in
                    subst (λ d. P d) same
                      (commit_claim-keeps args now run step task db found startable room fits sound)
              ]
      ]

  claim_found-keeps :
      (args : ClaimArgs) (now : ℕ) (run : RunRow) (step : StepRow) (db after : Database)
      (status : ClaimStatus)
      → get step_key_of step.id db.steps ≡ some step
      → get run_key step.run_id db.runs ≡ some run
      → claim_found args now run step db ≡ ok (after, status)
      → P db
      → P after
  claim_found-keeps args now run step db after status here_step here_run e sound =
      elim (Bool-cases (is_claimable run step (steps_of run.id db.steps))) [
        | inr lost ↦ let same : db ≡ after = cc (rw lost at e) in subst (λ d. P d) same sound
        | inl claimable ↦
            let startable : is_startable step.status ≡ true = ground (arith, claimable) in
            let idle = startable-running step.status startable in
            elim (Bool-cases (needs_approval step)) [
              | inl needs ↦
                  let same : ask_approval run step db ≡ after = cc (rw (claimable, needs) at e) in
                  subst (λ d. P d) same
                    (awaiting_approval-keeps run.id _ (
                      closed.on_step db step
                        (λ s. record s { status = StepStatus.awaiting_approval }) here_step
                        (λ s. (refl, refl)) ((λ bound. bound), omega arith, λ e. absurd (cc e))
                        (ground (arith, idle)) (ground (arith, idle)) sound))
              | inr free ↦
                  let (task, found, result) =
                    >>=-returns (find_task db run.task_id)
                      (λ task. claim_funded args now run step task db) (after, status)
                      (rw (claimable, free) at e) in
                  let here : IsFound db run step task = record {
                    found_step = here_step;
                    found_run = here_run;
                    found_task = find_task-finds db run.task_id task found;
                  } in
                  claim_funded-keeps args now run step task db after status here startable
                    (ground (arith, claimable)) result sound
            ]
      ]

  pub claim_step-keeps :
      (args : ClaimArgs) (now : ℕ) (db after : Database) (status : ClaimStatus)
      → claim_step args now db ≡ ok (after, status)
      → P db
      → P after
  unfolding claim_step
  claim_step-keeps args now db after status e sound =
      let checked = >>-returns _ _ (after, status) (>>-returns _ _ (after, status) e) in
      let ((run, step), found, result) =
        >>=-returns (find_run_step db args.run_id args.step_id "Run step not found") _
          (after, status) checked in
      let (here_step, here_run) =
        find_run_step-finds db args.run_id args.step_id "Run step not found" run step found in
      claim_found-keeps args now run step db after status here_step here_run result sound
