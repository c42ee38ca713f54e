-- ===== src/Runs/Granted.antt =====
-- apps/web/convex/agentRuns.ts, claimStep: what the database has after a claim that is granted.
use mathlib.Core.List.{Memᴰ}
use circuit_agent.Prelude.{
  ℕ, ◌+◌, ◌≡◌, ◌≢◌, refl, ◌∙◌, ap, Bool, true, false, not, some, List, [], ◌∷◌, ◌++◌, nat_eq, arith,
  is_some, or_else,
}
use circuit_agent.Plan.{AgentRole, StepStatus}
use circuit_agent.Runs.{
  Database, TaskRow, RunRow, StepRow, TaskStatus, RunState, Scheduled, task_key, run_key,
  step_key_of,
}
use circuit_agent.Runs.Table.{get, patch, get-patch}
use circuit_agent.Runs.Claim.{ClaimArgs, commit_claim, claimed_step, is_coding, schedule_if}

schedule_if-tasks :
    (condition : Bool) (effect : Scheduled) (db : Database)
    → (schedule_if condition effect db).tasks ≡ db.tasks
schedule_if-tasks true effect db = refl
schedule_if-tasks false effect db = refl

schedule_if-runs :
    (condition : Bool) (effect : Scheduled) (db : Database)
    → (schedule_if condition effect db).runs ≡ db.runs
schedule_if-runs true effect db = refl
schedule_if-runs false effect db = refl

schedule_if-steps :
    (condition : Bool) (effect : Scheduled) (db : Database)
    → (schedule_if condition effect db).steps ≡ db.steps
schedule_if-steps true effect db = refl
schedule_if-steps false effect db = refl

pub last_listed {ℓ} : {A : Type ℓ} (xs : List A) (x : A) → Memᴰ x (xs ++ x ∷ [])
last_listed [] x = Memᴰ.head refl
last_listed (y ∷ ys) x = Memᴰ.tail (last_listed ys x)

schedule_if-listed :
    (condition : Bool) (effect : Scheduled) (db : Database)
    → condition ≡ true
    → Memᴰ effect (schedule_if condition effect db).effects
schedule_if-listed true effect db h = last_listed db.effects effect
schedule_if-listed false effect db h = absurd (cc h)

module _ {ℓ} {A : Type ℓ} (key : A → ℕ) (g : A → A) (keeps : (x : A) → key (g x) ≡ key x) where
  -- The row that is patched, and the others.
  got_patched :
      (k : ℕ) (xs : List A) (x : A)
      → get key k xs ≡ some x
      → get key k (patch key k g xs) ≡ some (g x)
  got_patched k xs x h =
      let same : nat_eq k k ≡ true = ground arith in rw same at (get-patch key g keeps k k xs x h)

  got_other :
      (j k : ℕ) (xs : List A) (x : A)
      → j ≢ k
      → get key j xs ≡ some x
      → get key j (patch key k g xs) ≡ some x
  got_other j k xs x ne h =
      let other : nat_eq j k ≡ false = ground (arith, ne) in
      rw other at (get-patch key g keeps j k xs x h)

-- The step runs with the worker for the time and the money asked for, in its next attempt.
pub record IsWorked (args : ClaimArgs) (now : ℕ) (old step : StepRow) : Type 0 where
  pub same_run : step.run_id ≡ old.run_id
  pub runs : step.status ≡ StepStatus.running
  pub worker : step.claimed_by ≡ some args.worker_id
  pub lease : step.lease_expires_at ≡ some (now + args.lease_ms)
  pub reserves : step.reserved_rwf ≡ some args.estimated_rwf
  pub next_attempt : step.attempts ≡ old.attempts + 1

-- The task has the estimate reserved in addition, and is running.
pub record IsReserved (args : ClaimArgs) (old task : TaskRow) : Type 0 where
  pub runs : task.status ≡ TaskStatus.running
  pub reserves : task.reserved_rwf ≡ old.reserved_rwf + args.estimated_rwf
  pub same_spent : task.spent_rwf ≡ old.spent_rwf
  pub same_cap : task.max_rwf ≡ old.max_rwf

-- What a granted claim leaves in the database.
pub record IsStarted (args : ClaimArgs) (now : ℕ) (run : RunRow) (step : StepRow) (task : TaskRow)
    (db after : Database) : Type 0 where
  pub the_step :
      (row : StepRow) × (get step_key_of step.id after.steps ≡ some row)
      × IsWorked args now step row
  pub other_steps :
      (id : ℕ) (row : StepRow)
      → id ≢ step.id
      → get step_key_of id db.steps ≡ some row
      → get step_key_of id after.steps ≡ some row
  pub the_task :
      (row : TaskRow) × (get task_key task.id after.tasks ≡ some row) × IsReserved args task row
  pub other_tasks :
      (id : ℕ) (row : TaskRow)
      → id ≢ task.id
      → get task_key id db.tasks ≡ some row
      → get task_key id after.tasks ≡ some row
  pub the_run :
      (row : RunRow) × (get run_key run.id after.runs ≡ some row) × (row.status ≡ RunState.running)
  pub sent :
      step.role ≡ AgentRole.coding
      → Memᴰ
          (Scheduled.execute_claimed_step run.id step.id args.worker_id args.estimated_rwf
            (step.attempts + 1))
          after.effects

module _ (args : ClaimArgs) (now : ℕ) (run : RunRow) (step : StepRow) (task : TaskRow)
    (db : Database) where
  committed_steps :
      (commit_claim args now run step task db).steps
      ≡ patch step_key_of step.id (claimed_step args now) db.steps
  committed_steps =
      schedule_if-steps (is_coding step.role) _ _
      ∙ schedule_if-steps (not (is_some run.started_at)) _ _

  committed_tasks :
      (commit_claim args now run step task db).tasks
      ≡ patch task_key task.id
          (λ t. record t { status = TaskStatus.running })
          (patch task_key task.id
            (λ t. record t { reserved_rwf = task.reserved_rwf + args.estimated_rwf })
            db.tasks)
  committed_tasks =
      schedule_if-tasks (is_coding step.role) _ _
      ∙ schedule_if-tasks (not (is_some run.started_at)) _ _

  committed_runs :
      (commit_claim args now run step task db).runs
      ≡ patch run_key run.id
          (λ r. record r {
            status = RunState.running;
            started_at = some (or_else run.started_at now);
          })
          db.runs
  committed_runs =
      schedule_if-runs (is_coding step.role) _ _
      ∙ schedule_if-runs (not (is_some run.started_at)) _ _

  pub commit_claim-IsStarted :
      get step_key_of step.id db.steps ≡ some step
      → get task_key task.id db.tasks ≡ some task
      → get run_key run.id db.runs ≡ some run
      → IsStarted args now run step task db (commit_claim args now run step task db)
  commit_claim-IsStarted found_step found_task found_run = record {
    the_step = (
      claimed_step args now step,
      ap (get step_key_of step.id) committed_steps
          ∙ got_patched step_key_of (claimed_step args now) (λ s. refl) step.id db.steps step
              found_step,
      record {
        same_run = refl;
        runs = refl;
        worker = refl;
        lease = refl;
        reserves = refl;
        next_attempt = refl;
      },
    );
    other_steps = λ id row ne found.
        ap (get step_key_of id) committed_steps
        ∙ got_other step_key_of (claimed_step args now) (λ s. refl) id step.id db.steps row ne
            found;
    the_task = (
      record task {
        reserved_rwf = task.reserved_rwf + args.estimated_rwf;
        status = TaskStatus.running;
      },
      ap (get task_key task.id) committed_tasks
          ∙ got_patched task_key (λ t. record t { status = TaskStatus.running }) (λ t. refl) task.id
              _ _
              (got_patched task_key
                (λ t. record t { reserved_rwf = task.reserved_rwf + args.estimated_rwf })
                (λ t. refl) task.id db.tasks task found_task),
      record { runs = refl; reserves = refl; same_spent = refl; same_cap = refl },
    );
    other_tasks = λ id row ne found.
        ap (get task_key id) committed_tasks
        ∙ got_other task_key (λ t. record t { status = TaskStatus.running }) (λ t. refl) id task.id
            _ row ne
            (got_other task_key
              (λ t. record t { reserved_rwf = task.reserved_rwf + args.estimated_rwf }) (λ t. refl)
              id task.id db.tasks row ne found);
    the_run = (
      record run { status = RunState.running; started_at = some (or_else run.started_at now) },
      ap (get run_key run.id) committed_runs
          ∙ got_patched run_key
              (λ r. record r {
                status = RunState.running;
                started_at = some (or_else run.started_at now);
              })
              (λ r. refl) run.id db.runs run found_run,
      refl,
    );
    sent = λ coding. schedule_if-listed (is_coding step.role) _ _ (ap is_coding coding);
  }
