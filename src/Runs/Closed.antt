-- ===== src/Runs/Closed.antt =====
-- What a property of the database needs so that every mutation keeps it: it holds of sound databases
-- only, says nothing of the tables that soundness does not read, and stands the few changes that touch
-- a running step or the money of a task, of which those of a step keep its resumes within their limit.
use circuit_agent.Prelude.{ℕ, ◌+◌, ◌≤◌, ◌<◌, ◌⊎◌, ◌≡◌, true, false, none, some, ltb, or_else}
use circuit_agent.Plan.{StepStatus}
use circuit_agent.Budget.{max_step_resumes}
use circuit_agent.Runs.{
  Database, TaskRow, RunRow, StepRow, step_key_of, patch_task, patch_run, patch_step,
  is_running_step, steps_of,
}
use circuit_agent.Runs.Table.{get}
use circuit_agent.Runs.Balance.{weight, one_if_running, IsSound}
use circuit_agent.Runs.Sound.{KeepsAccount, KeepsPlace, IsFound, moved_together}
use circuit_agent.Runs.Claim.{ClaimArgs, claimed_step, running_count, is_startable}
use circuit_agent.Runs.Lease.{reservation, free}
use circuit_agent.Runs.Outcome.{OutcomeArgs, settle_spend, recorded_usage}
use circuit_agent.Runs.Control.{cancel_steps}

-- The reservation of a claim.
abbrev pub reserving : ClaimArgs → TaskRow → TaskRow → TaskRow
reserving args task t = record t { reserved_rwf = task.reserved_rwf + args.estimated_rwf }

-- The resumes of a step, and a change of the step that keeps them within their limit and counts one
-- when it makes the step ready.
abbrev pub resumes_of : StepRow → ℕ
resumes_of step = or_else step.resumes 0

abbrev pub KeepsResumes : (StepRow → StepRow) → StepRow → Type 0
KeepsResumes h step =
    (resumes_of step ≤ max_step_resumes → resumes_of (h step) ≤ max_step_resumes)
    × (resumes_of step ≤ resumes_of (h step))
    × ((h step).status ≡ StepStatus.ready
        → (step.status ≡ StepStatus.ready) ⊎ (resumes_of step < resumes_of (h step)))

-- It stands what leaves the money and the workers as they are.
pub record IsNeutral (P : Database → Type 0) : Type 0 where
  pub on_rest :
      (db db' : Database)
      → db'.tasks ≡ db.tasks
      → db'.runs ≡ db.runs
      → db'.steps ≡ db.steps
      → db'.usage ≡ db.usage
      → P db
      → P db'
  pub on_task :
      (k : ℕ) (g : TaskRow → TaskRow) (db : Database)
      → KeepsAccount g
      → P db
      → P (patch_task k g db)
  pub on_run :
      (k : ℕ) (g : RunRow → RunRow) (db : Database) → KeepsPlace g → P db → P (patch_run k g db)

pub record IsClosed (P : Database → Type 0) : Type 0 where
  pub sound : (db : Database) → P db → IsSound db
  pub neutral : IsNeutral P
  pub on_step :
      (db : Database) (step : StepRow) (h : StepRow → StepRow)
      → get step_key_of step.id db.steps ≡ some step
      → ((s : StepRow) → ((h s).id ≡ s.id) × ((h s).run_id ≡ s.run_id))
      → KeepsResumes h step
      → weight (h step) ≡ weight step
      → one_if_running (h step) ≡ one_if_running step
      → P db
      → P (patch_step step.id h db)
  pub on_cancel :
      (run_id : ℕ) (db : Database) → P db → P (record db { steps = cancel_steps run_id db.steps })
  pub on_claim :
      (args : ClaimArgs) (now : ℕ) (run : RunRow) (step : StepRow) (task : TaskRow) (db : Database)
      → IsFound db run step task
      → is_startable step.status ≡ true
      → ltb (running_count (steps_of run.id db.steps)) run.max_parallelism ≡ true
      → ltb task.max_rwf (task.spent_rwf + task.reserved_rwf + args.estimated_rwf) ≡ false
      → P db
      → P (moved_together task step (reserving args task) (claimed_step args now) db.usage db)
  pub on_release :
      (db : Database) (run : RunRow) (step : StepRow) (task : TaskRow) (h : StepRow → StepRow)
      → IsFound db run step task
      → is_running_step step.status ≡ true
      → is_running_step (h step).status ≡ false
      → ((s : StepRow) → ((h s).id ≡ s.id) × ((h s).run_id ≡ s.run_id))
      → KeepsResumes h step
      → ltb task.reserved_rwf (reservation step) ≡ false
      → P db
      → P (patch_step step.id h (free task step db))
  pub on_settle :
      (args : OutcomeArgs) (run : RunRow) (step : StepRow) (task : TaskRow) (h : StepRow → StepRow)
      (db : Database)
      → IsFound db run step task
      → is_running_step step.status ≡ true
      → is_running_step (h step).status ≡ false
      → ((s : StepRow) → ((h s).id ≡ s.id) × ((h s).run_id ≡ s.run_id))
      → KeepsResumes h step
      → ltb task.reserved_rwf (reservation step) ≡ false
      → ltb (reservation step) args.actual_rwf ≡ false
      → recorded_usage args db ≡ none
      → P db
      → P (patch_step step.id h (settle_spend args task run step db))
