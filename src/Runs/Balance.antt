-- ===== src/Runs/Balance.antt =====
-- apps/web/convex/agentRuns.ts: the money of a task and the workers of a run, as the tables of the
-- database give them. What a task has reserved is what its running steps hold; what it has spent is
-- in the usage ledger.
use circuit_agent.Prelude.{
  ℕ, ◌+◌, ◌≤◌, ◌≡◌, refl, Bool, false, Option, none, some, List, nat_eq, if◌then◌else◌, All, arith,
}
use circuit_agent.Runs.{
  Database, TaskRow, RunRow, StepRow, UsageRow, task_key, run_key, step_key_of, is_running_step,
}
use circuit_agent.Runs.Table.{get, patch, AreDistinct, sum, sum-patch}
use circuit_agent.Runs.Lease.{reservation}

-- The run is one of the task.
abbrev pub is_of_task : Option RunRow → ℕ → Bool
is_of_task none task_id = false
is_of_task (some run) task_id = nat_eq run.task_id task_id

abbrev pub weight : StepRow → ℕ
weight step = if is_running_step step.status then reservation step else 0

abbrev pub one_if_running : StepRow → ℕ
one_if_running step = if is_running_step step.status then 1 else 0

abbrev pub step_hold : List RunRow → ℕ → StepRow → ℕ
step_hold runs task_id step =
    if is_of_task (get run_key step.run_id runs) task_id then weight step else 0

abbrev pub running_in : ℕ → StepRow → ℕ
running_in run_id step = if nat_eq step.run_id run_id then one_if_running step else 0

abbrev pub used_for : ℕ → UsageRow → ℕ
used_for task_id usage = if nat_eq usage.task_id task_id then usage.amount_rwf else 0

-- What the running steps of a task hold.
unfoldable pub held_for : List RunRow → List StepRow → ℕ → ℕ
held_for runs steps task_id = sum (step_hold runs task_id) steps

-- What the usage ledger has for a task.
unfoldable pub used : List UsageRow → ℕ → ℕ
used usage task_id = sum (used_for task_id) usage

-- The account of a task is what its running steps hold and its usage says, within its cap.
abbrev pub IsBalanced : List RunRow → List StepRow → List UsageRow → TaskRow → Type 0
IsBalanced runs steps usage task =
    (task.reserved_rwf ≡ held_for runs steps task.id)
    × (task.spent_rwf ≡ used usage task.id)
    × (task.spent_rwf + task.reserved_rwf ≤ task.max_rwf)

-- No more steps of a run are running than it allows.
abbrev pub IsWithin : List StepRow → RunRow → Type 0
IsWithin steps run = sum (running_in run.id) steps ≤ run.max_parallelism

-- Ids are distinct, the tasks are balanced, and the runs within their parallelism.
pub record IsSound (db : Database) : Type 0 where
  pub tasks_distinct : AreDistinct task_key db.tasks
  pub runs_distinct : AreDistinct run_key db.runs
  pub steps_distinct : AreDistinct step_key_of db.steps
  pub balanced : All (IsBalanced db.runs db.steps db.usage) db.tasks
  pub within : All (IsWithin db.steps) db.runs

step_hold-some :
    (runs : List RunRow) (task_id : ℕ) (step : StepRow) (run : RunRow)
    → get run_key step.run_id runs ≡ some run
    → step_hold runs task_id step ≡ (if nat_eq run.task_id task_id then weight step else 0)
step_hold-some runs task_id step run found = rw found refl

-- The rest of a list is as it was when one step of a task changes.
pub held_for-patch :
    (runs : List RunRow) (steps : List StepRow) (task_id : ℕ) (h : StepRow → StepRow) (run : RunRow)
    (step : StepRow)
    → get step_key_of step.id steps ≡ some step
    → AreDistinct step_key_of steps
    → get run_key step.run_id runs ≡ some run
    → (h step).run_id ≡ step.run_id
    → held_for runs (patch step_key_of step.id h steps) task_id
        + (if nat_eq run.task_id task_id then weight step else 0)
      ≡ held_for runs steps task_id + (if nat_eq run.task_id task_id then weight (h step) else 0)
unfolding held_for
held_for-patch runs steps task_id h run step here distinct found keeps =
    let new_found : get run_key (h step).run_id runs ≡ some run = rw keeps found in
    omega (
      arith,
      sum-patch step_key_of (step_hold runs task_id) step.id h steps step here distinct,
      step_hold-some runs task_id step run found,
      step_hold-some runs task_id (h step) run new_found,
    )

pub running-patch :
    (steps : List StepRow) (run_id : ℕ) (h : StepRow → StepRow) (step : StepRow)
    → get step_key_of step.id steps ≡ some step
    → AreDistinct step_key_of steps
    → (h step).run_id ≡ step.run_id
    → sum (running_in run_id) (patch step_key_of step.id h steps)
        + (if nat_eq step.run_id run_id then one_if_running step else 0)
      ≡ sum (running_in run_id) steps
        + (if nat_eq step.run_id run_id then one_if_running (h step) else 0)
running-patch steps run_id h step here distinct keeps =
    let new : running_in run_id (h step)
        ≡ (if nat_eq step.run_id run_id then one_if_running (h step) else 0) =
      rw keeps refl in
    omega (arith, sum-patch step_key_of (running_in run_id) step.id h steps step here distinct, new)

-- A step that keeps its run and its weight keeps what is held.
pub held_for-patch_same :
    (runs : List RunRow) (steps : List StepRow) (task_id : ℕ) (h : StepRow → StepRow)
    (step : StepRow)
    → get step_key_of step.id steps ≡ some step
    → AreDistinct step_key_of steps
    → (h step).run_id ≡ step.run_id
    → weight (h step) ≡ weight step
    → held_for runs (patch step_key_of step.id h steps) task_id ≡ held_for runs steps task_id
unfolding held_for
held_for-patch_same runs steps task_id h step here distinct keeps weighs =
    let same : step_hold runs task_id (h step) ≡ step_hold runs task_id step =
      rw (keeps, weighs) refl in
    omega (
      arith,
      sum-patch step_key_of (step_hold runs task_id) step.id h steps step here distinct,
      same,
    )
