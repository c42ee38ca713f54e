-- ===== src/Runs/Sound.antt =====
-- How the changes that the mutations make keep a database sound: those that leave the money and the
-- workers as they are, and the one that moves a step, its task and the ledger together.
use circuit_agent.Prelude.{
  ℕ, ◌+◌, ◌≤◌, ◌≡◌, refl, sym, subst, some, List, [], ◌∷◌, nat_eq, if◌then◌else◌, All, All-imp,
  arith, Bool-cases, inl, inr,
}
use circuit_agent.Runs.{
  Database, TaskRow, RunRow, StepRow, UsageRow, task_key, run_key, step_key_of, patch_task,
  patch_run, patch_step,
}
use circuit_agent.Runs.Table.{
  get, patch, patch-AreDistinct, All-patch, All-patch_same, All-split, get-key, sum, sum-ext,
}
use circuit_agent.Runs.Balance.{
  is_of_task, weight, one_if_running, step_hold, running_in, held_for, used, IsBalanced, IsWithin,
  IsSound, held_for-patch, held_for-patch_same, running-patch,
}

-- A task keeps what its account is made of.
abbrev pub KeepsAccount : (TaskRow → TaskRow) → Type 0
KeepsAccount g =
    (t : TaskRow)
    → ((g t).id ≡ t.id)
      × ((g t).spent_rwf ≡ t.spent_rwf)
      × ((g t).reserved_rwf ≡ t.reserved_rwf)
      × ((g t).max_rwf ≡ t.max_rwf)

abbrev pub KeepsPlace : (RunRow → RunRow) → Type 0
KeepsPlace g =
    (r : RunRow)
    → ((g r).id ≡ r.id) × ((g r).task_id ≡ r.task_id) × ((g r).max_parallelism ≡ r.max_parallelism)

pub patch_task-IsSound :
    (k : ℕ) (g : TaskRow → TaskRow) (db : Database)
    → KeepsAccount g
    → IsSound db
    → IsSound (patch_task k g db)
patch_task-IsSound k g db keeps sound = record {
  tasks_distinct = patch-AreDistinct task_key g (λ t. (keeps t).0) k db.tasks sound.tasks_distinct;
  runs_distinct = sound.runs_distinct;
  steps_distinct = sound.steps_distinct;
  balanced =
      All-patch_same task_key (IsBalanced db.runs db.steps db.usage)
        (IsBalanced db.runs db.steps db.usage) k g db.tasks same sound.balanced;
  within = sound.within;
}
  where
    same :
        (t : TaskRow)
        → IsBalanced db.runs db.steps db.usage t
        → IsBalanced db.runs db.steps db.usage t × IsBalanced db.runs db.steps db.usage (g t)
    same t h =
        let (id, spent, reserved, cap) = keeps t in
        let (holds, uses, fits) = h in
        (h, (rw (id, reserved) holds, rw (id, spent) uses, rw (spent, reserved, cap) fits))

is_of_task-patch :
    (j k task_id : ℕ) (g : RunRow → RunRow) (runs : List RunRow)
    → KeepsPlace g
    → is_of_task (get run_key j (patch run_key k g runs)) task_id
      ≡ is_of_task (get run_key j runs) task_id
unfolding get patch
is_of_task-patch j k task_id g [] keeps = refl
is_of_task-patch j k task_id g (r ∷ runs) keeps =
    let (id, task, cap) = keeps r in
    let rest = is_of_task-patch j k task_id g runs keeps in
    elim (Bool-cases (nat_eq r.id k)) [
      | inl same ↦ elim (Bool-cases (nat_eq r.id j)) [
        | inl found ↦ rw (same, id, found, task) refl
        | inr other ↦ rw (same, id, other) rest
      ]
      | inr apart ↦ elim (Bool-cases (nat_eq r.id j)) [
        | inl found ↦ rw (apart, found) refl
        | inr other ↦ rw (apart, other) rest
      ]
    ]

pub held_for-patch_run :
    (k task_id : ℕ) (g : RunRow → RunRow) (runs : List RunRow) (steps : List StepRow)
    → KeepsPlace g
    → held_for (patch run_key k g runs) steps task_id ≡ held_for runs steps task_id
unfolding held_for
held_for-patch_run k task_id g runs steps keeps =
    sum-ext (step_hold (patch run_key k g runs) task_id) (step_hold runs task_id) steps
      (λ step. rw (is_of_task-patch step.run_id k task_id g runs keeps) refl)

pub patch_run-IsSound :
    (k : ℕ) (g : RunRow → RunRow) (db : Database)
    → KeepsPlace g
    → IsSound db
    → IsSound (patch_run k g db)
patch_run-IsSound k g db keeps sound = record {
  tasks_distinct = sound.tasks_distinct;
  runs_distinct = patch-AreDistinct run_key g (λ r. (keeps r).0) k db.runs sound.runs_distinct;
  steps_distinct = sound.steps_distinct;
  balanced =
      All-imp (IsBalanced db.runs db.steps db.usage) db.tasks
        (λ t (holds, uses, fits).
          (rw (held_for-patch_run k t.id g db.runs db.steps keeps) holds, uses, fits))
        sound.balanced;
  within =
      All-patch_same run_key (IsWithin db.steps) (IsWithin db.steps) k g db.runs
        (λ r h. (h, (let (id, task, cap) = keeps r in rw (id, cap) h))) sound.within;
}

-- The step has run and task, as the handlers find them.
pub record IsFound (db : Database) (run : RunRow) (step : StepRow) (task : TaskRow) : Type 0 where
  pub found_step : get step_key_of step.id db.steps ≡ some step
  pub found_run : get run_key step.run_id db.runs ≡ some run
  pub found_task : get task_key run.task_id db.tasks ≡ some task

-- What a mutation makes of a step, its task and the ledger.
abbrev pub moved_together :
    TaskRow
    → StepRow
    → (TaskRow → TaskRow)
    → (StepRow → StepRow)
    → List UsageRow
    → Database
    → Database
moved_together task step g h usage db = record db {
  tasks = patch task_key task.id g db.tasks;
  steps = patch step_key_of step.id h db.steps;
  usage = usage;
}

module _ (db : Database) (run : RunRow) (step : StepRow) (task : TaskRow)
    (found : IsFound db run step task) (sound : IsSound db) where
  named_task : task.id ≡ run.task_id
  named_task = get-key task_key run.task_id db.tasks task found.found_task

  named_run : run.id ≡ step.run_id
  named_run = get-key run_key step.run_id db.runs run found.found_run

  pub here_task : get task_key task.id db.tasks ≡ some task
  here_task = subst (λ k. get task_key k db.tasks ≡ some task) (sym named_task) found.found_task

  here_run : get run_key run.id db.runs ≡ some run
  here_run = subst (λ k. get run_key k db.runs ≡ some run) (sym named_run) found.found_run

  module _ (g : TaskRow → TaskRow) (h : StepRow → StepRow) (usage : List UsageRow) (paid : ℕ)
      (keeps_id : (t : TaskRow) → (g t).id ≡ t.id)
      (keeps_step : (s : StepRow) → ((h s).id ≡ s.id) × ((h s).run_id ≡ s.run_id))
      (holds : (g task).reserved_rwf + weight step ≡ task.reserved_rwf + weight (h step))
      (uses : (task_id : ℕ)
        → used usage task_id ≡ used db.usage task_id + (if nat_eq task.id task_id then paid else 0))
      (pays : (g task).spent_rwf ≡ task.spent_rwf + paid)
      (fits : (g task).spent_rwf + (g task).reserved_rwf ≤ (g task).max_rwf)
      (room : sum (running_in run.id) db.steps + one_if_running (h step)
        ≤ run.max_parallelism + one_if_running step) where
    held_after :
        (task_id : ℕ)
        → held_for db.runs (patch step_key_of step.id h db.steps) task_id
            + (if nat_eq task.id task_id then weight step else 0)
          ≡ held_for db.runs db.steps task_id
            + (if nat_eq task.id task_id then weight (h step) else 0)
    held_after task_id = rw named_task (
        held_for-patch db.runs db.steps task_id h run step found.found_step sound.steps_distinct
          found.found_run (keeps_step step).1)

    running_after :
        (run_id : ℕ)
        → sum (running_in run_id) (patch step_key_of step.id h db.steps)
            + (if nat_eq run.id run_id then one_if_running step else 0)
          ≡ sum (running_in run_id) db.steps
            + (if nat_eq run.id run_id then one_if_running (h step) else 0)
    running_after run_id = rw named_run (
        running-patch db.steps run_id h step found.found_step sound.steps_distinct
          (keeps_step step).1)

    all_accounts_kept :
        All
          (IsBalanced db.runs (patch step_key_of step.id h db.steps) usage)
          (patch task_key task.id g db.tasks)
    all_accounts_kept =
        All-patch task_key (IsBalanced db.runs db.steps db.usage)
          (IsBalanced db.runs (patch step_key_of step.id h db.steps) usage) task.id g db.tasks task
          here_task sound.tasks_distinct
          (λ t apart (holds_t, uses_t, fits_t).
            (ground (arith, held_after t.id), ground (arith, uses t.id), fits_t))
          (λ (holds_t, uses_t, fits_t). (
            rw (keeps_id task) (ground (arith, held_after task.id, holds)),
            rw (keeps_id task) (ground (arith, uses task.id, pays)),
            fits,
          ))
          sound.balanced

    all_workers_kept : All (IsWithin (patch step_key_of step.id h db.steps)) db.runs
    all_workers_kept =
        All-split run_key (IsWithin db.steps) (IsWithin (patch step_key_of step.id h db.steps))
          run.id db.runs run here_run sound.runs_distinct
          (λ r apart fit. ground (arith, running_after r.id))
          (λ fit. ground (arith, running_after run.id, room)) sound.within

    -- The move keeps the database sound.
    pub moved_together-IsSound : IsSound (moved_together task step g h usage db)
    moved_together-IsSound = record {
      tasks_distinct = patch-AreDistinct task_key g keeps_id task.id db.tasks sound.tasks_distinct;
      runs_distinct = sound.runs_distinct;
      steps_distinct =
          patch-AreDistinct step_key_of h (λ s. (keeps_step s).0) step.id db.steps
            sound.steps_distinct;
      balanced = all_accounts_kept;
      within = all_workers_kept;
    }

-- A step that keeps its run, its weight and whether it is running.
pub patch_step-IsSound :
    (db : Database) (step : StepRow) (h : StepRow → StepRow)
    → get step_key_of step.id db.steps ≡ some step
    → ((s : StepRow) → ((h s).id ≡ s.id) × ((h s).run_id ≡ s.run_id))
    → weight (h step) ≡ weight step
    → one_if_running (h step) ≡ one_if_running step
    → IsSound db
    → IsSound (patch_step step.id h db)
patch_step-IsSound db step h here keeps weighs counts sound = record {
  tasks_distinct = sound.tasks_distinct;
  runs_distinct = sound.runs_distinct;
  steps_distinct =
      patch-AreDistinct step_key_of h (λ s. (keeps s).0) step.id db.steps sound.steps_distinct;
  balanced =
      All-imp (IsBalanced db.runs db.steps db.usage) db.tasks
        (λ t (holds, uses, fits). (
          rw
              (held_for-patch_same db.runs db.steps t.id h step here sound.steps_distinct
                (keeps step).1 weighs)
              holds,
          uses,
          fits,
        ))
        sound.balanced;
  within =
      All-imp (IsWithin db.steps) db.runs
        (λ r fit. ground (
          arith,
          running-patch db.steps r.id h step here sound.steps_distinct (keeps step).1,
          counts,
        ))
        sound.within;
}
