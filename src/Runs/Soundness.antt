-- ===== src/Runs/Soundness.antt =====
-- Soundness is closed under what the mutations do.
use circuit_agent.Prelude.{
  ℕ, ◌+◌, ◌-◌, ◌≡◌, refl, true, false, ◌&&◌, none, List, [], ◌∷◌, ◌++◌, nat_eq, ltb, if◌then◌else◌,
  arith, Bool-cases, inl, inr, All-imp,
}
use circuit_agent.Runs.{
  Database, TaskRow, RunRow, StepRow, UsageRow, task_key, run_key, step_key_of, patch_step,
  is_running_step, steps_of,
}
use circuit_agent.Runs.Table.{get, sum, sum-append, All-get_row, AreDistinct}
use circuit_agent.Runs.Balance.{
  weight, one_if_running, running_in, used_for, held_for, step_hold, used, IsBalanced, IsWithin,
  IsSound,
}
use circuit_agent.Runs.Sound.{
  IsFound, moved_together, patch_task-IsSound, patch_run-IsSound, patch_step-IsSound,
  moved_together-IsSound,
}
use circuit_agent.Runs.Claim.{ClaimArgs, claimed_step, running_count, is_startable}
use circuit_agent.Runs.Lease.{reservation, free}
use circuit_agent.Runs.Outcome.{OutcomeArgs, settle_spend, usage_row}
use circuit_agent.Runs.Control.{cancel_steps, withdrawn, is_waiting}
use circuit_agent.Runs.Closed.{IsClosed, reserving}
use circuit_agent.Runs.Keeps.Claims.{startable-running}

-- Soundness is about four tables.
untouched-IsSound :
    (db db' : Database)
    → db'.tasks ≡ db.tasks
    → db'.runs ≡ db.runs
    → db'.steps ≡ db.steps
    → db'.usage ≡ db.usage
    → IsSound db
    → IsSound db'
untouched-IsSound db db' tasks runs steps usage sound = record {
  tasks_distinct = rw tasks sound.tasks_distinct;
  runs_distinct = rw runs sound.runs_distinct;
  steps_distinct = rw steps sound.steps_distinct;
  balanced = rw (tasks, runs, steps, usage) sound.balanced;
  within = rw (runs, steps) sound.within;
}

-- What is given back can be given back, and a run has no more workers than before.
settled-IsSound :
    (db : Database) (run : RunRow) (step : StepRow) (task : TaskRow) (h : StepRow → StepRow)
    (usage : List UsageRow) (paid : ℕ)
    → IsFound db run step task
    → is_running_step step.status ≡ true
    → is_running_step (h step).status ≡ false
    → ((s : StepRow) → ((h s).id ≡ s.id) × ((h s).run_id ≡ s.run_id))
    → ltb task.reserved_rwf (reservation step) ≡ false
    → ltb (reservation step) paid ≡ false
    → ((task_id : ℕ)
        → used usage task_id ≡ used db.usage task_id + (if nat_eq task.id task_id then paid else 0))
    → IsSound db
    → IsSound (
        moved_together task step
          (λ t. record t {
            reserved_rwf = task.reserved_rwf - reservation step;
            spent_rwf = task.spent_rwf + paid;
          })
          h
          usage
          db)
settled-IsSound db run step task h usage paid found runs over keeps covered within uses sound =
    let (holds, spends, fits) =
      All-get_row task_key (IsBalanced db.runs db.steps db.usage) run.task_id db.tasks task
        found.found_task sound.balanced in
    let room =
      All-get_row run_key (IsWithin db.steps) step.run_id db.runs run found.found_run
        sound.within in
    moved_together-IsSound db run step task found sound
      (λ t. record t {
        reserved_rwf = task.reserved_rwf - reservation step;
        spent_rwf = task.spent_rwf + paid;
      })
      h usage paid (λ t. refl) keeps (ground (arith, runs, over, covered)) uses refl
      (ground (arith, covered, within, fits)) (ground (arith, runs, over, room))

-- The same without anything paid.
released-IsSound :
    (db : Database) (run : RunRow) (step : StepRow) (task : TaskRow) (h : StepRow → StepRow)
    → IsFound db run step task
    → is_running_step step.status ≡ true
    → is_running_step (h step).status ≡ false
    → ((s : StepRow) → ((h s).id ≡ s.id) × ((h s).run_id ≡ s.run_id))
    → ltb task.reserved_rwf (reservation step) ≡ false
    → IsSound db
    → IsSound (patch_step step.id h (free task step db))
released-IsSound db run step task h found runs over keeps covered sound =
    let (holds, spends, fits) =
      All-get_row task_key (IsBalanced db.runs db.steps db.usage) run.task_id db.tasks task
        found.found_task sound.balanced in
    let room =
      All-get_row run_key (IsWithin db.steps) step.run_id db.runs run found.found_run
        sound.within in
    moved_together-IsSound db run step task found sound
      (λ t. record t { reserved_rwf = task.reserved_rwf - reservation step }) h db.usage 0
      (λ t. refl) keeps (ground (arith, runs, over, covered)) (λ task_id. ground arith)
      (omega arith) (ground (arith, covered, fits)) (ground (arith, runs, over, room))

-- The steps that a run counts as running.
pub running_count-sum :
    (run_id : ℕ) (steps : List StepRow)
    → running_count (steps_of run_id steps) ≡ sum (running_in run_id) steps
unfolding running_count
running_count-sum run_id [] = refl
running_count-sum run_id (step ∷ steps) = ground (arith, running_count-sum run_id steps)

claimed-IsSound :
    (args : ClaimArgs) (now : ℕ) (run : RunRow) (step : StepRow) (task : TaskRow) (db : Database)
    → IsFound db run step task
    → is_startable step.status ≡ true
    → ltb (running_count (steps_of run.id db.steps)) run.max_parallelism ≡ true
    → ltb task.max_rwf (task.spent_rwf + task.reserved_rwf + args.estimated_rwf) ≡ false
    → IsSound db
    → IsSound (moved_together task step (reserving args task) (claimed_step args now) db.usage db)
claimed-IsSound args now run step task db found startable room fits sound =
    let idle = startable-running step.status startable in
    moved_together-IsSound db run step task found sound (reserving args task)
      (claimed_step args now) db.usage 0 (λ t. refl) (λ s. (refl, refl)) (ground (arith, idle))
      (λ task_id. ground arith) (omega arith) (ground (arith, fits))
      (ground (arith, idle, room, running_count-sum run.id db.steps))

-- The settlement with what becomes of the step.
spent-IsSound :
    (args : OutcomeArgs) (run : RunRow) (step : StepRow) (task : TaskRow) (h : StepRow → StepRow)
    (db : Database)
    → IsFound db run step task
    → is_running_step step.status ≡ true
    → is_running_step (h step).status ≡ false
    → ((s : StepRow) → ((h s).id ≡ s.id) × ((h s).run_id ≡ s.run_id))
    → ltb task.reserved_rwf (reservation step) ≡ false
    → ltb (reservation step) args.actual_rwf ≡ false
    → IsSound db
    → IsSound (patch_step step.id h (settle_spend args task run step db))
unfolding used
spent-IsSound args run step task h db found runs over keeps covered within sound =
    settled-IsSound db run step task h (db.usage ++ usage_row args task run step ∷ [])
      args.actual_rwf found runs over keeps covered within ledger sound
  where
    ledger :
        (task_id : ℕ)
        → used (db.usage ++ usage_row args task run step ∷ []) task_id
          ≡ used db.usage task_id + (if nat_eq task.id task_id then args.actual_rwf else 0)
    ledger task_id = sum-append (used_for task_id) db.usage (usage_row args task run step)

withdrawn-keeps :
    (run_id : ℕ) (step : StepRow)
    → ((withdrawn run_id step).id ≡ step.id)
      × ((withdrawn run_id step).run_id ≡ step.run_id)
      × (weight (withdrawn run_id step) ≡ weight step)
      × (one_if_running (withdrawn run_id step) ≡ one_if_running step)
withdrawn-keeps run_id step =
    elim (Bool-cases (nat_eq step.run_id run_id && is_waiting step.status)) [
      | inl waits ↦
          let idle : is_running_step step.status ≡ false = ground (arith, waits) in
          rw waits (refl, refl, rw idle refl, rw idle refl)
      | inr stays ↦ rw stays (refl, refl, refl, refl)
    ]

cancel_steps-absent :
    (run_id k : ℕ) (steps : List StepRow)
    → get step_key_of k steps ≡ none
    → get step_key_of k (cancel_steps run_id steps) ≡ none
unfolding cancel_steps get
cancel_steps-absent run_id k [] e = refl
cancel_steps-absent run_id k (step ∷ steps) e =
    let (id, of_run, weighs, counts) = withdrawn-keeps run_id step in
    elim (Bool-cases (nat_eq step.id k)) [
      | inl same ↦ cc (rw (same, get) at e)
      | inr other ↦ rw (id, other) (cancel_steps-absent run_id k steps (rw (other, get) at e))
    ]

cancel_steps-AreDistinct :
    (run_id : ℕ) (steps : List StepRow)
    → AreDistinct step_key_of steps
    → AreDistinct step_key_of (cancel_steps run_id steps)
unfolding cancel_steps
cancel_steps-AreDistinct run_id [] d = tt
cancel_steps-AreDistinct run_id (step ∷ steps) (fresh, d) =
    let (id, of_run, weighs, counts) = withdrawn-keeps run_id step in
    (
      rw id (cancel_steps-absent run_id step.id steps fresh),
      cancel_steps-AreDistinct run_id steps d,
    )

held_for-cancel_steps :
    (runs : List RunRow) (run_id task_id : ℕ) (steps : List StepRow)
    → sum (step_hold runs task_id) (cancel_steps run_id steps) ≡ sum (step_hold runs task_id) steps
unfolding cancel_steps
held_for-cancel_steps runs run_id task_id [] = refl
held_for-cancel_steps runs run_id task_id (step ∷ steps) =
    let (id, of_run, weighs, counts) = withdrawn-keeps run_id step in
    let same : step_hold runs task_id (withdrawn run_id step) ≡ step_hold runs task_id step =
      rw (of_run, weighs) refl in
    omega (arith, same, held_for-cancel_steps runs run_id task_id steps)

running-cancel_steps :
    (run_id other : ℕ) (steps : List StepRow)
    → sum (running_in other) (cancel_steps run_id steps) ≡ sum (running_in other) steps
unfolding cancel_steps
running-cancel_steps run_id other [] = refl
running-cancel_steps run_id other (step ∷ steps) =
    let (id, of_run, weighs, counts) = withdrawn-keeps run_id step in
    let same : running_in other (withdrawn run_id step) ≡ running_in other step =
      rw (of_run, counts) refl in
    omega (arith, same, running-cancel_steps run_id other steps)

cancel_steps-IsSound :
    (run_id : ℕ) (db : Database)
    → IsSound db
    → IsSound (record db { steps = cancel_steps run_id db.steps })
unfolding held_for
cancel_steps-IsSound run_id db sound = record {
  tasks_distinct = sound.tasks_distinct;
  runs_distinct = sound.runs_distinct;
  steps_distinct = cancel_steps-AreDistinct run_id db.steps sound.steps_distinct;
  balanced =
      All-imp (IsBalanced db.runs db.steps db.usage) db.tasks
        (λ t (holds, uses, fits).
          (rw (held_for-cancel_steps db.runs run_id t.id db.steps) holds, uses, fits))
        sound.balanced;
  within =
      All-imp (IsWithin db.steps) db.runs
        (λ r fit. rw (running-cancel_steps run_id r.id db.steps) fit) sound.within;
}

-- Soundness itself is kept by every mutation.
pub IsSound-IsClosed : IsClosed IsSound
IsSound-IsClosed = record {
  sound = λ db sound. sound;
  neutral = record {
    on_rest = untouched-IsSound;
    on_task = patch_task-IsSound;
    on_run = patch_run-IsSound;
  };
  on_step = λ db step h here keeps counted weighs counts sound.
      patch_step-IsSound db step h here keeps weighs counts sound;
  on_cancel = cancel_steps-IsSound;
  on_claim = claimed-IsSound;
  on_release = λ db run step task h found runs over keeps counted covered sound.
      released-IsSound db run step task h found runs over keeps covered sound;
  on_settle = λ args run step task h db found runs over keeps counted covered within fresh sound.
      spent-IsSound args run step task h db found runs over keeps covered within sound;
}
