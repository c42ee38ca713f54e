-- ===== src/Runs/Keeps/Sweep.antt =====
-- The sweep over leases that are over keeps what is closed, and goes through on a sound database.
use circuit_agent.Prelude.{
  ℕ, ◌≤◌, ◌≡◌, refl, subst, String, true, false, ◌||◌, Option, none, some, List, [], ◌∷◌, nat_eq,
  ltb, filter, All, arith, truthy, sort, by_key, All-imp, All-filter, All-sort, All-take, Result,
  ok, throw_if-passed, or_else,
}
use circuit_agent.Plan.{StepStatus}
use circuit_agent.Runs.{
  Database, TaskRow, RunRow, StepRow, TaskStatus, RunState, task_key, run_key, step_key_of,
  is_running_step, log_run,
}
use circuit_agent.Runs.Table.{get, get-key, All-get_row, AreDistinct}
use circuit_agent.Runs.Balance.{held_for, step_hold, IsBalanced}
use circuit_agent.Runs.Sound.{IsFound}
use circuit_agent.Runs.Claim.{released}
use circuit_agent.Runs.Lease.{reservation, free}
use circuit_agent.Runs.Control.{release_sandbox}
use circuit_agent.Runs.Closed.{IsClosed}
use circuit_agent.Runs.Keeps.{release_sandbox-keeps}
use circuit_agent.Runs.Rows.{
  absent-All, rows-get, get-sum, get-patch_other, filter-AreDistinct, sort-AreDistinct,
  take-AreDistinct,
}
use circuit_agent.Runs.Recovery.{
  Fate, cancelled, failed, retried, fate, fate_message, apply_fate, count_fate, Recovery,
  ended_step, recover_found, recover_of, recover_step, recover_steps, expired_steps,
  recover_expired_leases, lease_is_over,
}

module _ (P : Database → Type 0) (closed : IsClosed P) where
  -- A reservation that is held is within what the task has reserved.
  pub covered_when_sound :
      (db : Database) (run : RunRow) (step : StepRow) (task : TaskRow)
      → IsFound db run step task
      → is_running_step step.status ≡ true
      → P db
      → ltb task.reserved_rwf (reservation step) ≡ false
  unfolding held_for
  covered_when_sound db run step task found runs sound =
      let (holds, spends, fits) =
        All-get_row task_key (IsBalanced db.runs db.steps db.usage) run.task_id db.tasks task
          found.found_task (closed.sound db sound).balanced in
      let named = get-key task_key run.task_id db.tasks task found.found_task in
      let own : step_hold db.runs task.id step ≡ reservation step =
        rw (found.found_run, runs, named) (ground arith) in
      let least =
        get-sum step_key_of (step_hold db.runs task.id) step.id db.steps step found.found_step in
      ground (arith, holds, own, least)

  -- A step that was read before, not yet dealt with.
  abbrev pub IsOpen : List StepRow → StepRow → Type 0
  IsOpen steps step =
      (get step_key_of step.id steps ≡ some step) × (is_running_step step.status ≡ true)

  module _ (now : ℕ) (run : RunRow) (step : StepRow) (task : TaskRow) where
    apply_fate-keeps :
        (db : Database) (fate : Fate)
        → IsFound db run step task
        → is_running_step step.status ≡ true
        → ltb task.reserved_rwf (reservation step) ≡ false
        → P db
        → P (apply_fate now run step task fate (free task step db))
    apply_fate-keeps db cancelled found runs covered sound =
        closed.on_release db run step task
          (ended_step now StepStatus.cancelled "Worker lease expired after the run was cancelled.")
          found runs refl (λ s. (refl, refl)) ((λ bound. bound), omega arith, λ e. absurd (cc e))
          covered sound
    apply_fate-keeps db failed found runs covered sound =
        let ended =
          closed.on_release db run step task
            (ended_step now StepStatus.failed "Worker lease expired after the retry limit.") found
            runs refl (λ s. (refl, refl)) ((λ bound. bound), omega arith, λ e. absurd (cc e))
            covered sound in
        let failed_run =
          closed.neutral.on_run run.id
            (λ r. record r { status = RunState.failed; completed_at = some now }) _
            (λ r. (refl, refl, refl)) ended in
        release_sandbox-keeps P closed.neutral run (truthy run.sandbox_id) _ (
          closed.neutral.on_task task.id (λ t. record t { status = TaskStatus.blocked }) _
            (λ t. (refl, refl, refl, refl)) failed_run)
    apply_fate-keeps db retried found runs covered sound =
        closed.neutral.on_run run.id (λ r. record r { status = RunState.queued }) _
          (λ r. (refl, refl, refl))
          (closed.on_release db run step task (released StepStatus.pending) found runs refl
            (λ s. (refl, refl)) ((λ bound. bound), omega arith, λ e. absurd (cc e)) covered sound)

    release_sandbox-steps :
        (sandbox : Option String) (db : Database)
        → (release_sandbox run sandbox db).steps ≡ db.steps
    release_sandbox-steps none db = refl
    release_sandbox-steps (some sandbox_id) db = refl

    -- The other steps stay as they are.
    apply_fate-other :
        (db : Database) (fate : Fate) (other : StepRow)
        → nat_eq other.id step.id ≡ false
        → get step_key_of other.id db.steps ≡ some other
        → get step_key_of other.id (apply_fate now run step task fate db).steps ≡ some other
    apply_fate-other db cancelled other apart here =
        get-patch_other step_key_of other.id step.id
          (ended_step now StepStatus.cancelled "Worker lease expired after the run was cancelled.")
          db.steps other (λ s. refl) apart here
    apply_fate-other db failed other apart here =
        rw (release_sandbox-steps (truthy run.sandbox_id) _) (
          get-patch_other step_key_of other.id step.id
            (ended_step now StepStatus.failed "Worker lease expired after the retry limit.")
            db.steps other (λ s. refl) apart here)
    apply_fate-other db retried other apart here =
        get-patch_other step_key_of other.id step.id (released StepStatus.pending) db.steps other
          (λ s. refl) apart here

  -- One step of the sweep goes through and leaves the others to be dealt with.
  abbrev pub GoesThrough : Result (Database × Recovery) → List StepRow → Type 0
  GoesThrough result steps =
      (after : Database) × (tally : Recovery) × (result ≡ ok (after, tally))
      × P after
      × All (IsOpen after.steps) steps

  recover_found-GoesThrough :
      (max_attempts now : ℕ) (run : RunRow) (step : StepRow) (task : TaskRow) (db : Database)
      (tally : Recovery) (rest : List StepRow)
      → IsFound db run step task
      → is_running_step step.status ≡ true
      → All (λ s. nat_eq s.id step.id ≡ false) rest
      → All (IsOpen db.steps) rest
      → P db
      → GoesThrough (recover_found max_attempts now run step task db tally) rest
  recover_found-GoesThrough max_attempts now run step task db tally rest found runs apart open_rest
        sound =
      let covered = covered_when_sound db run step task found runs sound in
      let fated = fate max_attempts run step in
      let after =
        log_run run.id "lease_expired" (fate_message fated) now
          (apply_fate now run step task fated (free task step db)) in
      (
        after,
        count_fate fated tally,
        rw covered refl,
        closed.neutral.on_rest _ _ refl refl refl refl
            (apply_fate-keeps now run step task db fated found runs covered sound),
        others rest apart open_rest,
      )
    where
      others :
          (steps : List StepRow)
          → All (λ s. nat_eq s.id step.id ≡ false) steps
          → All (IsOpen db.steps) steps
          → All
              (IsOpen
                (apply_fate now run step task
                  (fate max_attempts run step)
                  (free task step db)).steps)
              steps
      others [] a o = tt
      others (s ∷ steps) (a, more) ((here, running), open_more) = (
        (
          apply_fate-other now run step task (free task step db) (fate max_attempts run step) s a
              here,
          running,
        ),
        others steps more open_more,
      )

  recover_of-GoesThrough :
      (max_attempts now : ℕ) (run : RunRow) (step : StepRow) (task : Option TaskRow) (db : Database)
      (tally : Recovery) (rest : List StepRow)
      → get task_key run.task_id db.tasks ≡ task
      → get run_key step.run_id db.runs ≡ some run
      → IsOpen db.steps step
      → All (λ s. nat_eq s.id step.id ≡ false) rest
      → All (IsOpen db.steps) rest
      → P db
      → GoesThrough (recover_of max_attempts now run step task db tally) rest
  recover_of-GoesThrough max_attempts now run step none db tally rest found_task found_run here
        apart open_rest sound =
      (db, tally, refl, sound, open_rest)
  recover_of-GoesThrough max_attempts now run step (some task) db tally rest found_task found_run
        (here, runs) apart open_rest sound =
      let found : IsFound db run step task = record {
        found_step = here;
        found_run = found_run;
        found_task = found_task;
      } in
      recover_found-GoesThrough max_attempts now run step task db tally rest found runs apart
        open_rest sound

  recover_step-GoesThrough :
      (max_attempts now : ℕ) (step : StepRow) (run : Option RunRow) (db : Database)
      (tally : Recovery) (rest : List StepRow)
      → get run_key step.run_id db.runs ≡ run
      → IsOpen db.steps step
      → All (λ s. nat_eq s.id step.id ≡ false) rest
      → All (IsOpen db.steps) rest
      → P db
      → GoesThrough (recover_step max_attempts now step run db tally) rest
  recover_step-GoesThrough max_attempts now step none db tally rest found here apart open_rest
        sound =
      (db, tally, refl, sound, open_rest)
  recover_step-GoesThrough max_attempts now step (some run) db tally rest found here apart open_rest
        sound =
      recover_of-GoesThrough max_attempts now run step (get task_key run.task_id db.tasks) db tally
        rest refl found here apart open_rest sound

  recover_steps-returns :
      (max_attempts now : ℕ) (steps : List StepRow) (db : Database) (tally : Recovery)
      → AreDistinct step_key_of steps
      → All (IsOpen db.steps) steps
      → P db
      → (after : Database) × (total : Recovery) × (recover_steps max_attempts now steps (db, tally)
          ≡ ok (after, total))
        × P after
  unfolding recover_steps
  recover_steps-returns max_attempts now [] db tally distinct opened sound =
      (db, tally, refl, sound)
  recover_steps-returns max_attempts now (step ∷ steps) db tally (fresh, distinct) (here, more)
        sound =
      let (after, tally', went, sound', opened) =
        recover_step-GoesThrough max_attempts now step (get run_key step.run_id db.runs) db tally
          steps refl here (absent-All step_key_of step.id steps fresh) more sound in
      let (last, total, returns, sound'') =
        recover_steps-returns max_attempts now steps after tally' distinct opened sound' in
      (last, total, rw went returns, sound'')

  expired_steps-IsOpen :
      (now : ℕ) (steps : List StepRow)
      → AreDistinct step_key_of steps
      → AreDistinct step_key_of (expired_steps now steps)
        × All (IsOpen steps) (expired_steps now steps)
  expired_steps-IsOpen now steps distinct =
      let over = filter (lease_is_over now) steps in
      let read : All (IsOpen steps) over =
        All-imp _ over (λ s (here, expired). (here, ground (arith, expired)))
          (All-filter (λ s. get step_key_of s.id steps ≡ some s) (lease_is_over now) steps
            (rows-get step_key_of steps distinct)) in
      let order : StepRow → ℕ = λ step. or_else step.lease_expires_at 0 in
      (
        take-AreDistinct step_key_of 100 (sort (by_key order) over) (
            sort-AreDistinct step_key_of (by_key order) over
              (filter-AreDistinct step_key_of (lease_is_over now) steps distinct)),
        All-take (IsOpen steps) 100 (sort (by_key order) over)
            (All-sort (by_key order) (IsOpen steps) over read),
      )

  -- On a sound database the sweep over the leases that are over returns for every admissible number of
  -- attempts, whatever the statuses of the runs, and what it leaves is sound.
  pub recover_expired_leases-returns :
      (max_attempts now : ℕ) (db : Database)
      → P db
      → 1 ≤ max_attempts
      → max_attempts ≤ 10
      → (after : Database) × (total : Recovery) × (recover_expired_leases max_attempts now db
          ≡ ok (after, total))
        × P after
  unfolding recover_expired_leases
  recover_expired_leases-returns max_attempts now db sound least most =
      let (distinct, opened) =
        expired_steps-IsOpen now db.steps (closed.sound db sound).steps_distinct in
      let passes : (ltb max_attempts 1 || ltb 10 max_attempts) ≡ false =
        ground (arith, least, most) in
      rw passes (
        recover_steps-returns max_attempts now (expired_steps now db.steps) db _ distinct opened
          sound)

  -- When the sweep returns, it has kept what is closed.
  pub recover_expired_leases-keeps :
      (max_attempts now : ℕ) (db after : Database) (total : Recovery)
      → recover_expired_leases max_attempts now db ≡ ok (after, total)
      → P db
      → P after
  unfolding recover_expired_leases
  recover_expired_leases-keeps max_attempts now db after total e sound =
      let ranged =
        throw_if-passed (ltb max_attempts 1 || ltb 10 max_attempts)
          "maxAttempts must be an integer between 1 and 10" _ (after, total) e in
      let (after', total', returns, kept) =
        recover_expired_leases-returns max_attempts now db sound (ground (arith, ranged.0))
          (ground (arith, ranged.0)) in
      let same : after' ≡ after = cc (returns, e) in subst (λ d. P d) same kept
