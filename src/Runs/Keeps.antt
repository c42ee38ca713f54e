-- ===== src/Runs/Keeps.antt =====
-- What the mutations of apps/web/convex/agentRuns.ts find, and that each of them keeps whatever is
-- closed under the few changes that they are made of.
pub mod Claims
pub mod Leases
pub mod Finishing
pub mod Outcomes
pub mod Sweep
pub mod Controls
use circuit_agent.Prelude.{
  ℕ, ◌+◌, ◌-◌, ◌≤◌, ◌≡◌, refl, sym, ap, subst, String, Bool, true, false, not, ◌&&◌, ◌||◌, Option,
  none, some, List, [], ◌∷◌, ◌++◌, nat_eq, leb, ltb, if◌then◌else◌, filter, length, All, arith,
  Bool-cases, Option-cases, inl, inr, is_some, truthy, trim, is_blank, find, any, map, ◌==◌, suc,
  take, sort, by_key, All-imp, All-filter, All-sort, All-take, Result, ok, err, ◌>>=◌, ◌>>◌,
  >>=-returns, >>-returns, throw_if-passed, throw_if, all, includes, or_else,
}
use circuit_agent.Plan.{StepStatus, is_empty}
use circuit_agent.Runs.{
  Database, TaskRow, RunRow, StepRow, UsageRow, ArtifactRow, TaskStatus, RunState, Scheduled,
  task_key, run_key, step_key_of, patch_task, patch_run, patch_step, schedule, is_running_step,
  is_cancelled_run, others_running, log_run, log_task, steps_of, find_run_step, step_of_run,
  or_throw, find_task,
}
use circuit_agent.Runs.Table.{get, patch, get-key, sum, sum-append, All-get_row, AreDistinct}
use circuit_agent.Runs.Balance.{
  weight, one_if_running, running_in, used_for, held_for, step_hold, is_of_task, used, IsBalanced,
  IsWithin, IsSound,
}
use circuit_agent.Runs.Sound.{
  KeepsAccount, KeepsPlace, IsFound, moved_together, patch_task-IsSound, patch_run-IsSound,
  patch_step-IsSound, moved_together-IsSound,
}
use circuit_agent.Runs.Claim.{
  ClaimArgs, ClaimStatus, NewApproval, insert_approval, create_approval, claimed_step, schedule_if,
  running_count, commit_claim, overage, ask_overage, ask_budget, ask_approval, claim_funded,
  is_claimable, needs_approval, claim_found, claim_step, is_startable, is_coding, released, covers,
  newest_hold, is_live, claimed_by_worker, is_lease, bad_lease,
}
use circuit_agent.Runs.Lease.{reservation, free, queued_or_running, is_expired}
use circuit_agent.Runs.Outcome.{OutcomeArgs, settle_spend, recorded_usage, usage_row}
use circuit_agent.Runs.Control.{
  cancel_steps, withdrawn, is_waiting, release_sandbox, release_run_sandbox, runs_of,
}
use circuit_agent.Runs.Closed.{IsNeutral, reserving}

or_throw-returns {ℓ} :
    {A : Type ℓ} (o : Option A) (message : String) (a : A) → or_throw o message ≡ ok a → o ≡ some a
or_throw-returns none message a e = cc
or_throw-returns (some b) message a e = cc

step_of_run-some :
    (run_id : ℕ) (o : Option StepRow) (step : StepRow)
    → step_of_run run_id o ≡ some step
    → (o ≡ some step) × (step.run_id ≡ run_id)
step_of_run-some run_id none step e = cc
step_of_run-some run_id (some s) step e = elim (Bool-cases (nat_eq s.run_id run_id)) [
  | inl same ↦
      let found : s ≡ step = cc (rw same at e) in
      (ap (λ x. some x) found, rw (← found) (ground arith))
  | inr other ↦ cc (rw other at e)
]

-- What is found stands under the ids that were asked for.
pub find_run_step-gets :
    (db : Database) (run_id step_id : ℕ) (message : String) (run : RunRow) (step : StepRow)
    → find_run_step db run_id step_id message ≡ ok (run, step)
    → (get run_key run_id db.runs ≡ some run)
      × (get step_key_of step_id db.steps ≡ some step)
      × (step.run_id ≡ run_id)
find_run_step-gets db run_id step_id message run step e =
    let (run', found_run, rest) =
      >>=-returns (or_throw (get run_key run_id db.runs) message) _ (run, step) e in
    let (step', found_step, last) =
      >>=-returns (or_throw (step_of_run run_id (get step_key_of step_id db.steps)) message) _
        (run, step) rest in
    let same_run : run' ≡ run = cc last in
    let same_step : step' ≡ step = cc last in
    let here_run = or_throw-returns (get run_key run_id db.runs) message run' found_run in
    let (here, of_run) = step_of_run-some run_id (get step_key_of step_id db.steps) step' (
      or_throw-returns (step_of_run run_id (get step_key_of step_id db.steps)) message step'
        found_step) in
    (
      subst (λ r. get run_key run_id db.runs ≡ some r) same_run here_run,
      subst (λ s. get step_key_of step_id db.steps ≡ some s) same_step here,
      subst (λ s. s.run_id ≡ run_id) same_step of_run,
    )

-- What is found is a step, with its run.
pub find_run_step-finds :
    (db : Database) (run_id step_id : ℕ) (message : String) (run : RunRow) (step : StepRow)
    → find_run_step db run_id step_id message ≡ ok (run, step)
    → (get step_key_of step.id db.steps ≡ some step) × (get run_key step.run_id db.runs ≡ some run)
find_run_step-finds db run_id step_id message run step e =
    let (here_run, here, of_run) = find_run_step-gets db run_id step_id message run step e in
    let named = get-key step_key_of step_id db.steps step here in
    (
      subst (λ k. get step_key_of k db.steps ≡ some step) (sym named) here,
      subst (λ k. get run_key k db.runs ≡ some run) (sym of_run) here_run,
    )

pub find_task-finds :
    (db : Database) (task_id : ℕ) (task : TaskRow)
    → find_task db task_id ≡ ok task
    → get task_key task_id db.tasks ≡ some task
find_task-finds db task_id task e = elim (Option-cases (get task_key task_id db.tasks)) [
  | inl missing ↦ cc (rw missing at e)
  | inr (found, here) ↦ let same : found ≡ task = cc (rw here at e) in rw (here, same) refl
]

module _ (P : Database → Type 0) (neutral : IsNeutral P) where
  pub schedule_if-keeps :
      (condition : Bool) (effect : Scheduled) (db : Database)
      → P db
      → P (schedule_if condition effect db)
  schedule_if-keeps true effect db sound =
      neutral.on_rest db (schedule effect db) refl refl refl refl sound
  schedule_if-keeps false effect db sound = sound

  pub release_sandbox-keeps :
      (run : RunRow) (sandbox : Option String) (db : Database)
      → P db
      → P (release_sandbox run sandbox db)
  release_sandbox-keeps run none db sound = sound
  release_sandbox-keeps run (some sandbox_id) db sound = neutral.on_rest _ _ refl refl refl refl (
      neutral.on_run run.id (λ r. record r { sandbox_id = none }) db (λ r. (refl, refl, refl))
        sound)
