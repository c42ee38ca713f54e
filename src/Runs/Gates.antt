-- ===== src/Runs/Gates.antt =====
-- apps/web/convex/agentRuns.ts, claimStep: what a worker that gets a step has passed; and what becomes
-- of a worker that has lost its step.
use mathlib.Core.List.{Memᴰ}
use circuit_agent.Prelude.{
  ℕ, ◌+◌, ◌≤◌, ◌<◌, ◌≡◌, ◌≢◌, ◌⊎◌, ◌∙◌, ap, subst, refl, sym, String, true, false, not, none, some,
  List, [], ◌∷◌, ◌++◌, nat_eq, ltb, arith, Bool-cases, Option-cases, inl, inr, all, All, All-imp,
  All-of_all, includes, ok, ◌>>=◌, >>=-returns, throw_if-passed, ◌==◌, eq_iff,
}
use circuit_agent.Plan.{StepStatus}
use circuit_agent.Runs.{
  Database, RunRow, StepRow, TaskRow, HoldRow, RunState, StepApproval, HoldStatus, task_key,
  run_key, step_key_of, find_run_step, find_task, steps_of,
}
use circuit_agent.Runs.Table.{get, get-key, sum}
use circuit_agent.Runs.Balance.{running_in}
use circuit_agent.Runs.Keeps.{find_run_step-gets, find_task-finds}
use circuit_agent.Runs.Soundness.{running_count-sum}
use circuit_agent.Runs.Granted.{IsStarted, commit_claim-IsStarted}
use circuit_agent.Runs.Claim.{
  ClaimArgs, overage, ask_overage, commit_claim, create_approval, claim_funded, claim_found,
  claim_step, claimed, is_claimable, completed_keys, is_completed_step, running_count,
  needs_approval, covers, newest_hold, is_lease, bad_lease,
}

-- The newest hold on the task is authorized and covers its cap.
abbrev pub IsFunded : List HoldRow → TaskRow → Type 0
IsFunded holds task =
    (older newer : List HoldRow) × (hold : HoldRow) × (holds ≡ older ++ hold ∷ newer)
    × (hold.task_id ≡ task.id)
    × All (λ h. h.task_id ≢ task.id) newer
    × (hold.status ≡ HoldStatus.authorized)
    × (task.max_rwf ≤ hold.amount_rwf)

-- A step of the run with that key is completed.
abbrev pub IsDone : List StepRow → ℕ → String → Type 0
IsDone steps run_id key =
    (s : StepRow) × Memᴰ s steps
    × (s.run_id ≡ run_id)
    × (s.step_key ≡ key)
    × (s.status ≡ StepStatus.completed)

-- What stands for a claim of a step.
pub record IsGranted (args : ClaimArgs) (db : Database) (run : RunRow) (step : StepRow)
    (task : TaskRow) : Type 0 where
  pub found_run : get run_key args.run_id db.runs ≡ some run
  pub found_step : get step_key_of args.step_id db.steps ≡ some step
  pub of_run : step.run_id ≡ run.id
  pub found_task : get task_key run.task_id db.tasks ≡ some task
  pub live : (run.status ≡ RunState.queued) ⊎ (run.status ≡ RunState.running)
  pub startable : (step.status ≡ StepStatus.pending) ⊎ (step.status ≡ StepStatus.ready)
  pub dependencies : All (IsDone db.steps run.id) step.depends_on
  pub room : sum (running_in run.id) db.steps < run.max_parallelism
  pub let_through :
      (step.requires_approval ≡ false) ⊎ (step.approval_status ≡ StepApproval.approved)
  pub funded : IsFunded db.holds task
  pub fits : task.spent_rwf + task.reserved_rwf + args.estimated_rwf ≤ task.max_rwf

further :
    (s : StepRow) (steps : List StepRow) (run_id : ℕ) (key : String)
    → IsDone steps run_id key
    → IsDone (s ∷ steps) run_id key
further s steps run_id key (found, listed, run, named, done) =
    (found, Memᴰ.tail listed, run, named, done)

done_lem :
    (run_id : ℕ) (steps : List StepRow) (key : String)
    → includes (completed_keys (steps_of run_id steps)) key ≡ true
    → IsDone steps run_id key
done_lem run_id [] key h = absurd (cc h)
done_lem run_id (s ∷ steps) key h = elim (Bool-cases (nat_eq s.run_id run_id)) [
  | inr other ↦ further s steps run_id key (done_lem run_id steps key (rw other at h))
  | inl of ↦ elim (Bool-cases (is_completed_step s.status)) [
    | inr undone ↦ further s steps run_id key (done_lem run_id steps key (rw (of, undone) at h))
    | inl done ↦ elim (Bool-cases (s.step_key == key)) [
      | inl same ↦ (
        s,
        Memᴰ.head refl,
        ground (arith, of),
        (eq_iff s.step_key key).0 same,
        ground (arith, done),
      )
      | inr differs ↦
          further s steps run_id key (done_lem run_id steps key (rw (of, done, differs) at h))
    ]
  ]
]

newest_hold-eq-none :
    (task_id : ℕ) (holds : List HoldRow)
    → newest_hold task_id holds ≡ none
    → All (λ h. h.task_id ≢ task_id) holds
unfolding newest_hold
newest_hold-eq-none task_id [] e = tt
newest_hold-eq-none task_id (hold ∷ holds) e = elim (Option-cases (newest_hold task_id holds)) [
  | inr (h, found) ↦ absurd (cc (rw (found, newest_hold) at e))
  | inl absent ↦ elim (Bool-cases (nat_eq hold.task_id task_id)) [
    | inl same ↦ absurd (cc (rw (absent, newest_hold, same) at e))
    | inr other ↦ (ground (arith, other), newest_hold-eq-none task_id holds absent)
  ]
]

newest_hold-splits :
    (task_id : ℕ) (holds : List HoldRow) (hold : HoldRow)
    → newest_hold task_id holds ≡ some hold
    → (older newer : List HoldRow) × (holds ≡ older ++ hold ∷ newer)
      × (hold.task_id ≡ task_id)
      × All (λ h. h.task_id ≢ task_id) newer
unfolding newest_hold
newest_hold-splits task_id [] hold e = absurd (cc e)
newest_hold-splits task_id (h ∷ holds) hold e = elim (Option-cases (newest_hold task_id holds)) [
  | inr (found, here) ↦
      let same : found ≡ hold = cc (rw (here, newest_hold) at e) in
      let (older, newer, split, named, absent) =
        newest_hold-splits task_id holds hold (here ∙ ap some same) in
      (h ∷ older, newer, ap (λ rest. h ∷ rest) split, named, absent)
  | inl absent ↦ elim (Bool-cases (nat_eq h.task_id task_id)) [
    | inr other ↦ absurd (cc (rw (absent, newest_hold, other) at e))
    | inl of ↦
        let same : h ≡ hold = cc (rw (absent, newest_hold, of) at e) in
        (
          [],
          holds,
          ap (λ x. x ∷ holds) same,
          ap (λ x. x.task_id) (sym same) ∙ ground (arith, of),
          newest_hold-eq-none task_id holds absent,
        )
  ]
]

covers-IsFunded :
    (holds : List HoldRow) (task : TaskRow)
    → covers task.max_rwf (newest_hold task.id holds) ≡ true
    → IsFunded holds task
covers-IsFunded holds task h = elim (Option-cases (newest_hold task.id holds)) [
  | inl absent ↦ absurd (cc (rw absent at h))
  | inr (hold, found) ↦
      let (older, newer, split, named, absent) = newest_hold-splits task.id holds hold found in
      let covered : covers task.max_rwf (some hold) ≡ true = rw found at h in
      (older, newer, hold, split, named, absent, ground (arith, covered), ground (arith, covered))
]

ask_overage-claimed :
    (args : ClaimArgs) (now : ℕ) (run : RunRow) (step : StepRow) (task : TaskRow)
    (db after : Database)
    → (ask_overage args now run step task db ≡ ok (after, claimed))
    → ⊥
ask_overage-claimed args now run step task db after e =
    let (asked, created, result) =
      >>=-returns (create_approval db (overage args run step task) now) _ (after, claimed) e in
    cc result

claim_funded-claimed :
    (args : ClaimArgs) (now : ℕ) (run : RunRow) (step : StepRow) (task : TaskRow)
    (db after : Database)
    → claim_funded args now run step task db ≡ ok (after, claimed)
    → (covers task.max_rwf (newest_hold task.id db.holds) ≡ true)
      × (task.spent_rwf + task.reserved_rwf + args.estimated_rwf ≤ task.max_rwf)
      × (after ≡ commit_claim args now run step task db)
claim_funded-claimed args now run step task db after e =
    elim (Bool-cases (covers task.max_rwf (newest_hold task.id db.holds))) [
      | inr unfunded ↦ cc (rw unfunded at e)
      | inl funded ↦
          elim (Bool-cases
            (ltb task.max_rwf (task.spent_rwf + task.reserved_rwf + args.estimated_rwf))) [
              | inl over ↦
                  elim (ask_overage-claimed args now run step task db after
                    (rw (funded, over) at e)) [ ]
              | inr fits ↦
                  let same : commit_claim args now run step task db ≡ after =
                    cc (rw (funded, fits) at e) in
                  (funded, ground (arith, fits), sym same)
            ]
    ]

claim_found-claimed :
    (args : ClaimArgs) (now : ℕ) (run : RunRow) (step : StepRow) (db after : Database)
    → (get run_key args.run_id db.runs ≡ some run)
      × (get step_key_of args.step_id db.steps ≡ some step)
      × (step.run_id ≡ args.run_id)
    → claim_found args now run step db ≡ ok (after, claimed)
    → (task : TaskRow) × IsGranted args db run step task
      × (after ≡ commit_claim args now run step task db)
claim_found-claimed args now run step db after (found_run, found_step, of_args) e =
    elim (Bool-cases (is_claimable run step (steps_of run.id db.steps))) [
      | inr lost ↦ cc (rw lost at e)
      | inl claimable ↦ elim (Bool-cases (needs_approval step)) [
        | inl needs ↦ cc (rw (claimable, needs) at e)
        | inr free ↦
            let (task, task_found, result) =
              >>=-returns (find_task db run.task_id)
                (λ task. claim_funded args now run step task db) (after, claimed)
                (rw (claimable, free) at e) in
            let (funded, fits, same) =
              claim_funded-claimed args now run step task db after result in
            let done : all (includes (completed_keys (steps_of run.id db.steps))) step.depends_on
                ≡ true =
              ground (arith, claimable) in
            let below : running_count (steps_of run.id db.steps) < run.max_parallelism =
              ground (arith, claimable) in
            (
              task,
              record {
                found_run = found_run;
                found_step = found_step;
                of_run = of_args ∙ sym (get-key run_key args.run_id db.runs run found_run);
                found_task = find_task-finds db run.task_id task task_found;
                live = ground (arith, claimable);
                startable = ground (arith, claimable);
                dependencies =
                    All-imp _ step.depends_on (done_lem run.id db.steps)
                      (All-of_all _ step.depends_on done);
                room =
                    subst (λ n. n < run.max_parallelism) (running_count-sum run.id db.steps) below;
                let_through = ground (arith, free);
                funded = covers-IsFunded db.holds task funded;
                fits = fits;
              },
              same,
            )
      ]
    ]

granted-IsStarted :
    (args : ClaimArgs) (now : ℕ) (run : RunRow) (step : StepRow) (task : TaskRow) (db : Database)
    → IsGranted args db run step task
    → IsStarted args now run step task db (commit_claim args now run step task db)
granted-IsStarted args now run step task db g =
    commit_claim-IsStarted args now run step task db
      (subst (λ k. get step_key_of k db.steps ≡ some step)
        (sym (get-key step_key_of args.step_id db.steps step g.found_step)) g.found_step)
      (subst (λ k. get task_key k db.tasks ≡ some task)
        (sym (get-key task_key run.task_id db.tasks task g.found_task)) g.found_task)
      (subst (λ k. get run_key k db.runs ≡ some run)
        (sym (get-key run_key args.run_id db.runs run g.found_run)) g.found_run)

-- A claim that is granted is of a step of the run, for the run's task. The run is queued or running
-- and has fewer running steps than its cap; the step is pending or ready, each of its dependencies is
-- the key of a completed step of the run, and it needs no approval or has it; the newest hold on the
-- task is authorized for at least the task's cap, and the estimate fits under that cap with all that
-- is spent and reserved. After it the step runs with the worker, under the lease asked for, with the
-- estimate reserved on it and on the task; the run is running; a coding step is handed to the
-- executor; and the other steps and tasks are as they were.
pub claim_step-IsGranted :
    (args : ClaimArgs) (now : ℕ) (db after : Database)
    → claim_step args now db ≡ ok (after, claimed)
    → (run : RunRow) × (step : StepRow) × (task : TaskRow) × IsGranted args db run step task
      × IsStarted args now run step task db after
unfolding claim_step
claim_step-IsGranted args now db after e =
    let positive =
      throw_if-passed (nat_eq args.estimated_rwf 0)
        "estimatedRwf must be a positive integer RWF amount" _ (after, claimed) e in
    let leased =
      throw_if-passed (not (is_lease args.lease_ms)) bad_lease
        (find_run_step db args.run_id args.step_id "Run step not found" >>= λ (run, step).
          claim_found args now run step db)
        (after, claimed) positive.1 in
    let ((run, step), found, result) =
      >>=-returns (find_run_step db args.run_id args.step_id "Run step not found")
        (λ (run, step). claim_found args now run step db) (after, claimed) leased.1 in
    let (task, granted, same) =
      claim_found-claimed args now run step db after
        (find_run_step-gets db args.run_id args.step_id "Run step not found" run step found)
        result in
    let started = granted-IsStarted args now run step task db granted in
    (run, step, task, granted, subst (IsStarted args now run step task db) (sym same) started)
