-- ===== src/Runs/Again.antt =====
-- apps/web/convex/agentRuns.ts, recordStepOutcome: a worker that reports an outcome twice, as it does
-- when the answer to the first report is lost.
use circuit_agent.Prelude.{
  ℕ, ◌+◌, ◌≡◌, refl, sym, subst, Bool, true, false, not, ◌&&◌, Option, none, some, List, [], ◌∷◌,
  ◌++◌, nat_eq, ltb, arith, eq_iff, ◌==◌, Bool-cases, inl, inr, find, ok, ◌>>=◌, >>=-returns,
  throw_if-passed, trim, is_blank,
}
use circuit_agent.Plan.{is_empty}
use circuit_agent.Runs.{
  Database, TaskRow, RunRow, StepRow, UsageRow, task_key, run_key, step_key_of, find_run_step,
  find_task, is_cancelled_run, patch_step,
}
use circuit_agent.Runs.Table.{get, patch, get-key, get-patch}
use circuit_agent.Runs.Sound.{KeepsPlace}
use circuit_agent.Runs.Closed.{IsNeutral}
use circuit_agent.Runs.Keeps.{find_run_step-gets, find_task-finds}
use circuit_agent.Runs.Keeps.Finishing.{finish_step-keeps}
use circuit_agent.Runs.Claim.{claimed_by_worker}
use circuit_agent.Runs.Lease.{reservation, is_expired}
use circuit_agent.Runs.Outcome.{
  OutcomeArgs, is_failure, usage_row, recorded_usage, is_same_usage, settle_spend, finish_step,
  lacks_evidence, settle_owned, record_new_outcome, record_outcome, outcome_checked,
  record_step_outcome,
}

-- The run and the step are still there, and the usage is recorded as it was reported.
abbrev IsRecorded : OutcomeArgs → ℕ → Database → Type 0
IsRecorded args task_id db =
    ((run : RunRow) × (get run_key args.run_id db.runs ≡ some run) × (run.task_id ≡ task_id))
    × ((step : StepRow) × (get step_key_of args.step_id db.steps ≡ some step)
        × (step.run_id ≡ args.run_id))
    × ((usage : UsageRow) × (recorded_usage args db ≡ some usage)
        × (usage.task_id ≡ task_id)
        × (usage.run_id ≡ args.run_id)
        × (usage.step_id ≡ args.step_id)
        × (usage.amount_rwf ≡ args.actual_rwf))

module _ (args : OutcomeArgs) (task_id : ℕ) where
  same_task_after :
      (k : ℕ) (g : RunRow → RunRow) (runs : List RunRow) (run : RunRow)
      → KeepsPlace g
      → get run_key args.run_id runs ≡ some run
      → run.task_id ≡ task_id
      → (r : RunRow) × (get run_key args.run_id (patch run_key k g runs) ≡ some r)
        × (r.task_id ≡ task_id)
  same_task_after k g runs run keeps here of_task =
      let after = get-patch run_key g (λ r. (keeps r).0) args.run_id k runs run here in
      let (id, task, cap) = keeps run in
      elim (Bool-cases (nat_eq args.run_id k)) [
        | inl same ↦ (g run, rw same at after, rw task of_task)
        | inr other ↦ (run, rw other at after, of_task)
      ]

  IsRecorded-IsNeutral : IsNeutral (IsRecorded args task_id)
  IsRecorded-IsNeutral = record {
    on_rest = λ db db' tasks runs steps usage (placed, stepped, used). (
      subst
          (λ rs. (run : RunRow) × (get run_key args.run_id rs ≡ some run) × (run.task_id ≡ task_id))
          (sym runs) placed,
      subst
          (λ ss.
            (step : StepRow) × (get step_key_of args.step_id ss ≡ some step)
            × (step.run_id ≡ args.run_id))
          (sym steps) stepped,
      subst
          (λ us.
            (u : UsageRow) × (find (λ x. x.idempotency_key == args.usage_idempotency_key) us
              ≡ some u)
            × (u.task_id ≡ task_id)
            × (u.run_id ≡ args.run_id)
            × (u.step_id ≡ args.step_id)
            × (u.amount_rwf ≡ args.actual_rwf))
          (sym usage) used,
    );
    on_task = λ k g db keeps recorded. recorded;
    on_run = λ k g db keeps ((run, here, of_task), stepped, used).
        (same_task_after k g db.runs run keeps here of_task, stepped, used);
  }

find-new {ℓ} :
    {A : Type ℓ} (p : A → Bool) (xs : List A) (x : A)
    → find p xs ≡ none
    → p x ≡ true
    → find p (xs ++ x ∷ []) ≡ some x
find-new p [] x e passes = rw passes refl
find-new p (y ∷ ys) x e passes = elim (Bool-cases (p y)) [
  | inl found ↦ cc (rw found at e)
  | inr other ↦ rw other (find-new p ys x (rw other at e) passes)
]

-- Once its spend is settled, an outcome is recorded.
settled-IsRecorded :
    (args : OutcomeArgs) (run : RunRow) (step : StepRow) (task : TaskRow) (h : StepRow → StepRow)
    (db : Database)
    → get run_key args.run_id db.runs ≡ some run
    → get step_key_of args.step_id db.steps ≡ some step
    → step.run_id ≡ args.run_id
    → task.id ≡ run.task_id
    → ((s : StepRow) → ((h s).id ≡ s.id) × ((h s).run_id ≡ s.run_id))
    → recorded_usage args db ≡ none
    → IsRecorded args task.id (patch_step step.id h (settle_spend args task run step db))
settled-IsRecorded args run step task h db here_run here_step of_run of_task keeps fresh =
    let named_run = get-key run_key args.run_id db.runs run here_run in
    let named_step = get-key step_key_of args.step_id db.steps step here_step in
    let after =
      get-patch step_key_of h (λ s. (keeps s).0) args.step_id step.id db.steps step here_step in
    let patched : (s : StepRow) × (get step_key_of args.step_id
            (patch step_key_of step.id h db.steps)
          ≡ some s)
        × (s.run_id ≡ args.run_id) =
      elim (Bool-cases (nat_eq args.step_id step.id)) [
        | inl same ↦ (h step, rw same at after, rw ((keeps step).1) of_run)
        | inr other ↦ (step, rw other at after, of_run)
      ] in
    (
      (run, here_run, sym of_task),
      patched,
      (
        usage_row args task run step,
        find-new (λ usage. usage.idempotency_key == args.usage_idempotency_key) db.usage
            (usage_row args task run step) fresh
            ((eq_iff args.usage_idempotency_key args.usage_idempotency_key).1 refl),
        refl,
        named_run,
        named_step,
        refl,
      ),
    )

-- A report that is new and goes through is recorded.
record_new_outcome-IsRecorded :
    (args : OutcomeArgs) (now : ℕ) (run : RunRow) (step : StepRow) (db after : Database)
    → get run_key args.run_id db.runs ≡ some run
    → get step_key_of args.step_id db.steps ≡ some step
    → step.run_id ≡ args.run_id
    → recorded_usage args db ≡ none
    → record_new_outcome args now run step db ≡ ok after
    → (task_id : ℕ) × IsRecorded args task_id after
record_new_outcome-IsRecorded args now run step db after here_run here_step of_run fresh e =
    let owned =
      throw_if-passed (not (claimed_by_worker step args.worker_id))
        "Worker does not own this running step lease" _ after e in
    let held_still =
      throw_if-passed (is_expired step.lease_expires_at now) "Worker step lease has expired" _ after
        owned.1 in
    let live =
      throw_if-passed (is_cancelled_run run.status) "Run is cancelled" _ after held_still.1 in
    let (task, found, settling) =
      >>=-returns (find_task db run.task_id) (λ task. settle_owned args now run step task db) after
        live.1 in
    let of_task =
      get-key task_key run.task_id db.tasks task (find_task-finds db run.task_id task found) in
    let covered =
      throw_if-passed (ltb task.reserved_rwf (reservation step))
        "Step reservation exceeds task reserved balance" _ after settling in
    let within =
      throw_if-passed (ltb (reservation step) args.actual_rwf)
        "Actual usage exceeds the step reservation" _ after covered.1 in
    let fits =
      throw_if-passed (ltb task.max_rwf (task.spent_rwf + args.actual_rwf))
        "Usage exceeds approved task cap" _ after within.1 in
    let evident =
      throw_if-passed (lacks_evidence args step db)
        "A non-failure outcome references an artifact that was not recorded for this step" _ after
        fits.1 in
    let same : finish_step args now run step task args.outcome (settle_spend args task run step db)
        ≡ after =
      cc evident.1 in
    (
      task.id,
      subst (λ d. IsRecorded args task.id d) same
          (finish_step-keeps (IsRecorded args task.id) (IsRecorded-IsNeutral args task.id) args now
            run step task db
            (λ h over keeps counted.
              settled-IsRecorded args run step task h db here_run here_step of_run of_task keeps
                fresh)
            args.outcome),
    )

-- What is recorded may be reported again at any time.
recorded-again :
    (args : OutcomeArgs) (task_id later : ℕ) (db : Database)
    → is_blank (trim args.summary) ≡ false
    → (not (is_failure args.outcome) && is_empty args.artifact_references) ≡ false
    → IsRecorded args task_id db
    → record_step_outcome args later db ≡ ok db
unfolding record_step_outcome
recorded-again args task_id later db summarised evidenced
      (
        (run, here_run, of_task),
        (step, here_step, of_run),
        (usage, found, same_task, same_run, same_step, same_amount),
      ) =
    let there : nat_eq step.run_id args.run_id ≡ true = ground (arith, of_run) in
    let same : is_same_usage args run usage ≡ true =
      ground (arith, of_task, same_task, same_run, same_step, same_amount) in
    rw (summarised, evidenced, here_run, here_step, there, found, same) refl

record_outcome-again :
    (args : OutcomeArgs) (now later : ℕ) (run : RunRow) (step : StepRow)
    (recorded : Option UsageRow) (db after : Database)
    → get run_key args.run_id db.runs ≡ some run
    → get step_key_of args.step_id db.steps ≡ some step
    → step.run_id ≡ args.run_id
    → is_blank (trim args.summary) ≡ false
    → (not (is_failure args.outcome) && is_empty args.artifact_references) ≡ false
    → recorded_usage args db ≡ recorded
    → record_outcome args now run step recorded db ≡ ok after
    → record_step_outcome args later after ≡ ok after
unfolding record_step_outcome
record_outcome-again args now later run step none db after here_run here_step of_run summarised
      evidenced found e =
    let (task_id, recorded) =
      record_new_outcome-IsRecorded args now run step db after here_run here_step of_run found e in
    recorded-again args task_id later after summarised evidenced recorded
record_outcome-again args now later run step (some usage) db after here_run here_step of_run
      summarised evidenced found e =
    let there : nat_eq step.run_id args.run_id ≡ true = ground (arith, of_run) in
    elim (Bool-cases (is_same_usage args run usage)) [
      | inr collides ↦ cc (rw collides at e)
      | inl known ↦
          let same : db ≡ after = cc (rw known at e) in
          subst (λ d. record_step_outcome args later d ≡ ok d) same
            (rw (summarised, evidenced, here_run, here_step, there, found, known) refl)
    ]

-- An outcome that was recorded may be reported again, at any later time and by the same arguments: the
-- second report returns and changes nothing, so that no usage is charged twice.
pub record_step_outcome_again :
    (args : OutcomeArgs) (now later : ℕ) (db after : Database)
    → record_step_outcome args now db ≡ ok after
    → record_step_outcome args later after ≡ ok after
unfolding record_step_outcome
record_step_outcome_again args now later db after e =
    let summarised =
      throw_if-passed (is_blank (trim args.summary)) "A worker outcome requires a non-empty summary"
        (outcome_checked args now db) after e in
    let evidenced =
      throw_if-passed (not (is_failure args.outcome) && is_empty args.artifact_references)
        "A non-failure outcome requires at least one evidence reference"
        (find_run_step db args.run_id args.step_id "Run step not found" >>= λ (run, step).
          record_outcome args now run step (recorded_usage args db) db)
        after summarised.1 in
    let ((run, step), found, result) =
      >>=-returns (find_run_step db args.run_id args.step_id "Run step not found")
        (λ (run, step). record_outcome args now run step (recorded_usage args db) db) after
        evidenced.1 in
    let (here_run, here_step, of_run) =
      find_run_step-gets db args.run_id args.step_id "Run step not found" run step found in
    record_outcome-again args now later run step (recorded_usage args db) db after here_run
      here_step of_run summarised.0 evidenced.0 refl result
