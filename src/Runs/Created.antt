-- ===== src/Runs/Created.antt =====
-- apps/web/convex/agentRuns.ts, createTaskRun: what a run has passed that is created.
use circuit_agent.Prelude.{
  ℕ, ◌≡◌, refl, sym, subst, String, true, false, not, ◌||◌, Option, List, [], ◌∷◌, ◌++◌, map, All,
  Bool-cases, inl, inr, ltb, Result, ok, err, ◌>>◌, >>=-returns, >>-returns, throw_if-passed, trim,
  is_blank, or_else, arith, template,
}
use circuit_agent.Plan.{AgentRunPlan, is_empty}
use circuit_agent.Plan.Validate.{validate_task_graph}
use circuit_agent.Plan.Accepted.{IsSound, validate_task_graph-IsSound}
use circuit_agent.Editor.Text.{text_length}
use circuit_agent.Capabilities.{TaskKind, CapabilityRegistry, kind_name, same_kind, resolve}
use circuit_agent.Capabilities.Laws.{same_kind_lem}
use circuit_agent.Authz.{agent_run, MembershipRow, require_organization_permission}
use circuit_agent.Runs.{Database, TaskRow, RunRow, StepRow, RunState, find_task}
use circuit_agent.Runs.Control.{is_finished_task}
use circuit_agent.Runs.Create.{
  TaskRunArgs, new_graph, graph_step, scoped_capabilities, check_approvals, run_row, insert_steps,
  check_run, run_created, insert_task_run, create_task_run,
}
use circuit_agent.Runs.Stored.{stored_step, IsUntouched, IsAsked, insert_steps-AreStored}

check_run-passes :
    (task : TaskRow) (kind : TaskKind) (args : TaskRunArgs)
    → check_run task kind args ≡ ok tt
    → (same_kind task.kind kind ≡ true)
      × (is_finished_task task.status ≡ false)
      × (is_empty (validate_task_graph (new_graph args)) ≡ true)
check_run-passes task kind args e =
    let kinds =
      throw_if-passed (not (same_kind task.kind kind))
        (template
          ("Run kind " ∷ kind_name kind ∷ " does not match task kind " ∷ kind_name task.kind ∷ []))
        _ tt e in
    let live =
      throw_if-passed (is_finished_task task.status) "Task is already terminal" _ tt kinds.1 in
    let workers =
      throw_if-passed (ltb args.max_parallelism 1 || ltb 8 args.max_parallelism)
        "maxParallelism must be between 1 and 8" _ tt live.1 in
    let said =
      throw_if-passed (is_blank (trim args.objective) || ltb 4_000 (text_length args.objective))
        "objective must contain 1 to 4000 characters" _ tt workers.1 in
    elim (Bool-cases (is_empty (validate_task_graph (new_graph args)))) [
      | inl sound ↦ (ground (arith, kinds.0), live.0, sound)
      | inr issues ↦ cc (rw issues at said.1)
    ]

>>-passed {ℓ} :
    {B : Type ℓ} (call : Result (Unit {0})) (after : Result B) (result : B)
    → (call >> after) ≡ ok result
    → call ≡ ok tt
>>-passed (ok done) after result e = refl
>>-passed (err message) after result e = cc

empty-eq-nil {ℓ} : {A : Type ℓ} (xs : List A) → is_empty xs ≡ true → xs ≡ []
empty-eq-nil [] e = refl
empty-eq-nil (x ∷ xs) e = cc

-- The plan that the stored rows of a run make, under the name that the validation gives it.
abbrev pub stored_plan : TaskRunArgs → RunRow → List StepRow → AgentRunPlan
stored_plan args run rows = record (new_graph args) {
  max_parallelism = run.max_parallelism;
  steps = map stored_step rows;
}

-- What is in the database once a run is created.
pub record IsCreated (args : TaskRunArgs) (task : TaskRow) (db after : Database) (run_id : ℕ)
    (run : RunRow) (rows : List StepRow) : Type 0 where
  pub run_appended : after.runs ≡ db.runs ++ run ∷ []
  pub steps_appended : after.steps ≡ db.steps ++ rows
  pub named : run.id ≡ run_id
  pub of_task : run.task_id ≡ args.task_id
  pub of_kind : run.kind ≡ task.kind
  pub waits : run.status ≡ RunState.queued
  pub cap : run.max_parallelism ≡ args.max_parallelism
  pub untouched : All (IsUntouched run_id) rows
  pub asked : All (IsAsked run_id after.approvals) rows
  pub faithful : map stored_step rows ≡ map graph_step args.steps
  pub sound : IsSound (stored_plan args run rows)

insert_task_run-IsCreated :
    (registry : CapabilityRegistry) (task : TaskRow) (args : TaskRunArgs) (now : ℕ)
    (db after : Database) (run_id : ℕ)
    → insert_task_run registry task args now db ≡ ok (after, run_id)
    → (is_finished_task task.status ≡ false)
      × (run : RunRow) × (rows : List StepRow) × IsCreated args task db after run_id run rows
unfolding insert_task_run
insert_task_run-IsCreated registry task args now db after run_id e =
    let kind = or_else args.kind TaskKind.coding in
    let (kinds, live, accepted) =
      check_run-passes task kind args (>>-passed (check_run task kind args) _ (after, run_id) e) in
    let checked = >>-returns (check_run task kind args) _ (after, run_id) e in
    let (resolved, known, rest) =
      >>=-returns (resolve registry kind (scoped_capabilities args)) _ (after, run_id) checked in
    let insert = >>-returns (check_approvals registry args.steps) _ (after, run_id) rest in
    let (inserted, stored, last) =
      >>=-returns (insert_steps task db.next_id args.steps now _) _ (after, run_id) insert in
    let (rows, are) = insert_steps-AreStored task db.next_id args.steps now _ inserted stored in
    let run = run_row args kind now db.next_id in
    let same_after : run_created db.next_id kind args now inserted ≡ after = cc last in
    let same_id : db.next_id ≡ run_id = cc last in
    let sound =
      validate_task_graph-IsSound (new_graph args)
        (empty-eq-nil (validate_task_graph (new_graph args)) accepted) in
    (
      live,
      run,
      rows,
      subst (λ d. IsCreated args task db d run_id run rows) same_after
          (subst
            (λ id.
              IsCreated args task db (run_created db.next_id kind args now inserted) id run rows)
            same_id
            (record {
              run_appended = are.same_runs;
              steps_appended = are.appended;
              named = refl;
              of_task = refl;
              of_kind = sym (same_kind_lem task.kind kind kinds);
              waits = refl;
              cap = refl;
              untouched = are.untouched;
              asked = are.asked;
              faithful = are.faithful;
              sound =
                  subst (λ steps. IsSound (record (new_graph args) { steps = steps }))
                    (sym are.faithful) sound;
            })),
    )

-- A run is created only by a member who may run agents, for a task that is there and not over. What
-- is stored is one queued run of the task, of its kind and with the cap asked for, under the id that
-- is returned, and after the steps that were there one untouched row for each step asked for, of this
-- run, in order. The stored rows make a plan whose cap is from 1 to 8, whose step ids are distinct,
-- and whose dependencies are known and have no cycle. A row that requires an approval waits for one
-- that is stored as pending, and no other row waits for one.
pub create_task_run-IsSound :
    (identity : Option String) (registry : CapabilityRegistry) (args : TaskRunArgs) (now : ℕ)
    (db after : Database) (run_id : ℕ)
    → create_task_run identity registry args now db ≡ ok (after, run_id)
    → (task : TaskRow) × (member : MembershipRow) × (run : RunRow) × (rows : List StepRow)
      × (find_task db args.task_id ≡ ok task)
      × (require_organization_permission db.memberships identity task.organization_id agent_run
          ≡ ok member)
      × (is_finished_task task.status ≡ false)
      × IsCreated args task db after run_id run rows
unfolding create_task_run
create_task_run-IsSound identity registry args now db after run_id e =
    let (task, found, rest) = >>=-returns (find_task db args.task_id) _ (after, run_id) e in
    let (member, admitted, inserted) =
      >>=-returns
        (require_organization_permission db.memberships identity task.organization_id agent_run)
        (λ membership. insert_task_run registry task args now db) (after, run_id) rest in
    let (live, run, rows, is_created) =
      insert_task_run-IsCreated registry task args now db after run_id inserted in
    (task, member, run, rows, found, admitted, live, is_created)
