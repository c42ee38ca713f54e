-- ===== src/Runs/Stored.antt =====
-- apps/web/convex/agentRuns.ts, createTaskRun: the rows that are stored for the steps of a run, and the
-- approvals that are asked for with them.
use mathlib.Core.List.{Memᴰ}
use circuit_agent.Prelude.{
  ℕ, ◌≡◌, refl, ◌∙◌, ap, sym, subst, Bool, true, false, none, some, List, [], ◌∷◌, ◌++◌, map, All,
  ok, >>=-returns,
}
use circuit_agent.Plan.{AgentStep, StepStatus}
use circuit_agent.Runs.{
  Database, TaskRow, StepRow, ApprovalRow, StepApproval, ApprovalKind, ApprovalState, find_task,
}
use circuit_agent.Runs.Claim.{create_approval, insert_approval}
use circuit_agent.Runs.Create.{
  NewStep, graph_step, step_row, insert_step, step_approval, ask_for_step, insert_steps,
}
use circuit_agent.Runs.Granted.{last_listed}

-- The step of a plan that a stored row stands for.
abbrev pub stored_step : StepRow → AgentStep
stored_step row = record {
  id = row.step_key;
  title = row.title;
  role = row.role;
  depends_on = row.depends_on;
  status = row.status;
  requires_approval = row.requires_approval;
  sandbox_template = row.sandbox_template;
  capability_ids = row.capability_ids;
}

-- A step of the run that no worker has had.
pub record IsUntouched (run_id : ℕ) (row : StepRow) : Type 0 where
  pub of_run : row.run_id ≡ run_id
  pub waits : row.status ≡ StepStatus.pending
  pub unused : row.attempts ≡ 0
  pub without_worker : row.claimed_by ≡ none
  pub without_money : row.reserved_rwf ≡ none

-- An approval of the step waits for a decision.
abbrev pub Asks : ℕ → StepRow → ApprovalRow → Type 0
Asks run_id row approval =
    (approval.step_id ≡ some row.id)
    × (approval.run_id ≡ some run_id)
    × (approval.kind ≡ ApprovalKind.execute_step)
    × (approval.status ≡ ApprovalState.pending)

-- A step that requires an approval waits for one that is stored, and another needs none.
pub record IsAsked (run_id : ℕ) (approvals : List ApprovalRow) (row : StepRow) : Type 0 where
  pub asked :
      row.requires_approval ≡ true
      → (row.approval_status ≡ StepApproval.pending)
        × (approval : ApprovalRow) × Memᴰ approval approvals
        × Asks run_id row approval
  pub unasked : row.requires_approval ≡ false → row.approval_status ≡ StepApproval.not_required

nil_append {ℓ} : {A : Type ℓ} (xs : List A) → xs ≡ xs ++ []
nil_append [] = refl
nil_append (x ∷ xs) = ap (λ rest. x ∷ rest) (nil_append xs)

append_assoc {ℓ} :
    {A : Type ℓ} (xs : List A) (y : A) (ys : List A) → (xs ++ y ∷ []) ++ ys ≡ xs ++ y ∷ ys
append_assoc [] y ys = refl
append_assoc (x ∷ xs) y ys = ap (λ rest. x ∷ rest) (append_assoc xs y ys)

first_listed {ℓ} : {A : Type ℓ} (xs ys : List A) (x : A) → Memᴰ x xs → Memᴰ x (xs ++ ys)
first_listed [] ys x m = elim m [ ]
first_listed (y ∷ xs) ys x (Memᴰ.head e) = Memᴰ.head e
first_listed (y ∷ xs) ys x (Memᴰ.tail m) = Memᴰ.tail (first_listed xs ys x m)

-- What asking for the approval of a step leaves of the database, and adds to it.
record IsRequest (required : Bool) (run_id : ℕ) (row : StepRow) (db after : Database) : Type 0 where
  same_steps : after.steps ≡ db.steps
  same_runs : after.runs ≡ db.runs
  kept : (a : ApprovalRow) → Memᴰ a db.approvals → Memᴰ a after.approvals
  request : required ≡ true → (a : ApprovalRow) × Memᴰ a after.approvals × Asks run_id row a

ask_for_step-IsRequest :
    (required : Bool) (task : TaskRow) (run_id now : ℕ) (row : StepRow) (db after : Database)
    → ask_for_step required task run_id row.id now db ≡ ok after
    → IsRequest required run_id row db after
unfolding create_approval
ask_for_step-IsRequest false task run_id now row db after e =
    let same : db ≡ after = cc e in
    subst (IsRequest false run_id row db) same (record {
      same_steps = refl;
      same_runs = refl;
      kept = λ a m. m;
      request = λ h. absurd (cc h);
    })
ask_for_step-IsRequest true task run_id now row db after e =
    let (found, here, last) = >>=-returns (find_task db task.id) _ after e in
    let same : insert_approval db (step_approval task run_id row.id) found.organization_id now
        ≡ after =
      cc last in
    subst (IsRequest true run_id row db) same (record {
      same_steps = refl;
      same_runs = refl;
      kept = λ a m. first_listed db.approvals _ a m;
      request = λ h. (_, last_listed db.approvals _, (refl, refl, refl, refl));
    })

-- What is stored for the steps.
pub record AreStored (run_id : ℕ) (steps : List NewStep) (rows : List StepRow) (db after : Database)
    : Type 0 where
  pub appended : after.steps ≡ db.steps ++ rows
  pub same_runs : after.runs ≡ db.runs
  pub kept : (a : ApprovalRow) → Memᴰ a db.approvals → Memᴰ a after.approvals
  pub faithful : map stored_step rows ≡ map graph_step steps
  pub untouched : All (IsUntouched run_id) rows
  pub asked : All (IsAsked run_id after.approvals) rows

step_row-IsAsked :
    (required : Bool) (step : NewStep) (run_id now id : ℕ) (approvals : List ApprovalRow)
    → step.requires_approval ≡ required
    → (required ≡ true
        → (a : ApprovalRow) × Memᴰ a approvals × Asks run_id (step_row step run_id now id) a)
    → IsAsked run_id approvals (step_row step run_id now id)
step_row-IsAsked required step run_id now id approvals e request = record {
  asked = λ h. let (a, listed, asks) = request (sym e ∙ h) in (rw h refl, a, listed, asks);
  unasked = λ h. rw h refl;
}

pub insert_steps-AreStored :
    (task : TaskRow) (run_id : ℕ) (steps : List NewStep) (now : ℕ) (db after : Database)
    → insert_steps task run_id steps now db ≡ ok after
    → (rows : List StepRow) × AreStored run_id steps rows db after
unfolding insert_steps
insert_steps-AreStored task run_id [] now db after e =
    let same : db ≡ after = cc e in
    (
      [],
      subst (AreStored run_id [] [] db) same (record {
        appended = nil_append db.steps;
        same_runs = refl;
        kept = λ a m. m;
        faithful = refl;
        untouched = tt;
        asked = tt;
      }),
    )
insert_steps-AreStored task run_id (step ∷ steps) now db after e =
    let row = step_row step run_id now db.next_id in
    let inserted = insert_step step run_id now db in
    let (asked, one, many) =
      >>=-returns (ask_for_step step.requires_approval task run_id db.next_id now inserted) _ after
        e in
    let first =
      ask_for_step-IsRequest step.requires_approval task run_id now row inserted asked one in
    let (rows, rest) = insert_steps-AreStored task run_id steps now asked after many in
    (
      row ∷ rows,
      record {
        appended =
            rest.appended ∙ ap (λ s. s ++ rows) first.same_steps ∙ append_assoc db.steps row rows;
        same_runs = rest.same_runs ∙ first.same_runs;
        kept = λ a m. rest.kept a (first.kept a m);
        faithful = ap (λ s. graph_step step ∷ s) rest.faithful;
        untouched = (
          record {
            of_run = refl;
            waits = refl;
            unused = refl;
            without_worker = refl;
            without_money = refl;
          },
          rest.untouched,
        );
        asked = (
          step_row-IsAsked step.requires_approval step run_id now db.next_id after.approvals refl
              (λ h. let (a, m, asks) = first.request h in (a, rest.kept a m, asks)),
          rest.asked,
        );
      },
    )
