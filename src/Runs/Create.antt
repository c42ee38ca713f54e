-- ===== src/Runs/Create.antt =====
-- apps/web/convex/agentRuns.ts, createTaskRun: a run with its steps, checked by the graph validation and
-- the capability registry, and an approval for each step that a person has to let through.
use circuit_agent.Prelude.{
  ℕ, ◌+◌, String, Bool, true, false, not, ◌&&◌, ◌||◌, Option, none, some, List, [], ◌∷◌, ◌++◌, map,
  length, any, includes, if◌then◌else◌, ltb, Result, ok, ◌>>=◌, ◌>>◌, throw_if, template, trim,
  is_blank, decimal, or_else,
}
use circuit_agent.Plan.{AgentRole, StepStatus, SandboxTemplate, AgentStep, AgentRunPlan, is_empty}
use circuit_agent.Plan.Validate.{validate_task_graph}
use circuit_agent.Editor.Text.{text_length}
use circuit_agent.Capabilities.{
  TaskKind, CapabilityManifest, CapabilityRegistry, kind_name, same_kind, join_issues, get_entry,
  resolve,
}
use circuit_agent.Authz.{agent_run, require_organization_permission}
use circuit_agent.Runs.{
  Database, TaskRow, RunRow, StepRow, RunState, StepApproval, ApprovalKind, log_run, find_task,
}
use circuit_agent.Runs.Claim.{NewApproval, create_approval}
use circuit_agent.Runs.Control.{is_finished_task}

pub record NewStep : Type 0 where
  pub step_key : String
  pub title : String
  pub role : AgentRole
  pub depends_on : List String
  pub requires_approval : Bool
  pub sandbox_template : Option SandboxTemplate
  pub capability_ids : List String

pub record TaskRunArgs : Type 0 where
  pub task_id : ℕ
  pub kind : Option TaskKind
  pub max_parallelism : ℕ
  pub objective : String
  pub steps : List NewStep

abbrev pub lead_role : TaskKind → AgentRole
lead_role TaskKind.coding = AgentRole.coding
lead_role TaskKind.research = AgentRole.research
lead_role TaskKind.writing = AgentRole.operator
lead_role TaskKind.operations = AgentRole.operator

abbrev pub graph_step : NewStep → AgentStep
graph_step step = record {
  id = step.step_key;
  title = step.title;
  role = step.role;
  depends_on = step.depends_on;
  status = StepStatus.pending;
  requires_approval = step.requires_approval;
  sandbox_template = step.sandbox_template;
  capability_ids = step.capability_ids;
}

abbrev pub new_graph : TaskRunArgs → AgentRunPlan
new_graph args = record {
  run_id = "new-run";
  title = "New coding run";
  max_parallelism = args.max_parallelism;
  capability_ids = [];
  steps = map graph_step args.steps;
}

-- `[...new Set(ids)]`.
unfoldable pub add_new : List String → List String → List String
add_new seen [] = seen
add_new seen (id ∷ ids) = add_new (if includes seen id then seen else seen ++ id ∷ []) ids

unfoldable pub all_capabilities : List NewStep → List String
all_capabilities [] = []
all_capabilities (step ∷ steps) = step.capability_ids ++ all_capabilities steps

abbrev pub scoped_capabilities : TaskRunArgs → List String
scoped_capabilities args = add_new [] (all_capabilities args.steps)

abbrev pub entry_needs_approval : Option CapabilityManifest → Bool
entry_needs_approval none = false
entry_needs_approval (some entry) = entry.requires_approval

-- A step whose capabilities want an approval has to want one.
unfoldable pub check_approvals : CapabilityRegistry → List NewStep → Result (Unit {0})
check_approvals registry [] = ok tt
check_approvals registry (step ∷ steps) = do
  throw_if
      (any (λ id. entry_needs_approval (get_entry registry id)) step.capability_ids
        && not step.requires_approval)
      (template ("Step " ∷ step.step_key ∷ " must require approval for its capabilities" ∷ []))
  check_approvals registry steps

abbrev pub run_row : TaskRunArgs → TaskKind → ℕ → ℕ → RunRow
run_row args kind now id = record {
  id = id;
  task_id = args.task_id;
  kind = kind;
  role = lead_role kind;
  status = RunState.queued;
  objective = args.objective;
  capability_ids = scoped_capabilities args;
  max_parallelism = args.max_parallelism;
  sandbox_id = none;
  preview_expires_at = none;
  created_at = now;
  started_at = none;
  completed_at = none;
  cancel_requested_at = none;
}

abbrev pub step_row : NewStep → ℕ → ℕ → ℕ → StepRow
step_row step run_id now id = record {
  id = id;
  run_id = run_id;
  step_key = step.step_key;
  title = step.title;
  role = step.role;
  status = StepStatus.pending;
  depends_on = step.depends_on;
  requires_approval = step.requires_approval;
  sandbox_template = step.sandbox_template;
  capability_ids = step.capability_ids;
  approval_status =
      if step.requires_approval then StepApproval.pending else StepApproval.not_required;
  attempts = 0;
  claimed_by = none;
  claimed_at = none;
  lease_expires_at = none;
  heartbeat_at = none;
  sandbox_id = none;
  phase = none;
  plan_bytes = none;
  resumes = none;
  reserved_rwf = none;
  completed_at = none;
  summary = none;
  artifact_references = [];
  created_at = now;
}

abbrev pub insert_step : NewStep → ℕ → ℕ → Database → Database
insert_step step run_id now db = record db {
  steps = db.steps ++ step_row step run_id now db.next_id ∷ [];
  next_id = db.next_id + 1;
}

abbrev pub step_approval : TaskRow → ℕ → ℕ → NewApproval
step_approval task run_id step_id = record {
  task_id = task.id;
  kind = ApprovalKind.execute_step;
  run_id = some run_id;
  step_id = some step_id;
  requested_rwf = none;
}

abbrev pub ask_for_step : Bool → TaskRow → ℕ → ℕ → ℕ → Database → Result Database
ask_for_step true task run_id step_id now db =
    create_approval db (step_approval task run_id step_id) now
ask_for_step false task run_id step_id now db = ok db

unfoldable pub insert_steps : TaskRow → ℕ → List NewStep → ℕ → Database → Result Database
unfolding create_approval
insert_steps task run_id [] now db = ok db
insert_steps task run_id (step ∷ steps) now db = do
  asked ←
      ask_for_step step.requires_approval task run_id db.next_id now
        (insert_step step run_id now db)
  insert_steps task run_id steps now asked

abbrev pub check_run : TaskRow → TaskKind → TaskRunArgs → Result (Unit {0})
check_run task kind args = do
  throw_if (not (same_kind task.kind kind)) (
      template
        ("Run kind " ∷ kind_name kind ∷ " does not match task kind " ∷ kind_name task.kind ∷ []))
  throw_if (is_finished_task task.status) "Task is already terminal"
  throw_if (ltb args.max_parallelism 1 || ltb 8 args.max_parallelism)
      "maxParallelism must be between 1 and 8"
  throw_if (is_blank (trim args.objective) || ltb 4_000 (text_length args.objective))
      "objective must contain 1 to 4000 characters"
  throw_if (not (is_empty (validate_task_graph (new_graph args)))) (
      template (
        "Invalid task graph: "
        ∷ join_issues (map (λ issue. issue.message) (validate_task_graph (new_graph args)))
        ∷ []))

abbrev pub run_created : ℕ → TaskKind → TaskRunArgs → ℕ → Database → Database
run_created run_id kind args now db =
    log_run run_id "run_created"
      (template (
        kind_name kind
        ∷ " run created with "
        ∷ decimal (length (scoped_capabilities args))
        ∷ " scoped capabilities. Execution awaits the required providers and approvals."
        ∷ []))
      now db

-- The id of the run is the next one.
unfoldable pub insert_task_run :
    CapabilityRegistry → TaskRow → TaskRunArgs → ℕ → Database → Result (Database × ℕ)
unfolding insert_steps check_approvals add_new all_capabilities
insert_task_run registry task args now db = do
  check_run task (or_else args.kind TaskKind.coding) args
  resolved ← resolve registry (or_else args.kind TaskKind.coding) (scoped_capabilities args)
  check_approvals registry args.steps
  inserted ← insert_steps task db.next_id args.steps now (record db {
    runs = db.runs ++ run_row args (or_else args.kind TaskKind.coding) now db.next_id ∷ [];
    next_id = db.next_id + 1;
  })
  ok (run_created db.next_id (or_else args.kind TaskKind.coding) args now inserted, db.next_id)

-- The internal variant, whose caller is trusted.
unfoldable pub create_task_run_internal :
    CapabilityRegistry → TaskRunArgs → ℕ → Database → Result (Database × ℕ)
unfolding insert_task_run
create_task_run_internal registry args now db = do
  task ← find_task db args.task_id
  insert_task_run registry task args now db

unfoldable pub create_task_run :
    Option String → CapabilityRegistry → TaskRunArgs → ℕ → Database → Result (Database × ℕ)
unfolding insert_task_run
create_task_run identity registry args now db = do
  task ← find_task db args.task_id
  membership ←
      require_organization_permission db.memberships identity task.organization_id agent_run
  insert_task_run registry task args now db
