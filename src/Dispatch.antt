-- ===== src/Dispatch.antt =====
-- apps/web/lib/dispatcher.ts: which steps of all active runs are dispatched to workers, and why the
-- others are not. An object that is asked for a key is a function into `Option`.
pub mod Gates
mod Examples
use circuit_agent.Prelude.{
  ℕ, zero, suc, String, Bool, true, false, not, ◌&&◌, ◌||◌, Option, none, some, List, [], ◌∷◌, ◌++◌,
  map, ltb, if◌then◌else◌, filter, includes, Result, ok, err, ◌>>=◌, ◌>>◌, throw_if, template,
  truthy, ◌==◌,
}
use circuit_agent.Budget.{
  TaskBudget, BudgetStatus, BudgetDecision, allowed, warning, approval_required, exhausted,
  evaluate_budget,
}
use circuit_agent.Plan.{AgentStep, AgentRunPlan, is_empty, schedule_across_runs}
use circuit_agent.Plan.Validate.{GraphIssue, validate_task_graph}

pub data DispatchAction : Type 0 where
  dispatch awaiting_approval budget_approval_required : DispatchAction
  budget_exhausted needs_configuration invalid_graph : DispatchAction

pub record DispatchDecision : Type 0 where
  pub run_id : String
  pub step : Option AgentStep
  pub action : DispatchAction
  pub reservation_rwf : ℕ
  pub reason : String

pub record DispatchPlanningInput : Type 0 where
  pub plans : List AgentRunPlan
  pub global_parallelism : ℕ
  pub coding_execution_ready : Bool
  pub budgets_by_run : String → Option TaskBudget
  pub estimated_rwf_by_step : String → Option ℕ

-- A stored step has a key that is unique in its run only, and so have its dependencies.
unfoldable pub qualified_step_id : String → String → String
qualified_step_id run_id step_key = template (run_id ∷ ":" ∷ step_key ∷ [])

abbrev pub qualified : String → AgentStep → AgentStep
qualified run_id step = record step {
  id = qualified_step_id run_id step.id;
  depends_on = map (qualified_step_id run_id) step.depends_on;
}

-- The stored plan has the keys in the place of the ids.
unfoldable pub to_dispatch_plan : AgentRunPlan → AgentRunPlan
to_dispatch_plan plan = record plan { steps = map (qualified plan.run_id) plan.steps }

-- The map from step ids to runs: the newest entry for an id counts.
abbrev pub Owners : Type 0
Owners = List (String × String)

unfoldable pub owner_of : Owners → String → Option String
owner_of [] id = none
owner_of ((key, owner) ∷ owners) id = if key == id then some owner else owner_of owners id

-- The first loop: the owners, and the ids that two runs have.
abbrev pub Claims : Type 0
Claims = Owners × List String

abbrev pub add_claim : String → String → Claims → Option String → Claims
add_claim run_id id (owners, ambiguous) none = ((id, run_id) ∷ owners, ambiguous)
add_claim run_id id (owners, ambiguous) (some owner) =
    if not (owner == run_id) then (owners, id ∷ ambiguous) else ((id, run_id) ∷ owners, ambiguous)

unfoldable pub claim_steps : String → List AgentStep → Claims → Claims
unfolding owner_of
claim_steps run_id [] claims = claims
claim_steps run_id (step ∷ steps) claims =
    claim_steps run_id steps (add_claim run_id step.id claims (truthy (owner_of claims.0 step.id)))

unfoldable pub claim_plans : List AgentRunPlan → Claims → Claims
unfolding claim_steps
claim_plans [] claims = claims
claim_plans (plan ∷ plans) claims = claim_plans plans (claim_steps plan.run_id plan.steps claims)

-- `join`.
unfoldable pub joined : String → List String → String
joined separator [] = ""
joined separator (x ∷ []) = x
joined separator (x ∷ y ∷ xs) = template (x ∷ separator ∷ joined separator (y ∷ xs) ∷ [])

abbrev pub ambiguous_ids : List String → AgentRunPlan → List String
ambiguous_ids ambiguous plan = filter (includes ambiguous) (map (λ step. step.id) plan.steps)

abbrev pub is_invalid : List String → AgentRunPlan → Bool
is_invalid ambiguous plan =
    not (is_empty (validate_task_graph plan)) || not (is_empty (ambiguous_ids ambiguous plan))

abbrev pub ambiguous_reason : List String → List String
ambiguous_reason [] = []
ambiguous_reason (id ∷ ids) =
    template ("Step IDs must be globally unique across active runs: " ∷ joined ", " (id ∷ ids) ∷ [])
    ∷ []

abbrev pub rejection : List String → AgentRunPlan → DispatchDecision
rejection ambiguous plan = record {
  run_id = plan.run_id;
  step = none;
  action = invalid_graph;
  reservation_rwf = 0;
  reason = joined "; " (
      map (λ issue. issue.message) (validate_task_graph plan)
      ++ ambiguous_reason (ambiguous_ids ambiguous plan));
}

abbrev pub hold : String → AgentStep → DispatchAction → String → DispatchDecision
hold run_id step action reason = record {
  run_id = run_id;
  step = some step;
  action = action;
  reservation_rwf = 0;
  reason = reason;
}

abbrev pub send : String → AgentStep → ℕ → String → DispatchDecision
send run_id step estimated_rwf reason = record {
  run_id = run_id;
  step = some step;
  action = dispatch;
  reservation_rwf = estimated_rwf;
  reason = reason;
}

abbrev pub by_status : String → AgentStep → ℕ → BudgetStatus → DispatchDecision
by_status run_id step estimated_rwf exhausted =
    hold run_id step budget_exhausted "The approved task budget is exhausted."
by_status run_id step estimated_rwf approval_required =
    hold run_id step budget_approval_required "This step would exceed the approved task cap."
by_status run_id step estimated_rwf warning =
    send run_id step estimated_rwf "Dispatch allowed near the budget warning threshold."
by_status run_id step estimated_rwf allowed = send run_id step estimated_rwf "Dispatch allowed."

abbrev pub not_configured : String → AgentStep → DispatchDecision
not_configured run_id step =
    hold run_id step needs_configuration
      "Execution provider, budget, or step estimate is not configured."

abbrev pub price : String → AgentStep → Option TaskBudget → Option ℕ → Result DispatchDecision
price run_id step (some budget) (some estimated_rwf) = do
  decision ← evaluate_budget budget estimated_rwf
  ok (by_status run_id step estimated_rwf decision.status)
price run_id step _ _ = ok (not_configured run_id step)

unfoldable pub decide_owned : DispatchPlanningInput → String → AgentStep → Result DispatchDecision
decide_owned input run_id step =
    if step.requires_approval
    then ok (hold run_id step awaiting_approval "This step crosses a human approval gate.")
    else if not input.coding_execution_ready
    then ok (not_configured run_id step)
    else price run_id step (input.budgets_by_run run_id) (input.estimated_rwf_by_step step.id)

abbrev pub decide_scheduled :
    DispatchPlanningInput → AgentStep → Option String → Result DispatchDecision
decide_scheduled input step none =
    err (template ("Scheduled step " ∷ step.id ∷ " has no owning run" ∷ []))
decide_scheduled input step (some run_id) = decide_owned input run_id step

-- The last loop, after the decisions on the invalid plans.
unfoldable pub decide_steps :
    DispatchPlanningInput → Owners → List AgentStep → Result (List DispatchDecision)
unfolding decide_owned
decide_steps input owners [] = ok []
decide_steps input owners (step ∷ steps) = do
  decision ← decide_scheduled input step (truthy (owner_of owners step.id))
  rest ← decide_steps input owners steps
  ok (decision ∷ rest)

-- The ids that two runs have, and the plans without and with an issue.
unfoldable pub ambiguous : DispatchPlanningInput → List String
unfolding claim_plans
ambiguous input = (claim_plans input.plans ([], [])).1

unfoldable pub accepted : DispatchPlanningInput → List AgentRunPlan
accepted input = filter (λ plan. not (is_invalid (ambiguous input) plan)) input.plans

unfoldable pub rejected : DispatchPlanningInput → List AgentRunPlan
rejected input = filter (is_invalid (ambiguous input)) input.plans

abbrev pub scheduled : DispatchPlanningInput → List AgentStep
scheduled input = schedule_across_runs (accepted input) input.global_parallelism

-- After the guard.
abbrev pub decide_all : DispatchPlanningInput → Result (List DispatchDecision)
decide_all input = do
  decided ← decide_steps input (claim_plans input.plans ([], [])).0 (scheduled input)
  ok (map (rejection (ambiguous input)) (rejected input) ++ decided)

unfoldable pub plan_dispatch : DispatchPlanningInput → Result (List DispatchDecision)
plan_dispatch input =
    throw_if (ltb input.global_parallelism 1) "globalParallelism must be a positive integer"
    >> decide_all input
