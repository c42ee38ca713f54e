-- ===== src/Dispatch/Examples.antt =====
-- A small dispatch of dispatcher.ts: one step that fits its budget, and one that waits for a human.
use circuit_agent.Prelude.{
  String, ◌≡◌, refl, Bool, true, false, none, some, List, [], ◌∷◌, ◌++◌, map, All, ok, template,
}
use circuit_agent.Budget.{TaskBudget, evaluate_budget}
use circuit_agent.Plan.{
  AgentRole, AgentStep, AgentRunPlan, StepStatus, is_ready, active_count, schedule_ready_steps,
  round_robin, schedule_across_runs,
}
use circuit_agent.Plan.Validate.{validate_task_graph, duplicate_issues, missing_issues, find_last}
use circuit_agent.Dispatch.{
  DispatchPlanningInput, DispatchDecision, send, hold, DispatchAction, plan_dispatch, decide_steps,
  accepted, rejected, ambiguous, scheduled, claim_plans, to_dispatch_plan, qualified_step_id,
}
use circuit_agent.Dispatch.Gates.{AreGated, IsRefusal, plan_dispatch-IsGated}

abbrev step : String → Bool → AgentStep
step id requires_approval = record {
  id = id;
  title = id;
  role = AgentRole.coding;
  depends_on = [];
  status = StepStatus.pending;
  requires_approval = requires_approval;
  sandbox_template = none;
  capability_ids = [];
}

abbrev plan : AgentRunPlan
plan = record {
  run_id = "r";
  title = "work";
  max_parallelism = 2;
  capability_ids = [];
  steps = step "inspect" false ∷ step "publish" true ∷ [];
}

abbrev budget : TaskBudget
budget = record { max_rwf = 1_000; spent_rwf = 100; reserved_rwf = 0 }

abbrev input : DispatchPlanningInput
input = record {
  plans = to_dispatch_plan plan ∷ [];
  global_parallelism = 4;
  coding_execution_ready = true;
  budgets_by_run = λ run_id. some budget;
  estimated_rwf_by_step = λ id. some 200;
}

abbrev decisions : List DispatchDecision
decisions =
    send "r" (record (step "r:inspect" false) { title = "inspect"; status = StepStatus.ready }) 200
      "Dispatch allowed."
    ∷ hold "r" (record (step "r:publish" true) { title = "publish"; status = StepStatus.ready })
        DispatchAction.awaiting_approval "This step crosses a human approval gate."
    ∷ []

input_decided : plan_dispatch input ≡ ok decisions
unfolding plan_dispatch decide_steps accepted rejected ambiguous claim_plans to_dispatch_plan
    qualified_step_id validate_task_graph duplicate_issues missing_issues find_last
    schedule_ready_steps is_ready active_count round_robin schedule_across_runs evaluate_budget
    template
input_decided = refl

plan_dispatch-IsGated_example :
    (refused decided : List DispatchDecision) × (decisions ≡ refused ++ decided)
    × (map (λ d. d.run_id) refused ≡ map (λ plan. plan.run_id) (rejected input))
    × All IsRefusal refused
    × AreGated input (scheduled input) decided
plan_dispatch-IsGated_example = plan_dispatch-IsGated input decisions input_decided
