-- ===== src/Plan/Examples.antt =====
-- Small plans of agent-orchestration.ts.
use circuit_agent.Prelude.{
  ◌+◌, ◌-◌, ◌≤◌, ◌<◌, min, max, String, ◌≡◌, refl, ◌≢◌, ◌↔◌, inl, inr, true, false, none, List, [],
  ◌∷◌, map, length, All, arith, template,
}
use circuit_agent.Plan.{
  AgentRole, AgentStep, AgentRunPlan, StepStatus, is_completed, is_failed, is_awaiting, is_active,
  is_terminal_failure, is_ready, active_count, schedule_ready_steps, round_robin, total, all_active,
  schedule_across_runs, propagate_blocked_steps, run_status, RunStatus,
}
use circuit_agent.Plan.Validate.{validate_task_graph, duplicate_issues, missing_issues, find_last}
use circuit_agent.Plan.RoundRobin.{
  heads, StartsWith, length-schedule_across_runs, schedule_across_runs-StartsWith,
}
use circuit_agent.Plan.Schedule.{
  IsStart, schedule_ready_steps_lem, IsStartOfSome, schedule_across_runs-IsStartOfSome, each, has,
  run_status_lem,
}
use circuit_agent.Plan.Blocking.{Doomed, OnlyBlocks}
use circuit_agent.Plan.Propagation.{IsClosed, propagate_blocked_steps_lem}
use circuit_agent.Plan.Accepted.{IsSound, validate_task_graph-IsSound}
use circuit_agent.Plan.Progress.{schedule_ready_steps_progress}

abbrev step : String → List String → StepStatus → AgentStep
step id depends_on status = record {
  id = id;
  title = id;
  role = AgentRole.coding;
  depends_on = depends_on;
  status = status;
  requires_approval = false;
  sandbox_template = none;
  capability_ids = [];
}

abbrev plan : String → List AgentStep → AgentRunPlan
plan run_id steps = record {
  run_id = run_id;
  title = "work";
  max_parallelism = 2;
  capability_ids = [];
  steps = steps;
}

abbrev chain : AgentRunPlan
chain = plan "r" (
    step "b" ("a" ∷ []) StepStatus.pending
    ∷ step "a" [] StepStatus.completed
    ∷ step "c" ("b" ∷ []) StepStatus.pending
    ∷ [])

abbrev other : AgentRunPlan
other = plan "s" (step "x" [] StepStatus.pending ∷ step "y" [] StepStatus.pending ∷ [])

-- What the computations on plans unfold.
planning : Unit {0}
unfolding validate_task_graph duplicate_issues missing_issues find_last schedule_ready_steps
    is_ready active_count round_robin schedule_across_runs propagate_blocked_steps run_status
    template
planning = tt

chain_accepted : validate_task_graph chain ≡ []
unfolding planning
chain_accepted = refl

-- "d" depends on a cycle without being part of it, and is the step that the issue names.
cycle_named :
    map
      (λ issue. issue.step_id)
      (validate_task_graph (
        plan "r" (
          step "d" ("a" ∷ []) StepStatus.pending
          ∷ step "a" ("b" ∷ []) StepStatus.pending
          ∷ step "b" ("a" ∷ []) StepStatus.pending
          ∷ [])))
    ≡ "d" ∷ []
unfolding planning
cycle_named = refl

selected : map (λ s. s.id) (schedule_across_runs (chain ∷ other ∷ []) 3) ≡ "b" ∷ "x" ∷ "y" ∷ []
unfolding planning
selected = refl

abbrev broken : AgentRunPlan
broken = plan "r" (
    step "c" ("b" ∷ []) StepStatus.pending
    ∷ step "b" ("a" ∷ []) StepStatus.pending
    ∷ step "a" [] StepStatus.failed
    ∷ [])

blocked_run :
    map (λ s. s.status) (propagate_blocked_steps broken).steps
    ≡ StepStatus.blocked ∷ StepStatus.blocked ∷ StepStatus.failed ∷ []
unfolding planning
blocked_run = refl

statuses : (run_status broken ≡ RunStatus.failed) × (run_status chain ≡ RunStatus.queued)
unfolding planning
statuses = (refl, refl)

validate_task_graph-IsSound_example : IsSound chain
validate_task_graph-IsSound_example = validate_task_graph-IsSound chain chain_accepted

schedule_ready_steps_progress_example : 0 < length (schedule_ready_steps chain)
schedule_ready_steps_progress_example =
    schedule_ready_steps_progress chain chain_accepted (inl refl, (inr refl, (inl refl, tt))) refl

length-schedule_across_runs_example :
    length (schedule_across_runs (chain ∷ other ∷ []) 2)
    ≡ min
        (2 - all_active (chain ∷ other ∷ []))
        (total (map schedule_ready_steps (chain ∷ other ∷ [])))
length-schedule_across_runs_example = length-schedule_across_runs (chain ∷ other ∷ []) 2

schedule_across_runs-StartsWith_example :
    StartsWith
      (schedule_across_runs (chain ∷ other ∷ []) 3)
      (heads (map schedule_ready_steps (chain ∷ other ∷ [])))
unfolding planning
schedule_across_runs-StartsWith_example =
    schedule_across_runs-StartsWith (chain ∷ other ∷ []) 3 (omega arith)

schedule_across_runs-IsStartOfSome_example :
    All (IsStartOfSome (chain ∷ other ∷ [])) (schedule_across_runs (chain ∷ other ∷ []) 3)
schedule_across_runs-IsStartOfSome_example =
    schedule_across_runs-IsStartOfSome (chain ∷ other ∷ []) 3

schedule_ready_steps_lem_example :
    All (IsStart chain) (schedule_ready_steps chain)
    × (active_count chain.steps + length (schedule_ready_steps chain)
        ≤ max chain.max_parallelism (active_count chain.steps))
schedule_ready_steps_lem_example = schedule_ready_steps_lem chain

propagate_blocked_steps_lem_example :
    OnlyBlocks broken.steps (propagate_blocked_steps broken).steps
    × IsClosed (propagate_blocked_steps broken).steps
    × All
        (λ s. is_terminal_failure s.status ≡ true → Doomed broken.steps s.id)
        (propagate_blocked_steps broken).steps
propagate_blocked_steps_lem_example = propagate_blocked_steps_lem broken

run_status_lem_example :
    ((run_status broken ≡ RunStatus.failed) ↔ (has broken.steps is_failed ≡ true))
    × ((run_status broken ≡ RunStatus.completed) ↔ (each broken.steps is_completed ≡ true))
    × (run_status broken ≡ RunStatus.queued
        → (has broken.steps is_awaiting ≡ false)
          × (has broken.steps is_active ≡ false)
          × (schedule_ready_steps broken ≢ []))
run_status_lem_example = run_status_lem broken
