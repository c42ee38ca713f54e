-- ===== src/Plan.antt =====
-- apps/web/lib/agent-orchestration.ts: the step graph of an agent run, what may be scheduled of it,
-- and what a failure blocks. A `Set` of ids is a list that is only asked for members; an optional
-- flag that is absent is `false`.
pub mod Validate
pub mod RoundRobin
pub mod Blocking
pub mod Propagation
pub mod Acyclic
pub mod Accepted
pub mod Progress
pub mod Schedule
mod Examples
use circuit_agent.Prelude.{
  ℕ, zero, suc, ◌+◌, ◌-◌, ◌*◌, String, Bool, true, false, not, ◌&&◌, ◌||◌, Option, none, some, List,
  [], ◌∷◌, ◌++◌, map, ltb, if◌then◌else◌, length, take, filter, any, all, includes, template, ◌==◌,
}

pub data AgentRole : Type 0 where
  planner coding reviewer research operator : AgentRole

pub data StepStatus : Type 0 where
  pending ready running awaiting_approval completed failed blocked cancelled : StepStatus

pub data SandboxTemplate : Type 0 where
  coding browser data_template : SandboxTemplate

pub record AgentStep : Type 0 where
  pub id : String
  pub title : String
  pub role : AgentRole
  pub depends_on : List String
  pub status : StepStatus
  pub requires_approval : Bool
  pub sandbox_template : Option SandboxTemplate
  pub capability_ids : List String

pub record AgentRunPlan : Type 0 where
  pub run_id : String
  pub title : String
  pub max_parallelism : ℕ
  pub capability_ids : List String
  pub steps : List AgentStep

abbrev pub is_pending : StepStatus → Bool
is_pending pending = true
is_pending _ = false

abbrev pub is_completed : StepStatus → Bool
is_completed completed = true
is_completed _ = false

abbrev pub is_cancelled : StepStatus → Bool
is_cancelled cancelled = true
is_cancelled _ = false

abbrev pub is_failed : StepStatus → Bool
is_failed failed = true
is_failed _ = false

abbrev pub is_awaiting : StepStatus → Bool
is_awaiting awaiting_approval = true
is_awaiting _ = false

-- `status === "running" || status === "ready"`.
abbrev pub is_active : StepStatus → Bool
is_active running = true
is_active ready = true
is_active _ = false

-- `"failed"`, `"cancelled"` or `"blocked"`.
abbrev pub is_terminal_failure : StepStatus → Bool
is_terminal_failure failed = true
is_terminal_failure cancelled = true
is_terminal_failure blocked = true
is_terminal_failure _ = false

-- The ids of the steps that pass a test, as `new Set(steps.filter(…).map((step) => step.id))`.
abbrev pub ids_where : (StepStatus → Bool) → List AgentStep → List String
ids_where test [] = []
ids_where test (step ∷ steps) =
    let rest = ids_where test steps in if test step.status then step.id ∷ rest else rest

unfoldable pub active_count : List AgentStep → ℕ
active_count steps = length (filter (λ step. is_active step.status) steps)

unfoldable pub is_ready : List String → AgentStep → Bool
is_ready done step = is_pending step.status && all (includes done) step.depends_on

abbrev pub as_ready : AgentStep → AgentStep
as_ready step = record step { status = ready }

-- `-` stops at 0, which is the `Math.max(0, …)` of `availableSlots`.
unfoldable pub schedule_ready_steps : AgentRunPlan → List AgentStep
schedule_ready_steps plan = map as_ready (
    take (plan.max_parallelism - active_count plan.steps)
      (filter (is_ready (ids_where is_completed plan.steps)) plan.steps))

-- The loop of `scheduleAcrossRuns`. The queues stand in the order in which the cursor comes to
-- them: the one at the cursor is the first, and moving the cursor on puts it last.
unfoldable pub round_robin : ℕ → ℕ → List (List AgentStep) → List AgentStep → List AgentStep
round_robin zero slots queues selected = selected
round_robin (suc fuel) slots [] selected = selected
round_robin (suc fuel) slots ([] ∷ queues) selected =
    let rest = round_robin fuel slots (queues ++ [] ∷ []) selected in
    if ltb (length selected) slots && any (λ queue. ltb 0 (length queue)) queues
    then rest
    else selected
round_robin (suc fuel) slots ((step ∷ queue) ∷ queues) selected =
    let rest = round_robin fuel slots (queues ++ queue ∷ []) (selected ++ step ∷ []) in
    if ltb (length selected) slots then rest else selected

abbrev pub total : List (List AgentStep) → ℕ
total [] = 0
total (queue ∷ queues) = length queue + total queues

abbrev pub all_active : List AgentRunPlan → ℕ
all_active [] = 0
all_active (plan ∷ plans) = active_count plan.steps + all_active plans

-- The fuel is enough: see Plan/RoundRobin.antt.
unfoldable pub schedule_across_runs : List AgentRunPlan → ℕ → List AgentStep
schedule_across_runs plans global_parallelism =
    let queues = map schedule_ready_steps plans in
    round_robin (suc (total queues) * suc (length queues)) (global_parallelism - all_active plans)
      queues []

-- One pass of the loop of `propagateBlockedSteps`: the steps, the failures and `changed`.
pub record Pass : Type 0 where
  pub steps : List AgentStep
  pub failures : List String
  pub changed : Bool

abbrev pub is_doomed : List String → AgentStep → Bool
is_doomed failures step = is_pending step.status && any (includes failures) step.depends_on

abbrev pub as_blocked : AgentStep → AgentStep
as_blocked step = record step { status = blocked }

abbrev pub then_step : AgentStep → Pass → Pass
then_step step later = record later { steps = step ∷ later.steps }

abbrev pub then_blocked : AgentStep → Pass → Pass
then_blocked step later = record later { steps = as_blocked step ∷ later.steps; changed = true }

unfoldable pub block_pass : List AgentStep → List String → Pass
block_pass [] failures = record { steps = []; failures = failures; changed = false }
block_pass (step ∷ steps) failures =
    let blocking = then_blocked step (block_pass steps (step.id ∷ failures)) in
    let passing = then_step step (block_pass steps failures) in
    if is_doomed failures step then blocking else passing

unfoldable pub block_loop : ℕ → List AgentStep → List String → List AgentStep
block_loop zero steps failures = steps
block_loop (suc fuel) steps failures =
    let pass = block_pass steps failures in
    let rest = block_loop fuel pass.steps pass.failures in if pass.changed then rest else pass.steps

-- Every pass but the last blocks a step, so the fuel is enough.
unfoldable pub propagate_blocked_steps : AgentRunPlan → AgentRunPlan
unfolding block_loop block_pass
propagate_blocked_steps plan = record plan {
  steps =
      block_loop (suc (length plan.steps)) plan.steps (ids_where is_terminal_failure plan.steps);
}

pub data RunStatus : Type 0 where
  queued running awaiting_approval blocked completed failed cancelled : RunStatus

abbrev pub is_empty {ℓ} : {A : Type ℓ} → List A → Bool
is_empty [] = true
is_empty (x ∷ xs) = false

unfoldable pub run_status : AgentRunPlan → RunStatus
run_status plan =
    let has = λ (test : StepStatus → Bool). any (λ step. test step.status) plan.steps in
    let each = λ (test : StepStatus → Bool). all (λ step. test step.status) plan.steps in
    if has is_failed
    then RunStatus.failed
    else if each (λ status. is_completed status || is_cancelled status)
    then (if has is_cancelled then RunStatus.cancelled else RunStatus.completed)
    else if each is_completed
    then RunStatus.completed
    else if has is_awaiting
    then RunStatus.awaiting_approval
    else if has is_active
    then RunStatus.running
    else if is_empty (schedule_ready_steps plan)
    then RunStatus.blocked
    else RunStatus.queued
