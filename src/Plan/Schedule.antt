-- ===== src/Plan/Schedule.antt =====
-- What `scheduleReadySteps` and `scheduleAcrossRuns` of apps/web/lib/agent-orchestration.ts select,
-- and what the run's status says of it.
use mathlib.Core.List.{Memᴰ}
use circuit_agent.Prelude.{
  ℕ, ◌+◌, ◌-◌, ◌≤◌, max, String, ◌≡◌, refl, ◌≢◌, ◌↔◌, ◌⊎◌, inl, inr, Bool, true, false, ◌||◌, List,
  [], ◌∷◌, map, arith, Bool-cases, length, take, filter, all, any, includes, length-take,
  length-map, All, All-imp, All-map, All-take, All-filter, All-Memᴰ, All-of_all, ◌==◌, eq_iff,
}
use circuit_agent.Plan.{
  AgentStep, AgentRunPlan, StepStatus, ids_where, is_completed, is_pending, is_cancelled, is_failed,
  is_awaiting, is_active, is_ready, as_ready, active_count, schedule_ready_steps,
  schedule_across_runs, RunStatus, run_status,
}
use circuit_agent.Plan.RoundRobin.{All-round_robin}

-- A step of the list that has the id and whose status passes the test.
pub record HasStep (test : StepStatus → Bool) (steps : List AgentStep) (id : String) : Type 0 where
  pub step : AgentStep
  pub listed : Memᴰ step steps
  pub named : step.id ≡ id
  pub passes : test step.status ≡ true

HasStep-cons :
    {test : StepStatus → Bool} {steps : List AgentStep} {id : String} (first : AgentStep)
    → HasStep test steps id
    → HasStep test (first ∷ steps) id
HasStep-cons first h = record {
  step = h.step;
  listed = Memᴰ.tail h.listed;
  named = h.named;
  passes = h.passes;
}

pub includes-ids_where :
    (test : StepStatus → Bool) (steps : List AgentStep) (id : String)
    → includes (ids_where test steps) id ≡ true
    → HasStep test steps id
includes-ids_where test [] id h = cc
includes-ids_where test (step ∷ steps) id h = elim (Bool-cases (test step.status)) [
  | inr f ↦ HasStep-cons step (includes-ids_where test steps id (rw f at h))
  | inl t ↦ elim (Bool-cases (step.id == id)) [
    | inl same ↦ record {
      step = step;
      listed = Memᴰ.head refl;
      named = (eq_iff step.id id).0 same;
      passes = t;
    }
    | inr other ↦ HasStep-cons step (includes-ids_where test steps id (ground (arith, h, t, other)))
  ]
]

-- A step that may start: it is a pending step of the plan, marked ready, and each of its
-- dependencies is the id of a completed step of the plan.
pub record IsStart (plan : AgentRunPlan) (step : AgentStep) : Type 0 where
  pub old : AgentStep
  pub listed : Memᴰ old plan.steps
  pub marked : step ≡ as_ready old
  pub was_pending : is_pending old.status ≡ true
  pub dependencies_done : All (HasStep is_completed plan.steps) old.depends_on

ready-IsStart :
    (plan : AgentRunPlan) (old : AgentStep)
    → Memᴰ old plan.steps
    → is_ready (ids_where is_completed plan.steps) old ≡ true
    → IsStart plan (as_ready old)
unfolding is_ready
ready-IsStart plan old listed h = record {
  old = old;
  listed = listed;
  marked = refl;
  was_pending = ground (arith, h);
  dependencies_done = All-imp _ old.depends_on (includes-ids_where is_completed plan.steps) (
      All-of_all (includes (ids_where is_completed plan.steps)) old.depends_on (ground (arith, h)));
}

schedule_ready_steps-IsStart :
    (plan : AgentRunPlan) → All (IsStart plan) (schedule_ready_steps plan)
unfolding schedule_ready_steps
schedule_ready_steps-IsStart plan =
    let ready = is_ready (ids_where is_completed plan.steps) in
    All-map as_ready (IsStart plan) _ (
      All-take _ (plan.max_parallelism - active_count plan.steps) (filter ready plan.steps) (
        All-imp (λ old. Memᴰ old plan.steps × (ready old ≡ true)) (filter ready plan.steps)
          (λ old h. ready-IsStart plan old h.0 h.1)
          (All-filter (λ old. Memᴰ old plan.steps) ready plan.steps (All-Memᴰ plan.steps))))

-- What is scheduled of a run may start, and with the steps that are ready or running already it is
-- no more than the run's cap allows, unless these alone are more.
pub schedule_ready_steps_lem :
    (plan : AgentRunPlan)
    → All (IsStart plan) (schedule_ready_steps plan)
      × (active_count plan.steps + length (schedule_ready_steps plan)
          ≤ max plan.max_parallelism (active_count plan.steps))
unfolding schedule_ready_steps
schedule_ready_steps_lem plan =
    let free = plan.max_parallelism - active_count plan.steps in
    let ready = filter (is_ready (ids_where is_completed plan.steps)) plan.steps in
    (
      schedule_ready_steps-IsStart plan,
      omega (arith, length-map (take free ready) as_ready, length-take free ready),
    )

-- A start of one of the plans.
abbrev pub IsStartOfSome : List AgentRunPlan → AgentStep → Type 0
IsStartOfSome [] step = ⊥
IsStartOfSome (plan ∷ plans) step = IsStart plan step ⊎ IsStartOfSome plans step

All-queued :
    (plans : List AgentRunPlan) → All (All (IsStartOfSome plans)) (map schedule_ready_steps plans)
All-queued [] = tt
All-queued (plan ∷ plans) = (
  All-imp (IsStart plan) (schedule_ready_steps plan) (λ step h. inl h)
      (schedule_ready_steps-IsStart plan),
  All-imp (All (IsStartOfSome plans)) (map schedule_ready_steps plans)
      (λ queue h. All-imp (IsStartOfSome plans) queue (λ step k. inr k) h) (All-queued plans),
)

-- Every step selected across runs may start in one of the runs.
pub schedule_across_runs-IsStartOfSome :
    (plans : List AgentRunPlan) (global_parallelism : ℕ)
    → All (IsStartOfSome plans) (schedule_across_runs plans global_parallelism)
unfolding schedule_across_runs
schedule_across_runs-IsStartOfSome plans global_parallelism =
    All-round_robin (IsStartOfSome plans) _ _ (map schedule_ready_steps plans) [] (All-queued plans)
      tt

module _ (steps : List AgentStep) where
  abbrev pub each : (StepStatus → Bool) → Bool
  each test = all (λ step. test step.status) steps

  abbrev pub has : (StepStatus → Bool) → Bool
  has test = any (λ step. test step.status) steps

each_completed :
    (steps : List AgentStep)
    → (each steps is_completed ≡ true) ↔ (
        (each steps (λ status. is_completed status || is_cancelled status) ≡ true)
        × (has steps is_cancelled ≡ false))
each_completed [] = ground arith
each_completed (step ∷ steps) = ground (arith, each_completed steps)

completed-not_failed :
    (steps : List AgentStep)
    → each steps (λ status. is_completed status || is_cancelled status) ≡ true
    → has steps is_failed ≡ false
completed-not_failed [] h = refl
completed-not_failed (step ∷ steps) h = ground (arith, completed-not_failed steps)

-- A run is failed exactly if one of its steps is, and completed exactly if all of them are; and in a
-- queued run no step waits for approval, is ready or runs, and one can be scheduled.
pub run_status_lem :
    (plan : AgentRunPlan)
    → ((run_status plan ≡ RunStatus.failed) ↔ (has plan.steps is_failed ≡ true))
      × ((run_status plan ≡ RunStatus.completed) ↔ (each plan.steps is_completed ≡ true))
      × (run_status plan ≡ RunStatus.queued
          → (has plan.steps is_awaiting ≡ false)
            × (has plan.steps is_active ≡ false)
            × (schedule_ready_steps plan ≢ []))
unfolding run_status
run_status_lem plan = ground (arith, each_completed plan.steps, completed-not_failed plan.steps)
