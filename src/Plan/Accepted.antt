-- ===== src/Plan/Accepted.antt =====
-- What `validateTaskGraph` of apps/web/lib/agent-orchestration.ts has checked of a plan that it
-- accepts.
use circuit_agent.Prelude.{
  suc, ◌≤◌, String, ◌≡◌, refl, inl, inr, true, false, not, Option, none, some, List, [], ◌∷◌, ◌++◌,
  map, arith, Bool-cases, length, filter, includes, All, All-imp, ◌==◌, eq_iff,
}
use text.Mathlib.TextPositions.{eq_refl}
use circuit_agent.Plan.{AgentStep, AgentRunPlan}
use circuit_agent.Plan.Validate.{
  step_ids, duplicate_issues, missing_issues, missing_issue, find_last, cycle_issues,
  parallelism_issues, no_marks, validate_task_graph,
}
use circuit_agent.Plan.Acyclic.{Order, find_cycle-Order}

append-eq-nil {ℓ} : {A : Type ℓ} (xs ys : List A) → xs ++ ys ≡ [] → (xs ≡ []) × (ys ≡ [])
append-eq-nil [] ys h = (refl, h)
append-eq-nil (x ∷ xs) ys h = cc

later_differ :
    (steps : List AgentStep) (ids : List String)
    → duplicate_issues steps ids ≡ []
    → All (λ s. includes ids s.id ≡ false) steps
unfolding duplicate_issues
later_differ [] ids h = tt
later_differ (step ∷ steps) ids h = elim (Bool-cases (includes ids step.id)) [
  | inl twice ↦ cc (rw twice at h)
  | inr new ↦ (
    new,
    All-imp (λ s. includes (step.id ∷ ids) s.id ≡ false) steps (λ s e. ground (arith, e))
        (later_differ steps (step.id ∷ ids) (rw new at h)),
  )
]

find_last-none :
    (id : String) (steps : List AgentStep)
    → All (λ s. (id == s.id) ≡ false) steps
    → find_last id steps ≡ none
unfolding find_last
find_last-none id [] h = refl
find_last-none id (step ∷ steps) h =
    ground (arith, find_last-none id steps h.1, eq_iff step.id id, eq_iff id step.id, h.0)

All-found :
    (steps : List AgentStep) (ids : List String)
    → duplicate_issues steps ids ≡ []
    → All (λ s. find_last s.id steps ≡ some s) steps
unfolding find_last duplicate_issues
All-found [] ids h = tt
All-found (step ∷ steps) ids h = elim (Bool-cases (includes ids step.id)) [
  | inl twice ↦ cc (rw twice at h)
  | inr new ↦
      let rest : duplicate_issues steps (step.id ∷ ids) ≡ [] = rw new at h in
      let absent = find_last-none step.id steps (
        All-imp (λ s. includes (step.id ∷ ids) s.id ≡ false) steps (λ s e. ground (arith, e))
          (later_differ steps (step.id ∷ ids) rest)) in
      (
        rw (absent, eq_refl step.id) refl,
        All-imp (λ s. find_last s.id steps ≡ some s) steps (λ s found. rw found refl)
            (All-found steps (step.id ∷ ids) rest),
      )
]

none_missing :
    (ids dependencies : List String) (step : AgentStep)
    → map (missing_issue step) (filter (λ d. not (includes ids d)) dependencies) ≡ []
    → All (λ d. includes ids d ≡ true) dependencies
none_missing ids [] step h = tt
none_missing ids (d ∷ ds) step h = elim (Bool-cases (includes ids d)) [
  | inl known ↦ (known, none_missing ids ds step (rw known at h))
  | inr unknown ↦ cc (rw unknown at h)
]

dependencies_known :
    (ids : List String) (steps : List AgentStep)
    → missing_issues ids steps ≡ []
    → All (λ s. All (λ d. includes ids d ≡ true) s.depends_on) steps
unfolding missing_issues
dependencies_known ids [] h = tt
dependencies_known ids (step ∷ steps) h =
    let (here, later) = append-eq-nil (map (missing_issue step) _) (missing_issues ids steps) h in
    (none_missing ids step.depends_on step here, dependencies_known ids steps later)

-- The run's cap is from 1 to 8, no two steps have one id, each dependency is a step, and there is
-- an order of the steps in which each stands after those that it depends on.
pub record IsSound (plan : AgentRunPlan) : Type 0 where
  pub at_least_one : 1 ≤ plan.max_parallelism
  pub at_most_eight : plan.max_parallelism ≤ 8
  pub unique : All (λ s. find_last s.id plan.steps ≡ some s) plan.steps
  pub known : All (λ s. All (λ d. includes (step_ids plan.steps) d ≡ true) s.depends_on) plan.steps
  pub order : Order plan.steps plan.steps []

no_cycle : (found : Option String) → cycle_issues found ≡ [] → found ≡ none
no_cycle none h = refl
no_cycle (some id) h = cc

parallelism_bounds :
    (plan : AgentRunPlan)
    → parallelism_issues plan ≡ []
    → (1 ≤ plan.max_parallelism) × (plan.max_parallelism ≤ 8)
parallelism_bounds plan h = ground (arith, h)

-- A plan with no issue is sound.
pub validate_task_graph-IsSound :
    (plan : AgentRunPlan) → validate_task_graph plan ≡ [] → IsSound plan
unfolding validate_task_graph
validate_task_graph-IsSound plan h =
    let (front, cycles) = append-eq-nil _ (cycle_issues _) h in
    let (more, missing) = append-eq-nil _ (missing_issues (step_ids plan.steps) plan.steps) front in
    let (bounds, duplicates) =
      append-eq-nil (parallelism_issues plan) (duplicate_issues plan.steps []) more in
    let (low, high) = parallelism_bounds plan bounds in
    record {
      at_least_one = low;
      at_most_eight = high;
      unique = All-found plan.steps [] duplicates;
      known = dependencies_known (step_ids plan.steps) plan.steps missing;
      order =
          find_cycle-Order (suc (length plan.steps)) plan.steps plan.steps no_marks tt
            (no_cycle _ cycles);
    }
