-- ===== src/Plan/Validate.antt =====
-- `validateTaskGraph` of apps/web/lib/agent-orchestration.ts: the shape of a plan is checked before
-- anything is paid for or started.
use circuit_agent.Prelude.{
  ℕ, zero, suc, String, Bool, true, false, not, ◌||◌, Option, none, some, List, [], ◌∷◌, ◌++◌, map,
  ltb, if◌then◌else◌, length, filter, includes, template, ◌==◌,
}
use circuit_agent.Plan.{AgentStep, AgentRunPlan}

pub data IssueCode : Type 0 where
  duplicate_step missing_dependency cycle invalid_parallelism : IssueCode

pub record GraphIssue : Type 0 where
  pub code : IssueCode
  pub step_id : String
  pub message : String

abbrev pub step_ids : List AgentStep → List String
step_ids steps = map (λ step. step.id) steps

-- The first loop: the ids seen so far grow.
unfoldable pub duplicate_issues : List AgentStep → List String → List GraphIssue
duplicate_issues [] ids = []
duplicate_issues (step ∷ steps) ids =
    let rest = duplicate_issues steps (step.id ∷ ids) in
    if includes ids step.id
    then record {
      code = duplicate_step;
      step_id = step.id;
      message = template ("Duplicate step id: " ∷ step.id ∷ []);
    }
      ∷ rest
    else rest

abbrev pub missing_issue : AgentStep → String → GraphIssue
missing_issue step dependency = record {
  code = missing_dependency;
  step_id = step.id;
  message = template (step.id ∷ " depends on missing step " ∷ dependency ∷ []);
}

unfoldable pub missing_issues : List String → List AgentStep → List GraphIssue
missing_issues ids [] = []
missing_issues ids (step ∷ steps) =
    map (missing_issue step) (filter (λ dependency. not (includes ids dependency)) step.depends_on)
    ++ missing_issues ids steps

-- `stepsById`: of steps with one id the last is kept.
unfoldable pub find_last : String → List AgentStep → Option AgentStep
find_last id [] = none
find_last id (step ∷ steps) = elim (find_last id steps) [
  | some later ↦ some later
  | none ↦ if step.id == id then some step else none
]

abbrev pub dependencies_in : Option AgentStep → List String
dependencies_in none = []
dependencies_in (some step) = step.depends_on

-- The two sets of the depth-first search.
pub record Marks : Type 0 where
  pub visiting : List String
  pub visited : List String

abbrev pub enter : String → Marks → Marks
enter id marks = record marks { visiting = id ∷ marks.visiting }

abbrev pub leave : String → Marks → Marks
leave id marks = record marks {
  visiting = filter (λ other. not (other == id)) marks.visiting;
  visited = id ∷ marks.visited;
}

-- `dependsOn.some((dependency) => stepsById.has(dependency) && visit(dependency))`.
unfoldable pub visit_some :
    (String → Marks → Bool × Marks) → List String → List String → Marks → Bool × Marks
visit_some visit ids [] marks = (false, marks)
visit_some visit ids (dependency ∷ rest) marks =
    let (cyclic, marks') = visit dependency marks in
    let skipped = visit_some visit ids rest marks in
    let visited = visit_some visit ids rest marks' in
    if includes ids dependency then (if cyclic then (true, marks') else visited) else skipped

-- Each nested call is for a step that is not yet being visited, so the fuel, one more than there
-- are steps, does not run out before the search meets a step again.
unfoldable pub visit : ℕ → List AgentStep → String → Marks → Bool × Marks
unfolding visit_some
visit zero steps id marks = (true, marks)
visit (suc fuel) steps id marks =
    let (cyclic, marks') =
      visit_some (visit fuel steps) (step_ids steps) (dependencies_in (find_last id steps))
        (enter id marks) in
    if includes marks.visiting id
    then (true, marks)
    else if includes marks.visited id
    then (false, marks)
    else (cyclic, leave id marks')

-- The loop that stops at the first step from which a cycle is met.
unfoldable pub find_cycle : ℕ → List AgentStep → List AgentStep → Marks → Option String
unfolding visit
find_cycle fuel steps [] marks = none
find_cycle fuel steps (step ∷ rest) marks =
    let (cyclic, marks') = visit fuel steps step.id marks in
    let later = find_cycle fuel steps rest marks' in if cyclic then some step.id else later

abbrev pub cycle_issues : Option String → List GraphIssue
cycle_issues none = []
cycle_issues (some id) =
    record {
      code = cycle;
      step_id = id;
      message = template ("Dependency cycle includes " ∷ id ∷ []);
    }
    ∷ []

abbrev pub parallelism_issues : AgentRunPlan → List GraphIssue
parallelism_issues plan =
    if ltb plan.max_parallelism 1 || ltb 8 plan.max_parallelism
    then record {
      code = invalid_parallelism;
      step_id = plan.run_id;
      message =
          template
            ("Run " ∷ plan.run_id ∷ " maxParallelism must be an integer between 1 and 8" ∷ []);
    }
      ∷ []
    else []

abbrev pub no_marks : Marks
no_marks = record { visiting = []; visited = [] }

unfoldable pub validate_task_graph : AgentRunPlan → List GraphIssue
unfolding find_cycle
validate_task_graph plan =
    parallelism_issues plan
    ++ duplicate_issues plan.steps []
    ++ missing_issues (step_ids plan.steps) plan.steps
    ++ cycle_issues (find_cycle (suc (length plan.steps)) plan.steps plan.steps no_marks)
