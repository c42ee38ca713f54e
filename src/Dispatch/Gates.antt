-- ===== src/Dispatch/Gates.antt =====
-- What apps/web/lib/dispatcher.ts promises of every decision that it returns.
use mathlib.Core.List.{Memᴰ}
use circuit_agent.Prelude.{
  ℕ, ◌+◌, ◌≤◌, ◌<◌, String, ◌≡◌, ◌⊎◌, ◌↔◌, refl, subst, sym, inl, inr, true, false, not, Option,
  none, some, List, [], ◌∷◌, ◌++◌, map, arith, Bool-cases, All, All-imp, All-Memᴰ, ok, >>=-returns,
  >>-returns, if-false, ap, ◌∙◌, truthy, is_blank, ◌==◌, eq_iff,
}
use circuit_agent.Budget.{
  TaskBudget, BudgetStatus, allowed, warning, approval_required, exhausted, evaluate_budget,
}
use circuit_agent.Budget.Laws.{MayProceed, evaluate_budget-decides}
use circuit_agent.Plan.{AgentStep, AgentRunPlan}
use circuit_agent.Dispatch.{
  DispatchAction, dispatch, awaiting_approval, budget_approval_required, budget_exhausted,
  needs_configuration, invalid_graph, DispatchDecision, DispatchPlanningInput, Owners, Claims,
  add_claim, claim_steps, owner_of, claim_plans, rejection, by_status, hold, send, not_configured,
  price, decide_owned, decide_scheduled, decide_steps, plan_dispatch, decide_all, rejected,
  ambiguous, scheduled,
}

-- The work is free or fits under a cap that is not zero.
abbrev pub FitsBudget : TaskBudget → ℕ → Type 0
FitsBudget budget proposed =
    (0 < budget.max_rwf)
    × ((proposed ≡ 0) ⊎ (budget.spent_rwf + budget.reserved_rwf + proposed ≤ budget.max_rwf))

-- A plan of the run has a step of the id.
abbrev pub Owns : List AgentRunPlan → String × String → Type 0
Owns plans (id, run_id) =
    (plan : AgentRunPlan) × Memᴰ plan plans
    × (plan.run_id ≡ run_id)
    × (step : AgentStep) × Memᴰ step plan.steps
    × (step.id ≡ id)

-- Why a step may be sent to a worker.
pub record IsSent (input : DispatchPlanningInput) (step : AgentStep) (d : DispatchDecision)
    : Type 0 where
  pub sent : d.action ≡ dispatch
  pub no_gate : step.requires_approval ≡ false
  pub configured : input.coding_execution_ready ≡ true
  pub estimated : input.estimated_rwf_by_step step.id ≡ some d.reservation_rwf
  pub budget : TaskBudget
  pub budgeted : input.budgets_by_run d.run_id ≡ some budget
  pub fits : FitsBudget budget d.reservation_rwf

-- Why a step is not sent.
abbrev pub IsReason : DispatchPlanningInput → AgentStep → DispatchDecision → Type 0
IsReason input step d =
    ((d.action ≡ awaiting_approval) × (step.requires_approval ≡ true))
    ⊎ ((d.action ≡ needs_configuration)
        × ((input.coding_execution_ready ≡ false)
            ⊎ (input.budgets_by_run d.run_id ≡ none)
            ⊎ (input.estimated_rwf_by_step step.id ≡ none)))
    ⊎ (((d.action ≡ budget_exhausted) ⊎ (d.action ≡ budget_approval_required))
        × (budget : TaskBudget) × (proposed : ℕ) × (input.budgets_by_run d.run_id ≡ some budget)
        × (input.estimated_rwf_by_step step.id ≡ some proposed)
        × (¬ FitsBudget budget proposed))

-- Nothing is reserved, and one of the reasons holds.
pub record IsHeld (input : DispatchPlanningInput) (step : AgentStep) (d : DispatchDecision)
    : Type 0 where
  pub unreserved : d.reservation_rwf ≡ 0
  pub reason : IsReason input step d

-- The decision names the step and a run that has it, and sends or holds it.
pub record IsGated (input : DispatchPlanningInput) (step : AgentStep) (d : DispatchDecision)
    : Type 0 where
  pub names : d.step ≡ some step
  pub owned : Owns input.plans (step.id, d.run_id)
  pub outcome : IsSent input step d ⊎ IsHeld input step d

-- One decision for each step, in the order of the steps.
abbrev pub AreGated : DispatchPlanningInput → List AgentStep → List DispatchDecision → Type 0
AreGated input [] [] = Unit
AreGated input (step ∷ steps) (d ∷ decisions) =
    IsGated input step d × AreGated input steps decisions
AreGated input _ _ = ⊥

-- A decision on the step for the run, by what the call was given.
abbrev Settled : DispatchPlanningInput → String → AgentStep → DispatchDecision → Type 0
Settled input run_id step d =
    (d.step ≡ some step) × (d.run_id ≡ run_id) × (IsSent input step d ⊎ IsHeld input step d)

over_budget :
    (input : DispatchPlanningInput) (run_id : String) (step : AgentStep) (budget : TaskBudget)
    (estimated_rwf : ℕ) (action : DispatchAction) (reason : String)
    → (action ≡ budget_exhausted) ⊎ (action ≡ budget_approval_required)
    → input.budgets_by_run run_id ≡ some budget
    → input.estimated_rwf_by_step step.id ≡ some estimated_rwf
    → ¬ FitsBudget budget estimated_rwf
    → Settled input run_id step (hold run_id step action reason)
over_budget input run_id step budget estimated_rwf action reason named b n over = (
  refl,
  refl,
  inr (record { unreserved = refl; reason = inr (inr (named, budget, estimated_rwf, b, n, over)) }),
)

within_budget :
    (input : DispatchPlanningInput) (run_id : String) (step : AgentStep) (budget : TaskBudget)
    (estimated_rwf : ℕ) (reason : String)
    → step.requires_approval ≡ false
    → input.coding_execution_ready ≡ true
    → input.budgets_by_run run_id ≡ some budget
    → input.estimated_rwf_by_step step.id ≡ some estimated_rwf
    → FitsBudget budget estimated_rwf
    → Settled input run_id step (send run_id step estimated_rwf reason)
within_budget input run_id step budget estimated_rwf reason gate ready b n fits = (
  refl,
  refl,
  inl (record {
    sent = refl;
    no_gate = gate;
    configured = ready;
    estimated = n;
    budget = budget;
    budgeted = b;
    fits = fits;
  }),
)

by_status-Settled :
    (input : DispatchPlanningInput) (run_id : String) (step : AgentStep) (budget : TaskBudget)
    (estimated_rwf : ℕ) (status : BudgetStatus)
    → step.requires_approval ≡ false
    → input.coding_execution_ready ≡ true
    → input.budgets_by_run run_id ≡ some budget
    → input.estimated_rwf_by_step step.id ≡ some estimated_rwf
    → MayProceed status ↔ FitsBudget budget estimated_rwf
    → Settled input run_id step (by_status run_id step estimated_rwf status)
by_status-Settled input run_id step budget estimated_rwf exhausted gate ready b n fits =
    over_budget input run_id step budget estimated_rwf _ _ (inl refl) b n
      (λ f. ground (arith, fits.1 f))
by_status-Settled input run_id step budget estimated_rwf approval_required gate ready b n fits =
    over_budget input run_id step budget estimated_rwf _ _ (inr refl) b n
      (λ f. ground (arith, fits.1 f))
by_status-Settled input run_id step budget estimated_rwf warning gate ready b n fits =
    within_budget input run_id step budget estimated_rwf _ gate ready b n (fits.0 (inr refl))
by_status-Settled input run_id step budget estimated_rwf allowed gate ready b n fits =
    within_budget input run_id step budget estimated_rwf _ gate ready b n (fits.0 (inl refl))

unconfigured :
    (input : DispatchPlanningInput) (run_id : String) (step : AgentStep)
    → (input.coding_execution_ready ≡ false)
      ⊎ (input.budgets_by_run run_id ≡ none)
      ⊎ (input.estimated_rwf_by_step step.id ≡ none)
    → Settled input run_id step (not_configured run_id step)
unconfigured input run_id step missing =
    (refl, refl, inr (record { unreserved = refl; reason = inr (inl (refl, missing)) }))

price-Settled :
    (input : DispatchPlanningInput) (run_id : String) (step : AgentStep) (d : DispatchDecision)
    (b : Option TaskBudget) (n : Option ℕ)
    → step.requires_approval ≡ false
    → input.coding_execution_ready ≡ true
    → input.budgets_by_run run_id ≡ b
    → input.estimated_rwf_by_step step.id ≡ n
    → price run_id step b n ≡ ok d
    → Settled input run_id step d
price-Settled input run_id step d none n gate ready eb en e =
    let same : not_configured run_id step ≡ d = cc e in
    subst (Settled input run_id step) same (unconfigured input run_id step (inr (inl eb)))
price-Settled input run_id step d (some budget) none gate ready eb en e =
    let same : not_configured run_id step ≡ d = cc e in
    subst (Settled input run_id step) same (unconfigured input run_id step (inr (inr en)))
price-Settled input run_id step d (some budget) (some n) gate ready eb en e =
    let (decision, returned, decided) = >>=-returns (evaluate_budget budget n) _ d e in
    let same : by_status run_id step n decision.status ≡ d = cc decided in
    let fits = (evaluate_budget-decides budget n decision returned).fits_iff in
    subst (Settled input run_id step) same
      (by_status-Settled input run_id step budget n decision.status gate ready eb en fits)

decide_owned-Settled :
    (input : DispatchPlanningInput) (run_id : String) (step : AgentStep) (d : DispatchDecision)
    → decide_owned input run_id step ≡ ok d
    → Settled input run_id step d
unfolding decide_owned
decide_owned-Settled input run_id step d e = elim (Bool-cases step.requires_approval) [
  | inl gate ↦
      let same : hold run_id step awaiting_approval "This step crosses a human approval gate." ≡ d =
        cc (rw (gate, decide_owned) at e) in
      subst (Settled input run_id step) same
        (refl, refl, inr (record { unreserved = refl; reason = inl (refl, gate) }))
  | inr gate ↦ elim (Bool-cases input.coding_execution_ready) [
    | inr idle ↦
        let same : not_configured run_id step ≡ d = cc (rw (gate, idle, decide_owned) at e) in
        subst (Settled input run_id step) same (unconfigured input run_id step (inl idle))
    | inl ready ↦
        let priced =
          price run_id step (input.budgets_by_run run_id) (input.estimated_rwf_by_step step.id) in
        let opened : decide_owned input run_id step ≡ priced =
          if-false step.requires_approval _ _ gate
          ∙ if-false (not input.coding_execution_ready) _ _ (ap not ready) in
        price-Settled input run_id step d (input.budgets_by_run run_id)
          (input.estimated_rwf_by_step step.id) gate ready refl refl (sym opened ∙ e)
  ]
]

module _ (P : String × String → Type 0) where
  add_claim-All :
      (run_id id : String) (claims : Claims) (owner : Option String)
      → P (id, run_id)
      → All P claims.0
      → All P (add_claim run_id id claims owner).0
  add_claim-All run_id id (owners, ambiguous) none h hs = (h, hs)
  add_claim-All run_id id (owners, ambiguous) (some owner) h hs =
      elim (Bool-cases (owner == run_id)) [ inl t ↦ rw t (h, hs) | inr f ↦ rw f hs ]

  claim_steps-All :
      (run_id : String) (steps : List AgentStep) (claims : Claims)
      → All (λ step. P (step.id, run_id)) steps
      → All P claims.0
      → All P (claim_steps run_id steps claims).0
  unfolding claim_steps
  claim_steps-All run_id [] claims h hs = hs
  claim_steps-All run_id (step ∷ steps) claims h hs =
      let owner = truthy (owner_of claims.0 step.id) in
      claim_steps-All run_id steps (add_claim run_id step.id claims owner) h.1
        (add_claim-All run_id step.id claims owner h.0 hs)

  claim_plans-All :
      (plans : List AgentRunPlan) (claims : Claims)
      → All (λ plan. All (λ step. P (step.id, plan.run_id)) plan.steps) plans
      → All P claims.0
      → All P (claim_plans plans claims).0
  unfolding claim_plans
  claim_plans-All [] claims h hs = hs
  claim_plans-All (plan ∷ plans) claims h hs =
      claim_plans-All plans (claim_steps plan.run_id plan.steps claims) h.1
        (claim_steps-All plan.run_id plan.steps claims h.0 hs)

  owner_of-All :
      (owners : Owners) (id run_id : String)
      → All P owners
      → owner_of owners id ≡ some run_id
      → P (id, run_id)
  unfolding owner_of
  owner_of-All [] id run_id h e = absurd (cc e)
  owner_of-All ((key, owner) ∷ owners) id run_id h e = elim (Bool-cases (key == id)) [
    | inl t ↦
        let named = (eq_iff key id).0 t in
        let same : owner ≡ run_id = cc (rw t at e) in subst P (cc (named, same)) h.0
    | inr f ↦ owner_of-All owners id run_id h.1 (rw f at e)
  ]

  truthy_owner :
      (id run_id : String) (owner : Option String)
      → (owner ≡ some run_id → P (id, run_id))
      → truthy owner ≡ some run_id
      → P (id, run_id)
  truthy_owner id run_id none h e = absurd (cc e)
  truthy_owner id run_id (some owner) h e = elim (Bool-cases (is_blank owner)) [
    | inl t ↦ absurd (cc (rw t at e))
    | inr f ↦ h (rw f at e)
  ]

-- Who owns a step has it.
claim_plans-Owns : (plans : List AgentRunPlan) → All (Owns plans) (claim_plans plans ([], [])).0
claim_plans-Owns plans =
    claim_plans-All (Owns plans) plans ([], [])
      (All-imp (λ plan. Memᴰ plan plans) plans
        (λ plan listed.
          All-imp (λ step. Memᴰ step plan.steps) plan.steps
            (λ step within. (plan, listed, refl, step, within, refl)) (All-Memᴰ plan.steps))
        (All-Memᴰ plans))
      tt

decide_scheduled-IsGated :
    (input : DispatchPlanningInput) (step : AgentStep) (owner : Option String)
    (d : DispatchDecision)
    → ((run_id : String) → owner ≡ some run_id → Owns input.plans (step.id, run_id))
    → decide_scheduled input step owner ≡ ok d
    → IsGated input step d
decide_scheduled-IsGated input step none d owns e = absurd (cc e)
decide_scheduled-IsGated input step (some run_id) d owns e =
    let (names, run, outcome) = decide_owned-Settled input run_id step d e in
    record {
      names = names;
      owned = subst (λ r. Owns input.plans (step.id, r)) (sym run) (owns run_id refl);
      outcome = outcome;
    }

decide_steps-AreGated :
    (input : DispatchPlanningInput) (owners : Owners) (steps : List AgentStep)
    (decided : List DispatchDecision)
    → All (Owns input.plans) owners
    → decide_steps input owners steps ≡ ok decided
    → AreGated input steps decided
unfolding decide_steps
decide_steps-AreGated input owners [] decided h e =
    let same : [] ≡ decided = cc e in subst (AreGated input []) same tt
decide_steps-AreGated input owners (step ∷ steps) decided h e =
    let owner = truthy (owner_of owners step.id) in
    let (d, one, rest_ok) = >>=-returns (decide_scheduled input step owner) _ decided e in
    let (rest, many, last) = >>=-returns (decide_steps input owners steps) _ decided rest_ok in
    let same : d ∷ rest ≡ decided = cc last in
    subst (AreGated input (step ∷ steps)) same (
      decide_scheduled-IsGated input step owner d
          (λ run_id.
            truthy_owner (Owns input.plans) step.id run_id (owner_of owners step.id)
              (owner_of-All (Owns input.plans) owners step.id run_id h))
          one,
      decide_steps-AreGated input owners steps rest h many,
    )

-- The decision on a plan that is rejected: its run's, on no step, with nothing reserved.
abbrev pub IsRefusal : DispatchDecision → Type 0
IsRefusal d = (d.action ≡ invalid_graph) × (d.step ≡ none) × (d.reservation_rwf ≡ 0)

rejections :
    (ambiguous : List String) (plans : List AgentRunPlan)
    → (map (λ d. d.run_id) (map (rejection ambiguous) plans) ≡ map (λ plan. plan.run_id) plans)
      × All IsRefusal (map (rejection ambiguous) plans)
rejections ambiguous [] = (refl, tt)
rejections ambiguous (plan ∷ plans) =
    let (runs, refusals) = rejections ambiguous plans in
    (ap (λ ids. plan.run_id ∷ ids) runs, ((refl, refl, refl), refusals))

-- What planning returns is first a refusal for each rejected plan, in order, and then a decision for
-- each step that the scheduler selects from the accepted ones, in order. Each names its step and a
-- run that has a step of that id. It dispatches the step, which then needs no human approval, with
-- execution configured, for the step's estimate, which is free or fits the budget of the run; or it
-- reserves nothing because the step needs approval, something is not configured, or the estimate
-- does not fit.
pub plan_dispatch-IsGated :
    (input : DispatchPlanningInput) (decisions : List DispatchDecision)
    → plan_dispatch input ≡ ok decisions
    → (refused decided : List DispatchDecision) × (decisions ≡ refused ++ decided)
      × (map (λ d. d.run_id) refused ≡ map (λ plan. plan.run_id) (rejected input))
      × All IsRefusal refused
      × AreGated input (scheduled input) decided
unfolding plan_dispatch
plan_dispatch-IsGated input decisions e =
    let all_decided = >>-returns _ (decide_all input) decisions e in
    let owners = (claim_plans input.plans ([], [])).0 in
    let (decided, returned, last) =
      >>=-returns (decide_steps input owners (scheduled input)) _ decisions all_decided in
    let first = map (rejection (ambiguous input)) (rejected input) in
    let same : first ++ decided ≡ decisions = cc last in
    let (runs, refusals) = rejections (ambiguous input) (rejected input) in
    (
      first,
      decided,
      sym same,
      runs,
      refusals,
      decide_steps-AreGated input owners (scheduled input) decided (claim_plans-Owns input.plans)
          returned,
    )
