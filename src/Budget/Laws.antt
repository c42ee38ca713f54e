-- ===== src/Budget/Laws.antt =====
-- What the task cap of agent-budget.ts guarantees, and when a start is automatic.
use circuit_agent.Prelude.{
  ℕ, ◌+◌, ◌*◌, ◌≤◌, ◌<◌, String, ◌≡◌, ◌⊎◌, ◌↔◌, inl, inr, Bool, true, false, Option, arith, nat_eq,
  Bool-cases, subst, ok, eq_iff, ◌==◌,
}
use circuit_agent.Budget.{
  TaskBudget, BudgetStatus, BudgetDecision, allowed, warning, exhausted, decide_budget,
  evaluate_budget, settled, settle_usage, Reading, amount, not_finite, below_zero, automation_cap,
  AutomationDecision, automatic, by_hand, decide_quote, decide_automation,
}

-- Dispatching may go on.
abbrev pub MayProceed : BudgetStatus → Type 0
MayProceed status = (status ≡ allowed) ⊎ (status ≡ warning)

abbrev pub AreSafe : TaskBudget → ℕ → Type 0
AreSafe budget proposed =
    (budget.max_rwf < 9_007_199_254_740_992)
    × (budget.spent_rwf < 9_007_199_254_740_992)
    × (budget.reserved_rwf < 9_007_199_254_740_992)
    × (proposed < 9_007_199_254_740_992)

-- What the status of a decision says of the amounts.
pub record IsDecision (budget : TaskBudget) (proposed : ℕ) (d : BudgetDecision) : Type 0 where
  pub fits_iff : MayProceed d.status ↔ (
      (0 < budget.max_rwf)
      × ((proposed ≡ 0) ⊎ (budget.spent_rwf + budget.reserved_rwf + proposed ≤ budget.max_rwf)))
  pub warns_from :
      MayProceed d.status
      → 85 * budget.max_rwf ≤ 100 * (budget.spent_rwf + budget.reserved_rwf + proposed)
      → d.status ≡ warning
  pub warns_only :
      d.status ≡ warning
      → budget.max_rwf ≤ 600_000_000_000_000
      → 85 * budget.max_rwf ≤ 100 * (budget.spent_rwf + budget.reserved_rwf + proposed)
  pub exhausted_iff : (d.status ≡ exhausted) ↔ (
      (budget.max_rwf ≡ 0)
      ⊎ ((0 < proposed) × (budget.max_rwf ≤ budget.spent_rwf + budget.reserved_rwf)))

pub decide_budget-IsDecision :
    (budget : TaskBudget) (proposed : ℕ)
    → IsDecision budget proposed (decide_budget budget proposed)
unfolding decide_budget
decide_budget-IsDecision budget proposed = record {
  fits_iff = ground arith;
  warns_from = λ may near. ground (arith, may, near);
  warns_only = λ e small. ground (arith, e, small);
  exhausted_iff = ground arith;
}

-- On safe amounts the evaluation returns a decision. It lets the work proceed exactly when there
-- is a cap and the work is free or fits under the cap with all that is spent and reserved. When work
-- may proceed it warns whenever 85% of the cap are reached and, for a cap of up to 600 million
-- million RWF, only then. It calls the budget exhausted exactly when there is no cap, or the cap is
-- used up and the work is not free.
pub evaluate_budget-IsDecision :
    (budget : TaskBudget) (proposed : ℕ)
    → AreSafe budget proposed
    → (d : BudgetDecision) × (evaluate_budget budget proposed ≡ ok d) × IsDecision budget proposed d
unfolding evaluate_budget
evaluate_budget-IsDecision budget proposed safe =
    (decide_budget budget proposed, ground arith, decide_budget-IsDecision budget proposed)

-- A decision that the evaluation returns is the decision on the amounts.
pub evaluate_budget-decides :
    (budget : TaskBudget) (proposed : ℕ) (d : BudgetDecision)
    → evaluate_budget budget proposed ≡ ok d
    → IsDecision budget proposed d
unfolding evaluate_budget
evaluate_budget-decides budget proposed d e =
    let same : decide_budget budget proposed ≡ d = ground (arith, e) in
    subst (IsDecision budget proposed) same (decide_budget-IsDecision budget proposed)

-- All that is spent and reserved is within the cap.
abbrev pub IsWithinCap : TaskBudget → Type 0
IsWithinCap budget = budget.spent_rwf + budget.reserved_rwf ≤ budget.max_rwf

-- A settlement that returns keeps the cap and the budget within it, gives back exactly what was
-- reserved and not used, and was for no more than was reserved. On safe amounts and a budget within
-- its cap every such settlement returns: the guard on the cap never throws.
pub settle_usage_lem :
    (budget : TaskBudget) (reserved actual : ℕ)
    → IsWithinCap budget
    → ((after : TaskBudget)
        → settle_usage budget reserved actual ≡ ok after
        → IsWithinCap after
          × (after.max_rwf ≡ budget.max_rwf)
          × (after.spent_rwf ≡ budget.spent_rwf + actual)
          × (after.reserved_rwf + reserved ≡ budget.reserved_rwf)
          × (actual ≤ reserved))
      × (reserved < 9_007_199_254_740_992
          → actual ≤ reserved
          → reserved ≤ budget.reserved_rwf
          → settle_usage budget reserved actual ≡ ok (settled budget reserved actual))
unfolding settle_usage
settle_usage_lem budget reserved actual within =
    ((λ after e. ground arith), (λ safe used kept. ground arith))

abbrev pub is_automatic : AutomationDecision → Bool
is_automatic (automatic reason) = true
is_automatic (by_hand reason) = false

-- A readable quote of no more than the cap.
abbrev pub FitsCap : Reading → ℕ → Type 0
FitsCap (amount whole fraction) cap = (whole < cap) ⊎ ((whole ≡ cap) × (fraction ≡ false))
FitsCap _ cap = ⊥

decide_quote_iff :
    (to_locale_string : ℕ → String) (cap : ℕ) (quoted : Reading)
    → (is_automatic (decide_quote to_locale_string cap quoted) ≡ true) ↔ FitsCap quoted cap
unfolding decide_quote
decide_quote_iff to_locale_string cap (amount whole fraction) = ground arith
decide_quote_iff to_locale_string cap not_finite = ((λ e. cc), (λ h. absurd h))
decide_quote_iff to_locale_string cap below_zero = ((λ e. cc), (λ h. absurd h))

-- A start is automatic exactly for a sandbox start, under a cap that is not zero, at a readable
-- quote that does not exceed the cap.
pub decide_automation_iff :
    (to_locale_string : ℕ → String) (kind : String) (quoted : Reading) (configured : Option Reading)
    → (is_automatic (decide_automation to_locale_string kind quoted configured) ≡ true) ↔ (
        (kind ≡ "task_start")
        × (0 < automation_cap configured)
        × FitsCap quoted (automation_cap configured))
unfolding decide_automation
decide_automation_iff to_locale_string kind quoted configured =
    elim (Bool-cases (kind == "task_start")) [
      | inr other ↦ rw other ((λ e. cc), (λ h. cc (other, (eq_iff kind "task_start").1 h.0)))
      | inl start ↦
          let named = (eq_iff kind "task_start").0 start in
          let quote = decide_quote_iff to_locale_string (automation_cap configured) quoted in
          elim (Bool-cases (nat_eq (automation_cap configured) 0)) [
            | inl manual ↦ rw (start, manual) ((λ e. cc), (λ h. absurd (ground arith)))
            | inr capped ↦
                rw (start, capped) ((λ e. (named, ground arith, quote.0 e)), (λ h. quote.1 h.2))
          ]
    ]
