-- ===== src/Budget/Examples.antt =====
-- The money gates of the hosted control plane on concrete amounts.
use circuit_agent.Prelude.{ℕ, ◌+◌, ◌≤◌, ◌<◌, ◌≡◌, refl, ◌↔◌, Bool, false, arith, ok, err}
use circuit_agent.Budget.{
  TaskBudget, BudgetDecision, warning, exhausted, evaluate_budget, settle_usage, settled,
  ResumeInput, resume, decide_step_resume, max_step_resumes,
}
use circuit_agent.Budget.Laws.{
  IsDecision, evaluate_budget-IsDecision, IsWithinCap, settle_usage_lem,
}
use circuit_agent.Budget.Resume.{decide_step_resume_iff}

abbrev budget : TaskBudget
budget = record { max_rwf = 1000; spent_rwf = 300; reserved_rwf = 200 }

evaluate_tests :
    (evaluate_budget budget 400
      ≡ ok (record {
        status = warning;
        remaining_rwf = 500;
        projected_rwf = 900;
        utilization = (900, 1000);
      }))
    × (evaluate_budget (record budget { spent_rwf = 800 }) 1
        ≡ ok (record {
          status = exhausted;
          remaining_rwf = 0;
          projected_rwf = 1001;
          utilization = (1001, 1000);
        }))
unfolding evaluate_budget
evaluate_tests = (refl, refl)

settle_tests :
    (settle_usage budget 200 150
      ≡ ok (record { max_rwf = 1000; spent_rwf = 450; reserved_rwf = 0 }))
    × (settle_usage budget 200 201 ≡ err "Actual usage exceeds the step reservation")
unfolding settle_usage
settle_tests = (refl, refl)

evaluate_budget-IsDecision_example :
    (d : BudgetDecision) × (evaluate_budget budget 600 ≡ ok d) × IsDecision budget 600 d
evaluate_budget-IsDecision_example = evaluate_budget-IsDecision budget 600 (omega arith)

settle_usage_lem_example :
    ((after : TaskBudget)
      → settle_usage budget 200 150 ≡ ok after
      → IsWithinCap after
        × (after.max_rwf ≡ 1000)
        × (after.spent_rwf ≡ 300 + 150)
        × (after.reserved_rwf + 200 ≡ 200)
        × (150 ≤ 200))
    × (200 < 9_007_199_254_740_992
        → 150 ≤ 200
        → 200 ≤ 200
        → settle_usage budget 200 150 ≡ ok (settled budget 200 150))
settle_usage_lem_example = settle_usage_lem budget 200 150 (omega arith)

abbrev attempt : ℕ → ResumeInput
attempt resumes = record {
  resumes = resumes;
  spent_rwf = 100;
  reserved_rwf = 0;
  max_rwf = 1000;
  next_attempt_estimate_rwf = 50;
  run_cancelled = false;
}

decide_step_resume_iff_example :
    ((decide_step_resume (attempt 4)).action ≡ resume)
    ↔ (◌≡◌ {A = Bool} false false × (4 < max_step_resumes) × (100 + 0 + 50 ≤ 1000))
decide_step_resume_iff_example = decide_step_resume_iff (attempt 4)
