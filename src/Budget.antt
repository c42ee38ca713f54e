-- ===== src/Budget.antt =====
-- apps/web/lib/agent-budget.ts, step-resume.ts and automation-budget.ts: the money gates of the
-- hosted control plane. An RWF amount is a natural number; the source throws on a negative or
-- fractional one and on one that is no safe integer, which is the test that is left here.
pub mod Laws
pub mod Resume
mod Examples
use Prim.Native.String
use Prim.Native.Char.{code}
use circuit_agent.Prelude.{
  ℕ, ◌+◌, ◌-◌, ◌*◌, ◌^◌, String, Bool, true, false, not, ◌&&◌, ◌||◌, Option, none, some, List, [],
  ◌∷◌, ltb, leb, nat_eq, if◌then◌else◌, Result, ok, err, ◌>>=◌, ◌>>◌, throw_if, template, decimal,
  ◌==◌,
}

pub record TaskBudget : Type 0 where
  pub max_rwf : ℕ
  pub spent_rwf : ℕ
  pub reserved_rwf : ℕ

pub data BudgetStatus : Type 0 where
  allowed warning approval_required exhausted : BudgetStatus

-- `utilization` is the fraction of its two numbers.
pub record BudgetDecision : Type 0 where
  pub status : BudgetStatus
  pub remaining_rwf : ℕ
  pub projected_rwf : ℕ
  pub utilization : ℕ × ℕ

-- `Number.isSafeInteger` on a natural number.
abbrev pub is_safe_integer : ℕ → Bool
is_safe_integer n = ltb n 9_007_199_254_740_992

abbrev pub assert_money : ℕ → String → Result (Unit {0})
assert_money value label =
    throw_if (not (is_safe_integer value))
      (template (label ∷ " must be a non-negative integer RWF amount" ∷ []))

-- `utilization >= 0.85` on doubles. The constant is 7656119366529843 / 2^53 and the spacing of doubles
-- there 1 / 2^53, so the rounded quotient reaches it exactly if the quotient lies above the midpoint
-- 15312238733059685 / 2^54 below the constant; on the midpoint itself it rounds to the even neighbour,
-- which is the smaller one. Below the cap the two amounts are exact as doubles.
abbrev pub is_near_cap : ℕ → ℕ → Bool
is_near_cap projected max_rwf =
    ltb (15_312_238_733_059_685 * max_rwf) (18_014_398_509_481_984 * projected)

unfoldable pub budget_status : ℕ → ℕ → ℕ → ℕ → BudgetStatus
budget_status remaining proposed projected max_rwf =
    if nat_eq remaining 0 && ltb 0 proposed
    then exhausted
    else if ltb remaining proposed
    then approval_required
    else if is_near_cap projected max_rwf
    then warning
    else allowed

-- `-` stops at 0, which is the `Math.max(0, …)` of `remainingRwf`.
unfoldable pub decide_budget : TaskBudget → ℕ → BudgetDecision
unfolding budget_status
decide_budget budget proposed =
    if nat_eq budget.max_rwf 0
    then record {
      status = exhausted;
      remaining_rwf = 0;
      projected_rwf = proposed;
      utilization = (1, 1);
    }
    else let committed = budget.spent_rwf + budget.reserved_rwf in
      let projected = committed + proposed in
      let remaining = budget.max_rwf - committed in
      record {
        status = budget_status remaining proposed projected budget.max_rwf;
        remaining_rwf = remaining;
        projected_rwf = projected;
        utilization = (projected, budget.max_rwf);
      }

unfoldable pub evaluate_budget : TaskBudget → ℕ → Result BudgetDecision
unfolding decide_budget
evaluate_budget budget proposed = do
  assert_money budget.max_rwf "maxRwf"
  assert_money budget.spent_rwf "spentRwf"
  assert_money budget.reserved_rwf "reservedRwf"
  assert_money proposed "proposedRwf"
  ok (decide_budget budget proposed)

-- The guards keep the subtraction exact. The source does not check the fields of the budget; they
-- are exact as doubles as long as they are safe integers.
abbrev pub settled : TaskBudget → ℕ → ℕ → TaskBudget
settled budget reserved actual = record budget {
  reserved_rwf = budget.reserved_rwf - reserved;
  spent_rwf = budget.spent_rwf + actual;
}

unfoldable pub settle_usage : TaskBudget → ℕ → ℕ → Result TaskBudget
settle_usage budget reserved actual = do
  assert_money reserved "reservedRwf"
  assert_money actual "actualRwf"
  throw_if (ltb budget.reserved_rwf reserved) "Cannot settle more than the reserved task amount"
  throw_if (ltb reserved actual) "Actual usage exceeds the step reservation"
  throw_if (ltb budget.max_rwf (budget.spent_rwf + actual))
      "Actual usage exceeds the approved task cap"
  ok (settled budget reserved actual)

-- step-resume.ts
abbrev pub max_step_resumes : ℕ
max_step_resumes = 5

pub record ResumeInput : Type 0 where
  pub resumes : ℕ
  pub spent_rwf : ℕ
  pub reserved_rwf : ℕ
  pub max_rwf : ℕ
  pub next_attempt_estimate_rwf : ℕ
  pub run_cancelled : Bool

pub data ResumeAction : Type 0 where
  resume finalize : ResumeAction

pub record StepResumeDecision : Type 0 where
  pub action : ResumeAction
  pub reason : String

-- The inputs are natural numbers, so the test for finite non-negative ones passes.
unfoldable pub decide_step_resume : ResumeInput → StepResumeDecision
decide_step_resume input =
    if input.run_cancelled
    then record { action = finalize; reason = "the run was cancelled" }
    else if leb max_step_resumes input.resumes
    then record {
      action = finalize;
      reason = template (
          "stopped after "
          ∷ decimal max_step_resumes
          ∷ " timed resumes — the work is larger than one task can complete; narrow the objective or split it"
          ∷ []);
    }
    else if ltb input.max_rwf
        (input.spent_rwf + input.reserved_rwf + input.next_attempt_estimate_rwf)
    then record {
      action = finalize;
      reason =
          "not enough budget remains for another attempt; re-run with a higher ceiling to continue";
    }
    else record {
      action = resume;
      reason = template (
          "checkpointed with work still to do (resume "
          ∷ decimal (input.resumes + 1)
          ∷ "/"
          ∷ decimal max_step_resumes
          ∷ ")"
          ∷ []);
    }

-- automation-budget.ts. What the rule can tell of a JavaScript number: not finite, below zero, or
-- its whole part and whether there is a fraction.
pub data Reading : Type 0 where
  not_finite below_zero : Reading
  amount : (whole : ℕ) (fraction : Bool) → Reading

abbrev pub default_auto_approve_rwf : ℕ
default_auto_approve_rwf = 5_000

abbrev pub manual_only_rwf : ℕ
manual_only_rwf = 0

unfoldable pub automation_cap : Option Reading → ℕ
automation_cap none = default_auto_approve_rwf
automation_cap (some not_finite) = default_auto_approve_rwf
automation_cap (some below_zero) = default_auto_approve_rwf
automation_cap (some (amount whole fraction)) = whole

pub data AutomationDecision : Type 0 where
  automatic by_hand : (reason : String) → AutomationDecision

-- `replaceAll("_", " ")`.
unfoldable pub spaced : String → String
spaced String.[] = String.[]
spaced (String.◌∷◌ c s) = String.◌∷◌ (if nat_eq (code c) b'_' then " " else c) (spaced s)

-- The quote exceeds a whole cap.
abbrev pub exceeds : ℕ → Bool → ℕ → Bool
exceeds whole fraction cap = ltb cap whole || (nat_eq whole cap && fraction)

-- `toLocaleString` follows the locale of the host.
module _ (to_locale_string : ℕ → String) where
  unfoldable pub decide_quote : ℕ → Reading → AutomationDecision
  decide_quote cap (amount whole fraction) =
      if exceeds whole fraction cap
      then by_hand
          (template ("quoted above the " ∷ to_locale_string cap ∷ " RWF automation ceiling" ∷ []))
      else automatic
          (template ("within the " ∷ to_locale_string cap ∷ " RWF automation ceiling" ∷ []))
  decide_quote cap _ = by_hand "the quote could not be read"

  unfoldable pub decide_automation : String → Reading → Option Reading → AutomationDecision
  unfolding spaced decide_quote
  decide_automation kind quoted configured =
      if not (kind == "task_start")
      then by_hand (template (spaced kind ∷ " always needs a person" ∷ []))
      else if nat_eq (automation_cap configured) manual_only_rwf
      then by_hand "this workspace approves every sandbox by hand"
      else decide_quote (automation_cap configured) quoted
