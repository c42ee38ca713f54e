-- ===== src/Plan/Propagation.antt =====
-- What `propagateBlockedSteps` of apps/web/lib/agent-orchestration.ts makes of a plan.
use mathlib.Core.List.{Memᴰ}
use circuit_agent.Prelude.{
  ℕ, zero, suc, ◌≤◌, ◌<◌, String, ◌≡◌, refl, inl, inr, true, false, List, [], ◌∷◌, arith,
  Bool-cases, length, any, includes, All, All-imp, All-Memᴰ,
}
use circuit_agent.Plan.{
  AgentStep, AgentRunPlan, is_pending, is_terminal_failure, ids_where, is_doomed, Pass, block_pass,
  block_loop, propagate_blocked_steps,
}
use circuit_agent.Plan.Schedule.{includes-ids_where}
use circuit_agent.Plan.Blocking.{
  Doomed, failure, OnlyBlocks, OnlyBlocks-trans, pending_count, Inv, IsPass, Within, AreDoomed,
  block_pass-IsPass,
}

-- No pending step is left that depends on a step that failed, was cancelled or is blocked.
abbrev pub IsClosed : List AgentStep → Type 0
IsClosed steps =
    All
      (λ s.
        is_pending s.status ≡ true
        → any (includes (ids_where is_terminal_failure steps)) s.depends_on ≡ false)
      steps

record IsDone (origin steps result : List AgentStep) : Type 0 where
  shape : OnlyBlocks steps result
  closed : IsClosed result
  stopped_doomed : All (λ s. is_terminal_failure s.status ≡ true → Doomed origin s.id) result

any-Within :
    (xs ys dependencies : List String)
    → Within xs ys
    → any (includes ys) dependencies ≡ false
    → any (includes xs) dependencies ≡ false
any-Within xs ys [] within h = refl
any-Within xs ys (d ∷ ds) within h = elim (Bool-cases (includes xs d)) [
  | inl t ↦ absurd (ground (arith, within d t, h))
  | inr f ↦ rw f (any-Within xs ys ds within (ground (arith, h)))
]

IsClosed-of_idle :
    (steps : List AgentStep) (failures : List String)
    → Within (ids_where is_terminal_failure steps) failures
    → All (λ s. is_doomed failures s ≡ false) steps
    → IsClosed steps
IsClosed-of_idle steps failures known idle =
    All-imp (λ s. is_doomed failures s ≡ false) steps
      (λ s fine waiting.
        any-Within (ids_where is_terminal_failure steps) failures s.depends_on known
          (rw waiting at fine))
      idle

IsDone-of_idle :
    (origin steps : List AgentStep) (failures : List String) (p : Pass)
    → Within (ids_where is_terminal_failure steps) failures
    → IsPass origin steps failures p
    → p.changed ≡ false
    → IsDone origin steps p.steps
IsDone-of_idle origin steps failures p known pass still =
    let (same, same_failures, idle) = pass.idle still in
    record {
      shape = pass.shape;
      closed = rw same (IsClosed-of_idle steps failures known idle);
      stopped_doomed = pass.inv.stopped_doomed;
    }

block_loop-IsDone :
    (fuel : ℕ) (origin steps : List AgentStep) (failures : List String)
    → pending_count steps < fuel
    → AreDoomed origin failures
    → Inv origin steps
    → Within (ids_where is_terminal_failure steps) failures
    → IsDone origin steps (block_loop fuel steps failures)
unfolding block_loop
block_loop-IsDone zero origin steps failures enough doomed inv known = absurd (omega arith)
block_loop-IsDone (suc fuel) origin steps failures enough doomed inv known =
    let p = block_pass steps failures in
    let pass = block_pass-IsPass origin steps failures doomed inv in
    elim (Bool-cases p.changed) [
      | inr still ↦ rw still (IsDone-of_idle origin steps failures p known pass still)
      | inl more ↦
          let d =
            block_loop-IsDone fuel origin p.steps p.failures (omega (arith, pass.busy more, enough))
              pass.failures_doomed pass.inv (pass.stopped_known known) in
          rw more (record {
            shape = OnlyBlocks-trans steps p.steps _ pass.shape d.shape;
            closed = d.closed;
            stopped_doomed = d.stopped_doomed;
          })
    ]

pending_count-le : (steps : List AgentStep) → pending_count steps ≤ length steps
unfolding pending_count
pending_count-le [] = omega arith
pending_count-le (step ∷ steps) = ground (arith, pending_count-le steps)

stopped-AreDoomed : (steps : List AgentStep) → AreDoomed steps (ids_where is_terminal_failure steps)
stopped-AreDoomed steps id listed =
    let h = includes-ids_where is_terminal_failure steps id listed in
    failure h.step h.listed h.passes h.named

-- Every step keeps all but its status, and only pending steps are blocked; no pending step is left
-- that depends on a failed, cancelled or blocked one; and every step that is blocked at the end was
-- waiting, directly or through pending steps, for a step that had failed, been cancelled or blocked.
pub propagate_blocked_steps_lem :
    (plan : AgentRunPlan)
    → OnlyBlocks plan.steps (propagate_blocked_steps plan).steps
      × IsClosed (propagate_blocked_steps plan).steps
      × All
          (λ s. is_terminal_failure s.status ≡ true → Doomed plan.steps s.id)
          (propagate_blocked_steps plan).steps
unfolding propagate_blocked_steps
propagate_blocked_steps_lem plan =
    let listed = All-Memᴰ plan.steps in
    let d =
      block_loop-IsDone (suc (length plan.steps)) plan.steps plan.steps
        (ids_where is_terminal_failure plan.steps) (omega (arith, pending_count-le plan.steps))
        (stopped-AreDoomed plan.steps)
        (record {
          pending_listed = All-imp (λ s. Memᴰ s plan.steps) plan.steps (λ s m w. m) listed;
          stopped_doomed =
              All-imp (λ s. Memᴰ s plan.steps) plan.steps (λ s m t. failure s m t refl) listed;
        })
        (λ id h. h) in
    (d.shape, d.closed, d.stopped_doomed)
