-- ===== src/Jobs/Approved.antt =====
-- What a human's decisions authorize over any sequence of commands on the store of jobs.ts.
use circuit_agent.Prelude.{
  ℕ, String, ◌≡◌, refl, ◌≢◌, inl, inr, ◌⊎◌, true, false, some, List, [], ◌∷◌, ◌++◌, arith,
  Bool-cases, Option-cases, All, includes, includes-append, is_blank,
}
use text.Mathlib.TextPositions.{eq_refl}
use circuit_agent.Jobs.{Job, JobStore, ApprovalDecision, DeliveredDecision, find_job, replace}
use circuit_agent.Jobs.Approvals.{Collected, is_allowed, consume_approval, resumed}
use circuit_agent.Jobs.Lookup.{find_job_id, find_job-replace_self}
use circuit_agent.Jobs.Invariant.{IsWellFormed}
use circuit_agent.Jobs.Commands.{Command, perform, execution, executions, authorized}
use circuit_agent.Jobs.Cases.{consume_cases}
use circuit_agent.Jobs.Evolution.{perform-Keeps}
use circuit_agent.Jobs.WellFormed.{perform-IsWellFormed}

-- The action is in the job's record of executed ones.
record Spent (store : JobStore) (id digest : String) : Type 0 where
  job : Job
  found : find_job store id ≡ some job
  executed : includes job.executed_approvals digest ≡ true

perform-Spent :
    (command : Command) (store : JobStore) (id digest : String)
    → IsWellFormed store
    → Spent store id digest
    → Spent (perform command store) id digest
perform-Spent command store id digest h spent =
    let (job', found, evolved) =
      (perform-Keeps command store h.unique).kept id spent.job spent.found in
    record { job = job'; found = found; executed = evolved.executed_kept digest spent.executed }

includes_last : (xs : List String) (s : String) → includes (xs ++ s ∷ []) s ≡ true
includes_last xs s = ground (arith, includes-append xs (s ∷ []) s, eq_refl s)

-- A reply that authorizes an action: it was not spent before, and is after.
abbrev Spends : JobStore → String → JobStore × Collected → Type 0
Spends store id (store', reply) =
    (other digest : String)
    → authorized id reply ≡ some (other, digest)
    → (¬ Spent store other digest) × Spent store' other digest

authorized-eq :
    (id : String) (decision : ApprovalDecision) (digest : String) (action : String × String)
    → authorized id (some (decision, digest)) ≡ some action
    → some (id, digest) ≡ some action
authorized-eq id decision digest action e = elim (Bool-cases (is_allowed decision)) [
  | inr no_leave ↦ cc (rw no_leave at e)
  | inl allowed ↦ elim (Bool-cases (is_blank digest)) [
    | inl blank ↦ cc (rw (allowed, blank) at e)
    | inr given ↦ rw (allowed, given) at e
  ]
]

consume_approval-Spends :
    (store : JobStore) (id worker_id : String) (now : ℕ)
    → Spends store id (consume_approval store id worker_id now)
consume_approval-Spends store id worker_id now =
    consume_cases (Spends store id) store id worker_id now (λ o d e. cc)
      (λ job found owned o d e. cc)
      (λ job delivered found owned fresh asked o d e.
        spends job delivered found fresh o d (Bool-cases (is_allowed delivered.decision)) e)
  where
    spends :
        (job : Job) (delivered : DeliveredDecision)
        → find_job store id ≡ some job
        → includes job.executed_approvals delivered.action_digest ≡ false
        → (other digest : String)
        → (is_allowed delivered.decision ≡ true) ⊎ (is_allowed delivered.decision ≡ false)
        → authorized id (some (delivered.decision, delivered.action_digest)) ≡ some (other, digest)
        → (¬ Spent store other digest)
          × Spent (replace store (resumed now delivered job)) other digest
    spends job delivered found fresh o d (inr no_leave) e = cc (rw no_leave at e)
    spends job delivered found fresh o d (inl allowed) e =
        let same = authorized-eq id delivered.decision delivered.action_digest (o, d) e in
        let here : id ≡ o = cc same in
        let digest : delivered.action_digest ≡ d = cc same in
        let named : job.id ≡ id = find_job_id store id job found in
        let there : find_job store job.id ≡ some job = cc (found, named) in
        (
          (λ spent.
              let one : job ≡ spent.job = cc (found, spent.found, here) in
              cc (fresh, spent.executed, one, digest)),
          record {
            job = resumed now delivered job;
            found = cc (
              find_job-replace_self store job (resumed now delivered job) there refl,
              named,
              here,
            );
            executed =
                rw (← digest, allowed)
                  (includes_last job.executed_approvals delivered.action_digest);
          },
        )

execution-Spends :
    (command : Command) (store : JobStore) (id digest : String)
    → execution command store ≡ some (id, digest)
    → (¬ Spent store id digest) × Spent (perform command store) id digest
unfolding execution perform
execution-Spends (Command.consume_job_approval job worker_id now) store id digest e =
    consume_approval-Spends store job worker_id now id digest e
execution-Spends _ store id digest e = cc

abbrev Differs : String × String → String × String → Type 0
Differs a b = a ≢ b

-- No element of the list is there twice.
abbrev pub AllDistinct : List (String × String) → Type 0
AllDistinct [] = Unit
AllDistinct (e ∷ log) = All (λ f. e ≢ f) log × AllDistinct log

executions-not-Spent :
    (commands : List Command) (store : JobStore) (id digest : String)
    → IsWellFormed store
    → Spent store id digest
    → All (λ f. (id, digest) ≢ f) (executions commands store)
unfolding executions
executions-not-Spent [] store id digest h spent = tt
executions-not-Spent (command ∷ commands) store id digest h spent =
    let later =
      executions-not-Spent commands (perform command store) id digest
        (perform-IsWellFormed command store h) (perform-Spent command store id digest h spent) in
    elim (Option-cases (execution command store)) [
      | inl e ↦ rw e later
      | inr (found, e) ↦
          rw e ((λ same. (execution-Spends command store id digest (rw same e)).0 spent), later)
    ]

-- Over any sequence of commands on a well-formed store, no job is let execute one action twice.
pub executions-AllDistinct :
    (commands : List Command) (store : JobStore)
    → IsWellFormed store
    → AllDistinct (executions commands store)
unfolding executions
executions-AllDistinct [] store h = tt
executions-AllDistinct (command ∷ commands) store h =
    let h' = perform-IsWellFormed command store h in
    let later = executions-AllDistinct commands (perform command store) h' in
    elim (Option-cases (execution command store)) [
      | inl e ↦ rw e later
      | inr ((id, digest), e) ↦ rw e (
        executions-not-Spent commands (perform command store) id digest h'
            (execution-Spends command store id digest e).1,
        later,
      )
    ]
