-- ===== src/Jobs/Approvals.antt =====
-- packages/agent-core/src/nova-cli/jobs.ts: a worker parks its job on a question, a human answers
-- it, and the worker collects the answer.
use circuit_agent.Prelude.{
  ℕ, String, Bool, true, false, not, ◌||◌, Option, none, some, [], ◌∷◌, ◌++◌, if◌then◌else◌,
  includes, Result, ok, err, is_blank, trim, ◌==◌,
}
use circuit_agent.Jobs.{
  running, paused, ApprovalDecision, allow, allow_always, ApprovalRequest, PendingApproval,
  DeliveredDecision, Job, JobStore, replace, find_job, owned_by,
}

abbrev pub parked : ApprovalRequest → ℕ → Job → Job
parked request now job = record job {
  status = paused;
  updated_at = now;
  pending_approval = some (record { request = request; requested_at = now });
  approval_decision = none;
}

unfoldable pub request_approval :
    JobStore → String → String → ApprovalRequest → ℕ → Result (JobStore × Bool)
request_approval store id worker_id request now = elim (find_job store id) [
  | none ↦ ok (store, false)
  | some job ↦
      if not (owned_by job worker_id now)
      then ok (store, false)
      else if is_blank (trim request.action_digest) || is_blank (trim request.scope_key)
      then err "An approval request must carry its action digest and scope key"
      else if includes job.executed_approvals request.action_digest
      then ok (store, false)
      else ok (replace store (parked request now job), true)
]

abbrev pub asks_for : Option PendingApproval → String → Bool
asks_for none digest = false
asks_for (some pending) digest = pending.request.action_digest == digest

unfoldable pub resolve_approval :
    JobStore → String → ApprovalDecision → String → ℕ → JobStore × Bool
resolve_approval store id decision digest now = elim (find_job store id) [
  | none ↦ (store, false)
  | some job ↦
      if asks_for job.pending_approval digest
      then (
        replace store (record job {
          updated_at = now;
          approval_decision =
              some (record { decision = decision; action_digest = digest; decided_at = now });
        }),
        true,
      )
      else (store, false)
]

abbrev pub is_allowed : ApprovalDecision → Bool
is_allowed allow = true
is_allowed allow_always = true
is_allowed _ = false

abbrev pub dropped : ℕ → Job → Job
dropped now job = record job { updated_at = now; approval_decision = none }

abbrev pub resumed : ℕ → DeliveredDecision → Job → Job
resumed now delivered job = record job {
  status = running;
  updated_at = now;
  pending_approval = none;
  approval_decision = none;
  executed_approvals =
      if is_allowed delivered.decision
      then job.executed_approvals ++ delivered.action_digest ∷ []
      else job.executed_approvals;
}

-- The decision that the worker may act on, with the action that it is about.
abbrev pub Collected : Type 0
Collected = Option (ApprovalDecision × String)

-- What `consumeApproval` does with a decision that the owner finds on its job.
unfoldable pub collect :
    JobStore → ℕ → Job → DeliveredDecision → PendingApproval → JobStore × Collected
collect store now job delivered pending =
    if not (pending.request.action_digest == delivered.action_digest)
    then (replace store (dropped now job), none)
    else if includes job.executed_approvals delivered.action_digest
    then (replace store (dropped now job), none)
    else (
      replace store (resumed now delivered job),
      some (delivered.decision, delivered.action_digest),
    )

-- `!job.approvalDecision || !job.pendingApproval`, and else the two.
unfoldable pub consume_approval : JobStore → String → String → ℕ → JobStore × Collected
unfolding collect
consume_approval store id worker_id now = elim (find_job store id) [
  | none ↦ (store, none)
  | some job ↦
      if owned_by job worker_id now
      then elim job.approval_decision [
        | none ↦ (store, none)
        | some delivered ↦ elim job.pending_approval [
          | none ↦ (store, none)
          | some pending ↦ collect store now job delivered pending
        ]
      ]
      else (store, none)
]
