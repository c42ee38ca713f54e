-- ===== src/Jobs/Cases.antt =====
-- What the reducers of jobs.ts with several tests can make of a store, for proofs that keep them
-- shut.
use circuit_agent.Prelude.{
  ℕ, String, ◌+◌, ◌≡◌, inl, inr, true, false, ◌||◌, Option, none, some, [], ◌∷◌, ◌++◌, Bool-cases,
  Option-cases, includes, any, is_blank, trim, ltb, ◌==◌, eq_iff,
}
use circuit_agent.Jobs.{
  Job, JobStore, DeliveredDecision, PendingApproval, ApprovalRequest, replace, find_job, owned_by,
  next_candidate, exhausted, claimed, new_job, EnqueueOptions, enqueue, claim, max_attempts,
}
use circuit_agent.Jobs.Approvals.{
  Collected, request_approval, consume_approval, collect, dropped, resumed, parked, asks_for,
}
use circuit_agent.Jobs.Lookup.{find_job-eq-none_of_any}
use circuit_agent.Jobs.Commands.{written}

pub enqueue_cases {ℓ} :
    (P : JobStore → Type ℓ) (store : JobStore) (options : EnqueueOptions)
    → P store
    → (find_job store options.id ≡ none → P (store ++ new_job options ∷ []))
    → P (written store (enqueue store options))
unfolding enqueue
enqueue_cases P store options same step =
    elim (Bool-cases (any (λ job. job.id == options.id) store)) [
      | inl taken ↦ rw taken same
      | inr free ↦ elim (Bool-cases (is_blank (trim options.objective))) [
        | inl blank ↦ rw (free, blank) same
        | inr given ↦ rw (free, given) (step (find_job-eq-none_of_any store options.id free))
      ]
    ]

pub claim_cases {ℓ} :
    (P : JobStore × Option Job → Type ℓ) (store : JobStore) (worker_id : String) (now lease_ms : ℕ)
    → P (store, none)
    → ((target : Job)
        → next_candidate store now ≡ some target
        → ltb max_attempts (target.attempts + 1) ≡ true
        → P (replace store (exhausted now target), none))
    → ((target : Job)
        → next_candidate store now ≡ some target
        → ltb max_attempts (target.attempts + 1) ≡ false
        → P (
          replace store (claimed worker_id now lease_ms target),
          some (claimed worker_id now lease_ms target),
        ))
    → P (claim store worker_id now lease_ms)
unfolding claim
claim_cases P store worker_id now lease_ms idle spent able =
    elim (Option-cases (next_candidate store now)) [
      | inl e ↦ rw (e, claim) idle
      | inr (target, e) ↦ elim (Bool-cases (ltb max_attempts (target.attempts + 1))) [
        | inl t ↦ rw (e, claim, t) (spent target e t)
        | inr f ↦ rw (e, claim, f) (able target e f)
      ]
    ]

pub request_cases {ℓ} :
    (P : JobStore → Type ℓ) (store : JobStore) (id worker_id : String) (request : ApprovalRequest)
    (now : ℕ)
    → P store
    → ((job : Job)
        → find_job store id ≡ some job
        → owned_by job worker_id now ≡ true
        → includes job.executed_approvals request.action_digest ≡ false
        → P (replace store (parked request now job)))
    → P (written store (request_approval store id worker_id request now))
unfolding request_approval
request_cases P store id worker_id request now same step = elim (Option-cases (find_job store id)) [
  | inl e ↦ rw (e, written, request_approval) same
  | inr (job, e) ↦ elim (Bool-cases (owned_by job worker_id now)) [
    | inr o ↦ rw (e, written, request_approval, o) same
    | inl o ↦
        elim (Bool-cases
          (is_blank (trim request.action_digest) || is_blank (trim request.scope_key))) [
            | inl b ↦ rw (e, written, request_approval, o, b) same
            | inr b ↦ elim (Bool-cases (includes job.executed_approvals request.action_digest)) [
              | inl i ↦ rw (e, written, request_approval, o, b, i) same
              | inr i ↦ rw (e, written, request_approval, o, b, i) (step job e o i)
            ]
          ]
  ]
]

collect_cases {ℓ} :
    (P : JobStore × Collected → Type ℓ) (store : JobStore) (now : ℕ) (job : Job)
    (delivered : DeliveredDecision) (pending : PendingApproval)
    → P (replace store (dropped now job), none)
    → (includes job.executed_approvals delivered.action_digest ≡ false
        → pending.request.action_digest ≡ delivered.action_digest
        → P (
          replace store (resumed now delivered job),
          some (delivered.decision, delivered.action_digest),
        ))
    → P (collect store now job delivered pending)
unfolding collect
collect_cases P store now job delivered pending drop go =
    elim (Bool-cases (pending.request.action_digest == delivered.action_digest)) [
      | inr other ↦ rw other drop
      | inl same ↦ elim (Bool-cases (includes job.executed_approvals delivered.action_digest)) [
        | inl i ↦ rw (same, i) drop
        | inr i ↦ rw (same, i) (go i ((eq_iff _ _).0 same))
      ]
    ]

pub consume_cases {ℓ} :
    (P : JobStore × Collected → Type ℓ) (store : JobStore) (id worker_id : String) (now : ℕ)
    → P (store, none)
    → ((job : Job)
        → find_job store id ≡ some job
        → owned_by job worker_id now ≡ true
        → P (replace store (dropped now job), none))
    → ((job : Job) (delivered : DeliveredDecision)
        → find_job store id ≡ some job
        → owned_by job worker_id now ≡ true
        → includes job.executed_approvals delivered.action_digest ≡ false
        → (job.approval_decision ≡ some delivered)
          × (asks_for job.pending_approval delivered.action_digest ≡ true)
        → P (
          replace store (resumed now delivered job),
          some (delivered.decision, delivered.action_digest),
        ))
    → P (consume_approval store id worker_id now)
unfolding consume_approval
consume_cases P store id worker_id now same drop go = elim (Option-cases (find_job store id)) [
  | inl e ↦ rw (e, consume_approval) same
  | inr (job, e) ↦ elim (Bool-cases (owned_by job worker_id now)) [
    | inr o ↦ rw (e, consume_approval, o) same
    | inl o ↦ elim (Option-cases job.approval_decision) [
      | inl d ↦ rw (e, consume_approval, o, d) same
      | inr (delivered, d) ↦ elim (Option-cases job.pending_approval) [
        | inl p ↦ rw (e, consume_approval, o, d, p) same
        | inr (pending, p) ↦
            rw (e, consume_approval, o, d, p)
              (collect_cases P store now job delivered pending (drop job e o)
                (λ i asked. go job delivered e o i (d, rw p ((eq_iff _ _).1 asked))))
      ]
    ]
  ]
]
