-- ===== src/Jobs/Evolution.antt =====
-- How one job of the store of jobs.ts may change under any command.
use circuit_agent.Prelude.{
  ℕ, String, ◌≡◌, refl, inl, inr, true, false, Option, none, some, [], ◌∷◌, arith, Bool-cases,
  Option-cases, includes, includes-append, leb, ◌==◌, eq_iff,
}
use circuit_agent.Jobs.{
  Job, JobStore, JobStatus, DeliveredDecision, ApprovalRequest, ApprovalDecision, is_held,
  is_terminal, replace, find_job, owned_by, claimable, new_job, EnqueueOptions, enqueue, claim,
  max_attempts, Cadence,
}
use circuit_agent.Jobs.Lifecycle.{
  Outcome, heartbeat, finish, finished, detach, cancel, is_stale, recovered_job, recover_stale,
}
use circuit_agent.Jobs.Approvals.{request_approval, resolve_approval, consume_approval, resumed}
use circuit_agent.Jobs.Lookup.{
  HasUniqueIds, guarded, guarded_cases, find_job-replace, find_job-append, find_job-recover_stale,
  find_job_id, swept, next_candidate-found,
}
use circuit_agent.Jobs.Commands
use circuit_agent.Jobs.Commands.{Command, perform}
use circuit_agent.Jobs.Cases.{enqueue_cases, claim_cases, request_cases, consume_cases}

-- A job keeps its id, leaves no terminal status, and forgets no executed action.
pub record Evolved (a b : Job) : Type 0 where
  pub id_kept : b.id ≡ a.id
  pub terminal_kept : is_terminal a.status ≡ true → b.status ≡ a.status
  pub executed_kept :
      (digest : String)
      → includes a.executed_approvals digest ≡ true
      → includes b.executed_approvals digest ≡ true

pub Evolved-refl : (a : Job) → Evolved a a
Evolved-refl a = record { id_kept = refl; terminal_kept = λ t. refl; executed_kept = λ d h. h }

pub Evolved-trans : {a b c : Job} → Evolved a b → Evolved b c → Evolved a c
Evolved-trans {a} {b} {c} p q = record {
  id_kept = cc (p.id_kept, q.id_kept);
  terminal_kept = λ t. cc (p.terminal_kept t, q.terminal_kept (rw (p.terminal_kept t) t));
  executed_kept = λ d h. q.executed_kept d (p.executed_kept d h);
}

-- A change of a job that is not terminal.
Evolved-live :
    (a b : Job)
    → is_terminal a.status ≡ false
    → b.id ≡ a.id
    → b.executed_approvals ≡ a.executed_approvals
    → Evolved a b
Evolved-live a b live id same = record {
  id_kept = id;
  terminal_kept = λ t. absurd (ground arith);
  executed_kept = λ d h. rw same h;
}

not_terminal_of_held : (status : JobStatus) → is_held status ≡ true → is_terminal status ≡ false
not_terminal_of_held status h = ground arith

owned-live :
    (job : Job) (w : String) (now : ℕ) → owned_by job w now ≡ true → is_terminal job.status ≡ false
unfolding owned_by
owned-live job w now h = ground arith

claimable-live : (job : Job) (now : ℕ) → claimable now job ≡ true → is_terminal job.status ≡ false
unfolding claimable
claimable-live job now h = ground arith

-- Every job of one store is in the other, evolved.
pub record Keeps (store store' : JobStore) : Type 0 where
  pub kept :
      (id : String) (job : Job)
      → find_job store id ≡ some job
      → (job' : Job) × (find_job store' id ≡ some job') × Evolved job job'

Keeps-refl : (store : JobStore) → Keeps store store
Keeps-refl store = record { kept = λ id job found. (job, found, Evolved-refl job) }

Keeps-replace :
    (store : JobStore) (job new : Job) (id : String)
    → find_job store id ≡ some job
    → Evolved job new
    → Keeps store (replace store new)
Keeps-replace store job new id found evolved = record {
  kept = λ key other there. elim (Bool-cases (new.id == key)) [
    | inl same ↦
        let at_id : id ≡ key =
          cc (find_job_id store id job found, evolved.id_kept, (eq_iff new.id key).0 same) in
        let one : job ≡ other = cc (found, there, at_id) in
        (new, rw (find_job-replace store new key, same, there) refl, rw (← one) evolved)
    | inr other_id ↦
        (other, rw (find_job-replace store new key, other_id) there, Evolved-refl other)
  ];
}

module _ (store : JobStore) (id worker_id : String) (now : ℕ) where
  -- A change that only the owner may make.
  owner-Keeps :
      (change : Job → Job)
      → ((job : Job) → is_terminal job.status ≡ false → Evolved job (change job))
      → Keeps store (guarded store id (λ job. owned_by job worker_id now) change).0
  owner-Keeps change step =
      guarded_cases (Keeps store) store id _ change (Keeps-refl store)
        (λ job e o. Keeps-replace store job _ id e (step job (owned-live job worker_id now o)))

  heartbeat-Keeps : (lease_ms : ℕ) → Keeps store (heartbeat store id worker_id now lease_ms).0
  unfolding heartbeat
  heartbeat-Keeps lease_ms = owner-Keeps _ (λ job live. Evolved-live job _ live refl refl)

  finished-Evolved :
      (outcome : Outcome) (error : Option String) (cadence : Option Cadence) (job : Job)
      → is_terminal job.status ≡ false
      → Evolved job (finished now outcome error cadence job)
  unfolding finished
  finished-Evolved Outcome.succeeded error (some cadence) job live =
      Evolved-live job _ live refl refl
  finished-Evolved Outcome.succeeded error none job live = Evolved-live job _ live refl refl
  finished-Evolved Outcome.broken error cadence job live = Evolved-live job _ live refl refl

  finish-Keeps :
      (outcome : Outcome) (error : Option String)
      → Keeps store (finish store id worker_id outcome now error).0
  unfolding finish
  finish-Keeps outcome error = owner-Keeps _ (λ job. finished-Evolved outcome error job.cadence job)

  detach-Keeps : Keeps store (detach store id worker_id now).0
  unfolding detach
  detach-Keeps = owner-Keeps _ (λ job live. Evolved-live job _ live refl refl)

  cancel-Keeps : Keeps store (cancel store id now).0
  unfolding cancel
  cancel-Keeps = elim (Option-cases (find_job store id)) [
    | inl e ↦ rw (e, cancel) (Keeps-refl store)
    | inr (job, e) ↦ elim (Bool-cases (is_terminal job.status)) [
      | inl t ↦ rw (e, cancel, t) (Keeps-refl store)
      | inr live ↦
          rw (e, cancel, live) (Keeps-replace store job _ id e (Evolved-live job _ live refl refl))
    ]
  ]

  request_approval-Keeps :
      (request : ApprovalRequest)
      → Keeps store (Commands.written store (request_approval store id worker_id request now))
  request_approval-Keeps request =
      request_cases (Keeps store) store id worker_id request now (Keeps-refl store)
        (λ job e o fresh.
          Keeps-replace store job _ id e
            (Evolved-live job _ (owned-live job worker_id now o) refl refl))

  resolve_approval-Keeps :
      (decision : ApprovalDecision) (digest : String)
      → Keeps store (resolve_approval store id decision digest now).0
  unfolding resolve_approval
  resolve_approval-Keeps decision digest =
      guarded_cases (Keeps store) store id _ _ (Keeps-refl store) (λ job e a.
        Keeps-replace store job _ id e
          (record { id_kept = refl; terminal_kept = λ t. refl; executed_kept = λ d h. h }))

  resumed-Evolved :
      (job : Job) (delivered : DeliveredDecision)
      → is_terminal job.status ≡ false
      → Evolved job (resumed now delivered job)
  resumed-Evolved job delivered live = record {
    id_kept = refl;
    terminal_kept = λ t. absurd (ground arith);
    executed_kept = λ d h.
        ground (arith, includes-append job.executed_approvals (delivered.action_digest ∷ []) d);
  }

  consume_approval-Keeps : Keeps store (consume_approval store id worker_id now).0
  consume_approval-Keeps =
      consume_cases (λ reply. Keeps store reply.0) store id worker_id now (Keeps-refl store)
        (λ job e o.
          Keeps-replace store job _ id e
            (Evolved-live job _ (owned-live job worker_id now o) refl refl))
        (λ job delivered e o fresh asked.
          Keeps-replace store job _ id e
            (resumed-Evolved job delivered (owned-live job worker_id now o)))

claim-Keeps :
    (store : JobStore) (worker_id : String) (now lease_ms : ℕ)
    → HasUniqueIds store
    → Keeps store (claim store worker_id now lease_ms).0
claim-Keeps store worker_id now lease_ms unique =
    claim_cases (λ reply. Keeps store reply.0) store worker_id now lease_ms (Keeps-refl store)
      (λ target e spent.
        let (found, due) = next_candidate-found store now target unique e in
        Keeps-replace store target _ target.id found
          (Evolved-live target _ (claimable-live target now due) refl refl))
      (λ target e able.
        let (found, due) = next_candidate-found store now target unique e in
        Keeps-replace store target _ target.id found
          (Evolved-live target _ (claimable-live target now due) refl refl))

swept-Evolved : (now : ℕ) (job : Job) → Evolved job (swept now job)
unfolding recovered_job
swept-Evolved now job = elim (Bool-cases (is_stale now job)) [
  | inr fresh ↦ rw fresh (Evolved-refl job)
  | inl stale ↦ elim (Bool-cases (leb max_attempts job.attempts)) [
    | inl last ↦ rw (stale, last) (Evolved-live job _ (ground arith) refl refl)
    | inr more ↦ rw (stale, more) (Evolved-live job _ (ground arith) refl refl)
  ]
]

recover_stale-Keeps : (store : JobStore) (now : ℕ) → Keeps store (recover_stale store now).0
recover_stale-Keeps store now = record {
  kept = λ id job found.
      (swept now job, rw (find_job-recover_stale store now id, found) refl, swept-Evolved now job);
}

enqueue-Keeps :
    (store : JobStore) (options : EnqueueOptions)
    → Keeps store (Commands.written store (enqueue store options))
enqueue-Keeps store options = enqueue_cases (Keeps store) store options (Keeps-refl store) (λ fresh.
    record {
      kept = λ id job found. (
        job,
        ground (
          arith,
          find_job-append store (new_job options) id fresh,
          eq_iff options.id id,
          found,
          fresh,
        ),
        Evolved-refl job,
      );
    })

-- Under any command every job that was there is there, evolved.
pub perform-Keeps :
    (command : Command) (store : JobStore)
    → HasUniqueIds store
    → Keeps store (perform command store)
unfolding perform
perform-Keeps (Command.enqueue_job options) store unique = enqueue-Keeps store options
perform-Keeps (Command.claim_job w lease_ms now) store unique =
    claim-Keeps store w now lease_ms unique
perform-Keeps (Command.heartbeat_job id w lease_ms now) store unique =
    heartbeat-Keeps store id w now lease_ms
perform-Keeps (Command.finish_job id w outcome error now) store unique =
    finish-Keeps store id w now outcome error
perform-Keeps (Command.detach_job id w now) store unique = detach-Keeps store id w now
perform-Keeps (Command.cancel_job id now) store unique = cancel-Keeps store id "" now
perform-Keeps (Command.request_job_approval id w request now) store unique =
    request_approval-Keeps store id w now request
perform-Keeps (Command.resolve_job_approval id decision digest now) store unique =
    resolve_approval-Keeps store id "" now decision digest
perform-Keeps (Command.consume_job_approval id w now) store unique =
    consume_approval-Keeps store id w now
perform-Keeps (Command.list_jobs now) store unique = recover_stale-Keeps store now
