-- ===== src/Jobs/WellFormed.antt =====
-- Every command of job-store.ts keeps the invariant of the store.
use circuit_agent.Prelude.{
  ℕ, ◌+◌, String, ◌≡◌, refl, inl, inr, true, false, Option, none, some, List, [], ◌∷◌, ◌++◌, arith,
  Bool-cases, Option-cases, All, All-append, eq_iff, ltb, leb,
}
use circuit_agent.Jobs.{
  Job, JobStore, max_attempts, is_held, is_terminal, find_job, owned_by, exhausted, claimed,
  new_job, next_candidate, EnqueueOptions, claim, enqueue, Cadence, ApprovalRequest,
  ApprovalDecision, DeliveredDecision,
}
use circuit_agent.Jobs.Lifecycle.{
  Outcome, heartbeat, finish, finished, detach, cancel, is_stale, recovered_job, recover_stale,
}
use circuit_agent.Jobs.Approvals.{
  request_approval, resolve_approval, consume_approval, parked, dropped, resumed,
}
use circuit_agent.Jobs.Lookup.{
  HasUniqueIds, find_job-append, find_job-recover_stale, guarded, guarded_cases,
  next_candidate-found,
}
use circuit_agent.Jobs.Invariant.{IsValid, IsWellFormed, replace-IsWellFormed, found-IsValid}
use circuit_agent.Jobs.Commands.{Command, perform, run, written}
use circuit_agent.Jobs.Cases.{enqueue_cases, claim_cases, request_cases, consume_cases}

module _ (store : JobStore) (h : IsWellFormed store) (id worker_id : String) (now : ℕ) where
  owned-held : (job : Job) → owned_by job worker_id now ≡ true → is_held job.status ≡ true
  unfolding owned_by
  owned-held job o = ground arith

  owner-IsWellFormed :
      (change : Job → Job)
      → ((job : Job) → IsValid job → is_held job.status ≡ true → IsValid (change job))
      → IsWellFormed (guarded store id (λ job. owned_by job worker_id now) change).0
  owner-IsWellFormed change step = guarded_cases IsWellFormed store id _ change h (λ job e o.
      replace-IsWellFormed store _ h (step job (found-IsValid store id job h e) (owned-held job o)))

  heartbeat-IsWellFormed :
      (lease_ms : ℕ) → IsWellFormed (heartbeat store id worker_id now lease_ms).0
  unfolding heartbeat
  heartbeat-IsWellFormed lease_ms = owner-IsWellFormed _ (λ job v held. ground arith)

  finished-IsValid :
      (outcome : Outcome) (error : Option String) (cadence : Option Cadence) (job : Job)
      → IsValid job
      → IsValid (finished now outcome error cadence job)
  unfolding finished
  finished-IsValid Outcome.succeeded error (some cadence) job v = ground arith
  finished-IsValid Outcome.succeeded error none job v = ground arith
  finished-IsValid Outcome.broken error cadence job v = ground arith

  finish-IsWellFormed :
      (outcome : Outcome) (error : Option String)
      → IsWellFormed (finish store id worker_id outcome now error).0
  unfolding finish
  finish-IsWellFormed outcome error =
      owner-IsWellFormed _ (λ job v held. finished-IsValid outcome error job.cadence job v)

  detach-IsWellFormed : IsWellFormed (detach store id worker_id now).0
  unfolding detach
  detach-IsWellFormed = owner-IsWellFormed _ (λ job v held. ground arith)

  cancel-IsWellFormed : IsWellFormed (cancel store id now).0
  unfolding cancel
  cancel-IsWellFormed = elim (Option-cases (find_job store id)) [
    | inl e ↦ rw (e, cancel) h
    | inr (job, e) ↦
        let v : IsValid job = found-IsValid store id job h e in
        elim (Bool-cases (is_terminal job.status)) [
          | inl t ↦ rw (e, cancel, t) h
          | inr live ↦ rw (e, cancel, live) (replace-IsWellFormed store _ h (ground arith))
        ]
  ]

  request_approval-IsWellFormed :
      (request : ApprovalRequest)
      → IsWellFormed (written store (request_approval store id worker_id request now))
  request_approval-IsWellFormed request =
      request_cases IsWellFormed store id worker_id request now h (λ job e o fresh.
        replace-IsWellFormed store _ h
          (parked-IsValid job (found-IsValid store id job h e) (owned-held job o)))
    where
      parked-IsValid :
          (job : Job) → IsValid job → is_held job.status ≡ true → IsValid (parked request now job)
      parked-IsValid job v held = ground arith

  resolve_approval-IsWellFormed :
      (decision : ApprovalDecision) (digest : String)
      → IsWellFormed (resolve_approval store id decision digest now).0
  unfolding resolve_approval
  resolve_approval-IsWellFormed decision digest =
      guarded_cases IsWellFormed store id _ _ h
        (λ job e a. replace-IsWellFormed store _ h (same job (found-IsValid store id job h e)))
    where
      same :
          (job : Job)
          → IsValid job
          → IsValid (record job {
            updated_at = now;
            approval_decision =
                some (record { decision = decision; action_digest = digest; decided_at = now });
          })
      same job v = ground arith

  dropped-IsValid : (job : Job) → IsValid job → IsValid (dropped now job)
  dropped-IsValid job v = ground arith

  resumed-IsValid :
      (job : Job) (delivered : DeliveredDecision)
      → IsValid job
      → is_held job.status ≡ true
      → IsValid (resumed now delivered job)
  resumed-IsValid job delivered v held = ground arith

  consume_approval-IsWellFormed : IsWellFormed (consume_approval store id worker_id now).0
  consume_approval-IsWellFormed =
      consume_cases (λ reply. IsWellFormed reply.0) store id worker_id now h
        (λ job e o.
          replace-IsWellFormed store _ h (dropped-IsValid job (found-IsValid store id job h e)))
        (λ job delivered e o fresh asked.
          replace-IsWellFormed store _ h
            (resumed-IsValid job delivered (found-IsValid store id job h e) (owned-held job o)))

module _ (store : JobStore) (h : IsWellFormed store) (now : ℕ) where
  claim-IsWellFormed :
      (worker_id : String) (lease_ms : ℕ) → IsWellFormed (claim store worker_id now lease_ms).0
  claim-IsWellFormed worker_id lease_ms =
      claim_cases (λ reply. IsWellFormed reply.0) store worker_id now lease_ms h
        (λ target e spent.
          replace-IsWellFormed store _ h (exhausted-IsValid target (target_valid target e)))
        (λ target e able.
          replace-IsWellFormed store _ h (claimed-IsValid target (target_valid target e) able))
    where
      target_valid : (target : Job) → next_candidate store now ≡ some target → IsValid target
      target_valid target e =
          found-IsValid store target.id target h
            (next_candidate-found store now target h.unique e).0

      exhausted-IsValid : (target : Job) → IsValid target → IsValid (exhausted now target)
      exhausted-IsValid target v = ground arith

      claimed-IsValid :
          (target : Job)
          → IsValid target
          → ltb max_attempts (target.attempts + 1) ≡ false
          → IsValid (claimed worker_id now lease_ms target)
      claimed-IsValid target v able = ground arith

recovered_job-IsValid :
    (now : ℕ) (job : Job) → IsValid job → is_stale now job ≡ true → IsValid (recovered_job now job)
unfolding recovered_job
recovered_job-IsValid now job v stale = ground arith

recover_stale-IsValid :
    (store : JobStore) (now : ℕ) → All IsValid store → All IsValid (recover_stale store now).0
unfolding recover_stale
recover_stale-IsValid [] now h = tt
recover_stale-IsValid (c ∷ store) now h = elim (Bool-cases (is_stale now c)) [
  | inl t ↦ rw t (recovered_job-IsValid now c h.0 t, recover_stale-IsValid store now h.1)
  | inr f ↦ rw f (h.0, recover_stale-IsValid store now h.1)
]

recover_stale-fresh :
    (store : JobStore) (now : ℕ) (id : String)
    → find_job store id ≡ none
    → find_job (recover_stale store now).0 id ≡ none
recover_stale-fresh store now id fresh = rw (find_job-recover_stale store now id, fresh) refl

recover_stale-HasUniqueIds :
    (store : JobStore) (now : ℕ) → HasUniqueIds store → HasUniqueIds (recover_stale store now).0
unfolding recover_stale recovered_job
recover_stale-HasUniqueIds [] now h = tt
recover_stale-HasUniqueIds (c ∷ store) now h =
    let fresh = recover_stale-fresh store now c.id h.0 in
    let rest = recover_stale-HasUniqueIds store now h.1 in
    elim (Bool-cases (is_stale now c)) [
      | inr f ↦ rw f (fresh, rest)
      | inl t ↦ elim (Bool-cases (leb max_attempts c.attempts)) [
        | inl l ↦ rw (t, l) (fresh, rest)
        | inr l ↦ rw (t, l) (fresh, rest)
      ]
    ]

append-HasUniqueIds :
    (store : JobStore) (job : Job)
    → HasUniqueIds store
    → find_job store job.id ≡ none
    → HasUniqueIds (store ++ job ∷ [])
unfolding find_job
append-HasUniqueIds [] job h fresh = (refl, tt)
append-HasUniqueIds (c ∷ store) job h fresh = (
  ground
      (arith, find_job-append store job c.id, eq_iff c.id job.id, eq_iff job.id c.id, h.0, fresh),
  append-HasUniqueIds store job h.1 (ground (arith, fresh)),
)

enqueue-IsWellFormed :
    (store : JobStore) (options : EnqueueOptions)
    → IsWellFormed store
    → IsWellFormed (written store (enqueue store options))
enqueue-IsWellFormed store options h = enqueue_cases IsWellFormed store options h (λ fresh. record {
  unique = append-HasUniqueIds store (new_job options) h.unique fresh;
  valid = All-append IsValid store (new_job options ∷ []) h.valid (new_job-IsValid, tt);
})
  where
    new_job-IsValid : IsValid (new_job options)
    new_job-IsValid = ground arith

-- Every command keeps the store well-formed, whatever its arguments and the time.
pub perform-IsWellFormed :
    (command : Command) (store : JobStore)
    → IsWellFormed store
    → IsWellFormed (perform command store)
unfolding perform
perform-IsWellFormed (Command.enqueue_job options) store h = enqueue-IsWellFormed store options h
perform-IsWellFormed (Command.claim_job w lease_ms now) store h =
    claim-IsWellFormed store h now w lease_ms
perform-IsWellFormed (Command.heartbeat_job id w lease_ms now) store h =
    heartbeat-IsWellFormed store h id w now lease_ms
perform-IsWellFormed (Command.finish_job id w outcome error now) store h =
    finish-IsWellFormed store h id w now outcome error
perform-IsWellFormed (Command.detach_job id w now) store h = detach-IsWellFormed store h id w now
perform-IsWellFormed (Command.cancel_job id now) store h = cancel-IsWellFormed store h id "" now
perform-IsWellFormed (Command.request_job_approval id w request now) store h =
    request_approval-IsWellFormed store h id w now request
perform-IsWellFormed (Command.resolve_job_approval id decision digest now) store h =
    resolve_approval-IsWellFormed store h id "" now decision digest
perform-IsWellFormed (Command.consume_job_approval id w now) store h =
    consume_approval-IsWellFormed store h id w now
perform-IsWellFormed (Command.list_jobs now) store h = record {
  unique = recover_stale-HasUniqueIds store now h.unique;
  valid = recover_stale-IsValid store now h.valid;
}

-- Any sequence of commands of any processes keeps the store well-formed.
pub run-IsWellFormed :
    (commands : List Command) (store : JobStore)
    → IsWellFormed store
    → IsWellFormed (run commands store)
unfolding run
run-IsWellFormed [] store h = h
run-IsWellFormed (command ∷ commands) store h =
    run-IsWellFormed commands (perform command store) (perform-IsWellFormed command store h)
