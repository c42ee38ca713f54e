-- ===== src/Jobs/Leases.antt =====
-- Leases in jobs.ts: who may take a job, who may act on it, and what happens to abandoned ones.
use circuit_agent.Prelude.{
  ℕ, ◌+◌, ◌≤◌, String, ◌≡◌, ◌↔◌, refl, ◌≢◌, ap, sym, subst, inl, inr, ◌⊎◌, Bool, true, false,
  Option, none, some, List, [], ◌∷◌, arith, ltb, Bool-cases, Option-cases, All, All-of_filter,
  filter, head?, sort, head?-sort_least, All-of_sort, ok, eq_iff,
}
use circuit_agent.Jobs.{
  failed, Job, JobStore, ApprovalRequest, max_attempts, find_job, replace, owned_by, claimable,
  next_candidate, exhausted, claimed, claim,
}
use circuit_agent.Jobs.Lifecycle.{Outcome, heartbeat, finish, detach}
use circuit_agent.Jobs.Approvals.{request_approval, consume_approval}
use circuit_agent.Jobs.Lookup.{find_job-replace_self, find_job-replace_ne, next_candidate-found}
use circuit_agent.Jobs.Invariant.{IsValid, IsWellFormed, found-IsValid}
use circuit_agent.Jobs.Cases.{claim_cases}

-- No claimable job is older.
abbrev pub IsOldest : JobStore → ℕ → Job → Type 0
IsOldest store now job =
    All (λ other. claimable now other ≡ true → job.created_at ≤ other.created_at) store

next_candidate-IsOldest :
    (store : JobStore) (now : ℕ) (target : Job)
    → next_candidate store now ≡ some target
    → IsOldest store now target
unfolding next_candidate
next_candidate-IsOldest store now target e =
    All-of_filter (λ other. target.created_at ≤ other.created_at) (claimable now) store
      (head?-sort_least (λ job. job.created_at) (filter (claimable now) store) target e)

free_of_claimable :
    (job : Job) (worker_id : String) (now : ℕ)
    → claimable now job ≡ true
    → owned_by job worker_id now ≡ false
unfolding claimable owned_by
free_of_claimable job worker_id now h = ground arith

-- What a worker that gets `job` from `claim` knows.
pub record IsClaim (store store' : JobStore) (worker_id : String) (now lease_ms : ℕ) (job : Job)
    : Type 0 where
  pub before : Job
  pub was_there : find_job store job.id ≡ some before
  pub was_free : (other : String) → owned_by before other now ≡ false
  pub was_oldest : IsOldest store now before
  pub is_there : find_job store' job.id ≡ some job
  pub is_claimed : job ≡ claimed worker_id now lease_ms before
  pub attempt : job.attempts ≤ max_attempts

claimed-IsClaim :
    (store : JobStore) (worker_id : String) (now lease_ms : ℕ) (target : Job)
    → IsWellFormed store
    → next_candidate store now ≡ some target
    → ltb max_attempts (target.attempts + 1) ≡ false
    → IsClaim store
        (replace store (claimed worker_id now lease_ms target))
        worker_id
        now
        lease_ms
        (claimed worker_id now lease_ms target)
claimed-IsClaim store worker_id now lease_ms target h next able =
    let (found, due) = next_candidate-found store now target h.unique next in
    record {
      before = target;
      was_there = found;
      was_free = λ other. free_of_claimable target other now due;
      was_oldest = next_candidate-IsOldest store now target next;
      is_there =
          find_job-replace_self store target (claimed worker_id now lease_ms target) found refl;
      is_claimed = refl;
      attempt = ground arith;
    }

claim_reply :
    (store : JobStore) (worker_id : String) (now lease_ms : ℕ) (job : Job)
    → IsWellFormed store
    → (claim store worker_id now lease_ms).1 ≡ some job
    → IsClaim store (claim store worker_id now lease_ms).0 worker_id now lease_ms job
claim_reply store worker_id now lease_ms job h =
    claim_cases (λ reply. reply.1 ≡ some job → IsClaim store reply.0 worker_id now lease_ms job)
      store worker_id now lease_ms (λ e. cc) (λ target next spent e. cc)
      (λ target next able e.
        subst
          (IsClaim store (replace store (claimed worker_id now lease_ms target)) worker_id now
            lease_ms)
          (cc e) (claimed-IsClaim store worker_id now lease_ms target h next able))

-- A worker gets the oldest claimable job, which no worker owned at that time; it is its attempt
-- within the cap, and the store has the job under its lease.
pub claim-IsClaim :
    (store store' : JobStore) (worker_id : String) (now lease_ms : ℕ) (job : Job)
    → IsWellFormed store
    → claim store worker_id now lease_ms ≡ (store', some job)
    → IsClaim store store' worker_id now lease_ms job
claim-IsClaim store store' worker_id now lease_ms job h e =
    subst (λ s. IsClaim store s worker_id now lease_ms job) (ap (λ r. r.0) e)
      (claim_reply store worker_id now lease_ms job h (ap (λ r. r.1) e))

-- The five operations of the owner, called by a worker that does not own the job, change nothing.
pub record IsRefused (store : JobStore) (id worker_id : String) (now : ℕ) : Type 0 where
  pub heartbeat_refused :
      (lease_ms : ℕ) → heartbeat store id worker_id now lease_ms ≡ (store, false)
  pub finish_refused :
      (outcome : Outcome) (error : Option String)
      → finish store id worker_id outcome now error ≡ (store, false)
  pub detach_refused : detach store id worker_id now ≡ (store, false)
  pub request_refused :
      (request : ApprovalRequest)
      → request_approval store id worker_id request now ≡ ok (store, false)
  pub consume_refused : consume_approval store id worker_id now ≡ (store, none)

not_owner-IsRefused :
    (store : JobStore) (id worker_id : String) (now : ℕ) (job : Job)
    → find_job store id ≡ some job
    → owned_by job worker_id now ≡ false
    → IsRefused store id worker_id now
unfolding heartbeat finish detach request_approval consume_approval
not_owner-IsRefused store id worker_id now job e o = record {
  heartbeat_refused = λ lease_ms. rw (e, heartbeat, o) refl;
  finish_refused = λ outcome error. rw (e, finish, o) refl;
  detach_refused = rw (e, detach, o) refl;
  request_refused = λ request. rw (e, request_approval, o) refl;
  consume_refused = rw (e, consume_approval, o) refl;
}

other_worker :
    (job : Job) (worker_id other : String) (now later lease_ms : ℕ)
    → other ≢ worker_id
    → owned_by (claimed worker_id now lease_ms job) other later ≡ false
unfolding owned_by
other_worker job worker_id other now later lease_ms ne = ground (arith, eq_iff worker_id other)

claimed-claimable :
    (job : Job) (worker_id : String) (now later lease_ms : ℕ)
    → (claimable later (claimed worker_id now lease_ms job) ≡ true) ↔ (now + lease_ms ≤ later)
unfolding claimable
claimed-claimable job worker_id now later lease_ms = ground arith

-- On the store that a claim returns, a heartbeat, a finish, a detach, a request for an approval and
-- the consumption of one change nothing when any other worker calls them on the job, at any time. The
-- claimed job is open to the next claim from the expiry of the new lease on and not before.
pub claim-IsRefused :
    (store store' : JobStore) (worker_id other : String) (now later lease_ms : ℕ) (job : Job)
    → IsWellFormed store
    → claim store worker_id now lease_ms ≡ (store', some job)
    → other ≢ worker_id
    → IsRefused store' job.id other later
      × ((claimable later job ≡ true) ↔ (now + lease_ms ≤ later))
claim-IsRefused store store' worker_id other now later lease_ms job h e ne =
    let c = claim-IsClaim store store' worker_id now lease_ms job h e in
    (
      not_owner-IsRefused store' job.id other later job c.is_there
          (rw c.is_claimed (other_worker c.before worker_id other now later lease_ms ne)),
      rw c.is_claimed (claimed-claimable c.before worker_id now later lease_ms),
    )

not_claimable :
    (store : JobStore) (now : ℕ)
    → filter (claimable now) store ≡ []
    → All (λ job. claimable now job ≡ false) store
not_claimable [] now e = tt
not_claimable (c ∷ store) now e = elim (Bool-cases (claimable now c)) [
  | inl t ↦ cc (rw t at e)
  | inr f ↦ (f, not_claimable store now (rw f at e))
]

module _ {ℓ} {A : Type ℓ} where
  none-All : (ys : List A) → head? ys ≡ none → All (λ x. ⊥) ys
  none-All [] e = tt
  none-All (y ∷ ys) e = cc

  nil_of_absurd : (ys : List A) → All (λ x. ⊥) ys → ys ≡ []
  nil_of_absurd [] h = refl
  nil_of_absurd (y ∷ ys) h = absurd h.0

  head?-sort-eq-none :
      (before : A → A → Bool) (xs : List A) → head? (sort before xs) ≡ none → xs ≡ []
  head?-sort-eq-none before xs e =
      nil_of_absurd xs (All-of_sort before (λ x. ⊥) xs (none-All (sort before xs) e))

next_candidate-eq-none :
    (store : JobStore) (now : ℕ)
    → next_candidate store now ≡ none
    → All (λ job. claimable now job ≡ false) store
unfolding next_candidate
next_candidate-eq-none store now e =
    not_claimable store now (head?-sort-eq-none _ (filter (claimable now) store) e)

-- The job has failed for good and every other job is as it was.
pub record IsRetired (store store' : JobStore) (job : Job) : Type 0 where
  pub after : Job
  pub is_there : find_job store' job.id ≡ some after
  pub has_failed : after.status ≡ failed
  pub without_lease : after.lease ≡ none
  pub has_reason : (reason : String) × (after.last_error ≡ some reason)
  pub same_attempts : after.attempts ≡ job.attempts
  pub others_kept : (id : String) → job.id ≢ id → find_job store' id ≡ find_job store id

exhausted-IsRetired :
    (store : JobStore) (now : ℕ) (job : Job)
    → find_job store job.id ≡ some job
    → IsRetired store (replace store (exhausted now job)) job
exhausted-IsRetired store now job found = record {
  after = exhausted now job;
  is_there = find_job-replace_self store job (exhausted now job) found refl;
  has_failed = refl;
  without_lease = refl;
  has_reason = (_, refl);
  same_attempts = refl;
  others_kept = λ id ne. find_job-replace_ne store (exhausted now job) id ne;
}

-- The oldest claimable job of `store` has used up its attempts and is retired in `store'`.
pub record IsSpent (store store' : JobStore) (now : ℕ) : Type 0 where
  pub job : Job
  pub stored : find_job store job.id ≡ some job
  pub due : claimable now job ≡ true
  pub oldest : IsOldest store now job
  pub used_up : job.attempts ≡ max_attempts
  pub retired : IsRetired store store' job

next_candidate-IsSpent :
    (store : JobStore) (now : ℕ) (target : Job)
    → IsWellFormed store
    → next_candidate store now ≡ some target
    → ltb max_attempts (target.attempts + 1) ≡ true
    → IsSpent store (replace store (exhausted now target)) now
next_candidate-IsSpent store now target h next spent =
    let (found, due) = next_candidate-found store now target h.unique next in
    let v : IsValid target = found-IsValid store target.id target h found in
    record {
      job = target;
      stored = found;
      due = due;
      oldest = next_candidate-IsOldest store now target next;
      used_up = ground arith;
      retired = exhausted-IsRetired store now target found;
    }

-- A claim comes back with no job in two cases only: no job is claimable, or the oldest claimable
-- job has used up its attempts and is retired: it has failed, without a lease and with a reason, and
-- every other job is as it was, also those that wait behind it.
pub claim-eq-none :
    (store store' : JobStore) (worker_id : String) (now lease_ms : ℕ)
    → IsWellFormed store
    → claim store worker_id now lease_ms ≡ (store', none)
    → (All (λ job. claimable now job ≡ false) store × (store' ≡ store)) ⊎ IsSpent store store' now
claim-eq-none store store' worker_id now lease_ms h e =
    elim (Option-cases (next_candidate store now)) [
      | inl no_job ↦ inl (next_candidate-eq-none store now no_job, idle_store no_job)
      | inr (target, next) ↦ elim (Bool-cases (ltb max_attempts (target.attempts + 1))) [
        | inl spent ↦ inr (
            subst (λ s. IsSpent store s now) (spent_store target next spent)
              (next_candidate-IsSpent store now target h next spent))
        | inr able ↦ absurd (busy target next able)
      ]
    ]
  where
    idle_store : next_candidate store now ≡ none → store' ≡ store
    idle_store no_job =
        unfold claim in
        let r : ◌≡◌ {A = JobStore × Option Job} (store, none) (store', none) =
          rw (no_job, claim) at e in
        sym (ap (λ p. p.0) r)

    spent_store :
        (target : Job)
        → next_candidate store now ≡ some target
        → ltb max_attempts (target.attempts + 1) ≡ true
        → replace store (exhausted now target) ≡ store'
    spent_store target next spent =
        unfold claim in
        let r : ◌≡◌ {A = JobStore × Option Job} (replace store (exhausted now target), none)
            (store', none) =
          rw (next, claim, spent) at e in
        ap (λ p. p.0) r

    busy :
        (target : Job)
        → next_candidate store now ≡ some target
        → ltb max_attempts (target.attempts + 1) ≡ false
        → ⊥
    busy target next able =
        unfold claim in
        let r : some (claimed worker_id now lease_ms target) ≡ none =
          rw (next, claim, able) at (ap (λ p. p.1) e) in
        cc r
