-- ===== src/Jobs/Recovery.antt =====
-- jobs.ts after a crash, after a recurring occurrence, and after the end of a job.
use mathlib.Core.List.{Memᴰ}
use circuit_agent.Prelude.{
  ℕ, ◌+◌, ◌*◌, ◌≤◌, ◌<◌, String, ◌≡◌, refl, sym, ◌∙◌, ◌↔◌, ◌⊎◌, ap, inl, inr, true, false, Option,
  none, some, List, [], ◌∷◌, arith, leb, Bool-cases, Option-cases, All, All-imp, ◌==◌,
}
use circuit_agent.Jobs.{
  Job, JobLease, queued, running, paused, failed, max_attempts, JobStore, Cadence, daily, weekly,
  is_terminal, find_job, owned_by, claimable, replace,
}
use circuit_agent.Jobs.Lifecycle.{
  succeeded, finish, finished, requeued, is_stale, recovered_job, recover_stale,
}
use circuit_agent.Jobs.Lookup.{find_job-recover_stale, find_job-replace_self, swept, find_job_id}
use circuit_agent.Jobs.Invariant.{IsWellFormed}
use circuit_agent.Jobs.Commands.{Command, perform, run}
use circuit_agent.Jobs.Evolution.{Evolved-refl, Evolved-trans, Keeps, perform-Keeps}
use circuit_agent.Jobs.WellFormed.{perform-IsWellFormed}

-- A worker holds the job under a lease that is over.
abbrev pub IsAbandoned : ℕ → Job → Type 0
IsAbandoned now job =
    ((job.status ≡ running) ⊎ (job.status ≡ paused))
    × (lease : JobLease) × (job.lease ≡ some lease)
    × (lease.expires_at ≤ now)

is_stale_iff : (now : ℕ) (job : Job) → (is_stale now job ≡ true) ↔ IsAbandoned now job
is_stale_iff now job = (
  (λ stale. elim (Option-cases job.lease) [
    | inl e ↦ absurd (ground (arith, stale, e))
    | inr (lease, e) ↦ (ground (arith, stale), lease, e, ground (arith, stale, e))
  ]),
  λ (held, lease, e, over). ground (arith, held, e, over),
)

fresh_iff : (now : ℕ) (job : Job) → (is_stale now job ≡ false) ↔ (¬ IsAbandoned now job)
fresh_iff now job = (
  (λ fresh abandoned. cc (fresh, (is_stale_iff now job).1 abandoned)),
  λ free. elim (Bool-cases (is_stale now job)) [
    | inl stale ↦ absurd (free ((is_stale_iff now job).0 stale))
    | inr fresh ↦ fresh
  ],
)

-- What the sweep makes of an abandoned job: it has failed if its attempts are used up, else it is
-- queued, without a lease and without anything that was asked for or decided under the old one.
pub record IsRecovered (old job : Job) : Type 0 where
  pub same_id : job.id ≡ old.id
  pub same_attempts : job.attempts ≡ old.attempts
  pub outcome :
      ((job.status ≡ failed) × (max_attempts ≤ old.attempts))
      ⊎ ((job.status ≡ queued) × (old.attempts < max_attempts))
  pub without_lease : job.lease ≡ none
  pub without_request : job.pending_approval ≡ none
  pub without_decision : job.approval_decision ≡ none
  pub has_reason : (reason : String) × (job.last_error ≡ some reason)

recovered_job-IsRecovered : (now : ℕ) (job : Job) → IsRecovered job (recovered_job now job)
unfolding recovered_job
recovered_job-IsRecovered now job = elim (Bool-cases (leb max_attempts job.attempts)) [
  | inl used ↦ rw used (record {
    same_id = refl;
    same_attempts = refl;
    outcome = inl (refl, ground (arith, used));
    without_lease = refl;
    without_request = refl;
    without_decision = refl;
    has_reason = (_, refl);
  })
  | inr left ↦ rw left (record {
    same_id = refl;
    same_attempts = refl;
    outcome = inr (refl, ground (arith, left));
    without_lease = refl;
    without_request = refl;
    without_decision = refl;
    has_reason = (_, refl);
  })
]

swept-fresh : (now : ℕ) (job : Job) → is_stale now (swept now job) ≡ false
unfolding recovered_job
swept-fresh now job = ground arith

-- A reported job is what the sweep made of an abandoned job of the store.
abbrev pub ComesFrom : JobStore → ℕ → Job → Type 0
ComesFrom store now job' = (job : Job) × Memᴰ job store × IsAbandoned now job × IsRecovered job job'

reported-ComesFrom :
    (store : JobStore) (now : ℕ) → All (ComesFrom store now) (recover_stale store now).1
unfolding recover_stale
reported-ComesFrom [] now = tt
reported-ComesFrom (c ∷ store) now =
    let rest =
      All-imp (ComesFrom store now) (recover_stale store now).1
        (λ job' from.
          let (job, listed, abandoned, recovered) = from in
          (job, Memᴰ.tail listed, abandoned, recovered))
        (reported-ComesFrom store now) in
    elim (Bool-cases (is_stale now c)) [
      | inl t ↦
          rw t
            ((c, Memᴰ.head refl, (is_stale_iff now c).0 t, recovered_job-IsRecovered now c), rest)
      | inr f ↦ rw f rest
    ]

stale-reported :
    (store : JobStore) (now : ℕ) (id : String) (job : Job)
    → find_job store id ≡ some job
    → is_stale now job ≡ true
    → Memᴰ (recovered_job now job) (recover_stale store now).1
unfolding recover_stale find_job
stale-reported [] now id job found stale = cc
stale-reported (c ∷ store) now id job found stale = elim (Bool-cases (c.id == id)) [
  | inl e ↦
      let same : c ≡ job = cc (rw e at found) in
      rw (ap (is_stale now) same ∙ stale) (Memᴰ.head (ap (recovered_job now) (sym same)))
  | inr e ↦
      let rest = stale-reported store now id job (rw e at found) stale in
      elim (Bool-cases (is_stale now c)) [ inl t ↦ rw t (Memᴰ.tail rest) | inr f ↦ rw f rest ]
]

-- After the sweep no job that is found is held under a lease that is over, and a job that was not
-- abandoned is as it was. A job that was is found failed, if its attempts are used up, or else
-- queued, with its attempts, no lease, no request and no decision, and is in the report; and the
-- report has only such jobs.
pub recover_stale_lem :
    (store : JobStore) (now : ℕ)
    → ((id : String) (job : Job)
        → find_job (recover_stale store now).0 id ≡ some job
        → ¬ IsAbandoned now job)
      × ((id : String) (job : Job)
          → find_job store id ≡ some job
          → ¬ IsAbandoned now job
          → find_job (recover_stale store now).0 id ≡ some job)
      × ((id : String) (job : Job)
          → find_job store id ≡ some job
          → IsAbandoned now job
          → (job' : Job) × (find_job (recover_stale store now).0 id ≡ some job')
            × IsRecovered job job'
            × Memᴰ job' (recover_stale store now).1)
      × All (ComesFrom store now) (recover_stale store now).1
recover_stale_lem store now = (
  (λ id job found. elim (Option-cases (find_job store id)) [
    | inl e ↦ absurd (cc (find_job-recover_stale store now id, e))
    | inr (old, e) ↦
        let same : swept now old ≡ job = cc (find_job-recover_stale store now id, e) in
        (fresh_iff now job).0 (rw (← same) (swept-fresh now old))
  ]),
  (λ id job found free.
      rw (find_job-recover_stale store now id, found) (rw ((fresh_iff now job).1 free) refl)),
  (λ id job found abandoned.
      let stale = (is_stale_iff now job).1 abandoned in
      (
        recovered_job now job,
        rw (find_job-recover_stale store now id, found) (rw stale refl),
        recovered_job-IsRecovered now job,
        stale-reported store now id job found stale,
      )),
  reported-ComesFrom store now,
)

finish_owner :
    (store : JobStore) (id worker_id : String) (now : ℕ) (error : Option String) (job : Job)
    → find_job store id ≡ some job
    → owned_by job worker_id now ≡ true
    → finish store id worker_id succeeded now error
      ≡ (replace store (finished now succeeded error job.cadence job), true)
unfolding finish
finish_owner store id worker_id now error job found owned = rw (found, finish, owned) refl

finished-requeued :
    (now : ℕ) (error : Option String) (job : Job) (cadence : Cadence)
    → job.cadence ≡ some cadence
    → finished now succeeded error job.cadence job ≡ requeued now cadence job
unfolding finished
finished-requeued now error job cadence recurs = ap (λ c. finished now succeeded error c job) recurs

-- The days from one occurrence to the next.
abbrev pub days : Cadence → ℕ
days daily = 1
days weekly = 7

-- The job waits for its next occurrence, `days` of 86,400,000 milliseconds after `now`, with none of
-- its attempts used.
pub record IsWaiting (now : ℕ) (cadence : Cadence) (job : Job) : Type 0 where
  pub is_queued : job.status ≡ queued
  pub unused : job.attempts ≡ 0
  pub without_lease : job.lease ≡ none
  pub without_error : job.last_error ≡ none
  pub due : job.next_run_at ≡ some (now + days cadence * 86_400_000)
  pub open_iff :
      (later : ℕ) → (claimable later job ≡ true) ↔ (now + days cadence * 86_400_000 ≤ later)

requeued-IsWaiting :
    (now : ℕ) (cadence : Cadence) (job : Job) → IsWaiting now cadence (requeued now cadence job)
unfolding claimable
requeued-IsWaiting now daily job = record {
  is_queued = refl;
  unused = refl;
  without_lease = refl;
  without_error = refl;
  due = refl;
  open_iff = λ later. ground arith;
}
requeued-IsWaiting now weekly job = record {
  is_queued = refl;
  unused = refl;
  without_lease = refl;
  without_error = refl;
  due = refl;
  open_iff = λ later. ground arith;
}

-- When its owner completes a recurring job, the call succeeds and the job found at its id is queued
-- with no attempt used, no lease and no error; it can be claimed one or seven days later, as its
-- cadence says, and not before.
pub finish-recurs :
    (store : JobStore) (id worker_id : String) (now : ℕ) (error : Option String) (job : Job)
    (cadence : Cadence)
    → find_job store id ≡ some job
    → owned_by job worker_id now ≡ true
    → job.cadence ≡ some cadence
    → ((finish store id worker_id succeeded now error).1 ≡ true)
      × (job' : Job) × (find_job (finish store id worker_id succeeded now error).0 id ≡ some job')
      × IsWaiting now cadence job'
finish-recurs store id worker_id now error job cadence found owned recurs =
    let named : job.id ≡ id = find_job_id store id job found in
    let there : find_job store job.id ≡ some job = cc (found, named) in
    let after = find_job-replace_self store job (requeued now cadence job) there refl in
    let reply = finish_owner store id worker_id now error job found owned in
    let change = finished-requeued now error job cadence recurs in
    (
      ap (λ r. r.1) reply,
      requeued now cadence job,
      cc (ap (λ r. find_job r.0 id) reply, change, after, named),
      requeued-IsWaiting now cadence job,
    )

run-Keeps :
    (commands : List Command) (store : JobStore)
    → IsWellFormed store
    → Keeps store (run commands store)
unfolding run
run-Keeps [] store h = record { kept = λ id job found. (job, found, Evolved-refl job) }
run-Keeps (command ∷ commands) store h = record {
  kept = λ id job found.
      let (job', found', first) = (perform-Keeps command store h.unique).kept id job found in
      let (job'', found'', rest) =
        (run-Keeps commands (perform command store) (perform-IsWellFormed command store h)).kept id
          job' found' in
      (job'', found'', Evolved-trans first rest);
}

-- A job is never lost, and a completed, failed or cancelled one keeps that status, over any
-- sequence of commands.
pub run-terminal :
    (commands : List Command) (store : JobStore) (id : String) (job : Job)
    → IsWellFormed store
    → find_job store id ≡ some job
    → (job' : Job) × (find_job (run commands store) id ≡ some job')
      × (is_terminal job.status ≡ true → job'.status ≡ job.status)
run-terminal commands store id job h found =
    let (job', found', evolved) = (run-Keeps commands store h).kept id job found in
    (job', found', evolved.terminal_kept)
