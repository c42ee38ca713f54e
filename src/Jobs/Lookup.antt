-- ===== src/Jobs/Lookup.antt =====
-- What the store of jobs.ts answers for an id after each way of changing it, and the invariant that
-- no two jobs have one id.
use circuit_agent.Prelude.{
  ℕ, String, ◌≡◌, refl, ◌≢◌, inl, inr, Bool, true, false, Option, none, some, [], ◌∷◌, ◌++◌, arith,
  if◌then◌else◌, Bool-cases, Option-cases, All, All-filter, All-imp, All-head?-sort, any, ◌==◌,
  eq_iff,
}
use text.Mathlib.TextPositions.{eq_refl}
use circuit_agent.Jobs.{Job, JobStore, replace, find_job, claimable, next_candidate}
use circuit_agent.Jobs.Lifecycle.{is_stale, recovered_job, recover_stale}

-- The job at an id that is looked up is the replacement, if there was one.
abbrev pub instead : Option Job → Job → Option Job
instead none job = none
instead (some _) job = some job

pub find_job-replace :
    (store : JobStore) (job : Job) (id : String)
    → find_job (replace store job) id
      ≡ (if job.id == id then instead (find_job store id) job else find_job store id)
unfolding find_job replace
find_job-replace [] job id = ground arith
find_job-replace (c ∷ store) job id =
    ground
      (arith, find_job-replace store job id, eq_iff c.id job.id, eq_iff c.id id, eq_iff job.id id)

-- A job that was found, put back changed, is what is found at its id.
pub find_job-replace_self :
    (store : JobStore) (job new : Job)
    → find_job store job.id ≡ some job
    → new.id ≡ job.id
    → find_job (replace store new) job.id ≡ some new
find_job-replace_self store job new found same =
    ground (arith, find_job-replace store new job.id, eq_iff new.id job.id, found, same)

pub find_job-replace_ne :
    (store : JobStore) (new : Job) (id : String)
    → new.id ≢ id
    → find_job (replace store new) id ≡ find_job store id
find_job-replace_ne store new id ne =
    ground (arith, find_job-replace store new id, eq_iff new.id id)

pub find_job-append :
    (store : JobStore) (job : Job) (id : String)
    → find_job store job.id ≡ none
    → find_job (store ++ job ∷ []) id ≡ (if job.id == id then some job else find_job store id)
unfolding find_job
find_job-append [] job id fresh = refl
find_job-append (c ∷ store) job id fresh =
    ground
      (arith, find_job-append store job id, eq_iff c.id job.id, eq_iff c.id id, eq_iff job.id id)

-- The sweep's effect on one job.
abbrev pub swept : ℕ → Job → Job
swept now job = if is_stale now job then recovered_job now job else job

abbrev pub swept_at : ℕ → Option Job → Option Job
swept_at now none = none
swept_at now (some job) = some (swept now job)

recovered_job_id : (now : ℕ) (job : Job) → (recovered_job now job).id ≡ job.id
unfolding recovered_job
recovered_job_id now job = ground arith

pub find_job-recover_stale :
    (store : JobStore) (now : ℕ) (id : String)
    → find_job (recover_stale store now).0 id ≡ swept_at now (find_job store id)
unfolding find_job recover_stale
find_job-recover_stale [] now id = refl
find_job-recover_stale (c ∷ store) now id = elim (Bool-cases (is_stale now c)) [
  | inl t ↦
      rw (t, recovered_job_id now c)
        (elim (Bool-cases (c.id == id)) [
          | inl e ↦ rw (e, t) refl
          | inr e ↦ rw e (find_job-recover_stale store now id)
        ])
  | inr f ↦ rw f (elim (Bool-cases (c.id == id)) [
    | inl e ↦ rw (e, f) refl
    | inr e ↦ rw e (find_job-recover_stale store now id)
  ])
]

pub find_job_id :
    (store : JobStore) (id : String) (job : Job) → find_job store id ≡ some job → job.id ≡ id
unfolding find_job
find_job_id [] id job found = cc
find_job_id (c ∷ store) id job found = ground (arith, find_job_id store id job, eq_iff c.id id)

-- `store.jobs.some((job) => job.id === id)` is the test that the id is taken.
pub find_job-eq-none_of_any :
    (store : JobStore) (id : String)
    → any (λ job. job.id == id) store ≡ false
    → find_job store id ≡ none
unfolding find_job
find_job-eq-none_of_any [] id h = refl
find_job-eq-none_of_any (c ∷ store) id h = ground (arith, find_job-eq-none_of_any store id)

abbrev pub HasUniqueIds : JobStore → Type 0
HasUniqueIds [] = Unit
HasUniqueIds (job ∷ store) = (find_job store job.id ≡ none) × HasUniqueIds store

-- Each job of such a store is the one found at its id.
pub All-found :
    (store : JobStore) → HasUniqueIds store → All (λ job. find_job store job.id ≡ some job) store
unfolding find_job
All-found [] h = tt
All-found (c ∷ store) (fresh, rest) = (
  rw (eq_refl c.id),
  All-imp (λ job. find_job store job.id ≡ some job) store
      (λ job found. ground (arith, eq_iff c.id job.id, ap_find c job)) (All-found store rest),
)
  where
    ap_find : (a b : Job) → a.id ≡ b.id → find_job store a.id ≡ find_job store b.id
    ap_find a b e = rw e

pub next_candidate-found :
    (store : JobStore) (now : ℕ) (target : Job)
    → HasUniqueIds store
    → next_candidate store now ≡ some target
    → (find_job store target.id ≡ some target) × (claimable now target ≡ true)
unfolding next_candidate
next_candidate-found store now target unique e =
    All-head?-sort _ (λ job. (find_job store job.id ≡ some job) × (claimable now job ≡ true)) _
      target e
      (All-filter (λ job. find_job store job.id ≡ some job) (claimable now) store
        (All-found store unique))

-- The shape of a reducer for one job: where the job is not there or the guard fails, nothing.
abbrev pub guarded : JobStore → String → (Job → Bool) → (Job → Job) → JobStore × Bool
guarded store id guard change = elim (find_job store id) [
  | none ↦ (store, false)
  | some job ↦ if guard job then (replace store (change job), true) else (store, false)
]

-- What such a reducer makes of a store is the store, or has one job that passes the guard changed.
pub guarded_cases {ℓ} :
    (P : JobStore → Type ℓ) (store : JobStore) (id : String) (guard : Job → Bool)
    (change : Job → Job)
    → P store
    → ((job : Job)
        → find_job store id ≡ some job
        → guard job ≡ true
        → P (replace store (change job)))
    → P (guarded store id guard change).0
guarded_cases P store id guard change same step = elim (Option-cases (find_job store id)) [
  | inl e ↦ rw (e, guarded) same
  | inr (job, e) ↦ elim (Bool-cases (guard job)) [
    | inl g ↦ rw (e, guarded, g) (step job e g)
    | inr g ↦ rw (e, guarded, g) same
  ]
]
