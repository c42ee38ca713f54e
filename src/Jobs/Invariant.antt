-- ===== src/Jobs/Invariant.antt =====
-- The well-formedness invariant of the store of jobs.ts, for each way of changing it.
use circuit_agent.Prelude.{
  ◌≤◌, ◌<◌, String, ◌≡◌, inl, inr, Bool, true, false, none, some, [], ◌∷◌, arith, is_some,
  Bool-cases, All, ◌==◌, eq_iff,
}
use circuit_agent.Jobs.{Job, JobStore, JobStatus, paused, max_attempts, is_held, replace, find_job}
use circuit_agent.Jobs.Lookup.{find_job-replace, HasUniqueIds}

abbrev pub is_paused : JobStatus → Bool
is_paused paused = true
is_paused _ = false

-- Attempts are capped; a lease is there exactly while a worker has the job; who has it has claimed
-- it; and a paused job has a question.
pub record IsValid (job : Job) : Type 0 where
  pub capped : job.attempts ≤ max_attempts
  pub leased : is_some job.lease ≡ is_held job.status
  pub started : is_held job.status ≡ true → 0 < job.attempts
  pub asking : is_paused job.status ≡ true → is_some job.pending_approval ≡ true

pub record IsWellFormed (store : JobStore) : Type 0 where
  pub unique : HasUniqueIds store
  pub valid : All IsValid store

find_job-IsValid :
    (store : JobStore) (id : String) (job : Job)
    → All IsValid store
    → find_job store id ≡ some job
    → IsValid job
unfolding find_job
find_job-IsValid [] id job h found = cc
find_job-IsValid (c ∷ store) id job h found = elim (Bool-cases (c.id == id)) [
  | inl e ↦ let same : c ≡ job = cc (rw e at found) in rw (← same) h.0
  | inr e ↦ find_job-IsValid store id job h.1 (rw e at found)
]

All-replace :
    (store : JobStore) (new : Job)
    → All IsValid store
    → IsValid new
    → All IsValid (replace store new)
unfolding replace
All-replace [] new h v = tt
All-replace (c ∷ store) new h v = elim (Bool-cases (c.id == new.id)) [
  | inl e ↦ rw e (v, All-replace store new h.1 v)
  | inr e ↦ rw e (h.0, All-replace store new h.1 v)
]

fresh-replace :
    (store : JobStore) (new : Job) (id : String)
    → find_job store id ≡ none
    → find_job (replace store new) id ≡ none
fresh-replace store new id fresh = ground (arith, find_job-replace store new id)

replace-HasUniqueIds :
    (store : JobStore) (new : Job) → HasUniqueIds store → HasUniqueIds (replace store new)
unfolding replace
replace-HasUniqueIds [] new h = tt
replace-HasUniqueIds (c ∷ store) new h = elim (Bool-cases (c.id == new.id)) [
  | inl e ↦
      let same : c.id ≡ new.id = (eq_iff c.id new.id).0 e in
      rw e (fresh-replace store new new.id (rw same at h.0), replace-HasUniqueIds store new h.1)
  | inr e ↦ rw e (fresh-replace store new c.id h.0, replace-HasUniqueIds store new h.1)
]

pub replace-IsWellFormed :
    (store : JobStore) (new : Job)
    → IsWellFormed store
    → IsValid new
    → IsWellFormed (replace store new)
replace-IsWellFormed store new h v = record {
  unique = replace-HasUniqueIds store new h.unique;
  valid = All-replace store new h.valid v;
}

pub found-IsValid :
    (store : JobStore) (id : String) (job : Job)
    → IsWellFormed store
    → find_job store id ≡ some job
    → IsValid job
found-IsValid store id job h found = find_job-IsValid store id job h.valid found
