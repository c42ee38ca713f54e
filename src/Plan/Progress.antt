-- ===== src/Plan/Progress.antt =====
-- An accepted plan of apps/web/lib/agent-orchestration.ts never stalls on its own dependencies.
use mathlib.Core.List.{Memᴰ}
use circuit_agent.Prelude.{
  ◌-◌, ◌<◌, String, ◌≡◌, refl, sym, subst, ◌⊎◌, inl, inr, Bool, true, false, some, List, [], ◌∷◌,
  arith, Bool-cases, Option-cases, length, take, filter, all, includes, All, All-imp, All-get,
  All-Memᴰ, length-map, length-take, ◌==◌, eq_iff,
}
use text.Mathlib.TextPositions.{eq_refl}
use circuit_agent.Plan.{
  AgentStep, AgentRunPlan, is_pending, is_completed, ids_where, is_ready, as_ready, active_count,
  schedule_ready_steps,
}
use circuit_agent.Plan.Validate.{step_ids, find_last, dependencies_in, validate_task_graph}
use circuit_agent.Plan.Acyclic.{IsOrdered}
use circuit_agent.Plan.Accepted.{IsSound, validate_task_graph-IsSound}

-- No step runs, waits for a person, or has stopped short.
abbrev pub IsQuiet : List AgentStep → Type 0
IsQuiet steps = All (λ s. (is_pending s.status ≡ true) ⊎ (is_completed s.status ≡ true)) steps

record Ready (steps : List AgentStep) : Type 0 where
  step : AgentStep
  listed : Memᴰ step steps
  ready : is_ready (ids_where is_completed steps) step ≡ true

abbrev DoneIn : List AgentStep → List String → Type 0
DoneIn steps ids = All (λ s. includes ids s.id ≡ true → is_completed s.status ≡ true) steps

record Listed (steps : List AgentStep) (id : String) : Type 0 where
  step : AgentStep
  listed : Memᴰ step steps
  named : step.id ≡ id

includes-step_ids :
    (steps : List AgentStep) (id : String) → includes (step_ids steps) id ≡ true → Listed steps id
includes-step_ids [] id h = cc
includes-step_ids (step ∷ steps) id h = elim (Bool-cases (step.id == id)) [
  | inl same ↦ record { step = step; listed = Memᴰ.head refl; named = (eq_iff step.id id).0 same }
  | inr other ↦
      let later = includes-step_ids steps id (ground (arith, h, other)) in
      record { step = later.step; listed = Memᴰ.tail later.listed; named = later.named }
]

find_last-listed :
    (steps : List AgentStep) (id : String) (step : AgentStep)
    → find_last id steps ≡ some step
    → Memᴰ step steps
unfolding find_last
find_last-listed [] id step h = cc
find_last-listed (s ∷ steps) id step h = elim (Option-cases (find_last id steps)) [
  | inr (later, e) ↦
      let same : later ≡ step = cc (rw e at h) in
      Memᴰ.tail (find_last-listed steps id step (cc (e, same)))
  | inl e ↦ elim (Bool-cases (s.id == id)) [
    | inl t ↦ let same : s ≡ step = cc (rw (e, t) at h) in Memᴰ.head (sym same)
    | inr f ↦ cc (rw (e, f) at h)
  ]
]

completed-included :
    (steps : List AgentStep) (step : AgentStep)
    → Memᴰ step steps
    → is_completed step.status ≡ true
    → includes (ids_where is_completed steps) step.id ≡ true
completed-included [] step m done = elim m [ ]
completed-included (s ∷ steps) step (Memᴰ.head e) done =
    subst (λ x. includes (ids_where is_completed (s ∷ steps)) x.id ≡ true) (sym e)
      (let there : is_completed s.status ≡ true = rw e at done in
        rw there (ground (arith, eq_refl s.id)))
completed-included (s ∷ steps) step (Memᴰ.tail m) done =
    ground (arith, completed-included steps step m done)

all_of_All : (p : String → Bool) (xs : List String) → All (λ x. p x ≡ true) xs → all p xs ≡ true
all_of_All p [] h = refl
all_of_All p (x ∷ xs) h = rw h.0 (all_of_All p xs h.1)

module _ (plan : AgentRunPlan) (sound : IsSound plan) (quiet : IsQuiet plan.steps) where
  waiting-Ready :
      (rest : List String) (step : AgentStep)
      → Memᴰ step plan.steps
      → is_pending step.status ≡ true
      → All (λ d. includes (step_ids plan.steps) d ≡ true → includes rest d ≡ true) step.depends_on
      → DoneIn plan.steps rest
      → Ready plan.steps
  unfolding is_ready
  waiting-Ready rest step listed waiting after done = record {
    step = step;
    listed = listed;
    ready = rw waiting (
        all_of_All (includes (ids_where is_completed plan.steps)) step.depends_on
          (dependencies_done step.depends_on after (All-get _ step plan.steps listed sound.known)));
  }
    where
      dependency_done :
          (d : String)
          → includes (step_ids plan.steps) d ≡ true
          → includes rest d ≡ true
          → includes (ids_where is_completed plan.steps) d ≡ true
      dependency_done d known earlier =
          let s = includes-step_ids plan.steps d known in
          subst (λ id. includes (ids_where is_completed plan.steps) id ≡ true) s.named
            (completed-included plan.steps s.step s.listed (
              All-get _ s.step plan.steps s.listed done
                (subst (λ id. includes rest id ≡ true) (sym s.named) earlier)))

      dependencies_done :
          (ds : List String)
          → All (λ d. includes (step_ids plan.steps) d ≡ true → includes rest d ≡ true) ds
          → All (λ d. includes (step_ids plan.steps) d ≡ true) ds
          → All (λ d. includes (ids_where is_completed plan.steps) d ≡ true) ds
      dependencies_done [] a k = tt
      dependencies_done (d ∷ ds) a k =
          (dependency_done d k.0 (a.0 k.0), dependencies_done ds a.1 k.1)

  done-cons :
      (id : String) (rest : List String)
      → ((s : AgentStep) → find_last id plan.steps ≡ some s → is_completed s.status ≡ true)
      → DoneIn plan.steps rest
      → DoneIn plan.steps (id ∷ rest)
  done-cons id rest here done =
      All-imp (λ s. Memᴰ s plan.steps) plan.steps
        (λ s m h. elim (Bool-cases (id == s.id)) [
          | inl same ↦ here s (
              subst (λ i. find_last i plan.steps ≡ some s) (sym ((eq_iff id s.id).0 same))
                (All-get _ s plan.steps m sound.unique))
          | inr other ↦ All-get _ s plan.steps m done (ground (arith, h, other))
        ])
        (All-Memᴰ plan.steps)

  -- Along the order, from its end: all is completed so far, or some step can start.
  done_or_Ready :
      (order : List String)
      → IsOrdered plan.steps order
      → DoneIn plan.steps order ⊎ Ready plan.steps
  done_or_Ready [] ordered = inl (All-imp _ plan.steps (λ s u h. cc) quiet)
  done_or_Ready (id ∷ rest) ordered = elim (done_or_Ready rest ordered.1) [
    | inr ready ↦ inr ready
    | inl done ↦ elim (Option-cases (find_last id plan.steps)) [
      | inl absent ↦ inl (done-cons id rest (λ s found. cc (absent, found)) done)
      | inr (t, found) ↦
          let listed = find_last-listed plan.steps id t found in
          elim (All-get _ t plan.steps listed quiet) [
            | inr completed ↦ inl (
                done-cons id rest
                  (λ s also.
                    let same : t ≡ s = cc (found, also) in
                    subst (λ x. is_completed x.status ≡ true) same completed)
                  done)
            | inl waiting ↦ inr (
                waiting-Ready rest t listed waiting
                  (subst
                    (λ o.
                      All (λ d. includes (step_ids plan.steps) d ≡ true → includes rest d ≡ true)
                        (dependencies_in o))
                    found ordered.0)
                  done)
          ]
    ]
  ]

  some-Ready : all (λ s. is_completed s.status) plan.steps ≡ false → Ready plan.steps
  some-Ready unfinished = elim (done_or_Ready sound.order.order sound.order.ordered) [
    | inr ready ↦ ready
    | inl done ↦ absurd (
        all_done plan.steps
          (All-imp (λ s. Memᴰ s plan.steps) plan.steps
            (λ s m. All-get _ s plan.steps m done (All-get _ s plan.steps m sound.order.complete))
            (All-Memᴰ plan.steps))
          unfinished)
  ]
    where
      all_done :
          (steps : List AgentStep)
          → All (λ s. is_completed s.status ≡ true) steps
          → all (λ s. is_completed s.status) steps ≡ false
          → ⊥
      all_done [] h e = cc
      all_done (s ∷ steps) h e = all_done steps h.1 (ground (arith, h.0, e))

quiet_inactive : (steps : List AgentStep) → IsQuiet steps → active_count steps ≡ 0
unfolding active_count
quiet_inactive [] h = refl
quiet_inactive (s ∷ steps) h = ground (arith, quiet_inactive steps h.1, h.0)

filter-ne-nil :
    (p : AgentStep → Bool) (steps : List AgentStep) (step : AgentStep)
    → Memᴰ step steps
    → p step ≡ true
    → 0 < length (filter p steps)
filter-ne-nil p [] step m t = elim m [ ]
filter-ne-nil p (s ∷ steps) step (Memᴰ.head e) t =
    let here : p s ≡ true = subst (λ x. p x ≡ true) e t in rw here (omega arith)
filter-ne-nil p (s ∷ steps) step (Memᴰ.tail m) t = ground (arith, filter-ne-nil p steps step m t)

-- An accepted plan cannot deadlock: while no step runs, waits for a person or has stopped short, and
-- not all are completed, some step is scheduled.
pub schedule_ready_steps_progress :
    (plan : AgentRunPlan)
    → validate_task_graph plan ≡ []
    → IsQuiet plan.steps
    → all (λ s. is_completed s.status) plan.steps ≡ false
    → 0 < length (schedule_ready_steps plan)
unfolding schedule_ready_steps
schedule_ready_steps_progress plan accepted quiet unfinished =
    let sound = validate_task_graph-IsSound plan accepted in
    let r = some-Ready plan sound quiet unfinished in
    let ready = filter (is_ready (ids_where is_completed plan.steps)) plan.steps in
    let free = plan.max_parallelism - active_count plan.steps in
    omega (
      arith,
      length-map (take free ready) as_ready,
      length-take free ready,
      filter-ne-nil (is_ready (ids_where is_completed plan.steps)) plan.steps r.step r.listed
          r.ready,
      quiet_inactive plan.steps quiet,
      sound.at_least_one,
    )
