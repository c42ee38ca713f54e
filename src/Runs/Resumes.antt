-- ===== src/Runs/Resumes.antt =====
-- apps/web/convex/agentRuns.ts with apps/web/lib/step-resume.ts: how often a step is resumed, over any
-- sequence of mutations.
use circuit_agent.Prelude.{
  ℕ, ◌+◌, ◌≤◌, ◌<◌, ◌≡◌, ◌⊎◌, refl, ap, sym, subst, Bool, true, false, not, ◌&&◌, Option, none,
  some, List, [], ◌∷◌, Bool-cases, inl, inr, nat_eq, All, arith, if◌then◌else◌,
}
use circuit_agent.Plan.{StepStatus}
use circuit_agent.Budget.{max_step_resumes}
use circuit_agent.Runs.{Database, StepRow, step_key_of}
use circuit_agent.Runs.Table.{get, patch, AreDistinct, All-patch, get-patch, All-get_row}
use circuit_agent.Runs.Balance.{IsSound}
use circuit_agent.Runs.Claim.{claimed_step}
use circuit_agent.Runs.Control.{cancel_steps, withdrawn}
use circuit_agent.Runs.Closed.{IsClosed, resumes_of, KeepsResumes}
use circuit_agent.Runs.Soundness.{IsSound-IsClosed}
use circuit_agent.Runs.Commands.{
  Mutation, transact, transact_all, transact-keeps, transact_all-keeps,
}

-- No step was resumed more often than the limit allows.
abbrev pub AreBounded : List StepRow → Type 0
AreBounded steps = All (λ s. resumes_of s ≤ max_step_resumes) steps

abbrev Bounded : Database → Type 0
Bounded db = IsSound db × AreBounded db.steps

patch-AreBounded :
    (h : StepRow → StepRow) (step : StepRow) (steps : List StepRow)
    → get step_key_of step.id steps ≡ some step
    → AreDistinct step_key_of steps
    → KeepsResumes h step
    → AreBounded steps
    → AreBounded (patch step_key_of step.id h steps)
patch-AreBounded h step steps here distinct counted bound =
    All-patch step_key_of (λ s. resumes_of s ≤ max_step_resumes)
      (λ s. resumes_of s ≤ max_step_resumes) step.id h steps step here distinct (λ s other b. b)
      counted.0 bound

withdrawn_resumes :
    (run_id : ℕ) (step : StepRow) → resumes_of (withdrawn run_id step) ≡ resumes_of step
withdrawn_resumes run_id step = ground arith

cancel_steps-AreBounded :
    (run_id : ℕ) (steps : List StepRow) → AreBounded steps → AreBounded (cancel_steps run_id steps)
unfolding cancel_steps
cancel_steps-AreBounded run_id [] bound = tt
cancel_steps-AreBounded run_id (step ∷ steps) (b, bound) = (
  subst (λ n. n ≤ max_step_resumes) (sym (withdrawn_resumes run_id step)) b,
  cancel_steps-AreBounded run_id steps bound,
)

Bounded-IsClosed : IsClosed Bounded
Bounded-IsClosed = record {
  sound = λ db (sound, bound). sound;
  neutral = record {
    on_rest = λ db db' tasks runs steps usage (sound, bound). (
      IsSound-IsClosed.neutral.on_rest db db' tasks runs steps usage sound,
      subst (λ rows. AreBounded rows) (sym steps) bound,
    );
    on_task =
        λ k g db keeps (sound, bound). (IsSound-IsClosed.neutral.on_task k g db keeps sound, bound);
    on_run =
        λ k g db keeps (sound, bound). (IsSound-IsClosed.neutral.on_run k g db keeps sound, bound);
  };
  on_step = λ db step h here keeps counted weighs counts (sound, bound). (
    IsSound-IsClosed.on_step db step h here keeps counted weighs counts sound,
    patch-AreBounded h step db.steps here sound.steps_distinct counted bound,
  );
  on_cancel = λ run_id db (sound, bound).
      (IsSound-IsClosed.on_cancel run_id db sound, cancel_steps-AreBounded run_id db.steps bound);
  on_claim = λ args now run step task db found startable room fits (sound, bound). (
    IsSound-IsClosed.on_claim args now run step task db found startable room fits sound,
    patch-AreBounded (claimed_step args now) step db.steps found.found_step sound.steps_distinct
        ((λ b. b), omega arith, λ e. absurd (cc e)) bound,
  );
  on_release = λ db run step task h found runs over keeps counted covered (sound, bound). (
    IsSound-IsClosed.on_release db run step task h found runs over keeps counted covered sound,
    patch-AreBounded h step db.steps found.found_step sound.steps_distinct counted bound,
  );
  on_settle =
      λ args run step task h db found runs over keeps counted covered within fresh (sound, bound). (
        IsSound-IsClosed.on_settle args run step task h db found runs over keeps counted covered
            within fresh sound,
        patch-AreBounded h step db.steps found.found_step sound.steps_distinct counted bound,
      );
}

-- The row under an id has as many resumes as an old one, and more if only it is ready.
abbrev Advanced : ℕ → StepRow → List StepRow → Type 0
Advanced k old steps =
    (row : StepRow) × (get step_key_of k steps ≡ some row)
    × (resumes_of old ≤ resumes_of row)
    × (row.status ≡ StepStatus.ready
        → (old.status ≡ StepStatus.ready) ⊎ (resumes_of old < resumes_of row))

further_Advanced :
    (old row new : StepRow)
    → resumes_of old ≤ resumes_of row
    → resumes_of row ≤ resumes_of new
    → (row.status ≡ StepStatus.ready
        → (old.status ≡ StepStatus.ready) ⊎ (resumes_of old < resumes_of row))
    → (row.status ≡ StepStatus.ready) ⊎ (resumes_of row < resumes_of new)
    → (old.status ≡ StepStatus.ready) ⊎ (resumes_of old < resumes_of new)
further_Advanced old row new more again before (inl ready) = elim (before ready) [
  | inl was ↦ inl was
  | inr less ↦ inr (omega (arith, less, again))
]
further_Advanced old row new more again before (inr less) = inr (omega (arith, more, less))

patch-Advanced :
    (k : ℕ) (old : StepRow) (h : StepRow → StepRow) (step : StepRow) (steps : List StepRow)
    → get step_key_of step.id steps ≡ some step
    → ((s : StepRow) → (h s).id ≡ s.id)
    → KeepsResumes h step
    → Advanced k old steps
    → Advanced k old (patch step_key_of step.id h steps)
patch-Advanced k old h step steps here keeps counted (row, found, more, before) =
    let got = get-patch step_key_of h keeps k step.id steps row found in
    elim (Bool-cases (nat_eq k step.id)) [
      | inr other ↦ (row, rw other at got, more, before)
      | inl same ↦
          let named : k ≡ step.id = ground (arith, same) in
          let same_row : step ≡ row = cc (found, here, named) in
          let (bound, again, ready) = subst (KeepsResumes h) same_row counted in
          (
            h row,
            rw same at got,
            omega (arith, more, again),
            λ e. further_Advanced old row (h row) more again before (ready e),
          )
    ]

withdrawn_id : (run_id : ℕ) (step : StepRow) → (withdrawn run_id step).id ≡ step.id
withdrawn_id run_id step = ground arith

withdrawn_ready :
    (run_id : ℕ) (step : StepRow)
    → (withdrawn run_id step).status ≡ StepStatus.ready
    → step.status ≡ StepStatus.ready
withdrawn_ready run_id step e = ground (arith, e)

get-cancel_steps :
    (k run_id : ℕ) (steps : List StepRow) (row : StepRow)
    → get step_key_of k steps ≡ some row
    → get step_key_of k (cancel_steps run_id steps) ≡ some (withdrawn run_id row)
unfolding get cancel_steps
get-cancel_steps k run_id [] row e = absurd (cc e)
get-cancel_steps k run_id (step ∷ steps) row e = elim (Bool-cases (nat_eq step.id k)) [
  | inl same ↦
      let named : step ≡ row = cc (rw (same, get) at e) in
      rw (withdrawn_id run_id step, same) (ap (λ r. some (withdrawn run_id r)) named)
  | inr other ↦
      rw (withdrawn_id run_id step, other)
        (get-cancel_steps k run_id steps row (rw (other, get) at e))
]

cancel_steps-Advanced :
    (k run_id : ℕ) (old : StepRow) (steps : List StepRow)
    → Advanced k old steps
    → Advanced k old (cancel_steps run_id steps)
cancel_steps-Advanced k run_id old steps (row, found, more, before) =
    let same = withdrawn_resumes run_id row in
    (
      withdrawn run_id row,
      get-cancel_steps k run_id steps row found,
      omega (arith, more, same),
      λ e.
          further_Advanced old row (withdrawn run_id row) more (omega (arith, same)) before
            (inl (withdrawn_ready run_id row e)),
    )

module _ (k : ℕ) (old : StepRow) where
  abbrev Follows : Database → Type 0
  Follows db = IsSound db × Advanced k old db.steps

  Follows-IsClosed : IsClosed Follows
  Follows-IsClosed = record {
    sound = λ db (sound, row). sound;
    neutral = record {
      on_rest = λ db db' tasks runs steps usage (sound, row). (
        IsSound-IsClosed.neutral.on_rest db db' tasks runs steps usage sound,
        subst (Advanced k old) (sym steps) row,
      );
      on_task =
          λ i g db keeps (sound, row). (IsSound-IsClosed.neutral.on_task i g db keeps sound, row);
      on_run =
          λ i g db keeps (sound, row). (IsSound-IsClosed.neutral.on_run i g db keeps sound, row);
    };
    on_step = λ db step h here keeps counted weighs counts (sound, row). (
      IsSound-IsClosed.on_step db step h here keeps counted weighs counts sound,
      patch-Advanced k old h step db.steps here (λ s. (keeps s).0) counted row,
    );
    on_cancel = λ run_id db (sound, row). (
      IsSound-IsClosed.on_cancel run_id db sound,
      cancel_steps-Advanced k run_id old db.steps row,
    );
    on_claim = λ args now run step task db found startable room fits (sound, row). (
      IsSound-IsClosed.on_claim args now run step task db found startable room fits sound,
      patch-Advanced k old (claimed_step args now) step db.steps found.found_step (λ s. refl)
          ((λ b. b), omega arith, λ e. absurd (cc e)) row,
    );
    on_release = λ db run step task h found runs over keeps counted covered (sound, row). (
      IsSound-IsClosed.on_release db run step task h found runs over keeps counted covered sound,
      patch-Advanced k old h step db.steps found.found_step (λ s. (keeps s).0) counted row,
    );
    on_settle =
        λ args run step task h db found runs over keeps counted covered within fresh (sound, row). (
          IsSound-IsClosed.on_settle args run step task h db found runs over keeps counted covered
              within fresh sound,
          patch-Advanced k old h step db.steps found.found_step (λ s. (keeps s).0) counted row,
        );
  }

abbrev pub is_ready_status : StepStatus → Bool
is_ready_status StepStatus.ready = true
is_ready_status _ = false

abbrev pub is_ready_step : Option StepRow → Bool
is_ready_step none = false
is_ready_step (some step) = is_ready_status step.status

-- How often a mutation makes the step under an id ready that was not.
unfoldable pub resumptions : ℕ → List (Mutation × ℕ) → Database → ℕ
resumptions k [] db = 0
resumptions k ((mutation, now) ∷ mutations) db =
    let after = transact mutation now db in
    let rest = resumptions k mutations after in
    (if is_ready_step (get step_key_of k after.steps)
        && not (is_ready_step (get step_key_of k db.steps))
      then 1
      else 0)
    + rest

count :
    (row new : StepRow)
    → resumes_of row ≤ resumes_of new
    → (new.status ≡ StepStatus.ready
        → (row.status ≡ StepStatus.ready) ⊎ (resumes_of row < resumes_of new))
    → resumes_of row + (if is_ready_step (some new) && not (is_ready_step (some row)) then 1 else 0)
      ≤ resumes_of new
count row new more ready = elim (Bool-cases (is_ready_status new.status)) [
  | inr waits ↦ rw waits (omega (arith, more))
  | inl now_ready ↦ elim (ready (ground (arith, now_ready))) [
    | inl was ↦ rw (now_ready, was) (omega (arith, more))
    | inr less ↦ ground (arith, less)
  ]
]

transact-counts :
    (k : ℕ) (mutation : Mutation) (now : ℕ) (db : Database) (row : StepRow)
    → IsSound db
    → get step_key_of k db.steps ≡ some row
    → IsSound (transact mutation now db)
      × (new : StepRow) × (get step_key_of k (transact mutation now db).steps ≡ some new)
      × (resumes_of row
            + (if is_ready_step (some new) && not (is_ready_step (some row)) then 1 else 0)
          ≤ resumes_of new)
transact-counts k mutation now db row sound found =
    let (after_sound, (new, got, more, ready)) =
      transact-keeps (Follows k row) (Follows-IsClosed k row) mutation now db
        (sound, (row, found, omega arith, λ e. inl e)) in
    (after_sound, new, got, count row new more ready)

resumptions_lem :
    (k : ℕ) (mutations : List (Mutation × ℕ)) (db : Database) (row : StepRow)
    → IsSound db
    → get step_key_of k db.steps ≡ some row
    → (new : StepRow) × (get step_key_of k (transact_all mutations db).steps ≡ some new)
      × (resumes_of row + resumptions k mutations db ≤ resumes_of new)
unfolding transact_all resumptions
resumptions_lem k [] db row sound found = (row, found, omega arith)
resumptions_lem k ((mutation, now) ∷ mutations) db row sound found =
    let (after_sound, new, got, one) = transact-counts k mutation now db row sound found in
    let (last, at_end, rest) =
      resumptions_lem k mutations (transact mutation now db) new after_sound got in
    (last, at_end, rw (got, found) (omega (arith, one, rest)))

-- If no step of a sound database was resumed more often than the limit of five, none is after any
-- sequence of mutations, whatever outcomes the workers report; and in it a step that was not ready
-- becomes ready no more often than the limit leaves after the resumes it had.
pub transact_all-AreBounded :
    (mutations : List (Mutation × ℕ)) (db : Database)
    → IsSound db
    → AreBounded db.steps
    → AreBounded (transact_all mutations db).steps
      × ((k : ℕ) (row : StepRow)
          → get step_key_of k db.steps ≡ some row
          → resumes_of row + resumptions k mutations db ≤ max_step_resumes)
transact_all-AreBounded mutations db sound bound =
    let after = (transact_all-keeps Bounded Bounded-IsClosed mutations db (sound, bound)).1 in
    (
      after,
      λ k row found.
          let (new, got, counted) = resumptions_lem k mutations db row sound found in
          let last =
            All-get_row step_key_of (λ s. resumes_of s ≤ max_step_resumes) k
              (transact_all mutations db).steps new got after in
          omega (arith, counted, last),
    )
