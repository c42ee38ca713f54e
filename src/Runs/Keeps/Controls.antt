-- ===== src/Runs/Keeps/Controls.antt =====
-- Cancelling, pausing and resuming keep what is closed.
use circuit_agent.Prelude.{
  ℕ, ◌≡◌, refl, subst, String, Bool, not, ◌&&◌, ◌||◌, Option, some, List, [], ◌∷◌, nat_eq,
  Bool-cases, inl, inr, truthy, Result, ok, err, ◌>>=◌, >>=-returns, all,
}
use circuit_agent.Runs.{Database, TaskRow, RunRow, TaskStatus, RunState, find_task}
use circuit_agent.Runs.Claim.{is_live}
use circuit_agent.Runs.Control.{
  runs_of, is_terminal_run, is_over, settle_task, stopped, cancel_run, permitted_run, Paused, pause,
  pause_run, is_paused, resume, resume_run, request_cancellation, cancel_runs, is_finished_task,
  stop_idle, stop_task, request_task_cancellation,
}
use circuit_agent.Runs.Closed.{IsClosed}
use circuit_agent.Runs.Keeps.{release_sandbox-keeps}
use circuit_agent.Authz.{task_cancel, agent_run, require_organization_permission}

module _ (P : Database → Type 0) (closed : IsClosed P) where
  settle_task-keeps :
      (run : RunRow) (task : TaskRow) (db : Database) → P db → P (settle_task run task db)
  settle_task-keeps run task db sound =
      elim (Bool-cases
        (all (λ r. nat_eq r.id run.id || is_over r.status) (runs_of task.id db.runs))) [
          | inl over ↦
              rw over (closed.neutral.on_task task.id _ db (λ t. (refl, refl, refl, refl)) sound)
          | inr more ↦ rw more sound
        ]

  stopped-keeps :
      (now : ℕ) (run : RunRow) (task : TaskRow) (db : Database) → P db → P (stopped now run task db)
  stopped-keeps now run task db sound =
      let marked =
        closed.neutral.on_run run.id
          (λ r. record r {
            status = RunState.cancelled;
            cancel_requested_at = some now;
            completed_at = some now;
          })
          db (λ r. (refl, refl, refl)) sound in
      let settled = settle_task-keeps run task _ (closed.on_cancel run.id _ marked) in
      closed.neutral.on_rest _ _ refl refl refl refl (
        release_sandbox-keeps P closed.neutral run (truthy run.sandbox_id) _
          (closed.neutral.on_rest _ _ refl refl refl refl settled))

  cancel_run-keeps :
      (now : ℕ) (run : RunRow) (task : TaskRow) (db : Database)
      → P db
      → P (cancel_run now run task db).0
  unfolding cancel_run
  cancel_run-keeps now run task db sound = elim (Bool-cases (is_terminal_run run.status)) [
    | inl over ↦ rw over sound
    | inr live ↦ rw live (stopped-keeps now run task db sound)
  ]

  cancel_runs-keeps :
      (now : ℕ) (task : TaskRow) (runs : List RunRow) (db : Database) (count : ℕ)
      → P db
      → P (cancel_runs now task runs (db, count)).0
  unfolding cancel_runs
  cancel_runs-keeps now task [] db count sound = sound
  cancel_runs-keeps now task (run ∷ runs) db count sound =
      cancel_runs-keeps now task runs (cancel_run now run task db).0 _
        (cancel_run-keeps now run task db sound)

  stop_idle-keeps :
      (now : ℕ) (task : TaskRow) (count : ℕ) (db : Database)
      → P db
      → P (stop_idle now task count db)
  stop_idle-keeps now task count db sound =
      elim (Bool-cases (nat_eq count 0 && not (is_finished_task task.status))) [
        | inl idle ↦ rw idle (
            closed.neutral.on_rest _ _ refl refl refl refl (
              closed.neutral.on_task task.id (λ t. record t { status = TaskStatus.cancelled }) db
                (λ t. (refl, refl, refl, refl)) sound))
        | inr busy ↦ rw busy sound
      ]

  stop_task-keeps : (now : ℕ) (task : TaskRow) (db : Database) → P db → P (stop_task now task db).0
  stop_task-keeps now task db sound = closed.neutral.on_rest _ _ refl refl refl refl (
      stop_idle-keeps now task (cancel_runs now task (runs_of task.id db.runs) (db, 0)).1 _
        (cancel_runs-keeps now task (runs_of task.id db.runs) db 0 sound))

  pause-keeps : (now : ℕ) (run : RunRow) (db : Database) → P db → P (pause now run db).0
  pause-keeps now run db sound = elim (Bool-cases (is_live run.status)) [
    | inl live ↦ rw live (
        closed.neutral.on_rest _ _ refl refl refl refl (
          closed.neutral.on_run run.id (λ r. record r { status = RunState.paused }) db
            (λ r. (refl, refl, refl)) sound))
    | inr over ↦ rw over sound
  ]

  resume-keeps : (now : ℕ) (run : RunRow) (db : Database) → P db → P (resume now run db).0
  resume-keeps now run db sound = elim (Bool-cases (is_paused run.status)) [
    | inl paused ↦ rw paused (
        closed.neutral.on_rest _ _ refl refl refl refl (
          closed.neutral.on_run run.id (λ r. record r { status = RunState.queued }) db
            (λ r. (refl, refl, refl)) sound))
    | inr other ↦ rw other sound
  ]

  -- A change for a caller who has the permission.
  permitted-keeps {ℓ} :
      {A : Type ℓ} (checked : Result (RunRow × TaskRow)) (change : RunRow → TaskRow → Database × A)
      (db after : Database) (answer : A)
      → ((run : RunRow) (task : TaskRow) → P (change run task).0)
      → (checked >>= λ (run, task). ok (change run task)) ≡ ok (after, answer)
      → P after
  permitted-keeps (err message) change db after answer keeps e = cc
  permitted-keeps (ok (run, task)) change db after answer keeps e =
      let same : (change run task).0 ≡ after = cc e in subst (λ d. P d) same (keeps run task)

  pub pause_run-keeps :
      (identity : Option String) (run_id now : ℕ) (db after : Database) (answer : Paused)
      → pause_run identity run_id now db ≡ ok (after, answer)
      → P db
      → P after
  unfolding pause_run
  pause_run-keeps identity run_id now db after answer e sound =
      permitted-keeps (permitted_run db identity run_id task_cancel) (λ run task. pause now run db)
        db after answer (λ run task. pause-keeps now run db sound) e

  pub resume_run-keeps :
      (identity : Option String) (run_id now : ℕ) (db after : Database) (answer : Bool)
      → resume_run identity run_id now db ≡ ok (after, answer)
      → P db
      → P after
  unfolding resume_run
  resume_run-keeps identity run_id now db after answer e sound =
      permitted-keeps (permitted_run db identity run_id agent_run) (λ run task. resume now run db)
        db after answer (λ run task. resume-keeps now run db sound) e

  pub request_cancellation-keeps :
      (identity : Option String) (run_id now : ℕ) (db after : Database)
      → request_cancellation identity run_id now db ≡ ok after
      → P db
      → P after
  unfolding request_cancellation
  request_cancellation-keeps identity run_id now db after e sound =
      let ((run, task), permitted, result) =
        >>=-returns (permitted_run db identity run_id task_cancel)
          (λ (run, task). ok (cancel_run now run task db).0) after e in
      let same : (cancel_run now run task db).0 ≡ after = cc result in
      subst (λ d. P d) same (cancel_run-keeps now run task db sound)

  pub request_task_cancellation-keeps :
      (identity : Option String) (task_id now : ℕ) (db after : Database) (count : ℕ)
      → request_task_cancellation identity task_id now db ≡ ok (after, count)
      → P db
      → P after
  unfolding request_task_cancellation
  request_task_cancellation-keeps identity task_id now db after count e sound =
      let (task, found, rest) = >>=-returns (find_task db task_id) _ (after, count) e in
      let (membership, admitted, result) =
        >>=-returns
          (require_organization_permission db.memberships identity task.organization_id task_cancel)
          (λ membership. ok (stop_task now task db)) (after, count) rest in
      let same : (stop_task now task db).0 ≡ after = cc result in
      subst (λ d. P d) same (stop_task-keeps now task db sound)
