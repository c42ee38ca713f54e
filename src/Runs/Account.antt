-- ===== src/Runs/Account.antt =====
-- What a task is promised of its money, whatever its runs do: an account that reserves within its cap,
-- and settles a reservation with at most what was reserved.
use circuit_agent.Prelude.{
  ℕ, ◌+◌, ◌-◌, ◌≤◌, ◌≡◌, refl, ap, sym, subst, some, List, nat_eq, arith, Bool-cases, inl, inr,
}
use circuit_agent.Runs.{Database, TaskRow, task_key}
use circuit_agent.Runs.Table.{get, patch, get-patch}
use circuit_agent.Runs.Balance.{IsSound}
use circuit_agent.Runs.Sound.{KeepsAccount, here_task}
use circuit_agent.Runs.Lease.{reservation}
use circuit_agent.Runs.Closed.{IsClosed, reserving}
use circuit_agent.Runs.Soundness.{IsSound-IsClosed}
use circuit_agent.Runs.Commands.{Mutation, transact_all, transact_all-keeps}

pub record Account : Type 0 where
  pub spent : ℕ
  pub reserved : ℕ
  pub cap : ℕ

abbrev pub account_of : TaskRow → Account
account_of task = record {
  spent = task.spent_rwf;
  reserved = task.reserved_rwf;
  cap = task.max_rwf;
}

-- The moves of an account.
pub data Move : Account → Account → Type 0 where
  reserve :
      {a b : Account} (amount : ℕ)
      → a.spent + a.reserved + amount ≤ a.cap
      → b ≡ (record a { reserved = a.reserved + amount })
      → Move a b
  settle_up :
      {a b : Account} (reserved paid : ℕ)
      → reserved ≤ a.reserved
      → paid ≤ reserved
      → b ≡ (record a { reserved = a.reserved - reserved; spent = a.spent + paid })
      → Move a b

pub data Moves : Account → Account → Type 0 where
  done : {a b : Account} → a ≡ b → Moves a b
  then_move : {a b c : Account} → Moves a b → Move b c → Moves a c

-- The account of the task has come from the given one by moves.
abbrev HasMoved : ℕ → Account → List TaskRow → Type 0
HasMoved task_id start tasks =
    (task : TaskRow) × (get task_key task_id tasks ≡ some task) × Moves start (account_of task)

module _ (task_id : ℕ) (start : Account) where
  patch-HasMoved :
      (k : ℕ) (g : TaskRow → TaskRow) (tasks : List TaskRow)
      → ((t : TaskRow) → (g t).id ≡ t.id)
      → ((t : TaskRow)
          → get task_key k tasks ≡ some t
          → Moves start (account_of t)
          → Moves start (account_of (g t)))
      → HasMoved task_id start tasks
      → HasMoved task_id start (patch task_key k g tasks)
  patch-HasMoved k g tasks keeps_id moves (task, here, moved) =
      let after = get-patch task_key g keeps_id task_id k tasks task here in
      elim (Bool-cases (nat_eq task_id k)) [
        | inl same ↦
            let named : task_id ≡ k = ground (arith, same) in
            (
              g task,
              rw same at after,
              moves task (subst (λ j. get task_key j tasks ≡ some task) named here) moved,
            )
        | inr other ↦ (task, rw other at after, moved)
      ]

  account-keeps :
      (g : TaskRow → TaskRow) (t : TaskRow) → KeepsAccount g → account_of t ≡ account_of (g t)
  account-keeps g t keeps =
      let (id, spent, reserved, cap) = keeps t in rw (spent, reserved, cap) refl

  -- A patch of the task that was found is a move of its account.
  moved-HasMoved :
      (task : TaskRow) (g : TaskRow → TaskRow) (tasks : List TaskRow)
      → ((t : TaskRow) → (g t).id ≡ t.id)
      → get task_key task.id tasks ≡ some task
      → Move (account_of task) (account_of (g task))
      → HasMoved task_id start tasks
      → HasMoved task_id start (patch task_key task.id g tasks)
  moved-HasMoved task g tasks keeps_id found move has =
      patch-HasMoved task.id g tasks keeps_id
        (λ t here moved.
          let same : task ≡ t = cc (found, here) in
          subst (λ x. Moves start (account_of (g x))) same
            (then_move (subst (λ x. Moves start (account_of x)) (sym same) moved) move))
        has

  abbrev Follows : Database → Type 0
  Follows db = IsSound db × HasMoved task_id start db.tasks

  Follows-IsClosed : IsClosed Follows
  Follows-IsClosed = record {
    sound = λ db (sound, has). sound;
    neutral = record {
      on_rest = λ db db' tasks runs steps usage (sound, has). (
        IsSound-IsClosed.neutral.on_rest db db' tasks runs steps usage sound,
        subst (λ ts. HasMoved task_id start ts) (sym tasks) has,
      );
      on_task = λ k g db keeps (sound, has). (
        IsSound-IsClosed.neutral.on_task k g db keeps sound,
        patch-HasMoved k g db.tasks (λ t. (keeps t).0)
            (λ t here moved. subst (λ b. Moves start b) (account-keeps g t keeps) moved) has,
      );
      on_run =
          λ k g db keeps (sound, has). (IsSound-IsClosed.neutral.on_run k g db keeps sound, has);
    };
    on_step = λ db step h here keeps counted weighs counts (sound, has).
        (IsSound-IsClosed.on_step db step h here keeps counted weighs counts sound, has);
    on_cancel = λ run_id db (sound, has). (IsSound-IsClosed.on_cancel run_id db sound, has);
    on_claim = λ args now run step task db found startable room fits (sound, has). (
      IsSound-IsClosed.on_claim args now run step task db found startable room fits sound,
      moved-HasMoved task (reserving args task) db.tasks (λ t. refl)
          (here_task db run step task found sound)
          (reserve args.estimated_rwf (ground (arith, fits)) refl) has,
    );
    on_release = λ db run step task h found runs over keeps counted covered (sound, has). (
      IsSound-IsClosed.on_release db run step task h found runs over keeps counted covered sound,
      moved-HasMoved task (λ t. record t { reserved_rwf = task.reserved_rwf - reservation step })
          db.tasks (λ t. refl) (here_task db run step task found sound)
          (settle_up (reservation step) 0 (ground (arith, covered)) (omega arith) (
            ap
              (λ n. record (account_of task) {
                reserved = task.reserved_rwf - reservation step;
                spent = n;
              })
              (omega arith)))
          has,
    );
    on_settle =
        λ args run step task h db found runs over keeps counted covered within fresh (sound, has). (
          IsSound-IsClosed.on_settle args run step task h db found runs over keeps counted covered
              within fresh sound,
          moved-HasMoved task
              (λ t. record t {
                reserved_rwf = task.reserved_rwf - reservation step;
                spent_rwf = task.spent_rwf + args.actual_rwf;
              })
              db.tasks (λ t. refl) (here_task db run step task found sound)
              (settle_up (reservation step) args.actual_rwf (ground (arith, covered))
                (ground (arith, within)) refl)
              has,
        );
  }

-- Whatever mutations run on a sound database, a task stays where it is, and its account goes by moves
-- only: a reservation within the cap, or the settlement of one with at most what it reserved.
pub transact_all-Moves :
    (task_id : ℕ) (task : TaskRow) (mutations : List (Mutation × ℕ)) (db : Database)
    → IsSound db
    → get task_key task_id db.tasks ≡ some task
    → (after : TaskRow) × (get task_key task_id (transact_all mutations db).tasks ≡ some after)
      × Moves (account_of task) (account_of after)
transact_all-Moves task_id task mutations db sound here =
    let (sound', has) =
      transact_all-keeps (Follows task_id (account_of task))
        (Follows-IsClosed task_id (account_of task)) mutations db
        (sound, (task, here, done refl)) in
    has
