-- ===== src/Runs/Charges.antt =====
-- apps/web/convex/agentRuns.ts: the usage ledger over any sequence of mutations. Each report of a worker
-- has its idempotency key.
use circuit_agent.Prelude.{
  ℕ, ◌≡◌, refl, sym, subst, String, Bool, false, none, List, [], ◌∷◌, ◌++◌, Bool-cases, inl, inr,
  find, ◌==◌, eq_iff,
}
use circuit_agent.Runs.{Database, UsageRow}
use circuit_agent.Runs.Balance.{IsSound}
use circuit_agent.Runs.Closed.{IsClosed}
use circuit_agent.Runs.Soundness.{IsSound-IsClosed}
use circuit_agent.Runs.Outcome.{usage_row}
use circuit_agent.Runs.Commands.{Mutation, transact_all, transact_all-keeps}

abbrev pub has_key : String → UsageRow → Bool
has_key key usage = usage.idempotency_key == key

-- No two rows of the ledger have the same key.
abbrev pub IsChargedOnce : List UsageRow → Type 0
IsChargedOnce [] = Unit
IsChargedOnce (usage ∷ ledger) =
    (find (has_key usage.idempotency_key) ledger ≡ none) × IsChargedOnce ledger

find-append_none {ℓ} :
    {A : Type ℓ} (p : A → Bool) (xs : List A) (x : A)
    → find p xs ≡ none
    → p x ≡ false
    → find p (xs ++ x ∷ []) ≡ none
find-append_none p [] x e fails = rw fails refl
find-append_none p (y ∷ ys) x e fails = elim (Bool-cases (p y)) [
  | inl found ↦ cc (rw found at e)
  | inr other ↦ rw other (find-append_none p ys x (rw other at e) fails)
]

other_key :
    (usage row : UsageRow)
    → has_key row.idempotency_key usage ≡ false
    → has_key usage.idempotency_key row ≡ false
other_key usage row apart = elim (Bool-cases (has_key usage.idempotency_key row)) [
  | inr other ↦ other
  | inl same ↦
      let keys : row.idempotency_key ≡ usage.idempotency_key =
        (eq_iff row.idempotency_key usage.idempotency_key).0 same in
      let back = (eq_iff usage.idempotency_key row.idempotency_key).1 (sym keys) in cc (back, apart)
]

append-IsChargedOnce :
    (ledger : List UsageRow) (row : UsageRow)
    → find (has_key row.idempotency_key) ledger ≡ none
    → IsChargedOnce ledger
    → IsChargedOnce (ledger ++ row ∷ [])
append-IsChargedOnce [] row fresh once = (refl, tt)
append-IsChargedOnce (usage ∷ ledger) row fresh (first, once) =
    elim (Bool-cases (has_key row.idempotency_key usage)) [
      | inl same ↦ cc (rw same at fresh)
      | inr apart ↦ (
        find-append_none (has_key usage.idempotency_key) ledger row first
            (other_key usage row apart),
        append-IsChargedOnce ledger row (rw apart at fresh) once,
      )
    ]

abbrev ChargesOnce : Database → Type 0
ChargesOnce db = IsSound db × IsChargedOnce db.usage

ChargesOnce-IsClosed : IsClosed ChargesOnce
ChargesOnce-IsClosed = record {
  sound = λ db (sound, once). sound;
  neutral = record {
    on_rest = λ db db' tasks runs steps usage (sound, once). (
      IsSound-IsClosed.neutral.on_rest db db' tasks runs steps usage sound,
      subst (λ ledger. IsChargedOnce ledger) (sym usage) once,
    );
    on_task =
        λ k g db keeps (sound, once). (IsSound-IsClosed.neutral.on_task k g db keeps sound, once);
    on_run =
        λ k g db keeps (sound, once). (IsSound-IsClosed.neutral.on_run k g db keeps sound, once);
  };
  on_step = λ db step h here keeps counted weighs counts (sound, once).
      (IsSound-IsClosed.on_step db step h here keeps counted weighs counts sound, once);
  on_cancel = λ run_id db (sound, once). (IsSound-IsClosed.on_cancel run_id db sound, once);
  on_claim = λ args now run step task db found startable room fits (sound, once).
      (IsSound-IsClosed.on_claim args now run step task db found startable room fits sound, once);
  on_release = λ db run step task h found runs over keeps counted covered (sound, once). (
    IsSound-IsClosed.on_release db run step task h found runs over keeps counted covered sound,
    once,
  );
  on_settle =
      λ args run step task h db found runs over keeps counted covered within fresh (sound, once). (
        IsSound-IsClosed.on_settle args run step task h db found runs over keeps counted covered
            within fresh sound,
        append-IsChargedOnce db.usage (usage_row args task run step) fresh once,
      );
}

-- If the keys of the usage ledger of a sound database are distinct, they are so after any sequence of
-- mutations: no key is charged twice.
pub transact_all-IsChargedOnce :
    (mutations : List (Mutation × ℕ)) (db : Database)
    → IsSound db
    → IsChargedOnce db.usage
    → IsChargedOnce (transact_all mutations db).usage
transact_all-IsChargedOnce mutations db sound once =
    (transact_all-keeps ChargesOnce ChargesOnce-IsClosed mutations db (sound, once)).1
