-- ===== src/Plan/Blocking.antt =====
-- `propagateBlockedSteps` of apps/web/lib/agent-orchestration.ts: its loop ends, and what it blocks
-- is what waits for a failure.
use mathlib.Core.List.{Memᴰ}
use circuit_agent.Prelude.{
  ℕ, suc, ◌≤◌, ◌<◌, String, ◌≡◌, refl, ap, subst, ◌⊎◌, inl, inr, true, false, List, [], ◌∷◌, arith,
  if◌then◌else◌, Bool-cases, any, includes, All, ◌==◌, eq_iff,
}
use text.Mathlib.TextPositions.{eq_refl}
use circuit_agent.Plan.{
  AgentStep, is_pending, is_terminal_failure, ids_where, is_doomed, as_blocked, Pass, then_step,
  then_blocked, block_pass,
}

-- The id is that of a failed, cancelled or blocked step, or of a pending one that depends, directly
-- or through pending steps, on such a step.
pub data Doomed (steps : List AgentStep) : String → Type 0 where
  failure :
      {id : String} (step : AgentStep)
      → Memᴰ step steps
      → is_terminal_failure step.status ≡ true
      → step.id ≡ id
      → Doomed steps id
  waits_on :
      {id : String} (step : AgentStep) (dependency : String)
      → Memᴰ step steps
      → is_pending step.status ≡ true
      → includes step.depends_on dependency ≡ true
      → Doomed steps dependency
      → step.id ≡ id
      → Doomed steps id

-- Each step is as it was, or was pending and is blocked.
abbrev pub OnlyBlocks : List AgentStep → List AgentStep → Type 0
OnlyBlocks [] [] = Unit
OnlyBlocks [] (y ∷ ys) = ⊥
OnlyBlocks (x ∷ xs) [] = ⊥
OnlyBlocks (x ∷ xs) (y ∷ ys) =
    ((y ≡ x) ⊎ ((is_pending x.status ≡ true) × (y ≡ as_blocked x))) × OnlyBlocks xs ys

OnlyBlocks-refl : (xs : List AgentStep) → OnlyBlocks xs xs
OnlyBlocks-refl [] = tt
OnlyBlocks-refl (x ∷ xs) = (inl refl, OnlyBlocks-refl xs)

one_trans :
    (x y z : AgentStep)
    → (y ≡ x) ⊎ ((is_pending x.status ≡ true) × (y ≡ as_blocked x))
    → (z ≡ y) ⊎ ((is_pending y.status ≡ true) × (z ≡ as_blocked y))
    → (z ≡ x) ⊎ ((is_pending x.status ≡ true) × (z ≡ as_blocked x))
one_trans x y z (inl e) (inl f) = inl (cc (e, f))
one_trans x y z (inl e) (inr (p, f)) = inr (cc (p, e), cc (e, f))
one_trans x y z (inr (p, e)) (inl f) = inr (p, cc (e, f))
one_trans x y z (inr (p, e)) (inr (q, f)) = cc (rw e at q)

pub OnlyBlocks-trans :
    (xs ys zs : List AgentStep) → OnlyBlocks xs ys → OnlyBlocks ys zs → OnlyBlocks xs zs
OnlyBlocks-trans [] [] [] p q = tt
OnlyBlocks-trans (x ∷ xs) (y ∷ ys) (z ∷ zs) p q =
    (one_trans x y z p.0 q.0, OnlyBlocks-trans xs ys zs p.1 q.1)
OnlyBlocks-trans [] [] (z ∷ zs) p q = q
OnlyBlocks-trans [] (y ∷ ys) zs p q = absurd p
OnlyBlocks-trans (x ∷ xs) [] zs p q = absurd p
OnlyBlocks-trans (x ∷ xs) (y ∷ ys) [] p q = absurd q

unfoldable pub pending_count : List AgentStep → ℕ
pending_count [] = 0
pending_count (step ∷ steps) =
    let rest = pending_count steps in if is_pending step.status then suc rest else rest

-- What the loop keeps, of the steps of the plan and the present ones.
pub record Inv (origin steps : List AgentStep) : Type 0 where
  pub pending_listed : All (λ s. is_pending s.status ≡ true → Memᴰ s origin) steps
  pub stopped_doomed : All (λ s. is_terminal_failure s.status ≡ true → Doomed origin s.id) steps

-- Every id of the one list is in the other.
abbrev pub Within : List String → List String → Type 0
Within xs ys = (id : String) → includes xs id ≡ true → includes ys id ≡ true

abbrev pub AreDoomed : List AgentStep → List String → Type 0
AreDoomed origin failures = (id : String) → includes failures id ≡ true → Doomed origin id

-- What one pass makes of steps and failures.
pub record IsPass (origin steps : List AgentStep) (failures : List String) (p : Pass) : Type 0 where
  pub shape : OnlyBlocks steps p.steps
  pub grows : Within failures p.failures
  pub failures_doomed : AreDoomed origin p.failures
  pub inv : Inv origin p.steps
  pub stopped_known :
      Within (ids_where is_terminal_failure steps) failures
      → Within (ids_where is_terminal_failure p.steps) p.failures
  pub idle :
      p.changed ≡ false
      → (p.steps ≡ steps) × (p.failures ≡ failures) × All (λ s. is_doomed failures s ≡ false) steps
  pub busy : p.changed ≡ true → pending_count p.steps < pending_count steps
  pub never_more : pending_count p.steps ≤ pending_count steps

any-includes :
    (failures dependencies : List String)
    → any (includes failures) dependencies ≡ true
    → (d : String) × (includes dependencies d ≡ true) × (includes failures d ≡ true)
any-includes failures [] h = cc
any-includes failures (d ∷ ds) h = elim (Bool-cases (includes failures d)) [
  | inl t ↦ (d, ground (arith, eq_refl d), t)
  | inr f ↦
      let (e, listed, known) = any-includes failures ds (ground (arith, h, f)) in
      (e, ground (arith, listed), known)
]

Within-tail :
    (step : AgentStep) (steps : List AgentStep) (failures : List String)
    → Within (ids_where is_terminal_failure (step ∷ steps)) failures
    → Within (ids_where is_terminal_failure steps) failures
Within-tail step steps failures h id listed = h id (ground (arith, listed))

Within-cons :
    (step : AgentStep) (later : List AgentStep) (failures : List String)
    → (is_terminal_failure step.status ≡ true → includes failures step.id ≡ true)
    → Within (ids_where is_terminal_failure later) failures
    → Within (ids_where is_terminal_failure (step ∷ later)) failures
Within-cons step later failures here rest id listed =
    elim (Bool-cases (is_terminal_failure step.status)) [
      | inr f ↦ rest id (rw f at listed)
      | inl t ↦ elim (Bool-cases (step.id == id)) [
        | inl same ↦
            let e : step.id ≡ id = (eq_iff step.id id).0 same in
            subst (λ i. includes failures i ≡ true) e (here t)
        | inr other ↦ rest id (ground (arith, listed, t, other))
      ]
    ]

head-known :
    (step : AgentStep) (steps : List AgentStep) (failures : List String)
    → Within (ids_where is_terminal_failure (step ∷ steps)) failures
    → is_terminal_failure step.status ≡ true
    → includes failures step.id ≡ true
head-known step steps failures h t = h step.id (ground (arith, t, eq_refl step.id))

AreDoomed-cons :
    (origin : List AgentStep) (id : String) (failures : List String)
    → Doomed origin id
    → AreDoomed origin failures
    → AreDoomed origin (id ∷ failures)
AreDoomed-cons origin id failures doomed known other h = elim (Bool-cases (id == other)) [
  | inl same ↦ subst (Doomed origin) ((eq_iff id other).0 same) doomed
  | inr differs ↦ known other (ground (arith, h, differs))
]

pass-passing :
    (origin : List AgentStep) (step : AgentStep) (steps : List AgentStep) (failures : List String)
    (later : Pass)
    → Inv origin (step ∷ steps)
    → is_doomed failures step ≡ false
    → IsPass origin steps failures later
    → IsPass origin (step ∷ steps) failures (then_step step later)
unfolding pending_count
pass-passing origin step steps failures later inv fine p = record {
  shape = (inl refl, p.shape);
  grows = p.grows;
  failures_doomed = p.failures_doomed;
  inv = record {
    pending_listed = (inv.pending_listed.0, p.inv.pending_listed);
    stopped_doomed = (inv.stopped_doomed.0, p.inv.stopped_doomed);
  };
  stopped_known = λ known.
      Within-cons step later.steps later.failures
        (λ t. p.grows step.id (head-known step steps failures known t))
        (p.stopped_known (Within-tail step steps failures known));
  idle = λ still.
      let (same, same_failures, rest) = p.idle still in
      (ap (λ xs. step ∷ xs) same, same_failures, (fine, rest));
  busy = λ changed. ground (arith, p.busy changed);
  never_more = ground (arith, p.never_more);
}

pass-blocking :
    (origin : List AgentStep) (step : AgentStep) (steps : List AgentStep) (failures : List String)
    (later : Pass)
    → Inv origin (step ∷ steps)
    → is_pending step.status ≡ true
    → Doomed origin step.id
    → IsPass origin steps (step.id ∷ failures) later
    → IsPass origin (step ∷ steps) failures (then_blocked step later)
unfolding pending_count
pass-blocking origin step steps failures later inv waiting doomed p =
    let known_id : includes (step.id ∷ failures) step.id ≡ true = ground (arith, eq_refl step.id) in
    let wider : Within failures (step.id ∷ failures) = (λ id h. ground (arith, h)) in
    record {
      shape = (inr (waiting, refl), p.shape);
      grows = λ id h. p.grows id (wider id h);
      failures_doomed = p.failures_doomed;
      inv = record {
        pending_listed = ((λ e. cc), p.inv.pending_listed);
        stopped_doomed = ((λ e. doomed), p.inv.stopped_doomed);
      };
      stopped_known = λ known.
          Within-cons (as_blocked step) later.steps later.failures (λ t. p.grows step.id known_id)
            (p.stopped_known (λ id h. wider id (Within-tail step steps failures known id h)));
      idle = λ still. cc;
      busy = λ changed. ground (arith, waiting, p.never_more);
      never_more = ground (arith, waiting, p.never_more);
    }

pub block_pass-IsPass :
    (origin steps : List AgentStep) (failures : List String)
    → AreDoomed origin failures
    → Inv origin steps
    → IsPass origin steps failures (block_pass steps failures)
unfolding block_pass
block_pass-IsPass origin [] failures known inv = record {
  shape = tt;
  grows = λ id h. h;
  failures_doomed = known;
  inv = inv;
  stopped_known = λ h. h;
  idle = λ still. (refl, refl, tt);
  busy = λ changed. cc;
  never_more = omega arith;
}
block_pass-IsPass origin (step ∷ steps) failures known inv =
    let inv' : Inv origin steps = record {
      pending_listed = inv.pending_listed.1;
      stopped_doomed = inv.stopped_doomed.1;
    } in
    elim (Bool-cases (is_doomed failures step)) [
      | inr fine ↦ rw fine (
          pass-passing origin step steps failures (block_pass steps failures) inv fine
            (block_pass-IsPass origin steps failures known inv'))
      | inl bad ↦
          let waiting : is_pending step.status ≡ true = ground (arith, bad) in
          let (d, listed, stopped) = any-includes failures step.depends_on (ground (arith, bad)) in
          let doomed : Doomed origin step.id =
            waits_on step d (inv.pending_listed.0 waiting) waiting listed (known d stopped) refl in
          rw bad (
            pass-blocking origin step steps failures (block_pass steps (step.id ∷ failures)) inv
              waiting doomed
              (block_pass-IsPass origin steps (step.id ∷ failures)
                (AreDoomed-cons origin step.id failures doomed known) inv'))
    ]
