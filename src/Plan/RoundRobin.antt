-- ===== src/Plan/RoundRobin.antt =====
-- The round robin of `scheduleAcrossRuns` in apps/web/lib/agent-orchestration.ts: its fuel is enough,
-- it fills every slot that it can, and it serves every run before any run twice.
use mathlib.Core.List.{append-nil, append_assoc}
use circuit_agent.Prelude.{
  ℕ, zero, suc, ◌+◌, ◌-◌, ◌*◌, ◌≤◌, ◌<◌, min, ◌≡◌, refl, sym, ap, inl, inr, Bool, true, false, List,
  [], ◌∷◌, ◌++◌, map, ◌∙◌, arith, ltb, ◌&&◌, Bool-cases, length, length-append, any, All,
  All-append,
}
use circuit_agent.Plan.{
  AgentStep, AgentRunPlan, schedule_ready_steps, round_robin, total, all_active,
  schedule_across_runs,
}

abbrev Queues : Type 0
Queues = List (List AgentStep)

abbrev has_steps : Queues → Bool
has_steps queues = any (λ queue. ltb 0 (length queue)) queues

-- How many queues the cursor passes before it finds a step.
lead : Queues → ℕ
lead [] = 0
lead ([] ∷ queues) = suc (lead queues)
lead ((step ∷ queue) ∷ queues) = 0

lead-le : (queues : Queues) → lead queues ≤ length queues
unfolding lead
lead-le [] = omega arith
lead-le ([] ∷ queues) = omega (arith, lead-le queues)
lead-le ((step ∷ queue) ∷ queues) = omega arith

lead-append : (queues more : Queues) → has_steps queues ≡ true → lead (queues ++ more) ≡ lead queues
unfolding lead
lead-append [] more h = cc
lead-append ([] ∷ queues) more h = omega (arith, lead-append queues more h)
lead-append ((step ∷ queue) ∷ queues) more h = refl

total-append : (queues more : Queues) → total (queues ++ more) ≡ total queues + total more
total-append [] more = omega arith
total-append (queue ∷ queues) more = omega (arith, total-append queues more)

total-eq-zero : (queues : Queues) → has_steps queues ≡ false → total queues ≡ 0
total-eq-zero [] h = refl
total-eq-zero ([] ∷ queues) h = omega (arith, total-eq-zero queues h)
total-eq-zero ((step ∷ queue) ∷ queues) h = absurd (ground (arith, h))

-- The rounds that the loop may still make.
measure : Queues → ℕ
measure queues = total queues * suc (length queues) + lead queues

measure-skip :
    (queues : Queues)
    → has_steps queues ≡ true
    → measure (queues ++ [] ∷ []) < measure ([] ∷ queues)
unfolding measure lead
measure-skip queues h =
    let same : length (queues ++ [] ∷ []) ≡ suc (length queues) =
      omega (arith, length-append queues ([] ∷ [])) in
    let sum : total (queues ++ [] ∷ []) ≡ total queues =
      omega (arith, total-append queues ([] ∷ [])) in
    rw (same, sum, lead-append queues ([] ∷ []) h) (omega arith)

measure-take :
    (step : AgentStep) (queue : List AgentStep) (queues : Queues)
    → measure (queues ++ queue ∷ []) < measure ((step ∷ queue) ∷ queues)
unfolding measure lead
measure-take step queue queues =
    let same : length (queues ++ queue ∷ []) ≡ suc (length queues) =
      omega (arith, length-append queues (queue ∷ [])) in
    let sum : total (queues ++ queue ∷ []) ≡ length queue + total queues =
      omega (arith, total-append queues (queue ∷ [])) in
    let near = lead-le (queues ++ queue ∷ []) in rw (same, sum) (omega (arith, near, same))

-- With fuel for its rounds the loop ends by its own condition: either the slots are full, or no
-- step is left.
round_robin-length :
    (fuel slots : ℕ) (queues : Queues) (selected : List AgentStep)
    → measure queues < fuel
    → length selected ≤ slots
    → length (round_robin fuel slots queues selected) ≡ min slots (length selected + total queues)
unfolding round_robin
round_robin-length zero slots queues selected enough room = absurd (omega arith)
round_robin-length (suc fuel) slots [] selected enough room = omega arith
round_robin-length (suc fuel) slots ([] ∷ queues) selected enough room =
    elim (Bool-cases (has_steps queues)) [
      | inr no_step ↦ rw no_step (ground (arith, total-eq-zero queues no_step))
      | inl more ↦ ground (
        arith,
        more,
        round_robin-length fuel slots (queues ++ [] ∷ []) selected,
        measure-skip queues more,
        total-append queues ([] ∷ []),
      )
    ]
round_robin-length (suc fuel) slots ((step ∷ queue) ∷ queues) selected enough room = ground (
  arith,
  round_robin-length fuel slots (queues ++ queue ∷ []) (selected ++ step ∷ []),
  measure-take step queue queues,
  total-append queues (queue ∷ []),
  length-append selected (step ∷ []),
)

lead-bound : (queues : Queues) → measure queues < suc (total queues) * suc (length queues)
unfolding measure
lead-bound queues = omega (arith, lead-le queues)

-- The scheduler is work-conserving: it selects as many steps as there are free slots, or all the
-- steps that the runs have ready if these are fewer.
pub length-schedule_across_runs :
    (plans : List AgentRunPlan) (global_parallelism : ℕ)
    → length (schedule_across_runs plans global_parallelism)
      ≡ min (global_parallelism - all_active plans) (total (map schedule_ready_steps plans))
unfolding schedule_across_runs
length-schedule_across_runs plans global_parallelism =
    rw
      (round_robin-length _ (global_parallelism - all_active plans) (map schedule_ready_steps plans)
        [] (lead-bound (map schedule_ready_steps plans)) (omega arith))
      (omega arith)

-- What holds of all that is queued holds of all that is selected.
pub All-round_robin {κ} :
    (P : AgentStep → Type κ) (fuel slots : ℕ) (queues : Queues) (selected : List AgentStep)
    → All (All P) queues
    → All P selected
    → All P (round_robin fuel slots queues selected)
unfolding round_robin
All-round_robin P zero slots queues selected hq hs = hs
All-round_robin P (suc fuel) slots [] selected hq hs = hs
All-round_robin P (suc fuel) slots ([] ∷ queues) selected hq hs =
    elim (Bool-cases (ltb (length selected) slots && has_steps queues)) [
      | inr stop ↦ rw stop hs
      | inl go ↦ rw go (
          All-round_robin P fuel slots (queues ++ [] ∷ []) selected
            (All-append (All P) queues ([] ∷ []) hq.1 (tt, tt)) hs)
    ]
All-round_robin P (suc fuel) slots ((step ∷ queue) ∷ queues) selected hq hs =
    elim (Bool-cases (ltb (length selected) slots)) [
      | inr stop ↦ rw stop hs
      | inl go ↦ rw go (
          All-round_robin P fuel slots (queues ++ queue ∷ []) (selected ++ step ∷ [])
            (All-append (All P) queues (queue ∷ []) hq.1 (hq.0.1, tt))
            (All-append P selected (step ∷ []) hs (hq.0.0, tt)))
    ]

-- The first step of each queue that has one, in the order of the queues.
abbrev pub heads : Queues → List AgentStep
heads [] = []
heads ([] ∷ queues) = heads queues
heads ((step ∷ queue) ∷ queues) = step ∷ heads queues

abbrev tails : Queues → Queues
tails [] = []
tails ([] ∷ queues) = [] ∷ tails queues
tails ((step ∷ queue) ∷ queues) = queue ∷ tails queues

-- The list begins with the other.
abbrev pub StartsWith : List AgentStep → List AgentStep → Type 0
StartsWith xs ys = (zs : List AgentStep) × (xs ≡ ys ++ zs)

-- What is selected stays selected.
round_robin-StartsWith :
    (fuel slots : ℕ) (queues : Queues) (selected : List AgentStep)
    → StartsWith (round_robin fuel slots queues selected) selected
unfolding round_robin
round_robin-StartsWith zero slots queues selected = ([], sym (append-nil selected))
round_robin-StartsWith (suc fuel) slots [] selected = ([], sym (append-nil selected))
round_robin-StartsWith (suc fuel) slots ([] ∷ queues) selected =
    elim (Bool-cases (ltb (length selected) slots && has_steps queues)) [
      | inr stop ↦ rw stop ([], sym (append-nil selected))
      | inl go ↦ rw go (round_robin-StartsWith fuel slots (queues ++ [] ∷ []) selected)
    ]
round_robin-StartsWith (suc fuel) slots ((step ∷ queue) ∷ queues) selected =
    elim (Bool-cases (ltb (length selected) slots)) [
      | inr stop ↦ rw stop ([], sym (append-nil selected))
      | inl go ↦
          let (rest, e) =
            round_robin-StartsWith fuel slots (queues ++ queue ∷ []) (selected ++ step ∷ []) in
          rw go (step ∷ rest, e ∙ append_assoc selected (step ∷ []) rest)
    ]

heads_of_none : (front back : Queues) → has_steps (front ++ back) ≡ false → heads front ≡ []
heads_of_none [] back h = refl
heads_of_none ([] ∷ front) back h = heads_of_none front back h
heads_of_none ((step ∷ queue) ∷ front) back h = absurd (ground (arith, h))

nil_of_length : (steps : List AgentStep) → length steps ≡ 0 → steps ≡ []
nil_of_length [] h = refl
nil_of_length (step ∷ steps) h = absurd (omega arith)

StartsWith-nil : (selected : List AgentStep) → StartsWith selected (selected ++ [])
StartsWith-nil selected = ([], cc (append-nil selected, append-nil (selected ++ [])))

-- One pass over the queues, with room for the heads, selects them.
round_robin-heads :
    (fuel slots : ℕ) (front back : Queues) (selected : List AgentStep)
    → length front ≤ fuel
    → length selected + length (heads front) ≤ slots
    → StartsWith (round_robin fuel slots (front ++ back) selected) (selected ++ heads front)
unfolding round_robin
round_robin-heads fuel slots [] back selected f room =
    rw (append-nil selected) (round_robin-StartsWith fuel slots back selected)
round_robin-heads zero slots (q ∷ front) back selected f room = absurd (omega arith)
round_robin-heads (suc fuel) slots ([] ∷ front) back selected f room =
    elim (Bool-cases (has_steps (front ++ back))) [
      | inr over ↦ elim (Bool-cases (ltb (length selected) slots)) [
        | inr full ↦ rw (full, heads_of_none front back over) (StartsWith-nil selected)
        | inl room_left ↦
            rw (room_left, over, heads_of_none front back over) (StartsWith-nil selected)
      ]
      | inl more ↦ elim (Bool-cases (ltb (length selected) slots)) [
        | inr full ↦
            let none_left = nil_of_length (heads front) (ground (arith, room)) in
            rw (full, none_left) (StartsWith-nil selected)
        | inl go ↦
            rw (go, more, append_assoc front back ([] ∷ []))
              (round_robin-heads fuel slots front (back ++ [] ∷ []) selected (omega arith) room)
      ]
    ]
round_robin-heads (suc fuel) slots ((step ∷ queue) ∷ front) back selected f room =
    let go : ltb (length selected) slots ≡ true = ground (arith, room) in
    let (rest, e) =
      round_robin-heads fuel slots front (back ++ queue ∷ []) (selected ++ step ∷ []) (omega arith)
        (omega (arith, length-append selected (step ∷ []))) in
    rw (go, append_assoc front back (queue ∷ []))
      (rest, e ∙ ap (λ xs. xs ++ rest) (append_assoc selected (step ∷ []) (heads front)))

round_robin-heads_all :
    (fuel slots : ℕ) (queues : Queues)
    → length queues ≤ fuel
    → length (heads queues) ≤ slots
    → StartsWith (round_robin fuel slots queues []) (heads queues)
round_robin-heads_all fuel slots queues f room =
    rw (append-nil queues) at (round_robin-heads fuel slots queues [] [] f (omega arith))

-- No run is served twice before every run that has a ready step is served: if the free slots allow
-- one for each such run, the selection begins with the first ready step of each.
pub schedule_across_runs-StartsWith :
    (plans : List AgentRunPlan) (global_parallelism : ℕ)
    → length (heads (map schedule_ready_steps plans)) ≤ global_parallelism - all_active plans
    → StartsWith
        (schedule_across_runs plans global_parallelism)
        (heads (map schedule_ready_steps plans))
unfolding schedule_across_runs
schedule_across_runs-StartsWith plans global_parallelism room =
    round_robin-heads_all _ (global_parallelism - all_active plans) (map schedule_ready_steps plans)
      (omega arith) room
