-- ===== src/Plan/Acyclic.antt =====
-- A plan that `validateTaskGraph` of apps/web/lib/agent-orchestration.ts accepts has an order in
-- which its steps can run: the depth-first search leaves it in its set of visited steps.
use circuit_agent.Prelude.{
  ℕ, zero, suc, String, ◌≡◌, refl, sym, subst, inl, inr, Bool, true, false, none, List, [], ◌∷◌,
  arith, Bool-cases, includes, All,
}
use text.Mathlib.TextPositions.{eq_refl}
use circuit_agent.Plan.{AgentStep}
use circuit_agent.Plan.Validate.{
  Marks, step_ids, find_last, dependencies_in, enter, visit_some, visit, find_cycle,
}

-- Of each id in the list, the dependencies that are steps come after it.
abbrev pub IsOrdered : List AgentStep → List String → Type 0
IsOrdered steps [] = Unit
IsOrdered steps (id ∷ rest) =
    All (λ d. includes (step_ids steps) d ≡ true → includes rest d ≡ true)
      (dependencies_in (find_last id steps))
    × IsOrdered steps rest

-- What a search that meets no cycle leaves.
pub record Searched (steps : List AgentStep) (before after : Marks) : Type 0 where
  pub ordered : IsOrdered steps after.visited
  pub grows : (id : String) → includes before.visited id ≡ true → includes after.visited id ≡ true

-- What a search through dependencies leaves, if its reply is no cycle.
record SomeSearched (steps : List AgentStep) (dependencies : List String) (before : Marks)
    (reply : Bool × Marks) : Type 0 where
  searched : Searched steps before reply.1
  found :
      All (λ d. includes (step_ids steps) d ≡ true → includes reply.1.visited d ≡ true) dependencies

module _ (steps : List AgentStep) (search_from : String → Marks → Bool × Marks) where
  abbrev search_some : List String → Marks → Bool × Marks
  search_some = visit_some search_from (step_ids steps)

  search_some-unknown :
      (d : String) (ds : List String) (marks : Marks)
      → includes (step_ids steps) d ≡ false
      → search_some (d ∷ ds) marks ≡ search_some ds marks
  unfolding visit_some
  search_some-unknown d ds marks unknown = rw unknown refl

  search_some-fine :
      (d : String) (ds : List String) (marks : Marks)
      → includes (step_ids steps) d ≡ true
      → (search_from d marks).0 ≡ false
      → search_some (d ∷ ds) marks ≡ search_some ds (search_from d marks).1
  unfolding visit_some
  search_some-fine d ds marks known fine = rw (known, fine) refl

  search_some-cyclic :
      (d : String) (ds : List String) (marks : Marks)
      → includes (step_ids steps) d ≡ true
      → (search_from d marks).0 ≡ true
      → (search_some (d ∷ ds) marks).0 ≡ true
  unfolding visit_some
  search_some-cyclic d ds marks known cyclic = rw (known, cyclic) refl

  module _
      (ih : (id : String) (marks : Marks)
        → IsOrdered steps marks.visited
        → (search_from id marks).0 ≡ false
        → Searched steps marks (search_from id marks).1
          × (includes (search_from id marks).1.visited id ≡ true)) where
    visit_some-Searched :
        (dependencies : List String) (marks : Marks)
        → IsOrdered steps marks.visited
        → (search_some dependencies marks).0 ≡ false
        → SomeSearched steps dependencies marks (search_some dependencies marks)
    visit_some-Searched [] marks ordered e =
        unfold visit_some in
        record { searched = record { ordered = ordered; grows = λ id h. h }; found = tt }
    visit_some-Searched (d ∷ ds) marks ordered e = elim (Bool-cases (includes (step_ids steps) d)) [
      | inr unknown ↦
          let same = search_some-unknown d ds marks unknown in
          let rest = visit_some-Searched ds marks ordered (rw same at e) in
          subst (SomeSearched steps (d ∷ ds) marks) (sym same)
            (record { searched = rest.searched; found = ((λ h. cc), rest.found) })
      | inl known ↦ elim (Bool-cases (search_from d marks).0) [
        | inl cyclic ↦ cc (search_some-cyclic d ds marks known cyclic, e)
        | inr fine ↦
            let (first, here) = ih d marks ordered fine in
            let same = search_some-fine d ds marks known fine in
            let rest =
              visit_some-Searched ds (search_from d marks).1 first.ordered (rw same at e) in
            subst (SomeSearched steps (d ∷ ds) marks) (sym same) (record {
              searched = record {
                ordered = rest.searched.ordered;
                grows = λ id h. rest.searched.grows id (first.grows id h);
              };
              found = ((λ h. rest.searched.grows d here), rest.found);
            })
      ]
    ]

visit-Searched :
    (fuel : ℕ) (steps : List AgentStep) (id : String) (marks : Marks)
    → IsOrdered steps marks.visited
    → (visit fuel steps id marks).0 ≡ false
    → Searched steps marks (visit fuel steps id marks).1
      × (includes (visit fuel steps id marks).1.visited id ≡ true)
unfolding visit
visit-Searched zero steps id marks ordered e = cc
visit-Searched (suc fuel) steps id marks ordered e =
    elim (Bool-cases (includes marks.visiting id)) [
      | inl cyclic ↦ cc (rw cyclic at e)
      | inr new ↦ elim (Bool-cases (includes marks.visited id)) [
        | inl done ↦ rw (new, done) (record { ordered = ordered; grows = λ other h. h }, done)
        | inr fresh ↦
            let rest =
              visit_some-Searched steps (visit fuel steps) (visit-Searched fuel steps)
                (dependencies_in (find_last id steps)) (enter id marks) ordered
                (rw (new, fresh) at e) in
            rw (new, fresh)
              (
                record {
                  ordered = (rest.found, rest.searched.ordered);
                  grows = λ other h. ground (arith, rest.searched.grows other h);
                },
                ground (arith, eq_refl id),
              )
      ]
    ]

-- An order of the plan's steps, last to first.
pub record Order (steps rest : List AgentStep) (before : List String) : Type 0 where
  pub order : List String
  pub ordered : IsOrdered steps order
  pub complete : All (λ step. includes order step.id ≡ true) rest
  pub keeps : (id : String) → includes before id ≡ true → includes order id ≡ true

pub find_cycle-Order :
    (fuel : ℕ) (steps rest : List AgentStep) (marks : Marks)
    → IsOrdered steps marks.visited
    → find_cycle fuel steps rest marks ≡ none
    → Order steps rest marks.visited
unfolding find_cycle
find_cycle-Order fuel steps [] marks ordered e = record {
  order = marks.visited;
  ordered = ordered;
  complete = tt;
  keeps = λ id h. h;
}
find_cycle-Order fuel steps (step ∷ rest) marks ordered e =
    elim (Bool-cases (visit fuel steps step.id marks).0) [
      | inl cyclic ↦ cc (rw cyclic at e)
      | inr fine ↦
          let (searched, here) = visit-Searched fuel steps step.id marks ordered fine in
          let later =
            find_cycle-Order fuel steps rest (visit fuel steps step.id marks).1 searched.ordered
              (rw fine at e) in
          record {
            order = later.order;
            ordered = later.ordered;
            complete = (later.keeps step.id here, later.complete);
            keeps = λ id h. later.keeps id (searched.grows id h);
          }
    ]
