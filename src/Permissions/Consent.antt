-- ===== src/Permissions/Consent.antt =====
-- What the permission ledger of permissions.ts promises: nothing effectful runs without consent, and
-- a standing decision stands.
use circuit_agent.Prelude.{
  String, ◌≡◌, ◌≢◌, ◌⊎◌, inl, inr, refl, ap, Bool, true, false, Option, none, some, List, [], ◌∷◌,
  ◌++◌, arith, All, All-of_includes, Bool-cases, includes, ◌==◌, eq_iff,
}
use circuit_agent.Permissions.{
  NovaMode, auto, ToolEffect, no_effect, workspace, PermissionDecision, allow_always, deny_always,
  approved, Standing, Action, scope_key, PermissionLedger, standing_for, has_no_effect, fast_path,
  answered, settle, decide, decide_all,
}

-- The answers that let one action run.
abbrev pub Consents : PermissionDecision → Type 0
Consents answer = (answer ≡ PermissionDecision.allow) ⊎ (answer ≡ allow_always)

-- The newest standing decision on a scope allows it.
abbrev pub IsAllowed : List (String × Standing) → String → Type 0
IsAllowed standing scope =
    (newer older : List (String × Standing)) × (standing ≡ newer ++ (scope, Standing.allow) ∷ older)
    × All (λ entry. entry.0 ≢ scope) newer

-- Why an action may run: it changes nothing; or the mode is auto and it is an edit of the workspace
-- that is not sensitive; or its tool is not denied, and the newest standing decision on exactly this
-- action allows it, or there is none and the human does.
abbrev pub MayRun : PermissionLedger → Action → PermissionDecision → Type 0
MayRun ledger action answer =
    (action.effect ≡ no_effect)
    ⊎ ((ledger.mode ≡ auto) × (action.effect ≡ workspace) × (action.sensitive ≡ false))
    ⊎ (All (λ tool. tool ≢ action.tool_name) ledger.legacy_denied_tools
        × (IsAllowed ledger.standing (scope_key action)
            ⊎ (All (λ entry. entry.0 ≢ scope_key action) ledger.standing × Consents answer)))

standing_for-allow :
    (standing : List (String × Standing)) (scope : String)
    → standing_for standing scope ≡ some Standing.allow
    → IsAllowed standing scope
unfolding standing_for
standing_for-allow [] scope e = absurd (cc e)
standing_for-allow ((key, decision) ∷ standing) scope e = elim (Bool-cases (key == scope)) [
  | inl same ↦
      let named = (eq_iff key scope).0 same in
      let allowed : decision ≡ Standing.allow = cc (rw same at e) in
      ([], standing, cc (named, allowed), tt)
  | inr differs ↦
      let (newer, older, split, absent) = standing_for-allow standing scope (rw differs at e) in
      (
        (key, decision) ∷ newer,
        older,
        ap (λ rest. (key, decision) ∷ rest) split,
        (ground (arith, eq_iff key scope, differs), absent),
      )
]

standing_for-eq-none :
    (standing : List (String × Standing)) (scope : String)
    → standing_for standing scope ≡ none
    → All (λ entry. entry.0 ≢ scope) standing
unfolding standing_for
standing_for-eq-none [] scope e = tt
standing_for-eq-none ((key, decision) ∷ standing) scope e = elim (Bool-cases (key == scope)) [
  | inl same ↦ absurd (cc (rw same at e))
  | inr differs ↦ (
    ground (arith, eq_iff key scope, differs),
    standing_for-eq-none standing scope (rw differs at e),
  )
]

no_effect_of : (done : ToolEffect) → has_no_effect done ≡ true → done ≡ no_effect
no_effect_of done e = ground (arith, e)

fast_path_lem :
    (mode : NovaMode) (action : Action)
    → fast_path mode action ≡ true
    → (mode ≡ auto) × (action.effect ≡ workspace) × (action.sensitive ≡ false)
fast_path_lem mode action e = ground (arith, e)

answered-Consents :
    (ledger : PermissionLedger) (scope : String) (answer : PermissionDecision)
    → (answered ledger scope answer).1 ≡ approved
    → Consents answer
answered-Consents ledger scope PermissionDecision.allow e = inl refl
answered-Consents ledger scope allow_always e = inr refl
answered-Consents ledger scope PermissionDecision.deny e = cc
answered-Consents ledger scope deny_always e = cc

settle-approved :
    (free fast denied_tool : Bool) (found : Option Standing) (ledger : PermissionLedger)
    (scope : String) (answer : PermissionDecision)
    → (settle free fast denied_tool found ledger scope answer).1 ≡ approved
    → (free ≡ true)
      ⊎ (fast ≡ true)
      ⊎ ((denied_tool ≡ false)
          × ((found ≡ some Standing.allow) ⊎ ((found ≡ none) × Consents answer)))
settle-approved true fast denied_tool found ledger scope answer e = inl refl
settle-approved false true denied_tool found ledger scope answer e = inr (inl refl)
settle-approved false false true found ledger scope answer e = cc
settle-approved false false false (some Standing.allow) ledger scope answer e =
    inr (inr (refl, inl refl))
settle-approved false false false (some Standing.deny) ledger scope answer e = cc
settle-approved false false false none ledger scope answer e =
    inr (inr (refl, inr (refl, answered-Consents ledger scope answer e)))

-- An action that is approved changes nothing; or is an edit of the workspace, not sensitive, in auto
-- mode; or is of a tool that is not denied and is allowed by the newest standing decision on it, or
-- by the human where there is no standing decision.
pub decide-MayRun :
    (ledger : PermissionLedger) (action : Action) (answer : PermissionDecision)
    → (decide ledger action answer).1 ≡ approved
    → MayRun ledger action answer
unfolding decide
decide-MayRun ledger action answer e =
    elim (settle-approved (has_no_effect action.effect) (fast_path ledger.mode action)
      (includes ledger.legacy_denied_tools action.tool_name)
      (standing_for ledger.standing (scope_key action)) ledger (scope_key action) answer e) [
        | inl free ↦ inl (no_effect_of action.effect free)
        | inr (inl fast) ↦ inr (inl (fast_path_lem ledger.mode action fast))
        | inr (inr (tool, inl found)) ↦ inr (
            inr (
              All-of_includes ledger.legacy_denied_tools action.tool_name tool,
              inl (standing_for-allow ledger.standing (scope_key action) found),
            ))
        | inr (inr (tool, inr (absent, consents))) ↦ inr (
            inr (
              All-of_includes ledger.legacy_denied_tools action.tool_name tool,
              inr (standing_for-eq-none ledger.standing (scope_key action) absent, consents),
            ))
      ]

answered-keeps :
    (ledger : PermissionLedger) (scope other : String) (answer : PermissionDecision)
    (decision : Standing)
    → standing_for ledger.standing scope ≡ none
    → standing_for ledger.standing other ≡ some decision
    → standing_for (answered ledger scope answer).0.standing other ≡ some decision
unfolding standing_for
answered-keeps ledger scope other PermissionDecision.allow decision absent h = h
answered-keeps ledger scope other PermissionDecision.deny decision absent h = h
answered-keeps ledger scope other allow_always decision absent h =
    elim (Bool-cases (scope == other)) [
      | inl same ↦ let named = (eq_iff scope other).0 same in cc (absent, h, named)
      | inr differs ↦ rw differs h
    ]
answered-keeps ledger scope other deny_always decision absent h =
    elim (Bool-cases (scope == other)) [
      | inl same ↦ let named = (eq_iff scope other).0 same in cc (absent, h, named)
      | inr differs ↦ rw differs h
    ]

settle-keeps :
    (free fast denied_tool : Bool) (found : Option Standing) (ledger : PermissionLedger)
    (scope other : String) (answer : PermissionDecision) (decision : Standing)
    → standing_for ledger.standing scope ≡ found
    → standing_for ledger.standing other ≡ some decision
    → standing_for (settle free fast denied_tool found ledger scope answer).0.standing other
      ≡ some decision
settle-keeps true fast denied_tool found ledger scope other answer decision e h = h
settle-keeps false true denied_tool found ledger scope other answer decision e h = h
settle-keeps false false true found ledger scope other answer decision e h = h
settle-keeps false false false (some d) ledger scope other answer decision e h = h
settle-keeps false false false none ledger scope other answer decision e h =
    answered-keeps ledger scope other answer decision e h

-- A standing decision stays as it is, whatever is decided after it.
pub decide_all-keeps :
    (ledger : PermissionLedger) (decisions : List (Action × PermissionDecision)) (scope : String)
    (decision : Standing)
    → standing_for ledger.standing scope ≡ some decision
    → standing_for (decide_all ledger decisions).standing scope ≡ some decision
unfolding decide_all decide
decide_all-keeps ledger [] scope decision h = h
decide_all-keeps ledger ((action, answer) ∷ rest) scope decision h =
    decide_all-keeps (decide ledger action answer).0 rest scope decision (
      settle-keeps (has_no_effect action.effect) (fast_path ledger.mode action)
        (includes ledger.legacy_denied_tools action.tool_name)
        (standing_for ledger.standing (scope_key action)) ledger (scope_key action) scope answer
        decision refl h)
