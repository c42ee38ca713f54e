-- ===== src/Permissions.antt =====
-- packages/agent-core/src/nova-cli/permissions.ts: who decides whether a tool call runs. The safety
-- rules of safety.ts and the digest of an action are parameters, as is what a human answers.
pub mod Consent
mod Examples
use circuit_agent.Prelude.{
  String, Bool, true, false, not, ◌&&◌, Option, none, some, List, [], ◌∷◌, if◌then◌else◌, includes,
  template, ◌==◌,
}

pub data NovaMode : Type 0 where
  plan build auto defender : NovaMode

pub data PermissionDecision : Type 0 where
  allow allow_always deny deny_always : PermissionDecision

pub data ToolApprovalOutcome : Type 0 where
  approved denied : ToolApprovalOutcome

pub data ToolEffect : Type 0 where
  no_effect workspace external : ToolEffect

pub data Standing : Type 0 where
  allow deny : Standing

-- `capabilitiesForMode`.
abbrev pub working_capabilities : List String
working_capabilities =
    "workspace.files.read" ∷ "workspace.files" ∷ "workspace.terminal" ∷ "web.research"
    ∷ "reasoning.plan" ∷ "workspace.external" ∷ []

unfoldable pub capabilities_for_mode : NovaMode → List String
capabilities_for_mode plan = "workspace.files.read" ∷ "web.research" ∷ "reasoning.plan" ∷ []
capabilities_for_mode build = working_capabilities
capabilities_for_mode auto = working_capabilities
capabilities_for_mode defender =
    "workspace.files.read" ∷ "workspace.files" ∷ "workspace.terminal" ∷ "web.research"
    ∷ "reasoning.plan" ∷ "workspace.external" ∷ "security.playbooks" ∷ []

-- What the ledger reads of a call and its tool: the effect, the name, whether the safety rules call
-- it sensitive, and the digest of the exact action.
pub record Action : Type 0 where
  pub tool_name : String
  pub effect : ToolEffect
  pub sensitive : Bool
  pub digest : String

abbrev pub approval_policy_version : String
approval_policy_version = "nova-approval-v2"

abbrev pub scope_key : Action → String
scope_key action = template (approval_policy_version ∷ ":" ∷ action.digest ∷ [])

pub record PermissionLedger : Type 0 where
  pub mode : NovaMode
  pub standing : List (String × Standing)
  pub legacy_denied_tools : List String

unfoldable pub standing_for : List (String × Standing) → String → Option Standing
standing_for [] scope = none
standing_for ((key, decision) ∷ standing) scope =
    if key == scope then some decision else standing_for standing scope

abbrev pub is_auto : NovaMode → Bool
is_auto auto = true
is_auto _ = false

abbrev pub is_workspace : ToolEffect → Bool
is_workspace workspace = true
is_workspace _ = false

abbrev pub has_no_effect : ToolEffect → Bool
has_no_effect no_effect = true
has_no_effect _ = false

abbrev pub fast_path : NovaMode → Action → Bool
fast_path mode action = is_auto mode && is_workspace action.effect && not action.sensitive

abbrev pub outcome_of : Standing → ToolApprovalOutcome
outcome_of Standing.allow = approved
outcome_of Standing.deny = denied

abbrev pub remember : PermissionLedger → String → Standing → PermissionLedger
remember ledger scope decision = record ledger { standing = (scope, decision) ∷ ledger.standing }

-- After the human's answer.
abbrev pub answered :
    PermissionLedger → String → PermissionDecision → PermissionLedger × ToolApprovalOutcome
answered ledger scope PermissionDecision.allow = (ledger, approved)
answered ledger scope allow_always = (remember ledger scope Standing.allow, approved)
answered ledger scope PermissionDecision.deny = (ledger, denied)
answered ledger scope deny_always = (remember ledger scope Standing.deny, denied)

-- The chain of `decide` over its tests: no effect, the fast path, a denied tool, a standing decision.
abbrev pub settle :
    (free fast denied_tool : Bool)
    → Option Standing
    → PermissionLedger
    → String
    → PermissionDecision
    → PermissionLedger × ToolApprovalOutcome
settle true fast denied_tool found ledger scope answer = (ledger, approved)
settle false true denied_tool found ledger scope answer = (ledger, approved)
settle false false true found ledger scope answer = (ledger, denied)
settle false false false (some decision) ledger scope answer = (ledger, outcome_of decision)
settle false false false none ledger scope answer = answered ledger scope answer

-- `decide`, with the answer that the prompt gives if it comes to that.
unfoldable pub decide :
    PermissionLedger → Action → PermissionDecision → PermissionLedger × ToolApprovalOutcome
decide ledger action answer =
    settle (has_no_effect action.effect) (fast_path ledger.mode action)
      (includes ledger.legacy_denied_tools action.tool_name)
      (standing_for ledger.standing (scope_key action)) ledger (scope_key action) answer

-- The ledger after a sequence of decisions.
unfoldable pub decide_all : PermissionLedger → List (Action × PermissionDecision) → PermissionLedger
unfolding decide
decide_all ledger [] = ledger
decide_all ledger ((action, answer) ∷ rest) = decide_all (decide ledger action answer).0 rest
