-- ===== src/Permissions/Examples.antt =====
-- A ledger of permissions.ts in build mode that has been told to allow one action for good.
use circuit_agent.Prelude.{◌≡◌, refl, false, some, [], ◌∷◌, template}
use circuit_agent.Permissions.{
  NovaMode, PermissionDecision, approved, ToolEffect, Standing, Action, scope_key, PermissionLedger,
  standing_for, decide,
}
use circuit_agent.Permissions.Consent.{MayRun, decide-MayRun}

abbrev edit : Action
edit = record {
  tool_name = "edit_file";
  effect = ToolEffect.workspace;
  sensitive = false;
  digest = "e1";
}

abbrev ledger : PermissionLedger
ledger = record {
  mode = NovaMode.build;
  standing = (scope_key edit, Standing.allow) ∷ [];
  legacy_denied_tools = [];
}

edit_approved : (decide ledger edit PermissionDecision.deny).1 ≡ approved
unfolding decide standing_for template
edit_approved = refl

decide-MayRun_example : MayRun ledger edit PermissionDecision.deny
decide-MayRun_example = decide-MayRun ledger edit PermissionDecision.deny edit_approved

edit_allowed : standing_for ledger.standing (scope_key edit) ≡ some Standing.allow
unfolding standing_for template
edit_allowed = refl
