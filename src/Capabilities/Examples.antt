-- ===== src/Capabilities/Examples.antt =====
-- The registry of capability-registry.ts with the capabilities that the platform has.
use circuit_agent.Prelude.{◌≡◌, refl, List, [], ◌∷◌, All, ok, template, trim}
use circuit_agent.Capabilities.{
  CapabilityManifest, TaskKind, is_capability_id, entry_issues, manifest_issues,
  validate_capability_manifests, new_registry, list_for, defaults_for, set_entry, select, resolve,
}
use circuit_agent.Capabilities.Manifests.{
  manifests, reasoning_plan, operations_execute, web_research,
}
use circuit_agent.Capabilities.Laws.{IsSafe, HasDistinctIds, new_registry-IsSafe}

manifests_accepted : new_registry manifests ≡ ok manifests
unfolding new_registry validate_capability_manifests manifest_issues entry_issues is_capability_id
    manifests template trim
manifests_accepted = refl

new_registry-IsSafe_example :
    (manifests ≡ manifests) × All IsSafe manifests × HasDistinctIds manifests
new_registry-IsSafe_example = new_registry-IsSafe manifests manifests manifests_accepted

abbrev for_operations : List CapabilityManifest
for_operations = reasoning_plan ∷ operations_execute ∷ web_research ∷ []

operations_resolved :
    resolve manifests TaskKind.operations ("web.research" ∷ []) ≡ ok for_operations
unfolding resolve select defaults_for list_for set_entry manifests
operations_resolved = refl
