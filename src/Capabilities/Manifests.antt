-- ===== src/Capabilities/Manifests.antt =====
-- apps/web/lib/capability-registry.ts: the capabilities that the platform has.
use circuit_agent.Prelude.{true, false, List, [], ◌∷◌}
use circuit_agent.Capabilities.{
  CapabilityManifest, TaskKind, research, writing, operations, core, skill, connector, observe,
  modify_workspace, external_action, CapabilityRuntime,
}

abbrev pub reasoning_plan : CapabilityManifest
reasoning_plan = record {
  id = "reasoning.plan";
  label = "Task planning";
  description = "Decompose a goal into bounded, auditable steps.";
  layer = core;
  task_kinds = TaskKind.coding ∷ research ∷ writing ∷ operations ∷ [];
  runtime = CapabilityRuntime.model;
  risk = observe;
  default_for = TaskKind.coding ∷ research ∷ writing ∷ operations ∷ [];
  requires_approval = false;
  required_configuration = [];
}

abbrev workspace_files : CapabilityManifest
workspace_files = record {
  id = "workspace.files";
  label = "Workspace files";
  description = "Read and write task-scoped artifacts in an isolated workspace.";
  layer = core;
  task_kinds = TaskKind.coding ∷ research ∷ writing ∷ [];
  runtime = CapabilityRuntime.data_runtime;
  risk = modify_workspace;
  default_for = TaskKind.coding ∷ writing ∷ [];
  requires_approval = false;
  required_configuration = "E2B_API_KEY" ∷ "E2B_CODING_TEMPLATE" ∷ [];
}

abbrev workspace_terminal : CapabilityManifest
workspace_terminal = record {
  id = "workspace.terminal";
  label = "Bounded terminal";
  description = "Run allowlisted argv commands with workspace confinement.";
  layer = core;
  task_kinds = TaskKind.coding ∷ [];
  runtime = CapabilityRuntime.coding;
  risk = modify_workspace;
  default_for = TaskKind.coding ∷ [];
  requires_approval = false;
  required_configuration = "E2B_API_KEY" ∷ "E2B_CODING_TEMPLATE" ∷ [];
}

abbrev pub web_research : CapabilityManifest
web_research = record {
  id = "web.research";
  label = "Web research";
  description = "Gather source-backed information through an isolated browser runtime.";
  layer = skill;
  task_kinds = TaskKind.coding ∷ research ∷ writing ∷ operations ∷ [];
  runtime = CapabilityRuntime.browser;
  risk = observe;
  default_for = research ∷ [];
  requires_approval = false;
  required_configuration = "E2B_API_KEY" ∷ "E2B_BROWSER_TEMPLATE" ∷ [];
}

abbrev document_compose : CapabilityManifest
document_compose = record {
  id = "document.compose";
  label = "Document composition";
  description = "Draft, revise, and package a structured deliverable.";
  layer = skill;
  task_kinds = research ∷ writing ∷ [];
  runtime = CapabilityRuntime.data_runtime;
  risk = modify_workspace;
  default_for = research ∷ writing ∷ [];
  requires_approval = false;
  required_configuration = "E2B_API_KEY" ∷ "E2B_DATA_TEMPLATE" ∷ [];
}

abbrev pub operations_execute : CapabilityManifest
operations_execute = record {
  id = "operations.execute";
  label = "External operations";
  description = "Execute a connector action only after an explicit approval checkpoint.";
  layer = connector;
  task_kinds = operations ∷ [];
  runtime = CapabilityRuntime.external;
  risk = external_action;
  default_for = operations ∷ [];
  requires_approval = true;
  required_configuration = "CONNECTOR_RUNTIME_URL" ∷ "CONNECTOR_RUNTIME_TOKEN" ∷ [];
}

unfoldable pub manifests : List CapabilityManifest
manifests =
    reasoning_plan ∷ workspace_files ∷ workspace_terminal ∷ web_research ∷ document_compose
    ∷ operations_execute ∷ []
