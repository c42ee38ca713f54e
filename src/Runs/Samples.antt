-- ===== src/Runs/Samples.antt =====
-- A task with one run of two steps, the first of which a worker has, and what may happen to it.
use circuit_agent.Prelude.{
  decimal, ℕ, refl, true, false, none, some, List, [], ◌∷◌, Result, arith, map,
}
use circuit_agent.Plan.{StepStatus, AgentRole}
use circuit_agent.Capabilities.{TaskKind}
use circuit_agent.Authz.{OrganizationRole}
use circuit_agent.Runs.{
  Database, TaskRow, RunRow, StepRow, TaskStatus, RunState, StepApproval, HoldStatus,
}
use circuit_agent.Runs.Create.{NewStep, TaskRunArgs, create_task_run}
use circuit_agent.Runs.Table.{get}
use circuit_agent.Runs.Balance.{held_for, used, IsSound}
use circuit_agent.Runs.Claim.{ClaimArgs}
use circuit_agent.Runs.Lease.{HeartbeatArgs, ArtifactArgs, RetryArgs}
use circuit_agent.Runs.Outcome.{OutcomeArgs, failed}
use circuit_agent.Runs.Commands.{
  Mutation, claim_a_step, release_for_retry, step_outcome, expired_leases, transact, transact_all,
  committed,
}
use circuit_agent.Runs.Approve.{Choice, ApprovalOutcome, decide_approval}

abbrev pub site_task : TaskRow
site_task = record {
  id = 1;
  organization_id = 7;
  title = "Site";
  kind = TaskKind.coding;
  status = TaskStatus.running;
  max_rwf = 100;
  spent_rwf = 0;
  reserved_rwf = 40;
}

abbrev pub site_run : RunRow
site_run = record {
  id = 2;
  task_id = 1;
  kind = TaskKind.coding;
  role = AgentRole.coding;
  status = RunState.running;
  objective = "Build the site";
  capability_ids = [];
  max_parallelism = 2;
  sandbox_id = none;
  preview_expires_at = none;
  created_at = 0;
  started_at = some 1;
  completed_at = none;
  cancel_requested_at = none;
}

abbrev pub plan_step : StepRow
plan_step = record {
  id = 3;
  run_id = 2;
  step_key = "plan";
  title = "Plan";
  role = AgentRole.coding;
  status = StepStatus.running;
  depends_on = [];
  requires_approval = false;
  sandbox_template = none;
  capability_ids = [];
  approval_status = StepApproval.not_required;
  attempts = 1;
  claimed_by = some "w1";
  claimed_at = some 5;
  lease_expires_at = some 1_000;
  heartbeat_at = some 5;
  sandbox_id = none;
  phase = none;
  plan_bytes = none;
  resumes = none;
  reserved_rwf = some 40;
  completed_at = none;
  summary = none;
  artifact_references = [];
  created_at = 0;
}

abbrev pub build_step : StepRow
build_step = record plan_step {
  id = 4;
  step_key = "build";
  title = "Build";
  status = StepStatus.pending;
  claimed_by = none;
  claimed_at = none;
  lease_expires_at = none;
  heartbeat_at = none;
  reserved_rwf = none;
}

abbrev pub site_db : Database
site_db = record {
  tasks = site_task ∷ [];
  runs = site_run ∷ [];
  steps = plan_step ∷ build_step ∷ [];
  approvals = [];
  holds = record { id = 5; task_id = 1; amount_rwf = 100; status = HoldStatus.authorized } ∷ [];
  usage = [];
  artifacts = [];
  memberships =
      record {
        organization_id = 7;
        identity_subject = "ann";
        role = OrganizationRole.member;
        active = true;
      }
      ∷ [];
  run_events = [];
  task_events = [];
  effects = [];
  next_id = 10;
}

pub site_db-IsSound : IsSound site_db
unfolding get held_for used
site_db-IsSound = record {
  tasks_distinct = (refl, tt);
  runs_distinct = (refl, tt);
  steps_distinct = (refl, (refl, tt));
  balanced = ((refl, refl, omega arith), tt);
  within = (omega arith, tt);
}

abbrev pub claim_build : ClaimArgs
claim_build = record {
  run_id = 2;
  step_id = 4;
  worker_id = "w2";
  estimated_rwf = 50;
  lease_ms = 60_000;
}

abbrev pub plan_failed : OutcomeArgs
plan_failed = record {
  run_id = 2;
  step_id = 3;
  worker_id = "w1";
  actual_rwf = 25;
  provider = "p";
  meter = "tokens";
  quantity = 1;
  usage_idempotency_key = "k1";
  outcome = failed;
  next_attempt_estimate_rwf = none;
  summary = "It broke";
  artifact_references = [];
}

abbrev pub site_mutations : List (Mutation × ℕ)
site_mutations =
    (claim_a_step claim_build, 10)
    ∷ (step_outcome plan_failed, 20)
    ∷ (expired_leases 3, 90_000)
    ∷ []

abbrev pub back_off : RetryArgs
back_off = record {
  run_id = 2;
  step_id = 3;
  worker_id = "w1";
  reason = "a timeout";
  retry_after_ms = 0;
}

abbrev pub a_beat : HeartbeatArgs
a_beat = record {
  run_id = 0;
  step_id = 0;
  worker_id = "";
  sandbox_id = some "sb";
  lease_ms = 60_000;
  phase = none;
  plan_bytes = none;
}

abbrev pub a_patch : ArtifactArgs
a_patch = record {
  run_id = 0;
  step_id = 0;
  worker_id = "";
  reference = "patch";
  sha256 = "0123456789abcdef0123456789abcdef0123456789abcdef0123456789abcdef";
  byte_length = 9;
}

abbrev pub run_statuses : Database → List RunState
run_statuses db = map (λ r. r.status) db.runs

abbrev pub after_claim : Database
after_claim = transact (claim_a_step claim_build) 10 site_db

-- A claim past the cap asks for a larger one. Then the other step gives its reservation back, the claim
-- goes through at a lower estimate, and only then the larger cap is approved.
abbrev pub admin_db : Database
admin_db = record site_db {
  memberships =
      record {
        organization_id = 7;
        identity_subject = "ann";
        role = OrganizationRole.admin;
        active = true;
      }
      ∷ [];
}

abbrev pub asked_and_claimed : Database
asked_and_claimed =
    transact_all
      ((claim_a_step (record claim_build { estimated_rwf = 70 }), 10)
        ∷ (release_for_retry back_off, 20)
        ∷ (claim_a_step claim_build, 30)
        ∷ [])
      admin_db

abbrev pub overage_approved : Result (Database × ApprovalOutcome)
overage_approved = decide_approval decimal (some "ann") 10 Choice.approved 40 asked_and_claimed

abbrev pub after_approval : Database
after_approval = committed asked_and_claimed overage_approved

abbrev pub new_step : NewStep
new_step = record {
  step_key = "plan";
  title = "Plan";
  role = AgentRole.planner;
  depends_on = [];
  requires_approval = true;
  sandbox_template = none;
  capability_ids = [];
}

abbrev pub two_steps : TaskRunArgs
two_steps = record {
  task_id = 1;
  kind = none;
  max_parallelism = 2;
  objective = "Build the site";
  steps = new_step ∷ record new_step { step_key = "build"; depends_on = "plan" ∷ [] } ∷ [];
}

abbrev pub created : Database
created = committed site_db (create_task_run (some "ann") [] two_steps 3 site_db)
