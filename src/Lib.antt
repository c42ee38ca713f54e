-- ===== src/Lib.antt =====
-- Circuit-Nova: the core logic of the agent system, verified. The parts modelled are the durable
-- job queue of the command line agent (packages/agent-core/src/nova-cli), the gates and the
-- scheduler of the hosted control plane (apps/web/lib), and the modal editor of the terminal
-- client (packages/nova-cli/src). The code is pure there: a reducer takes a state, its arguments
-- and the time, and returns the new state. The definitions here are those functions, by clauses,
-- with the same branches in the same order.
--
-- Prelude and its children hold what the parts share: Boolean tests, lists over the native
-- numbers, the stable sort, results that may be an error, and the text operations (template
-- literals, String(n), trim).
--
-- Jobs models packages/agent-core/src/nova-cli/jobs.ts: the record Job and the list JobStore, with
-- enqueue, claim, owned_by and claimable in Jobs.antt, the owner's operations, cancel and
-- recover_stale in Jobs/Lifecycle.antt, and request_approval, resolve_approval and
-- consume_approval in Jobs/Approvals.antt. Jobs/Commands.antt models the exported functions of
-- job-store.ts as commands on the store: its lock file makes the commands of all processes one
-- sequence, which is an assumption here, and a reducer that throws writes nothing. Times are
-- natural numbers, so no clock runs below zero; the lock, the JSON file and the logs are not
-- modelled, nor are summarize and describe, which only print.
--
-- Budget models apps/web/lib/agent-budget.ts, step-resume.ts and automation-budget.ts. RWF amounts
-- are natural numbers: evaluateBudget and settleUsage throw on others, except that settleUsage
-- does not check the fields of the budget, which are exact as doubles as long as they are safe
-- integers. The test against 0.85 is that of the rounded quotient of doubles, written as a
-- comparison of products; a rounding in the sums can occur only past the cap, where the answer
-- does not depend on it. The locale of toLocaleString is a parameter.
--
-- Dispatch models apps/web/lib/dispatcher.ts: planDispatch is plan_dispatch, its first loop
-- claim_plans, its second accepted and rejected, its last decide_steps; it calls the scheduler and
-- the money gate modelled here. The objects keyed by run and step are functions into Option.
--
-- Editor models packages/nova-cli/src/editor.ts: the record EditorState and applyEditorAction
-- (next_state is its switch, before the clamp) in Editor.antt, the text and array operations in
-- Editor/Text.antt, keyToEditorAction in Editor/Keys.antt and the screen in Editor/Frame.antt. A
-- position is a natural number, since every position below zero is clamped to zero before it is
-- used; texts are lists of characters, which is what JavaScript counts within the basic plane. The
-- search has the number of lines as its fuel, one for each row that it visits.
--
-- Capabilities models apps/web/lib/capability-registry.ts: the manifests themselves in
-- Capabilities/Manifests.antt, their validation with the pattern of ids as an automaton
-- (Capabilities/Ids.antt has it as a grammar), and the methods of CapabilityRegistry, whose map is
-- the list of its entries.
--
-- Permissions models the class PermissionLedger of packages/agent-core/src/nova-
-- cli/permissions.ts: decide with the answer that the prompt would give, over a record of what it
-- reads of a call. The digest of an action and the verdict of the safety rules are fields of that
-- record, so they may be any.
--
-- Viewport models packages/nova-cli/src/viewport.ts, the scrolled window of the same client,
-- function by function.
--
-- Authz models apps/web/lib/authz.ts and apps/web/convex/lib/authz.ts: roles, permissions, and
-- requireOrganizationPermission, which takes the memberships as a list and the identity of the
-- session as an argument.
--
-- Runs models the hosted control plane's state of record: the tables of apps/web/convex/schema.ts
-- as lists of rows in Runs.antt (Table and Rows have db.get, db.patch and the queries), and the
-- mutations of apps/web/convex/agentRuns.ts on them: claimStep in Runs/Claim.antt (what it grants
-- is read off the rows in Runs/Gates.antt and Runs/Granted.antt), releaseStepForRetry,
-- heartbeatStep, recordWorkerActivity and recordArtifact in Runs/Lease.antt, recordStepOutcome in
-- Runs/Outcome.antt, recoverExpiredLeases in Runs/Recovery.antt, and cancelling, pausing and
-- resuming in Runs/Control.antt. Runs/Resumes.antt is about decideStepResume as recordStepOutcome
-- uses it. Each takes the database, its arguments and the time, and returns the new database or an
-- error; the host runs a mutation as a transaction, so Runs/Commands.antt lets them follow each
-- other and takes nothing over from one that throws. Ids are numbers, and amounts of RWF and
-- quantities are natural numbers: the source refuses negative ones, and 64 bits are not modelled.
-- A scheduled call is recorded with its ids and amounts, without texts. Runs/Closed.antt says what
-- a predicate on databases needs so that every mutation keeps it, and the files under Runs/Keeps
-- take such a predicate as their parameter; Runs/Soundness.antt, Runs/Account.antt and
-- Runs/Charges.antt fill it in. Runs/Approve.antt models decide and settleApproval of
-- apps/web/convex/approvals.ts with approvedRunEffect of apps/web/lib/approval-decision.ts,
-- without connector actions and with formatRwf, which follows the host's locale, as a parameter;
-- it is not among the mutations of Runs/Commands.antt, because it may change a step that a worker
-- has. Runs/Create.antt models insertTaskRun, createTaskRun and createTaskRunInternal, with the
-- graph validation and the registry modelled here; it is not among those mutations either. The
-- queries, requestTaskStartApproval and the backfill of approvals are not modelled.
--
-- The step graph of apps/web/lib/agent-orchestration.ts is in the files of Plan:
-- schedule_ready_steps, round_robin, block_loop and run_status in Plan.antt, validate_task_graph
-- with its depth-first search in Plan/Validate.antt. round_robin has fuel for its rounds and
-- block_loop one pass for each step and one more: the first serves a step or moves the cursor on
-- in each round, and each pass but the last blocks a step. The search has one unit of fuel more
-- than there are steps and reports a cycle without fuel. The function buildTaskPlan with its
-- tables is not modelled.
mod Prelude
pub mod Authz
pub mod Jobs
pub mod Budget
pub mod Plan
pub mod Dispatch
pub mod Editor
pub mod Viewport
pub mod Capabilities
pub mod Permissions
pub mod Runs
