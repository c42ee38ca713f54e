-- ===== src/Runs/Approve.antt =====
-- apps/web/convex/approvals.ts, decide: a person decides an approval, and with it what becomes of its
-- step, its run and its task; and apps/web/lib/approval-decision.ts. Money is shown by a parameter. The
-- rows of connector actions that an approval may name are left out.
use Prim.Native.Char.{code}
use circuit_agent.Prelude.{
  ℕ, String, Bool, true, false, not, ◌&&◌, ◌||◌, Option, none, some, [], ◌∷◌, nat_eq, ltb,
  if◌then◌else◌, Result, ok, err, ◌>>=◌, ◌>>◌, throw_if, template,
}
use circuit_agent.Budget.{spaced}
use circuit_agent.Plan.{StepStatus}
use circuit_agent.Authz.{approval_decide, require_organization_permission}
use circuit_agent.Runs.{
  Database, TaskRow, RunRow, ApprovalRow, HoldRow, TaskStatus, RunState, StepApproval, ApprovalKind,
  ApprovalState, HoldStatus, Scheduled, run_key, approval_key, patch_task, patch_run, patch_step,
  patch_approval, patch_hold, log_run, log_task, schedule, or_throw, find_task,
}
use circuit_agent.Runs.Table.{get}
use circuit_agent.Runs.Claim.{newest_hold}
use circuit_agent.Runs.Control.{is_finished_task, is_pending_approval}

pub data Choice : Type 0 where
  approved rejected : Choice

pub data PaymentAuthorization : Type 0 where
  authorized payment_authorization_required : PaymentAuthorization

pub data ApprovalOutcome : Type 0 where
  started approved rejected payment_authorization_required : ApprovalOutcome

pub record RunEffect : Type 0 where
  pub run_status : RunState
  pub should_dispatch : Bool
  pub outcome : ApprovalOutcome

unfoldable pub approved_run_effect : PaymentAuthorization → RunEffect
approved_run_effect PaymentAuthorization.authorized = record {
  run_status = RunState.queued;
  should_dispatch = true;
  outcome = ApprovalOutcome.started;
}
approved_run_effect PaymentAuthorization.payment_authorization_required = record {
  run_status = RunState.awaiting_approval;
  should_dispatch = false;
  outcome = ApprovalOutcome.payment_authorization_required;
}

-- packages/agent-core/src/wander.ts: `includes` of the marker.
unfoldable pub starts_with : String → String → Bool
starts_with String.[] text = true
starts_with (String.◌∷◌ c marker) String.[] = false
starts_with (String.◌∷◌ c marker) (String.◌∷◌ d text) =
    let rest = starts_with marker text in nat_eq (code c) (code d) && rest

unfoldable pub text_includes : String → String → Bool
unfolding starts_with
text_includes marker String.[] = starts_with marker String.[]
text_includes marker (String.◌∷◌ c text) =
    let rest = text_includes marker text in starts_with marker (String.◌∷◌ c text) || rest

abbrev pub wander_marker : String
wander_marker = "[Wander]"

unfoldable pub is_wander_objective : String → Bool
unfolding text_includes
is_wander_objective objective = text_includes wander_marker objective

abbrev pub approval_kind_name : ApprovalKind → String
approval_kind_name ApprovalKind.task_start = "task_start"
approval_kind_name ApprovalKind.execute_step = "execute_step"
approval_kind_name ApprovalKind.budget_overage = "budget_overage"
approval_kind_name ApprovalKind.merge = "merge"
approval_kind_name ApprovalKind.deploy = "deploy"
approval_kind_name ApprovalKind.external_action = "external_action"

abbrev pub is_task_start : ApprovalKind → Bool
is_task_start ApprovalKind.task_start = true
is_task_start _ = false

abbrev pub is_overage : ApprovalKind → Bool
is_overage ApprovalKind.budget_overage = true
is_overage _ = false

abbrev pub hold_status_name : HoldStatus → String
hold_status_name HoldStatus.pending = "pending"
hold_status_name HoldStatus.authorized = "authorized"
hold_status_name HoldStatus.captured = "captured"
hold_status_name HoldStatus.released = "released"
hold_status_name HoldStatus.refunded = "refunded"

-- The cap that an overage asks for, if it is above the one that the task has.
abbrev pub larger_cap : Option ℕ → ℕ → Option ℕ
larger_cap none max_rwf = none
larger_cap (some requested) max_rwf = if ltb max_rwf requested then some requested else none

module _ (format_rwf : ℕ → String) where
  abbrev pub authorize_hold : ℕ → TaskRow → HoldRow → HoldStatus → Database → Result Database
  authorize_hold now task hold HoldStatus.authorized db = ok db
  authorize_hold now task hold HoldStatus.captured db = ok db
  authorize_hold now task hold HoldStatus.pending db = ok (
      log_task task.id "quote_accepted"
        (template (
          "The quote was accepted with an internal execution budget of "
          ∷ format_rwf hold.amount_rwf
          ∷ "."
          ∷ []))
        now (patch_hold hold.id (λ h. record h { status = HoldStatus.authorized }) db))
  authorize_hold now task hold status db =
      err
        (template ("Payment hold cannot be authorized from status " ∷ hold_status_name status ∷ []))

  abbrev pub authorize_accepted_quote : ℕ → TaskRow → Database → Result Database
  authorize_accepted_quote now task db = do
    hold ← or_throw (newest_hold task.id db.holds) "No payment hold found for this task"
    authorize_hold now task hold hold.status db

  abbrev pub apply_approved_overage : ℕ → TaskRow → ℕ → Database → Result Database
  apply_approved_overage now task requested_rwf db = do
    hold ← or_throw (newest_hold task.id db.holds) "No payment hold found for this task"
    ok (
        patch_hold hold.id
          (λ h. record h { amount_rwf = requested_rwf; status = HoldStatus.authorized })
          (log_task task.id "budget_cap_approved"
            (template
              ("A new total task cap of " ∷ format_rwf requested_rwf ∷ " was approved." ∷ []))
            now (patch_task task.id (λ t. record t { max_rwf = requested_rwf }) db)))

  abbrev pub raise_cap : ℕ → TaskRow → Option ℕ → Database → Result Database
  raise_cap now task none db = ok db
  raise_cap now task (some requested_rwf) db = apply_approved_overage now task requested_rwf db

  -- What an approval pays for first.
  abbrev pub authorize : ℕ → TaskRow → ApprovalRow → Choice → Database → Result Database
  authorize now task approval rejected db = ok db
  authorize now task approval approved db =
      if is_task_start approval.kind
      then authorize_accepted_quote now task db
      else if is_overage approval.kind
      then raise_cap now task (larger_cap approval.requested_rwf task.max_rwf) db
      else ok db

abbrev pub is_approval : Choice → Bool
is_approval approved = true
is_approval rejected = false

abbrev pub declined_quote : ApprovalRow → Choice → Bool
declined_quote approval choice = not (is_approval choice) && is_task_start approval.kind

abbrev pub decide_step : Choice → Option ℕ → Database → Database
decide_step choice none db = db
decide_step approved (some step_id) db =
    patch_step step_id
      (λ s. record s { approval_status = StepApproval.approved; status = StepStatus.pending }) db
decide_step rejected (some step_id) db =
    patch_step step_id
      (λ s. record s { approval_status = StepApproval.rejected; status = StepStatus.cancelled }) db

abbrev pub decided_run : ℕ → Bool → Choice → RunEffect → RunRow → RunRow
decided_run now declined approved effect r = record r { status = effect.run_status }
decided_run now true rejected effect r = record r {
  status = RunState.cancelled;
  completed_at = some now;
}
decided_run now false rejected effect r = record r { status = RunState.blocked }

abbrev pub decide_run : ℕ → Bool → Choice → RunEffect → Option ℕ → Database → Database
decide_run now declined choice effect none db = db
decide_run now declined choice effect (some run_id) db =
    patch_run run_id (decided_run now declined choice effect) db

abbrev pub decide_task : ℕ → Bool → Choice → TaskRow → Database → Database
decide_task now declined approved task db = db
decide_task now true rejected task db =
    log_task task.id "quote_declined"
      "The quote was declined before any work started. Nothing was spent." now
      (patch_task task.id (λ t. record t { status = TaskStatus.cancelled }) db)
decide_task now false rejected task db =
    log_task task.id "approval_rejected" "A required agent action was rejected." now
      (patch_task task.id (λ t. record t { status = TaskStatus.blocked }) db)

abbrev pub is_wander_run : Option RunRow → Bool
is_wander_run none = false
is_wander_run (some run) = is_wander_objective run.objective

abbrev pub nudge : ApprovalRow → ℕ → Database → Database
nudge approval run_id db =
    if is_task_start approval.kind && is_wander_run (get run_key run_id db.runs)
    then schedule (Scheduled.prefetch_for_run run_id) db
    else schedule (Scheduled.dispatch_tick 0) db

abbrev pub dispatch_approved : ℕ → ApprovalRow → Choice → RunEffect → Option ℕ → Database → Database
dispatch_approved now approval choice effect none db = db
dispatch_approved now approval choice effect (some run_id) db =
    if is_approval choice && effect.should_dispatch
    then nudge approval run_id (
        log_run run_id "approval_granted"
          (template (
            spaced (approval_kind_name approval.kind)
            ∷ " approved. The run returns to the dispatch queue."
            ∷ []))
          now db)
    else db

abbrev pub outcome_of_choice : Choice → Option ℕ → RunEffect → ApprovalOutcome
outcome_of_choice rejected run_id effect = ApprovalOutcome.rejected
outcome_of_choice approved none effect = ApprovalOutcome.approved
outcome_of_choice approved (some run_id) effect = effect.outcome

abbrev pub state_of : Choice → ApprovalState
state_of approved = ApprovalState.approved
state_of rejected = ApprovalState.rejected

abbrev pub chosen : Choice → ℕ → String → ApprovalRow → ApprovalRow
chosen choice now decided_by a = record a {
  status = state_of choice;
  decided_at = some now;
  decided_by = some decided_by;
}

abbrev pub lacks_hold : PaymentAuthorization → Bool
lacks_hold PaymentAuthorization.authorized = false
lacks_hold PaymentAuthorization.payment_authorization_required = true

abbrev pub unpaid_notice : ℕ → Choice → PaymentAuthorization → Option ℕ → Database → Database
unpaid_notice now choice authorization none db = db
unpaid_notice now choice authorization (some run_id) db =
    if is_approval choice && lacks_hold authorization
    then log_run run_id "payment_authorization_required"
        "Spending was approved, but execution remains stopped until an authorized payment hold covers the cap."
        now db
    else db

abbrev pub settled_approval :
    ℕ
    → ApprovalRow
    → Choice
    → String
    → TaskRow
    → PaymentAuthorization
    → Database
    → Database × ApprovalOutcome
settled_approval now approval choice decided_by task authorization db =
    let effect = approved_run_effect authorization in
    let declined = declined_quote approval choice in
    let marked = patch_approval approval.id (chosen choice now decided_by) db in
    let run_decided =
      decide_run now declined choice effect approval.run_id
        (decide_step choice approval.step_id marked) in
    (
      unpaid_notice now choice authorization approval.run_id (
          dispatch_approved now approval choice effect approval.run_id
            (decide_task now declined choice task run_decided)),
      outcome_of_choice choice approval.run_id effect,
    )

module _ (format_rwf : ℕ → String) where
  -- What authorizes a payment returns that it is authorized, or throws.
  unfoldable pub settle_approval :
      ℕ → ApprovalRow → Choice → String → TaskRow → Database → Result (Database × ApprovalOutcome)
  unfolding approved_run_effect is_wander_objective newest_hold
  settle_approval now approval choice decided_by task db = do
    paid ← authorize format_rwf now task approval choice db
    ok (settled_approval now approval choice decided_by task PaymentAuthorization.authorized paid)

  abbrev pub pending_approval : Option ApprovalRow → Result ApprovalRow
  pending_approval none = err "Pending approval not found"
  pending_approval (some approval) =
      if is_pending_approval approval.status then ok approval else err "Pending approval not found"

  -- A task that is over refuses the decision.
  unfoldable pub decide_approval :
      Option String → ℕ → Choice → ℕ → Database → Result (Database × ApprovalOutcome)
  unfolding settle_approval
  decide_approval identity approval_id choice now db = do
    approval ← pending_approval (get approval_key approval_id db.approvals)
    task ← find_task db approval.task_id
    throw_if (is_finished_task task.status) "This task is no longer active"
    membership ←
        require_organization_permission db.memberships identity task.organization_id approval_decide
    settle_approval now approval choice membership.identity_subject task db
