-- ===== src/Runs/Decided.antt =====
-- apps/web/convex/approvals.ts, decide: an approval is decided once.
use circuit_agent.Prelude.{
  ℕ, ◌≡◌, refl, sym, ap, ◌∙◌, String, Bool, true, false, ◌&&◌, Option, none, some, List, nat_eq,
  arith, Bool-cases, inl, inr, Result, ok, err, >>=-returns, throw_if-passed,
}
use circuit_agent.Authz.{approval_decide, require_organization_permission}
use circuit_agent.Runs.{
  Database, TaskRow, ApprovalRow, HoldRow, HoldStatus, approval_key, patch_approval, find_task,
  or_throw, run_key,
}
use circuit_agent.Runs.Table.{get, patch, get-key, get-patch}
use circuit_agent.Runs.Claim.{newest_hold}
use circuit_agent.Runs.Control.{is_finished_task, is_pending_approval}
use circuit_agent.Runs.Approve.{
  Choice, RunEffect, ApprovalOutcome, PaymentAuthorization, authorize_hold,
  authorize_accepted_quote, raise_cap, larger_cap, authorize, is_task_start, is_overage,
  declined_quote, decide_step, decide_run, decide_task, is_wander_run, nudge, dispatch_approved,
  unpaid_notice, lacks_hold, settled_approval, settle_approval, pending_approval, decide_approval,
  state_of, chosen, is_approval, approved_run_effect,
}

decide_step-approvals :
    (choice : Choice) (step_id : Option ℕ) (db : Database)
    → (decide_step choice step_id db).approvals ≡ db.approvals
decide_step-approvals choice none db = refl
decide_step-approvals Choice.approved (some step_id) db = refl
decide_step-approvals Choice.rejected (some step_id) db = refl

decide_run-approvals :
    (now : ℕ) (declined : Bool) (choice : Choice) (effect : RunEffect) (run_id : Option ℕ)
    (db : Database)
    → (decide_run now declined choice effect run_id db).approvals ≡ db.approvals
decide_run-approvals now declined choice effect none db = refl
decide_run-approvals now declined choice effect (some run_id) db = refl

decide_task-approvals :
    (now : ℕ) (declined : Bool) (choice : Choice) (task : TaskRow) (db : Database)
    → (decide_task now declined choice task db).approvals ≡ db.approvals
decide_task-approvals now declined Choice.approved task db = refl
decide_task-approvals now true Choice.rejected task db = refl
decide_task-approvals now false Choice.rejected task db = refl

nudge-approvals :
    (approval : ApprovalRow) (run_id : ℕ) (db : Database)
    → (nudge approval run_id db).approvals ≡ db.approvals
nudge-approvals approval run_id db =
    elim (Bool-cases (is_task_start approval.kind && is_wander_run (get run_key run_id db.runs))) [
      | inl wander ↦ rw wander refl
      | inr plain ↦ rw plain refl
    ]

dispatch_approved-approvals :
    (now : ℕ) (approval : ApprovalRow) (choice : Choice) (effect : RunEffect) (run_id : Option ℕ)
    (db : Database)
    → (dispatch_approved now approval choice effect run_id db).approvals ≡ db.approvals
dispatch_approved-approvals now approval choice effect none db = refl
dispatch_approved-approvals now approval choice effect (some run_id) db =
    elim (Bool-cases (is_approval choice && effect.should_dispatch)) [
      | inl sent ↦ rw sent (nudge-approvals approval run_id _)
      | inr kept ↦ rw kept refl
    ]

unpaid_notice-approvals :
    (now : ℕ) (choice : Choice) (authorization : PaymentAuthorization) (run_id : Option ℕ)
    (db : Database)
    → (unpaid_notice now choice authorization run_id db).approvals ≡ db.approvals
unpaid_notice-approvals now choice authorization none db = refl
unpaid_notice-approvals now choice authorization (some run_id) db =
    elim (Bool-cases (is_approval choice && lacks_hold authorization)) [
      | inl unpaid ↦ rw unpaid refl
      | inr paid ↦ rw paid refl
    ]

-- What a decision leaves of the approvals: the one that was decided has its choice.
settled_approval-approvals :
    (now : ℕ) (approval : ApprovalRow) (choice : Choice) (decided_by : String) (task : TaskRow)
    (authorization : PaymentAuthorization) (db : Database)
    → (settled_approval now approval choice decided_by task authorization db).0.approvals
      ≡ patch approval_key approval.id (chosen choice now decided_by) db.approvals
settled_approval-approvals now approval choice decided_by task authorization db =
    let effect = approved_run_effect authorization in
    let declined = declined_quote approval choice in
    let marked = patch_approval approval.id (chosen choice now decided_by) db in
    let stepped = decide_step choice approval.step_id marked in
    let ran = decide_run now declined choice effect approval.run_id stepped in
    let tasked = decide_task now declined choice task ran in
    let sent = dispatch_approved now approval choice effect approval.run_id tasked in
    unpaid_notice-approvals now choice authorization approval.run_id sent
    ∙ dispatch_approved-approvals now approval choice effect approval.run_id tasked
    ∙ decide_task-approvals now declined choice task ran
    ∙ decide_run-approvals now declined choice effect approval.run_id stepped
    ∙ decide_step-approvals choice approval.step_id marked

-- The approvals after a call that returns.
abbrev approvals_of : Database → Result Database → List ApprovalRow
approvals_of db (err message) = db.approvals
approvals_of db (ok after) = after.approvals

module _ (format_rwf : ℕ → String) where
  authorize_hold-approvals :
      (now : ℕ) (task : TaskRow) (hold : HoldRow) (status : HoldStatus) (db paid : Database)
      → authorize_hold format_rwf now task hold status db ≡ ok paid
      → paid.approvals ≡ db.approvals
  authorize_hold-approvals now task hold HoldStatus.pending db paid e =
      ap (λ r. approvals_of db r) (sym e)
  authorize_hold-approvals now task hold HoldStatus.authorized db paid e =
      ap (λ r. approvals_of db r) (sym e)
  authorize_hold-approvals now task hold HoldStatus.captured db paid e =
      ap (λ r. approvals_of db r) (sym e)
  authorize_hold-approvals now task hold HoldStatus.released db paid e = cc e
  authorize_hold-approvals now task hold HoldStatus.refunded db paid e = cc e

  authorize_accepted_quote-approvals :
      (now : ℕ) (task : TaskRow) (db paid : Database)
      → authorize_accepted_quote format_rwf now task db ≡ ok paid
      → paid.approvals ≡ db.approvals
  authorize_accepted_quote-approvals now task db paid e =
      let (hold, found, result) =
        >>=-returns (or_throw (newest_hold task.id db.holds) "No payment hold found for this task")
          (λ hold. authorize_hold format_rwf now task hold hold.status db) paid e in
      authorize_hold-approvals now task hold hold.status db paid result

  raise_cap-approvals :
      (now : ℕ) (task : TaskRow) (cap : Option ℕ) (db paid : Database)
      → raise_cap format_rwf now task cap db ≡ ok paid
      → paid.approvals ≡ db.approvals
  raise_cap-approvals now task none db paid e = ap (λ r. approvals_of db r) (sym e)
  raise_cap-approvals now task (some cap) db paid e =
      let (hold, found, result) =
        >>=-returns (or_throw (newest_hold task.id db.holds) "No payment hold found for this task")
          _ paid e in
      ap (λ r. approvals_of db r) (sym result)

  authorize-approvals :
      (now : ℕ) (task : TaskRow) (approval : ApprovalRow) (choice : Choice) (db paid : Database)
      → authorize format_rwf now task approval choice db ≡ ok paid
      → paid.approvals ≡ db.approvals
  authorize-approvals now task approval Choice.rejected db paid e =
      ap (λ r. approvals_of db r) (sym e)
  authorize-approvals now task approval Choice.approved db paid e =
      elim (Bool-cases (is_task_start approval.kind)) [
        | inl start ↦ authorize_accepted_quote-approvals now task db paid (rw start at e)
        | inr other ↦ elim (Bool-cases (is_overage approval.kind)) [
          | inl over ↦
              raise_cap-approvals now task (larger_cap approval.requested_rwf task.max_rwf) db paid
                (rw (other, over) at e)
          | inr plain ↦ ap (λ r. approvals_of db r) (sym (rw (other, plain) at e))
        ]
      ]

  pending_approval-finds :
      (found : Option ApprovalRow) (approval : ApprovalRow)
      → pending_approval format_rwf found ≡ ok approval
      → found ≡ some approval
  pending_approval-finds none approval e = cc
  pending_approval-finds (some a) approval e = elim (Bool-cases (is_pending_approval a.status)) [
    | inl pending ↦ let same : a ≡ approval = cc (rw pending at e) in ap (λ x. some x) same
    | inr over ↦ cc (rw over at e)
  ]

  not_pending : (choice : Choice) → is_pending_approval (state_of choice) ≡ false
  not_pending Choice.approved = refl
  not_pending Choice.rejected = refl

  -- A decision that goes through is the only one: whoever decides the same approval after it, at
  -- whatever time and whichever way, gets an error.
  pub decide_approval_once :
      (identity other : Option String) (approval_id : ℕ) (choice choice' : Choice) (now then_at : ℕ)
      (db after : Database) (outcome : ApprovalOutcome)
      → decide_approval format_rwf identity approval_id choice now db ≡ ok (after, outcome)
      → decide_approval format_rwf other approval_id choice' then_at after
        ≡ err "Pending approval not found"
  unfolding decide_approval
  decide_approval_once identity other approval_id choice choice' now then_at db after outcome e =
      let (approval, pending, rest) =
        >>=-returns (pending_approval format_rwf (get approval_key approval_id db.approvals)) _
          (after, outcome) e in
      let (task, found, rest') =
        >>=-returns (find_task db approval.task_id) _ (after, outcome) rest in
      let active =
        throw_if-passed (is_finished_task task.status) "This task is no longer active" _
          (after, outcome) rest' in
      let (member, admitted, settling) =
        >>=-returns
          (require_organization_permission db.memberships identity task.organization_id
            approval_decide)
          (λ membership.
            settle_approval format_rwf now approval choice membership.identity_subject task db)
          (after, outcome) active.1 in
      let (paid, paying, result) =
        >>=-returns (authorize format_rwf now task approval choice db)
          (λ paid. ok (
            settled_approval now approval choice member.identity_subject task
              PaymentAuthorization.authorized paid))
          (after, outcome) settling in
      let done : (settled_approval now approval choice member.identity_subject task
            PaymentAuthorization.authorized paid).0
          ≡ after =
        cc result in
      let here =
        pending_approval-finds (get approval_key approval_id db.approvals) approval pending in
      let named = get-key approval_key approval_id db.approvals approval here in
      let choose = chosen choice now member.identity_subject in
      let rows : after.approvals ≡ patch approval_key approval.id choose db.approvals =
        sym (ap (λ d. d.approvals) done)
        ∙ settled_approval-approvals now approval choice member.identity_subject task
            PaymentAuthorization.authorized paid
        ∙ ap (λ list. patch approval_key approval.id choose list)
            (authorize-approvals now task approval choice db paid paying) in
      let decided =
        get-patch approval_key choose (λ a. refl) approval_id approval.id db.approvals approval
          here in
      let same : nat_eq approval_id approval.id ≡ true = ground (arith, named) in
      rw (rows, decided, same, not_pending choice) refl
