-- ===== src/Approvals/Decisions.antt =====
-- Acting on a pending request (`processCurrentStep`, `terminateRequest`, `commentOnRequest`,
-- `withdrawRequest` and `delegateCurrentStep` of
-- apps/api-gateway/src/workflows/approvals.service.ts).
use time_sync_be.Prelude.{
  ℕ, ◌==◌, true, not, ◌&&◌, Option, none, some, [], ◌∷◌, String, is_key, is_none, find_first,
  update_where, includes_text, Handler, bad_request, forbidden, or_throw, transaction, throw_if,
  modify, pure, ◌>>=◌, ◌>>◌,
}
use time_sync_be.Approvals.Types.{
  ApprovalStatus, ActionType, WorkforceStatus, AuditAction, TimelineType, LogRow, ApprovalRequest,
  StepInstance, ReturnNote, Actor, Tables, is_pending,
}
use time_sync_be.Approvals.Steps.{
  current_pending_step, steps_of, find_request_or_throw, set_request_terminal, complete_step,
  advance_automated_steps,
}
use time_sync_be.Approvals.Assignment.{assert_actor_can_act_on_step, allows_delegation}
use time_sync_be.Approvals.Requests.{
  Env, require_tenant, resolve_entity_context, write_request_effects, write_action, write_log,
}

unfoldable pub assert_request_pending : ApprovalRequest → Handler Tables (Unit {0})
assert_request_pending request =
    throw_if (not (is_pending request.status)) (bad_request "Approval request is already decided.")

abbrev require_current_step : ApprovalRequest → Handler Tables StepInstance
require_current_step request db =
    or_throw (current_pending_step (steps_of request.id db.steps))
      (bad_request "Approval request has no pending step.") db

-- The three actions that `processCurrentStep` is called with.
pub data Decision : Type 0 where
  approve reject return : Decision

abbrev pub action_of : Decision → ActionType
action_of approve = ActionType.approved
action_of reject = ActionType.rejected
action_of return = ActionType.returned

abbrev pub audit_of : Decision → AuditAction
audit_of approve = AuditAction.approve
audit_of reject = AuditAction.reject
audit_of return = AuditAction.update

unfoldable pub outbox_event_for_action : Decision → ApprovalStatus → String
outbox_event_for_action d ApprovalStatus.approved = "approval.request.approved"
outbox_event_for_action d ApprovalStatus.rejected = "approval.request.rejected"
outbox_event_for_action return _ = "approval.request.returned"
outbox_event_for_action _ _ = "approval.step.approved"

abbrev pub decision_timeline : ApprovalStatus → TimelineType
decision_timeline ApprovalStatus.approved = TimelineType.workflow_approved
decision_timeline ApprovalStatus.rejected = TimelineType.workflow_rejected
decision_timeline _ = TimelineType.workflow_submitted

abbrev pub complete_current : (now : ℕ) → ApprovalStatus → StepInstance → Tables → Tables
complete_current now status step db = record db {
  steps = complete_step now status step.id db.steps;
}

-- `mergeJsonObject` over the metadata of the current step, where a return overwrites an earlier one.
-- The caller's own metadata, spread last, is taken to name none of the keys of the note.
unfoldable pub note_return : (step_id : ℕ) → ReturnNote → Tables → Tables
note_return step_id note db = record db {
  steps = update_where (λ s. s.id == step_id) (λ s. record s { return_note = some note }) db.steps;
}

-- What each decision writes to the step and the request.
unfoldable pub apply_decision :
    Decision
    → (now actor_id : ℕ) → Option String
    → (tenant_id request_id : ℕ) → StepInstance
    → Handler Tables (Unit {0})
apply_decision approve now actor_id comment tenant_id request_id step = do
  modify (complete_current now ApprovalStatus.approved step)
  advance_automated_steps now tenant_id request_id
apply_decision reject now actor_id comment tenant_id request_id step = do
  modify (complete_current now ApprovalStatus.rejected step)
  modify (
      set_request_terminal now tenant_id request_id ApprovalStatus.rejected
        WorkforceStatus.rejected)
apply_decision return now actor_id comment tenant_id request_id step = modify (
    note_return step.id
      (record { returned_by_id = actor_id; returned_at = now; return_comment = comment }))

-- The rows that are written once the request has its new status.
unfoldable pub finish :
    Env
    → Actor
    → (tenant_id request_id : ℕ) → AuditAction
    → (ApprovalStatus → String)
    → (ApprovalStatus → TimelineType)
    → Handler Tables ApprovalRequest
finish env actor tenant_id request_id action event type = do
  updated ← find_request_or_throw tenant_id request_id
  employee_id ← λ db. (
    resolve_entity_context env.directory tenant_id updated.entity_type updated.entity_id true db,
    db,
  )
  modify (
      write_request_effects actor tenant_id updated action (event updated.status)
        (type updated.status) employee_id)
  pure updated

unfoldable pub decide_in_tx :
    Env
    → Actor
    → (tenant_id request_id : ℕ) → Decision
    → Option String
    → Handler Tables ApprovalRequest
decide_in_tx env actor tenant_id request_id decision comment = do
  request ← find_request_or_throw tenant_id request_id
  assert_request_pending request
  step ← require_current_step request
  assert_actor_can_act_on_step env.now actor tenant_id request step
  modify (write_action request.id (some step.id) actor (action_of decision) comment)
  apply_decision decision env.now actor.id comment tenant_id request.id step
  finish env actor tenant_id request.id (audit_of decision) (outbox_event_for_action decision)
      decision_timeline

unfoldable pub process_current_step :
    Env → Actor → (request_id : ℕ) → Decision → Option String → Handler Tables ApprovalRequest
process_current_step env actor request_id decision comment = do
  tenant_id ← require_tenant actor
  transaction (decide_in_tx env actor tenant_id request_id decision comment)

-- `cancelRequest` and `withdrawRequest` end a request with one of two statuses.
pub data Ending : Type 0 where
  cancel withdraw : Ending

abbrev pub ending_status : Ending → ApprovalStatus
ending_status cancel = ApprovalStatus.cancelled
ending_status withdraw = ApprovalStatus.withdrawn

unfoldable pub ending_event : Ending → ApprovalStatus → String
ending_event withdraw status = "approval.request.withdrawn"
ending_event cancel status = "approval.request.cancelled"

-- `updateMany` over the pending steps of the request.
unfoldable pub close_steps : (now request_id : ℕ) → ApprovalStatus → Tables → Tables
close_steps now request_id status db = record db {
  steps =
      update_where (λ s. (s.approval_request_id == request_id) && is_pending s.status)
        (λ s. record s { status = status; completed_at = some now }) db.steps;
}

unfoldable pub terminate_in_tx :
    Env
    → Actor
    → (tenant_id request_id : ℕ) → Ending
    → Option String
    → Handler Tables ApprovalRequest
terminate_in_tx env actor tenant_id request_id ending comment = do
  request ← find_request_or_throw tenant_id request_id
  assert_request_pending request
  modify (close_steps env.now request.id (ending_status ending))
  modify (write_action request.id none actor ActionType.cancelled comment)
  modify (
      set_request_terminal env.now tenant_id request.id (ending_status ending)
        WorkforceStatus.cancelled)
  finish env actor tenant_id request.id AuditAction.update (ending_event ending)
      (λ _. TimelineType.workflow_rejected)

unfoldable pub terminate_request :
    Env → Actor → (request_id : ℕ) → Ending → Option String → Handler Tables ApprovalRequest
terminate_request env actor request_id ending comment = do
  tenant_id ← require_tenant actor
  transaction (terminate_in_tx env actor tenant_id request_id ending comment)

unfoldable pub cancel_request :
    Env → Actor → (request_id : ℕ) → Option String → Handler Tables ApprovalRequest
cancel_request env actor request_id comment = terminate_request env actor request_id cancel comment

unfoldable pub withdraw_request :
    Env → Actor → (request_id : ℕ) → Option String → Handler Tables ApprovalRequest
withdraw_request env actor request_id comment = do
  tenant_id ← require_tenant actor
  request ← find_request_or_throw tenant_id request_id
  throw_if
      (not (is_key request.submitted_by_id actor.id)
        && not (includes_text actor.permissions "approvals.process"))
      (forbidden "Only the submitter or an approval processor can withdraw this request.")
  terminate_request env actor request_id withdraw comment

unfoldable pub comment_on_request :
    Actor → (request_id : ℕ) → Option String → Handler Tables ApprovalRequest
comment_on_request actor request_id comment = do
  tenant_id ← require_tenant actor
  transaction do
    request ← find_request_or_throw tenant_id request_id
    modify (write_action request.id none actor ActionType.commented comment)
    modify (
        write_log (
          LogRow.audit tenant_id actor.id AuditAction.update "ApprovalRequest" request.id
          ∷ LogRow.outbox tenant_id "approval.request.commented" request.id
          ∷ []))
    find_request_or_throw tenant_id request.id

unfoldable pub validate_user_reference : (tenant_id user_id : ℕ) → Handler Tables (Unit {0})
validate_user_reference tenant_id user_id db =
    throw_if
      (is_none (
        find_first (λ u. (u.id == user_id) && (u.tenant_id == tenant_id) && not u.is_deleted)
          db.users))
      (bad_request "User reference is invalid for this tenant.") db

-- `data: { assignedUserId: dto.toUserId, assignedRoleId: null }`
unfoldable pub reassign_step : (step_id to_user_id : ℕ) → Tables → Tables
reassign_step step_id to_user_id db = record db {
  steps =
      update_where (λ s. s.id == step_id)
        (λ s. record s { assigned_user_id = some to_user_id; assigned_role_id = none }) db.steps;
}

unfoldable pub delegate_in_tx :
    Env
    → Actor
    → (tenant_id request_id to_user_id : ℕ) → Option String
    → Handler Tables ApprovalRequest
delegate_in_tx env actor tenant_id request_id to_user_id comment = do
  request ← find_request_or_throw tenant_id request_id
  assert_request_pending request
  step ← require_current_step request
  assert_actor_can_act_on_step env.now actor tenant_id request step
  throw_if (not (allows_delegation step.workflow_step))
      (forbidden "This workflow step does not allow delegation.")
  validate_user_reference tenant_id to_user_id
  modify (reassign_step step.id to_user_id)
  modify (write_action request.id (some step.id) actor ActionType.delegated comment)
  modify (
      write_log (
        LogRow.audit tenant_id actor.id AuditAction.update "ApprovalStepInstance" step.id
        ∷ LogRow.outbox tenant_id "approval.step.delegated" request.id
        ∷ []))
  find_request_or_throw tenant_id request.id

unfoldable pub delegate_current_step :
    Env → Actor → (request_id to_user_id : ℕ) → Option String → Handler Tables ApprovalRequest
delegate_current_step env actor request_id to_user_id comment = do
  tenant_id ← require_tenant actor
  transaction (delegate_in_tx env actor tenant_id request_id to_user_id comment)
