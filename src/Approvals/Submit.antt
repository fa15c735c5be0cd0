-- ===== src/Approvals/Submit.antt =====
-- Submitting a request (`submitRequest` of apps/api-gateway/src/workflows/approvals.service.ts).
use time_sync_be.Prelude.{
  ℕ, Bool, true, false, not, Option, none, some, List, [], ◌∷◌, ◌++◌, Handler, bad_request, gets,
  transaction, throw_if, pure, modify, ◌>>=◌, ◌>>◌, trim,
}
use time_sync_be.Approvals.Types.{
  ApprovalStatus, ActionType, AuditAction, TimelineType, Workflow, ApprovalRequest, StepInstance,
  Actor, Tables,
}
use time_sync_be.Approvals.Steps.{find_request_or_throw, advance_automated_steps}
use time_sync_be.Approvals.Assignees.{Submission, step_instances_for_workflow}
use time_sync_be.Approvals.Requests.{
  Env, require_tenant, resolve_entity_context, resolve_workflow, write_action,
  write_request_effects,
}

abbrev pub new_request :
    Env
    → Actor
    → (tenant_id : ℕ) → Submission
    → Option ℕ
    → ApprovalStatus
    → Option ℕ
    → ApprovalRequest
new_request env actor tenant_id dto workflow_id status completed_at = record {
  id = env.new_request_id;
  tenant_id = tenant_id;
  workflow_id = workflow_id;
  request_module = trim dto.submission_module;
  entity_type = trim dto.entity_type;
  entity_id = dto.entity_id;
  title = trim dto.title;
  description = dto.description;
  status = status;
  submitted_by_id = some actor.id;
  submitted_at = some env.now;
  completed_at = completed_at;
}

abbrev pub insert_request : ApprovalRequest → List StepInstance → Tables → Tables
insert_request request instances db = record db {
  requests = db.requests ++ request ∷ [];
  steps = db.steps ++ instances;
}

-- The branch of `submitRequest` where no workflow matched.
unfoldable pub submit_without_workflow :
    Env → Actor → (tenant_id : ℕ) → Submission → Option ℕ → Handler Tables ApprovalRequest
submit_without_workflow env actor tenant_id dto employee_id = do
  let approved = new_request env actor tenant_id dto none ApprovalStatus.approved (some env.now)
  throw_if (not dto.allow_auto_approval)
      (bad_request "No active workflow matched this approval request.")
  modify (insert_request approved [])
  modify (
      write_action approved.id none actor ActionType.submitted
        (some "Submitted without matching workflow."))
  modify (
      write_action approved.id none actor ActionType.approved
        (some "Auto-approved because no matching workflow was required."))
  modify (
      write_request_effects actor tenant_id approved AuditAction.approve
        "approval.request.auto_approved" TimelineType.workflow_approved employee_id)
  pure approved

abbrev pub submission_timeline : ApprovalStatus → TimelineType
submission_timeline ApprovalStatus.approved = TimelineType.workflow_approved
submission_timeline _ = TimelineType.workflow_submitted

abbrev pub is_empty : {A : Type 0} → List A → Bool
is_empty [] = true
is_empty (_ ∷ _) = false

-- The branch where a workflow matched: its steps are made, and the leading automated ones passed.
unfoldable pub submit_to_workflow :
    Env
    → Actor
    → (tenant_id : ℕ) → Submission
    → Option ℕ
    → Workflow
    → Handler Tables ApprovalRequest
submit_to_workflow env actor tenant_id dto employee_id workflow = do
  let request = new_request env actor tenant_id dto (some workflow.id) ApprovalStatus.pending none
  throw_if (is_empty workflow.steps) (bad_request "Matched workflow has no steps.")
  instances ← λ db. (
    step_instances_for_workflow env.now tenant_id request.id env.new_step_id 0
        env.directory.assignments dto db workflow.steps,
    db,
  )
  modify (insert_request request instances)
  modify (write_action request.id none actor ActionType.submitted dto.description)
  advance_automated_steps env.now tenant_id request.id
  final ← find_request_or_throw tenant_id request.id
  modify (
      write_request_effects actor tenant_id final AuditAction.create "approval.request.submitted"
        (submission_timeline final.status) employee_id)
  pure final

unfoldable pub submit_request : Env → Actor → Submission → Handler Tables ApprovalRequest
submit_request env actor dto = do
  tenant_id ← require_tenant actor
  transaction do
    workflow ← gets (resolve_workflow tenant_id dto)
    employee_id ← λ db.
        (resolve_entity_context env.directory tenant_id dto.entity_type dto.entity_id false db, db)
    elim workflow [
      | none ↦ submit_without_workflow env actor tenant_id dto employee_id
      | some w ↦ submit_to_workflow env actor tenant_id dto employee_id w
    ]
