-- ===== src/Workflows/Definitions.antt =====
-- Creating, changing and activating workflows (`createWorkflow`, `updateWorkflow`,
-- `transitionWorkflow`, `validateStepDefinition`, `assertWorkflowActivatable` and
-- `assertNoOpenRequests` of apps/api-gateway/src/workflows/workflows.service.ts). The pattern of the
-- request body leaves `normalizeCode` nothing to change.
use time_sync_be.Prelude.{
  ℕ, ◌==◌, Bool, true, false, not, ◌&&◌, ◌||◌, Option, none, some, List, [], ◌∷◌, ◌++◌, String,
  str_eq, if◌then◌else◌, or_default, is_key, is_none, select, find_first, update_where, any,
  Handler, ok, err, bad_request, not_found, unique_violation, or_throw, gets, transaction, throw_if,
  modify, pure, ◌>>=◌, ◌>>◌, trim,
}
use time_sync_be.Approvals.Types.{WorkflowStepType, ApprovalRequest, Role, User, Actor, is_pending}
use time_sync_be.Approvals.Assignment.{is_shared_with}
use time_sync_be.Approvals.Assignees.{is_actionable}
use time_sync_be.Approvals.Requests.{require_tenant}
use time_sync_be.Workflows.Types.{
  ApproverExpression, WorkflowStatus, Workflow, WorkflowStep, AuditAction, LogRow, Tables,
  is_active, is_archived,
}
use time_sync_be.Workflows.Orders.{of_workflow}

-- What a step is, as far as its validity goes.
pub record StepDefinition : Type 0 where
  pub type : WorkflowStepType
  pub approver_role_id : Option ℕ
  pub approver_user_id : Option ℕ
  pub approver_expression : Option ApproverExpression

-- `where: { id, OR: [{ tenantId }, { tenantId: null }], deletedAt: null, isActive: true }`
abbrev pub is_usable_role : (tenant_id role_id : ℕ) → Role → Bool
is_usable_role tenant_id role_id r =
    (r.id == role_id) && is_shared_with tenant_id r.tenant_id && not r.is_deleted && r.is_active

abbrev pub is_usable_user : (tenant_id user_id : ℕ) → User → Bool
is_usable_user tenant_id user_id u =
    (u.id == user_id) && (u.tenant_id == tenant_id) && not u.is_deleted

abbrev pub role_is_invalid : (tenant_id : ℕ) → Option ℕ → Tables → Bool
role_is_invalid tenant_id none db = false
role_is_invalid tenant_id (some k) db = not (any (is_usable_role tenant_id k) db.roles)

abbrev pub user_is_invalid : (tenant_id : ℕ) → Option ℕ → Tables → Bool
user_is_invalid tenant_id none db = false
user_is_invalid tenant_id (some k) db = not (any (is_usable_user tenant_id k) db.users)

unfoldable pub validate_step_definition :
    (tenant_id : ℕ) → StepDefinition → Handler Tables (Unit {0})
validate_step_definition tenant_id d db =
    if role_is_invalid tenant_id d.approver_role_id db
    then (err (bad_request "Approver role reference is invalid."), db)
    else if user_is_invalid tenant_id d.approver_user_id db
    then (err (bad_request "Approver user reference is invalid."), db)
    else if not (is_none d.approver_role_id) && not (is_none d.approver_user_id)
    then (err (bad_request "A workflow step cannot assign both an approver role and user."), db)
    else if is_actionable d.type
        && is_none d.approver_role_id
        && is_none d.approver_user_id
        && is_none d.approver_expression
    then (
      err (bad_request "Approval and review steps require an approver role, user, or expression."),
      db,
    )
    else (ok tt, db)

abbrev pub definition_of : WorkflowStep → StepDefinition
definition_of s = record {
  type = s.type;
  approver_role_id = s.approver_role_id;
  approver_user_id = s.approver_user_id;
  approver_expression = s.approver_expression;
}

unfoldable pub validate_steps : (tenant_id : ℕ) → List WorkflowStep → Handler Tables (Unit {0})
validate_steps tenant_id [] = pure tt
validate_steps tenant_id (s ∷ rest) =
    validate_step_definition tenant_id (definition_of s) >> validate_steps tenant_id rest

abbrev pub is_nil : List WorkflowStep → Bool
is_nil [] = true
is_nil (_ ∷ _) = false

unfoldable pub assert_workflow_activatable : (tenant_id workflow_id : ℕ) → Handler Tables (Unit {0})
assert_workflow_activatable tenant_id workflow_id = do
  steps ← gets (λ db. select (of_workflow workflow_id) db.steps)
  throw_if (is_nil steps) (bad_request "Workflow must have at least one step before activation.")
  validate_steps tenant_id steps

abbrev pub is_open_request : (tenant_id workflow_id : ℕ) → ApprovalRequest → Bool
is_open_request tenant_id workflow_id r =
    (r.tenant_id == tenant_id) && is_key r.workflow_id workflow_id && is_pending r.status

unfoldable pub assert_no_open_requests : (tenant_id workflow_id : ℕ) → Handler Tables (Unit {0})
assert_no_open_requests tenant_id workflow_id db =
    throw_if (any (is_open_request tenant_id workflow_id) db.requests)
      (bad_request "Cannot change workflow structure while approval requests are pending.") db

abbrev pub is_workflow : (tenant_id workflow_id : ℕ) → (include_deleted : Bool) → Workflow → Bool
is_workflow tenant_id workflow_id include_deleted w =
    (w.id == workflow_id) && (w.tenant_id == tenant_id) && (include_deleted || not w.is_deleted)

unfoldable pub find_workflow_or_throw :
    (tenant_id workflow_id : ℕ) → (include_deleted : Bool) → Handler Tables Workflow
find_workflow_or_throw tenant_id workflow_id include_deleted db =
    or_throw (find_first (is_workflow tenant_id workflow_id include_deleted) db.workflows)
      (not_found "Workflow not found.") db

abbrev pub write_log : List LogRow → Tables → Tables
write_log rows db = record db { log = db.log ++ rows }

abbrev pub update_workflow_row : (workflow_id : ℕ) → (Workflow → Workflow) → Tables → Tables
update_workflow_row workflow_id f db = record db {
  workflows = update_where (λ w. w.id == workflow_id) f db.workflows;
}

-- An archived workflow is deleted, and an activated one is not.
abbrev pub move_to : WorkflowStatus → Workflow → Workflow
move_to status w = record w {
  status = status;
  is_deleted =
      if is_archived status then true else if is_active status then false else w.is_deleted;
}

unfoldable pub status_event : WorkflowStatus → String
status_event WorkflowStatus.draft = "workflow.draft"
status_event WorkflowStatus.active = "workflow.active"
status_event WorkflowStatus.inactive = "workflow.inactive"
status_event WorkflowStatus.archived = "workflow.archived"

-- The guards of a change of status.
abbrev pub assert_may_become :
    (tenant_id workflow_id : ℕ) → WorkflowStatus → Handler Tables (Unit {0})
assert_may_become tenant_id workflow_id status =
    if is_active status
    then assert_workflow_activatable tenant_id workflow_id
    else if is_archived status
    then assert_no_open_requests tenant_id workflow_id
    else pure tt

unfoldable pub transition_workflow :
    Actor → (workflow_id : ℕ) → WorkflowStatus → AuditAction → Handler Tables Workflow
transition_workflow actor workflow_id status action = do
  tenant_id ← require_tenant actor
  transaction do
    existing ← find_workflow_or_throw tenant_id workflow_id (is_active status)
    assert_may_become tenant_id existing.id status
    modify (update_workflow_row existing.id (move_to status))
    modify (
        write_log (
          LogRow.audit tenant_id actor.id action "Workflow" existing.id
          ∷ LogRow.outbox tenant_id (status_event status) existing.id
          ∷ []))
    pure (move_to status existing)

unfoldable pub activate_workflow : Actor → (workflow_id : ℕ) → Handler Tables Workflow
activate_workflow actor workflow_id =
    transition_workflow actor workflow_id WorkflowStatus.active AuditAction.activate

unfoldable pub inactivate_workflow : Actor → (workflow_id : ℕ) → Handler Tables Workflow
inactivate_workflow actor workflow_id =
    transition_workflow actor workflow_id WorkflowStatus.inactive AuditAction.disable

unfoldable pub archive_workflow : Actor → (workflow_id : ℕ) → Handler Tables Workflow
archive_workflow actor workflow_id =
    transition_workflow actor workflow_id WorkflowStatus.archived AuditAction.archive

unfoldable pub delete_workflow : Actor → (workflow_id : ℕ) → Handler Tables Workflow
delete_workflow actor workflow_id =
    transition_workflow actor workflow_id WorkflowStatus.archived AuditAction.delete

-- The fields that an update gives anew.
pub record WorkflowPatch : Type 0 where
  pub code : Option String
  pub name : Option String
  pub description : Option (Option String)
  pub workflow_module : Option String
  pub status : Option WorkflowStatus
  pub trigger_key : Option (Option String)

abbrev pub patched_text : Option String → String → String
patched_text none old = old
patched_text (some t) old = trim t

abbrev pub patch_workflow : WorkflowPatch → Workflow → Workflow
patch_workflow dto w = record w {
  code = or_default dto.code w.code;
  name = patched_text dto.name w.name;
  description = or_default dto.description w.description;
  workflow_module = patched_text dto.workflow_module w.workflow_module;
  status = or_default dto.status w.status;
  trigger_key = or_default dto.trigger_key w.trigger_key;
  is_deleted = elim dto.status [ none ↦ w.is_deleted | some s ↦ is_archived s || w.is_deleted ];
}

-- The unique index on the tenant and the code.
abbrev pub takes_code : (tenant_id workflow_id : ℕ) → String → Workflow → Bool
takes_code tenant_id workflow_id code w =
    (w.tenant_id == tenant_id) && not (w.id == workflow_id) && str_eq w.code code

abbrev pub assert_may_change :
    (tenant_id workflow_id : ℕ) → Option WorkflowStatus → Handler Tables (Unit {0})
assert_may_change tenant_id workflow_id none = pure tt
assert_may_change tenant_id workflow_id (some status) =
    assert_may_become tenant_id workflow_id status

unfoldable pub update_workflow : Actor → (workflow_id : ℕ) → WorkflowPatch → Handler Tables Workflow
update_workflow actor workflow_id dto = do
  tenant_id ← require_tenant actor
  transaction do
    existing ← find_workflow_or_throw tenant_id workflow_id false
    assert_may_change tenant_id existing.id dto.status
    let updated = patch_workflow dto existing
    taken ← gets (λ db. any (takes_code tenant_id existing.id updated.code) db.workflows)
    throw_if taken unique_violation
    modify (update_workflow_row existing.id (patch_workflow dto))
    modify (
        write_log (
          LogRow.audit tenant_id actor.id AuditAction.update "Workflow" existing.id
          ∷ LogRow.outbox tenant_id "workflow.updated" existing.id
          ∷ []))
    pure updated
