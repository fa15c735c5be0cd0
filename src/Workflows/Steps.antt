-- ===== src/Workflows/Steps.antt =====
-- The steps of a workflow (`createWorkflow`, `addStep`, `updateStep`, `deleteStep` and
-- `reorderSteps` of apps/api-gateway/src/workflows/workflows.service.ts).
use time_sync_be.Prelude.{
  ℕ, ◌==◌, Bool, true, false, not, ◌&&◌, ◌||◌, Option, none, some, List, [], ◌∷◌, ◌++◌, String,
  if◌then◌else◌, or_default, length, includes, select, find_first, update_where, any, Handler, ok,
  err, bad_request, not_found, unique_violation, or_throw, gets, transaction, throw_if, modify,
  pure, ◌>>=◌, ◌>>◌, trim,
}
use time_sync_be.Prelude.Int.{ℤ, pos}
use time_sync_be.Approvals.Types.{WorkflowStepType, Actor}
use time_sync_be.Approvals.Requests.{require_tenant}
use time_sync_be.Workflows.Types.{
  ApproverExpression, Workflow, WorkflowStep, AuditAction, LogRow, Tables, eq_ℤ,
}
use time_sync_be.Workflows.Orders.{
  of_workflow, takes_order, renumber, step_ids, compact_step_orders, make_step_order_room,
  next_step_order,
}
use time_sync_be.Workflows.Definitions.{
  StepDefinition, validate_step_definition, assert_no_open_requests, find_workflow_or_throw,
  write_log, patched_text,
}

pub record NewStep : Type 0 where
  pub step_order : Option ℕ
  pub name : String
  pub type : Option WorkflowStepType
  pub approver_role_id : Option ℕ
  pub approver_user_id : Option ℕ
  pub approver_expression : Option ApproverExpression
  pub is_required : Option Bool
  pub allow_delegation : Option Bool
  pub sla_hours : Option ℕ

abbrev pub new_definition : NewStep → StepDefinition
new_definition dto = record {
  type = or_default dto.type WorkflowStepType.approval;
  approver_role_id = dto.approver_role_id;
  approver_user_id = dto.approver_user_id;
  approver_expression = dto.approver_expression;
}

-- `stepCreateData`, with the id and the time that the database gives.
abbrev pub step_create_data : (now new_id workflow_id : ℕ) → ℤ → NewStep → WorkflowStep
step_create_data now new_id workflow_id order dto = record {
  id = new_id;
  workflow_id = workflow_id;
  step_order = order;
  name = trim dto.name;
  type = or_default dto.type WorkflowStepType.approval;
  approver_role_id = dto.approver_role_id;
  approver_user_id = dto.approver_user_id;
  approver_expression = dto.approver_expression;
  is_required = or_default dto.is_required true;
  allow_delegation = or_default dto.allow_delegation true;
  sla_hours = dto.sla_hours;
  created_at = now;
}

-- An insert that the unique index refuses where the order is taken.
unfoldable pub create_step : WorkflowStep → Handler Tables (Unit {0})
create_step s db =
    elim (any (λ r. of_workflow s.workflow_id r && eq_ℤ r.step_order s.step_order) db.steps) [
      | true ↦ (err unique_violation, db)
      | false ↦ (ok tt, record db { steps = db.steps ++ s ∷ [] })
    ]

abbrev pub log_step :
    Actor → (tenant_id workflow_id : ℕ) → (event : String) → (step_id : ℕ) → Tables → Tables
log_step actor tenant_id workflow_id event step_id = write_log (
    LogRow.audit tenant_id actor.id AuditAction.update "WorkflowStep" step_id
    ∷ LogRow.outbox tenant_id event workflow_id
    ∷ [])

abbrev pub given_order : (workflow_id : ℕ) → Option ℕ → Tables → ℤ
given_order workflow_id none db = next_step_order workflow_id db.steps
given_order workflow_id (some n) db = pos n

unfoldable pub add_step :
    (now new_id : ℕ) → Actor → (workflow_id : ℕ) → NewStep → Handler Tables WorkflowStep
add_step now new_id actor workflow_id dto = do
  tenant_id ← require_tenant actor
  transaction do
    workflow ← find_workflow_or_throw tenant_id workflow_id false
    assert_no_open_requests tenant_id workflow.id
    validate_step_definition tenant_id (new_definition dto)
    order ← gets (given_order workflow.id dto.step_order)
    make_step_order_room workflow.id order none
    let step = step_create_data now new_id workflow.id order dto
    create_step step
    modify (log_step actor tenant_id workflow.id "workflow.step.created" step.id)
    pure step

-- The fields that an update gives anew; `some none` stands for `null`.
pub record StepPatch : Type 0 where
  pub step_order : Option ℕ
  pub name : Option String
  pub type : Option WorkflowStepType
  pub approver_role_id : Option (Option ℕ)
  pub approver_user_id : Option (Option ℕ)
  pub approver_expression : Option (Option ApproverExpression)
  pub is_required : Option Bool
  pub allow_delegation : Option Bool
  pub sla_hours : Option (Option ℕ)

unfoldable pub patched_definition : StepPatch → WorkflowStep → StepDefinition
patched_definition dto s = record {
  type = or_default dto.type s.type;
  approver_role_id = or_default dto.approver_role_id s.approver_role_id;
  approver_user_id = or_default dto.approver_user_id s.approver_user_id;
  approver_expression = or_default dto.approver_expression s.approver_expression;
}

-- `toJson(dto.approverExpression ?? undefined)`: a null leaves the expression as it is.
abbrev pub patched_expression :
    Option (Option ApproverExpression) → Option ApproverExpression → Option ApproverExpression
patched_expression (some (some e)) old = some e
patched_expression _ old = old

abbrev pub patched_order : Option ℕ → ℤ → ℤ
patched_order none old = old
patched_order (some n) old = pos n

unfoldable pub patch_step : StepPatch → WorkflowStep → WorkflowStep
patch_step dto s = record s {
  step_order = patched_order dto.step_order s.step_order;
  name = patched_text dto.name s.name;
  type = or_default dto.type s.type;
  approver_role_id = or_default dto.approver_role_id s.approver_role_id;
  approver_user_id = or_default dto.approver_user_id s.approver_user_id;
  approver_expression = patched_expression dto.approver_expression s.approver_expression;
  is_required = or_default dto.is_required s.is_required;
  allow_delegation = or_default dto.allow_delegation s.allow_delegation;
  sla_hours = or_default dto.sla_hours s.sla_hours;
}

unfoldable pub find_step_or_throw : (workflow_id step_id : ℕ) → Handler Tables WorkflowStep
find_step_or_throw workflow_id step_id db =
    or_throw (find_first (λ s. (s.id == step_id) && of_workflow workflow_id s) db.steps)
      (not_found "Workflow step not found.") db

-- `dto.stepOrder && dto.stepOrder !== existing.stepOrder`: an order of zero is none.
unfoldable pub make_room_for :
    (workflow_id : ℕ) → Option ℕ → WorkflowStep → Handler Tables (Unit {0})
make_room_for workflow_id none existing = pure tt
make_room_for workflow_id (some n) existing =
    if (n == 0) || eq_ℤ (pos n) existing.step_order
    then pure tt
    else make_step_order_room workflow_id (pos n) (some existing.id)

unfoldable pub write_step : (workflow_id : ℕ) → WorkflowStep → StepPatch → Handler Tables (Unit {0})
write_step workflow_id existing dto db =
    elim (any (takes_order workflow_id existing.id (patch_step dto existing).step_order) db.steps) [
      | true ↦ (err unique_violation, db)
      | false ↦ (
        ok tt,
        record db { steps = update_where (λ s. s.id == existing.id) (patch_step dto) db.steps },
      )
    ]

unfoldable pub update_step :
    Actor → (workflow_id step_id : ℕ) → StepPatch → Handler Tables WorkflowStep
update_step actor workflow_id step_id dto = do
  tenant_id ← require_tenant actor
  transaction do
    workflow ← find_workflow_or_throw tenant_id workflow_id false
    assert_no_open_requests tenant_id workflow.id
    existing ← find_step_or_throw workflow.id step_id
    validate_step_definition tenant_id (patched_definition dto existing)
    make_room_for workflow.id dto.step_order existing
    write_step workflow.id existing dto
    modify (log_step actor tenant_id workflow.id "workflow.step.updated" existing.id)
    pure (patch_step dto existing)

abbrev pub remove_step : (step_id : ℕ) → Tables → Tables
remove_step step_id db = record db { steps = select (λ s. not (s.id == step_id)) db.steps }

unfoldable pub delete_step : Actor → (workflow_id step_id : ℕ) → Handler Tables (Unit {0})
delete_step actor workflow_id step_id = do
  tenant_id ← require_tenant actor
  transaction do
    workflow ← find_workflow_or_throw tenant_id workflow_id false
    assert_no_open_requests tenant_id workflow.id
    existing ← find_step_or_throw workflow.id step_id
    modify (remove_step existing.id)
    compact_step_orders workflow.id
    modify (log_step actor tenant_id workflow.id "workflow.step.deleted" existing.id)

abbrev pub all_known : (known ids : List ℕ) → Bool
all_known known [] = true
all_known known (k ∷ ks) = includes known k && all_known known ks

unfoldable pub reorder_steps : Actor → (workflow_id : ℕ) → (ids : List ℕ) → Handler Tables Workflow
reorder_steps actor workflow_id ids = do
  tenant_id ← require_tenant actor
  transaction do
    workflow ← find_workflow_or_throw tenant_id workflow_id false
    assert_no_open_requests tenant_id workflow.id
    known ← gets (λ db. step_ids (select (of_workflow workflow.id) db.steps))
    throw_if (not (length ids == length known) || not (all_known known ids))
        (bad_request "Step IDs must include every workflow step exactly once.")
    renumber workflow.id ids
    modify (
        write_log (
          LogRow.audit tenant_id actor.id AuditAction.update "Workflow" workflow.id
          ∷ LogRow.outbox tenant_id "workflow.steps.reordered" workflow.id
          ∷ []))
    find_workflow_or_throw tenant_id workflow.id false
