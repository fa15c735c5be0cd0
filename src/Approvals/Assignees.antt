-- ===== src/Approvals/Assignees.antt =====
-- Whom the steps of a new request are assigned to (`resolveStepAssignee` and
-- `stepInstancesForWorkflow` of
-- apps/api-gateway/src/workflows/approvals.service.ts).
use time_sync_be.Prelude.{
  ℕ, suc, ◌+◌, ◌*◌, ◌==◌, ltb, leb, Bool, true, false, not, ◌&&◌, ◌||◌, Option, none, some, List,
  [], ◌∷◌, String, if◌then◌else◌, is_none, select, first_by, find_first, Result, ok, err,
  bad_request, trim, upper_is, strip_prefix, str_eq,
}
use time_sync_be.Approvals.Types.{
  ApprovalStatus, WorkflowStepType, WorkflowStep, StepInstance, Tables, approval, review,
}
use time_sync_be.Approvals.Assignment.{is_shared_with, not_over}

-- A primary or secondary assignment of an employee, joined with the user of its manager.
pub record Assignment : Type 0 where
  pub tenant_id : ℕ
  pub employee_id : ℕ
  pub is_primary : Bool
  pub effective_from : ℕ
  pub effective_to : Option ℕ
  pub created_at : ℕ
  pub organization_node_id : Option ℕ
  pub cost_center_id : Option ℕ
  pub position_id : Option ℕ
  pub manager_user_id : Option ℕ

-- `orderBy: [{ effectiveFrom: 'desc' }, { createdAt: 'desc' }]`
abbrev pub newer : Assignment → Assignment → Bool
newer a b =
    ltb b.effective_from a.effective_from
    || ((a.effective_from == b.effective_from) && ltb b.created_at a.created_at)

-- What a request is submitted with; `employee_id` is `payload.employeeId`, where that is a text.
pub record Submission : Type 0 where
  pub workflow_id : Option ℕ
  pub workflow_code : Option String
  pub trigger_key : Option String
  pub submission_module : String
  pub entity_type : String
  pub entity_id : ℕ
  pub title : String
  pub description : Option String
  pub employee_id : Option ℕ
  pub allow_auto_approval : Bool

pub record Assignee : Type 0 where
  pub user_id : Option ℕ
  pub role_id : Option ℕ

abbrev nobody : Assignee
nobody = record { user_id = none; role_id = none }

-- The user of the manager on the newest primary assignment that is in effect.
unfoldable pub manager_user : (now tenant_id employee_id : ℕ) → List Assignment → Option ℕ
manager_user now tenant_id employee_id assignments =
    elim (first_by newer (
      select
        (λ a.
          (a.tenant_id == tenant_id)
          && (a.employee_id == employee_id)
          && a.is_primary
          && leb a.effective_from now
          && not_over now a.effective_to)
        assignments)) [ none ↦ none | some a ↦ a.manager_user_id ]

unfoldable pub role_by_code : (tenant_id : ℕ) → String → Tables → Option ℕ
role_by_code tenant_id role_code db =
    elim (find_first
      (λ r.
        is_shared_with tenant_id r.tenant_id
        && upper_is (trim role_code) r.code
        && not r.is_deleted
        && r.is_active)
      db.roles) [ none ↦ none | some r ↦ some r.id ]

-- The employee that an `employee.manager` expression is about.
abbrev pub subject_employee : Submission → Option ℕ
subject_employee dto =
    if str_eq dto.entity_type "Employee" then some dto.entity_id else dto.employee_id

-- The forms of an approver expression.
unfoldable pub resolve_expression :
    (now tenant_id : ℕ) → List Assignment → Submission → String → Tables → Assignee
unfolding manager_user role_by_code
resolve_expression now tenant_id assignments dto expression db =
    if str_eq expression "employee.manager"
    then elim (subject_employee dto) [
      | none ↦ nobody
      | some e ↦ record { user_id = manager_user now tenant_id e assignments; role_id = none }
    ]
    else elim (strip_prefix "role:" expression) [
      | none ↦ nobody
      | some role_code ↦ record { user_id = none; role_id = role_by_code tenant_id role_code db }
    ]

unfoldable pub resolve_step_assignee :
    (now tenant_id : ℕ) → List Assignment → Submission → WorkflowStep → Tables → Assignee
unfolding resolve_expression
resolve_step_assignee now tenant_id assignments dto step db = elim step.approver_user_id [
  | some u ↦ record { user_id = some u; role_id = none }
  | none ↦ elim step.approver_role_id [
    | some r ↦ record { user_id = none; role_id = some r }
    | none ↦ elim step.approver_expression [
      | none ↦ nobody
      | some e ↦ resolve_expression now tenant_id assignments dto e db
    ]
  ]
]

abbrev pub is_actionable : WorkflowStepType → Bool
is_actionable approval = true
is_actionable review = true
is_actionable _ = false

abbrev hour_ms : ℕ
hour_ms = 3600000

-- `step.slaHours ? addHours(submittedAt, step.slaHours) : undefined`
abbrev pub due : (submitted_at : ℕ) → Option ℕ → Option ℕ
due submitted_at none = none
due submitted_at (some h) = if h == 0 then none else some (submitted_at + h * hour_ms)

abbrev pub instance_of : (now request_id new_id : ℕ) → WorkflowStep → Assignee → StepInstance
instance_of now request_id new_id step resolved = record {
  id = new_id;
  approval_request_id = request_id;
  workflow_step = some step;
  step_order = step.step_order;
  name = step.name;
  assigned_user_id = resolved.user_id;
  assigned_role_id = resolved.role_id;
  status = ApprovalStatus.pending;
  due_at = due now step.sla_hours;
  completed_at = none;
  created_at = now;
  return_note = none;
}

abbrev pub lacks_approver : WorkflowStep → Assignee → Bool
lacks_approver step resolved =
    step.is_required
    && is_actionable step.type
    && is_none resolved.user_id
    && is_none resolved.role_id

-- The loop over `workflow.steps`; the n-th instance gets the id `new_step_id n`.
unfoldable pub step_instances_for_workflow :
    (now tenant_id request_id : ℕ)
    → (new_step_id : ℕ → ℕ) → ℕ
    → List Assignment
    → Submission
    → Tables
    → List WorkflowStep
    → Result (List StepInstance)
unfolding resolve_step_assignee
step_instances_for_workflow now tenant_id request_id new_step_id n assignments dto db [] = ok []
step_instances_for_workflow now tenant_id request_id new_step_id n assignments dto db
      (step ∷ steps) =
    let resolved = resolve_step_assignee now tenant_id assignments dto step db in
    let rest =
      step_instances_for_workflow now tenant_id request_id new_step_id (suc n) assignments dto db
        steps in
    if lacks_approver step resolved
    then err (bad_request "Workflow step could not resolve an approver.")
    else elim rest [
      | err e ↦ err e
      | ok instances ↦ ok (instance_of now request_id (new_step_id n) step resolved ∷ instances)
    ]
