-- ===== src/Workflows/Examples.antt =====
-- The theorems about workflow definitions, each applied to a small set of tables.
use time_sync_be.Prelude.{
  find_first, true, false, none, some, [], ◌∷◌, ◌≡◌, refl, arith, select, All, ok, err,
  unique_violation,
}
use time_sync_be.Prelude.Int.{pos, ◌+ℤ◌}
use time_sync_be.Approvals.Types.{WorkflowStepType, Actor}
use time_sync_be.Workflows.Types.{WorkflowStatus, Workflow, WorkflowStep, Tables}
use time_sync_be.Workflows.Orders.{of_workflow, step_ids, sorted, ascending}
use time_sync_be.Workflows.Definitions.{
  validate_step_definition, validate_steps, assert_workflow_activatable, activate_workflow,
  transition_workflow, find_workflow_or_throw, is_nil, is_workflow,
}
use time_sync_be.Workflows.Steps.{
  StepPatch, patched_definition, update_step, delete_step, reorder_steps, remove_step,
}
use time_sync_be.Workflows.Renumbering.{renumbered}
use time_sync_be.Workflows.Reordering.{reordered_as_asked, gap_closed}
use time_sync_be.Workflows.MovingUp.{moving_up_is_refused}
use time_sync_be.Workflows.Activation.{Routable, activated-Routable}

abbrev admin : Actor
admin = record { id = 7; tenant_id = some 1; permissions = [] }

abbrev route : Workflow
route = record {
  id = 40;
  tenant_id = 1;
  code = "LEAVE";
  name = "Leave";
  description = none;
  workflow_module = "leave";
  status = WorkflowStatus.draft;
  trigger_key = none;
  is_deleted = false;
}

abbrev first : WorkflowStep
first = record {
  id = 1;
  workflow_id = 40;
  step_order = pos 1;
  name = "Manager";
  type = WorkflowStepType.approval;
  approver_role_id = none;
  approver_user_id = none;
  approver_expression = some (record { text = some "employee.manager" });
  is_required = true;
  allow_delegation = true;
  sla_hours = none;
  created_at = 5;
}

abbrev second : WorkflowStep
second = record first { id = 2; step_order = pos 2; name = "Director" }

abbrev third : WorkflowStep
third = record first { id = 3; step_order = pos 3; name = "Payroll" }

abbrev tables : Tables
tables = record {
  workflows = route ∷ [];
  steps = first ∷ second ∷ third ∷ [];
  requests = [];
  roles = [];
  users = [];
  log = [];
}

reordered_as_asked_example :
    ((reorder_steps admin 40 (3 ∷ 1 ∷ 2 ∷ []) tables).0 ≡ ok route)
    × ((reorder_steps admin 40 (3 ∷ 1 ∷ 2 ∷ []) tables).1.steps
        ≡ renumbered (3 ∷ 1 ∷ 2 ∷ []) tables.steps)
reordered_as_asked_example =
    reordered_as_asked admin 1 route tables refl refl refl (refl, (refl, (refl, tt)))
      (3 ∷ 1 ∷ 2 ∷ []) refl refl (refl, (refl, (refl, tt)))

gap_closed_example :
    ((delete_step admin 40 2 tables).0 ≡ ok tt)
    × ((delete_step admin 40 2 tables).1.steps
        ≡ renumbered
            (step_ids (sorted ascending (select (of_workflow 40) (remove_step 2 tables).steps)))
            (remove_step 2 tables).steps)
gap_closed_example =
    gap_closed admin 1 route tables refl refl refl (refl, (refl, (refl, tt))) 2 second refl

abbrev to_the_top : StepPatch
to_the_top = record {
  step_order = some 1;
  name = none;
  type = none;
  approver_role_id = none;
  approver_user_id = none;
  approver_expression = none;
  is_required = none;
  allow_delegation = none;
  sla_hours = none;
}

moving_up_is_refused_example :
    update_step admin 40 3 to_the_top tables ≡ (err unique_violation, tables)
unfolding validate_step_definition patched_definition ◌+ℤ◌
moving_up_is_refused_example =
    moving_up_is_refused admin 1 3 route third to_the_top tables refl refl refl refl refl 1 refl
      (omega arith) refl refl

abbrev on : Workflow
on = record route { status = WorkflowStatus.active }

activated : (activate_workflow admin 40 tables).0 ≡ ok on
unfolding activate_workflow transition_workflow find_workflow_or_throw assert_workflow_activatable
    validate_steps validate_step_definition
activated = refl

activated-Routable_example :
    (find_first (is_workflow 1 40 false) (activate_workflow admin 40 tables).1.workflows ≡ some on)
    × (on.status ≡ WorkflowStatus.active)
    × (on.is_deleted ≡ false)
    × (is_nil (select (of_workflow on.id) tables.steps) ≡ false)
    × All (Routable 1 tables) (select (of_workflow on.id) tables.steps)
activated-Routable_example = activated-Routable admin 1 40 tables refl activated
