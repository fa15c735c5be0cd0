-- ===== src/Workflows/Creation.antt =====
-- Creating a workflow with its steps (`createWorkflow` and `normalizeCreateSteps` of
-- apps/api-gateway/src/workflows/workflows.service.ts).
use time_sync_be.Prelude.{
  ℕ, ◌+◌, Bool, true, false, ◌&&◌, Option, none, some, List, [], ◌∷◌, ◌++◌, String, if◌then◌else◌,
  or_default, includes, any, Handler, Result, ok, err, bad_request, unique_violation, gets, liftr,
  transaction, throw_if, modify, pure, ◌>>=◌, ◌>>◌, trim,
}
use time_sync_be.Prelude.Int.{pos}
use time_sync_be.Approvals.Types.{Actor}
use time_sync_be.Approvals.Requests.{require_tenant}
use time_sync_be.Workflows.Types.{
  WorkflowStatus, Workflow, WorkflowStep, AuditAction, LogRow, Tables, is_active,
}
use time_sync_be.Workflows.Definitions.{validate_step_definition, takes_code, write_log}
use time_sync_be.Workflows.Steps.{NewStep, new_definition, step_create_data}

pub record NewWorkflow : Type 0 where
  pub code : String
  pub name : String
  pub description : Option String
  pub workflow_module : String
  pub status : Option WorkflowStatus
  pub trigger_key : Option String
  pub steps : List NewStep

-- `normalizeCreateSteps`: each step with its order, refused where an order comes twice.
unfoldable pub normalize_create_steps :
    (index : ℕ) → (used : List ℕ) → List NewStep → Result (List (ℕ × NewStep))
normalize_create_steps index used [] = ok []
normalize_create_steps index used (s ∷ steps) =
    let order = or_default s.step_order (index + 1) in
    let rest = normalize_create_steps (index + 1) (order ∷ used) steps in
    if includes used order
    then err (bad_request "Workflow step orders must be unique.")
    else elim rest [ err e ↦ err e | ok others ↦ ok ((order, s) ∷ others) ]

unfoldable pub validate_new_steps : (tenant_id : ℕ) → List (ℕ × NewStep) → Handler Tables (Unit {0})
validate_new_steps tenant_id [] = pure tt
validate_new_steps tenant_id ((order, s) ∷ rest) =
    validate_step_definition tenant_id (new_definition s) >> validate_new_steps tenant_id rest

abbrev pub created_steps :
    (now : ℕ) → (new_step_id : ℕ → ℕ) → (workflow_id : ℕ) → List (ℕ × NewStep) → List WorkflowStep
created_steps now new_step_id workflow_id [] = []
created_steps now new_step_id workflow_id ((order, s) ∷ rest) =
    step_create_data now (new_step_id order) workflow_id (pos order) s
    ∷ created_steps now new_step_id workflow_id rest

abbrev pub wants_active : Option WorkflowStatus → Bool
wants_active none = false
wants_active (some s) = is_active s

abbrev pub no_steps : List (ℕ × NewStep) → Bool
no_steps [] = true
no_steps (_ ∷ _) = false

unfoldable pub create_workflow :
    (now new_id : ℕ) → (new_step_id : ℕ → ℕ) → Actor → NewWorkflow → Handler Tables Workflow
create_workflow now new_id new_step_id actor dto = do
  tenant_id ← require_tenant actor
  transaction do
    steps ← liftr (normalize_create_steps 0 [] dto.steps)
    validate_new_steps tenant_id steps
    throw_if (wants_active dto.status && no_steps steps)
        (bad_request "Active workflows must have at least one step.")
    let workflow : Workflow = record {
      id = new_id;
      tenant_id = tenant_id;
      code = dto.code;
      name = trim dto.name;
      description = dto.description;
      workflow_module = trim dto.workflow_module;
      status = or_default dto.status WorkflowStatus.draft;
      trigger_key = dto.trigger_key;
      is_deleted = false;
    }
    taken ← gets (λ db. any (takes_code tenant_id workflow.id workflow.code) db.workflows)
    throw_if taken unique_violation
    modify (λ db. record db {
      workflows = db.workflows ++ workflow ∷ [];
      steps = db.steps ++ created_steps now new_step_id workflow.id steps;
    })
    modify (
        write_log (
          LogRow.audit tenant_id actor.id AuditAction.create "Workflow" workflow.id
          ∷ LogRow.outbox tenant_id "workflow.created" workflow.id
          ∷ []))
    pure workflow
