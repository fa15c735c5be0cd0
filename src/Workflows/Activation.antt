-- ===== src/Workflows/Activation.antt =====
-- What `activate` of apps/api-gateway/src/workflows/workflows.service.ts promises of the workflow
-- that it makes active.
use time_sync_be.Prelude.{
  ℕ, true, false, none, some, List, [], ◌∷◌, ◌≡◌, ◌≢◌, ◌⊎◌, inl, inr, arith, any, select, refl,
  find_first, find_first-holds, update_where, ◌==◌, All, ok, Option-cases,
}
use time_sync_be.Approvals.Types.{Actor}
use time_sync_be.Approvals.Assignees.{is_actionable}
use time_sync_be.Workflows.Types.{WorkflowStatus, Workflow, WorkflowStep, Tables}
use time_sync_be.Workflows.Orders.{of_workflow}
use time_sync_be.Workflows.Definitions.{
  validate_step_definition, validate_steps, definition_of, is_usable_role, is_usable_user, is_nil,
  assert_workflow_activatable, find_workflow_or_throw, is_workflow, transition_workflow, move_to,
  activate_workflow,
}

-- A step that passes for routable: a role or user that it names is in use, it names one of them at
-- most, and where it waits for a person it names one of them or has an approver expression.
pub record Routable (tenant_id : ℕ) (db : Tables) (s : WorkflowStep) : Type 0 where
  pub role :
      (k : ℕ) → s.approver_role_id ≡ some k → any (is_usable_role tenant_id k) db.roles ≡ true
  pub user :
      (k : ℕ) → s.approver_user_id ≡ some k → any (is_usable_user tenant_id k) db.users ≡ true
  pub one : (s.approver_role_id ≡ none) ⊎ (s.approver_user_id ≡ none)
  pub approver :
      is_actionable s.type ≡ true
      → (s.approver_role_id ≢ none) ⊎ (s.approver_user_id ≢ none) ⊎ (s.approver_expression ≢ none)

abbrev Passes : (tenant_id : ℕ) → WorkflowStep → Tables → Type 0
Passes tenant_id s db = (validate_step_definition tenant_id (definition_of s) db).0 ≡ ok tt

module _ (tenant_id : ℕ) (s : WorkflowStep) (db : Tables) (h : Passes tenant_id s db) where
  usable_role :
      (k : ℕ) → s.approver_role_id ≡ some k → any (is_usable_role tenant_id k) db.roles ≡ true
  unfolding validate_step_definition
  usable_role k e = ground arith

  usable_user :
      (k : ℕ) → s.approver_user_id ≡ some k → any (is_usable_user tenant_id k) db.users ≡ true
  unfolding validate_step_definition
  usable_user k e = ground arith

  one_approver : (s.approver_role_id ≡ none) ⊎ (s.approver_user_id ≡ none)
  unfolding validate_step_definition
  one_approver = ground arith

  has_approver :
      is_actionable s.type ≡ true
      → (s.approver_role_id ≢ none) ⊎ (s.approver_user_id ≢ none) ⊎ (s.approver_expression ≢ none)
  unfolding validate_step_definition
  has_approver a = ground arith

  Passes-Routable : Routable tenant_id db s
  Passes-Routable = record {
    role = usable_role;
    user = usable_user;
    one = one_approver;
    approver = has_approver;
  }

validation_writes_nothing :
    (tenant_id : ℕ) (s : WorkflowStep) (db : Tables)
    → (validate_step_definition tenant_id (definition_of s) db).1 ≡ db
unfolding validate_step_definition
validation_writes_nothing tenant_id s db = ground arith

validate_steps-Routable :
    (tenant_id : ℕ) (steps : List WorkflowStep) (db : Tables)
    → (validate_steps tenant_id steps db).0 ≡ ok tt
    → All (Routable tenant_id db) steps
unfolding validate_steps
validate_steps-Routable tenant_id [] db h = tt
validate_steps-Routable tenant_id (s ∷ steps) db h =
    let same = validation_writes_nothing tenant_id s db in
    (
      Passes-Routable tenant_id s db (ground arith),
      validate_steps-Routable tenant_id steps db (ground (arith, same)),
    )

activatable-Routable :
    (tenant_id workflow_id : ℕ) (db : Tables)
    → (assert_workflow_activatable tenant_id workflow_id db).0 ≡ ok tt
    → (is_nil (select (of_workflow workflow_id) db.steps) ≡ false)
      × All (Routable tenant_id db) (select (of_workflow workflow_id) db.steps)
unfolding assert_workflow_activatable
activatable-Routable tenant_id workflow_id db h = (
  ground arith,
  validate_steps-Routable tenant_id (select (of_workflow workflow_id) db.steps) db (ground arith),
)

validate_steps-keeps :
    (tenant_id : ℕ) (steps : List WorkflowStep) (db : Tables)
    → (validate_steps tenant_id steps db).1 ≡ db
unfolding validate_steps
validate_steps-keeps tenant_id [] db = refl
validate_steps-keeps tenant_id (s ∷ steps) db =
    ground
      (arith, validation_writes_nothing tenant_id s db, validate_steps-keeps tenant_id steps db)

activatable-keeps :
    (tenant_id workflow_id : ℕ) (db : Tables)
    → (assert_workflow_activatable tenant_id workflow_id db).1 ≡ db
unfolding assert_workflow_activatable
activatable-keeps tenant_id workflow_id db =
    ground (arith, validate_steps-keeps tenant_id (select (of_workflow workflow_id) db.steps) db)

-- The activated row is found, as one that is not deleted.
find-activated :
    (t k j : ℕ) (rows : List Workflow) (w : Workflow)
    → j ≡ k
    → find_first (is_workflow t k true) rows ≡ some w
    → find_first
        (is_workflow t k false)
        (update_where (λ x. x.id == j) (move_to WorkflowStatus.active) rows)
      ≡ some (move_to WorkflowStatus.active w)
find-activated t k j [] w same h = cc
find-activated t k j (x ∷ rows) w same h = ground (arith, find-activated t k j rows w same)

-- After an activation that returns, the row of the workflow is in its table, active and not deleted,
-- and is the one returned. The workflow has a step; each of its steps names no role or user that
-- cannot be used, names at most one of the two, and where it waits for a person names one of the two
-- or has an approver expression.
pub activated-Routable :
    (actor : Actor) (tenant_id workflow_id : ℕ) (db : Tables) {w : Workflow}
    → actor.tenant_id ≡ some tenant_id
    → (activate_workflow actor workflow_id db).0 ≡ ok w
    → (find_first
          (is_workflow tenant_id workflow_id false)
          (activate_workflow actor workflow_id db).1.workflows
        ≡ some w)
      × (w.status ≡ WorkflowStatus.active)
      × (w.is_deleted ≡ false)
      × (is_nil (select (of_workflow w.id) db.steps) ≡ false)
      × All (Routable tenant_id db) (select (of_workflow w.id) db.steps)
unfolding activate_workflow transition_workflow find_workflow_or_throw
activated-Routable actor tenant_id workflow_id db t h =
    elim (Option-cases (find_first (is_workflow tenant_id workflow_id true) db.workflows)) [
      | inl e ↦ absurd (ground arith)
      | inr (existing, found) ↦
          let valid = activatable-Routable tenant_id existing.id db (ground arith) in
          let own =
            find_first-holds (is_workflow tenant_id workflow_id true) existing db.workflows found in
          let row =
            find-activated tenant_id workflow_id existing.id db.workflows existing (ground arith)
              found in
          (
            ground (arith, row, activatable-keeps tenant_id existing.id db),
            ground arith,
            ground arith,
            ground (arith, valid),
            ground (arith, valid),
          )
    ]
