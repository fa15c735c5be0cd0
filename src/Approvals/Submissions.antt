-- ===== src/Approvals/Submissions.antt =====
-- Proofs about `submitRequest` and `stepInstancesForWorkflow` of
-- apps/api-gateway/src/workflows/approvals.service.ts: the steps that a submission makes, and the
-- state that it ends in.
use time_sync_be.Prelude.{
  ℕ, suc, true, false, ◌&&◌, Option, none, some, List, [], ◌∷◌, ◌++◌, ◌≡◌, refl, ◌⊎◌, inl, inr,
  arith, is_none, find_first, All, Result, ok,
}
use time_sync_be.Approvals.Types.{
  ApprovalStatus, ActionType, WorkflowStep, Workflow, ApprovalRequest, StepInstance, Actor, Tables,
  is_pending,
}
use time_sync_be.Approvals.Steps.{current_pending_step, steps_of}
use time_sync_be.Approvals.Passing.{needs_nobody, may_pass, Passed}
use time_sync_be.Approvals.Advance.{is_request}
use time_sync_be.Approvals.Assignees.{
  Assignment, Submission, Assignee, resolve_step_assignee, lacks_approver, is_actionable,
  instance_of, step_instances_for_workflow,
}
use time_sync_be.Approvals.Requests.{Env, resolve_entity_context, resolve_workflow, write_action}
use time_sync_be.Approvals.Submit.{new_request, insert_request, is_empty}
use time_sync_be.Approvals.Gates.{Result-cases}

-- A step that a person has to take has somebody to take it.
abbrev pub HasApprover : StepInstance → Type 0
HasApprover s =
    (w : WorkflowStep)
    → s.workflow_step ≡ some w
    → w.is_required ≡ true
    → is_actionable w.type ≡ true
    → (is_none s.assigned_user_id && is_none s.assigned_role_id) ≡ false

-- Each instance stands for the workflow step at its place: its order, and the request it is of.
abbrev pub Mirrors : (request_id : ℕ) → List WorkflowStep → List StepInstance → Type 0
Mirrors r [] [] = Unit
Mirrors r (w ∷ ws) (s ∷ ss) =
    ((s.workflow_step ≡ some w)
      × (s.step_order ≡ w.step_order)
      × (s.approval_request_id ≡ r)
      × (is_pending s.status ≡ true))
    × Mirrors r ws ss
Mirrors r [] (s ∷ ss) = ⊥
Mirrors r (w ∷ ws) [] = ⊥

staffed :
    (w w' : WorkflowStep) (a : Assignee)
    → lacks_approver w a ≡ false
    → some w ≡ some w'
    → w'.is_required ≡ true
    → is_actionable w'.type ≡ true
    → (is_none a.user_id && is_none a.role_id) ≡ false
staffed w w' a fits e required actionable = ground arith

module _ (now t r : ℕ) (new_step_id : ℕ → ℕ) (team : List Assignment) (dto : Submission)
    (db : Tables) where
  inverted :
      (n : ℕ) (w : WorkflowStep) (ws : List WorkflowStep) {out : List StepInstance}
      → step_instances_for_workflow now t r new_step_id n team dto db (w ∷ ws) ≡ ok out
      → (rest : List StepInstance) × (lacks_approver w (resolve_step_assignee now t team dto w db)
          ≡ false)
        × (step_instances_for_workflow now t r new_step_id (suc n) team dto db ws ≡ ok rest)
        × (out
            ≡ instance_of now r (new_step_id n) w (resolve_step_assignee now t team dto w db)
              ∷ rest)
  unfolding step_instances_for_workflow
  inverted n w ws h =
      elim (Result-cases (step_instances_for_workflow now t r new_step_id (suc n) team dto db ws)) [
        | inl (rest, e) ↦ (rest, ground arith, e, ground arith)
        | inr (x, e) ↦ absurd (ground arith)
      ]

  -- Where the steps of a workflow are made into steps of a request, each stands for one of them in
  -- the same order, is pending, and has an approver if it is required and is to be acted on.
  pub instances-HasApprover :
      (n : ℕ) (steps : List WorkflowStep) (instances : List StepInstance)
      → step_instances_for_workflow now t r new_step_id n team dto db steps ≡ ok instances
      → All HasApprover instances × Mirrors r steps instances
  unfolding step_instances_for_workflow
  instances-HasApprover n [] instances h =
      let none_made : instances ≡ [] = cc in rw none_made (tt, tt)
  instances-HasApprover n (w ∷ ws) instances h =
      let (rest, fits, e, same) = inverted n w ws h in
      let (ready, mirrored) = instances-HasApprover (suc n) ws rest e in
      rw same (
        (λ w' e required actionable. staffed w w' _ fits e required actionable, ready),
        ((refl, refl, refl, refl), mirrored),
      )

module _ (env : Env) (actor : Actor) (t : ℕ) (dto : Submission) (db : Tables) (workflow : Workflow)
    (employee_id : Option ℕ) (instances : List StepInstance) (tenant : actor.tenant_id ≡ some t)
    (matched : resolve_workflow t dto db ≡ some workflow)
    (entity : resolve_entity_context env.directory t dto.entity_type dto.entity_id false db
      ≡ ok employee_id)
    (has_steps : is_empty workflow.steps ≡ false)
    (made : step_instances_for_workflow env.now t env.new_request_id env.new_step_id 0
        env.directory.assignments dto db workflow.steps
      ≡ ok instances)
    (fresh : find_first (is_request t env.new_request_id) db.requests ≡ none) where
  abbrev submitted : ApprovalRequest
  submitted = new_request env actor t dto (some workflow.id) ApprovalStatus.pending none

  -- the tables before the automated steps are passed
  created : Tables
  created =
      write_action submitted.id none actor ActionType.submitted dto.description
        (insert_request submitted instances db)

  abbrev Outcome : Result ApprovalRequest × Tables → Type 0
  Outcome (result, db') =
      let request = submitted in
      let approved = record submitted {
        status = ApprovalStatus.approved;
        completed_at = some env.now;
      } in
      Passed env.now (may_pass env.new_request_id (db.steps ++ instances)) (db.steps ++ instances)
        db'.steps
      × (((result ≡ ok approved)
            × (find_first (is_request t env.new_request_id) db'.requests ≡ some approved)
            × (current_pending_step (steps_of env.new_request_id db'.steps) ≡ none))
          ⊎ ((next : StepInstance) × (result ≡ ok request)
              × (find_first (is_request t env.new_request_id) db'.requests ≡ some request)
              × (current_pending_step (steps_of env.new_request_id db'.steps) ≡ some next)
              × (needs_nobody next.workflow_step ≡ false)))
