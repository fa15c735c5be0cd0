-- ===== src/Approvals/Steps.antt =====
-- The current step of a request, and the loop that passes over automated and optional steps
-- (`currentPendingStep`, `advanceAutomatedSteps` and `setRequestTerminal` of
-- apps/api-gateway/src/workflows/approvals.service.ts).
use time_sync_be.Prelude.{
  ℕ, zero, suc, ◌==◌, ltb, Bool, true, false, not, ◌&&◌, ◌||◌, Option, none, some, List, [], ◌∷◌,
  ◌++◌, is_key, select, first_by, find_first, update_where, count, Handler, ok, err, not_found,
  out_of_fuel, or_throw,
}
use time_sync_be.Approvals.Types.{
  ApprovalStatus, ActionType, WorkforceStatus, ApprovalRequest, StepInstance, WorkflowStep, Tables,
  is_pending, is_automated,
}

-- The order of the steps of a request: by `stepOrder`, then by `createdAt`.
abbrev pub precedes : StepInstance → StepInstance → Bool
precedes a b =
    ltb a.step_order b.step_order
    || ((a.step_order == b.step_order) && ltb a.created_at b.created_at)

-- `steps.filter(pending).sort(…)[0]`
unfoldable pub current_pending_step : List StepInstance → Option StepInstance
current_pending_step steps = first_by precedes (select (λ s. is_pending s.status) steps)

-- The steps that a request is loaded with.
abbrev pub steps_of : ℕ → List StepInstance → List StepInstance
steps_of request_id = select (λ s. s.approval_request_id == request_id)

unfoldable pub find_request_or_throw : ℕ → ℕ → Handler Tables ApprovalRequest
find_request_or_throw tenant_id request_id db =
    or_throw (find_first (λ r. (r.id == request_id) && (r.tenant_id == tenant_id)) db.requests)
      (not_found "Approval request not found.") db

abbrev pub is_pending_workforce : WorkforceStatus → Bool
is_pending_workforce WorkforceStatus.pending_approval = true
is_pending_workforce _ = false

-- `completedAt` is written for the three final statuses.
abbrev pub workforce_completion : ℕ → WorkforceStatus → Option ℕ → Option ℕ
workforce_completion now WorkforceStatus.approved old = some now
workforce_completion now WorkforceStatus.rejected old = some now
workforce_completion now WorkforceStatus.cancelled old = some now
workforce_completion now _ old = old

unfoldable pub set_request_terminal :
    (now tenant_id request_id : ℕ) → ApprovalStatus → WorkforceStatus → Tables → Tables
set_request_terminal now tenant_id request_id status workforce_status db = record db {
  requests =
      update_where (λ r. r.id == request_id)
        (λ r. record r { status = status; completed_at = some now }) db.requests;
  workforce_actions =
      update_where
        (λ w.
          (w.tenant_id == tenant_id)
          && is_key w.workflow_request_id request_id
          && is_pending_workforce w.status)
        (λ w. record w {
          status = workforce_status;
          completed_at = workforce_completion now workforce_status w.completed_at;
        })
        db.workforce_actions;
}

-- A step waits for a person when it is required and its type is not automated. A step whose
-- workflow step is gone counts as required, with no type, and is passed over.
abbrev pub waits_for_person : Option WorkflowStep → Bool
waits_for_person none = false
waits_for_person (some w) = w.is_required && not (is_automated w.type)

unfoldable pub complete_step :
    (now : ℕ) → ApprovalStatus → ℕ → List StepInstance → List StepInstance
complete_step now status step_id =
    update_where (λ s. s.id == step_id) (λ s. record s { status = status; completed_at = some now })

-- One round of the loop has found a step that needs nobody.
unfoldable pub pass_step : (now request_id : ℕ) → StepInstance → Tables → Tables
unfolding complete_step
pass_step now request_id step db = record db {
  steps = complete_step now ApprovalStatus.approved step.id db.steps;
  actions =
      db.actions
      ++ record {
        approval_request_id = request_id;
        step_instance_id = some step.id;
        actor_user_id = none;
        action = ActionType.approved;
        comment = some "Automated workflow step completed.";
      }
        ∷ [];
}

-- The rounds of `while (true)`, after the request has been found. The steps are loaded again in
-- each round.
unfoldable pub advance_rounds : ℕ → (now tenant_id request_id : ℕ) → Handler Tables (Unit {0})
advance_rounds zero now tenant_id request_id db = (err out_of_fuel, db)
advance_rounds (suc fuel) now tenant_id request_id db =
    elim (find_request_or_throw tenant_id request_id db).0 [
      | err e ↦ (err e, db)
      | ok request ↦ elim (current_pending_step (steps_of request.id db.steps)) [
        | none ↦ (
          ok tt,
          set_request_terminal now tenant_id request.id ApprovalStatus.approved
              WorkforceStatus.approved db,
        )
        | some step ↦ elim (waits_for_person step.workflow_step) [
          | true ↦ (ok tt, db)
          | false ↦ advance_rounds fuel now tenant_id request_id (pass_step now request.id step db)
        ]
      ]
    ]

abbrev pub pending_count : ℕ → List StepInstance → ℕ
pending_count request_id = count (λ s. (s.approval_request_id == request_id) && is_pending s.status)

-- Each round but the last completes a pending step of the request.
unfoldable pub advance_automated_steps : (now tenant_id request_id : ℕ) → Handler Tables (Unit {0})
unfolding advance_rounds
advance_automated_steps now tenant_id request_id db =
    advance_rounds (suc (pending_count request_id db.steps)) now tenant_id request_id db
