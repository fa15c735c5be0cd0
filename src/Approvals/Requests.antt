-- ===== src/Approvals/Requests.antt =====
-- What the handlers of an approval request share (`resolveEntityContext`, `resolveWorkflow`,
-- `writeRequestEffects` and the writers of the audit, timeline and outbox rows, of
-- apps/api-gateway/src/workflows/approvals.service.ts). JSON metadata and payloads are not kept, but
-- for the `employeeId` of a submission.
use time_sync_be.Prelude.{
  ℕ, ◌==◌, Bool, false, not, ◌&&◌, ◌||◌, Option, none, some, List, [], ◌∷◌, ◌++◌, String, str_eq,
  if◌then◌else◌, find_first, Handler, Error, Result, ok, err, bad_request, forbidden, or_throw,
  trim, upper_is, lower_is, present,
}
use time_sync_be.Approvals.Types.{
  ActionType, AuditAction, TimelineType, LogRow, Workflow, ApprovalRequest, Actor, Tables,
}
use time_sync_be.Approvals.Assignees.{Assignment, Submission}

-- The tables of other services that a submission is checked against: the employee of an entity, or
-- that it exists.
pub record Directory : Type 0 where
  pub employee_exists : (tenant_id entity_id : ℕ) → Bool
  pub assignment_employee : (tenant_id entity_id : ℕ) → Option ℕ
  pub leave_request_employee : (tenant_id entity_id : ℕ) → Option ℕ
  pub position_exists : (tenant_id entity_id : ℕ) → Bool
  pub person_exists : (tenant_id entity_id : ℕ) → Bool
  pub assignments : List Assignment

-- What one call reads besides the tables: the clock, and the ids that the database gives to the
-- rows that the call creates.
pub record Env : Type 0 where
  pub now : ℕ
  pub new_request_id : ℕ
  pub new_step_id : ℕ → ℕ
  pub directory : Directory

abbrev pub require_tenant : {S : Type 0} → Actor → Handler S ℕ
require_tenant actor = or_throw actor.tenant_id (forbidden "A tenant context is required.")

abbrev require_entity : (optional : Bool) → Option ℕ → Error → Result (Option ℕ)
require_entity optional (some k) e = ok (some k)
require_entity optional none e = if optional then ok none else err e

abbrev require_existence : (optional : Bool) → Bool → Error → Result (Option ℕ)
require_existence optional exists e = if exists || optional then ok none else err e

-- The workforce action of an entity, and its employee.
unfoldable pub workforce_employee : (tenant_id entity_id : ℕ) → Tables → Option ℕ
workforce_employee tenant_id entity_id db =
    elim (find_first (λ w. (w.id == entity_id) && (w.tenant_id == tenant_id))
      db.workforce_actions) [ none ↦ none | some w ↦ some w.employee_id ]

-- The employee that an entity belongs to, for the timeline.
unfoldable pub resolve_entity_context :
    Directory → (tenant_id : ℕ) → String → ℕ → (optional : Bool) → Tables → Result (Option ℕ)
resolve_entity_context dir tenant_id entity_type entity_id optional db =
    let kind = trim entity_type in
    if lower_is kind "employee"
    then require_entity optional
        (if dir.employee_exists tenant_id entity_id then some entity_id else none)
        (bad_request "Employee entity reference is invalid.")
    else if lower_is kind "employeeassignment" || lower_is kind "employee_assignment"
    then require_entity optional (dir.assignment_employee tenant_id entity_id)
        (bad_request "Employee assignment entity reference is invalid.")
    else if lower_is kind "workforceaction" || lower_is kind "workforce_action"
    then require_entity optional (workforce_employee tenant_id entity_id db)
        (bad_request "Workforce action entity reference is invalid.")
    else if lower_is kind "leaverequest" || lower_is kind "leave_request"
    then require_entity optional (dir.leave_request_employee tenant_id entity_id)
        (bad_request "Leave request entity reference is invalid.")
    else if lower_is kind "position"
    then require_existence optional (dir.position_exists tenant_id entity_id)
        (bad_request "Position entity reference is invalid.")
    else if lower_is kind "person"
    then require_existence optional (dir.person_exists tenant_id entity_id)
        (bad_request "Person entity reference is invalid.")
    else ok none

-- `triggerKey` is a nullable column of a workflow.
abbrev has_trigger : Workflow → String → Bool
has_trigger w key = elim w.trigger_key [ none ↦ false | some k ↦ str_eq k key ]

abbrev is_live : (tenant_id : ℕ) → Workflow → Bool
is_live tenant_id w = (w.tenant_id == tenant_id) && w.is_active && not w.is_deleted

-- By id, else by code and module, else by trigger and module. The steps of a workflow stand in the
-- order of `stepOrder`.
unfoldable pub resolve_workflow : (tenant_id : ℕ) → Submission → Tables → Option Workflow
resolve_workflow tenant_id dto db = elim dto.workflow_id [
  | some k ↦ find_first (λ w. is_live tenant_id w && (w.id == k)) db.workflows
  | none ↦ elim (present dto.workflow_code) [
    | some c ↦
        find_first
          (λ w.
            is_live tenant_id w
            && upper_is (trim c) w.code
            && str_eq w.workflow_module (trim dto.submission_module))
          db.workflows
    | none ↦ elim (present dto.trigger_key) [
      | some t ↦
          find_first
            (λ w.
              is_live tenant_id w
              && has_trigger w t
              && str_eq w.workflow_module (trim dto.submission_module))
            db.workflows
      | none ↦ none
    ]
  ]
]

abbrev pub write_log : List LogRow → Tables → Tables
write_log rows db = record db { log = db.log ++ rows }

abbrev pub write_action :
    (request_id : ℕ) → Option ℕ → Actor → ActionType → Option String → Tables → Tables
write_action request_id step_id actor action comment db = record db {
  actions =
      db.actions
      ++ record {
        approval_request_id = request_id;
        step_instance_id = step_id;
        actor_user_id = some actor.id;
        action = action;
        comment = comment;
      }
        ∷ [];
}

unfoldable pub timeline_title : TimelineType → String
timeline_title TimelineType.workflow_approved = "Workflow approved"
timeline_title TimelineType.workflow_rejected = "Workflow rejected"
timeline_title TimelineType.workflow_submitted = "Workflow submitted"

-- The audit row, the timeline row where the entity has an employee, and the outbox row.
unfoldable pub request_effects :
    Actor
    → (tenant_id : ℕ) → ApprovalRequest
    → AuditAction
    → (outbox_event : String) → TimelineType
    → (employee_id : Option ℕ) → List LogRow
request_effects actor tenant_id request action event type employee_id =
    LogRow.audit tenant_id actor.id action "ApprovalRequest" request.id ∷ elim employee_id [
      | none ↦ LogRow.outbox tenant_id event request.id ∷ []
      | some e ↦
          LogRow.timeline tenant_id e actor.id type (timeline_title type) request.id
          ∷ LogRow.outbox tenant_id event request.id
          ∷ []
    ]

unfoldable pub write_request_effects :
    Actor
    → (tenant_id : ℕ) → ApprovalRequest
    → AuditAction
    → (outbox_event : String) → TimelineType
    → (employee_id : Option ℕ) → Tables
    → Tables
write_request_effects actor tenant_id request action event type employee_id =
    write_log (request_effects actor tenant_id request action event type employee_id)
