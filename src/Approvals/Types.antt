-- ===== src/Approvals/Types.antt =====
-- The rows of the approval engine, and its tables
-- (apps/api-gateway/src/workflows/approvals.service.ts, with prisma/schema.prisma).
-- Row ids are compared and never inspected, so they are numbers; times are in milliseconds.
use time_sync_be.Prelude.{ℕ, Bool, true, false, Option, List, String}

pub data ApprovalStatus : Type 0 where
  pending approved rejected cancelled withdrawn completed : ApprovalStatus

pub data ActionType : Type 0 where
  submitted approved rejected returned commented delegated cancelled : ActionType

pub data WorkflowStepType : Type 0 where
  approval review notification system_action : WorkflowStepType

pub data WorkforceStatus : Type 0 where
  draft pending_approval approved rejected cancelled completed : WorkforceStatus

pub data AuditAction : Type 0 where
  create update approve reject disable : AuditAction

pub data TimelineType : Type 0 where
  workflow_submitted workflow_approved workflow_rejected : TimelineType

-- The signed-in user.
pub record Actor : Type 0 where
  pub id : ℕ
  pub tenant_id : Option ℕ
  pub permissions : List String

-- `approver_expression` is the text that `readApproverExpression` takes out of the JSON column.
pub record WorkflowStep : Type 0 where
  pub id : ℕ
  pub step_order : ℕ
  pub name : String
  pub type : WorkflowStepType
  pub approver_user_id : Option ℕ
  pub approver_role_id : Option ℕ
  pub approver_expression : Option String
  pub is_required : Bool
  pub allow_delegation : Bool
  pub sla_hours : Option ℕ

pub record Workflow : Type 0 where
  pub id : ℕ
  pub tenant_id : ℕ
  pub is_active : Bool
  pub is_deleted : Bool
  pub code : String
  pub workflow_module : String
  pub trigger_key : Option String
  pub steps : List WorkflowStep

-- What a return merges into the metadata of its step: who, when, and with what comment.
pub record ReturnNote : Type 0 where
  pub returned_by_id : ℕ
  pub returned_at : ℕ
  pub return_comment : Option String

-- A step of a request, joined with the workflow step that it was made from.
pub record StepInstance : Type 0 where
  pub id : ℕ
  pub approval_request_id : ℕ
  pub workflow_step : Option WorkflowStep
  pub step_order : ℕ
  pub name : String
  pub assigned_user_id : Option ℕ
  pub assigned_role_id : Option ℕ
  pub status : ApprovalStatus
  pub due_at : Option ℕ
  pub completed_at : Option ℕ
  pub created_at : ℕ
  pub return_note : Option ReturnNote

pub record ApprovalRequest : Type 0 where
  pub id : ℕ
  pub tenant_id : ℕ
  pub workflow_id : Option ℕ
  pub request_module : String
  pub entity_type : String
  pub entity_id : ℕ
  pub title : String
  pub description : Option String
  pub status : ApprovalStatus
  pub submitted_by_id : Option ℕ
  pub submitted_at : Option ℕ
  pub completed_at : Option ℕ

pub record ApprovalAction : Type 0 where
  pub approval_request_id : ℕ
  pub step_instance_id : Option ℕ
  pub actor_user_id : Option ℕ
  pub action : ActionType
  pub comment : Option String

pub record WorkforceAction : Type 0 where
  pub id : ℕ
  pub tenant_id : ℕ
  pub employee_id : ℕ
  pub workflow_request_id : Option ℕ
  pub status : WorkforceStatus
  pub completed_at : Option ℕ

pub record Delegation : Type 0 where
  pub id : ℕ
  pub tenant_id : ℕ
  pub from_user_id : ℕ
  pub to_user_id : ℕ
  pub delegated_module : Option String
  pub starts_at : ℕ
  pub ends_at : ℕ
  pub is_active : Bool
  pub reason : Option String

pub record User : Type 0 where
  pub id : ℕ
  pub tenant_id : ℕ
  pub is_deleted : Bool

pub record Role : Type 0 where
  pub id : ℕ
  pub tenant_id : Option ℕ
  pub code : String
  pub is_active : Bool
  pub is_deleted : Bool

-- A role that a user holds, joined with the role.
pub record UserRole : Type 0 where
  pub user_id : ℕ
  pub role : Role
  pub starts_at : Option ℕ
  pub ends_at : Option ℕ

-- Rows of the audit, timeline and outbox tables, which the engine writes and never reads.
pub data LogRow : Type 0 where
  audit : (tenant actor : ℕ) → AuditAction → (entity_type : String) → (entity_id : ℕ) → LogRow
  timeline :
      (tenant employee actor : ℕ) → TimelineType → (title : String) → (entity_id : ℕ) → LogRow
  outbox : (tenant : ℕ) → (event_type : String) → (aggregate_id : ℕ) → LogRow

pub record Tables : Type 0 where
  pub requests : List ApprovalRequest
  pub steps : List StepInstance
  pub actions : List ApprovalAction
  pub workforce_actions : List WorkforceAction
  pub delegations : List Delegation
  pub users : List User
  pub roles : List Role
  pub user_roles : List UserRole
  pub workflows : List Workflow
  pub log : List LogRow

abbrev pub is_pending : ApprovalStatus → Bool
is_pending ApprovalStatus.pending = true
is_pending _ = false

-- `AUTOMATED_STEP_TYPES.includes(type)`
abbrev pub is_automated : WorkflowStepType → Bool
is_automated notification = true
is_automated system_action = true
is_automated _ = false
