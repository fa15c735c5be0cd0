-- ===== src/Workflows/Types.antt =====
-- The rows of workflow definitions and their tables
-- (apps/api-gateway/src/workflows/workflows.service.ts, with prisma/schema.prisma). The order of a
-- step is signed: a renumbering passes through negative orders. JSON conditions and metadata are not
-- kept.
use time_sync_be.Prelude.{ℕ, ◌==◌, Bool, true, false, Option, List, String}
use time_sync_be.Prelude.Int.{ℤ, pos, negsuc}
use time_sync_be.Approvals.Types.{WorkflowStepType, ApprovalRequest, Role, User}

pub data WorkflowStatus : Type 0 where
  draft active inactive archived : WorkflowStatus

pub record Workflow : Type 0 where
  pub id : ℕ
  pub tenant_id : ℕ
  pub code : String
  pub name : String
  pub description : Option String
  pub workflow_module : String
  pub status : WorkflowStatus
  pub trigger_key : Option String
  pub is_deleted : Bool

-- The JSON object that says how to find an approver: the text under its key `expression` or `type`,
-- where it has one. The request body admits nothing but an object, and every object is truthy.
pub record ApproverExpression : Type 0 where
  pub text : Option String

pub record WorkflowStep : Type 0 where
  pub id : ℕ
  pub workflow_id : ℕ
  pub step_order : ℤ
  pub name : String
  pub type : WorkflowStepType
  pub approver_role_id : Option ℕ
  pub approver_user_id : Option ℕ
  pub approver_expression : Option ApproverExpression
  pub is_required : Bool
  pub allow_delegation : Bool
  pub sla_hours : Option ℕ
  pub created_at : ℕ

pub data AuditAction : Type 0 where
  create update activate disable archive delete : AuditAction

-- Rows of the audit and outbox tables, which the service writes and never reads.
pub data LogRow : Type 0 where
  audit : (tenant actor : ℕ) → AuditAction → (entity_type : String) → (entity_id : ℕ) → LogRow
  outbox : (tenant : ℕ) → (event_type : String) → (workflow_id : ℕ) → LogRow

pub record Tables : Type 0 where
  pub workflows : List Workflow
  pub steps : List WorkflowStep
  pub requests : List ApprovalRequest
  pub roles : List Role
  pub users : List User
  pub log : List LogRow

abbrev pub eq_ℤ : ℤ → ℤ → Bool
eq_ℤ (pos m) (pos n) = m == n
eq_ℤ (negsuc m) (negsuc n) = m == n
eq_ℤ _ _ = false

abbrev pub is_active : WorkflowStatus → Bool
is_active WorkflowStatus.active = true
is_active _ = false

abbrev pub is_archived : WorkflowStatus → Bool
is_archived WorkflowStatus.archived = true
is_archived _ = false
