-- ===== src/Leave/Types.antt =====
-- The rows of leave management and its tables (apps/api-gateway/src/leave/leave.service.ts, with
-- prisma/schema.prisma). Minutes on a balance are signed, those of a request are not.
use time_sync_be.Prelude.{ℕ, Bool, true, false, Option, List, String}
use time_sync_be.Prelude.Int.{ℤ}

pub data LeaveStatus : Type 0 where
  draft submitted pending_approval approved rejected cancelled withdrawn taken reversed :
      LeaveStatus

pub data LedgerType : Type 0 where
  opening_balance accrual carryover expiry credit_adjustment debit_adjustment requested
        approved_usage cancelled_restore reversal :
      LedgerType

pub data TimelineType : Type 0 where
  leave_requested leave_approved leave_rejected leave_cancelled leave_balance_adjusted
        leave_coverage_risk_flagged :
      TimelineType

pub data AuditAction : Type 0 where
  create update approve reject : AuditAction

pub record LeaveRequest : Type 0 where
  pub id : ℕ
  pub tenant_id : ℕ
  pub employee_id : ℕ
  pub leave_type_id : ℕ
  pub policy_id : Option ℕ
  pub calendar_id : Option ℕ
  pub approval_request_id : Option ℕ
  pub status : LeaveStatus
  pub start_at : ℕ
  pub end_at : ℕ
  pub requested_minutes : ℕ
  pub business_minutes : ℕ
  pub paid_minutes : ℕ
  pub unpaid_minutes : ℕ
  pub reason : String
  pub submitted_by_id : Option ℕ
  pub decided_by_id : Option ℕ
  pub decided_at : Option ℕ
  pub cancelled_at : Option ℕ
  pub is_deleted : Bool

pub record LeaveBalance : Type 0 where
  pub id : ℕ
  pub tenant_id : ℕ
  pub employee_id : ℕ
  pub leave_type_id : ℕ
  pub policy_id : Option ℕ
  pub balance_minutes : ℤ
  pub accrued_minutes : ℤ
  pub used_minutes : ℤ
  pub pending_minutes : ℤ
  pub as_of_date : ℕ

pub record LedgerEntry : Type 0 where
  pub tenant_id : ℕ
  pub employee_id : ℕ
  pub leave_type_id : ℕ
  pub balance_id : ℕ
  pub request_id : Option ℕ
  pub type : LedgerType
  pub minutes : ℤ
  pub reason : Option String
  pub actor_user_id : ℕ

-- Rows of the audit, timeline and outbox tables, which the service writes and never reads.
pub data LogRow : Type 0 where
  audit : (tenant actor : ℕ) → AuditAction → (entity_type : String) → (entity_id : ℕ) → LogRow
  timeline : (tenant employee actor : ℕ) → TimelineType → (title : String) → LogRow
  outbox : (tenant : ℕ) → (event_type : String) → (aggregate_id : ℕ) → LogRow

-- The newest row of the ledger stands first.
pub record Tables : Type 0 where
  pub requests : List LeaveRequest
  pub balances : List LeaveBalance
  pub ledger : List LedgerEntry
  pub log : List LogRow

-- `TERMINAL_LEAVE_STATUSES.includes(status)`
abbrev pub is_terminal : LeaveStatus → Bool
is_terminal LeaveStatus.rejected = true
is_terminal LeaveStatus.cancelled = true
is_terminal LeaveStatus.withdrawn = true
is_terminal LeaveStatus.reversed = true
is_terminal _ = false

-- `ACTIVE_LEAVE_STATUSES.includes(status)`
abbrev pub is_active : LeaveStatus → Bool
is_active LeaveStatus.submitted = true
is_active LeaveStatus.pending_approval = true
is_active LeaveStatus.approved = true
is_active LeaveStatus.taken = true
is_active _ = false

abbrev pub is_approved : LeaveStatus → Bool
is_approved LeaveStatus.approved = true
is_approved _ = false
