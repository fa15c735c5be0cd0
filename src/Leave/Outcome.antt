-- ===== src/Leave/Outcome.antt =====
-- Settling a leave request on its balance (`applyLeaveOutcome`, `ensureBalance` and
-- `leaveStatusForApproval` of apps/api-gateway/src/leave/leave.service.ts). Metadata and snapshots
-- are not kept.
use time_sync_be.Prelude.{
  ℕ, ◌==◌, ltb, Bool, true, false, not, ◌&&◌, ◌||◌, Option, none, some, List, [], ◌∷◌, ◌++◌, String,
  if◌then◌else◌, is_key, any, find_first, update_where, Handler, ok, forbidden, not_found, or_throw,
  transaction, modify, pure, ◌>>=◌, ◌>>◌,
}
use time_sync_be.Prelude.Int.{ℤ, pos, ◌+ℤ◌, ◌-ℤ◌}
use time_sync_be.Approvals.Types.{ApprovalStatus, Actor}
use time_sync_be.Leave.Types.{
  LeaveStatus, LedgerType, TimelineType, AuditAction, LeaveRequest, LeaveBalance, LedgerEntry,
  LogRow, Tables, is_terminal, is_approved,
}

-- The clock of a call, and the id that the database gives to a balance that the call creates.
pub record Env : Type 0 where
  pub now : ℕ
  pub new_balance_id : ℕ

abbrev pub require_tenant : {S : Type 0} → Actor → Handler S ℕ
require_tenant actor = or_throw actor.tenant_id (forbidden "A tenant context is required.")

-- `where: { id, tenantId, deletedAt: null }`
abbrev pub is_request : (tenant_id request_id : ℕ) → LeaveRequest → Bool
is_request tenant_id request_id r =
    (r.id == request_id) && (r.tenant_id == tenant_id) && not r.is_deleted

unfoldable pub find_request_or_throw : (tenant_id request_id : ℕ) → Handler Tables LeaveRequest
find_request_or_throw tenant_id request_id db =
    or_throw (find_first (is_request tenant_id request_id) db.requests)
      (not_found "Leave request not found.") db

abbrev pub is_balance : (tenant_id employee_id leave_type_id : ℕ) → LeaveBalance → Bool
is_balance tenant_id employee_id leave_type_id b =
    (b.tenant_id == tenant_id)
    && (b.employee_id == employee_id)
    && (b.leave_type_id == leave_type_id)

abbrev pub empty_balance : Env → (tenant_id employee_id leave_type_id : ℕ) → Option ℕ → LeaveBalance
empty_balance env tenant_id employee_id leave_type_id policy_id = record {
  id = env.new_balance_id;
  tenant_id = tenant_id;
  employee_id = employee_id;
  leave_type_id = leave_type_id;
  policy_id = policy_id;
  balance_minutes = pos 0;
  accrued_minutes = pos 0;
  used_minutes = pos 0;
  pending_minutes = pos 0;
  as_of_date = env.now;
}

unfoldable pub ensure_balance :
    Env → (tenant_id employee_id leave_type_id : ℕ) → Option ℕ → Handler Tables LeaveBalance
ensure_balance env tenant_id employee_id leave_type_id policy_id db =
    elim (find_first (is_balance tenant_id employee_id leave_type_id) db.balances) [
      | some b ↦ (ok b, db)
      | none ↦
          let created = empty_balance env tenant_id employee_id leave_type_id policy_id in
          (ok created, record db { balances = db.balances ++ created ∷ [] })
    ]

-- The changes of a balance: each is a Prisma `increment` or `decrement`.
abbrev pub use_minutes : (now paid : ℕ) → LeaveBalance → LeaveBalance
use_minutes now paid b = record b {
  pending_minutes = b.pending_minutes -ℤ pos paid;
  used_minutes = b.used_minutes +ℤ pos paid;
  balance_minutes = b.balance_minutes -ℤ pos paid;
  as_of_date = now;
}

abbrev pub release_minutes : (now paid : ℕ) → LeaveBalance → LeaveBalance
release_minutes now paid b = record b {
  pending_minutes = b.pending_minutes -ℤ pos paid;
  as_of_date = now;
}

abbrev pub same_type : LedgerType → LedgerType → Bool
same_type LedgerType.opening_balance LedgerType.opening_balance = true
same_type LedgerType.accrual LedgerType.accrual = true
same_type LedgerType.carryover LedgerType.carryover = true
same_type LedgerType.expiry LedgerType.expiry = true
same_type LedgerType.reversal LedgerType.reversal = true
same_type LedgerType.credit_adjustment LedgerType.credit_adjustment = true
same_type LedgerType.debit_adjustment LedgerType.debit_adjustment = true
same_type LedgerType.requested LedgerType.requested = true
same_type LedgerType.approved_usage LedgerType.approved_usage = true
same_type LedgerType.cancelled_restore LedgerType.cancelled_restore = true
same_type _ _ = false

-- `where: { tenantId, requestId, type }`
abbrev pub is_entry : (tenant_id request_id : ℕ) → LedgerType → LedgerEntry → Bool
is_entry tenant_id request_id type e =
    (e.tenant_id == tenant_id) && is_key e.request_id request_id && same_type e.type type

abbrev pub write_entry : LedgerEntry → Tables → Tables
write_entry e db = record db { ledger = e ∷ db.ledger }

abbrev pub write_balance : (balance_id : ℕ) → (LeaveBalance → LeaveBalance) → Tables → Tables
write_balance balance_id f db = record db {
  balances = update_where (λ b. b.id == balance_id) f db.balances;
}

abbrev pub request_entry :
    Actor → LeaveRequest → (tenant_id balance_id : ℕ) → LedgerType → ℤ → Option String → LedgerEntry
request_entry actor request tenant_id balance_id type minutes comment = record {
  tenant_id = tenant_id;
  employee_id = request.employee_id;
  leave_type_id = request.leave_type_id;
  balance_id = balance_id;
  request_id = some request.id;
  type = type;
  minutes = minutes;
  reason = elim comment [ none ↦ some request.reason | some c ↦ some c ];
  actor_user_id = actor.id;
}

abbrev pub is_approval : ApprovalStatus → Bool
is_approval ApprovalStatus.approved = true
is_approval _ = false

-- The writes to the balance and the ledger, once for each request and kind of entry.
unfoldable pub settle_balance :
    Env
    → Actor
    → (tenant_id : ℕ) → LeaveRequest
    → ApprovalStatus
    → Option String
    → LeaveBalance
    → Tables
    → Tables
settle_balance env actor tenant_id request status comment balance db =
    if is_approval status
    then (if any (is_entry tenant_id request.id LedgerType.approved_usage) db.ledger
        then db
        else write_entry
            (request_entry actor request tenant_id balance.id LedgerType.approved_usage
              (pos 0 -ℤ pos request.paid_minutes) comment)
            (write_balance balance.id (use_minutes env.now request.paid_minutes) db))
    else (if any (is_entry tenant_id request.id LedgerType.cancelled_restore) db.ledger
        then db
        else write_entry
            (request_entry actor request tenant_id balance.id LedgerType.cancelled_restore
              (pos request.paid_minutes) comment)
            (write_balance balance.id (release_minutes env.now request.paid_minutes) db))

abbrev pub leave_status_for_approval : ApprovalStatus → LeaveStatus
leave_status_for_approval ApprovalStatus.approved = LeaveStatus.approved
leave_status_for_approval ApprovalStatus.cancelled = LeaveStatus.cancelled
leave_status_for_approval ApprovalStatus.withdrawn = LeaveStatus.withdrawn
leave_status_for_approval _ = LeaveStatus.rejected

-- The outcomes that the handler acts on.
abbrev pub is_outcome : ApprovalStatus → Bool
is_outcome ApprovalStatus.approved = true
is_outcome ApprovalStatus.rejected = true
is_outcome ApprovalStatus.cancelled = true
is_outcome ApprovalStatus.withdrawn = true
is_outcome _ = false

-- The three early returns.
abbrev pub leaves_alone : ApprovalStatus → LeaveStatus → Bool
leaves_alone outcome status =
    not (is_outcome outcome)
    || (is_approval outcome && is_approved status)
    || (not (is_approval outcome) && is_terminal status)

abbrev pub ends_early : LeaveStatus → Bool
ends_early LeaveStatus.cancelled = true
ends_early LeaveStatus.withdrawn = true
ends_early _ = false

abbrev pub decide : Env → Actor → LeaveStatus → LeaveRequest → LeaveRequest
decide env actor status r = record r {
  status = status;
  decided_by_id = some actor.id;
  decided_at = some env.now;
  cancelled_at = if ends_early status then some env.now else r.cancelled_at;
}

abbrev outcome_timeline : LeaveStatus → TimelineType
outcome_timeline LeaveStatus.approved = TimelineType.leave_approved
outcome_timeline LeaveStatus.cancelled = TimelineType.leave_cancelled
outcome_timeline LeaveStatus.withdrawn = TimelineType.leave_cancelled
outcome_timeline _ = TimelineType.leave_rejected

abbrev outcome_title : LeaveStatus → String
outcome_title LeaveStatus.approved = "Leave approved"
outcome_title LeaveStatus.cancelled = "Leave cancelled"
outcome_title LeaveStatus.withdrawn = "Leave cancelled"
outcome_title _ = "Leave rejected"

abbrev outcome_event : LeaveStatus → String
outcome_event LeaveStatus.approved = "leave.request.approved"
outcome_event LeaveStatus.cancelled = "leave.request.cancelled"
outcome_event LeaveStatus.withdrawn = "leave.request.withdrawn"
outcome_event _ = "leave.request.rejected"

abbrev pub write_log : List LogRow → Tables → Tables
write_log rows db = record db { log = db.log ++ rows }

unfoldable pub outcome_rows : Actor → (tenant_id : ℕ) → LeaveRequest → List LogRow
outcome_rows actor tenant_id updated =
    LogRow.audit tenant_id actor.id
      (if is_approved updated.status then AuditAction.approve else AuditAction.reject)
      "LeaveRequest" updated.id
    ∷ LogRow.timeline tenant_id updated.employee_id actor.id (outcome_timeline updated.status)
        (outcome_title updated.status)
    ∷ LogRow.outbox tenant_id (outcome_event updated.status) updated.id
    ∷ []

-- The rest of the transaction, for a request that is not left alone. Only paid minutes touch the
-- balance.
unfoldable pub record_outcome :
    Env
    → Actor
    → (tenant_id : ℕ) → ApprovalStatus
    → Option String
    → LeaveRequest
    → Handler Tables LeaveRequest
record_outcome env actor tenant_id outcome comment request = do
  let status = leave_status_for_approval outcome
  let updated = decide env actor status request
  if ltb 0 request.paid_minutes
      then (do
        balance ←
            ensure_balance env tenant_id request.employee_id request.leave_type_id request.policy_id
        modify (settle_balance env actor tenant_id request outcome comment balance))
      else pure tt
  modify (λ db. record db {
    requests = update_where (λ r. r.id == request.id) (decide env actor status) db.requests;
  })
  modify (write_log (outcome_rows actor tenant_id updated))
  pure updated

unfoldable pub apply_leave_outcome :
    Env → Actor → (request_id : ℕ) → ApprovalStatus → Option String → Handler Tables LeaveRequest
apply_leave_outcome env actor request_id outcome comment = do
  tenant_id ← require_tenant actor
  transaction do
    request ← find_request_or_throw tenant_id request_id
    if leaves_alone outcome request.status
        then pure request
        else record_outcome env actor tenant_id outcome comment request
