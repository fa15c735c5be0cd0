-- ===== src/Leave/Filing.antt =====
-- Filing a leave request (`createRequest` of apps/api-gateway/src/leave/leave.service.ts), from the
-- check of the window to the end of the transaction. What the calendar, the coverage and the
-- approval route came to is given.
use time_sync_be.Prelude.{
  ℕ, ltb, Bool, true, false, not, ◌&&◌, Option, none, some, List, [], ◌∷◌, ◌++◌, String,
  if◌then◌else◌, Handler, bad_request, liftr, throw_if, modify, pure, ◌>>=◌, ◌>>◌, trim,
}
use time_sync_be.Prelude.Int.{pos, ◌+ℤ◌, ◌-ℤ◌}
use time_sync_be.Approvals.Types.{Actor}
use time_sync_be.Leave.Types.{
  LeaveStatus, LedgerType, TimelineType, AuditAction, LeaveRequest, LeaveBalance, LogRow, Tables,
}
use time_sync_be.Leave.Rules.{
  LeavePolicy, validate_request_window, assert_no_overlap, assert_balance_available,
}
use time_sync_be.Leave.Outcome.{
  Env, ensure_balance, write_balance, write_entry, write_log, request_entry,
}
use time_sync_be.Leave.Adjust.{LeaveType}

-- `business_minutes`, `risk_flagged` and `routed` are the results of the calendar evaluation, the
-- coverage impact and the approval route.
pub record Filing : Type 0 where
  pub new_request_id : ℕ
  pub employee_id : ℕ
  pub leave_type : LeaveType
  pub policy : Option LeavePolicy
  pub calendar_id : Option ℕ
  pub start_at : ℕ
  pub end_at : ℕ
  pub requested_minutes : ℕ
  pub business_minutes : ℕ
  pub reason : String
  pub risk_flagged : Bool
  pub routed : Bool

-- `leaveType.paid ? requestedMinutes : 0`
abbrev pub paid_minutes_of : Filing → ℕ
paid_minutes_of f = if f.leave_type.paid then f.requested_minutes else 0

abbrev pub unpaid_minutes_of : Filing → ℕ
unpaid_minutes_of f = if f.leave_type.paid then 0 else f.requested_minutes

-- `policy?.requiresApproval !== false`
abbrev pub needs_approval : Option LeavePolicy → Bool
needs_approval none = true
needs_approval (some p) = p.requires_approval

abbrev pub policy_id_of : Option LeavePolicy → Option ℕ
policy_id_of none = none
policy_id_of (some p) = some p.id

abbrev pub request_of : Actor → (tenant_id : ℕ) → Filing → LeaveRequest
request_of actor tenant_id f = record {
  id = f.new_request_id;
  tenant_id = tenant_id;
  employee_id = f.employee_id;
  leave_type_id = f.leave_type.id;
  policy_id = policy_id_of f.policy;
  calendar_id = f.calendar_id;
  approval_request_id = none;
  status = if needs_approval f.policy then LeaveStatus.pending_approval else LeaveStatus.submitted;
  start_at = f.start_at;
  end_at = f.end_at;
  requested_minutes = f.requested_minutes;
  business_minutes = f.business_minutes;
  paid_minutes = paid_minutes_of f;
  unpaid_minutes = unpaid_minutes_of f;
  reason = trim f.reason;
  submitted_by_id = some actor.id;
  decided_by_id = none;
  decided_at = none;
  cancelled_at = none;
  is_deleted = false;
}

abbrev pub reserve_minutes : (now paid : ℕ) → LeaveBalance → LeaveBalance
reserve_minutes now paid b = record b {
  pending_minutes = b.pending_minutes +ℤ pos paid;
  as_of_date = now;
}

-- The minutes that a paid request holds, with their row.
unfoldable pub reserve :
    Env → Actor → (tenant_id : ℕ) → LeaveRequest → LeaveBalance → Tables → Tables
reserve env actor tenant_id request balance db =
    if ltb 0 request.paid_minutes
    then write_entry
        (request_entry actor request tenant_id balance.id LedgerType.requested
          (pos 0 -ℤ pos request.paid_minutes) none)
        (write_balance balance.id (reserve_minutes env.now request.paid_minutes) db)
    else db

unfoldable pub filing_rows :
    Actor → (tenant_id : ℕ) → LeaveRequest → (risk_flagged : Bool) → List LogRow
filing_rows actor tenant_id request risk_flagged =
    LogRow.audit tenant_id actor.id AuditAction.create "LeaveRequest" request.id
    ∷ LogRow.timeline tenant_id request.employee_id actor.id TimelineType.leave_requested
        "Leave requested"
    ∷ LogRow.outbox tenant_id "leave.request.submitted" request.id
    ∷ (if risk_flagged
        then LogRow.timeline tenant_id request.employee_id actor.id
            TimelineType.leave_coverage_risk_flagged "Leave coverage risk flagged"
          ∷ LogRow.outbox tenant_id "leave.coverage.risk_flagged" request.id
          ∷ []
        else [])

-- A balance that is missing is made before the request is refused for its minutes or its route.
unfoldable pub file_request : Env → Actor → (tenant_id : ℕ) → Filing → Handler Tables LeaveRequest
file_request env actor tenant_id f = do
  let request = request_of actor tenant_id f
  liftr (validate_request_window f.start_at f.end_at f.requested_minutes f.policy)
  λ db. (assert_no_overlap tenant_id f.employee_id f.start_at f.end_at db.requests, db)
  balance ← ensure_balance env tenant_id f.employee_id f.leave_type.id (policy_id_of f.policy)
  if ltb 0 request.paid_minutes
      then liftr (assert_balance_available balance f.policy request.paid_minutes)
      else pure tt
  throw_if (needs_approval f.policy && not f.routed)
      (bad_request "No active leave approval workflow matched this request.")
  modify (λ db. record db { requests = db.requests ++ request ∷ [] })
  modify (reserve env actor tenant_id request balance)
  modify (write_log (filing_rows actor tenant_id request f.risk_flagged))
  pure request
