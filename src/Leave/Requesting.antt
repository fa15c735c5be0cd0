-- ===== src/Leave/Requesting.antt =====
-- Creating a leave request (`createRequest` and `approvalSubmissionFor` of
-- apps/api-gateway/src/leave/leave.service.ts), from the check of its documents on. The employee, the leave
-- type, the policy, the assignment and the approval route that were looked up are given.
use time_sync_be.Prelude.{
  ℕ, ◌==◌, leb, Bool, true, false, not, ◌&&◌, Option, none, some, List, [], ◌∷◌, String, str_eq,
  trim, if◌then◌else◌, or_default, is_none, Handler, bad_request, gets, liftr, throw_if, modify,
  pure, update_where, ◌>>=◌, ◌>>◌,
}
use Prim.Native.String.{◌++◌ as append_text}
use time_sync_be.Approvals.Types.{ApprovalStatus, Actor, ApprovalRequest}
use time_sync_be.Approvals.Assignees.{Submission}
use time_sync_be.Approvals.Submit.{submit_request}
use time_sync_be.Leave.Types.{LeaveStatus, LeaveRequest, Tables}
use time_sync_be.Leave.Rules.{LeavePolicy}
use time_sync_be.Leave.Adjust.{LeaveType}
use time_sync_be.Leave.Outcome.{require_tenant, find_request_or_throw, apply_leave_outcome}
use time_sync_be.Leave.Filing.{Filing, needs_approval, file_request}
use time_sync_be.Leave.Decisions.{World, Context, on_leave, on_engine}
use time_sync_be.Leave.Calendar.{Calendar, CalendarTables, Placement, resolve_calendar_for_employee}
use time_sync_be.Leave.Days.{Evaluation, evaluate_calendar_window, requested_minutes}
use time_sync_be.Leave.Coverage.{CoverageTables, RiskLevel, Impact, coverage_impact_for_window}

pub record Route : Type 0 where
  pub workflow_id : Option ℕ
  pub workflow_code : Option String
  pub trigger_key : Option String

pub record Creation : Type 0 where
  pub new_request_id : ℕ
  pub employee_id : ℕ
  pub leave_type : LeaveType
  pub leave_type_name : String
  pub policy : Option LeavePolicy
  pub assignment : Option Placement
  pub route : Option Route
  pub calendar_id : Option ℕ
  pub start_at : ℕ
  pub end_at : ℕ
  pub requested_minutes : Option ℕ
  pub reason : String
  pub supporting_document_url : Option String

abbrev pub is_undocumented : Option String → Bool
is_undocumented none = true
is_undocumented (some s) = str_eq (trim s) ""

abbrev pub has_blocker : List ℕ → Bool
has_blocker [] = false
has_blocker (_ ∷ _) = true

abbrev pub calendar_key : Option Calendar → Option ℕ
calendar_key none = none
calendar_key (some c) = some c.id

-- `coverageSnapshot.riskLevel !== 'LOW'`
abbrev pub is_flagged : RiskLevel → Bool
is_flagged RiskLevel.low = false
is_flagged _ = true

unfoldable pub filing_of : Creation → Option Calendar → Evaluation → Impact → Filing
filing_of c calendar evaluation impact = record {
  new_request_id = c.new_request_id;
  employee_id = c.employee_id;
  leave_type = c.leave_type;
  policy = c.policy;
  calendar_id = calendar_key calendar;
  start_at = c.start_at;
  end_at = c.end_at;
  requested_minutes = requested_minutes c.requested_minutes evaluation c.start_at c.end_at;
  business_minutes = evaluation.business_minutes;
  reason = c.reason;
  risk_flagged = is_flagged impact.risk_level;
  routed = not (is_none c.route);
}

abbrev pub route_id : Option Route → Option ℕ
route_id none = none
route_id (some r) = r.workflow_id

abbrev pub route_code : Option Route → Option String
route_code none = none
route_code (some r) = r.workflow_code

abbrev pub route_trigger : Option Route → String
route_trigger none = "leave.request.submitted"
route_trigger (some r) = or_default r.trigger_key "leave.request.submitted"

unfoldable pub approval_submission_for :
    LeaveRequest → (leave_type_name : String) → Option Route → Submission
approval_submission_for request leave_type_name route = record {
  workflow_id = route_id route;
  workflow_code = route_code route;
  trigger_key = some (route_trigger route);
  submission_module = "leave";
  entity_type = "LeaveRequest";
  entity_id = request.id;
  title = append_text leave_type_name " request";
  description = some request.reason;
  employee_id = some request.employee_id;
  allow_auto_approval = false;
}

abbrev pub is_granted : ApprovalStatus → Bool
is_granted ApprovalStatus.approved = true
is_granted _ = false

-- The leave request gets the id of the engine's request.
unfoldable pub link_approval : LeaveRequest → ApprovalRequest → Tables → Tables
link_approval request approval db = record db {
  requests =
      update_where (λ r. r.id == request.id)
        (λ r. record r {
          approval_request_id = some approval.id;
          status =
              if is_granted approval.status then request.status else LeaveStatus.pending_approval;
        })
        db.requests;
}

-- What follows the filing: the policy approves at once, or the engine gets the request.
unfoldable pub route_request :
    Context → Actor → (tenant_id : ℕ) → Creation → LeaveRequest → Handler World LeaveRequest
route_request context actor tenant_id c request =
    if needs_approval c.policy
    then (do
      approval ← on_engine (
          submit_request context.engine_env actor
            (approval_submission_for request c.leave_type_name c.route))
      on_leave (modify (link_approval request approval))
      if is_granted approval.status
          then (do
            applied ← on_leave (
                apply_leave_outcome context.leave_env actor request.id approval.status
                  (some "Leave request auto-approved by workflow."))
            pure tt)
          else pure tt
      on_leave (find_request_or_throw tenant_id request.id))
    else (do
      applied ← on_leave (
          apply_leave_outcome context.leave_env actor request.id ApprovalStatus.approved
            (some "Auto-approved by leave policy."))
      on_leave (find_request_or_throw tenant_id request.id))

unfoldable pub create_leave :
    Context → Actor → CalendarTables → CoverageTables → Creation → Handler World LeaveRequest
create_leave context actor calendars coverage c = do
  tenant_id ← require_tenant actor
  throw_if (c.leave_type.requires_documentation && is_undocumented c.supporting_document_url)
      (bad_request "Supporting documentation is required for this leave type.")
  throw_if (leb c.end_at c.start_at) (bad_request "Leave end must be after start.")
  calendar ← liftr (resolve_calendar_for_employee tenant_id c.calendar_id c.assignment calendars)
  let evaluation =
      evaluate_calendar_window tenant_id calendar c.leave_type.id c.assignment c.start_at c.end_at
        calendars
  throw_if (has_blocker evaluation.blockers) (bad_request "Leave overlaps a blackout window.")
  impact ← gets (λ w.
      coverage_impact_for_window tenant_id c.employee_id c.start_at c.end_at c.assignment
        w.leave.requests coverage)
  request ←
      on_leave
        (file_request context.leave_env actor tenant_id (filing_of c calendar evaluation impact))
  route_request context actor tenant_id c request
