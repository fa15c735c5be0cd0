-- ===== src/Leave/RequestExamples.antt =====
-- The theorem about refused submissions, applied to an engine without workflows.
use time_sync_be.Prelude.{
  ◌<◌, ◌++◌, arith, true, false, none, some, [], ◌∷◌, ◌≡◌, refl, ok, err, bad_request, trim,
  lower_is,
}
use time_sync_be.Prelude.Int.{pos, ◌+ℤ◌, ◌-ℤ◌}
use time_sync_be.Approvals.Types.{Actor}
use time_sync_be.Approvals.Types as Engine
use time_sync_be.Approvals.Requests.{resolve_workflow, resolve_entity_context}
use time_sync_be.Approvals.Submit.{submit_request, submit_without_workflow}
use time_sync_be.Leave.Types.{LeaveStatus, LeaveBalance, Tables}
use time_sync_be.Leave.Rules.{
  diff_minutes, validate_request_window, assert_no_overlap, assert_balance_available,
}
use time_sync_be.Leave.Outcome.{ensure_balance}
use time_sync_be.Leave.Filing.{Filing, request_of, file_request}
use time_sync_be.Leave.Decisions.{World, Context}
use time_sync_be.Leave.Calendar.{CalendarTables, resolve_calendar_for_employee}
use time_sync_be.Leave.Days.{evaluate_calendar_window}
use time_sync_be.Leave.Coverage.{CoverageTables, coverage_impact_for_window}
use time_sync_be.Leave.Requesting.{Creation, filing_of, approval_submission_for, create_leave}
use time_sync_be.Leave.Unlinked.{pending_of, refused_submission_keeps_minutes}

abbrev employee_actor : Actor
employee_actor = record { id = 9; tenant_id = some 1; permissions = [] }

abbrev empty_engine : Engine.Tables
empty_engine = record {
  requests = [];
  steps = [];
  actions = [];
  workforce_actions = [];
  delegations = [];
  users = [];
  roles = [];
  user_roles = [];
  workflows = [];
  log = [];
}

abbrev call : Context
call = record {
  leave_env = record { now = 100; new_balance_id = 90 };
  engine_env = record {
    now = 100;
    new_request_id = 72;
    new_step_id = λ n. n;
    directory = record {
      employee_exists = λ t k. false;
      assignment_employee = λ t k. none;
      leave_request_employee = λ t k. some 3;
      position_exists = λ t k. false;
      person_exists = λ t k. false;
      assignments = [];
    };
  };
  directory = record { employees = []; types = [] };
}

abbrev own_balance : LeaveBalance
own_balance = record {
  id = 20;
  tenant_id = 1;
  employee_id = 3;
  leave_type_id = 4;
  policy_id = none;
  balance_minutes = pos 480;
  accrued_minutes = pos 480;
  used_minutes = pos 0;
  pending_minutes = pos 0;
  as_of_date = 50;
}

abbrev before : World
before = record {
  leave = record { requests = []; balances = own_balance ∷ []; ledger = []; log = [] };
  engine = empty_engine;
}

-- The workflow that the route names is gone.
abbrev trip : Creation
trip = record {
  new_request_id = 11;
  employee_id = 3;
  leave_type = record {
    id = 4;
    tenant_id = 1;
    paid = true;
    requires_documentation = false;
    is_deleted = false;
  };
  leave_type_name = "Annual leave";
  policy = none;
  assignment = none;
  route = some (record { workflow_id = some 40; workflow_code = none; trigger_key = none });
  calendar_id = none;
  start_at = 0;
  end_at = 3600000;
  requested_minutes = none;
  reason = "Trip";
  supporting_document_url = none;
}

abbrev no_calendars : CalendarTables
no_calendars = record { calendars = []; days = []; blackouts = [] }

abbrev no_shifts : CoverageTables
no_shifts = record { assignments = []; rules = [] }

abbrev trip_filing : Filing
trip_filing =
    filing_of trip none (evaluate_calendar_window 1 none 4 none 0 3600000 no_calendars)
      (coverage_impact_for_window 1 3 0 3600000 none [] no_shifts)

abbrev filed : Tables
filed = (file_request call.leave_env employee_actor 1 trip_filing before.leave).1

trip_filed :
    file_request call.leave_env employee_actor 1 trip_filing before.leave
    ≡ (ok (request_of employee_actor 1 trip_filing), filed)
unfolding file_request filing_of evaluate_calendar_window diff_minutes validate_request_window
    assert_no_overlap assert_balance_available ensure_balance ◌-ℤ◌ trim coverage_impact_for_window
trip_filed = refl

trip_refused :
    (submit_request call.engine_env employee_actor
      (approval_submission_for (request_of employee_actor 1 trip_filing) "Annual leave" trip.route)
      before.engine).0
    ≡ err (bad_request "No active workflow matched this approval request.")
unfolding submit_request submit_without_workflow approval_submission_for resolve_workflow
    resolve_entity_context lower_is trim
trip_refused = refl

trip_taken :
    (file_request call.leave_env employee_actor 1 trip_filing before.leave).0
    ≡ ok (request_of employee_actor 1 trip_filing)
trip_taken i = (trip_filed i).0

trip_minutes : 0 < (request_of employee_actor 1 trip_filing).paid_minutes
unfolding filing_of evaluate_calendar_window diff_minutes
trip_minutes = omega arith

refused_submission_keeps_minutes_example :
    let (result, w') = create_leave call employee_actor no_calendars no_shifts trip before in
    let asked = request_of employee_actor 1 trip_filing in
    (result ≡ err (bad_request "No active workflow matched this approval request."))
    × (w'.leave.requests ≡ before.leave.requests ++ asked ∷ [])
    × (asked.status ≡ LeaveStatus.pending_approval)
    × (asked.approval_request_id ≡ none)
    × (pending_of 1 3 4 w'.leave.balances
        ≡ pending_of 1 3 4 before.leave.balances +ℤ pos asked.paid_minutes)
unfolding resolve_calendar_for_employee evaluate_calendar_window
refused_submission_keeps_minutes_example =
    refused_submission_keeps_minutes call employee_actor 1 no_calendars no_shifts trip before none
      (request_of employee_actor 1 trip_filing) refl refl refl refl refl trip_taken refl
      trip_minutes trip_refused
