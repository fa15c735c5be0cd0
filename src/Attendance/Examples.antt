-- ===== src/Attendance/Examples.antt =====
-- The theorems about attendance, each applied to a small set of tables.
use time_sync_be.Prelude.{
  ◌+◌, ◌-◌, ◌*◌, ◌≤◌, ◌==◌, true, false, none, some, [], ◌∷◌, ◌≡◌, refl, All, select, arith,
}
use time_sync_be.Approvals.Types.{Actor}
use time_sync_be.Leave.Calendar.{nowhere}
use time_sync_be.Leave.Coverage.{AssignmentStatus}
use time_sync_be.Attendance.Types.{
  PunchType, Source, TimesheetStatus, Policy, Shift, AttendanceRecord, Tables,
}
use time_sync_be.Attendance.Metrics.{MetricsInput, calculate_metrics}
use time_sync_be.Attendance.OpenRecords.{new_open_record}
use time_sync_be.Attendance.Clocking.{Env}
use time_sync_be.Attendance.PunchRequests.{PunchRequest}
use time_sync_be.Attendance.Punches.{record_punch}
use time_sync_be.Attendance.Soundness.{Sound}
use time_sync_be.Attendance.Punching.{record_punch-Sound}
use time_sync_be.Attendance.Timesheets.{
  EntryStatus, TimesheetEntry, Timesheet, SheetTables, add_up, no_minutes, of_timesheet,
  upsert_timesheet_entry, recalculate_timesheet,
}
use time_sync_be.Attendance.Minutes.{
  metrics_bounds, total_payable, totals_split_payable, late_record_counts_again,
}

abbrev worker : Actor
worker = record { id = 7; tenant_id = some 1; permissions = [] }

abbrev standard : Policy
standard = record {
  id = 9;
  tenant_id = 1;
  allow_web_clock_in = true;
  allow_mobile_clock_in = true;
  allow_kiosk_clock_in = true;
  allow_manual_adjustments = true;
  require_schedule_for_clock_in = false;
  require_location_capture = false;
  require_photo_attestation = false;
  require_attestation_note = false;
  require_known_device = false;
  require_geofence_for_clock_in = false;
  block_outside_geofence = false;
  geofence_grace_meters = 0;
  grace_minutes_late = 5;
  grace_minutes_early_leave = 5;
  rounding_minutes = some 15;
  max_shift_minutes = 960;
  daily_overtime_minutes = some 480;
  break_required_after_minutes = none;
  break_duration_minutes = none;
}

abbrev day_shift : Shift
day_shift = record {
  id = 20;
  tenant_id = 1;
  employee_id = 3;
  status = AssignmentStatus.assigned;
  work_date = 0;
  starts_at = 32400000;
  ends_at = 61200000;
  break_minutes = 60;
  location_name = none;
  placement = nowhere;
}

abbrev nothing : Tables
nothing = record {
  records = [];
  breaks = [];
  punches = [];
  exceptions = [];
  devices = [];
  geofences = [];
  log = [];
}

abbrev env : Env
env = record {
  now = 32400000;
  new_record_id = 1;
  new_punch_id = 2;
  new_break_id = 3;
  new_exception_id = λ t. 4;
}

abbrev clocking_in : PunchRequest
clocking_in = record {
  type = PunchType.clock_in;
  schedule_assignment_id = none;
  occurred_at = none;
  source = none;
  location_name = none;
  device_id = none;
  coordinates = none;
  photo_attestation_url = none;
  attestation_note = none;
}

nothing-Sound : Sound nothing
nothing-Sound = record { records = tt; one_open = λ t e. omega arith; keys = λ k. omega arith }

record_punch-Sound_example :
    Sound (record_punch env worker 3 clocking_in none standard (day_shift ∷ []) nothing).1
record_punch-Sound_example =
    record_punch-Sound env worker 3 clocking_in standard nothing nothing-Sound refl refl none
      (day_shift ∷ [])

abbrev long_day : MetricsInput
long_day = record {
  assignment = none;
  scheduled_start_at = some 32400000;
  scheduled_end_at = some 61200000;
  actual_clock_in_at = some 32400000;
  actual_clock_out_at = some 66000000;
  break_minutes = 30;
}

metrics_bounds_example :
    let m = calculate_metrics standard long_day in
    (m.overtime_minutes ≤ m.payable_minutes)
    × (2 * m.payable_minutes ≤ 2 * (m.actual_minutes - 30) + 15)
    × (2 * (m.actual_minutes - 30) ≤ 2 * m.payable_minutes + 15)
metrics_bounds_example = metrics_bounds standard long_day

abbrev draft_sheet : Timesheet
draft_sheet = record {
  id = 50;
  tenant_id = 1;
  employee_id = 3;
  policy_id = some 9;
  period_start = 0;
  period_end = 604799999;
  status = TimesheetStatus.draft;
  regular_minutes = 0;
  overtime_minutes = 0;
  break_minutes = 60;
  exception_count = 1;
  submitted_at = none;
  decided_at = none;
  decided_by_id = none;
  decision_note = none;
}

-- The row of the shift, made while there was no record of it.
abbrev missed_row : TimesheetEntry
missed_row = record {
  id = 60;
  tenant_id = 1;
  timesheet_id = 50;
  employee_id = 3;
  attendance_record_id = none;
  schedule_assignment_id = some 20;
  work_date = 0;
  status = EntryStatus.exception;
  scheduled_minutes = 420;
  actual_minutes = 0;
  break_minutes = 60;
  payable_minutes = 0;
  overtime_minutes = 0;
  exception_count = 1;
}

abbrev sheets : SheetTables
sheets = record {
  timesheets = draft_sheet ∷ [];
  entries = missed_row ∷ [];
  exceptions = [];
  log = [];
}

abbrev corrected : AttendanceRecord
corrected = new_open_record 1 1 3 32400000 (some day_shift) standard Source.manual none

late_record_counts_again_example :
    let before = add_up (select (of_timesheet 50) sheets.entries) no_minutes in
    let after =
      add_up
        (select
          (of_timesheet 50)
          (upsert_timesheet_entry 61 50 3 0 (some corrected) (some day_shift) sheets).1.entries)
        no_minutes in
    (after.break_minutes ≡ before.break_minutes + corrected.break_minutes)
    × (before.exception_count ≤ after.exception_count)
late_record_counts_again_example =
    late_record_counts_again 61 50 3 0 corrected day_shift sheets refl

totals_split_payable_example :
    All
      (λ t.
        (t.id == 50) ≡ true
        → t.regular_minutes + t.overtime_minutes
          ≡ total_payable (select (of_timesheet 50) sheets.entries))
      (recalculate_timesheet 50 sheets).timesheets
totals_split_payable_example = totals_split_payable 50 sheets (omega arith, tt)
