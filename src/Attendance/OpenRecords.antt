-- ===== src/Attendance/OpenRecords.antt =====
-- The open record of an employee and what a punch asks of it (`resolvePunchAssignment`,
-- `findOrCreateOpenRecord` and the guards of `recordPunch` of
-- apps/api-gateway/src/attendance/attendance.service.ts).
use time_sync_be.Prelude.{
  ℕ, ◌+◌, ◌==◌, ltb, leb, Bool, not, ◌&&◌, Option, none, some, List, [], ◌∷◌, ◌++◌, String,
  if◌then◌else◌, is_none, select, find_first, first_by, update_where, Handler, Result, ok, err,
  bad_request, not_found, conflict,
}
use time_sync_be.Leave.Coverage.{is_over}
use time_sync_be.Attendance.Types.{
  PunchType, Source, RecordStatus, Policy, Shift, AttendanceRecord, Break, Tables, is_open,
  start_of_day,
}
use time_sync_be.Attendance.Metrics.{duration_minutes}

abbrev half_day : ℕ
half_day = 43200000

unfoldable pub resolve_punch_assignment :
    (tenant_id employee_id : ℕ) → Option ℕ → (occurred_at : ℕ) → List Shift → Result (Option Shift)
resolve_punch_assignment tenant_id employee_id (some k) occurred_at shifts =
    elim (find_first
      (λ s. (s.id == k) && (s.tenant_id == tenant_id) && (s.employee_id == employee_id)) shifts) [
        | none ↦ err (not_found "Schedule assignment not found for this employee.")
        | some s ↦ ok (some s)
      ]
resolve_punch_assignment tenant_id employee_id none occurred_at shifts = ok (
    first_by (λ a b. ltb a.starts_at b.starts_at)
      (select
        (λ s.
          (s.tenant_id == tenant_id)
          && (s.employee_id == employee_id)
          && leb s.starts_at (occurred_at + half_day)
          && leb occurred_at (s.ends_at + half_day)
          && not (is_over s.status))
        shifts))

abbrev pub is_open_record : (tenant_id employee_id : ℕ) → AttendanceRecord → Bool
is_open_record tenant_id employee_id r =
    (r.tenant_id == tenant_id) && (r.employee_id == employee_id) && is_open r.status

abbrev pub shift_id : Option Shift → Option ℕ
shift_id none = none
shift_id (some s) = some s.id

abbrev pub shift_times : Option Shift → Option ℕ × Option ℕ
shift_times none = (none, none)
shift_times (some s) = (some s.starts_at, some s.ends_at)

abbrev pub planned_break : Option Shift → ℕ
planned_break none = 0
planned_break (some s) = s.break_minutes

abbrev pub planned_minutes : Option Shift → ℕ
planned_minutes none = 0
planned_minutes (some s) = duration_minutes s.starts_at s.ends_at s.break_minutes

abbrev pub work_day : Option Shift → ℕ → ℕ
work_day none occurred_at = start_of_day occurred_at
work_day (some s) occurred_at = s.work_date

abbrev pub location_of : Option String → Option Shift → Option String
location_of (some l) assignment = some l
location_of none none = none
location_of none (some s) = s.location_name

abbrev pub new_open_record :
    (new_id tenant_id employee_id occurred_at : ℕ)
    → Option Shift
    → Policy
    → Source
    → Option String
    → AttendanceRecord
new_open_record new_id tenant_id employee_id occurred_at assignment policy source location =
    record {
      id = new_id;
      tenant_id = tenant_id;
      employee_id = employee_id;
      schedule_assignment_id = shift_id assignment;
      policy_id = some policy.id;
      work_date = work_day assignment occurred_at;
      scheduled_start_at = (shift_times assignment).0;
      scheduled_end_at = (shift_times assignment).1;
      actual_clock_in_at = none;
      actual_clock_out_at = none;
      first_punch_at = none;
      last_punch_at = none;
      break_minutes = planned_break assignment;
      scheduled_minutes = planned_minutes assignment;
      actual_minutes = 0;
      payable_minutes = 0;
      overtime_minutes = 0;
      late_minutes = 0;
      early_leave_minutes = 0;
      status = RecordStatus.open_now;
      source = source;
      location_name = location;
    }

unfoldable pub find_or_create_open_record : AttendanceRecord → Handler Tables AttendanceRecord
find_or_create_open_record fresh db =
    elim (find_first (is_open_record fresh.tenant_id fresh.employee_id) db.records) [
      | some existing ↦ (ok existing, db)
      | none ↦ (ok fresh, record db { records = db.records ++ fresh ∷ [] })
    ]

abbrev pub is_open_break : (record_id : ℕ) → Break → Bool
is_open_break record_id b = (b.attendance_record_id == record_id) && is_none b.ended_at

-- The open break of a record that started last.
unfoldable pub find_open_break : (record_id : ℕ) → List Break → Option Break
find_open_break record_id breaks =
    first_by (λ a b. ltb b.started_at a.started_at) (select (is_open_break record_id) breaks)

-- The guards of a punch, on the record and its open break.
unfoldable pub check_punch : PunchType → AttendanceRecord → Option Break → Result (Unit {0})
check_punch PunchType.clock_in r open_break =
    if not (is_none r.actual_clock_in_at)
    then err (conflict "You are already clocked in for this attendance record.")
    else ok tt
check_punch PunchType.clock_out r open_break =
    if is_none r.actual_clock_in_at
    then err (bad_request "Clock in before clocking out.")
    else if not (is_none open_break)
    then err (bad_request "End your active break before clocking out.")
    else ok tt
check_punch PunchType.break_start r open_break =
    if is_none r.actual_clock_in_at
    then err (bad_request "Clock in before recording a break.")
    else if not (is_none open_break)
    then err (conflict "A break is already active for this attendance record.")
    else ok tt
check_punch PunchType.break_end r open_break =
    if is_none r.actual_clock_in_at
    then err (bad_request "Clock in before recording a break.")
    else if is_none open_break
    then err (bad_request "Start a break before ending it.")
    else ok tt

abbrev pub set_record : (record_id : ℕ) → (AttendanceRecord → AttendanceRecord) → Tables → Tables
set_record record_id f db = record db {
  records = update_where (λ r. r.id == record_id) f db.records;
}
