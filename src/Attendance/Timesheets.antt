-- ===== src/Attendance/Timesheets.antt =====
-- The timesheets of an employee (`generateTimesheets`, `upsertTimesheetEntry`, `recalculateTimesheet`,
-- `submitTimesheet` and `decideTimesheet` of apps/api-gateway/src/attendance/attendance.service.ts). The
-- records and shifts of the period are given.
use time_sync_be.Prelude.{
  ℕ, ◌+◌, ◌-◌, ◌==◌, ltb, Bool, true, false, ◌&&◌, Option, none, some, List, [], ◌∷◌, ◌++◌, String,
  if◌then◌else◌, is_key, select, find_first, update_where, count, Handler, ok, err, bad_request,
}
use time_sync_be.Attendance.Types.{
  ExceptionStatus, TimesheetStatus, Shift, AttendanceRecord, AttendanceException, start_of_day,
}
use time_sync_be.Attendance.Metrics.{duration_minutes}

pub data EntryStatus : Type 0 where
  entry_draft ready exception entry_approved entry_rejected entry_locked : EntryStatus

pub record TimesheetEntry : Type 0 where
  pub id : ℕ
  pub tenant_id : ℕ
  pub timesheet_id : ℕ
  pub employee_id : ℕ
  pub attendance_record_id : Option ℕ
  pub schedule_assignment_id : Option ℕ
  pub work_date : ℕ
  pub status : EntryStatus
  pub scheduled_minutes : ℕ
  pub actual_minutes : ℕ
  pub break_minutes : ℕ
  pub payable_minutes : ℕ
  pub overtime_minutes : ℕ
  pub exception_count : ℕ

pub record Timesheet : Type 0 where
  pub id : ℕ
  pub tenant_id : ℕ
  pub employee_id : ℕ
  pub policy_id : Option ℕ
  pub period_start : ℕ
  pub period_end : ℕ
  pub status : TimesheetStatus
  pub regular_minutes : ℕ
  pub overtime_minutes : ℕ
  pub break_minutes : ℕ
  pub exception_count : ℕ
  pub submitted_at : Option ℕ
  pub decided_at : Option ℕ
  pub decided_by_id : Option ℕ
  pub decision_note : Option String

pub data SheetLog : Type 0 where
  audit outbox : (tenant : ℕ) → (event : String) → (timesheet_id : ℕ) → SheetLog
  timeline : (tenant employee : ℕ) → (event : String) → (timesheet_id : ℕ) → SheetLog

pub record SheetTables : Type 0 where
  pub timesheets : List Timesheet
  pub entries : List TimesheetEntry
  pub exceptions : List AttendanceException
  pub log : List SheetLog

-- `OPEN_EXCEPTION_STATUSES.includes(status)`
abbrev pub is_unsettled : ExceptionStatus → Bool
is_unsettled ExceptionStatus.opened = true
is_unsettled ExceptionStatus.submitted = true
is_unsettled _ = false

-- `FINAL_TIMESHEET_STATUSES.includes(status)`
abbrev pub is_final : TimesheetStatus → Bool
is_final TimesheetStatus.approved = true
is_final TimesheetStatus.locked = true
is_final _ = false

-- `...(row ? { column: row.id } : {})`: no row restricts nothing.
abbrev pub names : Option ℕ → Option ℕ → Bool
names none column = true
names (some k) column = is_key column k

abbrev pub record_id : Option AttendanceRecord → Option ℕ
record_id none = none
record_id (some r) = some r.id

abbrev pub shift_key : Option Shift → Option ℕ
shift_key none = none
shift_key (some s) = some s.id

abbrev pub concerns : (employee_id : ℕ) → (row shift : Option ℕ) → AttendanceException → Bool
concerns employee_id r s e =
    (e.employee_id == employee_id)
    && names r e.attendance_record_id
    && names s e.schedule_assignment_id
    && is_unsettled e.status

abbrev pub is_entry :
    (timesheet_id employee_id work_date : ℕ) → (row shift : Option ℕ) → TimesheetEntry → Bool
is_entry timesheet_id employee_id work_date r s e =
    (e.timesheet_id == timesheet_id)
    && (e.employee_id == employee_id)
    && (e.work_date == start_of_day work_date)
    && names r e.attendance_record_id
    && names s e.schedule_assignment_id

abbrev pub of_record : {A : Type 0} → (AttendanceRecord → A) → A → Option AttendanceRecord → A
of_record f d none = d
of_record f d (some r) = f r

abbrev pub of_shift : {A : Type 0} → (Shift → A) → A → Option Shift → A
of_shift f d none = d
of_shift f d (some s) = f s

abbrev pub tenant_of : Option AttendanceRecord → Option Shift → Option ℕ
tenant_of (some r) s = some r.tenant_id
tenant_of none (some s) = some s.tenant_id
tenant_of none none = none

unfoldable pub entry_of :
    (id tenant_id timesheet_id employee_id work_date exceptions : ℕ)
    → Option AttendanceRecord
    → Option Shift
    → TimesheetEntry
entry_of id tenant_id timesheet_id employee_id work_date exceptions r s = record {
  id = id;
  tenant_id = tenant_id;
  timesheet_id = timesheet_id;
  employee_id = employee_id;
  attendance_record_id = record_id r;
  schedule_assignment_id =
      of_shift (λ s. some s.id) (of_record (λ r. r.schedule_assignment_id) none r) s;
  work_date = start_of_day work_date;
  status = if ltb 0 exceptions then EntryStatus.exception else EntryStatus.ready;
  scheduled_minutes =
      of_shift (λ s. duration_minutes s.starts_at s.ends_at s.break_minutes)
        (of_record (λ r. r.scheduled_minutes) 0 r) s;
  actual_minutes = of_record (λ r. r.actual_minutes) 0 r;
  break_minutes = of_record (λ r. r.break_minutes) (of_shift (λ s. s.break_minutes) 0 s) r;
  payable_minutes = of_record (λ r. r.payable_minutes) 0 r;
  overtime_minutes = of_record (λ r. r.overtime_minutes) 0 r;
  exception_count = exceptions;
}

unfoldable pub upsert_timesheet_entry :
    (new_id timesheet_id employee_id work_date : ℕ)
    → Option AttendanceRecord
    → Option Shift
    → Handler SheetTables (Unit {0})
upsert_timesheet_entry new_id timesheet_id employee_id work_date r s db =
    let exceptions = count (concerns employee_id (record_id r) (shift_key s)) db.exceptions in
    elim (tenant_of r s) [
      | none ↦ (err (bad_request "Timesheet entry needs a tenant context."), db)
      | some tenant_id ↦
          elim (find_first (is_entry timesheet_id employee_id work_date (record_id r) (shift_key s))
            db.entries) [
              | some existing ↦ (
                ok tt,
                record db {
                  entries =
                      update_where (λ e. e.id == existing.id)
                        (λ e.
                          entry_of e.id tenant_id timesheet_id employee_id work_date exceptions r s)
                        db.entries;
                },
              )
              | none ↦ (
                ok tt,
                record db {
                  entries =
                      db.entries
                      ++ entry_of new_id tenant_id timesheet_id employee_id work_date exceptions r s
                        ∷ [];
                },
              )
            ]
    ]

pub record Totals : Type 0 where
  pub regular_minutes : ℕ
  pub overtime_minutes : ℕ
  pub break_minutes : ℕ
  pub exception_count : ℕ

-- `entries.reduce(…)`, from the totals so far.
unfoldable pub add_up : List TimesheetEntry → Totals → Totals
add_up [] acc = acc
add_up (e ∷ rest) acc = add_up rest (record {
  regular_minutes = acc.regular_minutes + (e.payable_minutes - e.overtime_minutes);
  overtime_minutes = acc.overtime_minutes + e.overtime_minutes;
  break_minutes = acc.break_minutes + e.break_minutes;
  exception_count = acc.exception_count + e.exception_count;
})

abbrev pub no_minutes : Totals
no_minutes = record {
  regular_minutes = 0;
  overtime_minutes = 0;
  break_minutes = 0;
  exception_count = 0;
}

abbrev pub of_timesheet : (timesheet_id : ℕ) → TimesheetEntry → Bool
of_timesheet timesheet_id e = e.timesheet_id == timesheet_id

abbrev pub with_totals : Totals → Timesheet → Timesheet
with_totals t sheet = record sheet {
  regular_minutes = t.regular_minutes;
  overtime_minutes = t.overtime_minutes;
  break_minutes = t.break_minutes;
  exception_count = t.exception_count;
}

abbrev pub set_timesheet : (timesheet_id : ℕ) → (Timesheet → Timesheet) → SheetTables → SheetTables
set_timesheet timesheet_id f db = record db {
  timesheets = update_where (λ t. t.id == timesheet_id) f db.timesheets;
}

unfoldable pub recalculate_timesheet : (timesheet_id : ℕ) → SheetTables → SheetTables
recalculate_timesheet timesheet_id db =
    set_timesheet timesheet_id
      (with_totals (add_up (select (of_timesheet timesheet_id) db.entries) no_minutes)) db
