-- ===== src/Attendance/Generation.antt =====
-- Generating, submitting and deciding timesheets (`generateTimesheets` for one employee, `submitTimesheet`
-- and `decideTimesheet` of apps/api-gateway/src/attendance/attendance.service.ts). The scope of the user is
-- a parameter, as it hangs on tables of other services.
use time_sync_be.Prelude.{
  ℕ, ◌==◌, Bool, true, false, not, ◌&&◌, Option, none, some, List, [], ◌∷◌, ◌++◌, String,
  if◌then◌else◌, is_none, is_key, select, find_first, Handler, ok, err, bad_request, not_found,
  forbidden, conflict, or_throw, throw_if, transaction, modify, pure, ◌>>=◌, ◌>>◌,
}
use time_sync_be.Approvals.Types.{Actor}
use time_sync_be.Approvals.Requests.{require_tenant}
use time_sync_be.Attendance.Types.{ExceptionType, TimesheetStatus, Shift, AttendanceRecord}
use time_sync_be.Attendance.Exceptions.{upsert_exception}
use time_sync_be.Attendance.Timesheets.{
  Timesheet, SheetLog, SheetTables, is_final, upsert_timesheet_entry, set_timesheet,
  recalculate_timesheet,
}

-- The ids of new rows: of the timesheet, and of the entry and the exception of a shift or record.
pub record NewIds : Type 0 where
  pub timesheet : ℕ
  pub entry_of_shift : ℕ → ℕ
  pub entry_of_record : ℕ → ℕ
  pub exception_of_shift : ℕ → ℕ

abbrev pub is_sheet : (tenant_id employee_id period_start period_end : ℕ) → Timesheet → Bool
is_sheet tenant_id employee_id period_start period_end t =
    (t.tenant_id == tenant_id)
    && (t.employee_id == employee_id)
    && (t.period_start == period_start)
    && (t.period_end == period_end)

abbrev pub new_sheet :
    (new_id tenant_id employee_id policy_id period_start period_end : ℕ) → Timesheet
new_sheet new_id tenant_id employee_id policy_id period_start period_end = record {
  id = new_id;
  tenant_id = tenant_id;
  employee_id = employee_id;
  policy_id = some policy_id;
  period_start = period_start;
  period_end = period_end;
  status = TimesheetStatus.draft;
  regular_minutes = 0;
  overtime_minutes = 0;
  break_minutes = 0;
  exception_count = 0;
  submitted_at = none;
  decided_at = none;
  decided_by_id = none;
  decision_note = none;
}

-- The `upsert` of the timesheet of the period, which a final one refuses.
unfoldable pub open_sheet :
    (new_id tenant_id employee_id policy_id period_start period_end : ℕ) → Handler SheetTables ℕ
open_sheet new_id tenant_id employee_id policy_id period_start period_end db =
    elim (find_first (is_sheet tenant_id employee_id period_start period_end) db.timesheets) [
      | none ↦ (
        ok new_id,
        record db {
          timesheets =
              db.timesheets
              ++ new_sheet new_id tenant_id employee_id policy_id period_start period_end ∷ [];
        },
      )
      | some before ↦
          if is_final before.status
          then (err (conflict "Finalized timesheets cannot be regenerated."), db)
          else (
            ok before.id,
            set_timesheet before.id
                (λ t. record t { policy_id = some policy_id; status = TimesheetStatus.draft }) db,
          )
    ]

abbrev pub is_record_of : (shift_id : ℕ) → AttendanceRecord → Bool
is_record_of shift_id r = is_key r.schedule_assignment_id shift_id

-- A shift without a record is a missed clock-in.
abbrev pub note_missed :
    (new_id tenant_id employee_id : ℕ) → Shift → Option AttendanceRecord → SheetTables → SheetTables
note_missed new_id tenant_id employee_id s (some r) db = db
note_missed new_id tenant_id employee_id s none db = record db {
  exceptions =
      upsert_exception new_id
        (record {
          tenant_id = tenant_id;
          employee_id = employee_id;
          attendance_record_id = none;
          schedule_assignment_id = some s.id;
          type = ExceptionType.missed_clock_in;
          occurred_at = s.starts_at;
          minutes = some none;
        })
        db.exceptions;
}

unfoldable pub enter_shifts :
    NewIds
    → (tenant_id employee_id timesheet_id : ℕ) → List AttendanceRecord
    → List Shift
    → Handler SheetTables (Unit {0})
enter_shifts ids tenant_id employee_id timesheet_id records [] = pure tt
enter_shifts ids tenant_id employee_id timesheet_id records (s ∷ shifts) =
    modify (
      note_missed (ids.exception_of_shift s.id) tenant_id employee_id s
        (find_first (is_record_of s.id) records))
    >> upsert_timesheet_entry (ids.entry_of_shift s.id) timesheet_id employee_id s.work_date
        (find_first (is_record_of s.id) records) (some s)
    >> enter_shifts ids tenant_id employee_id timesheet_id records shifts

unfoldable pub enter_unscheduled :
    NewIds → (employee_id timesheet_id : ℕ) → List AttendanceRecord → Handler SheetTables (Unit {0})
enter_unscheduled ids employee_id timesheet_id [] = pure tt
enter_unscheduled ids employee_id timesheet_id (r ∷ records) =
    upsert_timesheet_entry (ids.entry_of_record r.id) timesheet_id employee_id r.work_date (some r)
      none
    >> enter_unscheduled ids employee_id timesheet_id records

abbrev pub log_sheet :
    (tenant_id employee_id : ℕ) → (event : String) → (timesheet_id : ℕ) → SheetTables → SheetTables
log_sheet tenant_id employee_id event timesheet_id db = record db {
  log =
      db.log
      ++ SheetLog.audit tenant_id event timesheet_id
        ∷ SheetLog.timeline tenant_id employee_id event timesheet_id
        ∷ SheetLog.outbox tenant_id event timesheet_id
        ∷ [];
}

-- The transaction for one employee, on the records and shifts of the period.
unfoldable pub generate_timesheet :
    NewIds
    → (tenant_id employee_id policy_id period_start period_end : ℕ) → List AttendanceRecord
    → List Shift
    → Handler SheetTables ℕ
generate_timesheet ids tenant_id employee_id policy_id period_start period_end records shifts =
    transaction do
      timesheet_id ←
          open_sheet ids.timesheet tenant_id employee_id policy_id period_start period_end
      let own = select (λ (r : AttendanceRecord). r.employee_id == employee_id) records
      enter_shifts ids tenant_id employee_id timesheet_id own
          (select (λ (s : Shift). s.employee_id == employee_id) shifts)
      enter_unscheduled ids employee_id timesheet_id
          (select (λ (r : AttendanceRecord). is_none r.schedule_assignment_id) own)
      modify (recalculate_timesheet timesheet_id)
      modify (log_sheet tenant_id employee_id "attendance.timesheet.generated" timesheet_id)
      pure timesheet_id

unfoldable pub find_timesheet : (tenant_id timesheet_id : ℕ) → Handler SheetTables Timesheet
find_timesheet tenant_id timesheet_id db =
    or_throw (find_first (λ t. (t.id == timesheet_id) && (t.tenant_id == tenant_id)) db.timesheets)
      (not_found "Timesheet not found.") db

-- `TIMESHEET_DECISION_STATUSES.includes(status)`
abbrev pub is_verdict : TimesheetStatus → Bool
is_verdict TimesheetStatus.draft = false
is_verdict TimesheetStatus.submitted = false
is_verdict _ = true

-- A value that is not given leaves the column.
abbrev pub given_note : Option String → Option String → Option String
given_note none old = old
given_note (some n) old = some n

module _ (may_operate : Actor → (employee_id : ℕ) → Bool) where
  abbrev pub assert_can_operate_on_employee :
      Actor → (employee_id : ℕ) → Handler SheetTables (Unit {0})
  assert_can_operate_on_employee actor employee_id =
      throw_if (not (may_operate actor employee_id))
        (forbidden "This employee is outside your attendance scope.")

  unfoldable pub submit_timesheet :
      (now : ℕ) → Actor → (timesheet_id : ℕ) → Handler SheetTables (Unit {0})
  submit_timesheet now actor timesheet_id = do
    tenant_id ← require_tenant actor
    sheet ← find_timesheet tenant_id timesheet_id
    assert_can_operate_on_employee actor sheet.employee_id
    throw_if (is_final sheet.status) (conflict "This timesheet is already finalized.")
    transaction do
      modify (
          set_timesheet sheet.id
            (λ t. record t { status = TimesheetStatus.submitted; submitted_at = some now }))
      modify (log_sheet tenant_id sheet.employee_id "attendance.timesheet.submitted" sheet.id)

  unfoldable pub decide_timesheet :
      (now : ℕ)
      → Actor
      → (timesheet_id : ℕ) → TimesheetStatus
      → (note : Option String) → Handler SheetTables (Unit {0})
  decide_timesheet now actor timesheet_id status note = do
    tenant_id ← require_tenant actor
    sheet ← find_timesheet tenant_id timesheet_id
    assert_can_operate_on_employee actor sheet.employee_id
    throw_if (not (is_verdict status)) (bad_request "Choose a valid timesheet decision.")
    transaction do
      modify (
          set_timesheet sheet.id (λ t. record t {
            status = status;
            decided_at = some now;
            decided_by_id = some actor.id;
            decision_note = given_note note t.decision_note;
          }))
      modify (log_sheet tenant_id sheet.employee_id "attendance.timesheet.decided" sheet.id)
