-- ===== src/Attendance/Punches.antt =====
-- A punch (`recordPunch` of apps/api-gateway/src/attendance/attendance.service.ts). The active policy is
-- given.
use time_sync_be.Prelude.{
  ℕ, ◌==◌, Option, none, List, if◌then◌else◌, or_default, find_first, Handler, not_found, or_throw,
  gets, liftr, transaction, modify, pure, ◌>>=◌, ◌>>◌,
}
use time_sync_be.Approvals.Types.{Actor}
use time_sync_be.Approvals.Requests.{require_tenant}
use time_sync_be.Attendance.Types.{PunchType, Source, Policy, Shift, AttendanceRecord, Tables}
use time_sync_be.Attendance.Policy.{
  Evaluation, evaluate_attendance_policy, enforce_attendance_policy,
}
use time_sync_be.Attendance.Exceptions.{sync_control_exceptions}
use time_sync_be.Attendance.Controls.{evaluate_attendance_controls}
use time_sync_be.Attendance.OpenRecords.{
  resolve_punch_assignment, location_of, new_open_record, find_or_create_open_record,
  find_open_break, check_punch,
}
use time_sync_be.Attendance.Clocking.{Env, apply_punch_to_record}
use time_sync_be.Attendance.PunchRequests.{
  PunchRequest, uses_break, first_input, second_input, add_punch, device_of, see_device, log_punch,
  control_input, new_punch,
}

unfoldable pub find_record : (record_id : ℕ) → Handler Tables AttendanceRecord
find_record record_id db =
    or_throw (find_first (λ r. r.id == record_id) db.records)
      (not_found "Attendance record not found after punch.") db

-- The exceptions of the controls and the log, for the record that was read again.
unfoldable pub note_punch :
    Env
    → Actor
    → (tenant_id employee_id occurred_at : ℕ) → PunchType
    → Evaluation
    → AttendanceRecord
    → Handler Tables AttendanceRecord
note_punch env actor tenant_id employee_id occurred_at type control refreshed = do
  modify (λ db. record db {
    exceptions =
        sync_control_exceptions env.new_exception_id refreshed occurred_at control db.exceptions;
  })
  modify (log_punch actor tenant_id employee_id type env.new_punch_id refreshed.id)
  pure refreshed

-- The punch is let through by the guards and by the policy, with the record.
unfoldable pub admit_punch :
    (now occurred_at : ℕ)
    → PunchRequest
    → Source
    → Option Shift
    → Policy
    → Evaluation
    → AttendanceRecord
    → Handler Tables (Unit {0})
admit_punch now occurred_at dto source assignment policy control row = do
  open_break ← gets (λ db. if uses_break dto.type then find_open_break row.id db.breaks else none)
  liftr (check_punch dto.type row open_break)
  enforce_attendance_policy (
      evaluate_attendance_policy now policy
        (second_input dto source assignment control occurred_at row))

-- The change of the record, which is then read again.
unfoldable pub change_record :
    Env
    → Actor
    → (tenant_id employee_id occurred_at : ℕ) → PunchType
    → Policy
    → Evaluation
    → AttendanceRecord
    → Handler Tables AttendanceRecord
change_record env actor tenant_id employee_id occurred_at type policy control row = do
  apply_punch_to_record env row policy type occurred_at
  refreshed ← find_record row.id
  note_punch env actor tenant_id employee_id occurred_at type control refreshed

-- The writes of a punch that is let through.
unfoldable pub write_punch :
    Env
    → Actor
    → (tenant_id employee_id occurred_at : ℕ) → PunchRequest
    → Source
    → Option Shift
    → Policy
    → Evaluation
    → AttendanceRecord
    → Handler Tables AttendanceRecord
write_punch env actor tenant_id employee_id occurred_at dto source assignment policy control row =
    do
      modify (λ db. see_device tenant_id occurred_at (device_of dto.device_id) (
          add_punch
            (new_punch env.new_punch_id tenant_id employee_id occurred_at dto.type source assignment
              row)
            db))
      change_record env actor tenant_id employee_id occurred_at dto.type policy control row

-- The transaction from the open record on.
unfoldable pub punch_on :
    Env
    → Actor
    → (tenant_id employee_id occurred_at : ℕ) → PunchRequest
    → Source
    → Option Shift
    → Policy
    → Evaluation
    → AttendanceRecord
    → Handler Tables AttendanceRecord
punch_on env actor tenant_id employee_id occurred_at dto source assignment policy control row = do
  admit_punch env.now occurred_at dto source assignment policy control row
  write_punch env actor tenant_id employee_id occurred_at dto source assignment policy control row

-- The transaction from the open record on, with what the controls say.
unfoldable pub punch_controlled :
    Env
    → Actor
    → (tenant_id employee_id occurred_at : ℕ) → PunchRequest
    → Source
    → Option Shift
    → Policy
    → Evaluation
    → Handler Tables AttendanceRecord
punch_controlled env actor tenant_id employee_id occurred_at dto source assignment policy control =
    do
      let location = location_of dto.location_name assignment
      enforce_attendance_policy (
          evaluate_attendance_policy env.now policy
            (first_input dto source assignment location control))
      row ← find_or_create_open_record (
          new_open_record env.new_record_id tenant_id employee_id occurred_at assignment policy
            source location)
      punch_on env actor tenant_id employee_id occurred_at dto source assignment policy control row

-- The transaction of a punch.
unfoldable pub punch_in_tx :
    Env
    → Actor
    → (tenant_id employee_id occurred_at : ℕ) → PunchRequest
    → Source
    → Option Shift
    → Policy
    → Handler Tables AttendanceRecord
punch_in_tx env actor tenant_id employee_id occurred_at dto source assignment policy db =
    punch_controlled env actor tenant_id employee_id occurred_at dto source assignment policy
      (evaluate_attendance_controls tenant_id policy assignment
        (control_input employee_id dto source) db)
      db

unfoldable pub record_punch :
    Env
    → Actor
    → (employee_id : ℕ) → PunchRequest
    → (given_source : Option Source) → Policy
    → List Shift
    → Handler Tables AttendanceRecord
record_punch env actor employee_id dto given_source policy shifts = do
  tenant_id ← require_tenant actor
  let occurred_at = or_default dto.occurred_at env.now
  let source = or_default given_source (or_default dto.source Source.web)
  assignment ←
      liftr (
        resolve_punch_assignment tenant_id employee_id dto.schedule_assignment_id occurred_at
          shifts)
  transaction (punch_in_tx env actor tenant_id employee_id occurred_at dto source assignment policy)
