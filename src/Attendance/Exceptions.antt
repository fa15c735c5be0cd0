-- ===== src/Attendance/Exceptions.antt =====
-- The exceptions of an attendance record (`upsertException`, `syncRecordExceptions` and
-- `syncControlExceptions` of apps/api-gateway/src/attendance/attendance.service.ts). Titles, texts and
-- severities are not kept.
use time_sync_be.Prelude.{
  ℕ, ◌==◌, ltb, Bool, true, false, not, ◌&&◌, Option, none, some, List, [], ◌∷◌, ◌++◌,
  if◌then◌else◌, or_default, is_none, find_first, update_where, any,
}
use time_sync_be.Attendance.Types.{
  ExceptionType, ExceptionStatus, AttendanceRecord, AttendanceException,
}
use time_sync_be.Attendance.Policy.{Code, Evaluation}

abbrev pub same_type : ExceptionType → ExceptionType → Bool
same_type ExceptionType.late_arrival ExceptionType.late_arrival = true
same_type ExceptionType.early_departure ExceptionType.early_departure = true
same_type ExceptionType.missed_clock_in ExceptionType.missed_clock_in = true
same_type ExceptionType.missed_clock_out ExceptionType.missed_clock_out = true
same_type ExceptionType.missed_break ExceptionType.missed_break = true
same_type ExceptionType.absence ExceptionType.absence = true
same_type ExceptionType.unscheduled_work ExceptionType.unscheduled_work = true
same_type ExceptionType.overtime ExceptionType.overtime = true
same_type ExceptionType.unapproved_location ExceptionType.unapproved_location = true
same_type ExceptionType.outside_geofence ExceptionType.outside_geofence = true
same_type ExceptionType.manual_adjustment ExceptionType.manual_adjustment = true
same_type _ _ = false

abbrev pub is_cancelled : ExceptionStatus → Bool
is_cancelled ExceptionStatus.cancelled = true
is_cancelled _ = false

-- A nullable column that is compared with a nullable value, where null fits null.
abbrev pub same_optional : Option ℕ → Option ℕ → Bool
same_optional none none = true
same_optional (some a) (some b) = a == b
same_optional _ _ = false

pub record NewException : Type 0 where
  pub tenant_id : ℕ
  pub employee_id : ℕ
  pub attendance_record_id : Option ℕ
  pub schedule_assignment_id : Option ℕ
  pub type : ExceptionType
  pub occurred_at : ℕ
  pub minutes : Option (Option ℕ)

abbrev pub same_exception : NewException → AttendanceException → Bool
same_exception d e =
    (e.tenant_id == d.tenant_id)
    && (e.employee_id == d.employee_id)
    && same_optional e.attendance_record_id d.attendance_record_id
    && same_optional e.schedule_assignment_id d.schedule_assignment_id
    && same_type e.type d.type
    && not (is_cancelled e.status)

-- `minutes: data.minutes`: a value that is not given leaves the column, a null clears it.
abbrev pub given_minutes : Option (Option ℕ) → Option ℕ → Option ℕ
given_minutes none old = old
given_minutes (some m) old = m

unfoldable pub upsert_exception :
    (new_id : ℕ) → NewException → List AttendanceException → List AttendanceException
upsert_exception new_id d rows = elim (find_first (same_exception d) rows) [
  | some existing ↦
      update_where (λ e. e.id == existing.id)
        (λ e. record e { occurred_at = d.occurred_at; minutes = given_minutes d.minutes e.minutes })
        rows
  | none ↦
      rows
      ++ record {
        id = new_id;
        tenant_id = d.tenant_id;
        employee_id = d.employee_id;
        attendance_record_id = d.attendance_record_id;
        schedule_assignment_id = d.schedule_assignment_id;
        type = d.type;
        status = ExceptionStatus.opened;
        occurred_at = d.occurred_at;
        minutes = given_minutes d.minutes none;
      }
        ∷ []
]

-- `minutes || null`
abbrev pub unless_zero : ℕ → Option ℕ
unless_zero n = if n == 0 then none else some n

abbrev pub exception_of :
    AttendanceRecord
    → ExceptionType
    → Option ℕ
    → (occurred_at : ℕ) → Option (Option ℕ)
    → NewException
exception_of r type assignment occurred_at minutes = record {
  tenant_id = r.tenant_id;
  employee_id = r.employee_id;
  attendance_record_id = some r.id;
  schedule_assignment_id = assignment;
  type = type;
  occurred_at = occurred_at;
  minutes = minutes;
}

abbrev pub sync_when :
    Bool
    → (new_id : ExceptionType → ℕ) → NewException
    → List AttendanceException
    → List AttendanceException
sync_when true new_id d rows = upsert_exception (new_id d.type) d rows
sync_when false new_id d rows = rows

-- The exceptions of a record that is completed.
unfoldable pub sync_record_exceptions :
    (new_id : ExceptionType → ℕ)
    → AttendanceRecord
    → List AttendanceException
    → List AttendanceException
sync_record_exceptions new_id r rows =
    let start = or_default r.actual_clock_in_at r.work_date in
    let end = or_default r.actual_clock_out_at r.work_date in
    let a = r.schedule_assignment_id in
    sync_when (ltb 0 r.overtime_minutes) new_id
      (exception_of r ExceptionType.overtime a end (some (some r.overtime_minutes)))
      (sync_when (ltb 0 r.early_leave_minutes) new_id
        (exception_of r ExceptionType.early_departure a end (some (some r.early_leave_minutes)))
        (sync_when (ltb 0 r.late_minutes) new_id
          (exception_of r ExceptionType.late_arrival a start (some (some r.late_minutes)))
          (sync_when (is_none a && not (is_none r.actual_clock_in_at)) new_id
            (exception_of r ExceptionType.unscheduled_work none start
              (some (unless_zero r.actual_minutes)))
            rows)))

abbrev pub is_outside : Code → Bool
is_outside Code.outside_geofence = true
is_outside _ = false

abbrev pub is_unapproved : Code → Bool
is_unapproved Code.device_unknown = true
is_unapproved Code.device_inactive = true
is_unapproved _ = false

unfoldable pub sync_control_exceptions :
    (new_id : ExceptionType → ℕ)
    → AttendanceRecord
    → (occurred_at : ℕ) → Evaluation
    → List AttendanceException
    → List AttendanceException
sync_control_exceptions new_id r occurred_at control rows =
    let a = r.schedule_assignment_id in
    sync_when (any is_unapproved control.warnings) new_id
      (exception_of r ExceptionType.unapproved_location a occurred_at none)
      (sync_when (any is_outside control.warnings) new_id
        (exception_of r ExceptionType.outside_geofence a occurred_at none) rows)
