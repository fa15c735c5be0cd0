-- ===== src/Attendance/Clocking.antt =====
-- What a punch does to the open record (`applyPunchToRecord` of
-- apps/api-gateway/src/attendance/attendance.service.ts).
use time_sync_be.Prelude.{
  ℕ, ◌+◌, ◌==◌, Bool, true, false, none, some, List, [], ◌∷◌, ◌++◌, if◌then◌else◌, or_default,
  update_where, Handler, ok, err, bad_request,
}
use time_sync_be.Attendance.Types.{
  PunchType, RecordStatus, ExceptionType, Policy, AttendanceRecord, Break, Tables,
}
use time_sync_be.Attendance.Metrics.{duration_minutes, calculate_metrics}
use time_sync_be.Attendance.Exceptions.{sync_record_exceptions}
use time_sync_be.Attendance.OpenRecords.{find_open_break, set_record}

-- The clock, and the ids that the database gives to new rows.
pub record Env : Type 0 where
  pub now : ℕ
  pub new_record_id : ℕ
  pub new_punch_id : ℕ
  pub new_break_id : ℕ
  pub new_exception_id : ExceptionType → ℕ

-- What a clock-in or clock-out writes to the record, which was read as `row`.
unfoldable pub clocked :
    Policy
    → (leaving : Bool) → (occurred_at : ℕ) → (row : AttendanceRecord) → AttendanceRecord
    → AttendanceRecord
clocked policy leaving occurred_at row r =
    let clock_in = if leaving then row.actual_clock_in_at else some occurred_at in
    let clock_out = if leaving then some occurred_at else row.actual_clock_out_at in
    let metrics = calculate_metrics policy (record {
      assignment = none;
      scheduled_start_at = row.scheduled_start_at;
      scheduled_end_at = row.scheduled_end_at;
      actual_clock_in_at = clock_in;
      actual_clock_out_at = clock_out;
      break_minutes = row.break_minutes;
    }) in
    record r {
      actual_clock_in_at = clock_in;
      actual_clock_out_at = clock_out;
      first_punch_at = some (or_default row.first_punch_at occurred_at);
      last_punch_at = some occurred_at;
      actual_minutes = metrics.actual_minutes;
      payable_minutes = metrics.payable_minutes;
      overtime_minutes = metrics.overtime_minutes;
      late_minutes = metrics.late_minutes;
      early_leave_minutes = metrics.early_leave_minutes;
      status = if leaving then RecordStatus.completed else RecordStatus.open_now;
    }

abbrev pub new_break : (new_id occurred_at : ℕ) → AttendanceRecord → Break
new_break new_id occurred_at row = record {
  id = new_id;
  tenant_id = row.tenant_id;
  employee_id = row.employee_id;
  attendance_record_id = row.id;
  started_at = occurred_at;
  ended_at = none;
  minutes = 0;
}

abbrev pub break_minutes_of : Break → (occurred_at : ℕ) → ℕ
break_minutes_of b occurred_at = duration_minutes b.started_at occurred_at 0

abbrev pub end_break : (break_id occurred_at minutes : ℕ) → List Break → List Break
end_break break_id occurred_at minutes =
    update_where (λ b. b.id == break_id)
      (λ b. record b { ended_at = some occurred_at; minutes = minutes })

unfoldable pub apply_punch_to_record :
    Env → AttendanceRecord → Policy → PunchType → (occurred_at : ℕ) → Handler Tables (Unit {0})
apply_punch_to_record env row policy PunchType.break_start occurred_at db = (
  ok tt,
  set_record row.id (λ r. record r { last_punch_at = some occurred_at })
      (record db { breaks = db.breaks ++ new_break env.new_break_id occurred_at row ∷ [] }),
)
apply_punch_to_record env row policy PunchType.break_end occurred_at db =
    elim (find_open_break row.id db.breaks) [
      | none ↦ (err (bad_request "Start a break before ending it."), db)
      | some b ↦ (
        ok tt,
        set_record row.id
            (λ r. record r {
              break_minutes = r.break_minutes + break_minutes_of b occurred_at;
              last_punch_at = some occurred_at;
            })
            (record db {
              breaks = end_break b.id occurred_at (break_minutes_of b occurred_at) db.breaks;
            }),
      )
    ]
apply_punch_to_record env row policy PunchType.clock_in occurred_at db =
    (ok tt, set_record row.id (clocked policy false occurred_at row) db)
apply_punch_to_record env row policy PunchType.clock_out occurred_at db = (
  ok tt,
  record (set_record row.id (clocked policy true occurred_at row) db) {
    exceptions =
        sync_record_exceptions env.new_exception_id (clocked policy true occurred_at row row)
          db.exceptions;
  },
)
