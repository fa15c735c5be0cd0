-- ===== src/Attendance/PunchRequests.antt =====
-- The request of a punch, and the rows and inputs that are made of it (`recordPunch` of
-- apps/api-gateway/src/attendance/attendance.service.ts).
use time_sync_be.Prelude.{
  ℕ, ◌==◌, Bool, true, false, not, ◌&&◌, Option, none, some, [], ◌∷◌, ◌++◌, String, str_eq, trim,
  present, if◌then◌else◌, is_none, update_where,
}
use time_sync_be.Approvals.Types.{Actor}
use time_sync_be.Attendance.Types.{
  PunchType, Source, Shift, AttendanceRecord, Punch, LogRow, Tables,
}
use time_sync_be.Attendance.Policy.{Operation, Evaluation, PolicyInput}
use time_sync_be.Attendance.Controls.{Position, ControlInput}
use time_sync_be.Attendance.OpenRecords.{shift_id}

pub record PunchRequest : Type 0 where
  pub type : PunchType
  pub schedule_assignment_id : Option ℕ
  pub occurred_at : Option ℕ
  pub source : Option Source
  pub location_name : Option String
  pub device_id : Option String
  pub coordinates : Option Position
  pub photo_attestation_url : Option String
  pub attestation_note : Option String

abbrev pub uses_break : PunchType → Bool
uses_break PunchType.clock_in = false
uses_break _ = true

abbrev pub is_clock_out : PunchType → Bool
is_clock_out PunchType.clock_out = true
is_clock_out _ = false

-- The input of the first evaluation of the policy, before the record is read.
abbrev pub first_input :
    PunchRequest → Source → Option Shift → Option String → Evaluation → PolicyInput
first_input dto source assignment location control = record {
  operation = Operation.punch;
  source = source;
  punch_type = some dto.type;
  has_assignment = not (is_none assignment);
  location_name = location;
  has_coordinates = not (is_none dto.coordinates);
  actual_clock_in_at = none;
  actual_clock_out_at = none;
  break_minutes = 0;
  photo_attestation_url = dto.photo_attestation_url;
  attestation_note = dto.attestation_note;
  control_evaluation = control;
}

abbrev pub or_else : Option String → Option String → Option String
or_else none b = b
or_else (some a) b = some a

-- The input of the second one, with the record.
abbrev pub second_input :
    PunchRequest
    → Source
    → Option Shift
    → Evaluation
    → (occurred_at : ℕ) → AttendanceRecord
    → PolicyInput
second_input dto source assignment control occurred_at row =
    record (first_input dto source assignment (or_else dto.location_name row.location_name)
      control) {
        actual_clock_in_at = if is_clock_out dto.type then row.actual_clock_in_at else none;
        actual_clock_out_at = if is_clock_out dto.type then some occurred_at else none;
        break_minutes = row.break_minutes;
      }

abbrev pub add_punch : Punch → Tables → Tables
add_punch p db = record db { punches = db.punches ++ p ∷ [] }

-- `deviceId?.trim()`, where an empty text is none.
abbrev pub device_of : Option String → Option String
device_of none = none
device_of (some d) = present (some (trim d))

abbrev pub see_device : (tenant_id occurred_at : ℕ) → Option String → Tables → Tables
see_device tenant_id occurred_at none db = db
see_device tenant_id occurred_at (some device) db = record db {
  devices =
      update_where
        (λ d. (d.tenant_id == tenant_id) && str_eq d.device_id device && not d.is_deleted)
        (λ d. record d { last_seen_at = some occurred_at }) db.devices;
}

abbrev pub log_punch :
    Actor → (tenant_id employee_id : ℕ) → PunchType → (punch_id record_id : ℕ) → Tables → Tables
log_punch actor tenant_id employee_id type punch_id record_id db = record db {
  log =
      db.log
      ++ LogRow.audit tenant_id actor.id "attendance.punch" punch_id
        ∷ LogRow.audit tenant_id actor.id "attendance.record" record_id
        ∷ LogRow.timeline tenant_id actor.id employee_id type record_id
        ∷ LogRow.outbox tenant_id "attendance.punch.recorded" record_id
        ∷ [];
}

abbrev pub control_input : (employee_id : ℕ) → PunchRequest → Source → ControlInput
control_input employee_id dto source = record {
  employee_id = employee_id;
  source = source;
  device_id = device_of dto.device_id;
  position = dto.coordinates;
}

abbrev pub new_punch :
    (new_id tenant_id employee_id occurred_at : ℕ)
    → PunchType
    → Source
    → Option Shift
    → AttendanceRecord
    → Punch
new_punch new_id tenant_id employee_id occurred_at type source assignment row = record {
  id = new_id;
  tenant_id = tenant_id;
  employee_id = employee_id;
  attendance_record_id = row.id;
  schedule_assignment_id = shift_id assignment;
  type = type;
  occurred_at = occurred_at;
  source = source;
}
