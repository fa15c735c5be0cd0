-- ===== src/Attendance/Types.antt =====
-- The rows of attendance and their tables (apps/api-gateway/src/attendance/attendance.service.ts, with
-- prisma/schema.prisma). Times are in milliseconds; time zones, coordinates, addresses and JSON metadata
-- are not kept.
use time_sync_be.Prelude.{ℕ, ◌/◌, ◌*◌, Bool, true, false, Option, List, String}
use time_sync_be.Leave.Calendar.{Placement}
use time_sync_be.Leave.Coverage.{AssignmentStatus}

pub data PunchType : Type 0 where
  clock_in clock_out break_start break_end : PunchType

pub data Source : Type 0 where
  web mobile kiosk manual imported system : Source

pub data RecordStatus : Type 0 where
  open_now completed flagged voided : RecordStatus

pub data ExceptionType : Type 0 where
  late_arrival early_departure missed_clock_in missed_clock_out missed_break absence
        unscheduled_work overtime unapproved_location outside_geofence manual_adjustment :
      ExceptionType

pub data ExceptionStatus : Type 0 where
  opened submitted approved rejected waived resolved cancelled : ExceptionStatus

pub data TimesheetStatus : Type 0 where
  draft submitted approved rejected locked reopened : TimesheetStatus

pub record Policy : Type 0 where
  pub id : ℕ
  pub tenant_id : ℕ
  pub allow_web_clock_in : Bool
  pub allow_mobile_clock_in : Bool
  pub allow_kiosk_clock_in : Bool
  pub allow_manual_adjustments : Bool
  pub require_schedule_for_clock_in : Bool
  pub require_location_capture : Bool
  pub require_photo_attestation : Bool
  pub require_attestation_note : Bool
  pub require_known_device : Bool
  pub require_geofence_for_clock_in : Bool
  pub block_outside_geofence : Bool
  pub geofence_grace_meters : ℕ
  pub grace_minutes_late : ℕ
  pub grace_minutes_early_leave : ℕ
  pub rounding_minutes : Option ℕ
  pub max_shift_minutes : ℕ
  pub daily_overtime_minutes : Option ℕ
  pub break_required_after_minutes : Option ℕ
  pub break_duration_minutes : Option ℕ

-- A planned shift of an employee.
pub record Shift : Type 0 where
  pub id : ℕ
  pub tenant_id : ℕ
  pub employee_id : ℕ
  pub status : AssignmentStatus
  pub work_date : ℕ
  pub starts_at : ℕ
  pub ends_at : ℕ
  pub break_minutes : ℕ
  pub location_name : Option String
  pub placement : Placement

pub record AttendanceRecord : Type 0 where
  pub id : ℕ
  pub tenant_id : ℕ
  pub employee_id : ℕ
  pub schedule_assignment_id : Option ℕ
  pub policy_id : Option ℕ
  pub work_date : ℕ
  pub scheduled_start_at : Option ℕ
  pub scheduled_end_at : Option ℕ
  pub actual_clock_in_at : Option ℕ
  pub actual_clock_out_at : Option ℕ
  pub first_punch_at : Option ℕ
  pub last_punch_at : Option ℕ
  pub break_minutes : ℕ
  pub scheduled_minutes : ℕ
  pub actual_minutes : ℕ
  pub payable_minutes : ℕ
  pub overtime_minutes : ℕ
  pub late_minutes : ℕ
  pub early_leave_minutes : ℕ
  pub status : RecordStatus
  pub source : Source
  pub location_name : Option String

pub record Punch : Type 0 where
  pub id : ℕ
  pub tenant_id : ℕ
  pub employee_id : ℕ
  pub attendance_record_id : ℕ
  pub schedule_assignment_id : Option ℕ
  pub type : PunchType
  pub occurred_at : ℕ
  pub source : Source

pub record Break : Type 0 where
  pub id : ℕ
  pub tenant_id : ℕ
  pub employee_id : ℕ
  pub attendance_record_id : ℕ
  pub started_at : ℕ
  pub ended_at : Option ℕ
  pub minutes : ℕ

pub record AttendanceException : Type 0 where
  pub id : ℕ
  pub tenant_id : ℕ
  pub employee_id : ℕ
  pub attendance_record_id : Option ℕ
  pub schedule_assignment_id : Option ℕ
  pub type : ExceptionType
  pub status : ExceptionStatus
  pub occurred_at : ℕ
  pub minutes : Option ℕ

pub data ControlStatus : Type 0 where
  active inactive archived : ControlStatus

pub data DeviceType : Type 0 where
  kiosk_device trusted_device mobile_device web_terminal : DeviceType

pub record Geofence : Type 0 where
  pub id : ℕ
  pub tenant_id : ℕ
  pub status : ControlStatus
  pub is_deleted : Bool
  pub radius_meters : ℕ
  pub location_name : Option String
  pub placement : Placement

-- A device, joined with its geofence.
pub record ClockDevice : Type 0 where
  pub tenant_id : ℕ
  pub device_id : String
  pub type : DeviceType
  pub status : ControlStatus
  pub employee_id : Option ℕ
  pub geofence : Option Geofence
  pub is_deleted : Bool
  pub last_seen_at : Option ℕ

-- Rows of the audit, timeline and outbox tables, which the service writes and never reads.
pub data LogRow : Type 0 where
  audit : (tenant actor : ℕ) → (entity_type : String) → (entity_id : ℕ) → LogRow
  timeline : (tenant actor employee : ℕ) → PunchType → (record_id : ℕ) → LogRow
  outbox : (tenant : ℕ) → (event_type : String) → (record_id : ℕ) → LogRow

pub record Tables : Type 0 where
  pub records : List AttendanceRecord
  pub breaks : List Break
  pub punches : List Punch
  pub exceptions : List AttendanceException
  pub devices : List ClockDevice
  pub geofences : List Geofence
  pub log : List LogRow

abbrev pub is_open : RecordStatus → Bool
is_open open_now = true
is_open _ = false

-- `startOfDay`, in UTC.
abbrev pub start_of_day : ℕ → ℕ
start_of_day t = t / 86400000 * 86400000
