-- ===== src/Attendance/Policy.antt =====
-- What the active policy says to a punch (`evaluateAttendancePolicy` and `enforceAttendancePolicy` of
-- apps/api-gateway/src/attendance/attendance.service.ts).
use time_sync_be.Prelude.{
  ℕ, ◌+◌, ◌==◌, ltb, leb, Bool, true, false, not, ◌&&◌, ◌||◌, Option, none, some, List, [], ◌∷◌,
  ◌++◌, String, str_eq, trim, or_default, Handler, bad_request, throw_if,
}
use time_sync_be.Attendance.Types.{Policy, PunchType, Source}
use time_sync_be.Attendance.Metrics.{duration_minutes}

-- The codes of violations and warnings; those of devices and geofences come with the evaluation of the
-- controls.
pub data Code : Type 0 where
  web_clock_disabled mobile_clock_disabled kiosk_clock_disabled manual_adjustments_disabled
        photo_attestation_required attestation_note_required schedule_required location_required
        invalid_clock_range future_clock_in future_clock_out max_shift_exceeded
        break_requirement_not_met :
      Code
  kiosk_device_required device_required device_inactive device_unknown
        device_assigned_to_other_employee geofence_required geofence_coordinates_required
        outside_geofence :
      Code

pub data Operation : Type 0 where
  punch manual_record correction_request correction_apply : Operation

pub record Evaluation : Type 0 where
  pub violations : List Code
  pub warnings : List Code

pub record PolicyInput : Type 0 where
  pub operation : Operation
  pub source : Source
  pub punch_type : Option PunchType
  pub has_assignment : Bool
  pub location_name : Option String
  pub has_coordinates : Bool
  pub actual_clock_in_at : Option ℕ
  pub actual_clock_out_at : Option ℕ
  pub break_minutes : ℕ
  pub photo_attestation_url : Option String
  pub attestation_note : Option String
  pub control_evaluation : Evaluation

abbrev pub is_manual : Operation → Bool
is_manual Operation.punch = false
is_manual _ = true

abbrev pub is_clock_in : Option PunchType → Bool
is_clock_in (some PunchType.clock_in) = true
is_clock_in _ = false

-- `!text?.trim()`
abbrev pub is_missing : Option String → Bool
is_missing none = true
is_missing (some s) = str_eq (trim s) ""

abbrev pub flag : Bool → Code → List Code
flag true c = c ∷ []
flag false c = []

abbrev pub source_is_off : Policy → Source → List Code
source_is_off p Source.web = flag (not p.allow_web_clock_in) web_clock_disabled
source_is_off p Source.mobile = flag (not p.allow_mobile_clock_in) mobile_clock_disabled
source_is_off p Source.kiosk = flag (not p.allow_kiosk_clock_in) kiosk_clock_disabled
source_is_off p _ = []

-- A time that is there and later than the limit.
abbrev pub is_after : Option ℕ → (limit : ℕ) → Bool
is_after none limit = false
is_after (some t) limit = ltb limit t

abbrev pub range_is_invalid : Option ℕ → Option ℕ → Bool
range_is_invalid (some a) (some b) = leb b a
range_is_invalid _ _ = false

abbrev pub shift_is_too_long : Policy → Option ℕ → Option ℕ → Bool
shift_is_too_long p (some a) (some b) = ltb p.max_shift_minutes (duration_minutes a b 0)
shift_is_too_long p _ _ = false

abbrev pub break_is_short : Policy → Option ℕ → Option ℕ → (break_minutes : ℕ) → Bool
break_is_short p (some a) (some b) break_minutes = elim p.break_required_after_minutes [
  | none ↦ false
  | some after ↦
      not (after == 0)
      && ltb 0 (or_default p.break_duration_minutes 0)
      && leb after (duration_minutes a b 0)
      && ltb break_minutes (or_default p.break_duration_minutes 0)
]
break_is_short p _ _ break_minutes = false

-- `addMinutes(new Date(), 15)`
abbrev pub with_tolerance : (now : ℕ) → ℕ
with_tolerance now = now + 900000

unfoldable pub evaluate_attendance_policy : (now : ℕ) → Policy → PolicyInput → Evaluation
evaluate_attendance_policy now p i = record {
  violations =
      source_is_off p i.source
      ++ flag (is_manual i.operation && not p.allow_manual_adjustments) manual_adjustments_disabled
      ++ flag
          (not (is_manual i.operation)
            && p.require_photo_attestation
            && is_missing i.photo_attestation_url)
          photo_attestation_required
      ++ flag
          (not (is_manual i.operation)
            && p.require_attestation_note
            && is_missing i.attestation_note)
          attestation_note_required
      ++ flag
          (p.require_schedule_for_clock_in
            && not i.has_assignment
            && (is_clock_in i.punch_type || is_manual i.operation))
          schedule_required
      ++ flag (p.require_location_capture && not i.has_coordinates && is_missing i.location_name)
          location_required
      ++ i.control_evaluation.violations
      ++ flag (range_is_invalid i.actual_clock_in_at i.actual_clock_out_at) invalid_clock_range
      ++ flag (is_after i.actual_clock_in_at (with_tolerance now)) future_clock_in
      ++ flag (is_after i.actual_clock_out_at (with_tolerance now)) future_clock_out
      ++ flag (shift_is_too_long p i.actual_clock_in_at i.actual_clock_out_at) max_shift_exceeded;
  warnings =
      i.control_evaluation.warnings
      ++ flag (break_is_short p i.actual_clock_in_at i.actual_clock_out_at i.break_minutes)
          break_requirement_not_met;
}

abbrev pub no_codes : List Code → Bool
no_codes [] = true
no_codes (_ ∷ _) = false

unfoldable pub enforce_attendance_policy : {S : Type 0} → Evaluation → Handler S (Unit {0})
enforce_attendance_policy evaluation =
    throw_if (not (no_codes evaluation.violations)) (bad_request "Attendance policy violation")
