-- ===== src/Attendance/Controls.antt =====
-- What the devices and geofences say to a punch (`evaluateAttendanceControls` and
-- `resolveGeofenceCandidates` of apps/api-gateway/src/attendance/attendance.service.ts). The distances, which
-- the code works out in floating point, come with the position of the punch.
use time_sync_be.Prelude.{
  ℕ, ◌+◌, ◌==◌, leb, Bool, true, false, not, ◌&&◌, ◌||◌, Option, none, some, List, [], ◌∷◌, ◌++◌,
  String, str_eq, present, lower_code, is_none, if◌then◌else◌, select, find_first, first_by,
}
use Prim.Native.Char.{code}
use time_sync_be.Leave.Calendar.{Placement, exactly}
use time_sync_be.Attendance.Types.{
  Source, ControlStatus, DeviceType, Geofence, ClockDevice, Policy, Shift, Tables,
}
use time_sync_be.Attendance.Policy.{Code, Evaluation, flag}

-- What the coordinates of a punch give: which of two geofences is nearer, and the distance in meters.
pub record Position : Type 0 where
  pub nearer : Geofence → Geofence → Bool
  pub distance_meters : Geofence → ℕ

abbrev pub is_in_use : ControlStatus → Bool
is_in_use ControlStatus.active = true
is_in_use _ = false

-- `{ equals: text, mode: 'insensitive' }`
unfoldable pub same_letters : String → String → Bool
same_letters String.[] String.[] = true
same_letters (String.◌∷◌ c s) (String.◌∷◌ d t) =
    (lower_code (code c) == lower_code (code d)) && same_letters s t
same_letters _ _ = false

abbrev pub is_everywhere : Placement → Bool
is_everywhere p =
    is_none p.organization_node_id && is_none p.cost_center_id && is_none p.position_id

abbrev pub at_location : Option String → Option String → Bool
at_location (some a) (some b) = same_letters a b
at_location _ _ = false

abbrev pub reaches_shift : Geofence → Shift → Bool
reaches_shift g s =
    exactly s.placement.organization_node_id g.placement.organization_node_id
    || exactly s.placement.cost_center_id g.placement.cost_center_id
    || exactly s.placement.position_id g.placement.position_id
    || at_location (present s.location_name) g.location_name

abbrev pub reaches : Geofence → Option Shift → Bool
reaches g none = is_everywhere g.placement
reaches g (some s) = is_everywhere g.placement || reaches_shift g s

abbrev pub is_usable_geofence : Geofence → Bool
is_usable_geofence g = is_in_use g.status && not g.is_deleted

abbrev pub own_geofence : Option Geofence → List Geofence
own_geofence none = []
own_geofence (some g) = if is_usable_geofence g then g ∷ [] else []

abbrev pub is_among : (geofence_id : ℕ) → List Geofence → Bool
is_among geofence_id [] = false
is_among geofence_id (g ∷ rest) = (g.id == geofence_id) || is_among geofence_id rest

-- The map by id keeps the first place of a geofence.
unfoldable pub resolve_geofence_candidates :
    (tenant_id : ℕ) → Option Shift → Option Geofence → List Geofence → List Geofence
resolve_geofence_candidates tenant_id assignment device_geofence geofences =
    let own = own_geofence device_geofence in
    own
    ++ select
        (λ g.
          (g.tenant_id == tenant_id)
          && is_usable_geofence g
          && reaches g assignment
          && not (is_among g.id own))
        geofences

pub record ControlInput : Type 0 where
  pub employee_id : ℕ
  pub source : Source
  pub device_id : Option String
  pub position : Option Position

abbrev pub find_device : (tenant_id : ℕ) → Option String → List ClockDevice → Option ClockDevice
find_device tenant_id none devices = none
find_device tenant_id (some k) devices =
    find_first (λ d. (d.tenant_id == tenant_id) && str_eq d.device_id k && not d.is_deleted) devices

abbrev pub active_device : Option ClockDevice → Option ClockDevice
active_device none = none
active_device (some d) = if is_in_use d.status then some d else none

abbrev pub is_kiosk_source : Source → Bool
is_kiosk_source Source.kiosk = true
is_kiosk_source _ = false

abbrev pub is_kiosk_type : DeviceType → Bool
is_kiosk_type DeviceType.kiosk_device = true
is_kiosk_type _ = false

abbrev pub is_kiosk : Option ClockDevice → Bool
is_kiosk none = false
is_kiosk (some d) = is_kiosk_type d.type

-- A signal and whether it blocks.
abbrev pub signal : Bool → Code → Evaluation
signal true c = record { violations = c ∷ []; warnings = [] }
signal false c = record { violations = []; warnings = c ∷ [] }

abbrev pub no_signal : Evaluation
no_signal = record { violations = []; warnings = [] }

abbrev pub and_also : Evaluation → Evaluation → Evaluation
and_also a b = record {
  violations = a.violations ++ b.violations;
  warnings = a.warnings ++ b.warnings;
}

abbrev pub device_signal :
    Policy → Source → (device : Option ClockDevice) → (given : Option String) → Evaluation
device_signal policy source device given =
    if is_kiosk_source source && not (is_kiosk (active_device device))
    then signal true Code.kiosk_device_required
    else if (is_kiosk_source source || policy.require_known_device)
        && is_none (active_device device)
    then signal true Code.device_required
    else if not (is_none device) && is_none (active_device device)
    then signal false Code.device_inactive
    else if is_none device && not (is_none given)
    then signal policy.require_known_device Code.device_unknown
    else no_signal

abbrev pub owner_signal : (employee_id : ℕ) → Option ClockDevice → Evaluation
owner_signal employee_id none = no_signal
owner_signal employee_id (some d) = elim d.employee_id [
  | none ↦ no_signal
  | some k ↦
      if k == employee_id then no_signal else signal true Code.device_assigned_to_other_employee
]

abbrev pub geofence_of : Option ClockDevice → Option Geofence
geofence_of none = none
geofence_of (some d) = d.geofence

abbrev pub is_empty_list : List Geofence → Bool
is_empty_list [] = true
is_empty_list (_ ∷ _) = false

abbrev pub outside_signal : Policy → Position → Option Geofence → Evaluation
outside_signal policy position none = no_signal
outside_signal policy position (some g) =
    if leb (position.distance_meters g) (g.radius_meters + policy.geofence_grace_meters)
    then no_signal
    else signal policy.block_outside_geofence Code.outside_geofence

abbrev pub nearest_signal : Policy → Option Position → List Geofence → Evaluation
nearest_signal policy none geofences = no_signal
nearest_signal policy (some position) geofences =
    outside_signal policy position (first_by position.nearer geofences)

abbrev pub required_signals :
    Policy → (has_coordinates on_geofence : Bool) → List Geofence → Evaluation
required_signals policy has_coordinates on_geofence geofences = record {
  violations =
      flag (policy.require_geofence_for_clock_in && is_empty_list geofences) Code.geofence_required
      ++ flag
          (policy.require_geofence_for_clock_in
            && not (is_empty_list geofences)
            && not has_coordinates
            && not on_geofence)
          Code.geofence_coordinates_required;
  warnings = [];
}

unfoldable pub evaluate_attendance_controls :
    (tenant_id : ℕ) → Policy → Option Shift → ControlInput → Tables → Evaluation
unfolding resolve_geofence_candidates
evaluate_attendance_controls tenant_id policy assignment input db =
    let device = find_device tenant_id input.device_id db.devices in
    let in_use = active_device device in
    let geofences =
      resolve_geofence_candidates tenant_id assignment (geofence_of in_use) db.geofences in
    and_also (device_signal policy input.source device input.device_id) (
      and_also (owner_signal input.employee_id in_use) (
        and_also
          (required_signals policy (not (is_none input.position))
            (not (is_none (geofence_of in_use))) geofences)
          (nearest_signal policy input.position geofences)))
