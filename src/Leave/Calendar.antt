-- ===== src/Leave/Calendar.antt =====
-- The leave calendar of an employee and what it makes of a window (`resolveCalendarForEmployee`,
-- `calendarSpecificity` and `evaluateCalendarWindow` of
-- apps/api-gateway/src/leave/leave.service.ts). A day has 86,400,000 milliseconds, as the process
-- runs in UTC, and is numbered from the epoch; texts of warnings are data.
use time_sync_be.Prelude.{
  ℕ, zero, suc, ◌+◌, ◌-◌, ◌*◌, ◌/◌, ◌%◌, min, ◌==◌, ltb, leb, Bool, true, false, not, ◌&&◌, ◌||◌,
  Option, none, some, List, [], ◌∷◌, ◌++◌, map, if◌then◌else◌, or_default, is_key, includes, select,
  find_first, first_by, Handler, Error, Result, ok, err, bad_request, not_found,
}
use time_sync_be.Leave.Rules.{diff_minutes, overlap_minutes}
pub mod Bounds

abbrev pub day_ms : ℕ
day_ms = 86400000

pub data PolicyStatus : Type 0 where
  draft active inactive archived : PolicyStatus

abbrev pub is_live : PolicyStatus → Bool
is_live PolicyStatus.active = true
is_live _ = false

pub data DayType : Type 0 where
  holiday non_working_day special_workday : DayType

pub data Severity : Type 0 where
  warn block : Severity

-- The dimensions of an employee's primary assignment.
pub record Placement : Type 0 where
  pub organization_node_id : Option ℕ
  pub cost_center_id : Option ℕ
  pub position_id : Option ℕ

pub record Calendar : Type 0 where
  pub id : ℕ
  pub tenant_id : ℕ
  pub status : PolicyStatus
  pub is_default : Bool
  pub work_weekdays : List ℕ
  pub default_workday_minutes : ℕ
  pub placement : Placement
  pub is_deleted : Bool

pub record CalendarDay : Type 0 where
  pub tenant_id : ℕ
  pub calendar_id : ℕ
  pub date : ℕ
  pub type : DayType
  pub workday_minutes : Option ℕ

pub record Blackout : Type 0 where
  pub id : ℕ
  pub tenant_id : ℕ
  pub calendar_id : Option ℕ
  pub leave_type_id : Option ℕ
  pub starts_at : ℕ
  pub ends_at : ℕ
  pub severity : Severity
  pub placement : Placement
  pub status : PolicyStatus
  pub is_deleted : Bool

-- Calendars stand in the order of `createdAt`, blackout windows in that of `startsAt`.
pub record CalendarTables : Type 0 where
  pub calendars : List Calendar
  pub days : List CalendarDay
  pub blackouts : List Blackout

-- `nullOrExact…Dimension(field, value)`
abbrev pub null_or_exact : Option ℕ → Option ℕ → Bool
null_or_exact none value = true
null_or_exact (some k) value = is_key value k

abbrev pub covers_placement : Placement → Placement → Bool
covers_placement p assignment =
    null_or_exact p.organization_node_id assignment.organization_node_id
    && null_or_exact p.cost_center_id assignment.cost_center_id
    && null_or_exact p.position_id assignment.position_id

-- `assignment?.…`: an employee without an assignment has no dimension.
abbrev pub nowhere : Placement
nowhere = record { organization_node_id = none; cost_center_id = none; position_id = none }

abbrev pub exactly : Option ℕ → Option ℕ → Bool
exactly none value = false
exactly (some k) value = is_key value k

unfoldable pub calendar_specificity : Calendar → Placement → ℕ
calendar_specificity c assignment =
    (if exactly c.placement.organization_node_id assignment.organization_node_id then 3 else 0)
    + (if exactly c.placement.cost_center_id assignment.cost_center_id then 2 else 0)
    + (if exactly c.placement.position_id assignment.position_id then 1 else 0)

-- The comparison of the sort: a default calendar stands before the others, a more specific one
-- before a less specific one.
unfoldable pub preferred : Placement → Calendar → Calendar → Bool
unfolding calendar_specificity
preferred assignment a b =
    if a.is_default
    then not b.is_default
      || ltb (calendar_specificity b assignment) (calendar_specificity a assignment)
    else not b.is_default
      && ltb (calendar_specificity b assignment) (calendar_specificity a assignment)

unfoldable pub resolve_calendar_for_employee :
    (tenant_id : ℕ) → Option ℕ → Option Placement → CalendarTables → Result (Option Calendar)
unfolding preferred
resolve_calendar_for_employee tenant_id requested assignment db = elim requested [
  | some k ↦
      elim (find_first (λ c. (c.id == k) && (c.tenant_id == tenant_id) && not c.is_deleted)
        db.calendars) [
          | none ↦ err (not_found "Leave calendar not found.")
          | some c ↦
              if is_live c.status
              then ok (some c)
              else err (bad_request "The selected leave calendar is not active.")
        ]
  | none ↦ ok (
      first_by (preferred (or_default assignment nowhere)) (
        select
          (λ c.
            (c.tenant_id == tenant_id)
            && is_live c.status
            && not c.is_deleted
            && covers_placement c.placement (or_default assignment nowhere))
          db.calendars))
]
