-- ===== src/Leave/Days.antt =====
-- What a leave calendar makes of a window (`evaluateCalendarWindow` and the requested minutes of
-- `createRequest` of apps/api-gateway/src/leave/leave.service.ts). A day is numbered from the epoch; texts
-- of warnings are data.
use time_sync_be.Prelude.{
  ℕ, zero, suc, ◌+◌, ◌-◌, ◌*◌, ◌/◌, ◌%◌, min, ◌==◌, ltb, leb, Bool, true, false, not, ◌&&◌, Option,
  none, some, List, [], ◌∷◌, ◌++◌, map, if◌then◌else◌, or_default, includes, select,
}
use time_sync_be.Leave.Rules.{diff_minutes, overlap_minutes}
use time_sync_be.Leave.Calendar.{
  day_ms, is_live, holiday, non_working_day, special_workday, Severity, warn, block, Placement,
  Calendar, CalendarDay, Blackout, CalendarTables, covers_placement, nowhere,
}

abbrev pub day_of : (t : ℕ) → ℕ
day_of t = t / day_ms

-- `cursor.getDay()`: the epoch was a Thursday.
abbrev pub weekday_of : (day : ℕ) → ℕ
weekday_of day = (day + 4) % 7

-- `dayByIso.get(dateKey)`: of two rows of a day the map keeps the later.
abbrev pub day_override : (day : ℕ) → List CalendarDay → Option CalendarDay
day_override day [] = none
day_override day (d ∷ days) = elim (day_override day days) [
  | some later ↦ some later
  | none ↦ if day_of d.date == day then some d else none
]

abbrev pub works_on : Option CalendarDay → (normal_workday : Bool) → Bool
works_on none normal_workday = normal_workday
works_on (some d) normal_workday = elim d.type [
  | special_workday ↦ true
  | holiday ↦ false
  | non_working_day ↦ false
]

abbrev pub override_minutes : Option CalendarDay → Option ℕ
override_minutes none = none
override_minutes (some d) = d.workday_minutes

pub record DaySnapshot : Type 0 where
  pub day : ℕ
  pub is_working_day : Bool
  pub workday_minutes : ℕ
  pub requested_overlap_minutes : ℕ
  pub counted_minutes : ℕ

unfoldable pub day_snapshot : Calendar → List CalendarDay → (start_at end_at day : ℕ) → DaySnapshot
unfolding overlap_minutes
day_snapshot calendar days start_at end_at day =
    let override = day_override day days in
    let works = works_on override (includes calendar.work_weekdays (weekday_of day)) in
    let workday =
      if works
      then or_default (override_minutes override) calendar.default_workday_minutes
      else 0 in
    let overlap = overlap_minutes start_at end_at (day * day_ms) ((day + 1) * day_ms) in
    record {
      day = day;
      is_working_day = works;
      workday_minutes = workday;
      requested_overlap_minutes = overlap;
      counted_minutes = min overlap workday;
    }

-- The loop over the days, for as many rounds as there are days left.
unfoldable pub day_snapshots :
    Calendar → List CalendarDay → (start_at end_at : ℕ) → (rounds day : ℕ) → List DaySnapshot
day_snapshots calendar days start_at end_at zero day = []
day_snapshots calendar days start_at end_at (suc n) day =
    day_snapshot calendar days start_at end_at day
    ∷ day_snapshots calendar days start_at end_at n (day + 1)

-- From the day of the start to the day of the end, both included.
abbrev pub days_in_window : (start_at end_at : ℕ) → ℕ
days_in_window start_at end_at = day_of end_at + 1 - day_of start_at

abbrev pub total_counted : List DaySnapshot → ℕ
total_counted [] = 0
total_counted (s ∷ rest) = s.counted_minutes + total_counted rest

abbrev pub total_overlap : List DaySnapshot → ℕ
total_overlap [] = 0
total_overlap (s ∷ rest) = s.requested_overlap_minutes + total_overlap rest

pub data Warning : Type 0 where
  no_calendar : Warning
  not_counted : (day : ℕ) → Warning
  overlaps_blackout : (blackout_id : ℕ) → Warning

pub record Evaluation : Type 0 where
  pub business_minutes : ℕ
  pub warnings : List Warning
  pub blockers : List ℕ
  pub day_snapshots : List DaySnapshot

abbrev pub optional_key : Option ℕ → ℕ → Bool
optional_key none k = true
optional_key (some j) k = j == k

abbrev pub blackout_applies :
    (tenant_id calendar_id leave_type_id : ℕ) → Placement → (start_at end_at : ℕ) → Blackout → Bool
blackout_applies tenant_id calendar_id leave_type_id assignment start_at end_at b =
    (b.tenant_id == tenant_id)
    && is_live b.status
    && not b.is_deleted
    && ltb b.starts_at end_at
    && ltb start_at b.ends_at
    && optional_key b.calendar_id calendar_id
    && optional_key b.leave_type_id leave_type_id
    && covers_placement b.placement assignment

abbrev pub is_block : Severity → Bool
is_block block = true
is_block warn = false

-- The rows of a calendar for the days of the window.
abbrev pub calendar_days :
    (tenant_id calendar_id start_at end_at : ℕ) → List CalendarDay → List CalendarDay
calendar_days tenant_id calendar_id start_at end_at = select (λ d.
    (d.tenant_id == tenant_id)
    && (d.calendar_id == calendar_id)
    && leb (day_of start_at * day_ms) d.date
    && leb d.date ((day_of end_at + 1) * day_ms - 1))

unfoldable pub evaluate_calendar_window :
    (tenant_id : ℕ)
    → Option Calendar
    → (leave_type_id : ℕ) → Option Placement
    → (start_at end_at : ℕ) → CalendarTables
    → Evaluation
evaluate_calendar_window tenant_id none leave_type_id assignment start_at end_at db = record {
  business_minutes = diff_minutes start_at end_at;
  warnings = no_calendar ∷ [];
  blockers = [];
  day_snapshots = [];
}
evaluate_calendar_window tenant_id (some calendar) leave_type_id assignment start_at end_at db =
    let days = calendar_days tenant_id calendar.id start_at end_at db.days in
    let snapshots =
      day_snapshots calendar days start_at end_at (days_in_window start_at end_at)
        (day_of start_at) in
    let blackouts =
      select
        (blackout_applies tenant_id calendar.id leave_type_id (or_default assignment nowhere)
          start_at end_at)
        db.blackouts in
    record {
      business_minutes = total_counted snapshots;
      warnings =
          map (λ (s : DaySnapshot). not_counted s.day)
            (select (λ s. ltb 0 s.requested_overlap_minutes && not s.is_working_day) snapshots)
          ++ map (λ (b : Blackout). overlaps_blackout b.id)
              (select (λ b. not (is_block b.severity)) blackouts);
      blockers = map (λ (b : Blackout). b.id) (select (λ b. is_block b.severity) blackouts);
      day_snapshots = snapshots;
    }

-- `dto.requestedMinutes ?? (businessMinutes > 0 ? businessMinutes : diffMinutes(startAt, endAt))`
abbrev pub requested_minutes : Option ℕ → Evaluation → (start_at end_at : ℕ) → ℕ
requested_minutes given evaluation start_at end_at = or_default given (
    if ltb 0 evaluation.business_minutes
    then evaluation.business_minutes
    else diff_minutes start_at end_at)
