-- ===== src/Leave/DayExamples.antt =====
-- The theorems about calendar windows and coverage, each applied to a small set of tables.
use time_sync_be.Prelude.{ℕ, ◌≤◌, ◌*◌, none, some, [], ◌∷◌, ◌≡◌, ◌⊎◌, refl, arith, true, false}
use time_sync_be.Leave.Calendar.{PolicyStatus, Calendar, CalendarTables, nowhere}
use time_sync_be.Leave.Days.{
  Evaluation, day_snapshot, day_snapshots, total_overlap, evaluate_calendar_window,
  requested_minutes,
}
use time_sync_be.Leave.Calendar.Bounds.{business_minutes_bounds, days_off_are_charged}
use time_sync_be.Leave.Coverage.{
  AssignmentStatus, ScheduleAssignment, CoverageRule, CoverageDay, coverage_day, is_high,
}
use time_sync_be.Leave.Coverage.Safety.{remaining, coverage_is_safe}

-- From Monday to Friday, 480 minutes a day.
abbrev office : Calendar
office = record {
  id = 5;
  tenant_id = 1;
  status = PolicyStatus.active;
  is_default = true;
  work_weekdays = 1 ∷ 2 ∷ 3 ∷ 4 ∷ 5 ∷ [];
  default_workday_minutes = 480;
  placement = nowhere;
  is_deleted = false;
}

abbrev plain : CalendarTables
plain = record { calendars = office ∷ []; days = []; blackouts = [] }

-- Thursday at noon to Friday at noon.
abbrev two_days : Evaluation
two_days = evaluate_calendar_window 1 (some office) 4 none (60000 * 720) (60000 * 2160) plain

-- Saturday from nine to five.
abbrev saturday : Evaluation
saturday = evaluate_calendar_window 1 (some office) 4 none (60000 * 3420) (60000 * 3900) plain

business_minutes_bounds_example :
    (total_overlap two_days.day_snapshots ≡ 1440) × (two_days.business_minutes ≤ 1440)
business_minutes_bounds_example =
    business_minutes_bounds 1 4 none plain office 720 2160 (omega arith)

days_off_are_charged_example :
    (saturday.business_minutes ≡ 0)
    × (requested_minutes none saturday (60000 * 3420) (60000 * 3900) ≡ 480)
unfolding evaluate_calendar_window day_snapshots day_snapshot
days_off_are_charged_example =
    days_off_are_charged 1 4 none plain office 3420 3900 (omega arith) (refl, tt)

abbrev shift_of : (id employee_id : ℕ) → ScheduleAssignment
shift_of id employee_id = record {
  id = id;
  tenant_id = 1;
  employee_id = employee_id;
  status = AssignmentStatus.assigned;
  starts_at = 1000;
  ends_at = 2000;
  placement = nowhere;
}

abbrev two_of_them : CoverageRule
two_of_them = record {
  tenant_id = 1;
  is_active = true;
  is_deleted = false;
  weekdays = [];
  minimum_headcount = 2;
  effective_from = none;
  effective_to = none;
  placement = nowhere;
}

abbrev first_day : CoverageDay
first_day = coverage_day 3 (shift_of 1 3 ∷ shift_of 2 4 ∷ shift_of 3 6 ∷ []) [] (two_of_them ∷ []) 0

coverage_is_safe_example :
    (first_day.projected_headcount
      ≤ remaining 3 first_day.scheduled_employee_ids first_day.approved_leave_employee_ids)
    × ((is_high first_day.risk_level ≡ true)
        ⊎ (first_day.minimum_headcount
            ≤ remaining 3 first_day.scheduled_employee_ids first_day.approved_leave_employee_ids))
coverage_is_safe_example =
    coverage_is_safe 3 (shift_of 1 3 ∷ shift_of 2 4 ∷ shift_of 3 6 ∷ []) [] (two_of_them ∷ []) 0
