-- ===== src/Attendance/Metrics.antt =====
-- The minutes of an attendance record (`durationMinutes`, `roundMinutes` and `calculateMetrics` of
-- apps/api-gateway/src/attendance/attendance.service.ts).
use time_sync_be.Prelude.{
  ℕ, ◌+◌, ◌-◌, ◌*◌, ◌/◌, ◌==◌, leb, Option, none, some, if◌then◌else◌, or_default,
}
use time_sync_be.Attendance.Types.{Policy, Shift}

-- `Math.max(0, Math.round((ends - starts) / 60000) - breakMinutes)`: an end before the start gives
-- nothing.
unfoldable pub duration_minutes : (starts_at ends_at break_minutes : ℕ) → ℕ
duration_minutes starts_at ends_at break_minutes =
    (ends_at - starts_at + 30000) / 60000 - break_minutes

-- `Math.round(minutes / increment) * increment`: a half is rounded up.
unfoldable pub round_minutes : (minutes : ℕ) → (increment : Option ℕ) → ℕ
round_minutes minutes none = minutes
round_minutes minutes (some increment) =
    if leb increment 1 then minutes else (2 * minutes + increment) / (2 * increment) * increment

-- The minutes between two times that are both there.
abbrev pub between : Option ℕ → Option ℕ → (break_minutes : ℕ) → ℕ
between (some a) (some b) break_minutes = duration_minutes a b break_minutes
between _ _ break_minutes = 0

pub record MetricsInput : Type 0 where
  pub assignment : Option Shift
  pub scheduled_start_at : Option ℕ
  pub scheduled_end_at : Option ℕ
  pub actual_clock_in_at : Option ℕ
  pub actual_clock_out_at : Option ℕ
  pub break_minutes : ℕ

pub record Metrics : Type 0 where
  pub scheduled_minutes : ℕ
  pub actual_minutes : ℕ
  pub break_minutes : ℕ
  pub payable_minutes : ℕ
  pub overtime_minutes : ℕ
  pub late_minutes : ℕ
  pub early_leave_minutes : ℕ

abbrev pub shift_start : Option Shift → Option ℕ → Option ℕ
shift_start none given = given
shift_start (some s) given = some s.starts_at

abbrev pub shift_end : Option Shift → Option ℕ → Option ℕ
shift_end none given = given
shift_end (some s) given = some s.ends_at

abbrev pub shift_break : Option Shift → ℕ → ℕ
shift_break none given = given
shift_break (some s) given = s.break_minutes

-- `policy.dailyOvertimeMinutes ?? (scheduledMinutes > 0 ? scheduledMinutes : null)`, and a threshold of
-- zero is none.
abbrev pub overtime_over : (threshold payable : ℕ) → ℕ
overtime_over threshold payable = if threshold == 0 then 0 else payable - threshold

unfoldable pub calculate_metrics : Policy → MetricsInput → Metrics
calculate_metrics policy input =
    let start = shift_start input.assignment input.scheduled_start_at in
    let end = shift_end input.assignment input.scheduled_end_at in
    let scheduled = between start end (shift_break input.assignment input.break_minutes) in
    let actual = between input.actual_clock_in_at input.actual_clock_out_at 0 in
    let payable = round_minutes (actual - input.break_minutes) policy.rounding_minutes in
    record {
      scheduled_minutes = scheduled;
      actual_minutes = actual;
      break_minutes = input.break_minutes;
      payable_minutes = payable;
      overtime_minutes = overtime_over (or_default policy.daily_overtime_minutes scheduled) payable;
      late_minutes = between start input.actual_clock_in_at 0 - policy.grace_minutes_late;
      early_leave_minutes =
          between input.actual_clock_out_at end 0 - policy.grace_minutes_early_leave;
    }
