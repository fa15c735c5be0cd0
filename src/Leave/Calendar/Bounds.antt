-- ===== src/Leave/Calendar/Bounds.antt =====
-- Proofs about the minutes of `evaluateCalendarWindow` and `createRequest` of
-- apps/api-gateway/src/leave/leave.service.ts.
use time_sync_be.Prelude.{
  ℕ, zero, suc, ◌+◌, ◌-◌, ◌*◌, ◌/◌, ◌≤◌, ◌<◌, min, max, false, Option, none, some, List, All, ◌≡◌,
  refl, ◌∙◌, arith,
}
use time_sync_be.Leave.Rules.{diff_minutes, overlap_minutes}
use time_sync_be.Leave.Calendar.{day_ms, Calendar, CalendarDay, CalendarTables, Placement}
use time_sync_be.Leave.Days.{
  Evaluation, day_snapshot, day_snapshots, total_counted, total_overlap, days_in_window, day_of,
  calendar_days, evaluate_calendar_window, requested_minutes,
}

-- Windows of whole minutes overlap in whole minutes.
overlap_of_minutes :
    (a b d : ℕ)
    → overlap_minutes (60000 * a) (60000 * b) (d * day_ms) ((d + 1) * day_ms)
      ≡ min b (1440 * (d + 1)) - max a (1440 * d)
unfolding overlap_minutes
overlap_of_minutes a b d = ground arith

telescoped :
    (a b d n : ℕ)
    → a ≤ b
    → (min b (1440 * (d + 1)) - max a (1440 * d))
        + (min b (1440 * (d + 1 + n)) - max a (1440 * (d + 1)))
      ≡ min b (1440 * (d + suc n)) - max a (1440 * d)
telescoped a b d n h = ground arith

-- The overlaps of the days from `d` add up to the part of the window in those days.
total_overlap-day_snapshots :
    (calendar : Calendar) (days : List CalendarDay) (a b n d : ℕ)
    → a ≤ b
    → total_overlap (day_snapshots calendar days (60000 * a) (60000 * b) n d)
      ≡ min b (1440 * (d + n)) - max a (1440 * d)
unfolding day_snapshots day_snapshot
total_overlap-day_snapshots calendar days a b zero d h = ground arith
total_overlap-day_snapshots calendar days a b (suc n) d h = omega (
  arith,
  overlap_of_minutes a b d,
  telescoped a b d n h,
  total_overlap-day_snapshots calendar days a b n (d + 1) h,
)

total_counted-le :
    (calendar : Calendar) (days : List CalendarDay) (s e n d : ℕ)
    → total_counted (day_snapshots calendar days s e n d)
      ≤ total_overlap (day_snapshots calendar days s e n d)
unfolding day_snapshots day_snapshot
total_counted-le calendar days s e zero d = omega arith
total_counted-le calendar days s e (suc n) d =
    ground (arith, total_counted-le calendar days s e n (d + 1))

window_covered :
    (a b : ℕ)
    → a ≤ b
    → min b (1440 * (a / 1440 + (b / 1440 + 1 - a / 1440))) - max a (1440 * (a / 1440)) ≡ b - a
window_covered a b h = ground arith

days_of_minutes :
    (a b : ℕ)
    → (days_in_window (60000 * a) (60000 * b) ≡ b / 1440 + 1 - a / 1440)
      × (60000 * a / day_ms ≡ a / 1440)
days_of_minutes a b = (omega arith, omega arith)

-- A day off counts for nothing.
nothing_counted :
    (calendar : Calendar) (days : List CalendarDay) (s e n d : ℕ)
    → All (λ s. s.is_working_day ≡ false) (day_snapshots calendar days s e n d)
    → total_counted (day_snapshots calendar days s e n d) ≡ 0
unfolding day_snapshots day_snapshot
nothing_counted calendar days s e zero d h = refl
nothing_counted calendar days s e (suc n) d h =
    ground (arith, nothing_counted calendar days s e n (d + 1))

clock_minutes : (a b : ℕ) → a < b → diff_minutes (60000 * a) (60000 * b) ≡ b - a
unfolding diff_minutes
clock_minutes a b h = ground arith

window_minutes :
    (calendar : Calendar) (days : List CalendarDay) (a b : ℕ)
    → a ≤ b
    → let s =
        day_snapshots calendar days
          (60000 * a)
          (60000 * b)
          (days_in_window (60000 * a) (60000 * b))
          (day_of (60000 * a)) in
      (total_overlap s ≡ b - a) × (total_counted s ≤ b - a)
window_minutes calendar days a b ordered =
    let (rounds, first) = days_of_minutes a b in
    let n = b / 1440 + 1 - a / 1440 in
    let whole : total_overlap (day_snapshots calendar days (60000 * a) (60000 * b) n (a / 1440))
        ≡ b - a =
      total_overlap-day_snapshots calendar days a b n (a / 1440) ordered
      ∙ window_covered a b ordered in
    let counted = total_counted-le calendar days (60000 * a) (60000 * b) n (a / 1440) in
    rw (rounds, first) (whole, omega arith)

module _ (tenant_id leave_type_id : ℕ) (assignment : Option Placement) (db : CalendarTables)
    (calendar : Calendar) (a b : ℕ) where
  abbrev evaluated : Evaluation
  evaluated =
      evaluate_calendar_window tenant_id (some calendar) leave_type_id assignment (60000 * a)
        (60000 * b) db

  -- Under a calendar, the overlaps of the days add up to exactly the minutes of a window of whole
  -- minutes, and the business minutes are at most that.
  pub business_minutes_bounds :
      a ≤ b → (total_overlap evaluated.day_snapshots ≡ b - a) × (evaluated.business_minutes ≤ b - a)
  unfolding evaluate_calendar_window
  business_minutes_bounds ordered =
      window_minutes calendar (calendar_days tenant_id calendar.id (60000 * a) (60000 * b) db.days)
        a b ordered

  -- A request whose window of whole minutes has no working day, and that asks for no number of
  -- minutes, is charged for every minute of the window, though its business minutes are none.
  pub days_off_are_charged :
      a < b
      → All (λ s. s.is_working_day ≡ false) evaluated.day_snapshots
      → (evaluated.business_minutes ≡ 0)
        × (requested_minutes none evaluated (60000 * a) (60000 * b) ≡ b - a)
  unfolding evaluate_calendar_window
  days_off_are_charged window off =
      let idle =
        nothing_counted calendar
          (calendar_days tenant_id calendar.id (60000 * a) (60000 * b) db.days) (60000 * a)
          (60000 * b) (days_in_window (60000 * a) (60000 * b)) (day_of (60000 * a)) off in
      (idle, rw idle (clock_minutes a b window))
