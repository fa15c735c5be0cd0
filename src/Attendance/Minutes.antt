-- ===== src/Attendance/Minutes.antt =====
-- Proofs about the minutes of records and timesheets (`roundMinutes`, `calculateMetrics`,
-- `upsertTimesheetEntry` and `recalculateTimesheet` of
-- apps/api-gateway/src/attendance/attendance.service.ts).
use time_sync_be.Prelude.{
  All-update_where, All-each, ℕ, ◌+◌, ◌-◌, ◌*◌, ◌/◌, ◌≤◌, ◌<◌, ◌==◌, leb, Bool, true, false, Option,
  none, some, List, [], ◌∷◌, ◌++◌, ◌≡◌, refl, ap, ◌∙◌, arith, or_default, select, any, count, All,
  find_first-eq-none, Bool-cases, inl, inr,
}
use native.Mathlib.Nat.{div-mul-le_self, lt-div-mul-add, mul_left_comm}
use time_sync_be.Attendance.Types.{Policy, Shift, AttendanceRecord}
use time_sync_be.Attendance.Metrics.{round_minutes, MetricsInput, calculate_metrics}
use time_sync_be.Attendance.Timesheets.{
  TimesheetEntry, Totals, SheetTables, add_up, no_minutes, of_timesheet, is_entry, names, entry_of,
  upsert_timesheet_entry, concerns, with_totals, recalculate_timesheet,
}

half_increment :
    (m k : ℕ)
    → 1 < k
    → (2 * ((2 * m + k) / (2 * k) * k) ≤ 2 * m + k) × (2 * m ≤ 2 * ((2 * m + k) / (2 * k) * k) + k)
half_increment m k h =
    let q = (2 * m + k) / (2 * k) in
    let below : q * (2 * k) ≤ 2 * m + k = div-mul-le_self (2 * m + k) (2 * k) in
    let above : 2 * m + k < q * (2 * k) + 2 * k = lt-div-mul-add (omega arith) in
    let double : q * (2 * k) ≡ 2 * (q * k) = mul_left_comm q 2 k in (omega arith, omega arith)

rounded_near :
    (minutes : ℕ) (increment : Option ℕ)
    → (2 * round_minutes minutes increment ≤ 2 * minutes + or_default increment 0)
      × (2 * minutes ≤ 2 * round_minutes minutes increment + or_default increment 0)
unfolding round_minutes
rounded_near minutes none = (omega arith, omega arith)
rounded_near minutes (some k) = elim (Bool-cases (leb k 1)) [
  | inl e ↦ rw (e, round_minutes) (omega arith, omega arith)
  | inr e ↦ rw (e, round_minutes) (half_increment minutes k (ground arith))
]

-- The payable minutes of a record are within half an increment of the minutes that were worked less
-- those of breaks, and the overtime is a part of them.
pub metrics_bounds :
    (policy : Policy) (input : MetricsInput)
    → let m = calculate_metrics policy input in
      let worked = m.actual_minutes - input.break_minutes in
      let increment = or_default policy.rounding_minutes 0 in
      (m.overtime_minutes ≤ m.payable_minutes)
      × (2 * m.payable_minutes ≤ 2 * worked + increment)
      × (2 * worked ≤ 2 * m.payable_minutes + increment)
unfolding calculate_metrics
metrics_bounds policy input =
    let m = calculate_metrics policy input in
    let near = rounded_near (m.actual_minutes - input.break_minutes) policy.rounding_minutes in
    (ground arith, near.0, near.1)

abbrev pub total_payable : List TimesheetEntry → ℕ
total_payable [] = 0
total_payable (e ∷ rest) = e.payable_minutes + total_payable rest

add_up-payable :
    (entries : List TimesheetEntry) (acc : Totals)
    → All (λ e. e.overtime_minutes ≤ e.payable_minutes) entries
    → (add_up entries acc).regular_minutes + (add_up entries acc).overtime_minutes
      ≡ acc.regular_minutes + acc.overtime_minutes + total_payable entries
unfolding add_up
add_up-payable [] acc h = omega arith
add_up-payable (e ∷ rest) acc h =
    let small = h.0 in
    let later =
      add_up-payable rest
        (record {
          regular_minutes = acc.regular_minutes + (e.payable_minutes - e.overtime_minutes);
          overtime_minutes = acc.overtime_minutes + e.overtime_minutes;
          break_minutes = acc.break_minutes + e.break_minutes;
          exception_count = acc.exception_count + e.exception_count;
        })
        h.1 in
    omega arith

add_up-append :
    (entries : List TimesheetEntry) (e : TimesheetEntry) (acc : Totals)
    → ((add_up (entries ++ e ∷ []) acc).break_minutes
        ≡ (add_up entries acc).break_minutes + e.break_minutes)
      × ((add_up (entries ++ e ∷ []) acc).exception_count
          ≡ (add_up entries acc).exception_count + e.exception_count)
unfolding add_up
add_up-append [] e acc = (refl, refl)
add_up-append (x ∷ rest) e acc = add_up-append rest e (record {
  regular_minutes = acc.regular_minutes + (x.payable_minutes - x.overtime_minutes);
  overtime_minutes = acc.overtime_minutes + x.overtime_minutes;
  break_minutes = acc.break_minutes + x.break_minutes;
  exception_count = acc.exception_count + x.exception_count;
})

select-append :
    (p : TimesheetEntry → Bool) (entries : List TimesheetEntry) (e : TimesheetEntry)
    → p e ≡ true
    → select p (entries ++ e ∷ []) ≡ select p entries ++ e ∷ []
select-append p [] e h = ground arith
select-append p (x ∷ rest) e h = ground (arith, select-append p rest e)

no_entry_of_record :
    (sheet employee date : ℕ) (r : AttendanceRecord) (shift : Option ℕ)
    (entries : List TimesheetEntry)
    → any (λ e. names (some r.id) e.attendance_record_id) entries ≡ false
    → any (is_entry sheet employee date (some r.id) shift) entries ≡ false
no_entry_of_record sheet employee date r shift [] h = refl
no_entry_of_record sheet employee date r shift (e ∷ rest) h =
    ground (arith, no_entry_of_record sheet employee date r shift rest)

-- An upsert for a record that no entry names appends a row.
upsert-appends :
    (new_id sheet employee date : ℕ) (r : AttendanceRecord) (s : Shift) (db : SheetTables)
    → any (λ e. names (some r.id) e.attendance_record_id) db.entries ≡ false
    → (upsert_timesheet_entry new_id sheet employee date (some r) (some s) db).1.entries
      ≡ db.entries
        ++ entry_of new_id r.tenant_id sheet employee date
            (count (concerns employee (some r.id) (some s.id)) db.exceptions)
            (some r)
            (some s)
          ∷ []
unfolding upsert_timesheet_entry
upsert-appends new_id sheet employee date r s db h =
    let nothing =
      find_first-eq-none (is_entry sheet employee date (some r.id) (some s.id)) db.entries
        (no_entry_of_record sheet employee date r (some s.id) db.entries h) in
    rw (nothing, upsert_timesheet_entry) refl

-- Where no entry names a record, the upsert of the record with its shift adds its break minutes to the
-- total of its timesheet, and takes no exception off it; so a row that was made for the shift while it had
-- no record stays, and its break minutes and exceptions are counted beside those of the record.
pub late_record_counts_again :
    (new_id sheet employee date : ℕ) (r : AttendanceRecord) (s : Shift) (db : SheetTables)
    → any (λ e. names (some r.id) e.attendance_record_id) db.entries ≡ false
    → let before = add_up (select (of_timesheet sheet) db.entries) no_minutes in
      let after =
        add_up
          (select
            (of_timesheet sheet)
            (upsert_timesheet_entry new_id sheet employee date (some r) (some s) db).1.entries)
          no_minutes in
      (after.break_minutes ≡ before.break_minutes + r.break_minutes)
      × (before.exception_count ≤ after.exception_count)
unfolding entry_of
late_record_counts_again new_id sheet employee date r s db h =
    let row =
      entry_of new_id r.tenant_id sheet employee date
        (count (concerns employee (some r.id) (some s.id)) db.exceptions) (some r) (some s) in
    let own = select (of_timesheet sheet) db.entries in
    let rows =
      ap (select (of_timesheet sheet)) (upsert-appends new_id sheet employee date r s db h)
      ∙ select-append (of_timesheet sheet) db.entries row (ground arith) in
    let (breaks, exceptions) = add_up-append own row no_minutes in rw rows (breaks, omega arith)

-- Where the overtime of each entry is at most its payable minutes, the regular minutes and the overtime of
-- a timesheet's totals add up to the payable minutes of its entries.
pub totals_split_payable :
    (timesheet_id : ℕ) (db : SheetTables)
    → All
        (λ e. e.overtime_minutes ≤ e.payable_minutes)
        (select (of_timesheet timesheet_id) db.entries)
    → All
        (λ t.
          (t.id == timesheet_id) ≡ true
          → t.regular_minutes + t.overtime_minutes
            ≡ total_payable (select (of_timesheet timesheet_id) db.entries))
        (recalculate_timesheet timesheet_id db).timesheets
unfolding recalculate_timesheet
totals_split_payable timesheet_id db h =
    let total = add_up-payable (select (of_timesheet timesheet_id) db.entries) no_minutes h in
    All-update_where (λ t. Unit {0}) _ (λ t. t.id == timesheet_id)
      (with_totals (add_up (select (of_timesheet timesheet_id) db.entries) no_minutes))
      db.timesheets (λ t e u k. omega arith) (λ t e u k. absurd (ground arith))
      (All-each (λ t. Unit {0}) db.timesheets (λ t. tt))
