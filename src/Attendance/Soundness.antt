-- ===== src/Attendance/Soundness.antt =====
-- What holds of the records and breaks of attendance between two punches.
use time_sync_be.Prelude.{
  ℕ, ◌≤◌, ◌<◌, ◌==◌, ltb, Bool, true, false, none, some, List, [], ◌∷◌, ◌≡◌, sym, ap, arith,
  is_none, count, find_first, All, none_first, Bool-cases, inl, inr,
}
use mathlib.Core.Path.{subst}
use time_sync_be.Attendance.Types.{RecordStatus, AttendanceRecord, Break, Tables, is_open}
use time_sync_be.Attendance.OpenRecords.{is_open_record, is_open_break, find_open_break}
use time_sync_be.Attendance.Clocking.{end_break}

abbrev pub open_breaks : (record_id : ℕ) → List Break → ℕ
open_breaks record_id = count (is_open_break record_id)

abbrev pub is_completed : RecordStatus → Bool
is_completed RecordStatus.completed = true
is_completed _ = false

-- A record has one open break at most, and that only while it is open and clocked in; an open record is
-- not clocked out, and a completed one is clocked in and out.
pub record Fine (breaks : List Break) (r : AttendanceRecord) : Type 0 where
  pub one_break : open_breaks r.id breaks ≤ 1
  pub on_shift :
      0 < open_breaks r.id breaks
      → (is_open r.status ≡ true) × (is_none r.actual_clock_in_at ≡ false)
  pub not_out : is_open r.status ≡ true → is_none r.actual_clock_out_at ≡ true
  pub finished :
      is_completed r.status ≡ true
      → (is_none r.actual_clock_in_at ≡ false) × (is_none r.actual_clock_out_at ≡ false)

pub record Sound (db : Tables) : Type 0 where
  pub records : All (Fine db.breaks) db.records
  pub one_open :
      (tenant_id employee_id : ℕ) → count (is_open_record tenant_id employee_id) db.records ≤ 1
  pub keys : (k : ℕ) → count (λ r. r.id == k) db.records ≤ 1

pub ended-le :
    (id break_id t m : ℕ) (breaks : List Break)
    → open_breaks id (end_break break_id t m breaks) ≤ open_breaks id breaks
ended-le id break_id t m [] = omega arith
ended-le id break_id t m (b ∷ bs) = ground (arith, ended-le id break_id t m bs)

none_counted :
    (g : AttendanceRecord → Bool) (Q : AttendanceRecord → Type 0) (rows : List AttendanceRecord)
    → count g rows ≡ 0
    → All (λ r. g r ≡ true → Q r) rows
none_counted g Q [] h = tt
none_counted g Q (r ∷ rows) h = ((λ e. absurd (ground arith)), none_counted g Q rows (ground arith))

found_counts :
    (p : AttendanceRecord → Bool) (row : AttendanceRecord) (rows : List AttendanceRecord)
    → find_first p rows ≡ some row
    → 1 ≤ count (λ r. r.id == row.id) rows
found_counts p row [] h = absurd (ground arith)
found_counts p row (r ∷ rows) h = elim (Bool-cases (p r)) [
  | inl e ↦
      let same : r ≡ row = ground arith in
      let key : r.id ≡ row.id = ap (λ (x : AttendanceRecord). x.id) same in ground arith
  | inr e ↦ let later = found_counts p row rows (ground arith) in omega arith
]

-- The row that was found is the only one with its id.
pub found_once :
    (p : AttendanceRecord → Bool) (Q : AttendanceRecord → Type 0) (row : AttendanceRecord)
    (rows : List AttendanceRecord)
    → find_first p rows ≡ some row
    → Q row
    → count (λ r. r.id == row.id) rows ≤ 1
    → All (λ r. (r.id == row.id) ≡ true → Q r) rows
found_once p Q row [] h q u = tt
found_once p Q row (r ∷ rows) h q u = elim (Bool-cases (p r)) [
  | inl e ↦
      let same : row ≡ r = ground arith in
      let key : r.id ≡ row.id = ap (λ (x : AttendanceRecord). x.id) (sym same) in
      ((λ k. subst Q same q), none_counted (λ x. x.id == row.id) Q rows (ground arith))
  | inr e ↦
      let later : find_first p rows ≡ some row = ground arith in
      let one = found_counts p row rows later in
      ((λ k. absurd (ground arith)), found_once p Q row rows later q (omega arith))
]

pub no_open_break :
    (record_id : ℕ) (breaks : List Break)
    → find_open_break record_id breaks ≡ none
    → open_breaks record_id breaks ≡ 0
unfolding find_open_break
no_open_break record_id breaks h =
    none_first (λ a b. ltb b.started_at a.started_at) (is_open_break record_id) breaks h
