-- ===== src/Attendance/Punching.antt =====
-- The soundness of the tables after a punch (`findOrCreateOpenRecord` and `recordPunch` of
-- apps/api-gateway/src/attendance/attendance.service.ts).
use time_sync_be.Prelude.{
  count-append_one, none_found, ℕ, ◌≤◌, ◌==◌, Bool, true, Option, none, some, String, List, [], ◌∷◌,
  ◌++◌, ◌≡◌, refl, ap, inl, inr, Option-cases, Bool-cases, arith, count, find_first, Handler,
  Result, ok, err, ◌>>=◌, liftr, transaction, All-append_one, or_default,
}
use mathlib.Core.Path.{subst}
use time_sync_be.Approvals.Types.{Actor}
use time_sync_be.Approvals.Requests.{require_tenant}
use time_sync_be.Attendance.Types.{Source, Policy, Shift, AttendanceRecord, Tables, is_open}
use time_sync_be.Attendance.Policy.{
  Evaluation, enforce_attendance_policy, evaluate_attendance_policy,
}
use time_sync_be.Attendance.Controls.{evaluate_attendance_controls}
use time_sync_be.Attendance.OpenRecords.{
  is_open_record, find_or_create_open_record, new_open_record, resolve_punch_assignment,
  location_of,
}
use time_sync_be.Attendance.Clocking.{Env}
use time_sync_be.Attendance.PunchRequests.{PunchRequest, first_input, control_input}
use time_sync_be.Attendance.Punches.{punch_on, punch_controlled, punch_in_tx, record_punch}
use time_sync_be.Attendance.Soundness.{open_breaks, Fine, Sound}
use time_sync_be.Attendance.Punched.{bind_keeps, punch_on-Sound}

find_first-append :
    (p : AttendanceRecord → Bool) (xs : List AttendanceRecord) (y : AttendanceRecord)
    → find_first p xs ≡ none
    → p y ≡ true
    → find_first p (xs ++ y ∷ []) ≡ some y
find_first-append p [] y h e = ground arith
find_first-append p (x ∷ xs) y h e = ground (arith, find_first-append p xs y)

module _ (fresh : AttendanceRecord) (db : Tables) (sound : Sound db)
    (new_key : count (λ r. r.id == fresh.id) db.records ≡ 0)
    (no_break : open_breaks fresh.id db.breaks ≡ 0) (opened : is_open fresh.status ≡ true)
    (not_out : fresh.actual_clock_out_at ≡ none)
    (first : find_first (is_open_record fresh.tenant_id fresh.employee_id) db.records ≡ none) where
  fresh-Fine : Fine db.breaks fresh
  fresh-Fine = record {
    one_break = omega arith;
    on_shift = λ b. absurd (omega arith);
    not_out = λ b. ground arith;
    finished = λ b. absurd (ground arith);
  }

  one_open_still : (t e : ℕ) → count (is_open_record t e) (db.records ++ fresh ∷ []) ≤ 1
  one_open_still t e =
      let more = count-append_one (is_open_record t e) db.records fresh in
      let before = sound.one_open t e in
      elim (Bool-cases (is_open_record t e fresh)) [
        | inr away ↦ ground (arith, more, before)
        | inl here ↦
            let tenant : t ≡ fresh.tenant_id = ground arith in
            let employee : e ≡ fresh.employee_id = ground arith in
            let zero : count (is_open_record t e) db.records ≡ 0 =
              rw (tenant, employee)
                (none_found (is_open_record fresh.tenant_id fresh.employee_id) db.records first) in
            ground (arith, more, zero)
      ]

  one_key_still : (k : ℕ) → count (λ r. r.id == k) (db.records ++ fresh ∷ []) ≤ 1
  one_key_still k =
      let more = count-append_one (λ (r : AttendanceRecord). r.id == k) db.records fresh in
      let before = sound.keys k in
      elim (Bool-cases (fresh.id == k)) [
        | inr away ↦ ground (arith, more, before)
        | inl here ↦
            let key : k ≡ fresh.id = ground arith in
            let zero : count (λ (r : AttendanceRecord). r.id == k) db.records ≡ 0 =
              rw key new_key in
            ground (arith, more, zero)
      ]

  created-Sound : Sound (record db { records = db.records ++ fresh ∷ [] })
  created-Sound = record {
    records = All-append_one (Fine db.breaks) db.records fresh sound.records fresh-Fine;
    one_open = one_open_still;
    keys = one_key_still;
  }

-- The record that is punched is the first open one of the employee.
abbrev Found : (tenant_id employee_id : ℕ) → Result AttendanceRecord × Tables → Type 0
Found tenant_id employee_id (ok row, s) =
    find_first (is_open_record tenant_id employee_id) s.records ≡ some row
Found tenant_id employee_id (err e, s) = Unit {0}

module _ (fresh : AttendanceRecord) (db : Tables) (sound : Sound db)
    (new_key : count (λ r. r.id == fresh.id) db.records ≡ 0)
    (no_break : open_breaks fresh.id db.breaks ≡ 0) (opened : is_open fresh.status ≡ true)
    (not_out : fresh.actual_clock_out_at ≡ none) where
  find_or_create-Sound : Sound (find_or_create_open_record fresh db).1
  unfolding find_or_create_open_record
  find_or_create-Sound =
      elim (Option-cases
        (find_first (is_open_record fresh.tenant_id fresh.employee_id) db.records)) [
          | inl e ↦
              rw (e, find_or_create_open_record)
                (created-Sound fresh db sound new_key no_break opened not_out e)
          | inr (row, e) ↦ rw (e, find_or_create_open_record) sound
        ]

  is_own_record : is_open_record fresh.tenant_id fresh.employee_id fresh ≡ true
  is_own_record = ground arith

  find_or_create-Found :
      Found fresh.tenant_id fresh.employee_id (find_or_create_open_record fresh db)
  unfolding find_or_create_open_record
  find_or_create-Found =
      elim (Option-cases
        (find_first (is_open_record fresh.tenant_id fresh.employee_id) db.records)) [
          | inl e ↦
              rw (e, find_or_create_open_record)
                (find_first-append (is_open_record fresh.tenant_id fresh.employee_id) db.records
                  fresh e is_own_record)
          | inr (row, e) ↦ rw (e, find_or_create_open_record) e
        ]

transaction_keeps :
    {A : Type 0} (P : Tables → Type 0) (m : Handler Tables A) (db : Tables)
    → P db
    → P (m db).1
    → P (transaction m db).1
transaction_keeps {A} P m db before after = go (m db) after
  where
    go :
        (r : Result A × Tables)
        → P r.1
        → P
            (let (x, s) = r in
              let y : Result A × Tables = elim x [ ok a ↦ (ok a, s) | err e ↦ (err e, db) ] in y).1
    go (ok a, s) h = h
    go (err e, s) h = before

tenant_writes_nothing :
    (actor : Actor) (db : Tables) → (require_tenant {S = Tables} actor db).1 ≡ db
tenant_writes_nothing actor db = ground arith

module _ (env : Env) (actor : Actor) (employee_id : ℕ) (dto : PunchRequest) (policy : Policy)
    (db : Tables) (sound : Sound db)
    (new_key : count (λ r. r.id == env.new_record_id) db.records ≡ 0)
    (no_break : open_breaks env.new_record_id db.breaks ≡ 0) where
  opened-Sound :
      (tenant_id t : ℕ) (source : Source) (assignment : Option Shift) (location : Option String)
      (control : Evaluation)
      → Sound
          ((find_or_create_open_record (
                new_open_record env.new_record_id tenant_id employee_id t assignment policy source
                  location)
              >>= punch_on env actor tenant_id employee_id t dto source assignment policy control)
            db).1
  opened-Sound tenant_id t source assignment location control =
      let fresh =
        new_open_record env.new_record_id tenant_id employee_id t assignment policy source
          location in
      bind_keeps Sound (find_or_create_open_record fresh)
        (punch_on env actor tenant_id employee_id t dto source assignment policy control) db
        (find_or_create-Sound fresh db sound new_key no_break refl refl)
        (λ row s e h.
          punch_on-Sound env actor tenant_id employee_id t policy control row dto source assignment
            s h
            (subst (Found tenant_id employee_id) e
              (find_or_create-Found fresh db sound new_key no_break refl refl)))

  controlled-Sound :
      (tenant_id t : ℕ) (source : Source) (assignment : Option Shift) (control : Evaluation)
      → Sound
          (punch_controlled env actor tenant_id employee_id t dto source assignment policy control
            db).1
  unfolding punch_controlled enforce_attendance_policy
  controlled-Sound tenant_id t source assignment control =
      let location = location_of dto.location_name assignment in
      let fresh =
        new_open_record env.new_record_id tenant_id employee_id t assignment policy source
          location in
      let rest =
        find_or_create_open_record fresh
        >>= punch_on env actor tenant_id employee_id t dto source assignment policy control in
      bind_keeps Sound
        (enforce_attendance_policy {S = Tables} (
          evaluate_attendance_policy env.now policy
            (first_input dto source assignment location control)))
        (λ _. rest) db sound
        (λ u s e h.
          subst (λ (x : Tables). Sound (rest x).1) (ap (λ (r : Result (Unit {0}) × Tables). r.1) e)
            (opened-Sound tenant_id t source assignment location control))

  tx-Sound :
      (tenant_id t : ℕ) (source : Source) (assignment : Option Shift)
      → Sound (punch_in_tx env actor tenant_id employee_id t dto source assignment policy db).1
  unfolding punch_in_tx
  tx-Sound tenant_id t source assignment = controlled-Sound tenant_id t source assignment (
      evaluate_attendance_controls tenant_id policy assignment
        (control_input employee_id dto source) db)

  committed-Sound :
      (tenant_id t : ℕ) (source : Source) (shifts : List Shift)
      → Sound
          ((liftr
                (resolve_punch_assignment tenant_id employee_id dto.schedule_assignment_id t shifts)
              >>= λ assignment.
                  transaction
                    (punch_in_tx env actor tenant_id employee_id t dto source assignment policy))
            db).1
  committed-Sound tenant_id t source shifts =
      bind_keeps Sound
        (liftr (resolve_punch_assignment tenant_id employee_id dto.schedule_assignment_id t shifts))
        (λ assignment.
          transaction (punch_in_tx env actor tenant_id employee_id t dto source assignment policy))
        db sound
        (λ assignment s e h.
          subst
            (λ (x : Tables).
              Sound
                (transaction
                  (punch_in_tx env actor tenant_id employee_id t dto source assignment policy) x).1)
            (ap (λ (r : Result (Option Shift) × Tables). r.1) e)
            (transaction_keeps Sound
              (punch_in_tx env actor tenant_id employee_id t dto source assignment policy) db sound
              (tx-Sound tenant_id t source assignment)))

  -- A punch keeps the tables sound, whether it goes through or not, if no record has the id for a new
  -- record and no open break names it. Sound tables have one record of an id and one open record of an
  -- employee at most; each record has one open break at most, and only while it is open and clocked
  -- in; an open record is not clocked out, and a completed one is clocked in and out.
  pub record_punch-Sound :
      (given_source : Option Source) (shifts : List Shift)
      → Sound (record_punch env actor employee_id dto given_source policy shifts db).1
  unfolding record_punch
  record_punch-Sound given_source shifts =
      let t = or_default dto.occurred_at env.now in
      let source = or_default given_source (or_default dto.source Source.web) in
      elim (Option-cases actor.tenant_id) [
        | inl e ↦ subst (λ (x : Tables). Sound x) (ground arith) sound
        | inr (tenant_id, e) ↦
            subst (λ (x : Tables). Sound x) (ground arith)
              (committed-Sound tenant_id t source shifts)
      ]
