-- ===== src/Attendance/Punched.antt =====
-- Proofs that a punch keeps the tables sound (`recordPunch` of
-- apps/api-gateway/src/attendance/attendance.service.ts).
use time_sync_be.Prelude.{
  ℕ, Option, none, some, String, List, ◌≡◌, refl, sym, ap, ◌∙◌, arith, find_first, All, Handler,
  Result, ok, err, ◌>>=◌, if◌then◌else◌,
}
use mathlib.Core.Path.{subst}
use time_sync_be.Approvals.Types.{Actor}
use time_sync_be.Attendance.Types.{
  PunchType, Source, Policy, Shift, AttendanceRecord, Break, Tables,
}
use time_sync_be.Attendance.Policy.{Evaluation, enforce_attendance_policy}
use time_sync_be.Attendance.OpenRecords.{is_open_record, find_open_break, check_punch}
use time_sync_be.Attendance.Clocking.{Env, apply_punch_to_record}
use time_sync_be.Attendance.PunchRequests.{
  PunchRequest, uses_break, see_device, device_of, add_punch, new_punch,
}
use time_sync_be.Attendance.Punches.{
  find_record, note_punch, change_record, write_punch, admit_punch, punch_on,
}
use time_sync_be.Attendance.Soundness.{Fine, Sound}
use time_sync_be.Attendance.Clocked.{
  break_start-Sound, break_end-Sound, clock_in-Sound, clock_out-Sound,
}

module _ {A B : Type 0} (P : Tables → Type 0) (m : Handler Tables A) (f : A → Handler Tables B)
    (db : Tables) where
  pub bind_keeps :
      P (m db).1
      → ((a : A) (s : Tables) → m db ≡ (ok a, s) → P s → P (f a s).1)
      → P ((m >>= f) db).1
  bind_keeps h k = go (m db) h k
    where
      go :
          (r : Result A × Tables)
          → P r.1
          → ((a : A) (s : Tables) → r ≡ (ok a, s) → P s → P (f a s).1)
          → P
              (let (x, s) = r in
                let y : Result B × Tables = elim x [ ok a ↦ f a s | err e ↦ (err e, s) ] in y).1
      go (ok a, s) h k = k a s refl h
      go (err e, s) h k = h

-- A record's soundness rests on the records and breaks alone.
kept : (db db' : Tables) → db'.records ≡ db.records → db'.breaks ≡ db.breaks → Sound db → Sound db'
kept db db' r b h = record {
  records =
      subst (λ (x : List Break). All (Fine x) db'.records) (sym b)
        (subst (All (Fine db.breaks)) (sym r) h.records);
  one_open = λ t e. rw r (h.one_open t e);
  keys = λ k. rw r (h.keys k);
}

see_device_keeps :
    (tenant_id t : ℕ) (device : Option String) (db : Tables)
    → ((see_device tenant_id t device db).records ≡ db.records)
      × ((see_device tenant_id t device db).breaks ≡ db.breaks)
see_device_keeps tenant_id t none db = (refl, refl)
see_device_keeps tenant_id t (some d) db = (refl, refl)

module _ (env : Env) (policy : Policy) (db : Tables) (sound : Sound db) (tenant_id employee_id : ℕ)
    (row : AttendanceRecord)
    (found : find_first (is_open_record tenant_id employee_id) db.records ≡ some row) (t : ℕ) where
  applied-Sound :
      (type : PunchType)
      → check_punch type row (if uses_break type then find_open_break row.id db.breaks else none)
        ≡ ok tt
      → Sound (apply_punch_to_record env row policy type t db).1
  unfolding check_punch
  applied-Sound PunchType.clock_in h =
      clock_in-Sound db sound tenant_id employee_id row found env policy t
  applied-Sound PunchType.clock_out h =
      clock_out-Sound db sound tenant_id employee_id row found env policy t (ground arith)
        (ground arith)
  applied-Sound PunchType.break_start h =
      break_start-Sound db sound tenant_id employee_id row found env policy t (ground arith)
        (ground arith)
  applied-Sound PunchType.break_end h =
      break_end-Sound db sound tenant_id employee_id row found env policy t

found_writes_nothing : (record_id : ℕ) (db : Tables) → (find_record record_id db).1 ≡ db
unfolding find_record
found_writes_nothing record_id db = ground arith

-- A punch that is let through writes nothing so far, and its guards have passed.
admitted :
    (now t : ℕ) (dto : PunchRequest) (source : Source) (assignment : Option Shift) (policy : Policy)
    (control : Evaluation) (row : AttendanceRecord) (db s : Tables)
    → admit_punch now t dto source assignment policy control row db ≡ (ok tt, s)
    → (s ≡ db)
      × (check_punch dto.type row
            (if uses_break dto.type then find_open_break row.id db.breaks else none)
          ≡ ok tt)
unfolding admit_punch enforce_attendance_policy
admitted now t dto source assignment policy control row db s h = (ground arith, ground arith)

refused :
    (now t : ℕ) (dto : PunchRequest) (source : Source) (assignment : Option Shift) (policy : Policy)
    (control : Evaluation) (row : AttendanceRecord) (db : Tables)
    → (admit_punch now t dto source assignment policy control row db).1 ≡ db
unfolding admit_punch enforce_attendance_policy
refused now t dto source assignment policy control row db = ground arith

module _ (env : Env) (actor : Actor) (tenant_id employee_id t : ℕ) (policy : Policy)
    (control : Evaluation) (row : AttendanceRecord) where
  noted-Sound :
      (type : PunchType) (r : AttendanceRecord) (s : Tables)
      → Sound s
      → Sound (note_punch env actor tenant_id employee_id t type control r s).1
  unfolding note_punch
  noted-Sound type r s h =
      kept s (note_punch env actor tenant_id employee_id t type control r s).1 refl refl h

  read_again-Sound :
      (type : PunchType) (s : Tables)
      → Sound s
      → Sound
          ((find_record row.id >>= note_punch env actor tenant_id employee_id t type control) s).1
  read_again-Sound type s h =
      bind_keeps Sound (find_record row.id)
        (note_punch env actor tenant_id employee_id t type control) s
        (subst Sound (sym (found_writes_nothing row.id s)) h) (λ r s e h. noted-Sound type r s h)

  changed-Sound :
      (type : PunchType) (db : Tables)
      → Sound db
      → find_first (is_open_record tenant_id employee_id) db.records ≡ some row
      → check_punch type row (if uses_break type then find_open_break row.id db.breaks else none)
        ≡ ok tt
      → Sound (change_record env actor tenant_id employee_id t type policy control row db).1
  unfolding change_record
  changed-Sound type db sound found passed =
      bind_keeps Sound (apply_punch_to_record env row policy type t)
        (λ _. find_record row.id >>= note_punch env actor tenant_id employee_id t type control) db
        (applied-Sound env policy db sound tenant_id employee_id row found t type passed)
        (λ u s e h. read_again-Sound type s h)

  module _ (dto : PunchRequest) (source : Source) (assignment : Option Shift) (db : Tables)
      (sound : Sound db)
      (found : find_first (is_open_record tenant_id employee_id) db.records ≡ some row) where
    written-Sound :
        check_punch dto.type row
            (if uses_break dto.type then find_open_break row.id db.breaks else none)
          ≡ ok tt
        → Sound
            (write_punch env actor tenant_id employee_id t dto source assignment policy control row
              db).1
    unfolding write_punch
    written-Sound passed =
        let added =
          add_punch
            (new_punch env.new_punch_id tenant_id employee_id t dto.type source assignment row)
            db in
        let seen = see_device tenant_id t (device_of dto.device_id) added in
        let (records, breaks) = see_device_keeps tenant_id t (device_of dto.device_id) added in
        changed-Sound dto.type seen (kept db seen records breaks sound)
          (ap (λ (x : List AttendanceRecord). find_first (is_open_record tenant_id employee_id) x)
              records
            ∙ found)
          (ap
              (λ (x : List Break).
                check_punch dto.type row
                  (if uses_break dto.type then find_open_break row.id x else none))
              breaks
            ∙ passed)

    pub punch_on-Sound :
        Sound
          (punch_on env actor tenant_id employee_id t dto source assignment policy control row db).1
    unfolding punch_on
    punch_on-Sound =
        bind_keeps Sound (admit_punch env.now t dto source assignment policy control row)
          (λ _.
            write_punch env actor tenant_id employee_id t dto source assignment policy control row)
          db
          (subst Sound (sym (refused env.now t dto source assignment policy control row db)) sound)
          (λ u s e h.
            let (same, passed) =
              admitted env.now t dto source assignment policy control row db s e in
            subst
              (λ (x : Tables).
                Sound
                  (write_punch env actor tenant_id employee_id t dto source assignment policy
                    control row x).1)
              (sym same) (written-Sound passed))
