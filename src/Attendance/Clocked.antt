-- ===== src/Attendance/Clocked.antt =====
-- Proofs that what a punch does to the open record keeps the tables sound (`applyPunchToRecord` of
-- apps/api-gateway/src/attendance/attendance.service.ts).
use time_sync_be.Prelude.{
  count-append_one, count-update_where, All-update_where, All-find_first, All-map, All-and,
  All-each, ℕ, ◌+◌, ◌≤◌, ◌==◌, Bool, true, false, none, some, [], ◌∷◌, ◌++◌, ◌≡◌, refl, sym, ap,
  ◌∙◌, inl, inr, Option-cases, arith, is_none, count, find_first, find_first-holds, update_where,
  All,
}
use mathlib.Core.Path.{subst}
use time_sync_be.Attendance.Types.{PunchType, Policy, AttendanceRecord, Break, Tables, is_open}
use time_sync_be.Attendance.OpenRecords.{is_open_record, is_open_break, find_open_break, set_record}
use time_sync_be.Attendance.Clocking.{
  Env, clocked, new_break, end_break, break_minutes_of, apply_punch_to_record,
}
use time_sync_be.Attendance.Soundness.{
  open_breaks, Fine, Sound, ended-le, found_once, no_open_break,
}

module _ (db : Tables) (sound : Sound db) (tenant_id employee_id : ℕ) (row : AttendanceRecord)
    (found : find_first (is_open_record tenant_id employee_id) db.records ≡ some row) where
  abbrev At : AttendanceRecord → Type 0
  At r =
      Fine db.breaks r
      × ((r.id == row.id) ≡ true
          → (is_open r.status ≡ true)
            × (is_none r.actual_clock_in_at ≡ is_none row.actual_clock_in_at))

  row_open : is_open row.status ≡ true
  row_open =
      let holds = find_first-holds (is_open_record tenant_id employee_id) row db.records found in
      ground arith

  row-Fine : Fine db.breaks row
  row-Fine =
      All-find_first (Fine db.breaks) (is_open_record tenant_id employee_id) row db.records
        sound.records found

  here-At : All At db.records
  here-At = All-and (Fine db.breaks) _ db.records sound.records (
      found_once (is_open_record tenant_id employee_id)
        (λ r.
          (is_open r.status ≡ true)
          × (is_none r.actual_clock_in_at ≡ is_none row.actual_clock_in_at))
        row db.records found (row_open, refl) (sound.keys row.id))

  -- An update of the row that keeps its key, and opens no record, keeps both counts.
  updated-Sound :
      (f : AttendanceRecord → AttendanceRecord) (rest : Tables)
      → ((x : AttendanceRecord) → (x.id == row.id) ≡ true → At x → Fine rest.breaks (f x))
      → ((x : AttendanceRecord) → (x.id == row.id) ≡ false → At x → Fine rest.breaks x)
      → ((x : AttendanceRecord) (k : ℕ) → ((f x).id == k) ≡ true → (x.id == k) ≡ true)
      → ((x : AttendanceRecord) (t e : ℕ)
          → (x.id == row.id) ≡ true
          → At x
          → is_open_record t e (f x) ≡ true
          → is_open_record t e x ≡ true)
      → rest.records ≡ update_where (λ r. r.id == row.id) f db.records
      → Sound rest
  updated-Sound f rest hit miss key opens records = record {
    records = subst (All (Fine rest.breaks)) (sym records) (
        All-update_where At (Fine rest.breaks) (λ r. r.id == row.id) f db.records hit miss here-At);
    one_open = λ t e. rw records (
        bounded (is_open_record t e) (All-map At _ db.records (λ x a g. opens x t e g a) here-At)
          (sound.one_open t e));
    keys = λ k.
        rw records
          (bounded (λ r. r.id == k) (All-each _ db.records (λ x g. key x k)) (sound.keys k));
  }
    where
      bounded :
          (p : AttendanceRecord → Bool)
          → All (λ x. (x.id == row.id) ≡ true → p (f x) ≡ true → p x ≡ true) db.records
          → count p db.records ≤ 1
          → count p (update_where (λ r. r.id == row.id) f db.records) ≤ 1
      bounded p h one =
          let fewer = count-update_where p (λ r. r.id == row.id) f db.records h in omega arith

  started_here :
      (id t : ℕ) (x : AttendanceRecord)
      → open_breaks row.id db.breaks ≡ 0
      → is_none row.actual_clock_in_at ≡ false
      → (x.id == row.id) ≡ true
      → At x
      → Fine (db.breaks ++ new_break id t row ∷ []) (record x { last_punch_at = some t })
  started_here id t x zero clocked_in here a =
      let more = count-append_one (is_open_break x.id) db.breaks (new_break id t row) in
      let key : x.id ≡ row.id = ground arith in
      let none_yet : open_breaks x.id db.breaks ≡ 0 =
        ap (λ k. open_breaks k db.breaks) key ∙ zero in
      let (opened, same) = a.1 here in
      record {
        one_break = ground (arith, more, none_yet);
        on_shift = λ some_break. (opened, same ∙ clocked_in);
        not_out = a.0.not_out;
        finished = a.0.finished;
      }

  started_elsewhere :
      (id t : ℕ) (x : AttendanceRecord)
      → (x.id == row.id) ≡ false
      → At x
      → Fine (db.breaks ++ new_break id t row ∷ []) x
  started_elsewhere id t x away a =
      let more = count-append_one (is_open_break x.id) db.breaks (new_break id t row) in
      let other : (row.id == x.id) ≡ false = ground arith in
      let same : open_breaks x.id (db.breaks ++ new_break id t row ∷ [])
          ≡ open_breaks x.id db.breaks =
        ground (arith, more, other) in
      let before = a.0.one_break in
      record {
        one_break = omega arith;
        on_shift = λ b. a.0.on_shift (omega arith);
        not_out = a.0.not_out;
        finished = a.0.finished;
      }

  pub break_start-Sound :
      (env : Env) (policy : Policy) (t : ℕ)
      → is_none row.actual_clock_in_at ≡ false
      → find_open_break row.id db.breaks ≡ none
      → Sound (apply_punch_to_record env row policy PunchType.break_start t db).1
  unfolding apply_punch_to_record
  break_start-Sound env policy t clocked_in h =
      let zero = no_open_break row.id db.breaks h in
      updated-Sound (λ r. record r { last_punch_at = some t })
        (apply_punch_to_record env row policy PunchType.break_start t db).1
        (λ x e a. started_here env.new_break_id t x zero clocked_in e a)
        (λ x e a. started_elsewhere env.new_break_id t x e a) (λ x k g. g) (λ x t e g a o. o) refl

  ended-Fine :
      (break_id t m : ℕ) (x : AttendanceRecord)
      → Fine db.breaks x
      → Fine (end_break break_id t m db.breaks) x
  ended-Fine break_id t m x fine =
      let fewer = ended-le x.id break_id t m db.breaks in
      let before = fine.one_break in
      record {
        one_break = omega arith;
        on_shift = λ b. fine.on_shift (omega arith);
        not_out = fine.not_out;
        finished = fine.finished;
      }

  ended-Sound :
      (b : Break) (t m : ℕ)
      → Sound (
          set_record row.id
            (λ r. record r { break_minutes = r.break_minutes + m; last_punch_at = some t })
            (record db { breaks = end_break b.id t m db.breaks }))
  ended-Sound b t m =
      updated-Sound (λ r. record r { break_minutes = r.break_minutes + m; last_punch_at = some t })
        (set_record row.id
          (λ r. record r { break_minutes = r.break_minutes + m; last_punch_at = some t })
          (record db { breaks = end_break b.id t m db.breaks }))
        (λ x g a.
          let fine = ended-Fine b.id t m x a.0 in
          record {
            one_break = fine.one_break;
            on_shift = fine.on_shift;
            not_out = fine.not_out;
            finished = fine.finished;
          })
        (λ x g a. ended-Fine b.id t m x a.0) (λ x k g. g) (λ x t e g a o. o) refl

  pub break_end-Sound :
      (env : Env) (policy : Policy) (t : ℕ)
      → Sound (apply_punch_to_record env row policy PunchType.break_end t db).1
  unfolding apply_punch_to_record
  break_end-Sound env policy t = elim (Option-cases (find_open_break row.id db.breaks)) [
    | inl e ↦ rw (e, apply_punch_to_record) sound
    | inr (b, e) ↦ rw (e, apply_punch_to_record) (ended-Sound b t (break_minutes_of b t))
  ]

  in-Fine :
      (policy : Policy) (t : ℕ) (x : AttendanceRecord)
      → At x
      → Fine db.breaks (clocked policy false t row x)
  unfolding clocked
  in-Fine policy t x a = record {
    one_break = a.0.one_break;
    on_shift = λ b. (refl, refl);
    not_out = λ b. row-Fine.not_out row_open;
    finished = λ b. absurd (ground arith);
  }

  in-opens :
      (policy : Policy) (t tenant employee : ℕ) (x : AttendanceRecord)
      → (x.id == row.id) ≡ true
      → At x
      → is_open_record tenant employee (clocked policy false t row x) ≡ true
      → is_open_record tenant employee x ≡ true
  unfolding clocked
  in-opens policy t tenant employee x g a o =
      let opened : is_open x.status ≡ true = (a.1 g).0 in ground arith

  pub clock_in-Sound :
      (env : Env) (policy : Policy) (t : ℕ)
      → Sound (apply_punch_to_record env row policy PunchType.clock_in t db).1
  unfolding apply_punch_to_record clocked
  clock_in-Sound env policy t =
      updated-Sound (clocked policy false t row)
        (apply_punch_to_record env row policy PunchType.clock_in t db).1
        (λ x e a. in-Fine policy t x a) (λ x e a. a.0) (λ x k g. g)
        (λ x tenant e g a o. in-opens policy t tenant e x g a o) refl

  out-Fine :
      (policy : Policy) (t : ℕ) (x : AttendanceRecord)
      → open_breaks row.id db.breaks ≡ 0
      → is_none row.actual_clock_in_at ≡ false
      → (x.id == row.id) ≡ true
      → At x
      → Fine db.breaks (clocked policy true t row x)
  unfolding clocked
  out-Fine policy t x zero clocked_in here a =
      let key : x.id ≡ row.id = ground arith in
      let none_yet : open_breaks x.id db.breaks ≡ 0 =
        ap (λ k. open_breaks k db.breaks) key ∙ zero in
      record {
        one_break = a.0.one_break;
        on_shift = λ b. absurd (omega arith);
        not_out = λ b. absurd (ground arith);
        finished = λ b. (clocked_in, refl);
      }

  pub clock_out-Sound :
      (env : Env) (policy : Policy) (t : ℕ)
      → is_none row.actual_clock_in_at ≡ false
      → find_open_break row.id db.breaks ≡ none
      → Sound (apply_punch_to_record env row policy PunchType.clock_out t db).1
  unfolding apply_punch_to_record clocked
  clock_out-Sound env policy t clocked_in h =
      let zero = no_open_break row.id db.breaks h in
      updated-Sound (clocked policy true t row)
        (apply_punch_to_record env row policy PunchType.clock_out t db).1
        (λ x e a. out-Fine policy t x zero clocked_in e a) (λ x e a. a.0) (λ x k g. g)
        (λ x tenant e g a o. absurd (ground arith)) refl
