-- ===== src/Leave/Explained.antt =====
-- Proofs about `applyLeaveOutcome` and `adjustBalance` of
-- apps/api-gateway/src/leave/leave.service.ts: the balances against the ledger.
use time_sync_be.Prelude.{
  ℕ, ◌==◌, ltb, true, false, Option, none, some, List, [], ◌∷◌, String, ◌≡◌, refl, ◌⊎◌, inl, inr,
  arith, any, find_first, update_where, All-append_one, ok, Bool-cases, Option-cases, Handler,
}
use mathlib.Core.Path.{subst⁻¹}
use time_sync_be.Prelude.Int.{pos, ◌-ℤ◌}
use time_sync_be.Approvals.Types.{ApprovalStatus, Actor}
use time_sync_be.Approvals.Gates.{Result-cases}
use time_sync_be.Leave.Types.{LedgerType, LeaveRequest, LeaveBalance, LedgerEntry, Tables}
use time_sync_be.Leave.Ledger.{
  explain, Shows, Fits, IsExplained, posted-Fits, use-Shows, release-Shows, adjust-Shows,
}
use time_sync_be.Leave.Adjust.{
  Directory, Adjustment, adjust, adjustment_type, adjust_balance, assert_can_operate_on_employee,
  find_type_or_throw, is_type, may_manage,
}
use time_sync_be.Leave.Outcome.{
  Env, ensure_balance, use_minutes, release_minutes, settle_balance, request_entry, is_approval,
  empty_balance, is_balance, is_entry, is_request, leaves_alone, leave_status_for_approval, decide,
  outcome_rows, write_log, record_outcome, apply_leave_outcome, find_request_or_throw,
}

-- Settling a request keeps the balances explained.
settle-IsExplained :
    (env : Env) (actor : Actor) (t : ℕ) (request : LeaveRequest) (status : ApprovalStatus)
    (comment : Option String) (balance : LeaveBalance) (db : Tables)
    → IsExplained db
    → IsExplained (settle_balance env actor t request status comment balance db)
unfolding settle_balance
settle-IsExplained env actor t request status comment balance db h =
    elim (Bool-cases (is_approval status)) [
      | inl approval ↦
          elim (Bool-cases (any (is_entry t request.id LedgerType.approved_usage) db.ledger)) [
            | inl repeated ↦ rw approval (rw repeated h)
            | inr new ↦ rw approval (
                rw new (
                  posted-Fits
                    (request_entry actor request t balance.id LedgerType.approved_usage
                      (pos 0 -ℤ pos request.paid_minutes) comment)
                    db.ledger (use_minutes env.now request.paid_minutes) (λ b. refl)
                    (use-Shows env.now request.paid_minutes) db.balances h))
          ]
      | inr refusal ↦
          elim (Bool-cases (any (is_entry t request.id LedgerType.cancelled_restore) db.ledger)) [
            | inl repeated ↦ rw refusal (rw repeated h)
            | inr new ↦ rw refusal (
                rw new (
                  posted-Fits
                    (request_entry actor request t balance.id LedgerType.cancelled_restore
                      (pos request.paid_minutes) comment)
                    db.ledger (release_minutes env.now request.paid_minutes) (λ b. refl)
                    (release-Shows env.now request.paid_minutes) db.balances h))
          ]
    ]

-- No row of the ledger is about the balance.
abbrev pub Unposted : (balance_id : ℕ) → Tables → Type 0
Unposted k db = any (λ e. e.balance_id == k) db.ledger ≡ false

explain-Unposted :
    (k : ℕ) (ledger : List LedgerEntry)
    → any (λ e. e.balance_id == k) ledger ≡ false
    → explain k ledger ≡ explain k []
explain-Unposted k [] h = refl
explain-Unposted k (e ∷ ledger) h = ground (arith, explain-Unposted k ledger)

pub ensure-IsExplained :
    (env : Env) (t employee leave_type : ℕ) (policy : Option ℕ) (db : Tables)
    → Unposted env.new_balance_id db
    → IsExplained db
    → IsExplained (ensure_balance env t employee leave_type policy db).1
unfolding ensure_balance
ensure-IsExplained env t employee leave_type policy db fresh h =
    elim (Option-cases (find_first (is_balance t employee leave_type) db.balances)) [
      | inr (b, e) ↦ rw (e, ensure_balance) h
      | inl e ↦
          rw (e, ensure_balance)
            (All-append_one (Fits db.ledger) db.balances _ h (
              subst⁻¹ (Shows (empty_balance env t employee leave_type policy))
                (explain-Unposted env.new_balance_id db.ledger fresh) (refl, refl, refl, refl)))
    ]

pub ensure-ok :
    (env : Env) (t employee leave_type : ℕ) (policy : Option ℕ) (db : Tables)
    → (b : LeaveBalance) × (ensure_balance env t employee leave_type policy db
        ≡ (ok b, (ensure_balance env t employee leave_type policy db).1))
unfolding ensure_balance
ensure-ok env t employee leave_type policy db =
    elim (Option-cases (find_first (is_balance t employee leave_type) db.balances)) [
      | inr (b, e) ↦ (b, ground arith)
      | inl e ↦ (empty_balance env t employee leave_type policy, ground arith)
    ]

module _ (env : Env) (actor : Actor) (outcome : ApprovalStatus) (comment : Option String)
    (db : Tables) (fresh : Unposted env.new_balance_id db) (h : IsExplained db) where
  -- the writes after the balance is settled
  abbrev closed_with : (t : ℕ) → LeaveRequest → Tables → Tables
  closed_with t request mid =
      let status = leave_status_for_approval outcome in
      write_log (outcome_rows actor t (decide env actor status request)) (record mid {
        requests = update_where (λ r. r.id == request.id) (decide env actor status) mid.requests;
      })

  abbrev ensured : (t : ℕ) → LeaveRequest → Handler Tables LeaveBalance
  ensured t request =
      ensure_balance env t request.employee_id request.leave_type_id request.policy_id

  recorded-paid :
      (t : ℕ) (request : LeaveRequest) (b : LeaveBalance)
      → ltb 0 request.paid_minutes ≡ true
      → ensured t request db ≡ (ok b, (ensured t request db).1)
      → (record_outcome env actor t outcome comment request db).1
        ≡ closed_with t request
            (settle_balance env actor t request outcome comment b (ensured t request db).1)
  unfolding record_outcome
  recorded-paid t request b paid ran = ground arith

  recorded-unpaid :
      (t : ℕ) (request : LeaveRequest)
      → ltb 0 request.paid_minutes ≡ false
      → (record_outcome env actor t outcome comment request db).1 ≡ closed_with t request db
  unfolding record_outcome
  recorded-unpaid t request unpaid = ground arith

  recorded-IsExplained :
      (t : ℕ) (request : LeaveRequest)
      → IsExplained (record_outcome env actor t outcome comment request db).1
  recorded-IsExplained t request = elim (Bool-cases (ltb 0 request.paid_minutes)) [
    | inr unpaid ↦ subst⁻¹ IsExplained (recorded-unpaid t request unpaid) h
    | inl paid ↦
        let (b, ran) =
          ensure-ok env t request.employee_id request.leave_type_id request.policy_id db in
        subst⁻¹ IsExplained (recorded-paid t request b paid ran) (
          settle-IsExplained env actor t request outcome comment b (ensured t request db).1 (
            ensure-IsExplained env t request.employee_id request.leave_type_id request.policy_id db
              fresh h))
  ]

  -- the tables are as they were, or as the recorded outcome leaves them
  unchanged_or_recorded :
      (request_id : ℕ)
      → ((apply_leave_outcome env actor request_id outcome comment db).1 ≡ db)
        ⊎ ((t : ℕ) × (request : LeaveRequest) × ((apply_leave_outcome env actor request_id outcome
                comment db).1
              ≡ (record_outcome env actor t outcome comment request db).1))
  unfolding apply_leave_outcome find_request_or_throw
  unchanged_or_recorded request_id = elim (Option-cases actor.tenant_id) [
    | inl e ↦ inl (ground arith)
    | inr (t, e) ↦ elim (Option-cases (find_first (is_request t request_id) db.requests)) [
      | inl missing ↦ inl (ground arith)
      | inr (request, found) ↦ elim (Bool-cases (leaves_alone outcome request.status)) [
        | inl alone ↦ inl (ground arith)
        | inr acted ↦
            elim (Result-cases (record_outcome env actor t outcome comment request db).0) [
              | inl (r, ran) ↦ inr (t, request, ground arith)
              | inr (x, ran) ↦ inl (ground arith)
            ]
      ]
    ]
  ]

  -- Applying an outcome to a request keeps every balance explained by the ledger, whether it goes
  -- through or not, if the id for a new balance is not in the ledger yet.
  pub outcome-IsExplained :
      (request_id : ℕ) → IsExplained (apply_leave_outcome env actor request_id outcome comment db).1
  outcome-IsExplained request_id = elim (unchanged_or_recorded request_id) [
    | inl same ↦ subst⁻¹ IsExplained same h
    | inr (t, request, same) ↦ subst⁻¹ IsExplained same (recorded-IsExplained t request)
  ]

module _ (env : Env) (dir : Directory) (actor : Actor) (dto : Adjustment) (db : Tables) where
  abbrev base : (t type_id : ℕ) → Handler Tables LeaveBalance
  base t type_id = ensure_balance env t dto.employee_id type_id dto.policy_id

  abbrev adjustment_row : (t type_id balance_id : ℕ) → LedgerEntry
  adjustment_row t type_id balance_id = record {
    tenant_id = t;
    employee_id = dto.employee_id;
    leave_type_id = type_id;
    balance_id = balance_id;
    request_id = none;
    type = adjustment_type dto.minutes;
    minutes = dto.minutes;
    reason = some dto.reason;
    actor_user_id = actor.id;
  }

  -- what an adjustment leaves of the balances and the ledger
  abbrev Adjusted : Tables → Type 0
  Adjusted db' =
      (t : ℕ) × (k : ℕ) × (b : LeaveBalance) × (db'.balances
        ≡ update_where (λ x. x.id == b.id) (adjust env.now dto) (base t k db).1.balances)
      × (db'.ledger ≡ adjustment_row t k b.id ∷ (base t k db).1.ledger)

  refused_or_Adjusted :
      ((adjust_balance env dir actor dto db).1 ≡ db)
      ⊎ Adjusted (adjust_balance env dir actor dto db).1
  unfolding adjust_balance assert_can_operate_on_employee find_type_or_throw
  refused_or_Adjusted = elim (Option-cases actor.tenant_id) [
    | inl none_given ↦ inl (ground arith)
    | inr (t, given) ↦ elim (Bool-cases (may_manage actor)) [
      | inr refused ↦ inl (ground arith)
      | inl allowed ↦ elim (Option-cases (find_first (is_type t dto.leave_type_id) dir.types)) [
        | inl missing ↦ inl (ground arith)
        | inr (type, found) ↦
            let (b, ran) = ensure-ok env t dto.employee_id type.id dto.policy_id db in
            inr (t, type.id, b, ground arith, ground arith)
      ]
    ]
  ]

  -- Adjusting a balance keeps every balance explained by the ledger, whether it goes through or
  -- not, if the id for a new balance is not in the ledger yet.
  pub adjustment-IsExplained :
      Unposted env.new_balance_id db
      → IsExplained db
      → IsExplained (adjust_balance env dir actor dto db).1
  adjustment-IsExplained fresh h = elim refused_or_Adjusted [
    | inl same ↦ subst⁻¹ IsExplained same h
    | inr (t, k, b, balances, ledger) ↦
        let before = ensure-IsExplained env t dto.employee_id k dto.policy_id db fresh h in
        rw (balances, ledger)
          (posted-Fits (adjustment_row t k b.id) (base t k db).1.ledger (adjust env.now dto)
            (λ x. refl) (adjust-Shows env.now dto) (base t k db).1.balances before)
  ]
