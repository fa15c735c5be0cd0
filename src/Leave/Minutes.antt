-- ===== src/Leave/Minutes.antt =====
-- Proofs about `applyLeaveOutcome` of apps/api-gateway/src/leave/leave.service.ts: the request and
-- the minutes of its balance.
use time_sync_be.Prelude.{
  ℕ, ◌==◌, ltb, ◌<◌, true, false, Option, some, List, [], ◌∷◌, String, ◌≡◌, refl, ap, ◌∙◌, arith,
  any, find_first, find_first-holds, update_where, Result, ok,
}
use time_sync_be.Prelude.Int.{ℤ, pos, ◌+ℤ◌, ◌-ℤ◌, int_laws}
use time_sync_be.Approvals.Types.{ApprovalStatus, Actor}
use time_sync_be.Leave.Types.{LeaveStatus, LedgerType, LeaveRequest, LeaveBalance, Tables}
use time_sync_be.Leave.Rules.{available}
use time_sync_be.Leave.Outcome.{
  Env, ensure_balance, use_minutes, release_minutes, settle_balance, is_approval, is_balance,
  is_entry, is_request, leaves_alone, leave_status_for_approval, decide, record_outcome,
  apply_leave_outcome, find_request_or_throw,
}

find-decided :
    (env : Env) (actor : Actor) (t k j : ℕ) (status : LeaveStatus) (rows : List LeaveRequest)
    (request : LeaveRequest)
    → j ≡ k
    → find_first (is_request t k) rows ≡ some request
    → find_first (is_request t k) (update_where (λ r. r.id == j) (decide env actor status) rows)
      ≡ some (decide env actor status request)
find-decided env actor t k j status [] request same h = cc
find-decided env actor t k j status (r ∷ rows) request same h =
    ground (arith, find-decided env actor t k j status rows request same)

-- Once a request has the status of an outcome, the outcome leaves it alone.
alone_after :
    (outcome : ApprovalStatus) (status : LeaveStatus)
    → leaves_alone outcome status ≡ false
    → leaves_alone outcome (leave_status_for_approval outcome) ≡ true
alone_after ApprovalStatus.pending status h = refl
alone_after _ status h = ground arith

pub left_alone :
    (env : Env) (actor : Actor) (t k : ℕ) (outcome : ApprovalStatus) (comment : Option String)
    (db : Tables) (request : LeaveRequest)
    → actor.tenant_id ≡ some t
    → find_first (is_request t k) db.requests ≡ some request
    → leaves_alone outcome request.status ≡ true
    → apply_leave_outcome env actor k outcome comment db ≡ (ok request, db)
unfolding apply_leave_outcome find_request_or_throw
left_alone env actor t k outcome comment db request tenant found alone = ground arith

find-used :
    (t e ty now paid : ℕ) (k : ℕ) (rows : List LeaveBalance) (b : LeaveBalance)
    → b.id ≡ k
    → find_first (is_balance t e ty) rows ≡ some b
    → find_first (is_balance t e ty) (update_where (λ x. x.id == k) (use_minutes now paid) rows)
      ≡ some (use_minutes now paid b)
find-used t e ty now paid k [] b same h = cc
find-used t e ty now paid k (x ∷ rows) b same h =
    ground (arith, find-used t e ty now paid k rows b same)

find-released :
    (t e ty now paid : ℕ) (k : ℕ) (rows : List LeaveBalance) (b : LeaveBalance)
    → b.id ≡ k
    → find_first (is_balance t e ty) rows ≡ some b
    → find_first (is_balance t e ty) (update_where (λ x. x.id == k) (release_minutes now paid) rows)
      ≡ some (release_minutes now paid b)
find-released t e ty now paid k [] b same h = cc
find-released t e ty now paid k (x ∷ rows) b same h =
    ground (arith, find-released t e ty now paid k rows b same)

module _ (env : Env) (actor : Actor) (t : ℕ) (outcome : ApprovalStatus) (comment : Option String)
    (request : LeaveRequest) where
  recorded-ok :
      (db : Tables)
      → (record_outcome env actor t outcome comment request db).0
        ≡ ok (decide env actor (leave_status_for_approval outcome) request)
  unfolding record_outcome ensure_balance
  recorded-ok db = ground arith

  recorded-requests :
      (db : Tables)
      → (record_outcome env actor t outcome comment request db).1.requests
        ≡ update_where
            (λ r. r.id == request.id)
            (decide env actor (leave_status_for_approval outcome))
            db.requests
  unfolding record_outcome ensure_balance settle_balance
  recorded-requests db = ground arith

  recorded-balances :
      (db : Tables) (b : LeaveBalance)
      → ltb 0 request.paid_minutes ≡ true
      → find_first (is_balance t request.employee_id request.leave_type_id) db.balances ≡ some b
      → (record_outcome env actor t outcome comment request db).1.balances
        ≡ (settle_balance env actor t request outcome comment b db).balances
  unfolding record_outcome ensure_balance
  recorded-balances db b paid held = ground arith

same_available : (x y : ℤ) (p : ℕ) → (x -ℤ pos p) -ℤ (y -ℤ pos p) ≡ x -ℤ y
same_available x y p = omega int_laws

more_available : (x y : ℤ) (p : ℕ) → x -ℤ (y -ℤ pos p) ≡ (x -ℤ y) +ℤ pos p
more_available x y p = omega int_laws

module _ (env : Env) (actor : Actor) (t k : ℕ) (outcome : ApprovalStatus) (comment : Option String)
    (db : Tables) (request : LeaveRequest) (tenant : actor.tenant_id ≡ some t)
    (found : find_first (is_request t k) db.requests ≡ some request)
    (acts : leaves_alone outcome request.status ≡ false) where
  key : request.id ≡ k
  key = ground (arith, find_first-holds (is_request t k) request db.requests found)

  applied : apply_leave_outcome env actor k outcome comment db ≡ (
    ok (decide env actor (leave_status_for_approval outcome) request),
    (record_outcome env actor t outcome comment request db).1,
  )
  unfolding apply_leave_outcome find_request_or_throw
  applied = ground (arith, recorded-ok env actor t outcome comment request db)

  kept :
      find_first (is_request t k) (record_outcome env actor t outcome comment request db).1.requests
      ≡ some (decide env actor (leave_status_for_approval outcome) request)
  kept =
      ap (find_first (is_request t k)) (recorded-requests env actor t outcome comment request db)
      ∙ find-decided env actor t k request.id (leave_status_for_approval outcome) db.requests
          request key found

  -- An outcome that is not left alone goes through: the request gets the status of the outcome and
  -- the decider, and to apply the same outcome once more, at any time and by any user of the tenant,
  -- changes no table.
  pub outcome_once :
      (later : Env) (other : Actor) (again : Option String)
      → other.tenant_id ≡ some t
      → let (result, db') = apply_leave_outcome env actor k outcome comment db in
        let decided = decide env actor (leave_status_for_approval outcome) request in
        (result ≡ ok decided)
        × (find_first (is_request t k) db'.requests ≡ some decided)
        × (apply_leave_outcome later other k outcome again db' ≡ (ok decided, db'))
  outcome_once later other again same_tenant = rw applied (
    refl,
    kept,
    left_alone later other t k outcome again _ _ same_tenant kept
        (alone_after outcome request.status acts),
  )

  module _ (b : LeaveBalance)
      (held : find_first (is_balance t request.employee_id request.leave_type_id) db.balances
        ≡ some b)
      (paid : 0 < request.paid_minutes) where
    abbrev settled : Tables
    settled = (apply_leave_outcome env actor k outcome comment db).1

    settled-balances :
        settled.balances ≡ (settle_balance env actor t request outcome comment b db).balances
    settled-balances =
        ap (λ (r : Result LeaveRequest × Tables). r.1.balances) applied
        ∙ recorded-balances env actor t outcome comment request db b (ground arith) held

    -- An approval that is the first of its request takes the paid minutes, where there are any, off
    -- the balance and off what is pending, and counts them as used; the accrued minutes and what is
    -- available stay.
    pub approval_uses_minutes :
        is_approval outcome ≡ true
        → any (is_entry t request.id LedgerType.approved_usage) db.ledger ≡ false
        → (b' : LeaveBalance) × (find_first
              (is_balance t request.employee_id request.leave_type_id)
              settled.balances
            ≡ some b')
          × (b'.balance_minutes ≡ b.balance_minutes -ℤ pos request.paid_minutes)
          × (b'.used_minutes ≡ b.used_minutes +ℤ pos request.paid_minutes)
          × (b'.pending_minutes ≡ b.pending_minutes -ℤ pos request.paid_minutes)
          × (b'.accrued_minutes ≡ b.accrued_minutes)
          × (available b' ≡ available b)
    unfolding settle_balance
    approval_uses_minutes approval new = (
      use_minutes env.now request.paid_minutes b,
      rw settled-balances (
          rw approval (
            rw new (
              find-used t request.employee_id request.leave_type_id env.now request.paid_minutes
                b.id db.balances b refl held))),
      refl,
      refl,
      refl,
      refl,
      same_available b.balance_minutes b.pending_minutes request.paid_minutes,
    )

    -- A refusal, cancellation or withdrawal that is the first of its request takes the paid
    -- minutes, where there are any, off what is pending and leaves the balance, the used and the
    -- accrued minutes, so that as much more is available.
    pub refusal_frees_minutes :
        is_approval outcome ≡ false
        → any (is_entry t request.id LedgerType.cancelled_restore) db.ledger ≡ false
        → (b' : LeaveBalance) × (find_first
              (is_balance t request.employee_id request.leave_type_id)
              settled.balances
            ≡ some b')
          × (b'.pending_minutes ≡ b.pending_minutes -ℤ pos request.paid_minutes)
          × (b'.balance_minutes ≡ b.balance_minutes)
          × (b'.used_minutes ≡ b.used_minutes)
          × (b'.accrued_minutes ≡ b.accrued_minutes)
          × (available b' ≡ available b +ℤ pos request.paid_minutes)
    unfolding settle_balance
    refusal_frees_minutes refusal new = (
      release_minutes env.now request.paid_minutes b,
      rw settled-balances (
          rw refusal (
            rw new (
              find-released t request.employee_id request.leave_type_id env.now request.paid_minutes
                b.id db.balances b refl held))),
      refl,
      refl,
      refl,
      refl,
      more_available b.balance_minutes b.pending_minutes request.paid_minutes,
    )

-- Cancelling a leave that was approved does not give back what the approval took: the balance and
-- the used minutes stay, and the pending minutes, which the approval had already cleared, fall
-- below zero.
pub cancelling_approved_leave :
    (env : Env) (actor : Actor) (t k : ℕ) (comment : Option String) (db : Tables)
    (request : LeaveRequest) (b : LeaveBalance)
    → actor.tenant_id ≡ some t
    → find_first (is_request t k) db.requests ≡ some request
    → request.status ≡ LeaveStatus.approved
    → find_first (is_balance t request.employee_id request.leave_type_id) db.balances ≡ some b
    → b.pending_minutes ≡ pos 0
    → 0 < request.paid_minutes
    → any (is_entry t request.id LedgerType.cancelled_restore) db.ledger ≡ false
    → let db' = (apply_leave_outcome env actor k ApprovalStatus.cancelled comment db).1 in
      (b' : LeaveBalance) × (find_first
          (is_balance t request.employee_id request.leave_type_id)
          db'.balances
        ≡ some b')
      × (b'.balance_minutes ≡ b.balance_minutes)
      × (b'.used_minutes ≡ b.used_minutes)
      × (b'.pending_minutes ≡ pos 0 -ℤ pos request.paid_minutes)
cancelling_approved_leave env actor t k comment db request b tenant found approved held idle paid
      new =
    let (b', kept, pending, balance, used, _, _) =
      refusal_frees_minutes env actor t k ApprovalStatus.cancelled comment db request tenant found
        (ground arith) b held paid refl new in
    (b', kept, balance, used, pending ∙ ap (λ x. x -ℤ pos request.paid_minutes) idle)
