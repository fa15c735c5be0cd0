-- ===== src/Leave/Reserved.antt =====
-- Lemmas on holding minutes (`createRequest` of apps/api-gateway/src/leave/leave.service.ts): a
-- balance, the ledger and the list of requests.
use time_sync_be.Prelude.{
  ℕ, ◌==◌, ltb, Bool, true, false, not, ◌&&◌, Option, none, some, List, [], ◌∷◌, ◌++◌, ◌≡◌, refl,
  ap, ◌∙◌, inl, inr, arith, any, find_first, update_where, ok, Bool-cases, Option-cases,
}
use time_sync_be.Prelude.Int.{ℤ, pos, ◌+ℤ◌, ◌-ℤ◌, ◌≤ℤ◌, ltb_ℤ, int_laws}
use time_sync_be.Approvals.Types.{Actor}
use time_sync_be.Leave.Types.{LedgerType, LeaveRequest, LeaveBalance, Tables, is_active}
use time_sync_be.Leave.Rules.{overlaps}
use time_sync_be.Leave.Outcome.{Env, ensure_balance, empty_balance, is_balance, request_entry}
use time_sync_be.Leave.Ledger.{Figures, post, Shows, IsExplained, posted-Fits}
use time_sync_be.Leave.Filing.{reserve_minutes, reserve}

pub minus_neg : (x : ℤ) (p : ℕ) → x +ℤ pos p ≡ x -ℤ (pos 0 -ℤ pos p)
minus_neg x p = omega int_laws

pub reserve-Shows :
    (now paid : ℕ) (b : LeaveBalance) (g : Figures)
    → Shows b g
    → Shows (reserve_minutes now paid b) (post LedgerType.requested (pos 0 -ℤ pos paid) g)
reserve-Shows now paid b g (balance, accrued, used, pending) =
    (balance, accrued, used, ap (λ x. x +ℤ pos paid) pending ∙ minus_neg g.pending paid)

pub reserve-IsExplained :
    (env : Env) (actor : Actor) (t : ℕ) (request : LeaveRequest) (balance : LeaveBalance)
    (db : Tables)
    → IsExplained db
    → IsExplained (reserve env actor t request balance db)
unfolding reserve
reserve-IsExplained env actor t request balance db h =
    elim (Bool-cases (ltb 0 request.paid_minutes)) [
      | inr unpaid ↦ rw unpaid h
      | inl paid ↦ rw paid (
          posted-Fits
            (request_entry actor request t balance.id LedgerType.requested
              (pos 0 -ℤ pos request.paid_minutes) none)
            db.ledger (reserve_minutes env.now request.paid_minutes) (λ b. refl)
            (reserve-Shows env.now request.paid_minutes) db.balances h)
    ]

-- Two active requests of one employee whose windows overlap.
abbrev pub clash : LeaveRequest → LeaveRequest → Bool
clash s r =
    is_active s.status
    && not s.is_deleted
    && overlaps s.tenant_id s.employee_id s.start_at s.end_at r

abbrev pub NoClash : List LeaveRequest → Type 0
NoClash [] = Unit
NoClash (r ∷ rows) = (any (clash r) rows ≡ false) × NoClash rows

pub clash-append :
    (t e start_at end_at : ℕ) (r s : LeaveRequest) (rows : List LeaveRequest)
    → s.tenant_id ≡ t
    → s.employee_id ≡ e
    → s.start_at ≡ start_at
    → s.end_at ≡ end_at
    → overlaps t e start_at end_at r ≡ false
    → any (clash r) rows ≡ false
    → any (clash r) (rows ++ s ∷ []) ≡ false
clash-append t e start_at end_at r s [] p q v w h clear = ground arith
clash-append t e start_at end_at r s (x ∷ rows) p q v w h clear =
    ground (arith, clash-append t e start_at end_at r s rows p q v w h)

pub NoClash-append :
    (t e start_at end_at : ℕ) (s : LeaveRequest) (rows : List LeaveRequest)
    → s.tenant_id ≡ t
    → s.employee_id ≡ e
    → s.start_at ≡ start_at
    → s.end_at ≡ end_at
    → any (overlaps t e start_at end_at) rows ≡ false
    → NoClash rows
    → NoClash (rows ++ s ∷ [])
NoClash-append t e start_at end_at s [] p q v w h clear = (refl, tt)
NoClash-append t e start_at end_at s (x ∷ rows) p q v w h clear = (
  clash-append t e start_at end_at x s rows p q v w (ground arith) clear.0,
  NoClash-append t e start_at end_at s rows p q v w (ground arith) clear.1,
)

pub ensured-requests :
    (env : Env) (t e k : ℕ) (policy : Option ℕ) (db : Tables)
    → (ensure_balance env t e k policy db).1.requests ≡ db.requests
unfolding ensure_balance
ensured-requests env t e k policy db = ground arith

pub find-last :
    (t e k : ℕ) (rows : List LeaveBalance) (b : LeaveBalance)
    → find_first (is_balance t e k) rows ≡ none
    → is_balance t e k b ≡ true
    → find_first (is_balance t e k) (rows ++ b ∷ []) ≡ some b
find-last t e k [] b h own = rw own
find-last t e k (x ∷ rows) b h own = ground (arith, find-last t e k rows b)

-- The balance that is ensured is the one that is found.
pub ensured-found :
    (env : Env) (t e k : ℕ) (policy : Option ℕ) (db : Tables) (b : LeaveBalance)
    → ensure_balance env t e k policy db ≡ (ok b, (ensure_balance env t e k policy db).1)
    → find_first (is_balance t e k) (ensure_balance env t e k policy db).1.balances ≡ some b
unfolding ensure_balance
ensured-found env t e k policy db b ran =
    elim (Option-cases (find_first (is_balance t e k) db.balances)) [
      | inr (a, h) ↦ ground arith
      | inl h ↦
          ground
            (arith, find-last t e k db.balances (empty_balance env t e k policy) h (ground arith))
    ]

pub find-reserved :
    (t e ty now paid k : ℕ) (rows : List LeaveBalance) (b : LeaveBalance)
    → b.id ≡ k
    → find_first (is_balance t e ty) rows ≡ some b
    → find_first (is_balance t e ty) (update_where (λ x. x.id == k) (reserve_minutes now paid) rows)
      ≡ some (reserve_minutes now paid b)
find-reserved t e ty now paid k [] b same h = cc
find-reserved t e ty now paid k (x ∷ rows) b same h =
    ground (arith, find-reserved t e ty now paid k rows b same)

pub reserved-requests :
    (env : Env) (actor : Actor) (t : ℕ) (request : LeaveRequest) (b : LeaveBalance) (db : Tables)
    → (reserve env actor t request b db).requests ≡ db.requests
unfolding reserve
reserved-requests env actor t request b db = ground arith

pub not_below : (x floor : ℤ) → ltb_ℤ x floor ≡ false → floor ≤ℤ x
not_below x floor h = ground arith

-- What is left above a floor once the minutes are held.
pub floor_left :
    (x y floor : ℤ) (p : ℕ) → ltb_ℤ (x -ℤ y -ℤ pos p) floor ≡ false → floor ≤ℤ x -ℤ (y +ℤ pos p)
floor_left x y floor p h = omega (int_laws, not_below (x -ℤ y -ℤ pos p) floor h)
