-- ===== src/Leave/Rules.antt =====
-- The rules that a new leave request is held to (`assertBalanceAvailable`, `validateRequestWindow`,
-- `assertNoOverlap`, `overlapMinutes` and `diffMinutes` of
-- apps/api-gateway/src/leave/leave.service.ts). Times are in milliseconds.
use time_sync_be.Prelude.{
  ℕ, ◌+◌, ◌-◌, ◌/◌, max, min, ◌==◌, ltb, leb, Bool, false, not, ◌&&◌, Option, none, some, List,
  String, if◌then◌else◌, any, Result, ok, err, bad_request,
}
use time_sync_be.Prelude.Int.{ℤ, pos, ◌-ℤ◌, ltb_ℤ}
use time_sync_be.Leave.Types.{LeaveRequest, LeaveBalance, is_active}

-- `Math.round(ms / 60000)`, for a span that is not negative.
abbrev pub round_minutes : ℕ → ℕ
round_minutes ms = (ms + 30000) / 60000

-- An end before the start gives a negative span, which rounds to less than 1.
unfoldable pub diff_minutes : (start_at end_at : ℕ) → ℕ
diff_minutes start_at end_at = max 1 (round_minutes (end_at - start_at))

unfoldable pub overlap_minutes : (left_start left_end right_start right_end : ℕ) → ℕ
overlap_minutes left_start left_end right_start right_end =
    let starts_at = max left_start right_start in
    let ends_at = min left_end right_end in
    if leb ends_at starts_at then 0 else round_minutes (ends_at - starts_at)

pub record LeavePolicy : Type 0 where
  pub id : ℕ
  pub allow_negative_balance : Bool
  pub negative_balance_limit_minutes : ℕ
  pub minimum_request_minutes : ℕ
  pub maximum_request_minutes : Option ℕ
  pub requires_approval : Bool
  pub workflow_code : Option String
  pub workflow_trigger_key : Option String

-- The lowest that the available minutes may fall to.
abbrev pub balance_floor : Option LeavePolicy → ℤ
balance_floor none = pos 0
balance_floor (some p) =
    if p.allow_negative_balance then pos 0 -ℤ pos p.negative_balance_limit_minutes else pos 0

abbrev pub available : LeaveBalance → ℤ
available b = b.balance_minutes -ℤ b.pending_minutes

unfoldable pub assert_balance_available :
    LeaveBalance → Option LeavePolicy → (minutes : ℕ) → Result (Unit {0})
assert_balance_available balance policy minutes =
    if ltb_ℤ (available balance -ℤ pos minutes) (balance_floor policy)
    then err (bad_request "Insufficient leave balance for this request.")
    else ok tt

abbrev pub minimum_minutes : Option LeavePolicy → ℕ
minimum_minutes none = 1
minimum_minutes (some p) = p.minimum_request_minutes

-- `policy?.maximumRequestMinutes && requestedMinutes > policy.maximumRequestMinutes`: a maximum of
-- zero is none.
abbrev pub above_maximum : Option LeavePolicy → ℕ → Bool
above_maximum none minutes = false
above_maximum (some p) minutes = elim p.maximum_request_minutes [
  | none ↦ false
  | some m ↦ not (m == 0) && ltb m minutes
]

unfoldable pub validate_request_window :
    (start_at end_at requested_minutes : ℕ) → Option LeavePolicy → Result (Unit {0})
validate_request_window start_at end_at requested_minutes policy =
    if leb end_at start_at
    then err (bad_request "Leave end must be after start.")
    else if ltb requested_minutes (minimum_minutes policy)
    then err (bad_request "Leave request is shorter than the policy minimum.")
    else if above_maximum policy requested_minutes
    then err (bad_request "Leave request exceeds the policy maximum.")
    else ok tt

-- An active request of the employee in the window `[start_at, end_at)`.
abbrev pub overlaps : (tenant_id employee_id start_at end_at : ℕ) → LeaveRequest → Bool
overlaps tenant_id employee_id start_at end_at r =
    (r.tenant_id == tenant_id)
    && (r.employee_id == employee_id)
    && is_active r.status
    && ltb r.start_at end_at
    && ltb start_at r.end_at
    && not r.is_deleted

unfoldable pub assert_no_overlap :
    (tenant_id employee_id start_at end_at : ℕ) → List LeaveRequest → Result (Unit {0})
assert_no_overlap tenant_id employee_id start_at end_at requests =
    if any (overlaps tenant_id employee_id start_at end_at) requests
    then err (bad_request "Another active leave request overlaps this date range.")
    else ok tt
