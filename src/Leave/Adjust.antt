-- ===== src/Leave/Adjust.antt =====
-- Adjusting a balance by hand (`adjustBalance` and `assertCanOperateOnEmployee` of
-- apps/api-gateway/src/leave/leave.service.ts).
use time_sync_be.Prelude.{
  ℕ, ◌==◌, Bool, true, false, not, ◌&&◌, ◌||◌, Option, none, some, List, [], ◌∷◌, String,
  if◌then◌else◌, is_key, find_first, includes_text, Handler, forbidden, not_found, or_throw,
  throw_if, throw, modify, pure, ◌>>=◌, ◌>>◌,
}
use time_sync_be.Prelude.Int.{ℤ, pos, negsuc, ◌+ℤ◌, ◌-ℤ◌}
use time_sync_be.Approvals.Types.{Actor}
use time_sync_be.Leave.Types.{LedgerType, TimelineType, AuditAction, LeaveBalance, LogRow, Tables}
use time_sync_be.Leave.Outcome.{
  Env, require_tenant, ensure_balance, write_entry, write_balance, write_log,
}

pub record Employee : Type 0 where
  pub id : ℕ
  pub tenant_id : ℕ
  pub user_id : Option ℕ
  pub is_deleted : Bool

pub record LeaveType : Type 0 where
  pub id : ℕ
  pub tenant_id : ℕ
  pub paid : Bool
  pub requires_documentation : Bool
  pub is_deleted : Bool

-- The tables that the leave handlers only read.
pub record Directory : Type 0 where
  pub employees : List Employee
  pub types : List LeaveType

unfoldable pub self_employee : Directory → (tenant_id user_id : ℕ) → Option Employee
self_employee dir tenant_id user_id =
    find_first (λ e. (e.tenant_id == tenant_id) && is_key e.user_id user_id && not e.is_deleted)
      dir.employees

unfoldable pub require_self_employee : {S : Type 0} → Directory → Actor → Handler S Employee
require_self_employee dir actor = do
  tenant_id ← require_tenant actor
  or_throw (self_employee dir tenant_id actor.id)
      (forbidden "Your account is not linked to an employee record.")

abbrev pub is_type : (tenant_id type_id : ℕ) → LeaveType → Bool
is_type tenant_id type_id t = (t.id == type_id) && (t.tenant_id == tenant_id) && not t.is_deleted

abbrev pub may_manage : Actor → Bool
may_manage actor =
    includes_text actor.permissions "leave.team.write"
    || includes_text actor.permissions "leave.policy.write"

unfoldable pub find_type_or_throw :
    {S : Type 0} → Directory → (tenant_id type_id : ℕ) → Handler S LeaveType
find_type_or_throw dir tenant_id type_id =
    or_throw (find_first (is_type tenant_id type_id) dir.types) (not_found "Leave type not found.")

pub data Mode : Type 0 where
  self manage : Mode

abbrev is_manage : Mode → Bool
is_manage manage = true
is_manage self = false

unfoldable pub assert_can_operate_on_employee :
    {S : Type 0} → Directory → Actor → (employee_id : ℕ) → Mode → Handler S (Unit {0})
assert_can_operate_on_employee dir actor employee_id mode =
    if may_manage actor
    then pure tt
    else if is_manage mode
    then throw (forbidden "Leave management permission is required.")
    else (do
      employee ← require_self_employee dir actor
      throw_if (not (employee.id == employee_id))
          (forbidden "This employee is outside your leave scope."))

pub record Adjustment : Type 0 where
  pub employee_id : ℕ
  pub leave_type_id : ℕ
  pub policy_id : Option ℕ
  pub minutes : ℤ
  pub reason : String

-- `minutes > 0` accrues and `minutes < 0` uses; zero does neither.
abbrev pub accrue : ℤ → ℤ → ℤ
accrue (pos m) a = a +ℤ pos m
accrue (negsuc m) a = a

abbrev pub spend : ℤ → ℤ → ℤ
spend (pos m) u = u
spend (negsuc m) u = u +ℤ (pos 0 -ℤ negsuc m)

abbrev pub adjust : (now : ℕ) → Adjustment → LeaveBalance → LeaveBalance
adjust now dto b = record b {
  policy_id = elim dto.policy_id [ none ↦ b.policy_id | some p ↦ some p ];
  balance_minutes = b.balance_minutes +ℤ dto.minutes;
  accrued_minutes = accrue dto.minutes b.accrued_minutes;
  used_minutes = spend dto.minutes b.used_minutes;
  as_of_date = now;
}

abbrev pub adjustment_type : ℤ → LedgerType
adjustment_type (pos m) = LedgerType.credit_adjustment
adjustment_type (negsuc m) = LedgerType.debit_adjustment

unfoldable pub adjust_balance : Env → Directory → Actor → Adjustment → Handler Tables LeaveBalance
adjust_balance env dir actor dto = do
  tenant_id ← require_tenant actor
  assert_can_operate_on_employee dir actor dto.employee_id manage
  type ← find_type_or_throw dir tenant_id dto.leave_type_id
  balance ← ensure_balance env tenant_id dto.employee_id type.id dto.policy_id
  modify (write_balance balance.id (adjust env.now dto))
  modify (
      write_entry record {
        tenant_id = tenant_id;
        employee_id = dto.employee_id;
        leave_type_id = type.id;
        balance_id = balance.id;
        request_id = none;
        type = adjustment_type dto.minutes;
        minutes = dto.minutes;
        reason = some dto.reason;
        actor_user_id = actor.id;
      })
  modify (
      write_log (
        LogRow.audit tenant_id actor.id AuditAction.update "LeaveBalance" balance.id
        ∷ LogRow.timeline tenant_id dto.employee_id actor.id TimelineType.leave_balance_adjusted
            "Leave balance adjusted"
        ∷ LogRow.outbox tenant_id "leave.balance.adjusted" balance.id
        ∷ []))
  pure (adjust env.now dto balance)
