-- ===== src/Leave/Examples.antt =====
-- The theorems about leave, each applied to a small set of tables.
use time_sync_be.Prelude.{
  ℕ, Option, none, some, [], ◌∷◌, ◌≡◌, refl, arith, find_first, true, false, ok, trim, lower_is,
  includes_text,
}
use time_sync_be.Prelude.Int.{ℤ, pos, negsuc, ◌+ℤ◌, ◌-ℤ◌, ◌≤ℤ◌}
use time_sync_be.Approvals.Types.{ApprovalStatus, Actor}
use time_sync_be.Approvals.Types as Engine
use time_sync_be.Approvals.Advance as EngineAdvance
use time_sync_be.Approvals.Steps as EngineSteps
use time_sync_be.Approvals.Requests as EngineRequests
use time_sync_be.Approvals.Assignment.{assert_actor_can_act_on_step}
use time_sync_be.Approvals.Decisions.{
  approve, process_current_step, decide_in_tx, assert_request_pending, apply_decision, finish,
}
use time_sync_be.Leave.Types.{
  LeaveStatus, LedgerType, LeaveRequest, LeaveBalance, LedgerEntry, Tables,
}
use time_sync_be.Leave.Rules.{available}
use time_sync_be.Leave.Outcome.{
  Env, ensure_balance, is_balance, is_request, decide, apply_leave_outcome,
}
use time_sync_be.Leave.Adjust.{Directory, self_employee, Adjustment, adjust_balance}
use time_sync_be.Leave.Ledger.{IsExplained}
use time_sync_be.Leave.Explained.{outcome-IsExplained, adjustment-IsExplained}
use time_sync_be.Leave.Rules.{
  LeavePolicy, validate_request_window, assert_no_overlap, assert_balance_available,
}
use time_sync_be.Leave.Filing.{Filing, request_of, reserve_minutes, file_request}
use time_sync_be.Leave.Reserved.{NoClash}
use time_sync_be.Leave.Booked.{filing-IsExplained, filing-NoClash, filing_keeps_floor}
use time_sync_be.Leave.Decisions.{World, Context, grant, decide_leave, cancel_leave}
use time_sync_be.Leave.Agreement.{agreed, leave_follows_engine, cancelling_ends_both}
use time_sync_be.Leave.Minutes.{
  outcome_once, approval_uses_minutes, refusal_frees_minutes, cancelling_approved_leave,
}

abbrev manager : Actor
manager = record { id = 7; tenant_id = some 1; permissions = "leave.team.write" ∷ [] }

abbrev env : Env
env = record { now = 100; new_balance_id = 90 }

abbrev asked : LeaveRequest
asked = record {
  id = 10;
  tenant_id = 1;
  employee_id = 3;
  leave_type_id = 4;
  policy_id = none;
  calendar_id = none;
  approval_request_id = none;
  status = LeaveStatus.pending_approval;
  start_at = 500;
  end_at = 900;
  requested_minutes = 60;
  business_minutes = 60;
  paid_minutes = 60;
  unpaid_minutes = 0;
  reason = "Rest";
  submitted_by_id = some 9;
  decided_by_id = none;
  decided_at = none;
  cancelled_at = none;
  is_deleted = false;
}

abbrev balance : LeaveBalance
balance = record {
  id = 20;
  tenant_id = 1;
  employee_id = 3;
  leave_type_id = 4;
  policy_id = none;
  balance_minutes = pos 480;
  accrued_minutes = pos 480;
  used_minutes = pos 0;
  pending_minutes = pos 60;
  as_of_date = 50;
}

abbrev entry : Option ℕ → LedgerType → ℤ → LedgerEntry
entry request_id type minutes = record {
  tenant_id = 1;
  employee_id = 3;
  leave_type_id = 4;
  balance_id = 20;
  request_id = request_id;
  type = type;
  minutes = minutes;
  reason = none;
  actor_user_id = 7;
}

abbrev tables : Tables
tables = record {
  requests = asked ∷ [];
  balances = balance ∷ [];
  ledger =
      entry (some 10) LedgerType.requested (negsuc 59)
      ∷ entry none LedgerType.credit_adjustment (pos 480)
      ∷ [];
  log = [];
}

tables-IsExplained : IsExplained tables
unfolding ◌+ℤ◌ ◌-ℤ◌
tables-IsExplained = ((refl, refl, refl, refl), tt)

outcome-IsExplained_example :
    IsExplained (apply_leave_outcome env manager 10 ApprovalStatus.approved none tables).1
outcome-IsExplained_example =
    outcome-IsExplained env manager ApprovalStatus.approved none tables refl tables-IsExplained 10

abbrev dir : Directory
dir = record {
  employees = [];
  types =
      record {
        id = 4;
        tenant_id = 1;
        paid = true;
        requires_documentation = false;
        is_deleted = false;
      }
      ∷ [];
}

abbrev correction : Adjustment
correction = record {
  employee_id = 3;
  leave_type_id = 4;
  policy_id = none;
  minutes = negsuc 29;
  reason = "Correction";
}

adjustment-IsExplained_example : IsExplained (adjust_balance env dir manager correction tables).1
adjustment-IsExplained_example =
    adjustment-IsExplained env dir manager correction tables refl tables-IsExplained

outcome_once_example :
    let (result, db') = apply_leave_outcome env manager 10 ApprovalStatus.approved none tables in
    let decided = decide env manager LeaveStatus.approved asked in
    (result ≡ ok decided)
    × (find_first (is_request 1 10) db'.requests ≡ some decided)
    × (apply_leave_outcome (record env { now = 200 }) manager 10 ApprovalStatus.approved none db'
        ≡ (ok decided, db'))
outcome_once_example =
    outcome_once env manager 1 10 ApprovalStatus.approved none tables asked refl refl refl
      (record env { now = 200 }) manager none refl

approval_uses_minutes_example :
    (b' : LeaveBalance) × (find_first
        (is_balance 1 3 4)
        (apply_leave_outcome env manager 10 ApprovalStatus.approved none tables).1.balances
      ≡ some b')
    × (b'.balance_minutes ≡ balance.balance_minutes -ℤ pos 60)
    × (b'.used_minutes ≡ balance.used_minutes +ℤ pos 60)
    × (b'.pending_minutes ≡ balance.pending_minutes -ℤ pos 60)
    × (b'.accrued_minutes ≡ balance.accrued_minutes)
    × (available b' ≡ available balance)
approval_uses_minutes_example =
    approval_uses_minutes env manager 1 10 ApprovalStatus.approved none tables asked refl refl refl
      balance refl (omega arith) refl refl

refusal_frees_minutes_example :
    (b' : LeaveBalance) × (find_first
        (is_balance 1 3 4)
        (apply_leave_outcome env manager 10 ApprovalStatus.rejected none tables).1.balances
      ≡ some b')
    × (b'.pending_minutes ≡ balance.pending_minutes -ℤ pos 60)
    × (b'.balance_minutes ≡ balance.balance_minutes)
    × (b'.used_minutes ≡ balance.used_minutes)
    × (b'.accrued_minutes ≡ balance.accrued_minutes)
    × (available b' ≡ available balance +ℤ pos 60)
refusal_frees_minutes_example =
    refusal_frees_minutes env manager 1 10 ApprovalStatus.rejected none tables asked refl refl refl
      balance refl (omega arith) refl refl

abbrev approved_leave : LeaveRequest
approved_leave = record asked { status = LeaveStatus.approved }

abbrev settled_balance : LeaveBalance
settled_balance = record balance {
  balance_minutes = pos 420;
  used_minutes = pos 60;
  pending_minutes = pos 0;
}

abbrev approved_tables : Tables
approved_tables = record tables {
  requests = approved_leave ∷ [];
  balances = settled_balance ∷ [];
  ledger = entry (some 10) LedgerType.approved_usage (negsuc 59) ∷ tables.ledger;
}

cancelling_approved_leave_example :
    let db' =
      (apply_leave_outcome env manager 10 ApprovalStatus.cancelled none approved_tables).1 in
    (b' : LeaveBalance) × (find_first (is_balance 1 3 4) db'.balances ≡ some b')
    × (b'.balance_minutes ≡ pos 420)
    × (b'.used_minutes ≡ pos 60)
    × (b'.pending_minutes ≡ pos 0 -ℤ pos 60)
cancelling_approved_leave_example =
    cancelling_approved_leave env manager 1 10 none approved_tables approved_leave settled_balance
      refl refl refl refl refl (omega arith) refl

abbrev policy : LeavePolicy
policy = record {
  id = 5;
  allow_negative_balance = false;
  negative_balance_limit_minutes = 0;
  minimum_request_minutes = 30;
  maximum_request_minutes = some 480;
  requires_approval = true;
  workflow_code = none;
  workflow_trigger_key = none;
}

abbrev filing : Filing
filing = record {
  new_request_id = 11;
  employee_id = 3;
  leave_type = record {
    id = 4;
    tenant_id = 1;
    paid = true;
    requires_documentation = false;
    is_deleted = false;
  };
  policy = some policy;
  calendar_id = none;
  start_at = 1000;
  end_at = 2000;
  requested_minutes = 420;
  business_minutes = 420;
  reason = "Trip";
  risk_flagged = true;
  routed = true;
}

filing-IsExplained_example : IsExplained (file_request env manager 1 filing tables).1
filing-IsExplained_example = filing-IsExplained env manager 1 filing tables refl tables-IsExplained

filing-NoClash_example : NoClash (file_request env manager 1 filing tables).1.requests
filing-NoClash_example = filing-NoClash env manager 1 filing tables (refl, tt)

filing_keeps_floor_example :
    (b : LeaveBalance) × (find_first
        (is_balance 1 3 4)
        (ensure_balance env 1 3 4 (some 5) tables).1.balances
      ≡ some b)
    × (find_first (is_balance 1 3 4) (file_request env manager 1 filing tables).1.balances
        ≡ some (reserve_minutes 100 420 b))
    × (pos 0 ≤ℤ available (reserve_minutes 100 420 b))
unfolding file_request ensure_balance validate_request_window assert_no_overlap
    assert_balance_available ◌-ℤ◌
filing_keeps_floor_example =
    filing_keeps_floor env manager 1 filing tables {r = request_of manager 1 filing} refl
      (omega arith)

-- The engine's request of the leave, on one step that is the manager's.
abbrev engine_request : Engine.ApprovalRequest
engine_request = record {
  id = 70;
  tenant_id = 1;
  workflow_id = none;
  request_module = "leave";
  entity_type = "LeaveRequest";
  entity_id = 10;
  title = "Leave";
  description = none;
  status = ApprovalStatus.pending;
  submitted_by_id = some 7;
  submitted_at = some 5;
  completed_at = none;
}

abbrev engine : Engine.Tables
engine = record {
  requests = engine_request ∷ [];
  steps =
      record {
        id = 71;
        approval_request_id = 70;
        workflow_step = none;
        step_order = 1;
        name = "Manager";
        assigned_user_id = some 7;
        assigned_role_id = none;
        status = ApprovalStatus.pending;
        due_at = none;
        completed_at = none;
        created_at = 5;
        return_note = none;
      }
      ∷ [];
  actions = [];
  workforce_actions = [];
  delegations = [];
  users = [];
  roles = [];
  user_roles = [];
  workflows = [];
  log = [];
}

abbrev context : Context
context = record {
  leave_env = env;
  engine_env = record {
    now = 100;
    new_request_id = 72;
    new_step_id = λ n. n;
    directory = record {
      employee_exists = λ t k. false;
      assignment_employee = λ t k. none;
      leave_request_employee = λ t k. some 3;
      position_exists = λ t k. false;
      person_exists = λ t k. false;
      assignments = [];
    };
  };
  directory = dir;
}

abbrev linked : LeaveRequest
linked = record asked { approval_request_id = some 70 }

abbrev world : World
world = record { leave = record tables { requests = linked ∷ [] }; engine = engine }

abbrev engine_approved : Engine.ApprovalRequest
engine_approved = record engine_request {
  status = ApprovalStatus.approved;
  completed_at = some 100;
}

engine_ran : process_current_step context.engine_env manager 70 approve none engine ≡ (
  ok engine_approved,
  (process_current_step context.engine_env manager 70 approve none engine).1,
)
unfolding process_current_step decide_in_tx assert_request_pending apply_decision finish
    EngineSteps.find_request_or_throw EngineSteps.current_pending_step
    EngineSteps.advance_automated_steps EngineSteps.set_request_terminal EngineSteps.complete_step
    assert_actor_can_act_on_step EngineRequests.resolve_entity_context
    EngineRequests.write_request_effects lower_is trim
engine_ran = refl

leave_follows_engine_example :
    let engine' = (process_current_step context.engine_env manager 70 approve none engine).1 in
    let (result, w') = decide_leave context manager 10 grant none world in
    (result ≡ ok (agreed 100 7 ApprovalStatus.approved linked))
    × (find_first (is_request 1 10) w'.leave.requests
        ≡ some (agreed 100 7 ApprovalStatus.approved linked))
    × (w'.engine ≡ engine')
unfolding includes_text
leave_follows_engine_example =
    leave_follows_engine context manager 1 10 none linked refl world refl grant 70 engine_approved
      (process_current_step context.engine_env manager 70 approve none engine).1 refl refl refl
      engine_ran

cancelling_ends_both_example :
    let cancelled = decide env manager LeaveStatus.cancelled linked in
    let ended = record engine_request {
      status = ApprovalStatus.withdrawn;
      completed_at = some 100;
    } in
    let (result, w') = cancel_leave context manager 10 none world in
    (result ≡ ok cancelled)
    × (find_first (is_request 1 10) w'.leave.requests ≡ some cancelled)
    × (find_first (EngineAdvance.is_request 1 70) w'.engine.requests ≡ some ended)
unfolding includes_text self_employee
cancelling_ends_both_example =
    cancelling_ends_both context manager 1 10 none linked refl world refl 70 engine_request refl
      refl refl refl refl refl
