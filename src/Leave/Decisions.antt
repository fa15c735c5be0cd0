-- ===== src/Leave/Decisions.antt =====
-- Deciding and cancelling a leave request through the approval engine (`approveRequest`,
-- `rejectRequest`, `cancelRequest` and `findRequestForDecision` of
-- apps/api-gateway/src/leave/leave.service.ts).
use time_sync_be.Prelude.{
  ℕ, ◌==◌, Bool, true, false, not, ◌&&◌, ◌||◌, Option, none, some, String, includes_text, Handler,
  bad_request, forbidden, throw_if, pure, ◌>>=◌, ◌>>◌, if◌then◌else◌,
}
use time_sync_be.Approvals.Types as Engine
use time_sync_be.Approvals.Types.{ApprovalStatus, Actor, ApprovalRequest}
use time_sync_be.Approvals.Requests as EngineRequests
use time_sync_be.Approvals.Decisions.{
  Decision, approve, reject, process_current_step, withdraw_request,
}
use time_sync_be.Leave.Types.{LeaveStatus, LeaveRequest, Tables}
use time_sync_be.Leave.Outcome.{Env, require_tenant, find_request_or_throw, apply_leave_outcome}
use time_sync_be.Leave.Adjust.{Directory, self_employee}

-- The tables of the two services.
pub record World : Type 0 where
  pub leave : Tables
  pub engine : Engine.Tables

-- The two parts of a call's environment.
pub record Context : Type 0 where
  pub leave_env : Env
  pub engine_env : EngineRequests.Env
  pub directory : Directory

abbrev pub on_leave : {A : Type 0} → Handler Tables A → Handler World A
on_leave m w = let (r, db) = m w.leave in (r, record w { leave = db })

abbrev pub on_engine : {A : Type 0} → Handler Engine.Tables A → Handler World A
on_engine m w = let (r, db) = m w.engine in (r, record w { engine = db })

-- The two decisions on a leave request; the engine has a third.
pub data Verdict : Type 0 where
  grant refuse : Verdict

abbrev pub verdict_status : Verdict → ApprovalStatus
verdict_status grant = ApprovalStatus.approved
verdict_status refuse = ApprovalStatus.rejected

abbrev pub verdict_decision : Verdict → Decision
verdict_decision grant = approve
verdict_decision refuse = reject

abbrev pub is_undecided : LeaveStatus → Bool
is_undecided LeaveStatus.pending_approval = true
is_undecided LeaveStatus.submitted = true
is_undecided _ = false

abbrev pub may_decide : Actor → Bool
may_decide actor =
    includes_text actor.permissions "leave.approve"
    || includes_text actor.permissions "leave.team.write"

unfoldable pub find_request_for_decision : Actor → (request_id : ℕ) → Handler Tables LeaveRequest
find_request_for_decision actor request_id = do
  tenant_id ← require_tenant actor
  throw_if (not (may_decide actor)) (forbidden "Leave approval permission is required.")
  request ← find_request_or_throw tenant_id request_id
  throw_if (not (is_undecided request.status)) (bad_request "Leave request is already decided.")
  pure request

-- The common body of `approveRequest` and `rejectRequest`: without a request of the engine the
-- verdict is the outcome, and otherwise the status that the engine comes to.
unfoldable pub decide_leave :
    Context → Actor → (request_id : ℕ) → Verdict → Option String → Handler World LeaveRequest
decide_leave context actor request_id verdict comment = do
  request ← on_leave (find_request_for_decision actor request_id)
  elim request.approval_request_id [
    | none ↦
        on_leave
          (apply_leave_outcome context.leave_env actor request.id (verdict_status verdict) comment)
    | some approval_id ↦ do
      approval ← on_engine (
          process_current_step context.engine_env actor approval_id (verdict_decision verdict)
            comment)
      applied ←
          on_leave (apply_leave_outcome context.leave_env actor request.id approval.status comment)
      on_leave (find_request_or_throw request.tenant_id request.id)
  ]

-- `requireSelfEmployee(actor).catch(() => ({ id: '' }))`: without an employee record nothing is
-- one's own.
abbrev pub is_own : Directory → (tenant_id : ℕ) → Actor → LeaveRequest → Bool
is_own dir tenant_id actor request = elim (self_employee dir tenant_id actor.id) [
  | none ↦ false
  | some e ↦ request.employee_id == e.id
]

abbrev pub is_pending_approval : LeaveStatus → Bool
is_pending_approval LeaveStatus.pending_approval = true
is_pending_approval _ = false

-- Only a leave that still waits for approval has its request of the engine withdrawn.
unfoldable pub withdraw_approval :
    Context → Actor → LeaveRequest → Option String → Handler World (Unit {0})
withdraw_approval context actor request comment = elim request.approval_request_id [
  | none ↦ pure tt
  | some approval_id ↦
      if is_pending_approval request.status
      then (do
        withdrawn ← on_engine (withdraw_request context.engine_env actor approval_id comment)
        pure tt)
      else pure tt
]

unfoldable pub cancel_leave :
    Context → Actor → (request_id : ℕ) → Option String → Handler World LeaveRequest
cancel_leave context actor request_id comment = do
  tenant_id ← require_tenant actor
  request ← on_leave (find_request_or_throw tenant_id request_id)
  throw_if
      (not (is_own context.directory tenant_id actor request)
        && not (includes_text actor.permissions "leave.team.write"))
      (forbidden "Only the requester or leave manager can cancel this leave request.")
  withdraw_approval context actor request comment
  applied ←
      on_leave
        (apply_leave_outcome context.leave_env actor request.id ApprovalStatus.cancelled comment)
  on_leave (find_request_or_throw tenant_id request.id)
