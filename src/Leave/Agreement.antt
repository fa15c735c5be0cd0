-- ===== src/Leave/Agreement.antt =====
-- Proofs about `approveRequest`, `rejectRequest` and `cancelRequest` of
-- apps/api-gateway/src/leave/leave.service.ts: a leave request against its request of the approval
-- engine.
use time_sync_be.Prelude.{
  ℕ, true, ◌||◌, Option, some, String, ◌≡◌, refl, arith, if◌then◌else◌, find_first, is_key,
  includes_text, ok, Bool-cases, inl, inr, find_first-holds,
}
use time_sync_be.Approvals.Types as Engine
use time_sync_be.Approvals.Types.{ApprovalStatus, ApprovalRequest, Actor, is_pending}
use time_sync_be.Approvals.Advance.{find-key}
use time_sync_be.Approvals.Steps as EngineSteps
use time_sync_be.Approvals.Advance as EngineAdvance
use time_sync_be.Approvals.Decisions.{process_current_step, withdraw, withdraw_request}
use time_sync_be.Approvals.Outcomes.{ending_closes}
use time_sync_be.Leave.Types.{LeaveStatus, LeaveRequest, Tables}
use time_sync_be.Leave.Outcome.{
  is_request, leaves_alone, leave_status_for_approval, decide, apply_leave_outcome,
  find_request_or_throw,
}
use time_sync_be.Leave.Minutes.{left_alone, outcome_once}
use time_sync_be.Leave.Decisions.{
  World, Context, Verdict, verdict_decision, is_undecided, may_decide, is_own,
  find_request_for_decision, decide_leave, cancel_leave, withdraw_approval,
}

-- What the request becomes under an outcome.
abbrev pub followed : Context → Actor → ApprovalStatus → LeaveRequest → LeaveRequest
followed context actor outcome request =
    if leaves_alone outcome request.status
    then request
    else decide context.leave_env actor (leave_status_for_approval outcome) request

-- What a decision of the engine means for an undecided leave: it is approved or rejected with the
-- engine's request, cancelled or withdrawn with it, and otherwise stays as it was.
abbrev pub agreed : (now decider : ℕ) → ApprovalStatus → LeaveRequest → LeaveRequest
agreed now decider ApprovalStatus.approved r = record r {
  status = LeaveStatus.approved;
  decided_by_id = some decider;
  decided_at = some now;
}
agreed now decider ApprovalStatus.rejected r = record r {
  status = LeaveStatus.rejected;
  decided_by_id = some decider;
  decided_at = some now;
}
agreed now decider ApprovalStatus.cancelled r = record r {
  status = LeaveStatus.cancelled;
  decided_by_id = some decider;
  decided_at = some now;
  cancelled_at = some now;
}
agreed now decider ApprovalStatus.withdrawn r = record r {
  status = LeaveStatus.withdrawn;
  decided_by_id = some decider;
  decided_at = some now;
  cancelled_at = some now;
}
agreed now decider ApprovalStatus.pending r = r
agreed now decider ApprovalStatus.completed r = r

-- An undecided leave is not left alone by an outcome, and follows it as agreed.
followed-agreed :
    (context : Context) (actor : Actor) (outcome : ApprovalStatus) (request : LeaveRequest)
    → is_undecided request.status ≡ true
    → followed context actor outcome request ≡ agreed context.leave_env.now actor.id outcome request
followed-agreed context actor ApprovalStatus.approved request h = ground arith
followed-agreed context actor ApprovalStatus.rejected request h = ground arith
followed-agreed context actor ApprovalStatus.cancelled request h = ground arith
followed-agreed context actor ApprovalStatus.withdrawn request h = ground arith
followed-agreed context actor ApprovalStatus.pending request h = refl
followed-agreed context actor ApprovalStatus.completed request h = refl

module _ (context : Context) (actor : Actor) (t k : ℕ) (comment : Option String)
    (request : LeaveRequest) (tenant : actor.tenant_id ≡ some t) where
  -- Applying an outcome to the leave tables.
  applied_as :
      (outcome : ApprovalStatus) (db : Tables)
      → find_first (is_request t k) db.requests ≡ some request
      → let (result, db') = apply_leave_outcome context.leave_env actor k outcome comment db in
        (result ≡ ok (followed context actor outcome request))
        × (find_first (is_request t k) db'.requests ≡ some (followed context actor outcome request))
  applied_as outcome db found = elim (Bool-cases (leaves_alone outcome request.status)) [
    | inl alone ↦
        rw
          (
            left_alone context.leave_env actor t k outcome comment db request tenant found alone,
            alone,
          )
          (refl, found)
    | inr acts ↦
        let once =
          outcome_once context.leave_env actor t k outcome comment db request tenant found acts
            context.leave_env actor comment tenant in
        rw acts (once.0, once.1)
  ]

  module _ (w : World) (found : find_first (is_request t k) w.leave.requests ≡ some request) where
    keys : (request.id ≡ k) × (request.tenant_id ≡ t)
    keys =
        let own = find_first-holds (is_request t k) request w.leave.requests found in
        (ground arith, ground arith)

    -- An undecided leave with a request of the approval engine follows that request: when a user
    -- who may decide gives a verdict that the engine accepts, the leave is approved, rejected,
    -- cancelled or withdrawn as the engine's request now is, by that user and now, and is left as
    -- it was while that is still pending; the tables of the engine are those that it left.
    pub leave_follows_engine :
        (verdict : Verdict) (a : ℕ) (approval : ApprovalRequest) (db : Engine.Tables)
        → may_decide actor ≡ true
        → is_undecided request.status ≡ true
        → request.approval_request_id ≡ some a
        → process_current_step context.engine_env actor a
            (verdict_decision verdict)
            comment
            w.engine
          ≡ (ok approval, db)
        → let (result, w') = decide_leave context actor k verdict comment w in
          (result ≡ ok (agreed context.leave_env.now actor.id approval.status request))
          × (find_first (is_request t k) w'.leave.requests
              ≡ some (agreed context.leave_env.now actor.id approval.status request))
          × (w'.engine ≡ db)
    unfolding decide_leave find_request_for_decision find_request_or_throw
    leave_follows_engine verdict a approval db may undecided linked ran =
        let settled_now = applied_as approval.status w.leave found in
        let same = followed-agreed context actor approval.status request undecided in
        let (own_id, own_tenant) = keys in (ground arith, ground arith, ground arith)

    -- The engine's part of a cancellation: a pending request whose submitter or processor withdraws
    -- it is withdrawn.
    withdrawn_as :
        (a : ℕ) (approval : ApprovalRequest)
        → find_first (EngineAdvance.is_request t a) w.engine.requests ≡ some approval
        → is_pending approval.status ≡ true
        → (is_key approval.submitted_by_id actor.id
            || includes_text actor.permissions "approvals.process")
          ≡ true
        → let ended = record approval {
          status = ApprovalStatus.withdrawn;
          completed_at = some context.engine_env.now;
        } in
          let (result, db') = withdraw_request context.engine_env actor a comment w.engine in
          (result ≡ ok ended)
          × (find_first (EngineAdvance.is_request t a) db'.requests ≡ some ended)
    unfolding withdraw_request EngineSteps.find_request_or_throw
    withdrawn_as a approval held pending may =
        let closing =
          ending_closes context.engine_env actor t a withdraw comment w.engine approval held pending
            tenant in
        (ground arith, ground arith)

    -- Cancelling a leave that waits for approval, by its employee or a leave manager who may
    -- withdraw the pending request of the engine that it has, ends both: the engine's request is
    -- withdrawn and the leave is cancelled.
    pub cancelling_ends_both :
        (a : ℕ) (approval : ApprovalRequest)
        → (is_own context.directory t actor request
            || includes_text actor.permissions "leave.team.write")
          ≡ true
        → request.status ≡ LeaveStatus.pending_approval
        → request.approval_request_id ≡ some a
        → find_first (EngineAdvance.is_request t a) w.engine.requests ≡ some approval
        → is_pending approval.status ≡ true
        → (is_key approval.submitted_by_id actor.id
            || includes_text actor.permissions "approvals.process")
          ≡ true
        → let cancelled = decide context.leave_env actor LeaveStatus.cancelled request in
          let ended = record approval {
            status = ApprovalStatus.withdrawn;
            completed_at = some context.engine_env.now;
          } in
          let (result, w') = cancel_leave context actor k comment w in
          (result ≡ ok cancelled)
          × (find_first (is_request t k) w'.leave.requests ≡ some cancelled)
          × (find_first (EngineAdvance.is_request t a) w'.engine.requests ≡ some ended)
    unfolding cancel_leave withdraw_approval find_request_or_throw
    cancelling_ends_both a approval may waiting linked held pending may_withdraw =
        let gone = withdrawn_as a approval held pending may_withdraw in
        let settled_now = applied_as ApprovalStatus.cancelled w.leave found in
        let (own_id, own_tenant) = keys in (ground arith, ground arith, ground arith)
