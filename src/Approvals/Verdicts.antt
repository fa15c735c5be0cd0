-- ===== src/Approvals/Verdicts.antt =====
-- Proofs about `processCurrentStep` of apps/api-gateway/src/workflows/approvals.service.ts: where
-- each of the three decisions leads.
use time_sync_be.Prelude.{
  update_where, ℕ, true, false, Option, none, some, List, String, ◌≡◌, refl, ap, ◌∙◌, ◌⊎◌, inl, inr,
  arith, find_first, Result, ok, ◌>>=◌, ◌==◌, ◌||◌, Bool, All, Updated, update_where-Updated,
}
use time_sync_be.Approvals.Types.{
  ApprovalStatus, WorkforceStatus, LogRow, ApprovalRequest, StepInstance, ReturnNote, Actor, Tables,
  is_pending,
}
use time_sync_be.Approvals.Steps.{
  current_pending_step, steps_of, find_request_or_throw, set_request_terminal,
  advance_automated_steps, complete_step,
}
use time_sync_be.Approvals.Passing.{
  needs_nobody, may_pass, Passed, Passed-trans, complete-Passed, passable-before, IsDone,
  complete-IsDone, Passed-IsDone,
}
use time_sync_be.Approvals.Advance.{is_request, find-key, Settled, advance-Settled}
use time_sync_be.Approvals.Assignment.{assert_actor_can_act_on_step}
use time_sync_be.Approvals.Access.{CanAct, passes-iff-CanAct}
use time_sync_be.Approvals.Requests.{Env, write_log, write_action}
use time_sync_be.Approvals.Decisions.{
  Decision, approve, reject, return, action_of, audit_of, outbox_event_for_action,
  decision_timeline, complete_current, note_return, finish, assert_request_pending, apply_decision,
  decide_in_tx, process_current_step,
}
use time_sync_be.Approvals.Outcomes.{finish-log, find-decide}

pub assert-keeps :
    (now : ℕ) (actor : Actor) (t : ℕ) (request : ApprovalRequest) (step : StepInstance)
    (db : Tables)
    → (assert_actor_can_act_on_step now actor t request step db).1 ≡ db
unfolding assert_actor_can_act_on_step
assert-keeps now actor t request step db = ground arith

-- The requests after at most one write of a final status to those with the id.
abbrev pub Touches : (request_id : ℕ) → (before after : List ApprovalRequest) → Type 0
Touches r before after =
    (after ≡ before)
    ⊎ ((now : ℕ) × (status : ApprovalStatus) × (after
          ≡ update_where (λ q. q.id == r)
              (λ q. record q { status = status; completed_at = some now }) before))

module _ (env : Env) (actor : Actor) (t r : ℕ) (comment : Option String) (db : Tables)
    (request : ApprovalRequest) (step : StepInstance) (tenant : actor.tenant_id ≡ some t)
    (found : find_first (is_request t r) db.requests ≡ some request)
    (pending : is_pending request.status ≡ true)
    (current : current_pending_step (steps_of r db.steps) ≡ some step)
    (may_act : CanAct env.now actor t request.request_module db step) where
  -- the tables once the action is recorded
  recorded : Decision → Tables
  recorded d = write_action r (some step.id) actor (action_of d) comment db

  decided :
      (d : Decision)
      → decide_in_tx env actor t r d comment db
        ≡ (apply_decision d env.now actor.id comment t r step >>= λ _.
              finish env actor t r (audit_of d) (outbox_event_for_action d) decision_timeline)
            (recorded d)
  unfolding decide_in_tx find_request_or_throw assert_request_pending recorded
  decided d = ground (
    arith,
    find-key env.now t r db request found,
    assert-keeps env.now actor t request step db,
    (passes-iff-CanAct env.now actor t request step db).1 may_act,
  )

  after_decision :
      (d : Decision) (mid : Tables) (request' : ApprovalRequest)
      → apply_decision d env.now actor.id comment t r step (recorded d) ≡ (ok tt, mid)
      → find_first (is_request t r) mid.requests ≡ some request'
      → (rows : List LogRow) × (process_current_step env actor r d comment db
          ≡ (ok request', write_log rows mid))
  unfolding process_current_step
  after_decision d mid request' applied kept =
      let (rows, e) =
        finish-log env actor t r (audit_of d) (outbox_event_for_action d) decision_timeline mid
          request' kept in
      (rows, ground (arith, decided d, e))

  pub return_keeps :
      let (result, db') = process_current_step env actor r return comment db in
      let note : ReturnNote = record {
        returned_by_id = actor.id;
        returned_at = env.now;
        return_comment = comment;
      } in
      (result ≡ ok request)
      × (db'.requests ≡ db.requests)
      × Updated
          (λ s. s.id == step.id)
          (λ s. record s { return_note = some note })
          db.steps
          db'.steps
  unfolding recorded apply_decision note_return
  return_keeps =
      let note : ReturnNote = record {
        returned_by_id = actor.id;
        returned_at = env.now;
        return_comment = comment;
      } in
      rw (after_decision return (note_return step.id note (recorded return)) request refl found).1
        (refl, refl, update_where-Updated _ _ db.steps)

  -- A rejection of a pending request, by a user who may act on its current step, gives that step
  -- the status rejected and completes it, and does the same to the request; the other steps stay as
  -- they were.
  pub rejection_ends :
      let (result, db') = process_current_step env actor r reject comment db in
      let ended = record request {
        status = ApprovalStatus.rejected;
        completed_at = some env.now;
      } in
      (result ≡ ok ended)
      × (find_first (is_request t r) db'.requests ≡ some ended)
      × Updated
          (λ s. s.id == step.id)
          (λ s. record s { status = ApprovalStatus.rejected; completed_at = some env.now })
          db.steps
          db'.steps
  unfolding recorded apply_decision set_request_terminal complete_step
  rejection_ends =
      let kept = find-decide t r ApprovalStatus.rejected (some env.now) db.requests request found in
      rw
        (after_decision reject
          (set_request_terminal env.now t r ApprovalStatus.rejected WorkforceStatus.rejected
            (complete_current env.now ApprovalStatus.rejected step (recorded reject)))
          _ refl kept).1
        (refl, kept, update_where-Updated _ _ db.steps)

  -- the tables once the step is completed
  approved_step : Tables
  approved_step = complete_current env.now ApprovalStatus.approved step (recorded approve)

  approval-Touches :
      (mid : Tables)
      → advance_automated_steps env.now t r approved_step ≡ (ok tt, mid)
      → Settled env.now t r approved_step (ok tt, mid)
      → Touches r db.requests (process_current_step env actor r approve comment db).1.requests
  unfolding approved_step recorded apply_decision set_request_terminal
  approval-Touches mid ran (_, passed, inl (none_left, requests, _)) =
      let kept = find-decide t r ApprovalStatus.approved (some env.now) db.requests request found in
      rw (after_decision approve mid _ ran (ap (find_first (is_request t r)) requests ∙ kept)).1
        (inr (env.now, ApprovalStatus.approved, requests))
  approval-Touches mid ran (_, passed, inr (next, least, waits, requests, _)) =
      rw
        (after_decision approve mid request ran
          (ap (find_first (is_request t r)) requests ∙ found)).1
        (inl requests)

  pub decision-Touches :
      (d : Decision)
      → Touches r db.requests (process_current_step env actor r d comment db).1.requests
  unfolding recorded apply_decision set_request_terminal note_return
  decision-Touches return = inl return_keeps.1
  decision-Touches reject =
      let kept = find-decide t r ApprovalStatus.rejected (some env.now) db.requests request found in
      rw
        (after_decision reject
          (set_request_terminal env.now t r ApprovalStatus.rejected WorkforceStatus.rejected
            (complete_current env.now ApprovalStatus.rejected step (recorded reject)))
          _ refl kept).1
        (inr (env.now, ApprovalStatus.rejected, refl))
  decision-Touches approve =
      let settled =
        advance-Settled env.now t r approved_step request
          (unfold approved_step recorded in found) in
      approval-Touches (advance_automated_steps env.now t r approved_step).1
        (λ i. (settled.0 i, (advance_automated_steps env.now t r approved_step).1))
        (refl, settled.1, settled.2)

  -- the steps that an approval may complete
  abbrev may_complete : ℕ → Bool
  may_complete k = (k == step.id) || may_pass r db.steps k

  -- What an approval does to the steps.
  abbrev Completed : Tables → Type 0
  Completed db' =
      Passed env.now may_complete db.steps db'.steps × All (IsDone env.now step.id) db'.steps

  approval-Completed :
      (mid : Tables)
      → Passed env.now (may_pass r approved_step.steps) approved_step.steps mid.steps
      → Completed mid
  unfolding approved_step recorded
  approval-Completed mid passed = (
    Passed-trans env.now may_complete (may_pass r approved_step.steps)
        (λ k h. ground (arith, passable-before env.now r k step.id db.steps h)) db.steps
        approved_step.steps mid.steps
        (complete-Passed env.now may_complete step.id (ground arith) db.steps) passed,
    Passed-IsDone env.now step.id (may_pass r approved_step.steps) approved_step.steps mid.steps
        passed (complete-IsDone env.now step.id db.steps),
  )

  -- The state that an approval ends in: with no pending step the request is approved, and otherwise
  -- the least pending step waits for a person and the request is as it was.
  abbrev Verdict : Result ApprovalRequest × Tables → Type 0
  Verdict (result, db') =
      Completed db'
      × (((result
              ≡ ok (record request {
                status = ApprovalStatus.approved;
                completed_at = some env.now;
              }))
            × (current_pending_step (steps_of r db'.steps) ≡ none))
          ⊎ ((next : StepInstance) × (result ≡ ok request)
              × (current_pending_step (steps_of r db'.steps) ≡ some next)
              × (needs_nobody next.workflow_step ≡ false)
              × (db'.requests ≡ db.requests)))

  approval-Verdict :
      (mid : Tables)
      → advance_automated_steps env.now t r approved_step ≡ (ok tt, mid)
      → Settled env.now t r approved_step (ok tt, mid)
      → Verdict (process_current_step env actor r approve comment db)
  unfolding approved_step recorded apply_decision set_request_terminal
  approval-Verdict mid ran (_, passed, inl (none_left, requests, _)) =
      let kept = find-decide t r ApprovalStatus.approved (some env.now) db.requests request found in
      rw (after_decision approve mid _ ran (ap (find_first (is_request t r)) requests ∙ kept)).1
        (approval-Completed mid passed, inl (refl, none_left))
  approval-Verdict mid ran (_, passed, inr (next, least, waits, requests, _)) =
      rw
        (after_decision approve mid request ran
          (ap (find_first (is_request t r)) requests ∙ found)).1
        (approval-Completed mid passed, inr (next, refl, least, waits, requests))

  -- An approval of the current step of a pending request, by a user who may act on it, always goes
  -- through. Afterwards the approved step has the status approved and is completed; a row of
  -- another step is as it was, or has the id of a pending step of the request that nobody has to
  -- act on and was approved too. Then either the request has no pending step and is approved, or
  -- its least pending step is one that waits for a person, and the requests are as they were.
  pub approval_settles :
      let (result, db') = process_current_step env actor r approve comment db in
      Passed env.now (λ k. (k == step.id) || may_pass r db.steps k) db.steps db'.steps
      × All (IsDone env.now step.id) db'.steps
      × (((result
              ≡ ok (record request {
                status = ApprovalStatus.approved;
                completed_at = some env.now;
              }))
            × (current_pending_step (steps_of r db'.steps) ≡ none))
          ⊎ ((next : StepInstance) × (result ≡ ok request)
              × (current_pending_step (steps_of r db'.steps) ≡ some next)
              × (needs_nobody next.workflow_step ≡ false)
              × (db'.requests ≡ db.requests)))
  approval_settles =
      let settled =
        advance-Settled env.now t r approved_step request
          (unfold approved_step recorded in found) in
      let verdict =
        approval-Verdict (advance_automated_steps env.now t r approved_step).1
          (λ i. (settled.0 i, (advance_automated_steps env.now t r approved_step).1))
          (refl, settled.1, settled.2) in
      (verdict.0.0, verdict.0.1, verdict.1)
