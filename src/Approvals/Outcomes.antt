-- ===== src/Approvals/Outcomes.antt =====
-- Proofs about `terminateRequest` of apps/api-gateway/src/workflows/approvals.service.ts: what an
-- ending does to the request, its steps and its workforce actions.
use time_sync_be.Prelude.{
  ℕ, ◌==◌, Bool, true, false, ◌&&◌, Option, none, some, List, [], ◌∷◌, String, is_key, ◌≡◌, ◌≢◌,
  refl, inl, inr, arith, find_first, select, update_where, Updated, update_where-Updated, Error, ok,
  err,
}
use time_sync_be.Approvals.Types.{
  ApprovalStatus, ActionType, WorkforceStatus, AuditAction, TimelineType, LogRow, ApprovalRequest,
  StepInstance, WorkforceAction, Actor, Tables, is_pending,
}
use time_sync_be.Approvals.Steps.{
  current_pending_step, steps_of, find_request_or_throw, set_request_terminal, is_pending_workforce,
}
use time_sync_be.Approvals.Advance.{is_request, find-key}
use time_sync_be.Approvals.Requests.{
  Env, Directory, resolve_entity_context, request_effects, write_request_effects, write_log,
  write_action,
}
use time_sync_be.Approvals.Gates.{Result-cases}
use time_sync_be.Approvals.Decisions.{
  cancel, withdraw, ending_event, Ending, ending_status, close_steps, finish,
  assert_request_pending, terminate_in_tx, terminate_request,
}

-- An entity reference that is optional is never refused.
optional_context :
    (dir : Directory) (t : ℕ) (kind : String) (k : ℕ) (db : Tables) (e : Error)
    → resolve_entity_context dir t kind k true db ≢ err e
unfolding resolve_entity_context
optional_context dir t kind k db e = λ h. ground arith

-- `finish` reads the request, and writes only to the log.
pub finish-log :
    (env : Env) (actor : Actor) (t r : ℕ) (a : AuditAction) (event : ApprovalStatus → String)
    (type : ApprovalStatus → TimelineType) (db : Tables) (request : ApprovalRequest)
    → find_first (is_request t r) db.requests ≡ some request
    → (rows : List LogRow) × (finish env actor t r a event type db
        ≡ (ok request, write_log rows db))
unfolding finish find_request_or_throw write_request_effects
finish-log env actor t r a event type db request found =
    elim (Result-cases
      (resolve_entity_context env.directory t request.entity_type request.entity_id true db)) [
        | inr (e, h) ↦
            absurd (optional_context env.directory t request.entity_type request.entity_id db e h)
        | inl (employee, h) ↦ (
          request_effects actor t request a (event request.status) (type request.status) employee,
          ground arith,
        )
      ]

-- A row that is found is found after an update that keeps its id and tenant.
pub find-decide :
    (t r : ℕ) (status : ApprovalStatus) (completion : Option ℕ) (rows : List ApprovalRequest)
    (request : ApprovalRequest)
    → find_first (is_request t r) rows ≡ some request
    → find_first (is_request t r) (
        update_where
          (λ x. x.id == r)
          (λ x. record x { status = status; completed_at = completion })
          rows)
      ≡ some (record request { status = status; completed_at = completion })
find-decide t r status completion [] request h = cc
find-decide t r status completion (x ∷ rows) request h =
    ground (arith, find-decide t r status completion rows request)

-- Once its pending steps are closed, a request has no current step.
closed-none :
    (now r : ℕ) (status : ApprovalStatus) (steps : List StepInstance)
    → is_pending status ≡ false
    → select
        (λ s. is_pending s.status)
        (steps_of r (
          update_where
            (λ s. (s.approval_request_id == r) && is_pending s.status)
            (λ s. record s { status = status; completed_at = some now })
            steps))
      ≡ []
closed-none now r status [] h = refl
closed-none now r status (s ∷ steps) h = ground (arith, closed-none now r status steps h)

not_pending : (ending : Ending) → is_pending (ending_status ending) ≡ false
not_pending cancel = refl
not_pending withdraw = refl

-- a workforce action of the request that still waits for approval
abbrev pub awaits_approval : (tenant_id request_id : ℕ) → WorkforceAction → Bool
awaits_approval t r w =
    (w.tenant_id == t) && is_key w.workflow_request_id r && is_pending_workforce w.status

module _ (env : Env) (actor : Actor) (t r : ℕ) (ending : Ending) (comment : Option String)
    (db : Tables) (request : ApprovalRequest)
    (found : find_first (is_request t r) db.requests ≡ some request)
    (pending : is_pending request.status ≡ true) where
  -- the tables before the log rows are written
  ended : Tables
  ended = set_request_terminal env.now t r (ending_status ending) WorkforceStatus.cancelled (
      write_action r none actor ActionType.cancelled comment
        (close_steps env.now r (ending_status ending) db))

  ended-found :
      find_first (is_request t r) ended.requests
      ≡ some (record request { status = ending_status ending; completed_at = some env.now })
  unfolding ended set_request_terminal close_steps
  ended-found = find-decide t r (ending_status ending) (some env.now) db.requests request found

  ended-closed : current_pending_step (steps_of r ended.steps) ≡ none
  unfolding ended set_request_terminal close_steps current_pending_step
  ended-closed = rw (closed-none env.now r (ending_status ending) db.steps (not_pending ending))

  ended-steps :
      Updated
        (λ s. (s.approval_request_id == r) && is_pending s.status)
        (λ s. record s { status = ending_status ending; completed_at = some env.now })
        db.steps
        ended.steps
  unfolding ended set_request_terminal close_steps
  ended-steps = update_where-Updated _ _ db.steps

  ended-workforce :
      Updated
        (awaits_approval t r)
        (λ w. record w { status = WorkforceStatus.cancelled; completed_at = some env.now })
        db.workforce_actions
        ended.workforce_actions
  unfolding ended set_request_terminal close_steps
  ended-workforce = update_where-Updated _ _ db.workforce_actions

  closing :
      (rows : List LogRow) × (terminate_in_tx env actor t r ending comment db ≡ (
        ok (record request { status = ending_status ending; completed_at = some env.now }),
        write_log rows ended,
      ))
  unfolding terminate_in_tx find_request_or_throw assert_request_pending ended
  closing =
      let (rows, e) =
        finish-log env actor t r AuditAction.update (ending_event ending)
          (λ _. TimelineType.workflow_rejected) ended _ ended-found in
      (rows, ground (arith, find-key env.now t r db request found, e))

  closing_run :
      actor.tenant_id ≡ some t
      → terminate_request env actor r ending comment db ≡ (
        ok (record request { status = ending_status ending; completed_at = some env.now }),
        write_log closing.0 ended,
      )
  unfolding terminate_request
  closing_run tenant = ground (arith, closing.1)

  pub ended-requests :
      actor.tenant_id ≡ some t
      → (terminate_request env actor r ending comment db).1.requests
        ≡ update_where
            (λ q. q.id == r)
            (λ q. record q { status = ending_status ending; completed_at = some env.now })
            db.requests
  unfolding ended set_request_terminal close_steps
  ended-requests tenant = rw (closing_run tenant) refl

  -- Ending a pending request of the user's tenant always succeeds: the request gets the status of
  -- the ending, and its pending steps get it too and are completed, so that none is pending any
  -- more; its workforce actions that waited for approval become cancelled and completed. The other
  -- steps and workforce actions stay as they were.
  pub ending_closes :
      actor.tenant_id ≡ some t
      → let (result, db') = terminate_request env actor r ending comment db in
        let ended = record request { status = ending_status ending; completed_at = some env.now } in
        (result ≡ ok ended)
        × (find_first (is_request t r) db'.requests ≡ some ended)
        × (current_pending_step (steps_of r db'.steps) ≡ none)
        × Updated
            (λ s. (s.approval_request_id == r) && is_pending s.status)
            (λ s. record s { status = ending_status ending; completed_at = some env.now })
            db.steps
            db'.steps
        × Updated
            (awaits_approval t r)
            (λ w. record w { status = WorkforceStatus.cancelled; completed_at = some env.now })
            db.workforce_actions
            db'.workforce_actions
  ending_closes tenant =
      rw (closing_run tenant) (refl, ended-found, ended-closed, ended-steps, ended-workforce)
