-- ===== src/Approvals/Finality.antt =====
-- Proofs about `processCurrentStep`, `terminateRequest` and `delegateCurrentStep` of
-- apps/api-gateway/src/workflows/approvals.service.ts: a request that is decided stays so, whatever
-- calls come after.
use time_sync_be.Prelude.{
  ℕ, ◌==◌, true, false, Option, some, List, [], ◌∷◌, String, ◌≡◌, ◌∙◌, inl, inr, arith, find_first,
  update_where, All, All-find_first, Bool-cases, Option-cases, ok,
}
use mathlib.Core.Path.{subst, subst⁻¹}
use time_sync_be.Approvals.Types.{ApprovalStatus, ApprovalRequest, Actor, Tables, is_pending}
use time_sync_be.Approvals.Steps.{current_pending_step, steps_of, find_request_or_throw}
use time_sync_be.Approvals.Advance.{is_request, find-key}
use time_sync_be.Approvals.Requests.{Env}
use time_sync_be.Approvals.Decisions.{
  Decision, Ending, assert_request_pending, process_current_step, terminate_in_tx,
  terminate_request, delegate_in_tx, delegate_current_step, reassign_step, validate_user_reference,
  ending_status,
}
use time_sync_be.Approvals.Gates.{decision-Admitted, refusal_writes_nothing}
use time_sync_be.Approvals.Outcomes.{ended-requests}
use time_sync_be.Approvals.Verdicts.{assert-keeps, Touches, decision-Touches}

abbrev pub Keeps : (request_id : ℕ) → ApprovalStatus → Option ℕ → ApprovalRequest → Type 0
Keeps k status completion q = q.id ≡ k → (q.status ≡ status) × (q.completed_at ≡ completion)

-- Every row under the id has the status and the time of its decision.
abbrev pub HasOutcome : (request_id : ℕ) → ApprovalStatus → Option ℕ → Tables → Type 0
HasOutcome k status completion db = All (Keeps k status completion) db.requests

module _ (env : Env) (actor : Actor) (r : ℕ) (comment : Option String) (db : Tables) where
  ending-pending :
      (ending : Ending) (t : ℕ) {a : ApprovalRequest}
      → actor.tenant_id ≡ some t
      → (terminate_request env actor r ending comment db).0 ≡ ok a
      → (request : ApprovalRequest) × (find_first (is_request t r) db.requests ≡ some request)
        × (is_pending request.status ≡ true)
  unfolding terminate_request terminate_in_tx find_request_or_throw assert_request_pending
  ending-pending ending t tenant h = elim (Option-cases (find_first (is_request t r) db.requests)) [
    | inl e ↦ absurd (ground arith)
    | inr (request, found) ↦ elim (Bool-cases (is_pending request.status)) [
      | inl pending ↦ (request, found, pending)
      | inr e ↦ absurd (ground arith)
    ]
  ]

  ending-tenant :
      (ending : Ending) {a : ApprovalRequest}
      → (terminate_request env actor r ending comment db).0 ≡ ok a
      → (t : ℕ) × (actor.tenant_id ≡ some t)
  unfolding terminate_request
  ending-tenant ending h = elim (Option-cases actor.tenant_id) [
    | inl e ↦ absurd (ground arith)
    | inr (t, e) ↦ (t, e)
  ]

  delegation-requests :
      (to_user_id : ℕ)
      → (delegate_current_step env actor r to_user_id comment db).1.requests ≡ db.requests
  unfolding delegate_current_step delegate_in_tx find_request_or_throw assert_request_pending
      reassign_step validate_user_reference
  delegation-requests to_user_id = elim (Option-cases actor.tenant_id) [
    | inl e ↦ ground arith
    | inr (t, e) ↦ elim (Option-cases (find_first (is_request t r) db.requests)) [
      | inl f ↦ ground arith
      | inr (request, f) ↦
          elim (Option-cases (current_pending_step (steps_of request.id db.steps))) [
            | inl g ↦ ground arith
            | inr (step, g) ↦ ground (arith, assert-keeps env.now actor t request step db)
          ]
    ]
  ]

-- The calls that act on a request.
pub data Call : Type 0 where
  decided : Decision → Call
  ended : Ending → Call
  handed_to : (user_id : ℕ) → Call

abbrev pub run : Env → Actor → (request_id : ℕ) → Option String → Call → Tables → Tables
run env actor r comment (decided d) db = (process_current_step env actor r d comment db).1
run env actor r comment (ended ending) db = (terminate_request env actor r ending comment db).1
run env actor r comment (handed_to u) db = (delegate_current_step env actor r u comment db).1

-- The tables after calls by any users on any requests, at any times.
pub data Reach (start : Tables) : Tables → Type 0 where
  here : Reach start start
  next :
      {db : Tables}
      → Reach start db
      → (env : Env) (actor : Actor) (r : ℕ) (comment : Option String) (call : Call)
      → Reach start (run env actor r comment call db)

module _ (k : ℕ) (status : ApprovalStatus) (completion : Option ℕ)
    (decided_status : is_pending status ≡ false) where
  untouched :
      (r now : ℕ) (other : ApprovalStatus) (rows : List ApprovalRequest)
      → (r ≡ k → ⊥)
      → All (Keeps k status completion) rows
      → All (Keeps k status completion) (
          update_where
            (λ q. q.id == r)
            (λ q. record q { status = other; completed_at = some now })
            rows)
  untouched r now other [] apart h = tt
  untouched r now other (q ∷ rows) apart h = (
    elim (Bool-cases (q.id == r)) [
      | inl hit ↦ λ same. absurd (apart (ground arith))
      | inr miss ↦ λ same. (
        (let kept = h.0 (ground arith) in ground arith),
        (let kept = h.0 (ground arith) in ground arith),
      )
    ],
    untouched r now other rows apart h.1,
  )

  -- A pending request that is found has another id.
  pending_apart :
      (t r : ℕ) (db : Tables) (request : ApprovalRequest)
      → HasOutcome k status completion db
      → find_first (is_request t r) db.requests ≡ some request
      → is_pending request.status ≡ true
      → r ≡ k
      → ⊥
  pending_apart t r db request h found pending same =
      let own = find-key 0 t r db request found in
      let kept =
        All-find_first (Keeps k status completion) (is_request t r) request db.requests h found
          (own ∙ same) in
      ground arith

  touched :
      (r : ℕ) (db : Tables) (rows : List ApprovalRequest)
      → (r ≡ k → ⊥)
      → HasOutcome k status completion db
      → Touches r db.requests rows
      → All (Keeps k status completion) rows
  touched r db rows apart h (inl same) = subst⁻¹ (All (Keeps k status completion)) same h
  touched r db rows apart h (inr (now, other, same)) =
      subst⁻¹ (All (Keeps k status completion)) same (untouched r now other db.requests apart h)

  run_keeps :
      (env : Env) (actor : Actor) (r : ℕ) (comment : Option String) (call : Call) (db : Tables)
      → HasOutcome k status completion db
      → HasOutcome k status completion (run env actor r comment call db)
  run_keeps env actor r comment (decided d) db h =
      elim (refusal_writes_nothing env actor r db d Ending.cancel 0 comment).0 [
        | inr (_, _, same) ↦ subst⁻¹ (HasOutcome k status completion) same h
        | inl (a, went) ↦
            let (request, step, t, admitted) =
              decision-Admitted env actor r db d comment {r = a} went in
            let own = find-key env.now t r db request admitted.found in
            let current =
              subst (λ x. current_pending_step (steps_of x db.steps) ≡ some step) own
                admitted.current in
            let may_act = admitted.may_act in
            touched r db _ (pending_apart t r db request h admitted.found admitted.pending) h (
              decision-Touches env actor t r comment db request step admitted.of_tenant
                admitted.found admitted.pending current may_act d)
      ]
  run_keeps env actor r comment (ended ending) db h =
      elim (refusal_writes_nothing env actor r db Decision.return ending 0 comment).1 [
        | inr (_, _, same) ↦ subst⁻¹ (HasOutcome k status completion) same h
        | inl (a, went) ↦
            let (t, tenant) = ending-tenant env actor r comment db ending {a = a} went in
            let (request, found, pending) =
              ending-pending env actor r comment db ending t {a = a} tenant went in
            touched r db _ (pending_apart t r db request h found pending) h (
              inr (
                env.now,
                ending_status ending,
                ended-requests env actor t r ending comment db request found pending tenant,
              ))
      ]
  run_keeps env actor r comment (handed_to u) db h =
      subst⁻¹ (All (Keeps k status completion)) (delegation-requests env actor r comment db u) h

-- A request that is no longer pending is decided for good: whatever decisions, endings and hand-overs
-- are called on it and on other requests, by any users and at any times, every row under its id keeps
-- the status and the time of completion that it had.
pub decided_is_final :
    (k : ℕ) (status : ApprovalStatus) (completion : Option ℕ) (start db : Tables)
    → is_pending status ≡ false
    → HasOutcome k status completion start
    → Reach start db
    → HasOutcome k status completion db
decided_is_final k status completion start db closed h here = h
decided_is_final k status completion start db closed h
      (next {db = mid} reached env actor r comment call) =
    run_keeps k status completion closed env actor r comment call mid
      (decided_is_final k status completion start mid closed h reached)
