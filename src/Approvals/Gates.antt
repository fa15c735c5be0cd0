-- ===== src/Approvals/Gates.antt =====
-- What has to hold before `processCurrentStep`, `terminateRequest` and `delegateCurrentStep` of
-- apps/api-gateway/src/workflows/approvals.service.ts write, and what a refusal leaves behind.
use time_sync_be.Prelude.{
  ℕ, true, Option, some, String, ◌≡◌, refl, ◌⊎◌, inl, inr, arith, find_first, Handler, Error,
  forbidden, Result, ok, err, transaction, transaction-err, Bool-cases, Option-cases,
}
use mathlib.Core.Path.{subst⁻¹}
use time_sync_be.Approvals.Types.{ApprovalRequest, StepInstance, Actor, Tables, is_pending}
use time_sync_be.Approvals.Steps.{current_pending_step, steps_of, find_request_or_throw}
use time_sync_be.Approvals.Advance.{is_request}
use time_sync_be.Approvals.Assignment.{assert_actor_can_act_on_step}
use time_sync_be.Approvals.Access.{CanAct, passes-iff-CanAct}
use time_sync_be.Approvals.Requests.{Env}
use time_sync_be.Approvals.Decisions.{
  Decision, Ending, assert_request_pending, decide_in_tx, process_current_step, terminate_in_tx,
  terminate_request, delegate_in_tx, delegate_current_step,
}

pub Result-cases {ℓ} :
    {A : Type ℓ} (r : Result A) → ((a : A) × (r ≡ ok a)) ⊎ ((e : Error) × (r ≡ err e))
Result-cases (ok a) = inl (a, refl)
Result-cases (err e) = inr (e, refl)

-- A handler returns, or throws and leaves the tables as they were.
abbrev pub WritesOrRefuses : {A : Type 0} → Result A × Tables → Tables → Type 0
WritesOrRefuses {A = A} (result, db') db =
    ((a : A) × (result ≡ ok a)) ⊎ ((e : Error) × (result ≡ err e) × (db' ≡ db))

transaction-WritesOrRefuses :
    {A : Type 0} (m : Handler Tables A) (db : Tables) → WritesOrRefuses (transaction m db) db
transaction-WritesOrRefuses m db = elim (Result-cases (transaction m db).0) [
  | inl (a, h) ↦ inl (a, h)
  | inr (e, h) ↦ inr (e, h, transaction-err m db h)
]

-- The request, its current step and the right to act on it.
pub record Admitted (now : ℕ) (actor : Actor) (request_id : ℕ) (db : Tables)
    (request : ApprovalRequest) (step : StepInstance) (tenant_id : ℕ) : Type 0 where
  pub of_tenant : actor.tenant_id ≡ some tenant_id
  pub found : find_first (is_request tenant_id request_id) db.requests ≡ some request
  pub pending : is_pending request.status ≡ true
  pub current : current_pending_step (steps_of request.id db.steps) ≡ some step
  pub may_act : CanAct now actor tenant_id request.request_module db step

module _ (env : Env) (actor : Actor) (request_id : ℕ) (db : Tables) where
  decide_in_tx-Admitted :
      (tenant_id : ℕ) (d : Decision) (comment : Option String) {r : ApprovalRequest}
      → actor.tenant_id ≡ some tenant_id
      → (decide_in_tx env actor tenant_id request_id d comment db).0 ≡ ok r
      → (request : ApprovalRequest) × (step : StepInstance) × Admitted env.now actor request_id db
          request step tenant_id
  unfolding decide_in_tx find_request_or_throw assert_request_pending
  decide_in_tx-Admitted tenant_id d comment t h =
      elim (Option-cases (find_first (is_request tenant_id request_id) db.requests)) [
        | inl e ↦ absurd (ground arith)
        | inr (request, found) ↦ elim (Bool-cases (is_pending request.status)) [
          | inr e ↦ absurd (ground arith)
          | inl pending ↦
              elim (Option-cases (current_pending_step (steps_of request.id db.steps))) [
                | inl e ↦ absurd (ground arith)
                | inr (step, current) ↦
                    elim (Result-cases
                      (assert_actor_can_act_on_step env.now actor tenant_id request step db).0) [
                        | inr (x, e) ↦ absurd (ground arith)
                        | inl (u, e) ↦ (
                          request,
                          step,
                          record {
                            of_tenant = t;
                            found = found;
                            pending = pending;
                            current = current;
                            may_act =
                                (passes-iff-CanAct env.now actor tenant_id request step db).0 e;
                          },
                        )
                      ]
              ]
        ]
      ]

  -- A decision that goes through was taken by a user of the tenant of the request, on its current
  -- step, which they may act on, while the request was pending.
  pub decision-Admitted :
      (d : Decision) (comment : Option String) {r : ApprovalRequest}
      → (process_current_step env actor request_id d comment db).0 ≡ ok r
      → (request : ApprovalRequest) × (step : StepInstance) × (tenant_id : ℕ) × Admitted env.now
          actor request_id db request step tenant_id
  unfolding process_current_step
  decision-Admitted d comment {r} h = elim (Option-cases actor.tenant_id) [
    | inl e ↦ absurd (ground arith)
    | inr (tenant_id, t) ↦
        let (request, step, admitted) =
          decide_in_tx-Admitted tenant_id d comment {r = r} t (ground arith) in
        (request, step, tenant_id, admitted)
  ]

  -- A decision, an ending and a hand-over each go through or leave every table as it was.
  pub refusal_writes_nothing :
      (d : Decision) (ending : Ending) (to_user_id : ℕ) (comment : Option String)
      → WritesOrRefuses (process_current_step env actor request_id d comment db) db
        × WritesOrRefuses (terminate_request env actor request_id ending comment db) db
        × WritesOrRefuses (delegate_current_step env actor request_id to_user_id comment db) db
  unfolding process_current_step terminate_request delegate_current_step
  refusal_writes_nothing d ending to_user_id comment = elim (Option-cases actor.tenant_id) [
    | inl t ↦ (
      inr (forbidden "A tenant context is required.", ground arith, ground arith),
      inr (forbidden "A tenant context is required.", ground arith, ground arith),
      inr (forbidden "A tenant context is required.", ground arith, ground arith),
    )
    | inr (tenant_id, t) ↦ (
      (let same : process_current_step env actor request_id d comment db
              ≡ transaction (decide_in_tx env actor tenant_id request_id d comment) db =
            ground arith in
          subst⁻¹ (λ r. WritesOrRefuses r db) same
            (transaction-WritesOrRefuses (decide_in_tx env actor tenant_id request_id d comment)
              db)),
      (let same : terminate_request env actor request_id ending comment db
              ≡ transaction (terminate_in_tx env actor tenant_id request_id ending comment) db =
            ground arith in
          subst⁻¹ (λ r. WritesOrRefuses r db) same
            (transaction-WritesOrRefuses
              (terminate_in_tx env actor tenant_id request_id ending comment) db)),
      (let same : delegate_current_step env actor request_id to_user_id comment db
              ≡ transaction (delegate_in_tx env actor tenant_id request_id to_user_id comment) db =
            ground arith in
          subst⁻¹ (λ r. WritesOrRefuses r db) same
            (transaction-WritesOrRefuses
              (delegate_in_tx env actor tenant_id request_id to_user_id comment) db)),
    )
  ]
