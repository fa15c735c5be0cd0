-- ===== src/Approvals/Advance.antt =====
-- Proofs about `advanceAutomatedSteps` of apps/api-gateway/src/workflows/approvals.service.ts: its
-- rounds, their fuel, and where the loop stops.
use time_sync_be.Prelude.{
  ℕ, zero, suc, ◌≤◌, ◌<◌, ◌==◌, Bool, true, false, not, ◌&&◌, none, some, List, [], ◌∷◌, ◌≡◌, refl,
  ap, ◌∙◌, ◌⊎◌, inl, inr, arith, any, find_first, Result, ok, Bool-cases, Option-cases,
  find_first-holds,
}
use time_sync_be.Approvals.Types.{
  ApprovalStatus, ApprovalRequest, StepInstance, WorkforceStatus, Tables, is_pending,
}
use time_sync_be.Approvals.Steps.{
  current_pending_step, steps_of, find_request_or_throw, set_request_terminal, waits_for_person,
  complete_step, pass_step, advance_rounds, pending_count, advance_automated_steps,
}
use time_sync_be.Approvals.Passing.{
  needs_nobody, waits-needs_nobody, may_pass, Passed, unchanged-Passed, complete-Passed,
  Passed-trans, passable-before, current-passable,
}

-- a pending step of the request with the id
abbrev is_open : (request_id step_id : ℕ) → StepInstance → Bool
is_open request_id step_id s =
    (s.approval_request_id == request_id) && is_pending s.status && (s.id == step_id)

current-open :
    (r : ℕ) (a : StepInstance) (steps : List StepInstance)
    → current_pending_step (steps_of r steps) ≡ some a
    → any (is_open r a.id) steps ≡ true
unfolding current_pending_step
current-open r a [] h = cc
current-open r a (x ∷ steps) h = ground (arith, current-open r a steps)

pending_count-complete_le :
    (now r k : ℕ) (steps : List StepInstance)
    → pending_count r (complete_step now ApprovalStatus.approved k steps) ≤ pending_count r steps
unfolding complete_step
pending_count-complete_le now r k [] = omega arith
pending_count-complete_le now r k (x ∷ steps) =
    ground (arith, pending_count-complete_le now r k steps)

pending_count-complete_lt :
    (now r k : ℕ) (steps : List StepInstance)
    → any (is_open r k) steps ≡ true
    → pending_count r (complete_step now ApprovalStatus.approved k steps) < pending_count r steps
unfolding complete_step
pending_count-complete_lt now r k [] h = cc
pending_count-complete_lt now r k (x ∷ steps) h =
    ground (arith, pending_count-complete_lt now r k steps, pending_count-complete_le now r k steps)

abbrev pub is_request : (tenant_id request_id : ℕ) → ApprovalRequest → Bool
is_request tenant_id request_id r = (r.id == request_id) && (r.tenant_id == tenant_id)

module _ (now tenant_id request_id : ℕ) where
  -- The last write of the loop, once no step is pending.
  abbrev pub approve : Tables → Tables
  approve =
      set_request_terminal now tenant_id request_id ApprovalStatus.approved WorkforceStatus.approved

  -- Where the loop may stop. Every step is as it was, or was approved as a pending step of the
  -- request that nobody has to act on. No step is pending and the request is approved with its
  -- workforce actions, or the least pending step waits for a person and neither table was written.
  abbrev pub Settled : Tables → Result (Unit {0}) × Tables → Type 0
  Settled db (r, db') =
      (r ≡ ok tt)
      × Passed now (may_pass request_id db.steps) db.steps db'.steps
      × (((current_pending_step (steps_of request_id db'.steps) ≡ none)
            × (db'.requests ≡ (approve db).requests)
            × (db'.workforce_actions ≡ (approve db).workforce_actions))
          ⊎ ((step : StepInstance) × (current_pending_step (steps_of request_id db'.steps)
                ≡ some step)
              × (needs_nobody step.workflow_step ≡ false)
              × (db'.requests ≡ db.requests)
              × (db'.workforce_actions ≡ db.workforce_actions)))

  pub find-key :
      (db : Tables) (request : ApprovalRequest)
      → find_first (is_request tenant_id request_id) db.requests ≡ some request
      → request.id ≡ request_id
  find-key db request h =
      ground (arith, find_first-holds (is_request tenant_id request_id) request db.requests h)

  pass_step-pending_lt :
      (db : Tables) (step : StepInstance)
      → current_pending_step (steps_of request_id db.steps) ≡ some step
      → pending_count request_id (pass_step now request_id step db).steps
        < pending_count request_id db.steps
  unfolding pass_step
  pass_step-pending_lt db step h =
      pending_count-complete_lt now request_id step.id db.steps
        (current-open request_id step db.steps h)

  module _ (fuel : ℕ) (db : Tables) (request : ApprovalRequest)
      (found : find_first (is_request tenant_id request_id) db.requests ≡ some request) where
    round_done :
        current_pending_step (steps_of request_id db.steps) ≡ none
        → advance_rounds (suc fuel) now tenant_id request_id db ≡ (ok tt, approve db)
    unfolding advance_rounds find_request_or_throw
    round_done none_left = ground (arith, find-key db request found)

    round_waits :
        (step : StepInstance)
        → current_pending_step (steps_of request_id db.steps) ≡ some step
        → waits_for_person step.workflow_step ≡ true
        → advance_rounds (suc fuel) now tenant_id request_id db ≡ (ok tt, db)
    unfolding advance_rounds find_request_or_throw
    round_waits step current waits = ground (arith, find-key db request found)

    round_passes :
        (step : StepInstance)
        → current_pending_step (steps_of request_id db.steps) ≡ some step
        → waits_for_person step.workflow_step ≡ false
        → advance_rounds (suc fuel) now tenant_id request_id db
          ≡ advance_rounds fuel now tenant_id request_id (pass_step now request_id step db)
    unfolding advance_rounds find_request_or_throw
    round_passes step current passes = ground (arith, find-key db request found)

  pass_step-Passed :
      (db : Tables) (step : StepInstance) (after : List StepInstance)
      → current_pending_step (steps_of request_id db.steps) ≡ some step
      → needs_nobody step.workflow_step ≡ true
      → let passed = (pass_step now request_id step db).steps in
        Passed now (may_pass request_id passed) passed after
        → Passed now (may_pass request_id db.steps) db.steps after
  unfolding pass_step
  pass_step-Passed db step after current passes rest =
      let may = may_pass request_id db.steps in
      let passed = (pass_step now request_id step db).steps in
      Passed-trans now may (may_pass request_id passed)
        (λ k. passable-before now request_id k step.id db.steps) db.steps passed after
        (complete-Passed now may step.id (current-passable request_id step db.steps current passes)
          db.steps)
        rest

  rounds-Settled :
      (fuel : ℕ) (db : Tables) (request : ApprovalRequest)
      → pending_count request_id db.steps < fuel
      → find_first (is_request tenant_id request_id) db.requests ≡ some request
      → Settled db (advance_rounds fuel now tenant_id request_id db)
  unfolding pass_step set_request_terminal
  rounds-Settled zero db request enough found = absurd (omega arith)
  rounds-Settled (suc fuel) db request enough found =
      let same = unchanged-Passed now (may_pass request_id db.steps) db.steps in
      elim (Option-cases (current_pending_step (steps_of request_id db.steps))) [
        | inl none_left ↦
            rw (round_done fuel db request found none_left)
              (refl, same, inl (none_left, refl, refl))
        | inr (step, current) ↦ elim (Bool-cases (needs_nobody step.workflow_step)) [
          | inr waits ↦
              rw
                (round_waits fuel db request found step current
                  (waits-needs_nobody step.workflow_step ∙ ap not waits))
                (refl, same, inr (step, current, waits, refl, refl))
          | inl passes ↦
              let rest =
                rounds-Settled fuel (pass_step now request_id step db) request
                  (omega (arith, pass_step-pending_lt db step current)) found in
              rw
                (round_passes fuel db request found step current
                  (waits-needs_nobody step.workflow_step ∙ ap not passes))
                (rest.0, pass_step-Passed db step _ current passes rest.1, rest.2)
        ]
      ]

  -- On a request that exists the loop ends, within its fuel, and it ends settled. Every row of the
  -- steps is as it was, or has the id of a pending step of the request that nobody has to act on and
  -- was approved and completed. Then no step is pending and the request is approved with its
  -- workforce actions, or the least pending step waits for a person and neither the requests nor the
  -- workforce actions were written.
  pub advance-Settled :
      (db : Tables) (request : ApprovalRequest)
      → find_first (is_request tenant_id request_id) db.requests ≡ some request
      → Settled db (advance_automated_steps now tenant_id request_id db)
  unfolding advance_automated_steps
  advance-Settled db request found =
      rounds-Settled (suc (pending_count request_id db.steps)) db request (omega arith) found
