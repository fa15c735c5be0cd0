-- ===== src/Workflows/MovingUp.antt =====
-- What `updateStep` of apps/api-gateway/src/workflows/workflows.service.ts does to a step that moves
-- up: `makeStepOrderRoom` leaves out the step itself and meets its order.
use time_sync_be.Prelude.{
  ℕ, ◌<◌, ◌==◌, Bool, true, false, not, ◌&&◌, ◌||◌, some, List, [], ◌∷◌, ◌≡◌, refl, ap, ◌∙◌, arith,
  any, select, find_first, update_where, ok, err, unique_violation, inl, inr, Bool-cases,
}
use time_sync_be.Prelude.Int.{ℤ, pos, ltb_ℤ, ◌+ℤ◌}
use time_sync_be.Approvals.Types.{Actor}
use time_sync_be.Workflows.Types.{Workflow, WorkflowStep, Tables, eq_ℤ}
use time_sync_be.Workflows.Orders.{
  of_workflow, set_order, takes_order, shift_steps, in_the_way, make_step_order_room, sorted,
  insert_sorted, descending,
}
use time_sync_be.Workflows.Definitions.{
  find_workflow_or_throw, is_workflow, assert_no_open_requests, is_open_request,
  validate_step_definition,
}
use time_sync_be.Workflows.Steps.{
  find_step_or_throw, make_room_for, StepPatch, patched_definition, update_step,
}

any-insert_sorted :
    (before : WorkflowStep → WorkflowStep → Bool) (p : WorkflowStep → Bool) (x : WorkflowStep)
    (ys : List WorkflowStep)
    → any p (insert_sorted before x ys) ≡ (p x || any p ys)
any-insert_sorted before p x [] = refl
any-insert_sorted before p x (y ∷ ys) = ground (arith, any-insert_sorted before p x ys)

any-sorted :
    (before : WorkflowStep → WorkflowStep → Bool) (p : WorkflowStep → Bool) (xs : List WorkflowStep)
    → any p (sorted before xs) ≡ any p xs
any-sorted before p [] = refl
any-sorted before p (x ∷ xs) =
    ground (arith, any-insert_sorted before p x (sorted before xs), any-sorted before p xs)

-- The step that moves, with its order before the move.
abbrev holds_order : (workflow_id step_id : ℕ) → ℤ → WorkflowStep → Bool
holds_order workflow_id step_id order s =
    (s.id == step_id) && of_workflow workflow_id s && eq_ℤ s.step_order order

-- A step other than the one that moves, right above it.
abbrev pub right_above : (step_id : ℕ) → ℤ → WorkflowStep → Bool
right_above step_id order s = not (s.id == step_id) && eq_ℤ (s.step_order +ℤ pos 1) order

still_holds :
    (w e k : ℕ) (order new : ℤ) (steps : List WorkflowStep)
    → (k == e) ≡ false
    → any (holds_order w e order) steps ≡ true
    → any
        (holds_order w e order)
        (update_where (λ s. s.id == k) (λ s. record s { step_order = new }) steps)
      ≡ true
still_holds w e k order new [] d h = h
still_holds w e k order new (s ∷ steps) d h = ground (arith, still_holds w e k order new steps)

order_taken :
    (w e k : ℕ) (order new : ℤ) (steps : List WorkflowStep)
    → (k == e) ≡ false
    → eq_ℤ new order ≡ true
    → any (holds_order w e order) steps ≡ true
    → any (takes_order w k new) steps ≡ true
order_taken w e k order new [] d same h = h
order_taken w e k order new (s ∷ steps) d same h = ground (arith, order_taken w e k order new steps)

shift_steps-blocked :
    (w e : ℕ) (order : ℤ) (moving : List WorkflowStep) (db : Tables)
    → any (λ s. s.id == e) moving ≡ false
    → any (right_above e order) moving ≡ true
    → any (holds_order w e order) db.steps ≡ true
    → (shift_steps w moving db).0 ≡ err unique_violation
unfolding shift_steps set_order
shift_steps-blocked w e order [] db others above h = ground arith
shift_steps-blocked w e order (s ∷ rest) db others above h =
    let new = s.step_order +ℤ pos 1 in
    elim (Bool-cases (any (takes_order w s.id new) db.steps)) [
      | inl taken ↦ ground arith
      | inr free ↦ elim (Bool-cases (eq_ℤ new order)) [
        | inl same ↦ ground (arith, order_taken w e s.id order new db.steps)
        | inr differs ↦
            let db' = record db {
              steps =
                  update_where (λ r. r.id == s.id) (λ r. record r { step_order = new }) db.steps;
            } in
            ground (
              arith,
              still_holds w e s.id order new db.steps,
              shift_steps-blocked w e order rest db',
            )
      ]
    ]

moving-excluded :
    (w e n : ℕ) (steps : List WorkflowStep)
    → any (λ s. s.id == e) (select (in_the_way w (pos n) (some e)) steps) ≡ false
moving-excluded w e n [] = refl
moving-excluded w e n (s ∷ steps) = ground (arith, moving-excluded w e n steps)

-- A step whose order is one less than an order above `n` has an order of `n` at least.
not_before :
    (n : ℕ) (order above : ℤ)
    → eq_ℤ (above +ℤ pos 1) order ≡ true
    → ltb_ℤ (pos n) order ≡ true
    → ltb_ℤ above (pos n) ≡ false
unfolding ◌+ℤ◌
not_before n order above h l = ground arith

moving-above :
    (w e n : ℕ) (order : ℤ) (steps : List WorkflowStep)
    → ltb_ℤ (pos n) order ≡ true
    → any (λ s. of_workflow w s && right_above e order s) steps ≡ true
    → any (right_above e order) (select (in_the_way w (pos n) (some e)) steps) ≡ true
moving-above w e n order [] l h = h
moving-above w e n order (s ∷ steps) l h =
    ground (arith, not_before n order s.step_order, moving-above w e n order steps)

there_with_order :
    (w e : ℕ) (steps : List WorkflowStep) (existing : WorkflowStep)
    → find_first (λ s. (s.id == e) && of_workflow w s) steps ≡ some existing
    → any (holds_order w existing.id existing.step_order) steps ≡ true
there_with_order w e [] existing h = ground arith
there_with_order w e (s ∷ steps) existing h = ground (arith, there_with_order w e steps existing)

make_step_order_room-blocked :
    (w e n : ℕ) (order : ℤ) (db : Tables)
    → any (holds_order w e order) db.steps ≡ true
    → ltb_ℤ (pos n) order ≡ true
    → any (λ s. of_workflow w s && right_above e order s) db.steps ≡ true
    → (make_step_order_room w (pos n) (some e) db).0 ≡ err unique_violation
unfolding make_step_order_room
make_step_order_room-blocked w e n order db there l above =
    let moving = select (in_the_way w (pos n) (some e)) db.steps in
    shift_steps-blocked w e order (sorted descending moving) db
      (any-sorted descending (λ s. s.id == e) moving ∙ moving-excluded w e n db.steps)
      (any-sorted descending (right_above e order) moving
        ∙ moving-above w e n order db.steps l above)
      there

make_room_for-blocked :
    (w n : ℕ) (existing : WorkflowStep) (db : Tables)
    → 0 < n
    → ltb_ℤ (pos n) existing.step_order ≡ true
    → (make_step_order_room w (pos n) (some existing.id) db).0 ≡ err unique_violation
    → (make_room_for w (some n) existing db).0 ≡ err unique_violation
unfolding make_room_for
make_room_for-blocked w n existing db z l e = ground arith

module _ (actor : Actor) (tenant_id step_id : ℕ) (workflow : Workflow) (existing : WorkflowStep)
    (dto : StepPatch) (db : Tables) (of_tenant : actor.tenant_id ≡ some tenant_id)
    (found : find_first (is_workflow tenant_id workflow.id false) db.workflows ≡ some workflow)
    (settled : any (is_open_request tenant_id workflow.id) db.requests ≡ false)
    (there : find_first (λ s. (s.id == step_id) && of_workflow workflow.id s) db.steps
      ≡ some existing)
    (valid : validate_step_definition tenant_id (patched_definition dto existing) db
      ≡ (ok tt, db)) where
  refused_without_room :
      (make_room_for workflow.id dto.step_order existing db).0 ≡ err unique_violation
      → update_step actor workflow.id step_id dto db ≡ (err unique_violation, db)
  unfolding update_step find_workflow_or_throw assert_no_open_requests find_step_or_throw
  refused_without_room e = ground arith

  -- An update of a step with a valid definition, in a workflow with no pending request, to an order
  -- `n` before its own: where another step stands right above it, the update fails on the unique index
  -- and writes nothing. The steps from `n` on make room by one place, and the last of them meets the
  -- order that the moving step still has.
  pub moving_up_is_refused :
      (n : ℕ)
      → dto.step_order ≡ some n
      → 0 < n
      → ltb_ℤ (pos n) existing.step_order ≡ true
      → any
          (λ s. of_workflow workflow.id s && right_above existing.id existing.step_order s)
          db.steps
        ≡ true
      → update_step actor workflow.id step_id dto db ≡ (err unique_violation, db)
  moving_up_is_refused n order z l above =
      let blocked =
        make_step_order_room-blocked workflow.id existing.id n existing.step_order db
          (there_with_order workflow.id step_id db.steps existing there) l above in
      refused_without_room (
        ap (λ o. (make_room_for workflow.id o existing db).0) order
        ∙ make_room_for-blocked workflow.id n existing db z l blocked)
