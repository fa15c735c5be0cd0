-- ===== src/Workflows/Orders.antt =====
-- The orders of the steps of a workflow (`makeStepOrderRoom`, `compactStepOrders`, `nextStepOrder`
-- and the loops of `reorderSteps` of apps/api-gateway/src/workflows/workflows.service.ts). The table
-- has a unique index on the workflow and the order of a step.
use time_sync_be.Prelude.{
  ℕ, suc, ◌+◌, ◌==◌, ltb, Bool, true, false, not, ◌&&◌, ◌||◌, Option, none, some, List, [], ◌∷◌,
  map, if◌then◌else◌, is_key, select, first_by, update_where, any, Handler, unique_violation, ok,
  err, pure, ◌>>◌,
}
use time_sync_be.Prelude.Int.{ℤ, pos, negsuc, ltb_ℤ, ◌+ℤ◌}
use time_sync_be.Workflows.Types.{WorkflowStep, Tables, eq_ℤ}

abbrev pub of_workflow : (workflow_id : ℕ) → WorkflowStep → Bool
of_workflow workflow_id s = s.workflow_id == workflow_id

-- Another step of the workflow has the order.
abbrev pub takes_order : (workflow_id step_id : ℕ) → ℤ → WorkflowStep → Bool
takes_order workflow_id step_id order s =
    of_workflow workflow_id s && not (s.id == step_id) && eq_ℤ s.step_order order

-- `workflowStep.update({ where: { id }, data: { stepOrder } })`
unfoldable pub set_order : (workflow_id step_id : ℕ) → ℤ → Handler Tables (Unit {0})
set_order workflow_id step_id order db =
    elim (any (takes_order workflow_id step_id order) db.steps) [
      | true ↦ (err unique_violation, db)
      | false ↦ (
        ok tt,
        record db {
          steps =
              update_where (λ s. s.id == step_id) (λ s. record s { step_order = order }) db.steps;
        },
      )
    ]

-- One of the two loops of a renumbering: the orders that `place` gives to 0, 1, …
unfoldable pub place_steps :
    (place : ℕ → ℤ) → (workflow_id index : ℕ) → List ℕ → Handler Tables (Unit {0})
place_steps place workflow_id index [] = pure tt
place_steps place workflow_id index (k ∷ ks) =
    set_order workflow_id k (place index) >> place_steps place workflow_id (index + 1) ks

-- `-(index + 1)`
abbrev pub out_of_the_way : ℕ → ℤ
out_of_the_way index = negsuc index

-- `index + 1`
abbrev pub in_place : ℕ → ℤ
in_place index = pos (suc index)

-- The two loops, over the ids in their new order.
unfoldable pub renumber : (workflow_id : ℕ) → List ℕ → Handler Tables (Unit {0})
renumber workflow_id ids = do
  place_steps out_of_the_way workflow_id 0 ids
  place_steps in_place workflow_id 0 ids

-- `findMany` with an `orderBy`: insertion into the sorted rows.
abbrev pub insert_sorted :
    (WorkflowStep → WorkflowStep → Bool) → WorkflowStep → List WorkflowStep → List WorkflowStep
insert_sorted before x [] = x ∷ []
insert_sorted before x (y ∷ ys) =
    let rest = insert_sorted before x ys in if before y x then y ∷ rest else x ∷ y ∷ ys

abbrev pub sorted : (WorkflowStep → WorkflowStep → Bool) → List WorkflowStep → List WorkflowStep
sorted before [] = []
sorted before (x ∷ xs) = insert_sorted before x (sorted before xs)

-- `orderBy: [{ stepOrder: 'asc' }, { createdAt: 'asc' }]`
abbrev pub ascending : WorkflowStep → WorkflowStep → Bool
ascending a b =
    ltb_ℤ a.step_order b.step_order
    || (eq_ℤ a.step_order b.step_order && ltb a.created_at b.created_at)

-- `orderBy: [{ stepOrder: 'desc' }]`
abbrev pub descending : WorkflowStep → WorkflowStep → Bool
descending a b = ltb_ℤ b.step_order a.step_order

abbrev pub step_ids : List WorkflowStep → List ℕ
step_ids = map (λ (s : WorkflowStep). s.id)

unfoldable pub compact_step_orders : (workflow_id : ℕ) → Handler Tables (Unit {0})
unfolding renumber
compact_step_orders workflow_id db =
    renumber workflow_id (step_ids (sorted ascending (select (of_workflow workflow_id) db.steps)))
      db

-- The loop over the steps to move, each with the order that it was read with.
unfoldable pub shift_steps : (workflow_id : ℕ) → List WorkflowStep → Handler Tables (Unit {0})
shift_steps workflow_id [] = pure tt
shift_steps workflow_id (s ∷ rest) =
    set_order workflow_id s.id (s.step_order +ℤ pos 1) >> shift_steps workflow_id rest

abbrev pub in_the_way : (workflow_id : ℕ) → ℤ → Option ℕ → WorkflowStep → Bool
in_the_way workflow_id order excluded s =
    of_workflow workflow_id s && not (is_key excluded s.id) && not (ltb_ℤ s.step_order order)

unfoldable pub make_step_order_room : (workflow_id : ℕ) → ℤ → Option ℕ → Handler Tables (Unit {0})
unfolding shift_steps
make_step_order_room workflow_id order excluded db =
    shift_steps workflow_id
      (sorted descending (select (in_the_way workflow_id order excluded) db.steps)) db

unfoldable pub next_step_order : (workflow_id : ℕ) → List WorkflowStep → ℤ
next_step_order workflow_id steps =
    elim (first_by descending (select (of_workflow workflow_id) steps)) [
      | none ↦ pos 1
      | some last ↦ last.step_order +ℤ pos 1
    ]
