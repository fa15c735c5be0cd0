-- ===== src/Workflows/Reordering.antt =====
-- What `reorderSteps` and `deleteStep` of apps/api-gateway/src/workflows/workflows.service.ts leave
-- in the table of steps.
use time_sync_be.Prelude.{
  ℕ, ◌==◌, Bool, true, false, not, ◌||◌, some, List, [], ◌∷◌, ◌≡◌, refl, ◌∙◌, arith, any, select,
  find_first, length, includes, ok, ◌&&◌,
}
use time_sync_be.Approvals.Types.{Actor}
use time_sync_be.Workflows.Types.{Workflow, WorkflowStep, Tables}
use time_sync_be.Workflows.Orders.{
  of_workflow, step_ids, sorted, insert_sorted, ascending, compact_step_orders,
}
use time_sync_be.Workflows.Definitions.{
  find_workflow_or_throw, is_workflow, assert_no_open_requests, is_open_request,
}
use time_sync_be.Workflows.Steps.{
  find_step_or_throw, delete_step, remove_step, reorder_steps, all_known,
}
use time_sync_be.Workflows.Renumbering.{InWorkflow, moved_below, Listed, renumbered, renumber_lem}

includes-insert_sorted :
    (before : WorkflowStep → WorkflowStep → Bool) (x : WorkflowStep) (ys : List WorkflowStep)
    (k : ℕ)
    → includes (step_ids (insert_sorted before x ys)) k ≡ (x.id == k || includes (step_ids ys) k)
includes-insert_sorted before x [] k = refl
includes-insert_sorted before x (y ∷ ys) k = ground (arith, includes-insert_sorted before x ys k)

includes-sorted :
    (before : WorkflowStep → WorkflowStep → Bool) (xs : List WorkflowStep) (k : ℕ)
    → includes (step_ids (sorted before xs)) k ≡ includes (step_ids xs) k
includes-sorted before [] k = refl
includes-sorted before (x ∷ xs) k =
    ground
      (arith, includes-insert_sorted before x (sorted before xs) k, includes-sorted before xs k)

-- A list of ids that holds those of the workflow's steps.
abbrev Holds : (workflow_id : ℕ) → List ℕ → List WorkflowStep → Type 0
Holds w ids steps =
    (k : ℕ) → includes (step_ids (select (of_workflow w) steps)) k ≡ true → includes ids k ≡ true

Listed-Holds :
    (w : ℕ) (ids : List ℕ) (steps : List WorkflowStep) → Holds w ids steps → Listed w ids steps
Listed-Holds w ids [] h = tt
Listed-Holds w ids (s ∷ steps) h =
    (ground (arith, h s.id), Listed-Holds w ids steps (λ k e. h k (ground arith)))

own_steps-Listed :
    (w : ℕ) (steps : List WorkflowStep)
    → Listed w (step_ids (sorted ascending (select (of_workflow w) steps))) steps
own_steps-Listed w steps =
    Listed-Holds w (step_ids (sorted ascending (select (of_workflow w) steps))) steps
      (λ k e. includes-sorted ascending (select (of_workflow w) steps) k ∙ e)

InWorkflow-select :
    (w step_id : ℕ) (steps : List WorkflowStep)
    → InWorkflow w (moved_below 0) steps
    → InWorkflow w (moved_below 0) (select (λ s. not (s.id == step_id)) steps)
InWorkflow-select w step_id [] h = tt
InWorkflow-select w step_id (s ∷ steps) h = ground (arith, InWorkflow-select w step_id steps)

module _ (actor : Actor) (tenant_id : ℕ) (workflow : Workflow) (db : Tables)
    (of_tenant : actor.tenant_id ≡ some tenant_id)
    (found : find_first (is_workflow tenant_id workflow.id false) db.workflows ≡ some workflow)
    (settled : any (is_open_request tenant_id workflow.id) db.requests ≡ false)
    (positive : InWorkflow workflow.id (moved_below 0) db.steps) where
  -- Where no request of the workflow is pending and none of its steps has an order below zero: a
  -- reordering by a list of ids that has the length of the steps, names only them and names each of
  -- them returns the workflow, and gives the step at place i of the list the order i + 1, in spite of
  -- the unique index. Steps of other workflows keep their rows.
  pub reordered_as_asked :
      (ids : List ℕ)
      → length ids ≡ length (step_ids (select (of_workflow workflow.id) db.steps))
      → all_known (step_ids (select (of_workflow workflow.id) db.steps)) ids ≡ true
      → Listed workflow.id ids db.steps
      → ((reorder_steps actor workflow.id ids db).0 ≡ ok workflow)
        × ((reorder_steps actor workflow.id ids db).1.steps ≡ renumbered ids db.steps)
  unfolding reorder_steps find_workflow_or_throw assert_no_open_requests
  reordered_as_asked ids same known listed =
      ground (arith, renumber_lem workflow.id ids db positive listed)

  -- Where no request of the workflow is pending and none of its steps has an order below zero: the
  -- deletion of a step returns, removes that row, and gives the steps that are left the orders 1, 2, …
  -- in the order that they had. Steps of other workflows keep their rows.
  pub gap_closed :
      (step_id : ℕ) (existing : WorkflowStep)
      → find_first (λ s. (s.id == step_id) && of_workflow workflow.id s) db.steps ≡ some existing
      → ((delete_step actor workflow.id step_id db).0 ≡ ok tt)
        × ((delete_step actor workflow.id step_id db).1.steps
            ≡ renumbered
                (step_ids (
                  sorted ascending
                    (select (of_workflow workflow.id) (remove_step existing.id db).steps)))
                (remove_step existing.id db).steps)
  unfolding delete_step find_workflow_or_throw assert_no_open_requests find_step_or_throw
      compact_step_orders
  gap_closed step_id existing here =
      let rest = remove_step existing.id db in
      let own = step_ids (sorted ascending (select (of_workflow workflow.id) rest.steps)) in
      let e =
        renumber_lem workflow.id own rest
          (InWorkflow-select workflow.id existing.id db.steps positive)
          (own_steps-Listed workflow.id rest.steps) in
      ground (arith, e)
