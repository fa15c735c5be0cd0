-- ===== src/Approvals/Tasks.antt =====
-- The task list (`listTasks`, `filterCurrentSteps` and `paginate` of
-- apps/api-gateway/src/workflows/approvals.service.ts): the pending steps of pending requests, and
-- of each request only those of the least order.
use time_sync_be.Prelude.{
  ℕ, ◌+◌, ◌*◌, ◌==◌, ltb, min, Bool, true, false, ◌&&◌, Option, none, some, List, [], ◌∷◌, String,
  str_eq, if◌then◌else◌, or_default, select, find_first, take, length,
}
use time_sync_be.Approvals.Types.{ApprovalStatus, StepInstance, Actor, Tables, is_pending}
use time_sync_be.Approvals.Assignment.{assignment_where_for_actor}

-- The `Map` from a request to the least order among its pending steps seen so far.
abbrev pub lookup : ℕ → List (ℕ × ℕ) → Option ℕ
lookup k [] = none
lookup k ((j, v) ∷ m) = let rest = lookup k m in if j == k then some v else rest

abbrev pub insert : ℕ → ℕ → List (ℕ × ℕ) → List (ℕ × ℕ)
insert k v [] = (k, v) ∷ []
insert k v ((j, w) ∷ m) = if j == k then (k, v) ∷ m else (j, w) ∷ insert k v m

-- `current === undefined || step.stepOrder < current`
abbrev pub lower : ℕ → Option ℕ → Bool
lower order none = true
lower order (some v) = ltb order v

abbrev pub note_step : StepInstance → List (ℕ × ℕ) → List (ℕ × ℕ)
note_step s m =
    if is_pending s.status && lower s.step_order (lookup s.approval_request_id m)
    then insert s.approval_request_id s.step_order m
    else m

unfoldable pub min_by_request : List StepInstance → List (ℕ × ℕ) → List (ℕ × ℕ)
min_by_request [] m = m
min_by_request (s ∷ steps) m = min_by_request steps (note_step s m)

abbrev pub is_least : List (ℕ × ℕ) → StepInstance → Bool
is_least m s = elim (lookup s.approval_request_id m) [ none ↦ false | some v ↦ v == s.step_order ]

unfoldable pub filter_current_steps : List StepInstance → List StepInstance
unfolding min_by_request
filter_current_steps steps = select (is_least (min_by_request steps [])) steps

pub record TaskQuery : Type 0 where
  pub status : Option ApprovalStatus
  pub request_module : Option String
  pub assigned_to_me : Bool
  pub current_only : Bool
  pub limit : Option ℕ

pub record Page : Type 0 where
  pub items : List StepInstance
  pub next_cursor : Option ℕ

abbrev last_id : List StepInstance → Option ℕ
last_id [] = none
last_id (s ∷ []) = some s.id
last_id (s ∷ t ∷ rest) = last_id (t ∷ rest)

unfoldable pub paginate : List StepInstance → (limit : ℕ) → Page
paginate items limit =
    if ltb limit (length items)
    then record { items = take limit items; next_cursor = last_id (take limit items) }
    else record { items = items; next_cursor = none }

abbrev same_status : ApprovalStatus → ApprovalStatus → Bool
same_status ApprovalStatus.pending ApprovalStatus.pending = true
same_status ApprovalStatus.approved ApprovalStatus.approved = true
same_status ApprovalStatus.rejected ApprovalStatus.rejected = true
same_status ApprovalStatus.cancelled ApprovalStatus.cancelled = true
same_status ApprovalStatus.withdrawn ApprovalStatus.withdrawn = true
same_status ApprovalStatus.completed ApprovalStatus.completed = true
same_status _ _ = false

-- The request of a step is pending, of the tenant, and of the module that is asked for.
abbrev in_pending_request : (tenant_id : ℕ) → Option String → Tables → StepInstance → Bool
in_pending_request tenant_id m db s =
    elim (find_first (λ r. r.id == s.approval_request_id) db.requests) [
      | none ↦ false
      | some r ↦
          (r.tenant_id == tenant_id)
          && is_pending r.status
          && elim m [ none ↦ true | some x ↦ str_eq r.request_module x ]
    ]

-- `where`, for a list that starts at the first row (no cursor). The assignment filter is spread
-- over the rest, so its own `status` replaces the one that is asked for.
unfoldable pub task_where :
    (now : ℕ) → Actor → (tenant_id : ℕ) → TaskQuery → Tables → StepInstance → Bool
unfolding assignment_where_for_actor
task_where now actor tenant_id query db s =
    in_pending_request tenant_id query.request_module db s
    && (if query.assigned_to_me
        then assignment_where_for_actor now actor tenant_id query.request_module db s
        else same_status s.status (or_default query.status ApprovalStatus.pending))

-- The rows of the steps table stand in the order of the query's `orderBy`.
unfoldable pub list_tasks : (now : ℕ) → Actor → (tenant_id : ℕ) → TaskQuery → Tables → Page
unfolding filter_current_steps paginate
list_tasks now actor tenant_id query db =
    let limit = or_default query.limit 50 in
    let rows = select (task_where now actor tenant_id query db) db.steps in
    if query.current_only
    then paginate (take (limit + 1) (filter_current_steps (take (min (limit * 5) 500) rows))) limit
    else paginate (take (limit + 1) rows) limit
