-- ===== src/Approvals/Shown.antt =====
-- The task list (`listTasks` of apps/api-gateway/src/workflows/approvals.service.ts) against the
-- check of a step.
use time_sync_be.Prelude.{
  zero, suc, ◌≤◌, Bool, ◌≢◌, refl, length, take, All, ℕ, ◌<◌, true, Option, none, some, List, [],
  ◌∷◌, map, String, ◌≡◌, ap, ◌∙◌, ◌⊎◌, inl, inr, arith, select, includes, any, Bool-cases,
  Option-cases, ok,
}
use mathlib.Core.Path.{subst⁻¹}
use time_sync_be.Approvals.Types.{
  ApprovalRequest, StepInstance, Delegation, Actor, Tables, is_pending,
}
use time_sync_be.Approvals.Steps.{current_pending_step, steps_of}
use time_sync_be.Approvals.Assignment.{
  has_role, has_delegation, delegates_to, hands_to, active_delegated_from_user_ids,
  assignment_where_for_actor, assert_actor_can_act_on_step,
}
use time_sync_be.Approvals.Access.{Among, here, there}
use time_sync_be.Approvals.Tasks.{
  TaskQuery, task_where, list_tasks, filter_current_steps, paginate, is_least, min_by_request,
}
use time_sync_be.Approvals.Listing.{NotAfter, is_pending_at, filter-IsCurrent}

-- The module of the list: none at all, or that of the request.
abbrev pub Lists : Option String → String → Type 0
Lists m request_module = (m ≡ none) ⊎ (m ≡ some request_module)

givers-includes :
    (now tenant_id owner user_id : ℕ) (request_module : String) (m : Option String)
    (ds : List Delegation)
    → Lists m request_module
    → any (delegates_to now tenant_id owner user_id request_module) ds ≡ true
    → includes
        (map (λ (d : Delegation). d.from_user_id) (select (hands_to now tenant_id user_id m) ds))
        owner
      ≡ true
unfolding delegates_to
givers-includes now tenant_id owner user_id request_module m [] l h = cc
givers-includes now tenant_id owner user_id request_module m (d ∷ ds) (inl e) h =
    ground (arith, givers-includes now tenant_id owner user_id request_module m ds (inl e))
givers-includes now tenant_id owner user_id request_module m (d ∷ ds) (inr e) h =
    ground (arith, givers-includes now tenant_id owner user_id request_module m ds (inr e))

module _ (now : ℕ) (actor : Actor) (tenant_id : ℕ) (request : ApprovalRequest) (step : StepInstance)
    (db : Tables) (m : Option String) where
  giver-shown :
      Lists m request.request_module
      → has_delegation now tenant_id actor.id request.request_module step db ≡ true
      → has_role step.assigned_user_id (active_delegated_from_user_ids now tenant_id actor.id m db)
        ≡ true
  unfolding has_delegation active_delegated_from_user_ids
  giver-shown l h = elim (Option-cases step.assigned_user_id) [
    | inl e ↦ absurd (ground arith)
    | inr (owner, e) ↦ ground (
      arith,
      givers-includes now tenant_id owner actor.id request.request_module m db.delegations l,
    )
  ]

  -- A pending step that a user may act on passes the filter of that user's task list, for the
  -- module of its request and for all modules.
  pub can_act_is_shown :
      Lists m request.request_module
      → is_pending step.status ≡ true
      → (assert_actor_can_act_on_step now actor tenant_id request step db).0 ≡ ok tt
      → assignment_where_for_actor now actor tenant_id m db step ≡ true
  unfolding assert_actor_can_act_on_step assignment_where_for_actor
  can_act_is_shown l pending passes =
      elim (Bool-cases (has_delegation now tenant_id actor.id request.request_module step db)) [
        | inl d ↦ ground (arith, giver-shown l d)
        | inr d ↦ ground arith
      ]

take-all : (n : ℕ) (rows : List StepInstance) → length rows ≤ n → take n rows ≡ rows
take-all zero [] h = refl
take-all zero (s ∷ rows) h = absurd (omega arith)
take-all (suc n) [] h = refl
take-all (suc n) (s ∷ rows) h = ap (λ x. s ∷ x) (take-all n rows (omega arith))

length-select_le :
    (p : StepInstance → Bool) (rows : List StepInstance) → length (select p rows) ≤ length rows
length-select_le p [] = omega arith
length-select_le p (s ∷ rows) = ground (arith, length-select_le p rows)

pending-Among :
    (s : StepInstance) {rows : List StepInstance}
    → is_pending s.status ≡ true
    → Among (λ t. t ≡ s) rows
    → any (is_pending_at s.approval_request_id s.step_order) rows ≡ true
pending-Among s pending (here {x = t} {xs = rest} e) =
    let own : is_pending_at s.approval_request_id s.step_order s ≡ true = ground arith in
    let same : is_pending_at s.approval_request_id s.step_order t ≡ true =
      ap (is_pending_at s.approval_request_id s.step_order) e ∙ own in
    ground arith
pending-Among s pending (there {x = t} {xs = rest} m) =
    let rest_has = pending-Among s pending m in ground arith

paginate-all :
    (rows : List StepInstance) (limit : ℕ)
    → length rows ≤ limit
    → (paginate rows limit).items ≡ rows
unfolding paginate
paginate-all rows limit h = ground arith

module _ (now : ℕ) (actor : Actor) (tenant_id : ℕ) (query : TaskQuery) (db : Tables) where
  -- the steps that the query returns
  abbrev own : List StepInstance
  own = select (task_where now actor tenant_id query db) db.steps

  -- A list that stays within the page is the filtered rows.
  listed :
      query.current_only ≡ true
      → query.limit ≡ none
      → length own ≤ 50
      → (list_tasks now actor tenant_id query db).items ≡ filter_current_steps own
  unfolding list_tasks filter_current_steps
  listed current limit few =
      let whole : take 250 own ≡ own = take-all 250 own (omega arith) in
      let kept = length-select_le (is_least (min_by_request own [])) own in
      let page =
        take-all 51 (select (is_least (min_by_request own [])) own) (omega (arith, kept)) in
      let shown =
        paginate-all (select (is_least (min_by_request own [])) own) 50 (omega (arith, kept)) in
      simp (current, limit, whole, page) shown

  -- In a list of current steps without a limit of its own: a pending step of a request before which
  -- another pending step stands is shown to its user as current all the same, where no pending step
  -- of the request that the query returns, which are only the user's own, comes before it, and the
  -- query returns 50 rows at most.
  pub later_step_is_shown :
      (first later : StepInstance)
      → current_pending_step (steps_of later.approval_request_id db.steps) ≡ some first
      → first.step_order < later.step_order
      → is_pending later.status ≡ true
      → query.current_only ≡ true
      → query.limit ≡ none
      → length (select (task_where now actor tenant_id query db) db.steps) ≤ 50
      → Among (λ s. s ≡ later) (select (task_where now actor tenant_id query db) db.steps)
      → All
          (NotAfter later.approval_request_id later.step_order)
          (select (task_where now actor tenant_id query db) db.steps)
      → Among (λ s. s ≡ later) (list_tasks now actor tenant_id query db).items
        × (current_pending_step (steps_of later.approval_request_id db.steps) ≢ some later)
  later_step_is_shown first later current before pending only limit few mine least =
      let kept = (filter-IsCurrent own later).1 ((pending-Among later pending mine, least), mine) in
      (subst⁻¹ (Among (λ s. s ≡ later)) (listed only limit few) kept, λ h. ground arith)
