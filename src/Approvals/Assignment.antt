-- ===== src/Approvals/Assignment.antt =====
-- Who may act on a step (`actorRoleIds`, `assertActorCanActOnStep`,
-- `activeDelegatedFromUserIds` and `assignmentWhereForActor` of
-- apps/api-gateway/src/workflows/approvals.service.ts).
use time_sync_be.Prelude.{
  ℕ, ◌==◌, ltb, leb, Bool, true, false, not, ◌&&◌, ◌||◌, Option, none, some, List, map, String,
  if◌then◌else◌, is_key, includes, select, any, Handler, ok, err, forbidden, str_eq,
}
use time_sync_be.Approvals.Types.{
  WorkflowStep, ApprovalRequest, StepInstance, Delegation, UserRole, Actor, Tables, is_pending,
}

-- `OR: [{ startsAt: null }, { startsAt: { lte: now } }]`
abbrev pub has_started : (now : ℕ) → Option ℕ → Bool
has_started now none = true
has_started now (some t) = leb t now

-- `OR: [{ endsAt: null }, { endsAt: { gt: now } }]`
abbrev pub not_over : (now : ℕ) → Option ℕ → Bool
not_over now none = true
not_over now (some t) = ltb now t

-- `OR: [{ tenantId }, { tenantId: null }]`
abbrev pub is_shared_with : ℕ → Option ℕ → Bool
is_shared_with tenant_id none = true
is_shared_with tenant_id (some t) = t == tenant_id

unfoldable pub holds_role : (now tenant_id user_id : ℕ) → UserRole → Bool
holds_role now tenant_id user_id u =
    (u.user_id == user_id)
    && is_shared_with tenant_id u.role.tenant_id
    && u.role.is_active
    && not u.role.is_deleted
    && has_started now u.starts_at
    && not_over now u.ends_at

unfoldable pub actor_role_ids : (now : ℕ) → Actor → ℕ → Tables → List ℕ
unfolding holds_role
actor_role_ids now actor tenant_id db =
    map (λ (u : UserRole). u.role.id) (select (holds_role now tenant_id actor.id) db.user_roles)

-- `OR: [{ module: null }, { module }]`
abbrev pub covers_module : Option String → String → Bool
covers_module none m = true
covers_module (some d) m = str_eq d m

unfoldable pub delegates_to :
    (now tenant_id from_user_id to_user_id : ℕ) → String → Delegation → Bool
delegates_to now tenant_id from_user_id to_user_id m d =
    (d.tenant_id == tenant_id)
    && (d.from_user_id == from_user_id)
    && (d.to_user_id == to_user_id)
    && d.is_active
    && leb d.starts_at now
    && ltb now d.ends_at
    && covers_module d.delegated_module m

-- `step.workflowStep?.allowDelegation ?? true`
abbrev pub allows_delegation : Option WorkflowStep → Bool
allows_delegation none = true
allows_delegation (some w) = w.allow_delegation

-- `roleId && roleIds.includes(roleId)`
abbrev pub has_role : Option ℕ → List ℕ → Bool
has_role none ids = false
has_role (some k) ids = includes ids k

unfoldable pub has_delegation : (now tenant_id user_id : ℕ) → String → StepInstance → Tables → Bool
unfolding delegates_to
has_delegation now tenant_id user_id m step db = elim step.assigned_user_id [
  | none ↦ false
  | some owner ↦
      allows_delegation step.workflow_step
      && any (delegates_to now tenant_id owner user_id m) db.delegations
]

unfoldable pub assert_actor_can_act_on_step :
    (now : ℕ) → Actor → (tenant_id : ℕ) → ApprovalRequest → StepInstance → Handler Tables (Unit {0})
unfolding actor_role_ids has_delegation
assert_actor_can_act_on_step now actor tenant_id request step db =
    if is_key step.assigned_user_id actor.id
    then (ok tt, db)
    else if has_role step.assigned_role_id (actor_role_ids now actor tenant_id db)
    then (ok tt, db)
    else if has_delegation now tenant_id actor.id request.request_module step db
    then (ok tt, db)
    else (err (forbidden "You are not assigned to the current approval step."), db)

-- A delegation to the user that is in effect, for the module or for any.
abbrev pub hands_to : (now tenant_id to_user_id : ℕ) → Option String → Delegation → Bool
hands_to now tenant_id to_user_id m d =
    (d.tenant_id == tenant_id)
    && (d.to_user_id == to_user_id)
    && d.is_active
    && leb d.starts_at now
    && ltb now d.ends_at
    && elim m [ none ↦ true | some x ↦ covers_module d.delegated_module x ]

-- The users who have delegated to the user.
unfoldable pub active_delegated_from_user_ids :
    (now tenant_id to_user_id : ℕ) → Option String → Tables → List ℕ
active_delegated_from_user_ids now tenant_id to_user_id m db =
    map (λ (d : Delegation). d.from_user_id)
      (select (hands_to now tenant_id to_user_id m) db.delegations)

-- The filter of the task list.
unfoldable pub assignment_where_for_actor :
    (now : ℕ) → Actor → ℕ → Option String → Tables → StepInstance → Bool
unfolding actor_role_ids active_delegated_from_user_ids
assignment_where_for_actor now actor tenant_id m db step =
    is_pending step.status
    && (is_key step.assigned_user_id actor.id
        || has_role step.assigned_user_id
            (active_delegated_from_user_ids now tenant_id actor.id m db)
        || has_role step.assigned_role_id (actor_role_ids now actor tenant_id db))
