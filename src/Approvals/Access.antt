-- ===== src/Approvals/Access.antt =====
-- Who passes `assertActorCanActOnStep` of apps/api-gateway/src/workflows/approvals.service.ts,
-- against an independent description.
use time_sync_be.Prelude.{
  ℕ, ◌==◌, ◌≤◌, ◌<◌, Bool, true, false, none, some, List, [], ◌∷◌, map, String, ◌≡◌, ◌↔◌, ◌⊎◌, inl,
  inr, arith, is_key, includes, select, any, ok, Bool-cases, Option-cases, str_eq,
}
use time_sync_be.Approvals.Types.{
  ApprovalRequest, StepInstance, Delegation, UserRole, Actor, Tables,
}
use time_sync_be.Approvals.Assignment.{
  holds_role, actor_role_ids, delegates_to, allows_delegation, has_role, has_delegation,
  assert_actor_can_act_on_step,
}

-- A row of a table, as evidence.
pub data Among {A : Type 0} (P : A → Type 0) : List A → Type 0 where
  here : {x : A} {xs : List A} → P x → Among P (x ∷ xs)
  there : {x : A} {xs : List A} → Among P xs → Among P (x ∷ xs)

Among-any : {A : Type 0} (p : A → Bool) (xs : List A) → any p xs ≡ true → Among (λ x. p x ≡ true) xs
Among-any p [] h = cc
Among-any p (x ∷ xs) h = elim (Bool-cases (p x)) [
  | inl e ↦ here e
  | inr e ↦ there (Among-any p xs (ground arith))
]

any-Among : {A : Type 0} (p : A → Bool) {xs : List A} → Among (λ x. p x ≡ true) xs → any p xs ≡ true
any-Among p (here e) = rw e
any-Among p (there {x = x} m) = ground (arith, any-Among p m)

-- A role that the user holds: live, of the tenant or shared, begun and not over.
pub record Holds (now tenant_id user_id role_id : ℕ) (u : UserRole) : Type 0 where
  pub holder : u.user_id ≡ user_id
  pub same_role : u.role.id ≡ role_id
  pub of_tenant : (u.role.tenant_id ≡ none) ⊎ (u.role.tenant_id ≡ some tenant_id)
  pub live : (u.role.is_active ≡ true) × (u.role.is_deleted ≡ false)
  pub begun : (t : ℕ) → u.starts_at ≡ some t → t ≤ now
  pub not_ended : (t : ℕ) → u.ends_at ≡ some t → now < t

-- A delegation that hands the owner's steps of the module to the user now.
pub record Delegates (now tenant_id owner user_id : ℕ) (m : String) (d : Delegation) : Type 0 where
  pub of_tenant : d.tenant_id ≡ tenant_id
  pub giver : d.from_user_id ≡ owner
  pub taker : d.to_user_id ≡ user_id
  pub active : d.is_active ≡ true
  pub begun : d.starts_at ≤ now
  pub not_ended : now < d.ends_at
  pub in_module : (n : String) → d.delegated_module ≡ some n → str_eq n m ≡ true

holds_role-Holds :
    (now tenant_id user_id k : ℕ) (u : UserRole)
    → holds_role now tenant_id user_id u ≡ true
    → (u.role.id == k) ≡ true
    → Holds now tenant_id user_id k u
unfolding holds_role
holds_role-Holds now tenant_id user_id k u h e = record {
  holder = ground arith;
  same_role = ground arith;
  of_tenant = ground arith;
  live = ground arith;
  begun = λ t p. ground arith;
  not_ended = λ t p. ground arith;
}

Holds-holds_role :
    (now tenant_id user_id k : ℕ) (u : UserRole)
    → Holds now tenant_id user_id k u
    → (holds_role now tenant_id user_id u ≡ true) × ((u.role.id == k) ≡ true)
unfolding holds_role
Holds-holds_role now tenant_id user_id k u h = elim (Option-cases u.starts_at) [
  | inl a ↦ elim (Option-cases u.ends_at) [
    | inl b ↦ ground arith
    | inr (t, b) ↦ ground (arith, h.not_ended t b)
  ]
  | inr (t, a) ↦ elim (Option-cases u.ends_at) [
    | inl b ↦ ground (arith, h.begun t a)
    | inr (t', b) ↦ ground (arith, h.begun t a, h.not_ended t' b)
  ]
]

delegates_to-Delegates :
    (now tenant_id owner user_id : ℕ) (m : String) (d : Delegation)
    → delegates_to now tenant_id owner user_id m d ≡ true
    → Delegates now tenant_id owner user_id m d
unfolding delegates_to
delegates_to-Delegates now tenant_id owner user_id m d h = record {
  of_tenant = ground arith;
  giver = ground arith;
  taker = ground arith;
  active = ground arith;
  begun = ground arith;
  not_ended = ground arith;
  in_module = λ n e. ground arith;
}

Delegates-delegates_to :
    (now tenant_id owner user_id : ℕ) (m : String) (d : Delegation)
    → Delegates now tenant_id owner user_id m d
    → delegates_to now tenant_id owner user_id m d ≡ true
unfolding delegates_to
Delegates-delegates_to now tenant_id owner user_id m d h = elim (Option-cases d.delegated_module) [
  | inl e ↦ ground arith
  | inr (n, e) ↦ ground (arith, h.in_module n e)
]

-- The three ways to be allowed to act on a step.
pub data CanAct (now : ℕ) (actor : Actor) (tenant_id : ℕ) (request_module : String) (db : Tables)
    (step : StepInstance) : Type 0 where
  assigned :
      (owner : ℕ)
      → step.assigned_user_id ≡ some owner
      → owner ≡ actor.id
      → CanAct now actor tenant_id request_module db step
  by_role :
      (role_id : ℕ)
      → step.assigned_role_id ≡ some role_id
      → Among (Holds now tenant_id actor.id role_id) db.user_roles
      → CanAct now actor tenant_id request_module db step
  delegated :
      (owner : ℕ)
      → step.assigned_user_id ≡ some owner
      → allows_delegation step.workflow_step ≡ true
      → Among (Delegates now tenant_id owner actor.id request_module) db.delegations
      → CanAct now actor tenant_id request_module db step

Among-map :
    {A : Type 0} {P Q : A → Type 0}
    → ((x : A) → P x → Q x)
    → {xs : List A} → Among P xs
    → Among Q xs
Among-map f (here {x = x} p) = here (f x p)
Among-map f (there m) = there (Among-map f m)

Holds-includes :
    (now tenant_id user_id k : ℕ) (us : List UserRole)
    → includes (map (λ (u : UserRole). u.role.id) (select (holds_role now tenant_id user_id) us)) k
      ≡ true
    → Among (Holds now tenant_id user_id k) us
Holds-includes now tenant_id user_id k [] h = cc
Holds-includes now tenant_id user_id k (u ∷ us) h =
    elim (Bool-cases (holds_role now tenant_id user_id u)) [
      | inl e ↦ elim (Bool-cases (u.role.id == k)) [
        | inl same ↦ here (holds_role-Holds now tenant_id user_id k u e same)
        | inr other ↦ there (Holds-includes now tenant_id user_id k us (ground arith))
      ]
      | inr e ↦ there (Holds-includes now tenant_id user_id k us (ground arith))
    ]

includes-Holds :
    (now tenant_id user_id k : ℕ) {us : List UserRole}
    → Among (Holds now tenant_id user_id k) us
    → includes (map (λ (u : UserRole). u.role.id) (select (holds_role now tenant_id user_id) us)) k
      ≡ true
includes-Holds now tenant_id user_id k (here {x = u} p) =
    ground (arith, Holds-holds_role now tenant_id user_id k u p)
includes-Holds now tenant_id user_id k (there {x = u} m) =
    ground (arith, includes-Holds now tenant_id user_id k m)

module _ (now : ℕ) (actor : Actor) (tenant_id : ℕ) (request : ApprovalRequest) (step : StepInstance)
    (db : Tables) where
  role_found :
      has_role step.assigned_role_id (actor_role_ids now actor tenant_id db) ≡ true
      → CanAct now actor tenant_id request.request_module db step
  unfolding actor_role_ids
  role_found h = elim (Option-cases step.assigned_role_id) [
    | inl e ↦ absurd (ground arith)
    | inr (k, e) ↦ by_role k e (Holds-includes now tenant_id actor.id k db.user_roles (rw e at h))
  ]

  delegation_found :
      has_delegation now tenant_id actor.id request.request_module step db ≡ true
      → CanAct now actor tenant_id request.request_module db step
  unfolding has_delegation
  delegation_found h = elim (Option-cases step.assigned_user_id) [
    | inl e ↦ absurd (ground arith)
    | inr (owner, e) ↦ delegated owner e (ground arith) (
        Among-map (delegates_to-Delegates now tenant_id owner actor.id request.request_module) (
          Among-any (delegates_to now tenant_id owner actor.id request.request_module)
            db.delegations (ground arith)))
  ]

  passes-CanAct :
      (assert_actor_can_act_on_step now actor tenant_id request step db).0 ≡ ok tt
      → CanAct now actor tenant_id request.request_module db step
  unfolding assert_actor_can_act_on_step
  passes-CanAct h = elim (Bool-cases (is_key step.assigned_user_id actor.id)) [
    | inl own ↦ elim (Option-cases step.assigned_user_id) [
      | inl e ↦ absurd (ground arith)
      | inr (owner, e) ↦ assigned owner e (ground arith)
    ]
    | inr other ↦
        elim (Bool-cases (has_role step.assigned_role_id (actor_role_ids now actor tenant_id db))) [
          | inl role ↦ role_found role
          | inr no_role ↦ delegation_found (ground arith)
        ]
  ]

  CanAct-passes :
      CanAct now actor tenant_id request.request_module db step
      → (assert_actor_can_act_on_step now actor tenant_id request step db).0 ≡ ok tt
  unfolding assert_actor_can_act_on_step
  CanAct-passes (assigned owner e same) = ground arith
  CanAct-passes (by_role k e m) =
      let found : has_role step.assigned_role_id (actor_role_ids now actor tenant_id db) ≡ true =
        rw e (unfold actor_role_ids in includes-Holds now tenant_id actor.id k m) in
      ground arith
  CanAct-passes (delegated owner e allowed m) =
      let found : any (delegates_to now tenant_id owner actor.id request.request_module)
            db.delegations
          ≡ true =
        any-Among (delegates_to now tenant_id owner actor.id request.request_module) (
          Among-map (Delegates-delegates_to now tenant_id owner actor.id request.request_module)
            m) in
      unfold has_delegation in ground arith

  -- A user passes the check of a step exactly when the step is assigned to them, or to a role that
  -- they hold now, or to a user whose delegation to them is in effect and the step allows it.
  pub passes-iff-CanAct :
      ((assert_actor_can_act_on_step now actor tenant_id request step db).0 ≡ ok tt)
      ↔ CanAct now actor tenant_id request.request_module db step
  passes-iff-CanAct = (passes-CanAct, CanAct-passes)
