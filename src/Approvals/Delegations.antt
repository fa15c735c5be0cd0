-- ===== src/Approvals/Delegations.antt =====
-- Standing delegations between users (`createDelegation`, `updateDelegation` and `deleteDelegation`
-- of apps/api-gateway/src/workflows/approvals.service.ts).
use time_sync_be.Prelude.{
  ℕ, ◌==◌, leb, ltb, Bool, true, false, ◌&&◌, Option, none, some, [], ◌∷◌, ◌++◌, String,
  if◌then◌else◌, or_default, find_first, update_where, Handler, Error, bad_request, not_found,
  or_throw, transaction, throw_if, modify, pure, ◌>>=◌, ◌>>◌,
}
use time_sync_be.Approvals.Types.{AuditAction, LogRow, Delegation, Actor, Tables}
use time_sync_be.Approvals.Requests.{require_tenant, write_log}
use time_sync_be.Approvals.Decisions.{validate_user_reference}

pub record NewDelegation : Type 0 where
  pub from_user_id : ℕ
  pub to_user_id : ℕ
  pub delegated_module : Option String
  pub starts_at : ℕ
  pub ends_at : ℕ
  pub is_active : Option Bool
  pub reason : Option String

-- The fields that an update gives anew; a column that is left out keeps its value.
pub record DelegationPatch : Type 0 where
  pub from_user_id : Option ℕ
  pub to_user_id : Option ℕ
  pub delegated_module : Option String
  pub starts_at : Option ℕ
  pub ends_at : Option ℕ
  pub is_active : Option Bool
  pub reason : Option String

abbrev pub same_user : Error
same_user = bad_request "Delegation source and target users must be different."

abbrev pub empty_window : Error
empty_window = bad_request "Delegation end date must be after start date."

abbrev log_delegation : Actor → (tenant_id : ℕ) → AuditAction → String → ℕ → Tables → Tables
log_delegation actor tenant_id action event id =
    write_log (
      LogRow.audit tenant_id actor.id action "Delegation" id
      ∷ LogRow.outbox tenant_id event id
      ∷ [])

abbrev pub delegation_of : (new_id tenant_id : ℕ) → NewDelegation → Delegation
delegation_of new_id tenant_id dto = record {
  id = new_id;
  tenant_id = tenant_id;
  from_user_id = dto.from_user_id;
  to_user_id = dto.to_user_id;
  delegated_module = dto.delegated_module;
  starts_at = dto.starts_at;
  ends_at = dto.ends_at;
  is_active = or_default dto.is_active true;
  reason = dto.reason;
}

unfoldable pub create_delegation : (new_id : ℕ) → Actor → NewDelegation → Handler Tables Delegation
create_delegation new_id actor dto = do
  tenant_id ← require_tenant actor
  transaction do
    let delegation = delegation_of new_id tenant_id dto
    validate_user_reference tenant_id dto.from_user_id
    validate_user_reference tenant_id dto.to_user_id
    throw_if (dto.from_user_id == dto.to_user_id) same_user
    throw_if (leb dto.ends_at dto.starts_at) empty_window
    modify (λ db. record db { delegations = db.delegations ++ delegation ∷ [] })
    modify (
        log_delegation actor tenant_id AuditAction.create "approval.delegation.created"
          delegation.id)
    pure delegation

unfoldable pub find_delegation_or_throw : (tenant_id delegation_id : ℕ) → Handler Tables Delegation
find_delegation_or_throw tenant_id delegation_id db =
    or_throw
      (find_first (λ d. (d.id == delegation_id) && (d.tenant_id == tenant_id)) db.delegations)
      (not_found "Delegation not found.") db

abbrev pub patch_delegation : DelegationPatch → Delegation → Delegation
patch_delegation dto d = record d {
  from_user_id = or_default dto.from_user_id d.from_user_id;
  to_user_id = or_default dto.to_user_id d.to_user_id;
  delegated_module = elim dto.delegated_module [ none ↦ d.delegated_module | some m ↦ some m ];
  starts_at = or_default dto.starts_at d.starts_at;
  ends_at = or_default dto.ends_at d.ends_at;
  is_active = or_default dto.is_active d.is_active;
  reason = elim dto.reason [ none ↦ d.reason | some m ↦ some m ];
}

abbrev pub validate_given : (tenant_id : ℕ) → Option ℕ → Handler Tables (Unit {0})
validate_given tenant_id none = pure tt
validate_given tenant_id (some user_id) = validate_user_reference tenant_id user_id

unfoldable pub update_delegation :
    Actor → (delegation_id : ℕ) → DelegationPatch → Handler Tables Delegation
update_delegation actor delegation_id dto = do
  tenant_id ← require_tenant actor
  transaction do
    existing ← find_delegation_or_throw tenant_id delegation_id
    validate_given tenant_id dto.from_user_id
    validate_given tenant_id dto.to_user_id
    let updated = patch_delegation dto existing
    throw_if (updated.from_user_id == updated.to_user_id) same_user
    throw_if (leb updated.ends_at updated.starts_at) empty_window
    modify (λ db. record db {
      delegations = update_where (λ d. d.id == existing.id) (patch_delegation dto) db.delegations;
    })
    modify (
        log_delegation actor tenant_id AuditAction.update "approval.delegation.updated" existing.id)
    pure updated

-- The window is cut at the present, when it has not ended yet.
abbrev pub disable : (now : ℕ) → Delegation → Delegation
disable now d = record d {
  is_active = false;
  ends_at = if ltb now d.ends_at then now else d.ends_at;
}

unfoldable pub delete_delegation :
    (now : ℕ) → Actor → (delegation_id : ℕ) → Handler Tables (Unit {0})
delete_delegation now actor delegation_id = do
  tenant_id ← require_tenant actor
  transaction do
    existing ← find_delegation_or_throw tenant_id delegation_id
    modify (λ db. record db {
      delegations =
          update_where (λ d. d.id == existing.id)
            (λ d. record d { is_active = false; ends_at = (disable now existing).ends_at })
            db.delegations;
    })
    modify (
        log_delegation actor tenant_id AuditAction.disable "approval.delegation.disabled"
          existing.id)
