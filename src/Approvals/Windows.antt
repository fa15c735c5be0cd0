-- ===== src/Approvals/Windows.antt =====
-- Proofs about `createDelegation` and `deleteDelegation` of
-- apps/api-gateway/src/workflows/approvals.service.ts: the rows that they leave in the table.
use time_sync_be.Prelude.{
  ℕ, ◌<◌, ◌==◌, Bool, false, ◌&&◌, some, List, [], ◌∷◌, ◌++◌, String, ◌≡◌, ◌≢◌, refl, inl, inr,
  arith, find_first, update_where, find_first-holds, All, All-append_one, ok, err,
}
use mathlib.Core.List.{append-nil}
use time_sync_be.Approvals.Types.{Delegation, Actor, Tables}
use time_sync_be.Approvals.Assignment.{delegates_to}
use time_sync_be.Approvals.Gates.{Result-cases}
use time_sync_be.Approvals.Decisions.{validate_user_reference}
use time_sync_be.Approvals.Delegations.{
  NewDelegation, disable, create_delegation, delete_delegation, find_delegation_or_throw,
}

-- Two different users, and a window that is not empty.
abbrev pub IsSound : Delegation → Type 0
IsSound d = (d.from_user_id ≢ d.to_user_id) × (d.starts_at < d.ends_at)

validated-keeps : (t k : ℕ) (db : Tables) → (validate_user_reference t k db).1 ≡ db
unfolding validate_user_reference
validated-keeps t k db = refl

module _ (new_id : ℕ) (actor : Actor) (dto : NewDelegation) (db : Tables) where
  -- what a creation adds to the table
  added : List Delegation
  added = elim (create_delegation new_id actor dto db).0 [ ok d ↦ d ∷ [] | err _ ↦ [] ]

  create-added : (create_delegation new_id actor dto db).1.delegations ≡ db.delegations ++ added
  unfolding create_delegation validate_user_reference added
  create-added = ground (arith, append-nil db.delegations)

  created-IsSound : (d : Delegation) → (create_delegation new_id actor dto db).0 ≡ ok d → IsSound d
  unfolding create_delegation validate_user_reference
  created-IsSound d h = (λ e. ground arith, ground arith)

  -- Creating a delegation keeps every row of the table sound, whether it is refused or not.
  pub create-IsSound :
      All IsSound db.delegations → All IsSound (create_delegation new_id actor dto db).1.delegations
  unfolding added
  create-IsSound h =
      rw create-added (elim (Result-cases (create_delegation new_id actor dto db).0) [
        | inl (d, e) ↦
            rw (e, added) (All-append_one IsSound db.delegations d h (created-IsSound d e))
        | inr (x, e) ↦ rw (e, added) (rw append-nil h)
      ])

-- the row that the handlers look up
abbrev pub is_delegation : (tenant_id delegation_id : ℕ) → Delegation → Bool
is_delegation t k d = (d.id == k) && (d.tenant_id == t)

find-disabled :
    (t k ends : ℕ) (rows : List Delegation) (existing : Delegation)
    → find_first (is_delegation t k) rows ≡ some existing
    → find_first
        (is_delegation t k)
        (update_where (λ d. d.id == k) (λ d. record d { is_active = false; ends_at = ends }) rows)
      ≡ some (record existing { is_active = false; ends_at = ends })
find-disabled t k ends [] existing h = cc
find-disabled t k ends (d ∷ rows) existing h = ground (arith, find-disabled t k ends rows existing)

module _ (now : ℕ) (actor : Actor) (t k : ℕ) (db : Tables) (existing : Delegation)
    (tenant : actor.tenant_id ≡ some t)
    (found : find_first (is_delegation t k) db.delegations ≡ some existing) where
  existing-key : existing.id ≡ k
  existing-key = ground (arith, find_first-holds (is_delegation t k) existing db.delegations found)

  -- A delegation that is deleted stays in the table, cut off at the present, and hands nothing over
  -- any more, at any time, in any module, between any two users.
  pub deleted_hands_nothing :
      (later tenant_id owner user_id : ℕ) (m : String)
      → (find_first (is_delegation t k) (delete_delegation now actor k db).1.delegations
          ≡ some (disable now existing))
        × (delegates_to later tenant_id owner user_id m (disable now existing) ≡ false)
  unfolding delete_delegation find_delegation_or_throw delegates_to
  deleted_hands_nothing later tenant_id owner user_id m = (
    ground (
      arith,
      existing-key,
      find-disabled t k (disable now existing).ends_at db.delegations existing found,
    ),
    ground arith,
  )

  -- A delegation that has not begun when it is deleted is left with an end before its start, which
  -- the other two handlers refuse.
  pub deleted_early_is_unsound :
      now < existing.starts_at
      → existing.starts_at < existing.ends_at
      → (d : Delegation) × (find_first
            (is_delegation t k)
            (delete_delegation now actor k db).1.delegations
          ≡ some d)
        × (d.ends_at < d.starts_at)
        × ¬ IsSound d
  deleted_early_is_unsound early window = (
    disable now existing,
    (deleted_hands_nothing 0 0 0 0 "").0,
    ground arith,
    λ s. ground (arith, s.1),
  )
