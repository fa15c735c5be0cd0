-- ===== src/Approvals/Amendments.antt =====
-- Proofs about `updateDelegation` of apps/api-gateway/src/workflows/approvals.service.ts: the rows
-- that it leaves in the table.
use time_sync_be.Prelude.{
  ℕ, ◌==◌, leb, true, false, Option, none, some, List, [], ◌∷◌, ◌≡◌, ◌≢◌, refl, ◌⊎◌, inl, inr,
  arith, if◌then◌else◌, find_first, update_where, All, Bool-cases,
}
use mathlib.Core.Path.{subst⁻¹}
use time_sync_be.Approvals.Types.{Delegation, Actor, Tables}
use time_sync_be.Approvals.Gates.{Result-cases}
use time_sync_be.Approvals.Decisions.{validate_user_reference}
use time_sync_be.Approvals.Delegations.{
  DelegationPatch, patch_delegation, validate_given, update_delegation, find_delegation_or_throw,
}
use time_sync_be.Approvals.Windows.{IsSound, is_delegation}

-- No other row has the id.
abbrev pub IsOnly : Delegation → List Delegation → Type 0
IsOnly existing = All (λ d. (d.id ≢ existing.id) ⊎ (d ≡ existing))

patched-IsSound :
    (dto : DelegationPatch) (existing : Delegation) (rows : List Delegation)
    → IsSound (patch_delegation dto existing)
    → IsOnly existing rows
    → All IsSound rows
    → All IsSound (update_where (λ d. d.id == existing.id) (patch_delegation dto) rows)
patched-IsSound dto existing [] sound only h = tt
patched-IsSound dto existing (d ∷ rows) sound only h = (
  elim only.0 [
    | inl other ↦
        let miss : (d.id == existing.id) ≡ false = ground arith in
        subst⁻¹ (λ t. IsSound (if t then patch_delegation dto d else d)) miss h.0
    | inr same ↦
        let hit : (d.id == existing.id) ≡ true = ground arith in
        subst⁻¹ (λ t. IsSound (if t then patch_delegation dto d else d)) hit
          (subst⁻¹ (λ x. IsSound (patch_delegation dto x)) same sound)
  ],
  patched-IsSound dto existing rows sound only.1 h.1,
)

module _ (actor : Actor) (t k : ℕ) (dto : DelegationPatch) (db : Tables) (existing : Delegation)
    (tenant : actor.tenant_id ≡ some t)
    (found : find_first (is_delegation t k) db.delegations ≡ some existing) where
  given-keeps : (u : Option ℕ) → (validate_given t u db).1 ≡ db
  unfolding validate_user_reference
  given-keeps none = refl
  given-keeps (some u) = refl

  -- An update is refused and writes nothing, or patches the row into a sound one.
  kept_or_patched :
      ((update_delegation actor k dto db).1.delegations ≡ db.delegations)
      ⊎ (IsSound (patch_delegation dto existing)
          × ((update_delegation actor k dto db).1.delegations
              ≡ update_where (λ d. d.id == existing.id) (patch_delegation dto) db.delegations))
  unfolding update_delegation find_delegation_or_throw
  kept_or_patched =
      let updated = patch_delegation dto existing in
      elim (Result-cases (validate_given t dto.from_user_id db).0) [
        | inr (e, h) ↦ inl (ground arith)
        | inl (u, from) ↦ elim (Result-cases (validate_given t dto.to_user_id db).0) [
          | inr (e, h) ↦ inl (ground (arith, given-keeps dto.from_user_id))
          | inl (v, to) ↦ elim (Bool-cases (updated.from_user_id == updated.to_user_id)) [
            | inl same ↦
                inl (ground (arith, given-keeps dto.from_user_id, given-keeps dto.to_user_id))
            | inr apart ↦ elim (Bool-cases (leb updated.ends_at updated.starts_at)) [
              | inl empty ↦
                  inl (ground (arith, given-keeps dto.from_user_id, given-keeps dto.to_user_id))
              | inr open_window ↦ inr (
                (λ e. ground arith, ground arith),
                ground (arith, given-keeps dto.from_user_id, given-keeps dto.to_user_id),
              )
            ]
          ]
        ]
      ]

  -- Updating a delegation whose id no other row has keeps every row of the table sound, whether it
  -- is refused or not.
  pub update-IsSound :
      IsOnly existing db.delegations
      → All IsSound db.delegations
      → All IsSound (update_delegation actor k dto db).1.delegations
  update-IsSound only h = elim kept_or_patched [
    | inl same ↦ subst⁻¹ (All IsSound) same h
    | inr (sound, same) ↦
        subst⁻¹ (All IsSound) same (patched-IsSound dto existing db.delegations sound only h)
  ]
