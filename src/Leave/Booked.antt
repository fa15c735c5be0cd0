-- ===== src/Leave/Booked.antt =====
-- Proofs about filing a request (`createRequest` of apps/api-gateway/src/leave/leave.service.ts):
-- the balance, the ledger and the other requests of the employee.
use time_sync_be.Prelude.{
  ℕ, ltb, ◌<◌, true, false, not, ◌&&◌, some, [], ◌∷◌, ◌++◌, ◌≡◌, refl, ap, ◌∙◌, ◌⊎◌, inl, inr,
  arith, any, find_first, Result, ok, err, Error, bad_request, Bool-cases,
}
use mathlib.Core.Path.{subst⁻¹}
use time_sync_be.Prelude.Int.{pos, ◌-ℤ◌, ◌≤ℤ◌, ltb_ℤ}
use time_sync_be.Approvals.Types.{Actor}
use time_sync_be.Approvals.Gates.{Result-cases}
use time_sync_be.Leave.Types.{LeaveRequest, LeaveBalance, Tables}
use time_sync_be.Leave.Rules.{
  balance_floor, available, overlaps, assert_no_overlap, assert_balance_available,
  validate_request_window,
}
use time_sync_be.Leave.Outcome.{Env, ensure_balance, is_balance, write_log}
use time_sync_be.Leave.Ledger.{IsExplained}
use time_sync_be.Leave.Explained.{Unposted, ensure-IsExplained, ensure-ok}
use time_sync_be.Leave.Filing.{
  Filing, paid_minutes_of, needs_approval, policy_id_of, request_of, reserve_minutes, reserve,
  filing_rows, file_request,
}
use time_sync_be.Leave.Reserved.{
  reserve-IsExplained, NoClash, NoClash-append, ensured-requests, ensured-found, find-reserved,
  reserved-requests, floor_left,
}

module _ (env : Env) (actor : Actor) (t : ℕ) (f : Filing) (db : Tables) where
  abbrev request : LeaveRequest
  request = request_of actor t f

  abbrev ensured : Result LeaveBalance × Tables
  ensured = ensure_balance env t f.employee_id f.leave_type.id (policy_id_of f.policy) db

  -- the tables at the end of the transaction
  abbrev booked : LeaveBalance → Tables
  booked b = write_log (filing_rows actor t request f.risk_flagged) (
      reserve env actor t request b
        (record ensured.1 { requests = ensured.1.requests ++ request ∷ [] }))

  -- a request that is refused has at most made an empty balance
  Refused : Type 0
  Refused =
      ((e : Error) × (file_request env actor t f db ≡ (err e, db)))
      ⊎ ((e : Error) × (file_request env actor t f db ≡ (err e, ensured.1)))

  Booked : LeaveBalance → Type 0
  Booked b =
      (any (overlaps t f.employee_id f.start_at f.end_at) db.requests ≡ false)
      × ((ltb 0 request.paid_minutes
            && ltb_ℤ (available b -ℤ pos request.paid_minutes) (balance_floor f.policy))
          ≡ false)
      × (file_request env actor t f db ≡ (ok request, booked b))

  refused_or_Booked : (b : LeaveBalance) → ensured ≡ (ok b, ensured.1) → Refused ⊎ Booked b
  unfolding file_request Refused Booked assert_no_overlap assert_balance_available
  refused_or_Booked b ran =
      elim (Result-cases
        (validate_request_window f.start_at f.end_at f.requested_minutes f.policy)) [
          | inr (e, invalid) ↦ inl (inl (e, ground arith))
          | inl (u, valid) ↦
              elim (Bool-cases (any (overlaps t f.employee_id f.start_at f.end_at) db.requests)) [
                | inl taken ↦ inl (
                    inl (
                      bad_request "Another active leave request overlaps this date range.",
                      ground arith,
                    ))
                | inr clear ↦
                    elim (Bool-cases (
                      ltb 0 request.paid_minutes
                      && ltb_ℤ (available b -ℤ pos request.paid_minutes)
                          (balance_floor f.policy))) [
                            | inl short ↦ inl (
                                inr (
                                  bad_request "Insufficient leave balance for this request.",
                                  ground arith,
                                ))
                            | inr enough ↦
                                elim (Bool-cases (needs_approval f.policy && not f.routed)) [
                                  | inl unrouted ↦ inl (
                                      inr (
                                        bad_request
                                            "No active leave approval workflow matched this request.",
                                        ground arith,
                                      ))
                                  | inr routed ↦ inr (clear, enough, ground arith)
                                ]
                          ]
              ]
        ]

  ensured_as : (b : LeaveBalance) × (ensured ≡ (ok b, ensured.1))
  ensured_as = ensure-ok env t f.employee_id f.leave_type.id (policy_id_of f.policy) db

  -- Filing keeps every balance explained by the ledger, whether it goes through or not, if the id
  -- for a new balance is not in the ledger yet.
  pub filing-IsExplained :
      Unposted env.new_balance_id db
      → IsExplained db
      → IsExplained (file_request env actor t f db).1
  unfolding Refused Booked
  filing-IsExplained fresh h =
      let (b, ran) = ensured_as in
      let ready =
        ensure-IsExplained env t f.employee_id f.leave_type.id (policy_id_of f.policy) db fresh h in
      elim (refused_or_Booked b ran) [
        | inl (inl (e, same)) ↦
            subst⁻¹ (λ (r : Result LeaveRequest × Tables). IsExplained r.1) same h
        | inl (inr (e, same)) ↦
            subst⁻¹ (λ (r : Result LeaveRequest × Tables). IsExplained r.1) same ready
        | inr (clear, enough, same) ↦
            subst⁻¹ (λ (r : Result LeaveRequest × Tables). IsExplained r.1) same
              (reserve-IsExplained env actor t request b
                (record ensured.1 { requests = ensured.1.requests ++ request ∷ [] }) ready)
      ]

  -- Filing keeps the active requests of each employee apart, whether it goes through or not.
  pub filing-NoClash : NoClash db.requests → NoClash (file_request env actor t f db).1.requests
  unfolding Refused Booked
  filing-NoClash h =
      let (b, ran) = ensured_as in
      let kept = ensured-requests env t f.employee_id f.leave_type.id (policy_id_of f.policy) db in
      elim (refused_or_Booked b ran) [
        | inl (inl (e, same)) ↦
            subst⁻¹ (λ (r : Result LeaveRequest × Tables). NoClash r.1.requests) same h
        | inl (inr (e, same)) ↦
            subst⁻¹ (λ (r : Result LeaveRequest × Tables). NoClash r.1.requests) same
              (subst⁻¹ NoClash kept h)
        | inr (clear, enough, same) ↦
            subst⁻¹ (λ (r : Result LeaveRequest × Tables). NoClash r.1.requests) same
              (subst⁻¹ NoClash
                (reserved-requests env actor t request b _ ∙ ap (λ rows. rows ++ request ∷ []) kept)
                (NoClash-append t f.employee_id f.start_at f.end_at request db.requests refl refl
                  refl refl clear h))
      ]

  -- A request that is filed stands after those that there were.
  pub filed_row :
      {r : LeaveRequest}
      → (file_request env actor t f db).0 ≡ ok r
      → (r ≡ request) × ((file_request env actor t f db).1.requests ≡ db.requests ++ request ∷ [])
  unfolding Refused Booked
  filed_row {r} filed =
      let (b, ran) = ensured_as in
      let kept = ensured-requests env t f.employee_id f.leave_type.id (policy_id_of f.policy) db in
      elim (refused_or_Booked b ran) [
        | inl (inl (e, same)) ↦ absurd (ground arith)
        | inl (inr (e, same)) ↦ absurd (ground arith)
        | inr (clear, enough, same) ↦ (
          ground arith,
          ap (λ (x : Result LeaveRequest × Tables). x.1.requests) same
              ∙ (reserved-requests env actor t request b _
                  ∙ ap (λ rows. rows ++ request ∷ []) kept),
        )
      ]

  -- A paid request that is filed holds its minutes on the balance of its employee and type, and
  -- what is then available is at least the floor of the policy.
  pub filing_keeps_floor :
      {r : LeaveRequest}
      → (file_request env actor t f db).0 ≡ ok r
      → 0 < paid_minutes_of f
      → (b : LeaveBalance) × (find_first
            (is_balance t f.employee_id f.leave_type.id)
            ensured.1.balances
          ≡ some b)
        × (find_first
              (is_balance t f.employee_id f.leave_type.id)
              (file_request env actor t f db).1.balances
            ≡ some (reserve_minutes env.now (paid_minutes_of f) b))
        × (balance_floor f.policy ≤ℤ available (reserve_minutes env.now (paid_minutes_of f) b))
  unfolding Refused Booked reserve
  filing_keeps_floor {r} filed paid =
      let (b, ran) = ensured_as in
      let held =
        ensured-found env t f.employee_id f.leave_type.id (policy_id_of f.policy) db b ran in
      let is_paid : ltb 0 (paid_minutes_of f) ≡ true = ground arith in
      elim (refused_or_Booked b ran) [
        | inl (inl (e, same)) ↦ absurd (ground arith)
        | inl (inr (e, same)) ↦ absurd (ground arith)
        | inr (clear, enough, same) ↦ (
          b,
          held,
          ap
                (λ (r : Result LeaveRequest × Tables).
                  find_first (is_balance t f.employee_id f.leave_type.id) r.1.balances)
                same
              ∙ rw is_paid (
                  find-reserved t f.employee_id f.leave_type.id env.now (paid_minutes_of f) b.id
                    ensured.1.balances b refl held),
          floor_left b.balance_minutes b.pending_minutes (balance_floor f.policy)
              (paid_minutes_of f) (ground arith),
        )
      ]
