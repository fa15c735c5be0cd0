-- ===== src/Leave/Unlinked.antt =====
-- What `createRequest` of apps/api-gateway/src/leave/leave.service.ts leaves behind when the approval
-- engine refuses the submission.
use time_sync_be.Prelude.Int.{ℤ, pos, ◌+ℤ◌}
use time_sync_be.Prelude.{
  ◌<◌, Bool, none, List, [], ◌∷◌, ◌++◌, sym, inl, inr, if◌then◌else◌, find_first, Option-cases, ℕ,
  leb, true, false, ◌&&◌, some, Error, ok, err, ◌≡◌, ap, ◌∙◌, arith, Result, Option,
}
use time_sync_be.Approvals.Types.{Actor}
use time_sync_be.Approvals.Submit.{submit_request}
use time_sync_be.Leave.Types.{LeaveStatus, LeaveRequest, LeaveBalance, Tables}
use time_sync_be.Leave.Outcome.{Env, is_balance, empty_balance, ensure_balance}
use time_sync_be.Leave.Reserved.{find-last}
use time_sync_be.Leave.Booked.{filed_row, filing_keeps_floor}
use time_sync_be.Leave.Filing.{Filing, needs_approval, paid_minutes_of, policy_id_of, file_request}
use time_sync_be.Leave.Decisions.{World, Context}
use time_sync_be.Leave.Calendar.{Calendar, CalendarTables, resolve_calendar_for_employee}
use time_sync_be.Leave.Days.{Evaluation, evaluate_calendar_window}
use time_sync_be.Leave.Coverage.{CoverageTables, Impact, coverage_impact_for_window}
use time_sync_be.Leave.Requesting.{
  Creation, is_undocumented, has_blocker, filing_of, approval_submission_for, route_request,
  create_leave,
}

unrouted :
    (context : Context) (actor : Actor) (tenant_id : ℕ) (c : Creation) (request : LeaveRequest)
    (w : World) {e : Error}
    → needs_approval c.policy ≡ true
    → (submit_request context.engine_env actor
        (approval_submission_for request c.leave_type_name c.route)
        w.engine).0
      ≡ err e
    → ((route_request context actor tenant_id c request w).0 ≡ err e)
      × ((route_request context actor tenant_id c request w).1.leave ≡ w.leave)
unfolding route_request
unrouted context actor tenant_id c request w n h = (ground arith, ground arith)

abbrev pending_in : Option LeaveBalance → ℤ
pending_in none = pos 0
pending_in (some b) = b.pending_minutes

-- The pending minutes of an employee and a type of leave, none where there is no balance.
abbrev pub pending_of : (tenant_id employee_id leave_type_id : ℕ) → List LeaveBalance → ℤ
pending_of t e k rows = pending_in (find_first (is_balance t e k) rows)

ensured-pending :
    (env : Env) (t e k : ℕ) (policy : Option ℕ) (db : Tables) (b : LeaveBalance)
    → find_first (is_balance t e k) (ensure_balance env t e k policy db).1.balances ≡ some b
    → b.pending_minutes ≡ pending_of t e k db.balances
unfolding ensure_balance
ensured-pending env t e k policy db b held =
    elim (Option-cases (find_first (is_balance t e k) db.balances)) [
      | inr (a, h) ↦ ground arith
      | inl h ↦
          ground
            (arith, find-last t e k db.balances (empty_balance env t e k policy) h (ground arith))
    ]

abbrev approval_status : Bool → LeaveStatus
approval_status needed = if needed then LeaveStatus.pending_approval else LeaveStatus.submitted

module _ (context : Context) (actor : Actor) (tenant_id : ℕ) (calendars : CalendarTables)
    (coverage : CoverageTables) (c : Creation) (w : World) (calendar : Option Calendar) where
  abbrev evaluation : Evaluation
  evaluation =
      evaluate_calendar_window tenant_id calendar c.leave_type.id c.assignment c.start_at c.end_at
        calendars

  abbrev impact : Impact
  impact =
      coverage_impact_for_window tenant_id c.employee_id c.start_at c.end_at c.assignment
        w.leave.requests coverage

  abbrev filing : Filing
  filing = filing_of c calendar evaluation impact

  created_routes :
      (request : LeaveRequest) (filed : Tables)
      → actor.tenant_id ≡ some tenant_id
      → (c.leave_type.requires_documentation && is_undocumented c.supporting_document_url) ≡ false
      → leb c.end_at c.start_at ≡ false
      → resolve_calendar_for_employee tenant_id c.calendar_id c.assignment calendars ≡ ok calendar
      → has_blocker evaluation.blockers ≡ false
      → file_request context.leave_env actor tenant_id filing w.leave ≡ (ok request, filed)
      → create_leave context actor calendars coverage c w
        ≡ route_request context actor tenant_id c request (record w { leave = filed })
  unfolding create_leave
  created_routes request filed t d o r b f = ground arith

  filed_pending :
      {r : LeaveRequest}
      → (file_request context.leave_env actor tenant_id filing w.leave).0 ≡ ok r
      → 0 < paid_minutes_of filing
      → pending_of tenant_id filing.employee_id filing.leave_type.id
          (file_request context.leave_env actor tenant_id filing w.leave).1.balances
        ≡ pending_of tenant_id filing.employee_id filing.leave_type.id w.leave.balances
          +ℤ pos (paid_minutes_of filing)
  filed_pending {r} ok_filed paid =
      let (b, held, after, _) =
        filing_keeps_floor context.leave_env actor tenant_id filing w.leave {r = r} ok_filed paid in
      let before =
        ensured-pending context.leave_env tenant_id filing.employee_id filing.leave_type.id
          (policy_id_of filing.policy) w.leave b held in
      ap pending_in after ∙ ap (λ x. x +ℤ pos (paid_minutes_of filing)) before

  -- Where a creation passes its checks and its paid request is filed, and the approval engine then
  -- refuses the submission, the creation throws that error, and yet the request stays in its table,
  -- waiting for an approval without a request of the engine, and its paid minutes stay held: the
  -- pending minutes of its employee and type are as much higher as before the call.
  pub refused_submission_keeps_minutes :
      (request : LeaveRequest) {e : Error}
      → actor.tenant_id ≡ some tenant_id
      → (c.leave_type.requires_documentation && is_undocumented c.supporting_document_url) ≡ false
      → leb c.end_at c.start_at ≡ false
      → resolve_calendar_for_employee tenant_id c.calendar_id c.assignment calendars ≡ ok calendar
      → has_blocker evaluation.blockers ≡ false
      → (file_request context.leave_env actor tenant_id filing w.leave).0 ≡ ok request
      → needs_approval c.policy ≡ true
      → 0 < request.paid_minutes
      → (submit_request context.engine_env actor
          (approval_submission_for request c.leave_type_name c.route)
          w.engine).0
        ≡ err e
      → let (result, w') = create_leave context actor calendars coverage c w in
        (result ≡ err e)
        × (w'.leave.requests ≡ w.leave.requests ++ request ∷ [])
        × (request.status ≡ LeaveStatus.pending_approval)
        × (request.approval_request_id ≡ none)
        × (pending_of tenant_id c.employee_id c.leave_type.id w'.leave.balances
            ≡ pending_of tenant_id c.employee_id c.leave_type.id w.leave.balances
              +ℤ pos request.paid_minutes)
  unfolding filing_of
  refused_submission_keeps_minutes request t d o r b f n paid h =
      let filed = (file_request context.leave_env actor tenant_id filing w.leave).1 in
      let same = created_routes request filed t d o r b (λ i. (f i, filed)) in
      let (refused, kept) =
        unrouted context actor tenant_id c request (record w { leave = filed }) n h in
      let leave_kept = ap (λ (x : Result LeaveRequest × World). x.1.leave) same ∙ kept in
      let (own, rows) =
        filed_row context.leave_env actor tenant_id filing w.leave {r = request} f in
      let minutes = ap (λ (q : LeaveRequest). q.paid_minutes) own in
      let held = filed_pending {r = request} f (ground arith) in
      (
        ap (λ (x : Result LeaveRequest × World). x.0) same ∙ refused,
        ap (λ (x : Tables). x.requests) leave_kept
            ∙ (rows ∙ ap (λ q. w.leave.requests ++ q ∷ []) (sym own)),
        ap (λ (q : LeaveRequest). q.status) own ∙ ap approval_status n,
        ap (λ (q : LeaveRequest). q.approval_request_id) own,
        ap (λ (x : Tables). pending_of tenant_id c.employee_id c.leave_type.id x.balances)
              leave_kept
            ∙ (held
                ∙ ap
                    (λ p.
                      pending_of tenant_id c.employee_id c.leave_type.id w.leave.balances +ℤ pos p)
                    (sym minutes)),
      )
