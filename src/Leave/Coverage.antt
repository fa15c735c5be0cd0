-- ===== src/Leave/Coverage.antt =====
-- What a leave does to the headcount of its days (`coverageImpactForWindow` of
-- apps/api-gateway/src/leave/leave.service.ts). Texts of warnings and the conflicts are not kept.
use time_sync_be.Prelude.{
  ℕ, zero, suc, ◌+◌, ◌-◌, ◌*◌, ◌%◌, max, ◌==◌, ltb, leb, Bool, true, false, not, ◌&&◌, ◌||◌, Option,
  none, some, List, [], ◌∷◌, map, if◌then◌else◌, or_default, is_key, includes, select, any, length,
}
use time_sync_be.Leave.Types.{LeaveStatus, LeaveRequest, is_active}
use time_sync_be.Leave.Calendar.{day_ms, Placement, nowhere, covers_placement}
use time_sync_be.Leave.Days.{day_of, weekday_of, days_in_window}
pub mod Safety

pub data AssignmentStatus : Type 0 where
  draft assigned confirmed declined cancelled completed no_show : AssignmentStatus

pub record ScheduleAssignment : Type 0 where
  pub id : ℕ
  pub tenant_id : ℕ
  pub employee_id : ℕ
  pub status : AssignmentStatus
  pub starts_at : ℕ
  pub ends_at : ℕ
  pub placement : Placement

-- `TERMINAL_ASSIGNMENT_STATUSES.includes(status)`
abbrev pub is_over : AssignmentStatus → Bool
is_over AssignmentStatus.cancelled = true
is_over AssignmentStatus.declined = true
is_over AssignmentStatus.no_show = true
is_over _ = false

pub record CoverageRule : Type 0 where
  pub tenant_id : ℕ
  pub is_active : Bool
  pub is_deleted : Bool
  pub weekdays : List ℕ
  pub minimum_headcount : ℕ
  pub effective_from : Option ℕ
  pub effective_to : Option ℕ
  pub placement : Placement

pub record CoverageTables : Type 0 where
  pub assignments : List ScheduleAssignment
  pub rules : List CoverageRule

pub data RiskLevel : Type 0 where
  low medium high : RiskLevel

-- `[...new Set(keys)]`, up to the order, which nothing reads.
abbrev pub distinct : List ℕ → List ℕ
distinct [] = []
distinct (k ∷ ks) = let rest = distinct ks in if includes ks k then rest else k ∷ rest

-- `{ field: value ?? undefined }` restricts nothing where the value is missing.
abbrev pub same_if_given : Option ℕ → Option ℕ → Bool
same_if_given none column = true
same_if_given (some v) column = is_key column v

abbrev pub in_scope : Placement → Placement → Bool
in_scope assignment p =
    same_if_given assignment.organization_node_id p.organization_node_id
    && same_if_given assignment.cost_center_id p.cost_center_id
    && same_if_given assignment.position_id p.position_id

unfoldable pub team_assignments :
    (tenant_id : ℕ)
    → Placement
    → (start_at end_at : ℕ) → List ScheduleAssignment
    → List ScheduleAssignment
team_assignments tenant_id assignment start_at end_at = select (λ a.
    (a.tenant_id == tenant_id)
    && not (is_over a.status)
    && ltb a.starts_at end_at
    && ltb start_at a.ends_at
    && in_scope assignment a.placement)

abbrev pub from_reached : Option ℕ → ℕ → Bool
from_reached none t = true
from_reached (some f) t = leb f t

abbrev pub to_not_passed : Option ℕ → ℕ → Bool
to_not_passed none t = true
to_not_passed (some u) t = leb t u

unfoldable pub coverage_rules :
    (tenant_id : ℕ) → Placement → (start_at end_at : ℕ) → List CoverageRule → List CoverageRule
coverage_rules tenant_id assignment start_at end_at = select (λ r.
    (r.tenant_id == tenant_id)
    && r.is_active
    && not r.is_deleted
    && from_reached r.effective_from end_at
    && to_not_passed r.effective_to start_at
    && covers_placement r.placement assignment)

-- The active leave of the employees of the team in the window.
unfoldable pub team_leave :
    (tenant_id : ℕ) → List ℕ → (start_at end_at : ℕ) → List LeaveRequest → List LeaveRequest
team_leave tenant_id team start_at end_at = select (λ r.
    (r.tenant_id == tenant_id)
    && includes team r.employee_id
    && is_active r.status
    && ltb r.start_at end_at
    && ltb start_at r.end_at
    && not r.is_deleted)

abbrev pub is_settled : LeaveStatus → Bool
is_settled LeaveStatus.approved = true
is_settled LeaveStatus.taken = true
is_settled _ = false

abbrev pub is_awaited : LeaveStatus → Bool
is_awaited LeaveStatus.submitted = true
is_awaited LeaveStatus.pending_approval = true
is_awaited _ = false

-- `Math.max(1, ...rules.map((rule) => rule.minimumHeadcount))`
abbrev pub minimum_of : List CoverageRule → ℕ
minimum_of [] = 1
minimum_of (r ∷ rules) = max r.minimum_headcount (minimum_of rules)

pub record CoverageDay : Type 0 where
  pub day : ℕ
  pub scheduled_employee_ids : List ℕ
  pub approved_leave_employee_ids : List ℕ
  pub pending_leave_employee_ids : List ℕ
  pub requested_employee_scheduled : Bool
  pub minimum_headcount : ℕ
  pub projected_headcount : ℕ
  pub risk_level : RiskLevel

abbrev pub on_day_assignment : (day : ℕ) → ScheduleAssignment → Bool
on_day_assignment day a = ltb a.starts_at ((day + 1) * day_ms) && ltb (day * day_ms) a.ends_at

abbrev pub on_day_leave : (day : ℕ) → LeaveRequest → Bool
on_day_leave day r = ltb r.start_at ((day + 1) * day_ms) && ltb (day * day_ms) r.end_at

abbrev pub leave_employees : (LeaveStatus → Bool) → List LeaveRequest → List ℕ
leave_employees p leave =
    distinct (map (λ (r : LeaveRequest). r.employee_id) (select (λ r. p r.status) leave))

-- `Math.max(0, scheduled - approved - (requestedEmployeeScheduled ? 1 : 0))`
abbrev pub projected : (scheduled approved : List ℕ) → (requested_scheduled : Bool) → ℕ
projected scheduled approved requested_scheduled =
    length scheduled - length approved - (if requested_scheduled then 1 else 0)

abbrev pub risk_of :
    (minimum projected_headcount : ℕ)
    → (requested_scheduled : Bool) → (pending : List ℕ) → RiskLevel
risk_of minimum projected_headcount requested_scheduled pending =
    if ltb projected_headcount minimum
    then high
    else if requested_scheduled || ltb 0 (length pending)
    then medium
    else low

unfoldable pub coverage_day :
    (employee_id : ℕ)
    → List ScheduleAssignment
    → List LeaveRequest
    → List CoverageRule
    → (day : ℕ) → CoverageDay
coverage_day employee_id assignments leave rules day =
    let scheduled = distinct (
      map (λ (a : ScheduleAssignment). a.employee_id)
        (select (on_day_assignment day) assignments)) in
    let active = select (on_day_leave day) leave in
    let approved = leave_employees is_settled active in
    let pending = leave_employees is_awaited active in
    let minimum =
      minimum_of
        (select (λ r. ltb (length r.weekdays) 1 || includes r.weekdays (weekday_of day)) rules) in
    let here = includes scheduled employee_id in
    let left = projected scheduled approved here in
    record {
      day = day;
      scheduled_employee_ids = scheduled;
      approved_leave_employee_ids = approved;
      pending_leave_employee_ids = pending;
      requested_employee_scheduled = here;
      minimum_headcount = minimum;
      projected_headcount = left;
      risk_level = risk_of minimum left here pending;
    }

unfoldable pub coverage_days : (ℕ → CoverageDay) → (rounds day : ℕ) → List CoverageDay
coverage_days f zero day = []
coverage_days f (suc n) day = f day ∷ coverage_days f n (day + 1)

abbrev pub is_high : RiskLevel → Bool
is_high high = true
is_high _ = false

abbrev pub is_medium : RiskLevel → Bool
is_medium medium = true
is_medium _ = false

abbrev pub overall_risk : List CoverageDay → RiskLevel
overall_risk rows =
    if any (λ r. is_high r.risk_level) rows
    then high
    else if any (λ r. is_medium r.risk_level) rows
    then medium
    else low

pub record Impact : Type 0 where
  pub risk_level : RiskLevel
  pub rows : List CoverageDay

unfoldable pub coverage_impact_for_window :
    (tenant_id employee_id start_at end_at : ℕ)
    → Option Placement
    → List LeaveRequest
    → CoverageTables
    → Impact
unfolding team_assignments coverage_rules team_leave
coverage_impact_for_window tenant_id employee_id start_at end_at assignment requests db =
    let placement = or_default assignment nowhere in
    let team = team_assignments tenant_id placement start_at end_at db.assignments in
    let rules = coverage_rules tenant_id placement start_at end_at db.rules in
    let members = distinct (map (λ (a : ScheduleAssignment). a.employee_id) team) in
    let leave = team_leave tenant_id members start_at end_at requests in
    let rows =
      coverage_days (coverage_day employee_id team leave rules) (days_in_window start_at end_at)
        (day_of start_at) in
    record { risk_level = overall_risk rows; rows = rows }
