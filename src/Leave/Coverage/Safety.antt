-- ===== src/Leave/Coverage/Safety.antt =====
-- Proofs about the headcount that `coverageImpactForWindow` of
-- apps/api-gateway/src/leave/leave.service.ts projects for a day.
use time_sync_be.Prelude.{
  ℕ, ◌+◌, ◌≤◌, ◌==◌, ltb, Bool, true, not, ◌&&◌, List, [], ◌∷◌, map, ◌≡◌, refl, ◌⊎◌, inl, inr,
  Bool-cases, arith, if◌then◌else◌, count, includes, select, length,
}
use time_sync_be.Leave.Types.{LeaveRequest}
use time_sync_be.Leave.Coverage.{
  ScheduleAssignment, CoverageRule, distinct, projected, risk_of, on_day_assignment, coverage_day,
  is_high,
}

-- The employees that are scheduled, are not the one who asks, and have no approved leave.
abbrev pub remaining : (employee_id : ℕ) → (scheduled approved : List ℕ) → ℕ
remaining employee_id scheduled approved =
    count (λ k. not (includes approved k) && not (k == employee_id)) scheduled

length-split :
    (e : ℕ) (approved scheduled : List ℕ)
    → length scheduled
      ≤ remaining e scheduled approved
        + count (includes approved) scheduled
        + count (λ k. k == e) scheduled
length-split e approved [] = omega arith
length-split e approved (k ∷ ks) = ground (arith, length-split e approved ks)

includes-distinct : (k : ℕ) (ks : List ℕ) → includes (distinct ks) k ≡ includes ks k
includes-distinct k [] = refl
includes-distinct k (j ∷ ks) = ground (arith, includes-distinct k ks)

count-distinct :
    (e : ℕ) (ks : List ℕ) → count (λ k. k == e) (distinct ks) ≡ (if includes ks e then 1 else 0)
count-distinct e [] = refl
count-distinct e (k ∷ ks) = ground (arith, count-distinct e ks)

count_cons :
    (a : ℕ) (approved scheduled : List ℕ)
    → count (includes (a ∷ approved)) scheduled
      ≤ count (λ k. k == a) scheduled + count (includes approved) scheduled
count_cons a approved [] = omega arith
count_cons a approved (k ∷ ks) = ground (arith, count_cons a approved ks)

none_included : (ks : List ℕ) → count (includes []) ks ≡ 0
none_included [] = refl
none_included (k ∷ ks) = ground (arith, none_included ks)

count-includes_le :
    (approved ks : List ℕ) → count (includes approved) (distinct ks) ≤ length approved
count-includes_le [] ks = omega (arith, none_included (distinct ks))
count-includes_le (a ∷ approved) ks =
    ground (
      arith,
      count_cons a approved (distinct ks),
      count-includes_le approved ks,
      count-distinct a ks,
    )

projected-le-remaining :
    (e : ℕ) (approved ks : List ℕ)
    → projected (distinct ks) approved (includes (distinct ks) e)
      ≤ remaining e (distinct ks) approved
projected-le-remaining e approved ks = ground (
  arith,
  length-split e approved (distinct ks),
  count-includes_le approved ks,
  count-distinct e ks,
  includes-distinct e ks,
)

risk-bounds :
    (minimum left bound : ℕ) (here : Bool) (pending : List ℕ)
    → left ≤ bound
    → (is_high (risk_of minimum left here pending) ≡ true) ⊎ (minimum ≤ bound)
risk-bounds minimum left bound here pending h = elim (Bool-cases (ltb left minimum)) [
  | inl short ↦ inl (ground arith)
  | inr enough ↦ inr (ground arith)
]

-- The headcount that is projected for a day is at most the number of employees who are scheduled on
-- it, are not the one who asks, and have no approved leave; so a day that is not flagged as a high
-- risk keeps at least the minimum headcount of its rules.
pub coverage_is_safe :
    (employee_id : ℕ) (assignments : List ScheduleAssignment) (leave : List LeaveRequest)
    (rules : List CoverageRule) (day : ℕ)
    → let row = coverage_day employee_id assignments leave rules day in
      let left = remaining employee_id row.scheduled_employee_ids row.approved_leave_employee_ids in
      (row.projected_headcount ≤ left)
      × ((is_high row.risk_level ≡ true) ⊎ (row.minimum_headcount ≤ left))
unfolding coverage_day
coverage_is_safe employee_id assignments leave rules day =
    let row = coverage_day employee_id assignments leave rules day in
    let safe : row.projected_headcount
        ≤ remaining employee_id row.scheduled_employee_ids row.approved_leave_employee_ids =
      projected-le-remaining employee_id row.approved_leave_employee_ids (
        map (λ (a : ScheduleAssignment). a.employee_id)
          (select (on_day_assignment day) assignments)) in
    (
      safe,
      risk-bounds row.minimum_headcount row.projected_headcount _ row.requested_employee_scheduled
          row.pending_leave_employee_ids safe,
    )
