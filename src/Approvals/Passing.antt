-- ===== src/Approvals/Passing.antt =====
-- Proofs about the steps that `advanceAutomatedSteps` of
-- apps/api-gateway/src/workflows/approvals.service.ts passes over.
use time_sync_be.Prelude.{
  ℕ, ◌==◌, Bool, true, false, not, ◌&&◌, Option, none, some, List, [], ◌∷◌, ◌≡◌, refl, sym, ap, ◌∙◌,
  ◌⊎◌, inl, inr, arith, any, All,
}
use mathlib.Core.Path.{subst⁻¹}
use time_sync_be.Approvals.Types.{
  ApprovalStatus, WorkflowStep, WorkflowStepType, StepInstance, is_pending,
}
use time_sync_be.Approvals.Steps.{current_pending_step, steps_of, waits_for_person, complete_step}

abbrev unattended : (is_required : Bool) → WorkflowStepType → Bool
unattended false _ = true
unattended true WorkflowStepType.approval = false
unattended true WorkflowStepType.review = false
unattended true WorkflowStepType.notification = true
unattended true WorkflowStepType.system_action = true

-- A step that nobody has to act on: it is optional, it notifies or runs an action, or its workflow
-- step is gone.
abbrev pub needs_nobody : Option WorkflowStep → Bool
needs_nobody none = true
needs_nobody (some w) = unattended w.is_required w.type

waits-unattended :
    (r : Bool) (type : WorkflowStepType) (w : WorkflowStep)
    → w.is_required ≡ r
    → w.type ≡ type
    → waits_for_person (some w) ≡ not (unattended r type)
waits-unattended false _ w h k = ground arith
waits-unattended true WorkflowStepType.approval w h k = ground arith
waits-unattended true WorkflowStepType.review w h k = ground arith
waits-unattended true WorkflowStepType.notification w h k = ground arith
waits-unattended true WorkflowStepType.system_action w h k = ground arith

pub waits-needs_nobody : (w : Option WorkflowStep) → waits_for_person w ≡ not (needs_nobody w)
waits-needs_nobody none = refl
waits-needs_nobody (some w) = waits-unattended w.is_required w.type w refl refl

-- a pending step of the request with the id, that nobody has to act on
abbrev pub is_passable : (request_id step_id : ℕ) → StepInstance → Bool
is_passable r k s =
    (s.approval_request_id == r)
    && is_pending s.status
    && (s.id == k)
    && needs_nobody s.workflow_step

abbrev pub may_pass : (request_id : ℕ) → List StepInstance → ℕ → Bool
may_pass r rows k = any (is_passable r k) rows

abbrev pub passed_at : (now : ℕ) → StepInstance → StepInstance
passed_at now s = record s { status = ApprovalStatus.approved; completed_at = some now }

-- The rows after some of those whose id is allowed were approved and completed, and no other row was
-- touched.
abbrev pub Passed : (now : ℕ) → (ℕ → Bool) → List StepInstance → List StepInstance → Type 0
Passed now may [] [] = Unit
Passed now may (s ∷ rows) (s' ∷ rows') =
    ((s' ≡ s) ⊎ ((may s.id ≡ true) × (s' ≡ passed_at now s))) × Passed now may rows rows'
Passed now may [] (s ∷ rows) = ⊥
Passed now may (s ∷ rows) [] = ⊥

module _ (now : ℕ) (may : ℕ → Bool) where
  pub unchanged-Passed : (rows : List StepInstance) → Passed now may rows rows
  unchanged-Passed [] = tt
  unchanged-Passed (s ∷ rows) = (inl refl, unchanged-Passed rows)

  pub complete-Passed :
      (k : ℕ)
      → may k ≡ true
      → (rows : List StepInstance)
      → Passed now may rows (complete_step now ApprovalStatus.approved k rows)
  unfolding complete_step
  complete-Passed k allowed [] = tt
  complete-Passed k allowed (s ∷ rows) = (ground arith, complete-Passed k allowed rows)

  module _ (may' : ℕ → Bool) (wider : (k : ℕ) → may' k ≡ true → may k ≡ true) where
    both :
        (x y z : StepInstance)
        → (y ≡ x) ⊎ ((may x.id ≡ true) × (y ≡ passed_at now x))
        → (z ≡ y) ⊎ ((may' y.id ≡ true) × (z ≡ passed_at now y))
        → (z ≡ x) ⊎ ((may x.id ≡ true) × (z ≡ passed_at now x))
    both x y z (inl e) (inl f) = inl (f ∙ e)
    both x y z (inr (m, e)) (inl f) = inr (m, f ∙ e)
    both x y z (inl e) (inr (m, f)) =
        inr (wider x.id (sym (ap (λ s. may' s.id) e) ∙ m), f ∙ ap (passed_at now) e)
    both x y z (inr (m, e)) (inr (_, f)) = inr (m, f ∙ ap (passed_at now) e)

    pub Passed-trans :
        (xs ys zs : List StepInstance)
        → Passed now may xs ys
        → Passed now may' ys zs
        → Passed now may xs zs
    Passed-trans [] [] [] h k = tt
    Passed-trans [] [] (z ∷ zs) h k = k
    Passed-trans [] (y ∷ ys) zs h k = absurd h
    Passed-trans (x ∷ xs) [] zs h k = absurd h
    Passed-trans (x ∷ xs) (y ∷ ys) [] h k = k
    Passed-trans (x ∷ xs) (y ∷ ys) (z ∷ zs) h k =
        (both x y z h.0 k.0, Passed-trans xs ys zs h.1 k.1)

pub passable-before :
    (now r k j : ℕ) (rows : List StepInstance)
    → may_pass r (complete_step now ApprovalStatus.approved j rows) k ≡ true
    → may_pass r rows k ≡ true
unfolding complete_step
passable-before now r k j [] h = cc
passable-before now r k j (s ∷ rows) h = ground (arith, passable-before now r k j rows)

pub current-passable :
    (r : ℕ) (a : StepInstance) (rows : List StepInstance)
    → current_pending_step (steps_of r rows) ≡ some a
    → needs_nobody a.workflow_step ≡ true
    → may_pass r rows a.id ≡ true
unfolding current_pending_step
current-passable r a [] h passes = cc
current-passable r a (x ∷ rows) h passes = ground (arith, current-passable r a rows)

-- A row of the step with the id is approved, and was completed now.
abbrev pub IsDone : (now step_id : ℕ) → StepInstance → Type 0
IsDone now k s = s.id ≡ k → (s.status ≡ ApprovalStatus.approved) × (s.completed_at ≡ some now)

pub complete-IsDone :
    (now k : ℕ) (rows : List StepInstance)
    → All (IsDone now k) (complete_step now ApprovalStatus.approved k rows)
unfolding complete_step
complete-IsDone now k [] = tt
complete-IsDone now k (s ∷ rows) =
    (λ same. (ground arith, ground arith), complete-IsDone now k rows)

still-IsDone :
    (now k : ℕ) (s s' : StepInstance)
    → (s' ≡ s) ⊎ (s' ≡ passed_at now s)
    → IsDone now k s
    → IsDone now k s'
still-IsDone now k s s' (inl e) done = subst⁻¹ (IsDone now k) e done
still-IsDone now k s s' (inr e) done = subst⁻¹ (IsDone now k) e (λ _. (refl, refl))

pub Passed-IsDone :
    (now k : ℕ) (may : ℕ → Bool) (rows rows' : List StepInstance)
    → Passed now may rows rows'
    → All (IsDone now k) rows
    → All (IsDone now k) rows'
Passed-IsDone now k may [] [] h done = tt
Passed-IsDone now k may [] (s' ∷ rows') h done = absurd h
Passed-IsDone now k may (s ∷ rows) [] h done = absurd h
Passed-IsDone now k may (s ∷ rows) (s' ∷ rows') h done = (
  still-IsDone now k s s' (elim h.0 [ inl e ↦ inl e | inr (_, e) ↦ inr e ]) done.0,
  Passed-IsDone now k may rows rows' h.1 done.1,
)
