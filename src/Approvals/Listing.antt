-- ===== src/Approvals/Listing.antt =====
-- Proofs about `filterCurrentSteps` of apps/api-gateway/src/workflows/approvals.service.ts: the
-- steps that it keeps.
use time_sync_be.Prelude.{
  ℕ, ◌≤◌, ◌==◌, ltb, Bool, true, false, ◌&&◌, Option, none, some, List, [], ◌∷◌, ◌≡◌, ◌≢◌, refl, ap,
  ◌∙◌, ◌↔◌, ◌⊎◌, inl, sym, inr, arith, if◌then◌else◌, select, any, All, Bool-cases, Option-cases,
}
use time_sync_be.Approvals.Types.{StepInstance, is_pending}
use time_sync_be.Approvals.Access.{Among, here, there}
use time_sync_be.Approvals.Tasks.{
  lookup, insert, lower, note_step, min_by_request, is_least, filter_current_steps,
}

lookup-insert :
    (k j v : ℕ) (m : List (ℕ × ℕ))
    → lookup j (insert k v m) ≡ (if k == j then some v else lookup j m)
lookup-insert k j v [] = refl
lookup-insert k j v ((i, w) ∷ m) = ground (arith, lookup-insert k j v m)

-- The least order of the pending steps of a request, as a plain recursion with a start.
abbrev least : (request_id : ℕ) → List StepInstance → Option ℕ → Option ℕ
least r [] start = start
least r (s ∷ steps) start = least r steps (
    if (s.approval_request_id == r) && is_pending s.status && lower s.step_order start
    then some s.step_order
    else start)

lookup-note_step :
    (r : ℕ) (s : StepInstance) (m : List (ℕ × ℕ))
    → lookup r (note_step s m) ≡ (
        if (s.approval_request_id == r) && is_pending s.status && lower s.step_order (lookup r m)
        then some s.step_order
        else lookup r m)
lookup-note_step r s m = ground (arith, lookup-insert s.approval_request_id r s.step_order m)

lookup-min_by_request :
    (r : ℕ) (steps : List StepInstance) (m : List (ℕ × ℕ))
    → lookup r (min_by_request steps m) ≡ least r steps (lookup r m)
unfolding min_by_request
lookup-min_by_request r [] m = refl
lookup-min_by_request r (s ∷ steps) m =
    lookup-min_by_request r steps (note_step s m) ∙ ap (least r steps) (lookup-note_step r s m)

-- a pending step of the request with the order
abbrev pub is_pending_at : (request_id order : ℕ) → StepInstance → Bool
is_pending_at r v t = (t.approval_request_id == r) && is_pending t.status && (t.step_order == v)

-- The order is no more than that of a pending step of the request.
abbrev pub NotAfter : (request_id order : ℕ) → StepInstance → Type 0
NotAfter r v t = t.approval_request_id ≡ r → is_pending t.status ≡ true → v ≤ t.step_order

least-le_start :
    (r : ℕ) (steps : List StepInstance) (v w : ℕ) → least r steps (some w) ≡ some v → v ≤ w
least-le_start r [] v w h = ground arith
least-le_start r (s ∷ steps) v w h =
    elim (Bool-cases ((s.approval_request_id == r) && is_pending s.status && ltb s.step_order w)) [
      | inl e ↦ ground (arith, least-le_start r steps v s.step_order (rw e at h))
      | inr e ↦ ground (arith, least-le_start r steps v w (rw e at h))
    ]

head-NotAfter :
    (r : ℕ) (s : StepInstance) (steps : List StepInstance) (start : Option ℕ) (v : ℕ)
    → least r (s ∷ steps) start ≡ some v
    → NotAfter r v s
head-NotAfter r s steps none v h p q = ground (arith, least-le_start r steps v s.step_order)
head-NotAfter r s steps (some w) v h p q =
    ground (arith, least-le_start r steps v s.step_order, least-le_start r steps v w)

least-NotAfter :
    (r : ℕ) (steps : List StepInstance) (start : Option ℕ) (v : ℕ)
    → least r steps start ≡ some v
    → All (NotAfter r v) steps
least-NotAfter r [] start v h = tt
least-NotAfter r (s ∷ steps) start v h =
    (head-NotAfter r s steps start v h, least-NotAfter r steps _ v h)

least-met :
    (r : ℕ) (steps : List StepInstance) (start : Option ℕ) (v : ℕ)
    → least r steps start ≡ some v
    → (start ≡ some v) ⊎ (any (is_pending_at r v) steps ≡ true)
least-met r [] start v h = inl h
least-met r (s ∷ steps) start v h =
    elim (Bool-cases
      ((s.approval_request_id == r) && is_pending s.status && lower s.step_order start)) [
        | inl e ↦ ground (arith, least-met r steps (some s.step_order) v (rw e at h))
        | inr e ↦ ground (arith, least-met r steps start v (rw e at h))
      ]

least-some : (r : ℕ) (steps : List StepInstance) (w : ℕ) → least r steps (some w) ≢ none
least-some r [] w h = cc
least-some r (s ∷ steps) w h =
    elim (Bool-cases ((s.approval_request_id == r) && is_pending s.status && ltb s.step_order w)) [
      | inl e ↦ least-some r steps s.step_order (rw e at h)
      | inr e ↦ least-some r steps w (rw e at h)
    ]

least-none :
    (r v : ℕ) (steps : List StepInstance) (start : Option ℕ)
    → least r steps start ≡ none
    → any (is_pending_at r v) steps ≡ false
least-none r v [] start h = refl
least-none r v (s ∷ steps) none h =
    elim (Bool-cases ((s.approval_request_id == r) && is_pending s.status)) [
      | inl e ↦
          ground (arith, least-none r v steps (some s.step_order), least-some r steps s.step_order)
      | inr e ↦ ground (arith, least-none r v steps none)
    ]
least-none r v (s ∷ steps) (some w) h = absurd (least-some r (s ∷ steps) w h)

NotAfter-le :
    (r v w : ℕ) (steps : List StepInstance)
    → All (NotAfter r v) steps
    → any (is_pending_at r w) steps ≡ true
    → v ≤ w
NotAfter-le r v w [] a m = cc
NotAfter-le r v w (s ∷ steps) a m = elim (Bool-cases (is_pending_at r w s)) [
  | inl e ↦
      let pending : is_pending s.status ≡ true = ground arith in
      let same : s.approval_request_id ≡ r = ground arith in ground (arith, a.0 same pending)
  | inr e ↦ NotAfter-le r v w steps a.1 (ground arith)
]

-- `least` finds the order of a pending step of the request that no other one comes before.
least_iff :
    (r v : ℕ) (steps : List StepInstance)
    → (least r steps none ≡ some v)
      ↔ ((any (is_pending_at r v) steps ≡ true) × All (NotAfter r v) steps)
least_iff r v steps = (
  λ h. (ground (arith, least-met r steps none v h), least-NotAfter r steps none v h),
  λ (m, a). elim (Option-cases (least r steps none)) [
    | inl e ↦ cc (least-none r v steps none e)
    | inr (w, e) ↦
        let met : any (is_pending_at r w) steps ≡ true =
          ground (arith, least-met r steps none w e) in
        let low : v ≤ w = NotAfter-le r v w steps a met in
        let high : w ≤ v = NotAfter-le r w v steps (least-NotAfter r steps none w e) m in
        ground arith
  ],
)

-- What the filter should keep of the steps given: those at the order of a pending step of their
-- request that no pending step of it, among the steps given, comes before.
abbrev pub IsCurrent : List StepInstance → StepInstance → Type 0
IsCurrent steps s =
    (any (is_pending_at s.approval_request_id s.step_order) steps ≡ true)
    × All (NotAfter s.approval_request_id s.step_order) steps

is_least_iff :
    (steps : List StepInstance) (s : StepInstance)
    → (is_least (min_by_request steps []) s ≡ true) ↔ IsCurrent steps s
is_least_iff steps s =
    let found = lookup-min_by_request s.approval_request_id steps [] in
    let iff = least_iff s.approval_request_id s.step_order steps in
    (λ h. iff.0 (ground arith), λ c. ground (arith, iff.1 c))

not_in_nil : {A : Type 0} {P : A → Type 0} → Among P [] → ⊥
not_in_nil m = elim m [ ]

in_cons : {A : Type 0} {P : A → Type 0} {x : A} {xs : List A} → Among P (x ∷ xs) → P x ⊎ Among P xs
in_cons (here p) = inl p
in_cons (there m) = inr m

unkept-Among :
    (all : List StepInstance) (s : StepInstance) (steps : List StepInstance)
    → Among (λ t. t ≡ s) (select (is_least (min_by_request all [])) steps)
    → IsCurrent all s × Among (λ t. t ≡ s) steps
unkept-Among all s [] m = absurd (not_in_nil m)
unkept-Among all s (t ∷ steps) m = elim (Bool-cases (is_least (min_by_request all []) t)) [
  | inl e ↦ elim (in_cons (rw e at m)) [
    | inl same ↦
        ((is_least_iff all s).0 (ap (is_least (min_by_request all [])) (sym same) ∙ e), here same)
    | inr rest ↦ let (c, held) = unkept-Among all s steps rest in (c, there held)
  ]
  | inr e ↦ let (c, rest) = unkept-Among all s steps (rw e at m) in (c, there rest)
]

kept-Among :
    (all : List StepInstance) (s : StepInstance) {steps : List StepInstance}
    → IsCurrent all s
    → Among (λ t. t ≡ s) steps
    → Among (λ t. t ≡ s) (select (is_least (min_by_request all [])) steps)
kept-Among all s c (here {x = t} {xs = rest} e) =
    rw (ap (is_least (min_by_request all [])) e ∙ (is_least_iff all s).1 c) (here e)
kept-Among all s c (there {x = t} {xs = rest} m) =
    elim (Bool-cases (is_least (min_by_request all []) t)) [
      | inl e ↦ rw e (there (kept-Among all s c m))
      | inr e ↦ rw e (kept-Among all s c m)
    ]

-- The filter keeps exactly the steps, of those given, at the order of a pending step of their
-- request before which no pending step of that request stands among those given.
pub filter-IsCurrent :
    (steps : List StepInstance) (s : StepInstance)
    → Among (λ t. t ≡ s) (filter_current_steps steps)
      ↔ (IsCurrent steps s × Among (λ t. t ≡ s) steps)
unfolding filter_current_steps
filter-IsCurrent steps s = (unkept-Among steps s steps, λ h. kept-Among steps s h.0 h.1)
