-- ===== src/Workflows/Renumbering.antt =====
-- Proofs about the two loops of `compactStepOrders` and `reorderSteps` of
-- apps/api-gateway/src/workflows/workflows.service.ts.
use time_sync_be.Prelude.{
  ℕ, suc, ◌+◌, ◌==◌, ltb, leb, Bool, true, false, not, ◌||◌, Option, none, some, List, [], ◌∷◌, ◌≡◌,
  refl, sym, ap, ◌∙◌, arith, if◌then◌else◌, All, any, map, is_none, includes, update_where, Result,
  Handler, ok, err,
}
use mathlib.Core.Path.{subst}
use time_sync_be.Prelude.Int.{ℤ, pos, negsuc}
use time_sync_be.Workflows.Types.{WorkflowStep, Tables}
use time_sync_be.Workflows.Orders.{
  of_workflow, takes_order, set_order, place_steps, out_of_the_way, in_place, renumber,
}

-- The orders that the first loop leaves free from `index` on, and those that the second does.
abbrev pub moved_below : (index : ℕ) → ℤ → Bool
moved_below index (pos n) = true
moved_below index (negsuc n) = ltb n index

abbrev pub placed_below : (index : ℕ) → ℤ → Bool
placed_below index (pos n) = leb n index
placed_below index (negsuc n) = true

-- Every step of the workflow has an order of the kind.
abbrev pub InWorkflow : (workflow_id : ℕ) → (ℤ → Bool) → List WorkflowStep → Type 0
InWorkflow w p = All (λ s. (not (of_workflow w s) || p s.step_order) ≡ true)

abbrev pub with_order : (step_id : ℕ) → ℤ → List WorkflowStep → List WorkflowStep
with_order k order = update_where (λ s. s.id == k) (λ s. record s { step_order = order })

-- The steps after a loop.
abbrev pub with_orders :
    (place : ℕ → ℤ) → (index : ℕ) → List ℕ → List WorkflowStep → List WorkflowStep
with_orders place index [] steps = steps
with_orders place index (k ∷ ks) steps =
    with_orders place (index + 1) ks (with_order k (place index) steps)

free_to_move :
    (w k index : ℕ) (steps : List WorkflowStep)
    → InWorkflow w (moved_below index) steps
    → any (takes_order w k (out_of_the_way index)) steps ≡ false
free_to_move w k index [] h = refl
free_to_move w k index (s ∷ steps) h = ground (arith, free_to_move w k index steps)

still_moved :
    (w k index : ℕ) (steps : List WorkflowStep)
    → InWorkflow w (moved_below index) steps
    → InWorkflow w (moved_below (index + 1)) (with_order k (out_of_the_way index) steps)
still_moved w k index [] h = tt
still_moved w k index (s ∷ steps) h = (ground arith, still_moved w k index steps h.1)

free_to_place :
    (w k index : ℕ) (steps : List WorkflowStep)
    → InWorkflow w (placed_below index) steps
    → any (takes_order w k (in_place index)) steps ≡ false
free_to_place w k index [] h = refl
free_to_place w k index (s ∷ steps) h = ground (arith, free_to_place w k index steps)

still_placed :
    (w k index : ℕ) (steps : List WorkflowStep)
    → InWorkflow w (placed_below index) steps
    → InWorkflow w (placed_below (index + 1)) (with_order k (in_place index) steps)
still_placed w k index [] h = tt
still_placed w k index (s ∷ steps) h = (ground arith, still_placed w k index steps h.1)

set_order-free :
    (w k : ℕ) (order : ℤ) (db : Tables)
    → any (takes_order w k order) db.steps ≡ false
    → set_order w k order db ≡ (ok tt, record db { steps = with_order k order db.steps })
unfolding set_order
set_order-free w k order db h = rw (h, set_order) refl

-- What `>>` does with the outcome of its first part.
abbrev resume : Result (Unit {0}) × Tables → Handler Tables (Unit {0}) → Result (Unit {0}) × Tables
resume (r, s) k = elim r [ ok a ↦ k s | err e ↦ (err e, s) ]

-- A loop that starts with a free order goes on with the step there.
place_steps-free :
    (place : ℕ → ℤ) (w index k : ℕ) (ks : List ℕ) (db : Tables)
    → any (takes_order w k (place index)) db.steps ≡ false
    → place_steps place w index (k ∷ ks) db
      ≡ place_steps place w
          (index + 1)
          ks
          (record db { steps = with_order k (place index) db.steps })
unfolding place_steps
place_steps-free place w index k ks db h =
    ap (λ (r : Result (Unit {0}) × Tables). resume r (place_steps place w (index + 1) ks))
      (set_order-free w k (place index) db h)

-- The last place of an id among those of the list.
abbrev pub place_of : (index : ℕ) → List ℕ → (id : ℕ) → Option ℕ
place_of index [] id = none
place_of index (k ∷ ks) id = elim (place_of (index + 1) ks id) [
  | some i ↦ some i
  | none ↦ if id == k then some index else none
]

abbrev pub at_place : (place : ℕ → ℤ) → Option ℕ → WorkflowStep → WorkflowStep
at_place place none s = s
at_place place (some i) s = record s { step_order = place i }

-- Neither loop meets an order that is taken.
moves :
    (w index : ℕ) (ids : List ℕ) (db : Tables)
    → InWorkflow w (moved_below index) db.steps
    → place_steps out_of_the_way w index ids db
      ≡ (ok tt, record db { steps = with_orders out_of_the_way index ids db.steps })
unfolding place_steps
moves w index [] db h = refl
moves w index (k ∷ ks) db h =
    place_steps-free out_of_the_way w index k ks db (free_to_move w k index db.steps h)
    ∙ moves w (index + 1) ks (record db { steps = with_order k (out_of_the_way index) db.steps })
        (still_moved w k index db.steps h)

places :
    (w index : ℕ) (ids : List ℕ) (db : Tables)
    → InWorkflow w (placed_below index) db.steps
    → place_steps in_place w index ids db
      ≡ (ok tt, record db { steps = with_orders in_place index ids db.steps })
unfolding place_steps
places w index [] db h = refl
places w index (k ∷ ks) db h =
    place_steps-free in_place w index k ks db (free_to_place w k index db.steps h)
    ∙ places w (index + 1) ks (record db { steps = with_order k (in_place index) db.steps })
        (still_placed w k index db.steps h)

map_id : (steps : List WorkflowStep) → map (λ s. s) steps ≡ steps
map_id [] = refl
map_id (s ∷ steps) = ap (◌∷◌ s) (map_id steps)

one_more :
    (place : ℕ → ℤ) (index k : ℕ) (ks : List ℕ) (steps : List WorkflowStep)
    → map (λ s. at_place place (place_of (index + 1) ks s.id) s) (with_order k (place index) steps)
      ≡ map (λ s. at_place place (place_of index (k ∷ ks) s.id) s) steps
one_more place index k ks [] = refl
one_more place index k ks (s ∷ steps) = ground (arith, one_more place index k ks steps)

with_orders-eq_map :
    (place : ℕ → ℤ) (index : ℕ) (ids : List ℕ) (steps : List WorkflowStep)
    → with_orders place index ids steps
      ≡ map (λ s. at_place place (place_of index ids s.id) s) steps
with_orders-eq_map place index [] steps = sym (map_id steps)
with_orders-eq_map place index (k ∷ ks) steps =
    with_orders-eq_map place (index + 1) ks (with_order k (place index) steps)
    ∙ one_more place index k ks steps

includes-eq_place :
    (index : ℕ) (ids : List ℕ) (id : ℕ) → includes ids id ≡ not (is_none (place_of index ids id))
includes-eq_place index [] id = refl
includes-eq_place index (k ∷ ks) id = ground (arith, includes-eq_place (index + 1) ks id)

-- Every step of the workflow has its id among the ids.
abbrev pub Listed : (workflow_id : ℕ) → List ℕ → List WorkflowStep → Type 0
Listed w ids = All (λ s. (not (of_workflow w s) || includes ids s.id) ≡ true)

all_moved :
    (w : ℕ) (ids : List ℕ) (steps : List WorkflowStep)
    → Listed w ids steps
    → InWorkflow w
        (placed_below 0)
        (map (λ s. at_place out_of_the_way (place_of 0 ids s.id) s) steps)
all_moved w ids [] h = tt
all_moved w ids (s ∷ steps) h =
    (ground (arith, includes-eq_place 0 ids s.id), all_moved w ids steps h.1)

-- The steps in the order of the list, from one on; the others as they are.
abbrev pub renumbered : List ℕ → List WorkflowStep → List WorkflowStep
renumbered ids = map (λ s. at_place (λ i. pos (suc i)) (place_of 0 ids s.id) s)

moved_then_placed :
    (ids : List ℕ) (steps : List WorkflowStep)
    → renumbered ids (map (λ s. at_place out_of_the_way (place_of 0 ids s.id) s) steps)
      ≡ renumbered ids steps
moved_then_placed ids [] = refl
moved_then_placed ids (s ∷ steps) = ground (arith, moved_then_placed ids steps)

abbrev done : Tables → Result (Unit {0}) × Tables
done db = (ok tt, db)

pub renumber_lem :
    (w : ℕ) (ids : List ℕ) (db : Tables)
    → InWorkflow w (moved_below 0) db.steps
    → Listed w ids db.steps
    → renumber w ids db ≡ (ok tt, record db { steps = renumbered ids db.steps })
unfolding renumber
renumber_lem w ids db h l =
    let moved = with_orders out_of_the_way 0 ids db.steps in
    let e = with_orders-eq_map out_of_the_way 0 ids db.steps in
    let below = subst (InWorkflow w (placed_below 0)) (sym e) (all_moved w ids db.steps l) in
    ap (λ (r : Result (Unit {0}) × Tables). resume r (place_steps in_place w 0 ids))
      (moves w 0 ids db h)
    ∙ places w 0 ids (record db { steps = moved }) below
    ∙ ap (λ (rows : List WorkflowStep). done (record db { steps = rows }))
        (with_orders-eq_map in_place 0 ids moved
          ∙ ap (renumbered ids) e
          ∙ moved_then_placed ids db.steps)
