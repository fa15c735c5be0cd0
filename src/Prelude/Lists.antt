-- ===== src/Prelude/Lists.antt =====
-- Tables as lists of rows: the queries and writes that the services make of them, and their laws.
use Prim.Native.Nat.{ℕ, zero, suc, ◌+◌}
use mathlib.Core.Path.{◌≡◌, refl}
use mathlib.Core.Bool.{Bool, true, false, ◌||◌}
use mathlib.Core.Option.{Option, none, some}
use mathlib.Core.List.{List, [], ◌∷◌, ◌++◌}
use native.Mathlib.Omega.{arith}
use time_sync_be.Prelude.Tests.{if◌then◌else◌}

module _ {ℓ} {A : Type ℓ} where
  abbrev pub length : List A → ℕ
  length [] = 0
  length (x ∷ xs) = suc (length xs)

  abbrev pub take : ℕ → List A → List A
  take zero xs = []
  take (suc n) [] = []
  take (suc n) (x ∷ xs) = x ∷ take n xs

  abbrev pub drop : ℕ → List A → List A
  drop zero xs = xs
  drop (suc n) [] = []
  drop (suc n) (x ∷ xs) = drop n xs

  -- The rows that a `where` clause selects.
  abbrev pub select : (A → Bool) → List A → List A
  select p [] = []
  select p (x ∷ xs) = let rest = select p xs in if p x then x ∷ rest else rest

  -- `findFirst`: a row that the `where` clause selects.
  abbrev pub find_first : (A → Bool) → List A → Option A
  find_first p [] = none
  find_first p (x ∷ xs) = let rest = find_first p xs in if p x then some x else rest

  -- `updateMany`, and `update` where the clause names one row.
  abbrev pub update_where : (A → Bool) → (A → A) → List A → List A
  update_where p f [] = []
  update_where p f (x ∷ xs) = (if p x then f x else x) ∷ update_where p f xs

  -- `rows.sort(compare)[0]`, and `findFirst` with an `orderBy`: the leftmost of the least rows, since
  -- the sort is stable.
  abbrev pub earlier : (A → A → Bool) → A → Option A → A
  earlier before x none = x
  earlier before x (some y) = if before y x then y else x

  abbrev pub first_by : (A → A → Bool) → List A → Option A
  first_by before [] = none
  first_by before (x ∷ xs) = some (earlier before x (first_by before xs))

  -- `rows.some(p)`
  abbrev pub any : (A → Bool) → List A → Bool
  any p [] = false
  any p (x ∷ xs) = p x || any p xs

  abbrev pub count : (A → Bool) → List A → ℕ
  count p [] = 0
  count p (x ∷ xs) = (if p x then 1 else 0) + count p xs

  abbrev pub All {κ} : (A → Type κ) → List A → Type κ
  All P [] = Unit
  All P (x ∷ xs) = P x × All P xs

module _ {ℓ} {A : Type ℓ} (p : A → Bool) where
  pub find_first-holds : (x : A) (xs : List A) → find_first p xs ≡ some x → p x ≡ true
  find_first-holds x [] h = ground arith
  find_first-holds x (y ∷ xs) h = ground (arith, find_first-holds x xs)

  pub find_first-eq-none : (xs : List A) → any p xs ≡ false → find_first p xs ≡ none
  find_first-eq-none [] h = refl
  find_first-eq-none (x ∷ xs) h = ground (arith, find_first-eq-none xs)

  pub any_of_find_first : (xs : List A) → find_first p xs ≡ none → any p xs ≡ false
  any_of_find_first [] h = refl
  any_of_find_first (x ∷ xs) h = ground (arith, any_of_find_first xs)

pub All-append_one :
    {A : Type 0} (P : A → Type 0) (xs : List A) (y : A) → All P xs → P y → All P (xs ++ y ∷ [])
All-append_one P [] y h p = (p, tt)
All-append_one P (x ∷ xs) y h p = (h.0, All-append_one P xs y h.1 p)
