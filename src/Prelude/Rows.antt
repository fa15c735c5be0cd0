-- ===== src/Prelude/Rows.antt =====
-- Laws of counts and of predicates on rows under the writes that the services make.
use Prim.Native.Nat.{◌+◌, ◌≤◌}
use mathlib.Core.Path.{◌≡◌, refl, subst}
use mathlib.Core.Logic.{inl, inr}
use mathlib.Core.Bool.{Bool, true, false}
use mathlib.Core.Option.{none, some}
use mathlib.Core.List.{List, [], ◌∷◌, ◌++◌}
use native.Mathlib.Omega.{arith}
use time_sync_be.Prelude.Tests.{if◌then◌else◌, Bool-cases}
use time_sync_be.Prelude.Lists.{select, find_first, update_where, first_by, count, All}

module _ {A : Type 0} where
  -- The rows after an update of those that the test picks: each of these is changed, and every other
  -- row is as it was.
  abbrev pub Updated : (A → Bool) → (A → A) → List A → List A → Type 0
  Updated p f [] [] = Unit
  Updated p f (x ∷ xs) (y ∷ ys) = (p x ≡ true → y ≡ f x) × (p x ≡ false → y ≡ x) × Updated p f xs ys
  Updated p f [] (y ∷ ys) = ⊥
  Updated p f (x ∷ xs) [] = ⊥

  pub update_where-Updated :
      (p : A → Bool) (f : A → A) (xs : List A) → Updated p f xs (update_where p f xs)
  update_where-Updated p f [] = tt
  update_where-Updated p f (x ∷ xs) =
      (λ h. ground arith, λ h. ground arith, update_where-Updated p f xs)

  pub count-append_one :
      (p : A → Bool) (xs : List A) (y : A) → count p (xs ++ y ∷ []) ≡ count p xs + count p (y ∷ [])
  count-append_one p [] y = omega arith
  count-append_one p (x ∷ xs) y = omega (arith, count-append_one p xs y)

  pub none_first :
      (before : A → A → Bool) (p : A → Bool) (xs : List A)
      → first_by before (select p xs) ≡ none
      → count p xs ≡ 0
  none_first before p [] h = refl
  none_first before p (x ∷ xs) h = ground (arith, none_first before p xs)

  pub none_found : (p : A → Bool) (xs : List A) → find_first p xs ≡ none → count p xs ≡ 0
  none_found p [] h = refl
  none_found p (x ∷ xs) h = ground (arith, none_found p xs)

  pub count-update_where :
      (p g : A → Bool) (f : A → A) (xs : List A)
      → All (λ x. g x ≡ true → p (f x) ≡ true → p x ≡ true) xs
      → count p (update_where g f xs) ≤ count p xs
  count-update_where p g f [] h = omega arith
  count-update_where p g f (x ∷ xs) h = ground (arith, h.0, count-update_where p g f xs)

  pub All-update_where :
      (P Q : A → Type 0) (g : A → Bool) (f : A → A) (xs : List A)
      → ((x : A) → g x ≡ true → P x → Q (f x))
      → ((x : A) → g x ≡ false → P x → Q x)
      → All P xs
      → All Q (update_where g f xs)
  All-update_where P Q g f [] hit miss h = tt
  All-update_where P Q g f (x ∷ xs) hit miss h = (one, All-update_where P Q g f xs hit miss h.1)
    where
      one : Q (if g x then f x else x)
      one = elim (Bool-cases (g x)) [ inl e ↦ rw e (hit x e h.0) | inr e ↦ rw e (miss x e h.0) ]

  pub All-find_first :
      (P : A → Type 0) (p : A → Bool) (x : A) (xs : List A)
      → All P xs
      → find_first p xs ≡ some x
      → P x
  All-find_first P p x [] h e = absurd (ground arith)
  All-find_first P p x (y ∷ ys) h e = elim (Bool-cases (p y)) [
    | inl q ↦ subst P (ground arith) h.0
    | inr q ↦ All-find_first P p x ys h.1 (ground arith)
  ]

  pub All-map : (P Q : A → Type 0) (xs : List A) → ((x : A) → P x → Q x) → All P xs → All Q xs
  All-map P Q [] f h = tt
  All-map P Q (x ∷ xs) f h = (f x h.0, All-map P Q xs f h.1)

  pub All-and : (P Q : A → Type 0) (xs : List A) → All P xs → All Q xs → All (λ x. P x × Q x) xs
  All-and P Q [] h k = tt
  All-and P Q (x ∷ xs) h k = ((h.0, k.0), All-and P Q xs h.1 k.1)

  pub All-each : (P : A → Type 0) (xs : List A) → ((x : A) → P x) → All P xs
  All-each P [] f = tt
  All-each P (x ∷ xs) f = (f x, All-each P xs f)
