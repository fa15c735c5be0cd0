-- ===== src/Leave/Ledger.antt =====
-- The ledger of a balance (apps/api-gateway/src/leave/leave.service.ts): what a row stands for,
-- and what the rows of a balance add up to.
use time_sync_be.Prelude.{
  ℕ, ◌==◌, true, false, List, [], ◌∷◌, ◌≡◌, ◌≢◌, ap, ◌∙◌, inl, inr, arith, if◌then◌else◌,
  update_where, All, Bool-cases,
}
use mathlib.Core.Path.{subst⁻¹}
use time_sync_be.Prelude.Int.{ℤ, pos, negsuc, ◌+ℤ◌, ◌-ℤ◌, int_laws}
use time_sync_be.Leave.Types.{LedgerType, LeaveBalance, LedgerEntry, Tables}
use time_sync_be.Leave.Adjust.{Adjustment, adjust, adjustment_type, accrue, spend}
use time_sync_be.Leave.Outcome.{use_minutes, release_minutes}

-- The figures of a balance.
pub record Figures : Type 0 where
  pub balance : ℤ
  pub accrued : ℤ
  pub used : ℤ
  pub pending : ℤ

-- What one row of the ledger stands for. A request holds minutes pending; their use takes them off
-- the balance and off what is pending; a restored row takes them off what is pending. The service
-- writes no row of the five types that come last: their minutes count in the balance, and accrued
-- ones among what is accrued too.
abbrev pub post : LedgerType → ℤ → Figures → Figures
post LedgerType.credit_adjustment m f = record f {
  balance = f.balance +ℤ m;
  accrued = f.accrued +ℤ m;
}
post LedgerType.debit_adjustment m f = record f { balance = f.balance +ℤ m; used = f.used -ℤ m }
post LedgerType.requested m f = record f { pending = f.pending -ℤ m }
post LedgerType.approved_usage m f = record f {
  balance = f.balance +ℤ m;
  used = f.used -ℤ m;
  pending = f.pending +ℤ m;
}
post LedgerType.cancelled_restore m f = record f { pending = f.pending -ℤ m }
post LedgerType.opening_balance m f = record f { balance = f.balance +ℤ m }
post LedgerType.accrual m f = record f { balance = f.balance +ℤ m; accrued = f.accrued +ℤ m }
post LedgerType.carryover m f = record f { balance = f.balance +ℤ m }
post LedgerType.expiry m f = record f { balance = f.balance +ℤ m }
post LedgerType.reversal m f = record f { balance = f.balance +ℤ m }

abbrev pub explain : (balance_id : ℕ) → List LedgerEntry → Figures
explain k [] = record { balance = pos 0; accrued = pos 0; used = pos 0; pending = pos 0 }
explain k (e ∷ ledger) =
    if e.balance_id == k then post e.type e.minutes (explain k ledger) else explain k ledger

-- The row shows what the ledger adds up to.
abbrev pub Shows : LeaveBalance → Figures → Type 0
Shows b f =
    (b.balance_minutes ≡ f.balance)
    × (b.accrued_minutes ≡ f.accrued)
    × (b.used_minutes ≡ f.used)
    × (b.pending_minutes ≡ f.pending)

abbrev pub IsExplained : Tables → Type 0
IsExplained db = All (λ b. Shows b (explain b.id db.ledger)) db.balances

abbrev pub Fits : List LedgerEntry → LeaveBalance → Type 0
Fits ledger b = Shows b (explain b.id ledger)

module _ (e : LedgerEntry) (ledger : List LedgerEntry) where
  hit-Fits :
      (b c : LeaveBalance)
      → c.id ≡ b.id
      → e.balance_id ≡ b.id
      → Shows c (post e.type e.minutes (explain b.id ledger))
      → Fits (e ∷ ledger) c
  hit-Fits b c same own h =
      let match : (e.balance_id == b.id) ≡ true = ground arith in
      subst⁻¹ (λ k. Shows c (explain k (e ∷ ledger))) same (rw match h)

  miss-Fits : (b : LeaveBalance) → e.balance_id ≢ b.id → Fits ledger b → Fits (e ∷ ledger) b
  miss-Fits b other h = let match : (e.balance_id == b.id) ≡ false = ground arith in rw match h

  -- A change of the rows of one balance, with the ledger row that explains it.
  pub posted-Fits :
      (f : LeaveBalance → LeaveBalance)
      → ((b : LeaveBalance) → (f b).id ≡ b.id)
      → ((b : LeaveBalance) (g : Figures) → Shows b g → Shows (f b) (post e.type e.minutes g))
      → (rows : List LeaveBalance) → All (Fits ledger) rows
      → All (Fits (e ∷ ledger)) (update_where (λ b. b.id == e.balance_id) f rows)
  posted-Fits f keeps step [] h = tt
  posted-Fits f keeps step (b ∷ rows) h = (
    elim (Bool-cases (b.id == e.balance_id)) [
      | inl hit ↦
          subst⁻¹ (Fits (e ∷ ledger)) (ap (λ t. if t then f b else b) hit)
            (hit-Fits b (f b) (keeps b) (ground arith) (step b (explain b.id ledger) h.0))
      | inr miss ↦
          subst⁻¹ (Fits (e ∷ ledger)) (ap (λ t. if t then f b else b) miss)
            (miss-Fits b (λ same. ground arith) h.0)
    ],
    posted-Fits f keeps step rows h.1,
  )

sub-eq-add_neg : (x : ℤ) (p : ℕ) → x -ℤ pos p ≡ x +ℤ (pos 0 -ℤ pos p)
sub-eq-add_neg x p = omega int_laws

add-eq-sub_neg : (x y : ℤ) → x +ℤ y ≡ x -ℤ (pos 0 -ℤ y)
add-eq-sub_neg x y = omega int_laws

-- Using and releasing minutes are explained by the rows that go with them.
pub use-Shows :
    (now paid : ℕ) (b : LeaveBalance) (g : Figures)
    → Shows b g
    → Shows (use_minutes now paid b) (post LedgerType.approved_usage (pos 0 -ℤ pos paid) g)
use-Shows now paid b g (balance, accrued, used, pending) = (
  ap (λ x. x -ℤ pos paid) balance ∙ sub-eq-add_neg g.balance paid,
  accrued,
  ap (λ x. x +ℤ pos paid) used ∙ add-eq-sub_neg g.used (pos paid),
  ap (λ x. x -ℤ pos paid) pending ∙ sub-eq-add_neg g.pending paid,
)

pub release-Shows :
    (now paid : ℕ) (b : LeaveBalance) (g : Figures)
    → Shows b g
    → Shows (release_minutes now paid b) (post LedgerType.cancelled_restore (pos paid) g)
release-Shows now paid b g (balance, accrued, used, pending) =
    (balance, accrued, used, ap (λ x. x -ℤ pos paid) pending)

add_neg-eq-sub : (x y : ℤ) → x +ℤ (pos 0 -ℤ y) ≡ x -ℤ y
add_neg-eq-sub x y = omega int_laws

-- An adjustment is explained by its row.
pub adjust-Shows :
    (now : ℕ) (dto : Adjustment) (b : LeaveBalance) (g : Figures)
    → Shows b g
    → Shows (adjust now dto b) (post (adjustment_type dto.minutes) dto.minutes g)
adjust-Shows now dto b g h = by_sign dto.minutes
  where
    by_sign :
        (m : ℤ)
        → (b.balance_minutes +ℤ m ≡ (post (adjustment_type m) m g).balance)
          × (accrue m b.accrued_minutes ≡ (post (adjustment_type m) m g).accrued)
          × (spend m b.used_minutes ≡ (post (adjustment_type m) m g).used)
          × (b.pending_minutes ≡ (post (adjustment_type m) m g).pending)
    by_sign (pos m) = (ap (λ x. x +ℤ pos m) h.0, ap (λ x. x +ℤ pos m) h.1, h.2, h.3)
    by_sign (negsuc m) = (
      ap (λ x. x +ℤ negsuc m) h.0,
      h.1,
      ap (λ x. x +ℤ (pos 0 -ℤ negsuc m)) h.2 ∙ add_neg-eq-sub g.used (negsuc m),
      h.3,
    )
