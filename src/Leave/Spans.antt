-- ===== src/Leave/Spans.antt =====
-- Proofs about `overlapMinutes` of apps/api-gateway/src/leave/leave.service.ts.
use time_sync_be.Prelude.{ℕ, ◌-◌, ◌≤◌, ◌≡◌, arith}
use time_sync_be.Leave.Rules.{round_minutes, overlap_minutes}

-- The overlap of two windows does not depend on their order, and is at most the minutes of each.
pub overlap_minutes_bounds :
    (a b c d : ℕ)
    → (overlap_minutes a b c d ≡ overlap_minutes c d a b)
      × (overlap_minutes a b c d ≤ round_minutes (b - a))
      × (overlap_minutes a b c d ≤ round_minutes (d - c))
unfolding overlap_minutes
overlap_minutes_bounds a b c d = (ground arith, ground arith, ground arith)
