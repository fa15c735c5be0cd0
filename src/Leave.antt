-- ===== src/Leave.antt =====
-- Leave management, apps/api-gateway/src/leave/leave.service.ts.
pub mod Types
pub mod Rules
pub mod Spans
pub mod Calendar
pub mod Days
pub mod Coverage
pub mod Outcome
pub mod Adjust
pub mod Ledger
pub mod Explained
pub mod Minutes
pub mod Filing
pub mod Reserved
pub mod Booked
pub mod Decisions
pub mod Requesting
pub mod Unlinked
pub mod Agreement
mod Examples
mod DayExamples
mod RequestExamples
