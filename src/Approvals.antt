-- ===== src/Approvals.antt =====
-- The approval engine, apps/api-gateway/src/workflows/approvals.service.ts.
pub mod Types
pub mod Steps
pub mod Passing
pub mod Advance
pub mod Assignment
pub mod Assignees
pub mod Requests
pub mod Submit
pub mod Access
pub mod Tasks
pub mod Listing
pub mod Shown
pub mod Decisions
pub mod Gates
pub mod Outcomes
pub mod Verdicts
pub mod Finality
pub mod Submissions
pub mod Windows
pub mod Amendments
pub mod Delegations
mod Examples
