-- ===== src/Workflows.antt =====
-- Workflow definitions, apps/api-gateway/src/workflows/workflows.service.ts.
pub mod Types
pub mod Orders
pub mod Definitions
pub mod Steps
pub mod Creation
pub mod Renumbering
pub mod Reordering
pub mod MovingUp
pub mod Activation
mod Examples
