-- ===== src/Attendance.antt =====
-- Attendance, apps/api-gateway/src/attendance/attendance.service.ts.
pub mod Types
pub mod Metrics
pub mod Policy
pub mod Controls
pub mod Exceptions
pub mod OpenRecords
pub mod Clocking
pub mod PunchRequests
pub mod Punches
pub mod Soundness
pub mod Clocked
pub mod Punched
pub mod Punching
pub mod Timesheets
pub mod Generation
pub mod Minutes
mod Examples
