-- ===== src/Deadline.antt =====
-- The deadline engine: due dates from rules, reminders, escalation and reconciliation.
pub mod Dates
pub mod Types
pub mod Calendar
pub mod Compute
pub mod Schedule
pub mod Firing
pub mod Rules
pub mod Reconcile
mod Fixtures
