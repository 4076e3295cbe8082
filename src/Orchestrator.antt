-- ===== src/Orchestrator.antt =====
-- The workflow orchestrator (src/cam/core/orchestrator).
pub mod States
pub mod Store
pub mod Gates
pub mod Machine
pub mod Engine
pub mod Dsl
pub mod Idempotency
pub mod Triggers
mod Fixtures
pub mod Recovery
