-- ===== src/Qc.antt =====
-- Verification of outgoing packets: the types, the checks and the registry that runs them.
pub mod Types
pub mod Registry
pub mod Privilege
