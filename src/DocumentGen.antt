-- ===== src/DocumentGen.antt =====
-- Document generation: the versions of what is generated.
pub mod VersionStore
