-- ===== src/Routing.antt =====
-- Document routing: a document is classified, named, filed in a folder of its matter and shielded.
pub mod Types
pub mod Config
pub mod Classifier
pub mod Resolver
pub mod Acl
pub mod PrivilegeGate
pub mod Service
