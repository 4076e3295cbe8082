-- ===== src/Intake.antt =====
-- Intake of leads: the matching of a lead against the contacts of the practice.
pub mod Dedupe
