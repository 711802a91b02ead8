-- ===== src/Skills.antt =====
-- crates/rcx-registry-skills: lockfiles, their signatures, and `skill://` URIs.
pub mod Errors
pub mod Lock
pub mod Sign
pub mod Uri
