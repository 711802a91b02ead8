-- ===== src/Verify.antt =====
-- crates/rcx-verify/src/lib.rs: the five verbs of the offline verifier.
pub mod Errors
pub mod Fields
pub mod Receipt
pub mod Chain
pub mod Digests
