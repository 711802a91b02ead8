-- ===== src/Crown/Receipt/Kinds.antt =====
-- The seven receipts of crates/rcx-registry-crown/src/receipt.rs and skill_receipt.rs, and the maps
-- that they are encoded as.
pub mod Values
pub mod Snapshots
pub mod Entries
pub mod Claims
