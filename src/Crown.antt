-- ===== src/Crown.antt =====
-- crates/rcx-registry-crown: canonical encodings, digests and receipts.
pub mod Utf8
pub mod Float
pub mod Cbor
pub mod Json
pub mod Hashing
pub mod Crypto
pub mod Receipt
