-- ===== src/Examples.antt =====
-- The theorems at concrete inputs, and tests of the definitions.
pub mod Toy
pub mod Cbor
pub mod Receipts
pub mod Digests
pub mod Pop
pub mod Skills
pub mod Ingest
pub mod Api
pub mod Sync
pub mod Enrich
pub mod Control
pub mod Namespace
pub mod Declare
pub mod Listing
