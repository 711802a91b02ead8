-- ===== src/Crown/Cbor.antt =====
-- The canonical CBOR of crates/rcx-registry-crown/src/canonical.rs: values, encoder, decoder, and the
-- proofs about them.
pub mod Value
pub mod Encode
pub mod Decode
pub mod Heads
pub mod Encoding
pub mod RoundTrip
pub mod Canonical
pub mod Termination
