-- ===== src/Admin.antt =====
-- crates/rcx-registry-admin: proofs of possession, challenge nonces and OAuth states; namespaces and
-- the rights to them.
pub mod Pop
pub mod Namespace
