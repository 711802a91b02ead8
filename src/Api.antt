-- ===== src/Api.antt =====
-- crates/rcx-registry-api: the errors that a request may meet, the mirror that is listed in pages, the
-- limit on mutations, the stores, the proofs of control and the declarations.
pub mod Errors
pub mod Messages
pub mod Stores
pub mod Mirror
pub mod RateLimit
pub mod State
pub mod Requests
pub mod Control
pub mod Declare
pub mod Decorate
