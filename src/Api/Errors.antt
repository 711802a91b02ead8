-- ===== src/Api/Errors.antt =====
-- crates/rcx-registry-api/src/lib.rs: `ApiError`, with the status and the code of a response.
use rcx_registry.Prelude.{ℕ, Bytes, codes}
use rcx_registry.Prelude.Outcome.{Outcome}

pub data ApiError : Type 0 where
  not_found : ApiError
  invalid_cursor : ApiError
  bad_request : Bytes → ApiError
  verification_failed : Bytes → ApiError
  unavailable : Bytes → ApiError
  unauthorized : ApiError
  too_many_requests : ApiError
  store : Bytes → ApiError

unfoldable pub status_code : ApiError → ℕ
status_code not_found = 404
status_code invalid_cursor = 400
status_code (bad_request message) = 400
status_code (verification_failed message) = 422
status_code (unavailable feature) = 501
status_code unauthorized = 401
status_code too_many_requests = 429
status_code (store message) = 500

unfoldable pub error_code : ApiError → Bytes
error_code not_found = codes "not_found"
error_code invalid_cursor = codes "invalid_cursor"
error_code (bad_request message) = codes "bad_request"
error_code (verification_failed message) = codes "verification_failed"
error_code (unavailable feature) = codes "unavailable"
error_code unauthorized = codes "unauthorized"
error_code too_many_requests = codes "too_many_requests"
error_code (store message) = codes "store_error"

abbrev pub Api {ℓ} : Type ℓ → Type ℓ
Api A = Outcome ApiError A
