-- ===== src/Verify/Errors.antt =====
-- `VerifyError` of crates/rcx-verify/src/lib.rs and its wire codes.
use rcx_registry.Prelude.{ℕ, Bytes, codes}
use rcx_registry.Crown.Cbor.Decode.{CrownError}

-- The messages that `DecodeError` carries.
pub data Detail : Type 0 where
  crown : CrownError → Detail
  not_a_map kid_not_text declaration_not_json : Detail
  wrong_length : Bytes → ℕ → Detail
  not_bytes : Bytes → Detail

pub data VerifyError : Type 0 where
  not_canonical hash_mismatch bad_signature root_mismatch declaration_hash_mismatch : VerifyError
  namespace_mismatch : VerifyError
  missing_field : Bytes → VerifyError
  chain_broken bad_public_key : ℕ → VerifyError
  decode_error : Detail → VerifyError

unfoldable pub code : VerifyError → Bytes
code not_canonical = codes "not_canonical"
code (missing_field field) = codes "missing_field"
code hash_mismatch = codes "hash_mismatch"
code bad_signature = codes "bad_signature"
code root_mismatch = codes "root_mismatch"
code declaration_hash_mismatch = codes "declaration_hash_mismatch"
code namespace_mismatch = codes "namespace_mismatch"
code (chain_broken link) = codes "chain_broken"
code (bad_public_key len) = codes "bad_public_key"
code (decode_error detail) = codes "decode_error"
