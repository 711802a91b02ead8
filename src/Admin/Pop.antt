-- ===== src/Admin/Pop.antt =====
-- crates/rcx-registry-admin/src/pop.rs: the proof that a publisher holds a key. The crate `hex` is a
-- parameter; the messages of its errors are left out.
pub mod Framing
pub mod Accepts
pub mod Store
pub mod Nonces
pub mod OauthStates
use rcx_registry.Prelude.{
  ℕ, ◌%◌, ◌^◌, not, Option, none, some, List, [], ◌∷◌, ◌++◌, map, concat, Bytes, codes, bytes_eq,
  ◌==◌, if◌then◌else◌, length, take, to_be_bytes,
}
use rcx_registry.Prelude.Outcome.{Outcome, ok, err, ◌>>=◌}
use rcx_registry.Crown.Crypto.{Crypto}

pub data PopError : Type 0 where
  malformed_public_key malformed_signature bad_signature unknown_nonce : PopError
  nonce_binding_mismatch store_poisoned : PopError
  public_key_length signature_length : ℕ → PopError
  fingerprint_mismatch : Bytes → Bytes → PopError

-- the crate `hex`
pub record Hex : Type 0 where
  pub decode_hex : Bytes → Option Bytes
  pub encode_hex : Bytes → Bytes

abbrev pub passport_fpr_bytes : ℕ
passport_fpr_bytes = 16

abbrev pub default_nonce_ttl_ms : ℕ
default_nonce_ttl_ms = 900_000

abbrev pub pop_domain : Bytes
pop_domain = codes "rcx-pop-v1"

-- a field behind its length, `field.len() as u32`
unfoldable pub length_prefixed : Bytes → Bytes
length_prefixed field = to_be_bytes 4 (length field % 2 ^ 32) ++ field

unfoldable pub challenge_signing_bytes : Bytes → Bytes → Bytes → Bytes
challenge_signing_bytes nonce_hex server_name passport_fpr =
    pop_domain ++ 0 ∷ concat (map length_prefixed (nonce_hex ∷ server_name ∷ passport_fpr ∷ []))

module _ (c : Crypto) (h : Hex) where
  unfoldable pub passport_fpr_from_public_key : Bytes → Bytes
  passport_fpr_from_public_key public_key =
      codes "p_" ++ h.encode_hex (take passport_fpr_bytes (c.blake3 public_key))

  -- bytes of that length, `try_into` of an array
  unfoldable pub of_hex : ℕ → PopError → (ℕ → PopError) → Bytes → Outcome PopError Bytes
  of_hex len malformed wrong_length digits = elim (h.decode_hex digits) [
    | none ↦ err malformed
    | some bs ↦ if length bs == len then ok bs else err (wrong_length (length bs))
  ]

  unfoldable pub decode_public_key : Bytes → Outcome PopError Bytes
  decode_public_key public_key_hex = of_hex 32 malformed_public_key public_key_length public_key_hex

  unfoldable pub check_fingerprint : Bytes → Bytes → Outcome PopError (Unit {0})
  check_fingerprint fpr public_key_hex = do
    key ← decode_public_key public_key_hex
    let derived = passport_fpr_from_public_key key
    if not (bytes_eq derived fpr) then err (fingerprint_mismatch fpr derived) else ok tt

  -- the signature, once the key is known to be one
  unfoldable pub check_pop_signature : Bytes → Bytes → Bytes → Outcome PopError (Unit {0})
  check_pop_signature key_bytes message signature_hex = do
    sig_arr ← of_hex 64 malformed_signature signature_length signature_hex
    if c.verify key_bytes message sig_arr then ok tt else err bad_signature

  unfoldable pub verify_pop : Bytes → Bytes → Bytes → Bytes → Bytes → Outcome PopError (Unit {0})
  verify_pop nonce_hex server_name passport_fpr public_key_hex signature_hex = do
    _ ← check_fingerprint passport_fpr public_key_hex
    key_bytes ← decode_public_key public_key_hex
    if not (c.valid_key key_bytes)
        then err bad_signature
        else check_pop_signature key_bytes
            (challenge_signing_bytes nonce_hex server_name passport_fpr) signature_hex
