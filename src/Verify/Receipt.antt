-- ===== src/Verify/Receipt.antt =====
-- `verify_receipt`: a receipt is checked on its bytes alone.
pub mod Shape
pub mod Accepts
pub mod Sound
pub mod Panics
use rcx_registry.Prelude.{
  ℕ, Bool, true, false, not, Option, none, some, List, [], ◌∷◌, Bytes, codes, bytes_eq, ◌==◌,
  if◌then◌else◌, length,
}
use rcx_registry.Prelude.Outcome.{Outcome, ok, err, or_panic, map_err, ◌>>=◌}
use rcx_registry.Crown.Crypto.{Crypto}
use rcx_registry.Crown.Float.{Platform}
use rcx_registry.Crown.Cbor.Value.{CborValue, bytes, text, object, to_list}
use rcx_registry.Crown.Cbor.Encode.{encode}
use rcx_registry.Crown.Cbor.Decode.{decode}
use rcx_registry.Crown.Receipt.{
  hash_len, signature_len, field_receipt_hash, field_receipt_signature, field_signer_kid,
}
use rcx_registry.Verify.Errors.{
  VerifyError, not_canonical, missing_field, hash_mismatch, bad_signature, bad_public_key,
  decode_error, crown, not_a_map, kid_not_text,
}
use rcx_registry.Verify.Fields.{lookup, take_bytes, zero_fields}

abbrev pub public_key_len : ℕ
public_key_len = 32

abbrev pub field_snapshot_root : Bytes
field_snapshot_root = codes "snapshot_merkle_root"

pub record ReceiptFacts : Type 0 where
  pub receipt_hash : Bytes
  pub signer_kid : Bytes
  pub snapshot_root : Option Bytes

-- the fields of a value that is a map
unfoldable pub fields_of : CborValue → Outcome VerifyError (List (Bytes × CborValue))
fields_of (object fields) = ok (to_list fields)
fields_of _ = err (decode_error not_a_map)

unfoldable pub kid_of : Option CborValue → Outcome VerifyError Bytes
kid_of (some (text kid)) = ok kid
kid_of (some _) = err (decode_error kid_not_text)
kid_of none = err (missing_field field_signer_kid)

-- a root of another length, or of another kind, is taken for none
unfoldable pub root_of : Option CborValue → Option Bytes
root_of (some (bytes bs)) = if length bs == hash_len then some bs else none
root_of _ = none

abbrev pub hash_preimage_keys : List Bytes
hash_preimage_keys = field_receipt_hash ∷ field_receipt_signature ∷ field_signer_kid ∷ []

abbrev pub signing_preimage_keys : List Bytes
signing_preimage_keys = field_receipt_signature ∷ []

module _ (p : Platform) (c : Crypto) where
  -- what is checked of the value that was decoded
  unfoldable pub verify_fields : CborValue → Bytes → Outcome VerifyError ReceiptFacts
  unfolding fields_of kid_of root_of
  verify_fields value public_key = do
    fields ← fields_of value
    stored_hash ← take_bytes fields field_receipt_hash hash_len
    stored_signature ← take_bytes fields field_receipt_signature signature_len
    kid ← kid_of (lookup field_signer_kid fields)
    zeroed ← or_panic (encode p (zero_fields value hash_preimage_keys))
    if not (bytes_eq (c.blake3 zeroed) stored_hash) then err hash_mismatch else (do
      signing_preimage ← or_panic (encode p (zero_fields value signing_preimage_keys))
      if not (c.valid_key public_key)
          then err (bad_public_key (length public_key))
          else if not (c.verify_strict public_key signing_preimage stored_signature)
          then err bad_signature
          else ok (record {
            receipt_hash = stored_hash;
            signer_kid = kid;
            snapshot_root = root_of (lookup field_snapshot_root fields);
          }))

  -- `CborValue::encode` panics on a float that is not finite, which `decode` takes at half width.
  unfoldable pub verify_receipt : Bytes → Bytes → Outcome VerifyError ReceiptFacts
  verify_receipt signed_canonical_cbor public_key =
      if not (length public_key == public_key_len)
      then err (bad_public_key (length public_key))
      else (do
        value ← map_err (λ e. decode_error (crown e)) (decode p signed_canonical_cbor)
        encoded ← or_panic (encode p value)
        if not (bytes_eq encoded signed_canonical_cbor)
            then err not_canonical
            else verify_fields value public_key)
