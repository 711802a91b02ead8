-- ===== src/Crown/Receipt.antt =====
-- crates/rcx-registry-crown/src/receipt.rs: the trait of the receipts, and the check of a signature
-- over one. `none` and `panic` stand for the panic of the encoder on a float that is not finite.
pub mod Kinds
pub mod Fields
pub mod Checks
use rcx_registry.Prelude.{
  ℕ, Bool, true, false, not, Option, none, some, List, [], ◌∷◌, Bytes, codes, bytes_eq, ◌==◌,
  if◌then◌else◌, length, replicate,
}
use rcx_registry.Prelude.Partial
use rcx_registry.Prelude.Outcome.{Outcome, ok, err, or_panic, ◌>>=◌}
use rcx_registry.Crown.Crypto.{Crypto}
use rcx_registry.Crown.Float.{Platform}
use rcx_registry.Crown.Cbor.Value.{CborValue, bytes, text, object, null, Pairs, no_pairs, pair}
use rcx_registry.Crown.Cbor.Encode.{encode}
use rcx_registry.Crown.Cbor.Decode.{CrownError, bad_signature, bad_public_key, public_key_length}

abbrev pub hash_len : ℕ
hash_len = 32

abbrev pub signature_len : ℕ
signature_len = 64

abbrev pub ulid_len : ℕ
ulid_len = 16

abbrev pub field_receipt_hash : Bytes
field_receipt_hash = codes "receipt_hash"

abbrev pub field_receipt_signature : Bytes
field_receipt_signature = codes "receipt_signature"

abbrev pub field_signer_kid : Bytes
field_signer_kid = codes "signer_kid"

pub record ReceiptDocument {ℓ} (D : Type ℓ) : Type ℓ where
  pub to_cbor_value : D → Bool → CborValue
  pub stored_hash : D → Bytes
  pub stored_signature : D → Bytes

-- The three fields that end every receipt, zeroed or not.
unfoldable pub receipt_fields : Bool → Bytes → Bytes → Bytes → List (Bytes × CborValue)
receipt_fields zero_receipt hash signature kid =
    (field_receipt_hash, bytes (if zero_receipt then replicate hash_len 0 else hash))
    ∷ (
      field_receipt_signature,
      bytes (if zero_receipt then replicate signature_len 0 else signature),
    )
    ∷ (field_signer_kid, if zero_receipt then null else text kid)
    ∷ []

-- The first field of that name is given the value; `none` where there is no such field.
unfoldable pub set_field : Bytes → CborValue → Pairs → Option Pairs
set_field name v no_pairs = none
set_field name v (pair k w ps) =
    let rest = set_field name v ps in
    if bytes_eq k name then some (pair k v ps) else Partial.◌>>=◌ rest (λ ps'. some (pair k w ps'))

-- The value that the signature is over: the signature's field alone is zeroed.
unfoldable pub signing_value : CborValue → Option CborValue
signing_value (object fields) =
    Partial.◌>>=◌ (set_field field_receipt_signature (bytes (replicate signature_len 0)) fields)
      (λ fields'. some (object fields'))
signing_value _ = none

module _ {ℓ} {D : Type ℓ} ⦃doc : ReceiptDocument D⦄ (p : Platform) (c : Crypto) where
  unfoldable pub to_canonical_cbor : D → Option Bytes
  to_canonical_cbor d = encode p (doc.to_cbor_value d false)

  unfoldable pub to_zeroed_canonical_cbor : D → Option Bytes
  to_zeroed_canonical_cbor d = encode p (doc.to_cbor_value d true)

  unfoldable pub compute_hash : D → Option Bytes
  unfolding to_zeroed_canonical_cbor
  compute_hash d = Partial.◌>>=◌ (to_zeroed_canonical_cbor d) (λ zeroed. some (c.blake3 zeroed))

  -- the check of the signature, behind that of the hash
  unfoldable pub check_signature : D → Bytes → Option CborValue → Outcome CrownError (Unit {0})
  check_signature d public_key none = err bad_signature
  check_signature d public_key (some v) = do
    signing_bytes ← or_panic (encode p v)
    if c.verify public_key signing_bytes (doc.stored_signature d) then ok tt else err bad_signature

  unfoldable pub verify_receipt_signature : D → Bytes → Outcome CrownError (Unit {0})
  verify_receipt_signature d public_key =
      if not (length public_key == 32)
      then err (public_key_length (length public_key))
      else if not (c.valid_key public_key)
      then err bad_public_key
      else (do
        computed ← or_panic (compute_hash d)
        if not (bytes_eq computed (doc.stored_hash d))
            then err bad_signature
            else check_signature d public_key (signing_value (doc.to_cbor_value d false)))
