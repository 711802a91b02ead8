-- ===== src/Verify/Receipt/Accepts.antt =====
-- `verify_receipt` (crates/rcx-verify/src/lib.rs) on the encoding of a receipt that is a struct.
use mathlib.Core.Option
use rcx_registry.Prelude.{
  ◌≡◌, ap, ◌∙◌, true, false, some, List, ◌++◌, Bytes, bytes_eq_refl, sort_by, length, ◌<◌, ◌^◌,
  arith,
}
use rcx_registry.Prelude.Partial.{>>=-eq-some}
use rcx_registry.Prelude.Outcome.{ok}
use rcx_registry.Crown.Crypto.{Crypto}
use rcx_registry.Crown.Float.{Platform, IsLawful}
use rcx_registry.Crown.Cbor.Value.{CborValue, to_list, of_list, to_list-of_list}
use rcx_registry.Crown.Cbor.Encode.{encode}
use rcx_registry.Crown.Cbor.Encoding.{key_le, canonical_pairs, canonical, IsValue}
use rcx_registry.Crown.Cbor.Canonical.{decode-encode}
use rcx_registry.Crown.Receipt.{
  ReceiptDocument, receipt_fields, compute_hash, to_canonical_cbor, to_zeroed_canonical_cbor,
  verify_receipt_signature, field_receipt_hash, field_receipt_signature, field_signer_kid,
}
use rcx_registry.Crown.Receipt.Fields.{IsReceipt}
use rcx_registry.Crown.Receipt.Checks.{IsSigned, verify_receipt_signature_iff}
use rcx_registry.Verify.Fields.{lookup, take_bytes, zero_fields}
use rcx_registry.Verify.Fields.Lookup.{lookup-canonical_pairs}
use rcx_registry.Verify.Fields.Zeroing.{encode-zero_fields}
use rcx_registry.Verify.Receipt.{
  ReceiptFacts, field_snapshot_root, hash_preimage_keys, signing_preimage_keys, fields_of, kid_of,
  root_of, verify_fields, verify_receipt,
}
use rcx_registry.Verify.Receipt.Shape.{
  lookup-receipt_hash, lookup-receipt_signature, lookup-signer_kid, zero_fields-hash_preimage,
  zero_fields-signing_preimage, receipt-AreFinitePairs, root_of-canonical,
}

-- What has to hold of the value for its fields to pass.
pub verify_fields_lem :
    (p : Platform) (c : Crypto) (value : CborValue) (key : Bytes)
    (fields : List (Bytes × CborValue)) (hash signature kid zeroed preimage : Bytes)
    → fields_of value ≡ ok fields
    → take_bytes fields field_receipt_hash 32 ≡ ok hash
    → take_bytes fields field_receipt_signature 64 ≡ ok signature
    → kid_of (lookup field_signer_kid fields) ≡ ok kid
    → encode p (zero_fields value hash_preimage_keys) ≡ some zeroed
    → c.blake3 zeroed ≡ hash
    → encode p (zero_fields value signing_preimage_keys) ≡ some preimage
    → c.valid_key key ≡ true
    → c.verify_strict key preimage signature ≡ true
    → verify_fields p c value key
      ≡ ok (record {
        receipt_hash = hash;
        signer_kid = kid;
        snapshot_root = root_of (lookup field_snapshot_root fields);
      })
unfolding verify_fields
verify_fields_lem p c value key fields hash signature kid zeroed preimage ef eh es ek ez eb ep ev
      et =
    rw (ef, eh, es, ek, ez, eb, bytes_eq_refl hash, ep, ev, et)

module _ {ℓ} {D : Type ℓ} ⦃doc : ReceiptDocument D⦄ (shape : IsReceipt doc) where
  -- the fields of a receipt in the order of its constructor
  abbrev all_fields : D → List (Bytes × CborValue)
  all_fields d =
      shape.body d
      ++ receipt_fields false (doc.stored_hash d) (doc.stored_signature d) (shape.kid d)

  -- What a verifier reports of a receipt.
  unfoldable pub facts_of : D → ReceiptFacts
  facts_of d = record {
    receipt_hash = doc.stored_hash d;
    signer_kid = shape.kid d;
    snapshot_root = root_of (lookup field_snapshot_root (all_fields d));
  }

  -- the same fields, as the decoder returns them
  abbrev decoded_fields : D → List (Bytes × CborValue)
  decoded_fields d = to_list (of_list (sort_by key_le (canonical_pairs (of_list (all_fields d)))))

  lookup-decoded_fields :
      (d : D) (key : Bytes)
      → lookup key (decoded_fields d) ≡ Option.map canonical (lookup key (all_fields d))
  lookup-decoded_fields d key =
      lookup-canonical_pairs key (of_list (all_fields d))
      ∙ ap (λ fs. Option.map canonical (lookup key fs)) (to_list-of_list (all_fields d))

  take-receipt_hash :
      (d : D)
      → length (doc.stored_hash d) ≡ 32
      → take_bytes (decoded_fields d) field_receipt_hash 32 ≡ ok (doc.stored_hash d)
  unfolding take_bytes canonical
  take-receipt_hash d l =
      rw
        (
          lookup-decoded_fields d field_receipt_hash,
          lookup-receipt_hash (doc.stored_hash d) (doc.stored_signature d) (shape.kid d)
              (shape.body d) (shape.own d),
        )
        (ground arith)

  take-receipt_signature :
      (d : D)
      → length (doc.stored_signature d) ≡ 64
      → take_bytes (decoded_fields d) field_receipt_signature 64 ≡ ok (doc.stored_signature d)
  unfolding take_bytes canonical
  take-receipt_signature d l =
      rw
        (
          lookup-decoded_fields d field_receipt_signature,
          lookup-receipt_signature (doc.stored_hash d) (doc.stored_signature d) (shape.kid d)
              (shape.body d) (shape.own d),
        )
        (ground arith)

  kid_of-decoded : (d : D) → kid_of (lookup field_signer_kid (decoded_fields d)) ≡ ok (shape.kid d)
  unfolding kid_of canonical
  kid_of-decoded d = rw (
    lookup-decoded_fields d field_signer_kid,
    lookup-signer_kid (doc.stored_hash d) (doc.stored_signature d) (shape.kid d) (shape.body d)
        (shape.own d),
  )

  root_of-decoded :
      (d : D)
      → root_of (lookup field_snapshot_root (decoded_fields d))
        ≡ root_of (lookup field_snapshot_root (all_fields d))
  root_of-decoded d =
      ap root_of (lookup-decoded_fields d field_snapshot_root)
      ∙ root_of-canonical (lookup field_snapshot_root (all_fields d))

  fields_of-decoded :
      (d : D) → fields_of (canonical (doc.to_cbor_value d false)) ≡ ok (decoded_fields d)
  unfolding fields_of canonical
  fields_of-decoded d = rw (shape.shape d false)

  module _ (p : Platform) (c : Crypto) where
    -- zeroing the decoded value and zeroing the receipt are encoded alike
    encode-decoded :
        (d : D) (keys : List Bytes)
        → encode p (zero_fields (canonical (doc.to_cbor_value d false)) keys)
          ≡ encode p (zero_fields (doc.to_cbor_value d false) keys)
    encode-decoded d keys = rw (shape.shape d false) (
        encode-zero_fields p (of_list (all_fields d)) keys (
          receipt-AreFinitePairs (doc.stored_hash d) (doc.stored_signature d) (shape.kid d)
            (shape.body d) (shape.finite d)))

    verify_fields-signed :
        (d : D) (key : Bytes)
        → IsSigned shape p c d key
        → length (doc.stored_hash d) ≡ 32
        → length (doc.stored_signature d) ≡ 64
        → ((m : Bytes)
            → c.verify key m (doc.stored_signature d) ≡ true
            → c.verify_strict key m (doc.stored_signature d) ≡ true)
        → verify_fields p c (canonical (doc.to_cbor_value d false)) key ≡ ok (facts_of d)
    unfolding facts_of compute_hash to_zeroed_canonical_cbor
    verify_fields-signed d key s lh ls strict =
        let (zeroed, ez, eb) = >>=-eq-some (encode p (doc.to_cbor_value d true)) _ s.hash_stored in
        rw (← root_of-decoded d) (
          verify_fields_lem p c (canonical (doc.to_cbor_value d false)) key (decoded_fields d)
            (doc.stored_hash d) (doc.stored_signature d) (shape.kid d) zeroed s.signing_bytes
            (fields_of-decoded d) (take-receipt_hash d lh) (take-receipt_signature d ls)
            (kid_of-decoded d)
            (encode-decoded d hash_preimage_keys
              ∙ ap (encode p) (zero_fields-hash_preimage shape d lh ls)
              ∙ ez)
            (cc)
            (encode-decoded d signing_preimage_keys
              ∙ ap (encode p) (zero_fields-signing_preimage shape d ls)
              ∙ s.written)
            s.key_valid (strict s.signing_bytes s.verifies))

    -- If `verify_receipt_signature` accepts a receipt with a hash of 32 bytes and a signature of 64
    -- under a key, and `verify_strict` takes what `verify` takes of that signature, then the byte
    -- verifier accepts the receipt's canonical encoding under that key, with the receipt's hash, key
    -- id and snapshot root. The receipt's value is one of the program, and its encoding is shorter
    -- than 2 ^ 64 bytes.
    pub verify_receipt-to_canonical_cbor :
        (law : IsLawful p) (d : D) (key bs : Bytes)
        → verify_receipt_signature p c d key ≡ ok tt
        → length (doc.stored_hash d) ≡ 32
        → length (doc.stored_signature d) ≡ 64
        → ((m : Bytes)
            → c.verify key m (doc.stored_signature d) ≡ true
            → c.verify_strict key m (doc.stored_signature d) ≡ true)
        → IsValue p (doc.to_cbor_value d false)
        → to_canonical_cbor p c d ≡ some bs
        → length bs < 2 ^ 64
        → verify_receipt p c bs key ≡ ok (facts_of d)
    unfolding verify_receipt to_canonical_cbor
    verify_receipt-to_canonical_cbor law d key bs h lh ls strict hv e hl =
        let s = (verify_receipt_signature_iff shape p c d key).0 h in
        let (ed, ee) = decode-encode p law (doc.to_cbor_value d false) bs hv e hl in
        rw (s.key_length, ed, ee, bytes_eq_refl bs) (verify_fields-signed d key s lh ls strict)
