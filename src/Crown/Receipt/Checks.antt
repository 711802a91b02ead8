-- ===== src/Crown/Receipt/Checks.antt =====
-- What `verify_receipt_signature` accepts.
use rcx_registry.Prelude.{
  ◌≡◌, refl, ◌↔◌, true, false, not, inl, inr, some, List, [], ◌∷◌, ◌++◌, Bytes, bytes_eq,
  bytes_eq_comm, bytes_eq_refl, eq_of_bytes_eq, ◌==◌, ==_iff, if◌then◌else◌, length, replicate, All,
  Bool-cases, arith,
}
use rcx_registry.Prelude.Outcome.{ok, err, or_panic-eq-ok}
use rcx_registry.Crown.Crypto.{Crypto}
use rcx_registry.Crown.Float.{Platform}
use rcx_registry.Crown.Cbor.Value.{CborValue, bytes, text, object, of_list}
use rcx_registry.Crown.Cbor.Encode.{encode}
use rcx_registry.Crown.Cbor.Decode.{bad_signature}
use rcx_registry.Crown.Receipt.{
  ReceiptDocument, receipt_fields, set_field, signing_value, compute_hash, check_signature,
  verify_receipt_signature, field_receipt_hash, field_receipt_signature, field_signer_kid,
  signature_len,
}
use rcx_registry.Crown.Receipt.Fields.{IsReceipt, IsOwnField}

-- The last fields of the value that a receipt's signature is over.
abbrev pub signing_fields : Bytes → Bytes → List (Bytes × CborValue)
signing_fields hash kid =
    (field_receipt_hash, bytes hash)
    ∷ (field_receipt_signature, bytes (replicate signature_len 0))
    ∷ (field_signer_kid, text kid)
    ∷ []

set_signature :
    (body : List (Bytes × CborValue)) (hash signature kid : Bytes)
    → All IsOwnField body
    → set_field field_receipt_signature
        (bytes (replicate signature_len 0))
        (of_list (body ++ receipt_fields false hash signature kid))
      ≡ some (of_list (body ++ signing_fields hash kid))
unfolding set_field receipt_fields bytes_eq
set_signature [] hash signature kid h = refl
set_signature ((k, v) ∷ body) hash signature kid ((_, s, _), h) =
    rw (bytes_eq_comm k field_receipt_signature, s, set_signature body hash signature kid h)

module _ {ℓ} {D : Type ℓ} ⦃doc : ReceiptDocument D⦄ (shape : IsReceipt doc) where
  unfoldable pub signed_value : D → CborValue
  signed_value d =
      object (of_list (shape.body d ++ signing_fields (doc.stored_hash d) (shape.kid d)))

  pub signing_value-receipt :
      (d : D) → signing_value (doc.to_cbor_value d false) ≡ some (signed_value d)
  unfolding signing_value signed_value
  signing_value-receipt d = rw (
    shape.shape d false,
    set_signature (shape.body d) (doc.stored_hash d) (doc.stored_signature d) (shape.kid d)
        (shape.own d),
  )

  module _ (p : Platform) (c : Crypto) where
    -- A receipt under a signature: its stored hash is that of its zeroed encoding, and its stored
    -- signature is one of its encoding with the signature alone zeroed.
    pub record IsSigned (d : D) (public_key : Bytes) : Type 0 where
      pub key_length : length public_key ≡ 32
      pub key_valid : c.valid_key public_key ≡ true
      pub hash_stored : compute_hash p c d ≡ some (doc.stored_hash d)
      pub signing_bytes : Bytes
      pub written : encode p (signed_value d) ≡ some signing_bytes
      pub verifies : c.verify public_key signing_bytes (doc.stored_signature d) ≡ true

    check_signature_sound :
        (d : D) (key : Bytes)
        → check_signature p c d key (some (signed_value d)) ≡ ok tt
        → (bs : Bytes) × (encode p (signed_value d) ≡ some bs)
          × (c.verify key bs (doc.stored_signature d) ≡ true)
    unfolding check_signature
    check_signature_sound d key h =
        let (bs, e, h') = or_panic-eq-ok (encode p (signed_value d)) _ h in (bs, e, ground arith)

    accepted_hash :
        (d : D) (key : Bytes)
        → length key ≡ 32
        → c.valid_key key ≡ true
        → (computed : Bytes) → compute_hash p c d ≡ some computed
        → (if not (bytes_eq computed (doc.stored_hash d))
            then err bad_signature
            else check_signature p c d key (signing_value (doc.to_cbor_value d false)))
          ≡ ok tt
        → IsSigned d key
    accepted_hash d key l v computed e h =
        elim (Bool-cases (bytes_eq computed (doc.stored_hash d))) [
          | inr n ↦ absurd (ground arith)
          | inl y ↦
              let (bs, w, s) = check_signature_sound d key (rw (y, signing_value-receipt d) at h) in
              record {
                key_length = l;
                key_valid = v;
                hash_stored = rw (← eq_of_bytes_eq computed (doc.stored_hash d) y) e;
                signing_bytes = bs;
                written = w;
                verifies = s;
              }
        ]

    accepted : (d : D) (key : Bytes) → verify_receipt_signature p c d key ≡ ok tt → IsSigned d key
    unfolding verify_receipt_signature
    accepted d key h = elim (Bool-cases (length key == 32)) [
      | inr e ↦ absurd (ground arith)
      | inl e ↦ elim (Bool-cases (c.valid_key key)) [
        | inr e' ↦ absurd (ground arith)
        | inl e' ↦
            let (computed, e1, h1) =
              or_panic-eq-ok (compute_hash p c d) _ (rw (e, e', verify_receipt_signature) at h) in
            accepted_hash d key ((==_iff _ _).0 e) e' computed e1 h1
      ]
    ]

    -- The check accepts a receipt under a key exactly if the key is a key of 32 bytes, the stored hash
    -- is the digest of the zeroed encoding, and the stored signature verifies over the encoding with
    -- the signature alone zeroed.
    pub verify_receipt_signature_iff :
        (d : D) (key : Bytes) → (verify_receipt_signature p c d key ≡ ok tt) ↔ IsSigned d key
    unfolding verify_receipt_signature
    verify_receipt_signature_iff d key = (
      accepted d key,
      λ s.
          rw
            (
              s.key_length,
              s.key_valid,
              s.hash_stored,
              bytes_eq_refl (doc.stored_hash d),
              signing_value-receipt d,
            )
            (unfold check_signature in rw (s.written, s.verifies)),
    )
