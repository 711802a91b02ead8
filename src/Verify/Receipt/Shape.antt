-- ===== src/Verify/Receipt/Shape.antt =====
-- Look-ups and zeroing on the value of a receipt.
use mathlib.Core.Option
use rcx_registry.Prelude.{
  ◌≡◌, refl, ap, ap₂, true, false, Option, none, some, List, [], ◌∷◌, ◌++◌, map, Bytes, bytes_eq,
  bytes_eq_comm, length, All,
}
use rcx_registry.Crown.Cbor.Value.{
  CborValue, uint, bytes, text, array, object, bool, null, float, of_list, to_list-of_list,
}
use rcx_registry.Crown.Cbor.Encoding.{canonical, AreFinitePairs}
use rcx_registry.Crown.Receipt.{
  ReceiptDocument, receipt_fields, field_receipt_hash, field_receipt_signature, field_signer_kid,
}
use rcx_registry.Crown.Receipt.Fields.{IsReceipt, IsOwnField}
use rcx_registry.Crown.Receipt.Checks.{signing_fields, signed_value}
use rcx_registry.Verify.Fields.{lookup, contains, zeroed, zero_field, zero_fields}
use rcx_registry.Verify.Receipt.{hash_preimage_keys, signing_preimage_keys, root_of}

-- Behind a receipt's own fields each of the three is found.
module _ (hash signature kid : Bytes) where
  pub lookup-receipt_hash :
      (body : List (Bytes × CborValue))
      → All IsOwnField body
      → lookup field_receipt_hash (body ++ receipt_fields false hash signature kid)
        ≡ some (bytes hash)
  unfolding lookup receipt_fields bytes_eq
  lookup-receipt_hash [] h = refl
  lookup-receipt_hash ((k, v) ∷ body) ((o, _, _), h) =
      rw (bytes_eq_comm k field_receipt_hash, o) (lookup-receipt_hash body h)

  pub lookup-receipt_signature :
      (body : List (Bytes × CborValue))
      → All IsOwnField body
      → lookup field_receipt_signature (body ++ receipt_fields false hash signature kid)
        ≡ some (bytes signature)
  unfolding lookup receipt_fields bytes_eq
  lookup-receipt_signature [] h = refl
  lookup-receipt_signature ((k, v) ∷ body) ((_, o, _), h) =
      rw (bytes_eq_comm k field_receipt_signature, o) (lookup-receipt_signature body h)

  pub lookup-signer_kid :
      (body : List (Bytes × CborValue))
      → All IsOwnField body
      → lookup field_signer_kid (body ++ receipt_fields false hash signature kid) ≡ some (text kid)
  unfolding lookup receipt_fields bytes_eq
  lookup-signer_kid [] h = refl
  lookup-signer_kid ((k, v) ∷ body) ((_, _, o), h) =
      rw (bytes_eq_comm k field_signer_kid, o) (lookup-signer_kid body h)

  -- Zeroing all three gives the fields of the zeroed receipt.
  pub zero_field-hash_preimage :
      (body : List (Bytes × CborValue))
      → length hash ≡ 32
      → length signature ≡ 64
      → All IsOwnField body
      → map (zero_field hash_preimage_keys) (body ++ receipt_fields false hash signature kid)
        ≡ body ++ receipt_fields true hash signature kid
  unfolding contains zeroed receipt_fields bytes_eq
  zero_field-hash_preimage [] lh ls h = rw (lh, ls)
  zero_field-hash_preimage ((k, v) ∷ body) lh ls ((oh, os, ok'), h) =
      ap₂ (λ f fs. f ∷ fs) (rw (oh, os, ok')) (zero_field-hash_preimage body lh ls h)

  -- Zeroing the signature gives the fields that the signature is over.
  pub zero_field-signing_preimage :
      (body : List (Bytes × CborValue))
      → length signature ≡ 64
      → All IsOwnField body
      → map (zero_field signing_preimage_keys) (body ++ receipt_fields false hash signature kid)
        ≡ body ++ signing_fields hash kid
  unfolding contains zeroed receipt_fields bytes_eq
  zero_field-signing_preimage [] ls h = rw ls
  zero_field-signing_preimage ((k, v) ∷ body) ls ((oh, os, ok'), h) =
      ap₂ (λ f fs. f ∷ fs) (rw os) (zero_field-signing_preimage body ls h)

  pub receipt-AreFinitePairs :
      (body : List (Bytes × CborValue))
      → AreFinitePairs (of_list body)
      → AreFinitePairs (of_list (body ++ receipt_fields false hash signature kid))
  unfolding receipt_fields
  receipt-AreFinitePairs [] h = (tt, (tt, (tt, tt)))
  receipt-AreFinitePairs ((k, v) ∷ body) (hv, h) = (hv, receipt-AreFinitePairs body h)

module _ {ℓ} {D : Type ℓ} ⦃doc : ReceiptDocument D⦄ (shape : IsReceipt doc) (d : D) where
  pub zero_fields-hash_preimage :
      length (doc.stored_hash d) ≡ 32
      → length (doc.stored_signature d) ≡ 64
      → zero_fields (doc.to_cbor_value d false) hash_preimage_keys ≡ doc.to_cbor_value d true
  unfolding zero_fields
  zero_fields-hash_preimage lh ls =
      rw (shape.shape d false, shape.shape d true, to_list-of_list)
        (ap (λ fs. object (of_list fs))
          (zero_field-hash_preimage (doc.stored_hash d) (doc.stored_signature d) (shape.kid d)
            (shape.body d) lh ls (shape.own d)))

  pub zero_fields-signing_preimage :
      length (doc.stored_signature d) ≡ 64
      → zero_fields (doc.to_cbor_value d false) signing_preimage_keys ≡ signed_value shape d
  unfolding zero_fields signed_value
  zero_fields-signing_preimage ls =
      rw (shape.shape d false, to_list-of_list)
        (ap (λ fs. object (of_list fs))
          (zero_field-signing_preimage (doc.stored_hash d) (doc.stored_signature d) (shape.kid d)
            (shape.body d) ls (shape.own d)))

-- A root is read off the value that was decoded as off the value that was encoded.
pub root_of-canonical : (o : Option CborValue) → root_of (Option.map canonical o) ≡ root_of o
unfolding root_of canonical
root_of-canonical none = refl
root_of-canonical (some (uint n)) = refl
root_of-canonical (some (bytes bs)) = refl
root_of-canonical (some (text s)) = refl
root_of-canonical (some (array xs)) = refl
root_of-canonical (some (object ps)) = refl
root_of-canonical (some (bool b)) = refl
root_of-canonical (some null) = refl
root_of-canonical (some (float x)) = refl
