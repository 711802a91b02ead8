-- ===== src/Admin/Namespace/Receipt.antt =====
-- The receipt of publisher rights that is built before it is signed.
use rcx_registry.Prelude.{ℕ, ◌≡◌, true, some, Bytes, replicate}
use rcx_registry.Crown.Crypto.{Crypto}
use rcx_registry.Crown.Float.{Platform}
use rcx_registry.Crown.Cbor.Encoding.{IsFinite, encoding, encode-IsFinite}
use rcx_registry.Crown.Receipt.{receipt_fields, compute_hash, to_zeroed_canonical_cbor}
use rcx_registry.Crown.Receipt.Kinds.Claims.{
  PublisherRightsVerifiedReceipt, publisher_rights_verified,
}
use rcx_registry.Admin.Namespace.{
  VerificationMethod, rights_receipt, build_publisher_rights_verified_receipt,
}

rights-IsFinite :
    (d : PublisherRightsVerifiedReceipt) → IsFinite (publisher_rights_verified.to_cbor_value d true)
unfolding receipt_fields
rights-IsFinite d = search tt depth 20

rights-compute_hash :
    (p : Platform) (c : Crypto) (d : PublisherRightsVerifiedReceipt)
    → compute_hash p c d
      ≡ some (c.blake3 (encoding p (publisher_rights_verified.to_cbor_value d true)))
unfolding compute_hash to_zeroed_canonical_cbor
rights-compute_hash p c d =
    rw (encode-IsFinite p (publisher_rights_verified.to_cbor_value d true) (rights-IsFinite d))

-- Building a receipt of publisher rights returns, without a panic, a receipt with a signature of zeros
-- and a hash that is the computed hash of the receipt under every signature that is filled in later.
pub build_publisher_rights_verified_receipt-compute_hash :
    (p : Platform) (c : Crypto) (event_id passport namespace : Bytes) (method : VerificationMethod)
    (verified_at : ℕ) (kid : Bytes)
    → (hash : Bytes) × (build_publisher_rights_verified_receipt p c event_id passport namespace
          method verified_at kid
        ≡ some (
            rights_receipt event_id passport namespace method verified_at kid hash
              (replicate 64 0)))
      × ((signature : Bytes)
          → compute_hash p c
              (rights_receipt event_id passport namespace method verified_at kid hash signature)
            ≡ some hash)
unfolding build_publisher_rights_verified_receipt receipt_fields
build_publisher_rights_verified_receipt-compute_hash p c event_id passport namespace method
      verified_at kid =
    let r = rights_receipt event_id passport namespace method verified_at kid in
    let e = rights-compute_hash p c (r (replicate 32 0) (replicate 64 0)) in
    (_, rw e, λ signature. rights-compute_hash p c (r _ signature))
