-- ===== src/Crown/Receipt/Kinds/Claims.antt =====
-- The receipts of attestations and of publisher rights (receipt.rs).
use rcx_registry.Prelude.{ℕ, Option, List, [], ◌∷◌, ◌++◌, Bytes, codes}
use rcx_registry.Crown.Cbor.Value.{CborValue, uint, bytes, text, object, of_list}
use rcx_registry.Crown.Receipt.{ReceiptDocument, receipt_fields}
use rcx_registry.Crown.Receipt.Kinds.Values.{text_or_null}

pub record AttestationAcceptedReceipt : Type 0 where
  pub event_id : Bytes
  pub attestation_id : Bytes
  pub server_name : Bytes
  pub issuer_passport : Bytes
  pub attestation_type : Bytes
  pub attestation_hash : Bytes
  pub attestation_bytes : Bytes
  pub receipt_hash : Bytes
  pub receipt_signature : Bytes
  pub signer_kid : Bytes

-- the fields that are its own
abbrev pub attestation_accepted_body : AttestationAcceptedReceipt → List (Bytes × CborValue)
attestation_accepted_body d =
    (codes "event_id", bytes d.event_id)
    ∷ (codes "attestation_id", bytes d.attestation_id)
    ∷ (codes "server_name", text d.server_name)
    ∷ (codes "issuer_passport", text d.issuer_passport)
    ∷ (codes "type", text d.attestation_type)
    ∷ (codes "attestation_hash", bytes d.attestation_hash)
    ∷ (codes "attestation_bytes", bytes d.attestation_bytes)
    ∷ []

instance abbrev pub attestation_accepted : ReceiptDocument AttestationAcceptedReceipt
attestation_accepted = record {
  to_cbor_value = λ d zero_receipt. object (
      of_list (
        attestation_accepted_body d
        ++ receipt_fields zero_receipt d.receipt_hash d.receipt_signature d.signer_kid));
  stored_hash = λ d. d.receipt_hash;
  stored_signature = λ d. d.receipt_signature;
}

pub record AttestationRevokedReceipt : Type 0 where
  pub event_id : Bytes
  pub attestation_id : Bytes
  pub revoker_passport : Bytes
  pub reason : Option Bytes
  pub revoked_at : ℕ
  pub revocation_signature : Bytes
  pub receipt_hash : Bytes
  pub receipt_signature : Bytes
  pub signer_kid : Bytes

-- the fields that are its own
abbrev pub attestation_revoked_body : AttestationRevokedReceipt → List (Bytes × CborValue)
attestation_revoked_body d =
    (codes "event_id", bytes d.event_id)
    ∷ (codes "attestation_id", bytes d.attestation_id)
    ∷ (codes "revoker_passport", text d.revoker_passport)
    ∷ (codes "reason", text_or_null d.reason)
    ∷ (codes "revoked_at", uint d.revoked_at)
    ∷ (codes "revocation_signature", bytes d.revocation_signature)
    ∷ []

instance abbrev pub attestation_revoked : ReceiptDocument AttestationRevokedReceipt
attestation_revoked = record {
  to_cbor_value = λ d zero_receipt. object (
      of_list (
        attestation_revoked_body d
        ++ receipt_fields zero_receipt d.receipt_hash d.receipt_signature d.signer_kid));
  stored_hash = λ d. d.receipt_hash;
  stored_signature = λ d. d.receipt_signature;
}

pub record PublisherRightsVerifiedReceipt : Type 0 where
  pub event_id : Bytes
  pub publisher_passport : Bytes
  pub namespace : Bytes
  pub verification_method : Bytes
  pub verified_at : ℕ
  pub receipt_hash : Bytes
  pub receipt_signature : Bytes
  pub signer_kid : Bytes

-- the fields that are its own
abbrev pub publisher_rights_verified_body :
    PublisherRightsVerifiedReceipt → List (Bytes × CborValue)
publisher_rights_verified_body d =
    (codes "event_id", bytes d.event_id)
    ∷ (codes "publisher_passport", text d.publisher_passport)
    ∷ (codes "namespace", text d.namespace)
    ∷ (codes "verification_method", text d.verification_method)
    ∷ (codes "verified_at", uint d.verified_at)
    ∷ []

instance abbrev pub publisher_rights_verified : ReceiptDocument PublisherRightsVerifiedReceipt
publisher_rights_verified = record {
  to_cbor_value = λ d zero_receipt. object (
      of_list (
        publisher_rights_verified_body d
        ++ receipt_fields zero_receipt d.receipt_hash d.receipt_signature d.signer_kid));
  stored_hash = λ d. d.receipt_hash;
  stored_signature = λ d. d.receipt_signature;
}
