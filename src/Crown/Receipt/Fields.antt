-- ===== src/Crown/Receipt/Fields.antt =====
-- What the seven receipts have in common, as laws of the trait: their own fields stand before the
-- three fields of every receipt, under other names, and hold no float.
use rcx_registry.Prelude.{
  ◌≡◌, refl, Bool, false, List, ◌++◌, Option, none, some, Bytes, bytes_eq, All,
}
use rcx_registry.Crown.Cbor.Value.{CborValue, object, of_list}
use rcx_registry.Crown.Cbor.Encoding.{IsFinite, AreFinitePairs}
use rcx_registry.Crown.Receipt.{
  ReceiptDocument, receipt_fields, field_receipt_hash, field_receipt_signature, field_signer_kid,
}
use rcx_registry.Crown.Receipt.Kinds.Values.{bytes_or_null, text_or_null}
use rcx_registry.Crown.Receipt.Kinds.Snapshots.{
  RegistrySnapshotReceipt, registry_snapshot, registry_snapshot_body, SkillSnapshotReceipt,
  skill_snapshot, skill_snapshot_body,
}
use rcx_registry.Crown.Receipt.Kinds.Entries.{
  EntryAutoEnrichedReceipt, entry_auto_enriched, entry_auto_enriched_body, EntryEnrichedReceipt,
  entry_enriched, entry_enriched_body,
}
use rcx_registry.Crown.Receipt.Kinds.Claims.{
  AttestationAcceptedReceipt, attestation_accepted, attestation_accepted_body,
  AttestationRevokedReceipt, attestation_revoked, attestation_revoked_body,
  PublisherRightsVerifiedReceipt, publisher_rights_verified, publisher_rights_verified_body,
}

-- A field that is none of the three.
abbrev pub IsOwnField : Bytes × CborValue → Type 0
IsOwnField (name, v) =
    (bytes_eq field_receipt_hash name ≡ false)
    × (bytes_eq field_receipt_signature name ≡ false)
    × (bytes_eq field_signer_kid name ≡ false)

pub record IsReceipt {ℓ} {D : Type ℓ} (doc : ReceiptDocument D) : Type ℓ where
  pub body : D → List (Bytes × CborValue)
  pub kid : D → Bytes
  pub shape :
      (d : D) (zero_receipt : Bool)
      → doc.to_cbor_value d zero_receipt
        ≡ object (
            of_list (
              body d
              ++ receipt_fields zero_receipt (doc.stored_hash d) (doc.stored_signature d) (kid d)))
  pub own : (d : D) → All IsOwnField (body d)
  pub finite : (d : D) → AreFinitePairs (of_list (body d))

pub bytes_or_null-IsFinite : (o : Option Bytes) → IsFinite (bytes_or_null o)
bytes_or_null-IsFinite (some hash) = tt
bytes_or_null-IsFinite none = tt

pub text_or_null-IsFinite : (o : Option Bytes) → IsFinite (text_or_null o)
text_or_null-IsFinite (some s) = tt
text_or_null-IsFinite none = tt

pub registry_snapshot-own :
    (d : RegistrySnapshotReceipt) → All IsOwnField (registry_snapshot_body d)
unfolding bytes_eq
registry_snapshot-own d = search tt depth 20

pub registry_snapshot-finite :
    (d : RegistrySnapshotReceipt) → AreFinitePairs (of_list (registry_snapshot_body d))
registry_snapshot-finite d = search (tt, bytes_or_null-IsFinite, text_or_null-IsFinite) depth 20

instance abbrev pub registry_snapshot-IsReceipt : IsReceipt registry_snapshot
registry_snapshot-IsReceipt = record {
  body = registry_snapshot_body;
  kid = λ d. d.signer_kid;
  shape = λ d zero_receipt. refl;
  own = registry_snapshot-own;
  finite = registry_snapshot-finite;
}

skill_snapshot-own : (d : SkillSnapshotReceipt) → All IsOwnField (skill_snapshot_body d)
unfolding bytes_eq
skill_snapshot-own d = search tt depth 20

skill_snapshot-finite :
    (d : SkillSnapshotReceipt) → AreFinitePairs (of_list (skill_snapshot_body d))
skill_snapshot-finite d = search (tt, bytes_or_null-IsFinite) depth 20

instance pub skill_snapshot-IsReceipt : IsReceipt skill_snapshot
skill_snapshot-IsReceipt = record {
  body = skill_snapshot_body;
  kid = λ d. d.signer_kid;
  shape = λ d zero_receipt. refl;
  own = skill_snapshot-own;
  finite = skill_snapshot-finite;
}

entry_auto_enriched-own :
    (d : EntryAutoEnrichedReceipt) → All IsOwnField (entry_auto_enriched_body d)
unfolding bytes_eq
entry_auto_enriched-own d = search tt depth 20

entry_auto_enriched-finite :
    (d : EntryAutoEnrichedReceipt) → AreFinitePairs (of_list (entry_auto_enriched_body d))
entry_auto_enriched-finite d = search tt depth 20

instance pub entry_auto_enriched-IsReceipt : IsReceipt entry_auto_enriched
entry_auto_enriched-IsReceipt = record {
  body = entry_auto_enriched_body;
  kid = λ d. d.signer_kid;
  shape = λ d zero_receipt. refl;
  own = entry_auto_enriched-own;
  finite = entry_auto_enriched-finite;
}

entry_enriched-own : (d : EntryEnrichedReceipt) → All IsOwnField (entry_enriched_body d)
unfolding bytes_eq
entry_enriched-own d = search tt depth 20

entry_enriched-finite :
    (d : EntryEnrichedReceipt) → AreFinitePairs (of_list (entry_enriched_body d))
entry_enriched-finite d = search (tt, bytes_or_null-IsFinite) depth 20

instance pub entry_enriched-IsReceipt : IsReceipt entry_enriched
entry_enriched-IsReceipt = record {
  body = entry_enriched_body;
  kid = λ d. d.signer_kid;
  shape = λ d zero_receipt. refl;
  own = entry_enriched-own;
  finite = entry_enriched-finite;
}

attestation_accepted-own :
    (d : AttestationAcceptedReceipt) → All IsOwnField (attestation_accepted_body d)
unfolding bytes_eq
attestation_accepted-own d = search tt depth 20

attestation_accepted-finite :
    (d : AttestationAcceptedReceipt) → AreFinitePairs (of_list (attestation_accepted_body d))
attestation_accepted-finite d = search tt depth 20

instance pub attestation_accepted-IsReceipt : IsReceipt attestation_accepted
attestation_accepted-IsReceipt = record {
  body = attestation_accepted_body;
  kid = λ d. d.signer_kid;
  shape = λ d zero_receipt. refl;
  own = attestation_accepted-own;
  finite = attestation_accepted-finite;
}

attestation_revoked-own :
    (d : AttestationRevokedReceipt) → All IsOwnField (attestation_revoked_body d)
unfolding bytes_eq
attestation_revoked-own d = search tt depth 20

attestation_revoked-finite :
    (d : AttestationRevokedReceipt) → AreFinitePairs (of_list (attestation_revoked_body d))
attestation_revoked-finite d = search (tt, text_or_null-IsFinite) depth 20

instance pub attestation_revoked-IsReceipt : IsReceipt attestation_revoked
attestation_revoked-IsReceipt = record {
  body = attestation_revoked_body;
  kid = λ d. d.signer_kid;
  shape = λ d zero_receipt. refl;
  own = attestation_revoked-own;
  finite = attestation_revoked-finite;
}

publisher_rights_verified-own :
    (d : PublisherRightsVerifiedReceipt) → All IsOwnField (publisher_rights_verified_body d)
unfolding bytes_eq
publisher_rights_verified-own d = search tt depth 20

publisher_rights_verified-finite :
    (d : PublisherRightsVerifiedReceipt)
    → AreFinitePairs (of_list (publisher_rights_verified_body d))
publisher_rights_verified-finite d = search tt depth 20

instance pub publisher_rights_verified-IsReceipt : IsReceipt publisher_rights_verified
publisher_rights_verified-IsReceipt = record {
  body = publisher_rights_verified_body;
  kid = λ d. d.signer_kid;
  shape = λ d zero_receipt. refl;
  own = publisher_rights_verified-own;
  finite = publisher_rights_verified-finite;
}
