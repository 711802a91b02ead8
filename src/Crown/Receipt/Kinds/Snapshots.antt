-- ===== src/Crown/Receipt/Kinds/Snapshots.antt =====
-- The receipts of a registry snapshot (receipt.rs) and of a skills lockfile (skill_receipt.rs).
use rcx_registry.Prelude.{ℕ, Option, List, [], ◌∷◌, ◌++◌, Bytes, codes}
use rcx_registry.Crown.Cbor.Value.{CborValue, uint, bytes, text, object, of_list}
use rcx_registry.Crown.Receipt.{ReceiptDocument, receipt_fields}
use rcx_registry.Crown.Receipt.Kinds.Values.{bytes_or_null, text_or_null}

pub record SnapshotChanges : Type 0 where
  pub added : ℕ
  pub removed : ℕ
  pub modified : ℕ

abbrev pub changes_value : SnapshotChanges → CborValue
changes_value c = object (
    of_list (
      (codes "added", uint c.added)
      ∷ (codes "removed", uint c.removed)
      ∷ (codes "modified", uint c.modified)
      ∷ []))

pub record RegistrySnapshotReceipt : Type 0 where
  pub event_id : Bytes
  pub snapshot_id : Bytes
  pub scraped_at : ℕ
  pub server_count : ℕ
  pub snapshot_merkle_root : Bytes
  pub previous_snapshot_hash : Option Bytes
  pub upstream_registry_uri : Bytes
  pub upstream_snapshot_etag : Option Bytes
  pub changes : SnapshotChanges
  pub receipt_hash : Bytes
  pub receipt_signature : Bytes
  pub signer_kid : Bytes

-- the fields that are its own
abbrev pub registry_snapshot_body : RegistrySnapshotReceipt → List (Bytes × CborValue)
registry_snapshot_body d =
    (codes "event_id", bytes d.event_id)
    ∷ (codes "snapshot_id", bytes d.snapshot_id)
    ∷ (codes "scraped_at", uint d.scraped_at)
    ∷ (codes "server_count", uint d.server_count)
    ∷ (codes "snapshot_merkle_root", bytes d.snapshot_merkle_root)
    ∷ (codes "previous_snapshot_hash", bytes_or_null d.previous_snapshot_hash)
    ∷ (codes "upstream_registry_uri", text d.upstream_registry_uri)
    ∷ (codes "upstream_snapshot_etag", text_or_null d.upstream_snapshot_etag)
    ∷ (codes "changes", changes_value d.changes)
    ∷ []

instance abbrev pub registry_snapshot : ReceiptDocument RegistrySnapshotReceipt
registry_snapshot = record {
  to_cbor_value = λ d zero_receipt. object (
      of_list (
        registry_snapshot_body d
        ++ receipt_fields zero_receipt d.receipt_hash d.receipt_signature d.signer_kid));
  stored_hash = λ d. d.receipt_hash;
  stored_signature = λ d. d.receipt_signature;
}

pub record SkillSnapshotReceipt : Type 0 where
  pub event_id : Bytes
  pub snapshot_id : Bytes
  pub signed_at_ms : ℕ
  pub skill_count : ℕ
  pub lock_version : ℕ
  pub lock_merkle_root : Bytes
  pub previous_snapshot_hash : Option Bytes
  pub receipt_hash : Bytes
  pub receipt_signature : Bytes
  pub signer_kid : Bytes

-- the fields that are its own
abbrev pub skill_snapshot_body : SkillSnapshotReceipt → List (Bytes × CborValue)
skill_snapshot_body d =
    (codes "event_id", bytes d.event_id)
    ∷ (codes "snapshot_id", bytes d.snapshot_id)
    ∷ (codes "signed_at_ms", uint d.signed_at_ms)
    ∷ (codes "skill_count", uint d.skill_count)
    ∷ (codes "lock_version", uint d.lock_version)
    ∷ (codes "lock_merkle_root", bytes d.lock_merkle_root)
    ∷ (codes "previous_snapshot_hash", bytes_or_null d.previous_snapshot_hash)
    ∷ []

instance abbrev pub skill_snapshot : ReceiptDocument SkillSnapshotReceipt
skill_snapshot = record {
  to_cbor_value = λ d zero_receipt. object (
      of_list (
        skill_snapshot_body d
        ++ receipt_fields zero_receipt d.receipt_hash d.receipt_signature d.signer_kid));
  stored_hash = λ d. d.receipt_hash;
  stored_signature = λ d. d.receipt_signature;
}
