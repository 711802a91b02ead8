-- ===== src/Crown/Receipt/Kinds/Entries.antt =====
-- The receipts of an enriched entry (receipt.rs).
use rcx_registry.Prelude.{Option, List, [], ◌∷◌, ◌++◌, Bytes, codes}
use rcx_registry.Crown.Cbor.Value.{CborValue, bytes, text, object, of_list}
use rcx_registry.Crown.Receipt.{ReceiptDocument, receipt_fields}
use rcx_registry.Crown.Receipt.Kinds.Values.{bytes_or_null}

pub record EntryAutoEnrichedReceipt : Type 0 where
  pub event_id : Bytes
  pub server_name : Bytes
  pub snapshot_id : Bytes
  pub auto_enrichment_bytes : Bytes
  pub receipt_hash : Bytes
  pub receipt_signature : Bytes
  pub signer_kid : Bytes

-- the fields that are its own
abbrev pub entry_auto_enriched_body : EntryAutoEnrichedReceipt → List (Bytes × CborValue)
entry_auto_enriched_body d =
    (codes "event_id", bytes d.event_id)
    ∷ (codes "server_name", text d.server_name)
    ∷ (codes "snapshot_id", bytes d.snapshot_id)
    ∷ (codes "auto_enrichment_bytes", bytes d.auto_enrichment_bytes)
    ∷ []

instance abbrev pub entry_auto_enriched : ReceiptDocument EntryAutoEnrichedReceipt
entry_auto_enriched = record {
  to_cbor_value = λ d zero_receipt. object (
      of_list (
        entry_auto_enriched_body d
        ++ receipt_fields zero_receipt d.receipt_hash d.receipt_signature d.signer_kid));
  stored_hash = λ d. d.receipt_hash;
  stored_signature = λ d. d.receipt_signature;
}

pub record EntryEnrichedReceipt : Type 0 where
  pub event_id : Bytes
  pub server_name : Bytes
  pub publisher_passport : Bytes
  pub declared_uri : Bytes
  pub declared_hash : Bytes
  pub enrichment_bytes : Bytes
  pub supersedes_prior : Option Bytes
  pub receipt_hash : Bytes
  pub receipt_signature : Bytes
  pub signer_kid : Bytes

-- the fields that are its own
abbrev pub entry_enriched_body : EntryEnrichedReceipt → List (Bytes × CborValue)
entry_enriched_body d =
    (codes "event_id", bytes d.event_id)
    ∷ (codes "server_name", text d.server_name)
    ∷ (codes "publisher_passport", text d.publisher_passport)
    ∷ (codes "declared_uri", text d.declared_uri)
    ∷ (codes "declared_hash", bytes d.declared_hash)
    ∷ (codes "enrichment_bytes", bytes d.enrichment_bytes)
    ∷ (codes "supersedes_prior", bytes_or_null d.supersedes_prior)
    ∷ []

instance abbrev pub entry_enriched : ReceiptDocument EntryEnrichedReceipt
entry_enriched = record {
  to_cbor_value = λ d zero_receipt. object (
      of_list (
        entry_enriched_body d
        ++ receipt_fields zero_receipt d.receipt_hash d.receipt_signature d.signer_kid));
  stored_hash = λ d. d.receipt_hash;
  stored_signature = λ d. d.receipt_signature;
}
