-- ===== src/Enrich/Receipts.antt =====
-- The receipts of enrichment that are built before they are signed
-- (crates/rcx-registry-enrich/src/lib.rs).
pub mod Enriched
use rcx_registry.Prelude.{ℕ, true, Option, none, some, Bytes, replicate}
use rcx_registry.Prelude.Partial
use rcx_registry.Prelude.Outcome.{Outcome, ok, or_panic, ◌>>=◌}
use rcx_registry.Crown.Crypto.{Crypto}
use rcx_registry.Crown.Float.{Platform}
use rcx_registry.Crown.Receipt.{compute_hash}
use rcx_registry.Crown.Receipt.Kinds.Entries.{
  EntryAutoEnrichedReceipt, entry_auto_enriched, EntryEnrichedReceipt, entry_enriched,
}
use rcx_registry.Enrich.{EnrichError}
use rcx_registry.Enrich.Blocks.{
  AutoEnrichmentPayload, auto_to_canonical_cbor, PublisherEnrichmentPayload,
  publisher_to_canonical_cbor, PublisherEnrichmentRecord, publisher_block, blake3_text,
}
use rcx_registry.Enrich.Declaration.{PublisherDeclaration}

-- the receipt with its hash and signature still to be filled in
unfoldable pub auto_receipt :
    Bytes → Bytes → Bytes → Bytes → Bytes → Bytes → Bytes → EntryAutoEnrichedReceipt
auto_receipt server_name snapshot_id event_id enrichment kid hash signature = record {
  event_id = event_id;
  server_name = server_name;
  snapshot_id = snapshot_id;
  auto_enrichment_bytes = enrichment;
  receipt_hash = hash;
  receipt_signature = signature;
  signer_kid = kid;
}

unfoldable pub enriched_receipt :
    Bytes
    → PublisherDeclaration
    → Bytes
    → Bytes
    → Bytes
    → Bytes
    → Bytes
    → Option Bytes
    → Bytes
    → Bytes
    → EntryEnrichedReceipt
enriched_receipt server_name declaration declared_uri declared_hash enrichment event_id kid
      supersedes_prior hash signature =
    record {
      event_id = event_id;
      server_name = server_name;
      publisher_passport = declaration.publisher_passport;
      declared_uri = declared_uri;
      declared_hash = declared_hash;
      enrichment_bytes = enrichment;
      supersedes_prior = supersedes_prior;
      receipt_hash = hash;
      receipt_signature = signature;
      signer_kid = kid;
    }

module _ (p : Platform) (c : Crypto) where
  -- `none` is the panic of the encoder
  unfoldable pub build_entry_auto_enriched_receipt :
      Bytes → Bytes → Bytes → AutoEnrichmentPayload → Bytes → Option EntryAutoEnrichedReceipt
  unfolding auto_receipt
  build_entry_auto_enriched_receipt server_name snapshot_id event_id payload kid =
      Partial.◌>>=◌ (auto_to_canonical_cbor p payload) (λ enrichment.
        let receipt = auto_receipt server_name snapshot_id event_id enrichment kid in
        Partial.◌>>=◌ (compute_hash p c (receipt (replicate 32 0) (replicate 64 0)))
          (λ hash. some (receipt hash (replicate 64 0))))

  unfoldable pub build_entry_enriched_receipt :
      Bytes
      → PublisherDeclaration
      → Bytes
      → Bytes
      → PublisherEnrichmentPayload
      → Bytes
      → Bytes
      → Option Bytes
      → Outcome EnrichError EntryEnrichedReceipt
  unfolding enriched_receipt
  build_entry_enriched_receipt server_name declaration declared_uri declared_hash payload event_id
        kid supersedes_prior =
      do
        enrichment ← publisher_to_canonical_cbor p payload
        hash ← or_panic (
            compute_hash p c (
              enriched_receipt server_name declaration declared_uri declared_hash enrichment
                event_id kid supersedes_prior (replicate 32 0) (replicate 64 0)))
        ok (
            enriched_receipt server_name declaration declared_uri declared_hash enrichment event_id
              kid supersedes_prior hash (replicate 64 0))

module _ (encode_hex : Bytes → Bytes) where
  unfoldable pub build_publisher_enrichment_payload :
      PublisherDeclaration → Bytes → Bytes → Bytes → Option ℕ → PublisherEnrichmentPayload
  build_publisher_enrichment_payload declaration declared_uri declared_hash method interval =
      record {
        category = declaration.category;
        min_tier = declaration.min_tier;
        required_affinity = declaration.required_affinity;
        capability_graph = declaration.capability_graph;
        declared_at = declaration.declared_at;
        declared_uri = declared_uri;
        declared_hash = blake3_text encode_hex declared_hash;
        publisher_rights_verified = true;
        verification_method = method;
        refresh_interval_seconds = interval;
      }

  unfoldable pub build_publisher_enrichment_record :
      Bytes
      → PublisherDeclaration
      → PublisherEnrichmentPayload
      → Bytes
      → Option Bytes
      → PublisherEnrichmentRecord
  build_publisher_enrichment_record server_name declaration payload receipt_hash supersedes_prior =
      record {
        server_name = server_name;
        publisher_passport = declaration.publisher_passport;
        block = publisher_block encode_hex payload receipt_hash;
        supersedes_prior_receipt_hash = supersedes_prior;
      }
