-- ===== src/Enrich/Receipts/Enriched.antt =====
-- The receipt of a publisher's enrichment (crates/rcx-registry-enrich/src/lib.rs).
use rcx_registry.Prelude.{ℕ, ◌≡◌, true, Option, none, some, Bytes, replicate}
use rcx_registry.Prelude.Outcome.{ok}
use rcx_registry.Crown.Crypto.{Crypto}
use rcx_registry.Crown.Float.{Platform}
use rcx_registry.Crown.Cbor.Value.{CborValue}
use rcx_registry.Crown.Cbor.Encoding.{IsFinite, encoding, encode-IsFinite}
use rcx_registry.Crown.Receipt.{receipt_fields, compute_hash, to_zeroed_canonical_cbor}
use rcx_registry.Crown.Receipt.Kinds.Entries.{EntryEnrichedReceipt, entry_enriched}
use rcx_registry.Crown.Receipt.Fields.{bytes_or_null-IsFinite, text_or_null-IsFinite}
use rcx_registry.Enrich.Json.{IsNonNegative, json_to_cbor, json_to_cbor-IsFinite, Returns-ok}
use rcx_registry.Enrich.Blocks.{
  PublisherEnrichmentPayload, publisher_value, uint_or_null, publisher_to_cbor_value,
  publisher_to_canonical_cbor,
}
use rcx_registry.Enrich.Declaration.{PublisherDeclaration}
use rcx_registry.Enrich.Receipts.{enriched_receipt, build_entry_enriched_receipt}

uint_or_null-IsFinite : (o : Option ℕ) → IsFinite (uint_or_null o)
uint_or_null-IsFinite none = tt
uint_or_null-IsFinite (some n) = tt

publisher_value-IsFinite :
    (payload : PublisherEnrichmentPayload) (graph : CborValue)
    → IsFinite graph
    → IsFinite (publisher_value payload graph)
unfolding publisher_value
publisher_value-IsFinite payload graph h =
    search (tt, h, text_or_null-IsFinite, uint_or_null-IsFinite) depth 20

enriched-IsFinite : (d : EntryEnrichedReceipt) → IsFinite (entry_enriched.to_cbor_value d true)
unfolding receipt_fields
enriched-IsFinite d = search (tt, bytes_or_null-IsFinite) depth 20

enriched-compute_hash :
    (p : Platform) (c : Crypto) (d : EntryEnrichedReceipt)
    → compute_hash p c d ≡ some (c.blake3 (encoding p (entry_enriched.to_cbor_value d true)))
unfolding compute_hash to_zeroed_canonical_cbor
enriched-compute_hash p c d =
    rw (encode-IsFinite p (entry_enriched.to_cbor_value d true) (enriched-IsFinite d))

-- If the capability graph of a payload holds no number below 0 and its floats are finite, then building
-- the receipt of the enrichment returns, without a panic or an error, a receipt that holds the
-- payload's canonical encoding, a signature of zeros, and a hash that is the computed hash of the
-- receipt under every signature that is filled in later.
pub build_entry_enriched_receipt-compute_hash :
    (p : Platform) (c : Crypto) (server_name : Bytes) (declaration : PublisherDeclaration)
    (declared_uri declared_hash : Bytes) (payload : PublisherEnrichmentPayload)
    (event_id kid : Bytes) (supersedes_prior : Option Bytes)
    → IsNonNegative payload.capability_graph
    → (enrichment : Bytes) × (hash : Bytes) × (publisher_to_canonical_cbor p payload
        ≡ ok enrichment)
      × (build_entry_enriched_receipt p c server_name declaration declared_uri declared_hash payload
            event_id kid supersedes_prior
          ≡ ok (
              enriched_receipt server_name declaration declared_uri declared_hash enrichment
                event_id kid supersedes_prior hash
                (replicate 64 0)))
      × ((signature : Bytes)
          → compute_hash p c (
              enriched_receipt server_name declaration declared_uri declared_hash enrichment
                event_id kid supersedes_prior hash signature)
            ≡ some hash)
unfolding build_entry_enriched_receipt publisher_to_canonical_cbor publisher_to_cbor_value
    enriched_receipt receipt_fields
build_entry_enriched_receipt-compute_hash p c server_name declaration declared_uri declared_hash
      payload event_id kid supersedes_prior h =
    let (graph, e, finite) =
      Returns-ok IsFinite (json_to_cbor payload.capability_graph)
        (json_to_cbor-IsFinite payload.capability_graph h) in
    let value = publisher_value payload graph in
    let written = encode-IsFinite p value (publisher_value-IsFinite payload graph finite) in
    let receipt =
      enriched_receipt server_name declaration declared_uri declared_hash (encoding p value)
        event_id kid supersedes_prior in
    let hashed = enriched-compute_hash p c (receipt (replicate 32 0) (replicate 64 0)) in
    (
      encoding p value,
      _,
      rw (e, written),
      rw (e, written, hashed),
      λ signature. enriched-compute_hash p c (receipt _ signature),
    )
