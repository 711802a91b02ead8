-- ===== src/Examples/Enrich.antt =====
-- A capability graph, and the receipt of a publisher's enrichment.
use rcx_registry.Prelude.{◌≡◌, ◌↔◌, none, some, Bytes, codes, replicate}
use rcx_registry.Prelude.Outcome.{ok}
use rcx_registry.Crown.Json.{
  Json, string, number, object, array, item, no_items, member, no_members, positive,
}
use rcx_registry.Crown.Receipt.{compute_hash}
use rcx_registry.Crown.Receipt.Kinds.Entries.{entry_enriched}
use rcx_registry.Enrich.Graph.{validate_capability_graph_edges}
use rcx_registry.Enrich.Graph.Accepts.{IsGraphValue, validate_capability_graph_edges_iff}
use rcx_registry.Enrich.Json.{IsNonNegative}
use rcx_registry.Enrich.Blocks.{PublisherEnrichmentPayload, publisher_to_canonical_cbor}
use rcx_registry.Enrich.Declaration.{PublisherDeclaration}
use rcx_registry.Enrich.Receipts.{
  build_publisher_enrichment_payload, enriched_receipt, build_entry_enriched_receipt,
}
use rcx_registry.Enrich.Receipts.Enriched.{build_entry_enriched_receipt-compute_hash}
use rcx_registry.Examples.Toy.{toy_platform, toy_crypto}

abbrev node : Bytes → Json
node cap = object (member (codes "cap") (string cap) no_members)

abbrev edge : Bytes → Bytes → Json
edge source target = object (
    member (codes "from") (string source) (
      member (codes "to") (string target)
        (member (codes "weight") (number (positive 2)) no_members)))

abbrev graph : Json
graph = object (
    member (codes "nodes")
      (array (item (node (codes "read")) (item (node (codes "write")) no_items)))
      (member (codes "edges") (array (item (edge (codes "read") (codes "write")) no_items))
        no_members))

validate_capability_graph_edges_iff_example :
    (validate_capability_graph_edges graph ≡ ok tt) ↔ IsGraphValue graph
validate_capability_graph_edges_iff_example = validate_capability_graph_edges_iff graph

abbrev declaration : PublisherDeclaration
declaration = record {
  schema_uri = codes "s";
  mcp_name = codes "io.x/y";
  rcx_version = codes "1";
  category = codes "public";
  min_tier = none;
  required_affinity = some (codes "a");
  capability_graph = graph;
  declared_at = codes "2026-01-01";
  publisher_passport = codes "p_1";
}

abbrev payload : PublisherEnrichmentPayload
unfolding build_publisher_enrichment_payload
payload =
    build_publisher_enrichment_payload (λ bs. bs) declaration (codes "https://x/d") (replicate 32 7)
      (codes "dns") (some 60)

payload-IsNonNegative : IsNonNegative payload.capability_graph
unfolding build_publisher_enrichment_payload
payload-IsNonNegative = search tt depth 20

build_entry_enriched_receipt-compute_hash_example :
    (enrichment : Bytes) × (hash : Bytes) × (publisher_to_canonical_cbor toy_platform payload
      ≡ ok enrichment)
    × (build_entry_enriched_receipt toy_platform toy_crypto
          (codes "io.x/y")
          declaration
          (codes "https://x/d")
          (replicate 32 7)
          payload
          (replicate 16 1)
          (codes "k")
          none
        ≡ ok (
            enriched_receipt
              (codes "io.x/y")
              declaration
              (codes "https://x/d")
              (replicate 32 7)
              enrichment
              (replicate 16 1)
              (codes "k")
              none
              hash
              (replicate 64 0)))
    × ((signature : Bytes)
        → compute_hash toy_platform toy_crypto (
            enriched_receipt
              (codes "io.x/y")
              declaration
              (codes "https://x/d")
              (replicate 32 7)
              enrichment
              (replicate 16 1)
              (codes "k")
              none
              hash
              signature)
          ≡ some hash)
build_entry_enriched_receipt-compute_hash_example =
    build_entry_enriched_receipt-compute_hash toy_platform toy_crypto (codes "io.x/y") declaration
      (codes "https://x/d") (replicate 32 7) payload (replicate 16 1) (codes "k") none
      payload-IsNonNegative
