-- ===== src/Enrich/Blocks.antt =====
-- The payloads that are hashed and the blocks that are attached to a mirrored server
-- (crates/rcx-registry-enrich/src/lib.rs).
use rcx_registry.Prelude.{ℕ, Bool, Option, none, some, [], ◌∷◌, ◌++◌, Bytes, codes, ◌==◌}
use rcx_registry.Prelude.Outcome.{Outcome, ok, or_panic, ◌>>=◌}
use rcx_registry.Crown.Float.{Platform}
use rcx_registry.Crown.Cbor.Value.{CborValue, uint, text, object, bool, null, of_list}
use rcx_registry.Crown.Cbor.Encode.{encode}
use rcx_registry.Crown.Receipt.Kinds.Values.{text_or_null}
use rcx_registry.Crown.Json.{Json}
use rcx_registry.Ingest.Envelope.{RegistryServerEnvelope, insert_extension}
use rcx_registry.Enrich.{EnrichError, default_category, meta_key_auto, meta_key_publisher}
use rcx_registry.Enrich.Json.{json_to_cbor}

pub record AutoEnrichmentPayload : Type 0 where
  pub category : Bytes
  pub attestations_count : ℕ
  pub auto_enriched_at : Bytes

unfoldable pub auto_payload : Bytes → AutoEnrichmentPayload
auto_payload auto_enriched_at = record {
  category = default_category;
  attestations_count = 0;
  auto_enriched_at = auto_enriched_at;
}

unfoldable pub auto_to_cbor_value : AutoEnrichmentPayload → CborValue
auto_to_cbor_value payload = object (
    of_list (
      (codes "category", text payload.category)
      ∷ (codes "capability_graph", null)
      ∷ (codes "attestations_count", uint payload.attestations_count)
      ∷ (codes "auto_enriched_at", text payload.auto_enriched_at)
      ∷ []))

pub record AutoEnrichmentBlock : Type 0 where
  pub category : Bytes
  pub capability_graph : Json
  pub attestations_count : ℕ
  pub auto_enriched_at : Bytes
  pub auto_enrichment_receipt : Bytes

pub record PublisherEnrichmentPayload : Type 0 where
  pub category : Bytes
  pub min_tier : Option Bytes
  pub required_affinity : Option Bytes
  pub capability_graph : Json
  pub declared_at : Bytes
  pub declared_uri : Bytes
  pub declared_hash : Bytes
  pub publisher_rights_verified : Bool
  pub verification_method : Bytes
  pub refresh_interval_seconds : Option ℕ

abbrev pub uint_or_null : Option ℕ → CborValue
uint_or_null none = null
uint_or_null (some n) = uint n

-- the value, over that of the capability graph
unfoldable pub publisher_value : PublisherEnrichmentPayload → CborValue → CborValue
publisher_value payload graph = object (
    of_list (
      (codes "category", text payload.category)
      ∷ (codes "min_tier", text_or_null payload.min_tier)
      ∷ (codes "required_affinity", text_or_null payload.required_affinity)
      ∷ (codes "capability_graph", graph)
      ∷ (codes "declared_at", text payload.declared_at)
      ∷ (codes "declared_uri", text payload.declared_uri)
      ∷ (codes "declared_hash", text payload.declared_hash)
      ∷ (codes "publisher_rights_verified", bool payload.publisher_rights_verified)
      ∷ (codes "verification_method", text payload.verification_method)
      ∷ (codes "refresh_interval_seconds", uint_or_null payload.refresh_interval_seconds)
      ∷ []))

unfoldable pub publisher_to_cbor_value : PublisherEnrichmentPayload → Outcome EnrichError CborValue
unfolding publisher_value
publisher_to_cbor_value payload = do
  graph ← json_to_cbor payload.capability_graph
  ok (publisher_value payload graph)

module _ (p : Platform) where
  -- the encoder panics on a float that is not finite
  unfoldable pub auto_to_canonical_cbor : AutoEnrichmentPayload → Option Bytes
  unfolding auto_to_cbor_value
  auto_to_canonical_cbor payload = encode p (auto_to_cbor_value payload)

  unfoldable pub publisher_to_canonical_cbor :
      PublisherEnrichmentPayload → Outcome EnrichError Bytes
  unfolding publisher_to_cbor_value
  publisher_to_canonical_cbor payload = do
    value ← publisher_to_cbor_value payload
    or_panic (encode p value)

pub record PublisherEnrichmentBlock : Type 0 where
  pub category : Bytes
  pub min_tier : Option Bytes
  pub required_affinity : Option Bytes
  pub capability_graph : Json
  pub declared_at : Bytes
  pub declared_uri : Bytes
  pub declared_hash : Bytes
  pub enrichment_receipt_hash : Bytes
  pub publisher_rights_verified : Bool
  pub verification_method : Bytes
  pub refresh_interval_seconds : Option ℕ

pub record PublisherEnrichmentRecord : Type 0 where
  pub server_name : Bytes
  pub publisher_passport : Bytes
  pub block : PublisherEnrichmentBlock
  pub supersedes_prior_receipt_hash : Option Bytes

-- `hex::encode`, a parameter
module _ (encode_hex : Bytes → Bytes) where
  unfoldable pub blake3_text : Bytes → Bytes
  blake3_text hash = codes "blake3:" ++ encode_hex hash

  unfoldable pub auto_block : AutoEnrichmentPayload → Bytes → AutoEnrichmentBlock
  unfolding blake3_text
  auto_block payload receipt_hash = record {
    category = payload.category;
    capability_graph = Json.null;
    attestations_count = payload.attestations_count;
    auto_enriched_at = payload.auto_enriched_at;
    auto_enrichment_receipt = blake3_text receipt_hash;
  }

  unfoldable pub publisher_block : PublisherEnrichmentPayload → Bytes → PublisherEnrichmentBlock
  unfolding blake3_text
  publisher_block payload receipt_hash = record {
    category = payload.category;
    min_tier = payload.min_tier;
    required_affinity = payload.required_affinity;
    capability_graph = payload.capability_graph;
    declared_at = payload.declared_at;
    declared_uri = payload.declared_uri;
    declared_hash = payload.declared_hash;
    enrichment_receipt_hash = blake3_text receipt_hash;
    publisher_rights_verified = payload.publisher_rights_verified;
    verification_method = payload.verification_method;
    refresh_interval_seconds = payload.refresh_interval_seconds;
  }

-- `serde_json::to_value` of a block is a parameter; it cannot fail on one.
unfoldable pub attach_auto_enrichment :
    (AutoEnrichmentBlock → Json)
    → RegistryServerEnvelope
    → AutoEnrichmentBlock
    → RegistryServerEnvelope
attach_auto_enrichment to_value envelope block = record envelope {
  meta = insert_extension meta_key_auto (to_value block) envelope.meta;
}

unfoldable pub attach_publisher_enrichment :
    (PublisherEnrichmentBlock → Json)
    → RegistryServerEnvelope
    → PublisherEnrichmentBlock
    → RegistryServerEnvelope
attach_publisher_enrichment to_value envelope block = record envelope {
  meta = insert_extension meta_key_publisher (to_value block) envelope.meta;
}

unfoldable pub auto_enrichment_parity_ok : ℕ → ℕ → Bool
auto_enrichment_parity_ok server_count enrichment_count = server_count == enrichment_count
