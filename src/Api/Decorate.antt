-- ===== src/Api/Decorate.antt =====
-- crates/rcx-registry-api/src/lib.rs: the lists of servers with the stored enrichments. The printing of
-- a block is a parameter.
use rcx_registry.Prelude.{Option, none, some, List, [], ◌∷◌, Bytes, codes}
use rcx_registry.Prelude.Outcome as Outcome
use rcx_registry.Prelude.Outcome.{ok}
use rcx_registry.Crown.Json.{Json}
use rcx_registry.Ingest.Envelope.{RegistryServerEnvelope, RegistryServerListResponse, string_member}
use rcx_registry.Enrich.Blocks.{
  PublisherEnrichmentBlock, PublisherEnrichmentRecord, attach_publisher_enrichment,
}
use rcx_registry.Api.Errors.{Api}
use rcx_registry.Api.Stores.{EnrichmentStore, get_enrichment}

-- with the stored record of the name
abbrev attach :
    (PublisherEnrichmentBlock → Json)
    → RegistryServerEnvelope
    → Option PublisherEnrichmentRecord
    → RegistryServerEnvelope
attach to_value envelope none = envelope
attach to_value envelope (some row) = attach_publisher_enrichment to_value envelope row.block

abbrev decorate_named :
    (PublisherEnrichmentBlock → Json)
    → EnrichmentStore
    → RegistryServerEnvelope
    → Option Bytes
    → Api RegistryServerEnvelope
decorate_named to_value store envelope none = ok envelope
decorate_named to_value store envelope (some server_name) =
    Outcome.◌>>=◌ (get_enrichment server_name store) λ row. ok (attach to_value envelope row)

unfoldable pub decorate_envelope :
    (PublisherEnrichmentBlock → Json)
    → EnrichmentStore
    → RegistryServerEnvelope
    → Api RegistryServerEnvelope
decorate_envelope to_value store envelope =
    decorate_named to_value store envelope (string_member (codes "name") envelope.server)

-- `collect` into a result
unfoldable pub decorate_all :
    (PublisherEnrichmentBlock → Json)
    → EnrichmentStore
    → List RegistryServerEnvelope
    → Api (List RegistryServerEnvelope)
decorate_all to_value store [] = ok []
decorate_all to_value store (envelope ∷ envelopes) =
    let rest = decorate_all to_value store envelopes in
    Outcome.◌>>=◌ (decorate_envelope to_value store envelope)
      λ first. Outcome.◌>>=◌ rest λ others. ok (first ∷ others)

unfoldable pub decorate_list_response :
    (PublisherEnrichmentBlock → Json)
    → EnrichmentStore
    → RegistryServerListResponse
    → Api RegistryServerListResponse
decorate_list_response to_value store response =
    Outcome.◌>>=◌ (decorate_all to_value store response.servers)
      λ servers. ok (record response { servers = servers })
