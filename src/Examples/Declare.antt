-- ===== src/Examples/Declare.antt =====
-- A declaration under rights that were granted.
use rcx_registry.Prelude.{false, Option, none, [], ◌∷◌, Bytes, codes}
use rcx_registry.Prelude.Outcome as Outcome
use rcx_registry.Prelude.Outcome.{ok}
use rcx_registry.Crown.Json.{JsonText, Json}
use rcx_registry.Admin.Pop.{challenge_signing_bytes}
use rcx_registry.Admin.Pop.Nonces as Nonces
use rcx_registry.Admin.Pop.Store as Store
use rcx_registry.Admin.Namespace.{dns_txt, publisher_rights_record}
use rcx_registry.Api.RateLimit as RateLimit
use rcx_registry.Enrich.{EnrichError}
use rcx_registry.Enrich.Blocks.{PublisherEnrichmentRecord}
use rcx_registry.Enrich.Declaration.{PublisherDeclaration}
use rcx_registry.Api.Errors.{Api}
use rcx_registry.Api.State.{ApiState, new_state, issue_nonce}
use rcx_registry.Api.Control.{nonce_binding}
use rcx_registry.Api.Declare.{PublisherDeclareRequest, declare_publisher_enrichment}
use rcx_registry.Examples.Toy.{toy_platform, toy_crypto, toy_key, toy_sign}
use rcx_registry.Examples.Control.{toy_hex, toy_fpr, toy_services, dns_claim}

abbrev plain : JsonText
plain = record { number_text = λ n. []; quote = λ s. s }

abbrev declaration : PublisherDeclaration
declaration = record {
  schema_uri = codes "s";
  mcp_name = codes "io.x.org/tool";
  rcx_version = codes "1";
  category = codes "public";
  min_tier = none;
  required_affinity = none;
  capability_graph = Json.null;
  declared_at = codes "2026-01-01";
  publisher_passport = codes "passport:dns:x.org";
}

abbrev no_complaint : Json → Option Bytes
no_complaint value = none

abbrev read_as : Json → Outcome.Outcome EnrichError PublisherDeclaration
read_as value = ok declaration

abbrev request : PublisherDeclareRequest
request = record {
  server_name = codes "io.x.org/tool";
  declared_uri = codes "https://x.org/d";
  declaration = Json.null;
  passport_fingerprint = toy_fpr;
  public_key_hex = toy_key;
  nonce = codes "cd";
  signature =
      toy_sign toy_key (challenge_signing_bytes (codes "cd") (codes "io.x.org/tool") toy_fpr);
}

abbrev granted : ApiState
granted = record new_state {
  publisher_rights_store = record {
    poisoned = false;
    rows =
        publisher_rights_record toy_hex dns_claim (codes "passport:dns:x.org") dns_txt 5 (codes "h")
        ∷ [];
  };
}

abbrev challenged : ApiState
challenged =
    (issue_nonce 1000 (codes "cd")
      (nonce_binding toy_platform toy_crypto toy_hex toy_services dns_claim toy_fpr toy_key)
      granted).1

abbrev answer : Api PublisherEnrichmentRecord × ApiState
answer =
    declare_publisher_enrichment toy_platform toy_crypto toy_hex toy_services plain no_complaint
      read_as 2000 2001 none request challenged

abbrev some_row : PublisherEnrichmentRecord
some_row = record {
  server_name = [];
  publisher_passport = [];
  block = record {
    category = [];
    min_tier = none;
    required_affinity = none;
    capability_graph = Json.null;
    declared_at = [];
    declared_uri = [];
    declared_hash = [];
    enrichment_receipt_hash = [];
    publisher_rights_verified = false;
    verification_method = [];
    refresh_interval_seconds = none;
  };
  supersedes_prior_receipt_hash = none;
}

abbrev row_or : Api PublisherEnrichmentRecord → PublisherEnrichmentRecord
row_or (ok row) = row
row_or _ = some_row
