-- ===== src/Enrich/Declaration.antt =====
-- What a publisher declares (crates/rcx-registry-enrich/src/lib.rs): how a declaration is discovered,
-- checked and fetched.
use rcx_registry.Prelude.{ℕ, not, Option, none, some, List, Bytes, codes, bytes_eq, if◌then◌else◌}
use rcx_registry.Prelude.Partial
use rcx_registry.Prelude.Outcome.{ok, err, ◌>>=◌}
use rcx_registry.Crown.Json.{JsonText, Json, number, object, positive, Members, get_member, as_str}
use rcx_registry.Crown.Hashing.{declaration_hash}
use rcx_registry.Ingest.Envelope.{RegistryServerEnvelope, get_extra}
use rcx_registry.Enrich.{
  missing_declaration_uri, schema_validation, declaration_name_mismatch,
  meta_key_publisher_discovery, meta_key_publisher_declaration_uri,
  meta_key_publisher_refresh_interval,
}
use rcx_registry.Enrich.Graph.{Enrich, validate_capability_graph_edges}

pub record DeclarationDiscovery : Type 0 where
  pub declaration_uri : Bytes
  pub refresh_interval_seconds : Option ℕ

pub record PublisherDeclaration : Type 0 where
  pub schema_uri : Bytes
  pub mcp_name : Bytes
  pub rcx_version : Bytes
  pub category : Bytes
  pub min_tier : Option Bytes
  pub required_affinity : Option Bytes
  pub capability_graph : Json
  pub declared_at : Bytes
  pub publisher_passport : Bytes

pub record FetchedPublisherDeclaration : Type 0 where
  pub declared_uri : Bytes
  pub raw_value : Json
  pub declaration : PublisherDeclaration
  pub declared_hash : Bytes
  pub canonical_json : Bytes

-- `Value::as_u64`
abbrev as_u64 : Json → Option ℕ
as_u64 (number (positive n)) = some n
as_u64 _ = none

abbrev discovered : Option ℕ → Option Bytes → Enrich (Option DeclarationDiscovery)
discovered interval none = err missing_declaration_uri
discovered interval (some uri) =
    ok (some (record { declaration_uri = uri; refresh_interval_seconds = interval }))

unfoldable pub discover_in_object : Members → Enrich (Option DeclarationDiscovery)
discover_in_object members =
    discovered (Partial.◌>>=◌ (get_member (codes "refresh_interval_seconds") members) as_u64)
      (Partial.◌>>=◌ (get_member (codes "declaration-uri") members) as_str)

-- the two keys of the older form
abbrev flat_discovery : Option ℕ → Option Bytes → Option DeclarationDiscovery
flat_discovery interval none = none
flat_discovery interval (some uri) =
    some (record { declaration_uri = uri; refresh_interval_seconds = interval })

unfoldable pub discover_flat : List (Bytes × Json) → Option DeclarationDiscovery
discover_flat extra =
    flat_discovery (Partial.◌>>=◌ (get_extra meta_key_publisher_refresh_interval extra) as_u64)
      (Partial.◌>>=◌ (get_extra meta_key_publisher_declaration_uri extra) as_str)

abbrev discover : List (Bytes × Json) → Option Json → Enrich (Option DeclarationDiscovery)
discover extra (some (object members)) = discover_in_object members
discover extra _ = ok (discover_flat extra)

unfoldable pub declaration_discovery_from_envelope :
    RegistryServerEnvelope → Enrich (Option DeclarationDiscovery)
unfolding discover_in_object discover_flat
declaration_discovery_from_envelope envelope =
    discover envelope.meta.extra (get_extra meta_key_publisher_discovery envelope.meta.extra)

abbrev check_name : PublisherDeclaration → Option Bytes → Enrich (Unit {0})
check_name declaration none = ok tt
check_name declaration (some expected) =
    if not (bytes_eq declaration.mcp_name expected)
    then err (declaration_name_mismatch expected declaration.mcp_name)
    else ok tt

abbrev check_schema : Option Bytes → Enrich (Unit {0})
check_schema none = ok tt
check_schema (some message) = err (schema_validation message)

-- The published schema gives a message for what it does not take, and `from_value` reads a value that
-- it takes.
module _ (schema : Json → Option Bytes) (from_value : Json → Enrich PublisherDeclaration) where
  unfoldable pub validate_publisher_declaration_value :
      Json → Option Bytes → Enrich PublisherDeclaration
  validate_publisher_declaration_value raw_value expected_server_name = do
    valid ← check_schema (schema raw_value)
    declaration ← from_value raw_value
    named ← check_name declaration expected_server_name
    edges ← validate_capability_graph_edges declaration.capability_graph
    ok declaration

  -- `PublisherDeclarationClient::fetch`, over the call of the host
  unfoldable pub fetch :
      (Bytes → Bytes)
      → JsonText
      → (Bytes → Enrich Json)
      → Bytes
      → Enrich FetchedPublisherDeclaration
  fetch blake3 t get_json declared_uri = do
    raw_value ← get_json declared_uri
    let (declared_hash, canonical_json) = declaration_hash blake3 t raw_value
    declaration ← validate_publisher_declaration_value raw_value none
    ok (record {
      declared_uri = declared_uri;
      raw_value = raw_value;
      declaration = declaration;
      declared_hash = declared_hash;
      canonical_json = canonical_json;
    })
