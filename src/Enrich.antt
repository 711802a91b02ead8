-- ===== src/Enrich.antt =====
-- crates/rcx-registry-enrich/src/lib.rs: what the registry and what publishers add to a mirrored server.
-- The JSON schema of declarations and the reading of one into its struct are parameters, as is `hex`.
pub mod Json
pub mod Graph
pub mod Blocks
pub mod Declaration
pub mod Receipts
use rcx_registry.Prelude.{Bytes, codes}

pub data EnrichError : Type 0 where
  http : Bytes → EnrichError
  json : Bytes → EnrichError
  schema_validation : Bytes → EnrichError
  declaration_name_mismatch : Bytes → Bytes → EnrichError
  graph_edge_missing_node : Bytes → Bytes → EnrichError
  duplicate_capability : Bytes → EnrichError
  missing_declaration_uri : EnrichError
  negative_number : EnrichError
  unexpected_status : EnrichError

abbrev pub default_category : Bytes
default_category = codes "public"

abbrev pub meta_key_auto : Bytes
meta_key_auto = codes "org.rcxprotocol.registry/auto"

abbrev pub meta_key_publisher : Bytes
meta_key_publisher = codes "org.rcxprotocol.registry/publisher"

abbrev pub meta_key_publisher_discovery : Bytes
meta_key_publisher_discovery = codes "org.rcxprotocol.publisher"

abbrev pub meta_key_publisher_declaration_uri : Bytes
meta_key_publisher_declaration_uri = codes "org.rcxprotocol.publisher/declaration-uri"

abbrev pub meta_key_publisher_refresh_interval : Bytes
meta_key_publisher_refresh_interval = codes "org.rcxprotocol.publisher/refresh_interval_seconds"
