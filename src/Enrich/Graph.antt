-- ===== src/Enrich/Graph.antt =====
-- `validate_capability_graph_edges` of crates/rcx-registry-enrich/src/lib.rs.
pub mod Accepts
use rcx_registry.Prelude.{
  Bool, true, false, not, ◌||◌, Option, none, some, List, [], ◌∷◌, Bytes, codes, if◌then◌else◌,
}
use rcx_registry.Prelude.Outcome.{Outcome, ok, err, ◌>>=◌}
use rcx_registry.Crown.Json.{
  Json, null, object, array, JsonItems, no_items, item, Members, get_member,
}
use rcx_registry.Ingest.{add_name, is_in}
use rcx_registry.Ingest.Envelope.{string_member}
use rcx_registry.Enrich.{
  EnrichError, schema_validation, duplicate_capability, graph_edge_missing_node,
}

abbrev pub Enrich {ℓ} : Type ℓ → Type ℓ
Enrich A = Outcome EnrichError A

-- a string member, or an error with the message
abbrev pub string_or : Bytes → Option Bytes → Enrich Bytes
string_or message none = err (schema_validation message)
string_or message (some s) = ok s

-- the loop over the nodes, with the set of their capabilities
unfoldable pub collect_caps : JsonItems → List Bytes → Enrich (List Bytes)
collect_caps no_items node_caps = ok node_caps
collect_caps (item node nodes) node_caps = do
  cap ← string_or (codes "capability graph node missing `cap`") (string_member (codes "cap") node)
  let rest = collect_caps nodes (add_name cap node_caps)
  if is_in cap node_caps then err (duplicate_capability cap) else rest

unfoldable pub check_edges : List Bytes → JsonItems → Enrich (Unit {0})
check_edges node_caps no_items = ok tt
check_edges node_caps (item edge edges) = do
  source ←
      string_or (codes "capability graph edge missing `from`") (string_member (codes "from") edge)
  target ← string_or (codes "capability graph edge missing `to`") (string_member (codes "to") edge)
  let rest = check_edges node_caps edges
  if not (is_in source node_caps) || not (is_in target node_caps)
      then err (graph_edge_missing_node source target)
      else rest

-- `get(key).and_then(Value::as_array)`, whose loop is skipped where there is none
abbrev items_or_none : Option Json → JsonItems
items_or_none (some (array items)) = items
items_or_none _ = no_items

abbrev pub items_of : Bytes → Members → JsonItems
items_of key graph = items_or_none (get_member key graph)

unfoldable pub validate_graph_object : Members → Enrich (Unit {0})
unfolding collect_caps check_edges
validate_graph_object graph = do
  node_caps ← collect_caps (items_of (codes "nodes") graph) []
  check_edges node_caps (items_of (codes "edges") graph)

unfoldable pub validate_capability_graph_edges : Json → Enrich (Unit {0})
unfolding validate_graph_object
validate_capability_graph_edges null = ok tt
validate_capability_graph_edges (object graph) = validate_graph_object graph
validate_capability_graph_edges _ =
    err (schema_validation (codes "capability_graph must be an object or null"))
