-- ===== src/Verify/Digests.antt =====
-- `verify_snapshot`, `verify_publisher` and `verify_namespace` of crates/rcx-verify/src/lib.rs. The
-- parser of `serde_json` is a parameter, from the text to a value or none.
pub mod Snapshot
pub mod Namespace
use rcx_registry.Prelude.{Option, none, some, List, Bytes, codes, bytes_eq, if◌then◌else◌}
use rcx_registry.Prelude.Outcome.{Outcome, ok, err, ◌>>=◌}
use rcx_registry.Crown.Json.{JsonText, Json, get_key, as_str}
use rcx_registry.Crown.Hashing.{SnapshotEntry, snapshot_merkle_root, declaration_hash}
use rcx_registry.Verify.Errors.{
  VerifyError, root_mismatch, declaration_hash_mismatch, namespace_mismatch, missing_field,
  decode_error, declaration_not_json,
}

abbrev pub field_mcp_name : Bytes
field_mcp_name = codes "mcp_name"

unfoldable pub entry : Bytes → Bytes → Bytes → SnapshotEntry
entry name version canonical_json = record {
  name = name;
  version = version;
  canonical_json = canonical_json;
}

unfoldable pub verify_snapshot :
    (Bytes → Bytes) → List SnapshotEntry → Bytes → Outcome VerifyError (Unit {0})
verify_snapshot blake3 entries expected_root =
    if bytes_eq (snapshot_merkle_root blake3 entries) expected_root
    then ok tt
    else err root_mismatch

module _ (blake3 : Bytes → Bytes) (t : JsonText) (from_str : Bytes → Option Json) where
  unfoldable pub parse_declaration : Bytes → Outcome VerifyError Json
  parse_declaration declaration_json = elim (from_str declaration_json) [
    | none ↦ err (decode_error declaration_not_json)
    | some value ↦ ok value
  ]

  unfoldable pub verify_publisher : Bytes → Bytes → Outcome VerifyError (Unit {0})
  verify_publisher declaration_json expected_declared_hash = do
    value ← parse_declaration declaration_json
    let (computed, _) = declaration_hash blake3 t value
    if bytes_eq computed expected_declared_hash then ok tt else err declaration_hash_mismatch

  -- the `match` on the declared name
  unfoldable pub match_name : Bytes → Option Bytes → Outcome VerifyError (Unit {0})
  match_name claimed_namespace (some name) =
      if bytes_eq name claimed_namespace then ok tt else err namespace_mismatch
  match_name claimed_namespace none = err (missing_field field_mcp_name)

  -- `get("mcp_name").and_then(Value::as_str)`
  unfoldable pub declared_name : Json → Option Bytes
  declared_name declaration = elim (get_key field_mcp_name declaration) [
    | none ↦ none
    | some v ↦ as_str v
  ]

  unfoldable pub verify_namespace : Bytes → Bytes → Bytes → Outcome VerifyError (Unit {0})
  verify_namespace declaration_json expected_declared_hash claimed_namespace = do
    _ ← verify_publisher declaration_json expected_declared_hash
    declaration ← parse_declaration declaration_json
    match_name claimed_namespace (declared_name declaration)
