-- ===== src/Server/Publish.antt =====
-- crates/rcx-registry-server/src/loops/sync.rs: the signing and storing of a snapshot, and a run as a
-- whole. The signer is the trait of vault.rs, and `to_vec` is that of `serde_json`.
pub mod Verifies
use rcx_registry.Prelude.{
  ℕ, zero, suc, ◌+◌, ◌-◌, ◌/◌, ◌%◌, ◌^◌, Bool, Option, none, some, List, [], ◌∷◌, ◌++◌, map, Bytes,
  codes, ltb, leb, if◌then◌else◌, length, take, to_be_bytes,
}
use rcx_registry.Prelude.Outcome.{Outcome, ok, err, panic, stuck, or_panic, map_err, ◌>>=◌}
use rcx_registry.Crown.Crypto.{Crypto}
use rcx_registry.Crown.Float.{Platform}
use rcx_registry.Crown.Json.{
  JsonText, Json, string, array, object, JsonItems, no_items, item, no_members, member,
}
use rcx_registry.Crown.Receipt.{to_canonical_cbor, ulid_len}
use rcx_registry.Crown.Receipt.Kinds.Snapshots.{RegistrySnapshotReceipt, registry_snapshot}
use rcx_registry.Ingest.{MirroredServer, SnapshotDiff, SyncCadencePolicy, next_run_at}
use rcx_registry.Ingest.Envelope.{
  IngestError, RegistryServerEnvelope, ListServersRequest, FetchPageResult, from_envelope,
  noop_schema_catalog,
}
use rcx_registry.Ingest.SnapshotPlan.{SnapshotPlan, build_snapshot_plan}
use rcx_registry.Server.Fetch.{fetch_all_pages}
use rcx_registry.Server.Rows.{DbError, MirrorDb}
use rcx_registry.Server.Snapshots.{StoredSnapshot, Snapshots, record_snapshot, latest_hash}
use rcx_registry.Server.Sync.{Observed, mirror_tick}

pub data VaultError : Type 0 where
  http : Bytes → VaultError
  status : ℕ → VaultError
  token_file : Bytes → VaultError
  empty_token_file : Bytes → VaultError
  missing_signature : VaultError
  unexpected_prefix : Bytes → VaultError
  base64 : VaultError
  signature_length : ℕ → VaultError
  public_key_length : ℕ → VaultError

pub data SyncError : Type 0 where
  ingest : IngestError → SyncError
  db : DbError → SyncError
  vault : VaultError → SyncError
  field : Bytes → SyncError
  encode : Bytes → SyncError

pub record Signer : Type 0 where
  pub sign : Bytes → Outcome VaultError Bytes
  pub signer_kid : Bytes

-- `json!` of the three fields that enter a digest
abbrev pub entry_value : MirroredServer → Json
entry_value s = object (
    member (codes "name") (string s.name) (
      member (codes "version") (string s.version)
        (member (codes "canonical_json") (string s.canonical_json) no_members)))

unfoldable pub entries_value : List MirroredServer → JsonItems
entries_value [] = no_items
entries_value (s ∷ servers) = item (entry_value s) (entries_value servers)

-- the smaller of two numbers
abbrev pub min : ℕ → ℕ → ℕ
min a b = if leb a b then a else b

abbrev pub signed_with : RegistrySnapshotReceipt → Bytes → RegistrySnapshotReceipt
signed_with receipt signature = record receipt { receipt_signature = signature }

module _ (p : Platform) (c : Crypto) (signer : Signer) (to_vec : Json → Bytes) where
  -- the row of a snapshot, signed and encoded
  unfoldable pub stored_snapshot :
      RegistrySnapshotReceipt → List MirroredServer → Outcome SyncError StoredSnapshot
  unfolding entries_value
  stored_snapshot receipt entries = do
    signing_bytes ← or_panic (to_canonical_cbor p c receipt)
    signature ← map_err vault (signer.sign signing_bytes)
    receipt_cbor ← or_panic (to_canonical_cbor p c (signed_with receipt signature))
    ok (record {
      snapshot_id = receipt.snapshot_id;
      snapshot_hash = receipt.snapshot_merkle_root;
      server_count = min receipt.server_count (2 ^ 32 - 1);
      scraped_at = receipt.scraped_at;
      receipt_hash = receipt.receipt_hash;
      receipt_signature = signature;
      signer_kid = signer.signer_kid;
      receipt_cbor = receipt_cbor;
      entries_json = to_vec (array (entries_value entries));
    })

-- What a run reads and changes; the answers of the database to the statements on the snapshots are
-- kept beside their table.
pub record ServerState : Type 0 where
  pub mirror : MirrorDb
  pub snapshots : Snapshots
  pub reads : Bool
  pub inserts : Bool
  pub prunes : Bool
  pub retention : ℕ
  pub mcp_fetch_errors_total : ℕ
  pub mcp_servers_mirrored : ℕ
  pub snapshots_total : ℕ

-- `persist_snapshot`, behind the signing
unfoldable pub store_snapshot :
    Outcome SyncError StoredSnapshot → ServerState → Outcome SyncError (Unit {0}) × ServerState
store_snapshot (err e) state = (err e, state)
store_snapshot panic state = (panic, state)
store_snapshot stuck state = (stuck, state)
store_snapshot (ok stored) state =
    let (result, rows) =
      record_snapshot state.retention state.inserts state.prunes stored state.snapshots in
    (map_err db result, record state { snapshots = rows })
