-- ===== src/Ingest/SnapshotPlan.antt =====
-- crates/rcx-registry-ingest/src/lib.rs: the snapshot that a run publishes, before it is signed.
use rcx_registry.Prelude.{ℕ, Option, some, List, ◌++◌, map, Bytes, codes, length, replicate}
use rcx_registry.Prelude.Partial.{◌>>=◌}
use rcx_registry.Crown.Crypto.{Crypto}
use rcx_registry.Crown.Float.{Platform}
use rcx_registry.Crown.Hashing.{snapshot_merkle_root}
use rcx_registry.Crown.Receipt.{compute_hash}
use rcx_registry.Crown.Receipt.Kinds.Snapshots.{RegistrySnapshotReceipt, registry_snapshot}
use rcx_registry.Ingest.{MirroredServer, SnapshotDiff, digest_entry_of, reconcile_snapshots}

pub record SnapshotPlan : Type 0 where
  pub diff : SnapshotDiff
  pub snapshot_receipt : RegistrySnapshotReceipt

abbrev pub upstream_uri : Bytes
upstream_uri = codes "https://registry.modelcontextprotocol.io" ++ codes "/v0/servers"

-- the receipt with its hash and signature still to be filled in
unfoldable pub snapshot_receipt_of :
    (Bytes → Bytes)
    → List MirroredServer
    → SnapshotDiff
    → Bytes
    → Bytes
    → ℕ
    → Option Bytes
    → Option Bytes
    → Bytes
    → Bytes
    → Bytes
    → RegistrySnapshotReceipt
snapshot_receipt_of blake3 current diff event_id snapshot_id scraped_at_ms previous etag kid hash
      signature =
    record {
      event_id = event_id;
      snapshot_id = snapshot_id;
      scraped_at = scraped_at_ms;
      server_count = length current;
      snapshot_merkle_root = snapshot_merkle_root blake3 (map digest_entry_of current);
      previous_snapshot_hash = previous;
      upstream_registry_uri = upstream_uri;
      upstream_snapshot_etag = etag;
      changes = record {
        added = length diff.added;
        removed = length diff.removed;
        modified = length diff.modified;
      };
      receipt_hash = hash;
      receipt_signature = signature;
      signer_kid = kid;
    }

-- `none` is the panic of the encoder
unfoldable pub build_snapshot_plan :
    Platform
    → Crypto
    → List MirroredServer
    → List MirroredServer
    → Bytes
    → Bytes
    → ℕ
    → Option Bytes
    → Option Bytes
    → Bytes
    → Option SnapshotPlan
unfolding snapshot_receipt_of
build_snapshot_plan p c current previous event_id snapshot_id scraped_at_ms previous_hash etag kid =
    let diff = reconcile_snapshots c.blake3 previous current in
    let receipt =
      snapshot_receipt_of c.blake3 current diff event_id snapshot_id scraped_at_ms previous_hash
        etag kid in
    do
      hash ← compute_hash p c (receipt (replicate 32 0) (replicate 64 0))
      some (record { diff = diff; snapshot_receipt = receipt hash (replicate 64 0) })
