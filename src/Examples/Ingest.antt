-- ===== src/Examples/Ingest.antt =====
-- Snapshots compared, and servers that are gone.
use rcx_registry.Prelude.{true, none, some, List, [], ◌∷◌, Bytes, codes}
use rcx_registry.Ingest.{
  MirroredServer, reconcile_snapshots, CachedServerState, reconcile_soft_deletes,
}
use rcx_registry.Ingest.Diff.{IsDiff, reconcile_snapshots-IsDiff}
use rcx_registry.Ingest.SoftDeletes.{IsPlan, reconcile_soft_deletes-IsPlan}
use rcx_registry.Examples.Toy.{toy_blake3}

abbrev mirrored : Bytes → Bytes → MirroredServer
mirrored name json = record {
  name = name;
  version = codes "1";
  schema_uri = [];
  schema_date = [];
  status = codes "active";
  updated_at = none;
  is_latest = true;
  canonical_json = json;
}

abbrev before : List MirroredServer
before =
    mirrored (codes "b") (codes "{ }")
    ∷ mirrored (codes "a") (codes "{}")
    ∷ mirrored (codes "b") (codes "{}")
    ∷ []

abbrev after : List MirroredServer
after = mirrored (codes "b") (codes "{ }") ∷ mirrored (codes "c") (codes "{}") ∷ []

reconcile_snapshots-IsDiff_example :
    IsDiff toy_blake3 before after (reconcile_snapshots toy_blake3 before after)
reconcile_snapshots-IsDiff_example = reconcile_snapshots-IsDiff toy_blake3 before after

abbrev cached : List CachedServerState
cached =
    (record { name = codes "a"; deleted_upstream_at = some 10 })
    ∷ (record { name = codes "b"; deleted_upstream_at = none })
    ∷ []

reconcile_soft_deletes-IsPlan_example :
    IsPlan after 100 50 cached (reconcile_soft_deletes cached after 100 50)
reconcile_soft_deletes-IsPlan_example = reconcile_soft_deletes-IsPlan after 100 50 cached
