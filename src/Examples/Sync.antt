-- ===== src/Examples/Sync.antt =====
-- A run of the loop that mirrors the registry, and a snapshot that it stores.
use rcx_registry.Prelude.{
  ℕ, ◌<◌, ◌≤◌, ◌≡◌, refl, true, false, Option, none, some, List, [], ◌∷◌, ◌++◌, map, Bytes, codes,
  bytes_eq, bytes_eq_refl, length, length-append, length-replicate, ◌%◌, ◌^◌, replicate, keep,
  arith, lex_le, insert, sort_by, to_be_bytes,
}
use rcx_registry.Prelude.Outcome.{ok}
use rcx_registry.Crown.Utf8.{valid_utf8}
use rcx_registry.Crown.Cbor.Encode.{write_head, encoded_key}
use rcx_registry.Crown.Cbor.Encoding.{IsValue, encoding}
use rcx_registry.Crown.Hashing.{snapshot_merkle_root}
use rcx_registry.Crown.Receipt.{receipt_fields}
use rcx_registry.Crown.Receipt.Kinds.Snapshots.{RegistrySnapshotReceipt, registry_snapshot}
use rcx_registry.Ingest.{
  MirroredServer, SnapshotDiff, reconcile_snapshots, diff_names, change_of, get_by_name, add_name,
  add_names, is_in,
}
use rcx_registry.Ingest.SnapshotPlan.{SnapshotPlan, snapshot_receipt_of, build_snapshot_plan}
use rcx_registry.Server.Rows.{
  ServerRow, MirrorDb, row_of, upsert_row, mark, mark_rows, evict_rows, run_call, upsert_server,
  mark_deleted, evict, cached_state,
}
use rcx_registry.Server.Rows.Laws.{find_row}
use rcx_registry.Server.Rows.Laws as Laws
use rcx_registry.Server.Snapshots.{
  StoredSnapshot, SnapshotRow, has_entries, snapshot_row, dropped_entries, record_snapshot,
  entries_json, has_id,
}
use rcx_registry.Server.Snapshots.Retention as Retention
use rcx_registry.Server.Snapshots.Retention.{AreOlder, record_snapshot-retained}
use rcx_registry.Server.Sync.{
  Observed, mirror_tick, persist_changes, compute_full_diff, reconcile_soft_deletes_blocking,
  soft_delete_each, diff_of, name_set, request_of, object_or_empty,
}
use rcx_registry.Server.Sync.Persist.{last_of}
use rcx_registry.Server.Sync.Tick.{row_after, mirror_tick-row_after}
use rcx_registry.Server.Sync.Diff.{HasNoNews, mirror_tick-HasNoNews}
use rcx_registry.Server.Publish.{stored_snapshot}
use rcx_registry.Server.Publish.Verifies.{
  published, hashed, IsVerifiable, stored_snapshot-IsVerifiable,
}
use rcx_registry.Examples.Toy.{
  toy_platform, toy_platform-IsLawful, toy_blake3, toy_crypto, toy_sign, toy_key,
}
use rcx_registry.Examples.Api.{envelope, server_json}

abbrev mirrored : Bytes → MirroredServer
mirrored name = record {
  name = name;
  version = codes "1";
  schema_uri = codes "https://x/schemas/2025-12-11/s.json";
  schema_date = codes "2025-12-11";
  status = codes "active";
  updated_at = none;
  is_latest = true;
  canonical_json = codes "{}";
}

abbrev observed : Bytes → Observed
observed name = (envelope name (codes "active"), mirrored name)

abbrev current : List Observed
current = observed (codes "a") ∷ observed (codes "b") ∷ []

abbrev row : Bytes → Option ℕ → ServerRow
row name deleted_at = record {
  name = name;
  server_json = server_json name (codes "1");
  upstream_hash = [];
  first_observed_at = 5;
  last_observed_at = 5;
  status = codes "active";
  schema_date = codes "2025-12-11";
  observed_in_snapshot = [];
  envelope_json = envelope name (codes "active");
  version = codes "1";
  is_latest = true;
  deleted_upstream_at = deleted_at;
}

-- `b` is known, `c` is gone, and `d` has been gone for longer than is retained
abbrev mirror : MirrorDb
mirror = record {
  rows = row (codes "b") none ∷ row (codes "c") none ∷ row (codes "d") (some 7) ∷ [];
  answers = true ∷ true ∷ [];
}

mirror-IsKeyed : Laws.IsKeyed mirror.rows
unfolding find_row bytes_eq
mirror-IsKeyed = (refl, (refl, (refl, tt)))

mirror_tick-row_after_example :
    (diff : SnapshotDiff) × (db' : MirrorDb) × (mirror_tick toy_blake3
        (codes "id")
        3_000_000_000
        3_000_000_001
        current
        mirror
      ≡ (ok diff, db'))
    × Laws.IsKeyed db'.rows
    × ((name : Bytes)
        → find_row name db'.rows
          ≡ row_after toy_blake3
              (codes "id")
              3_000_000_000
              3_000_000_001
              (last_of name current)
              (find_row name mirror.rows))
mirror_tick-row_after_example =
    mirror_tick-row_after toy_blake3 (codes "id") 3_000_000_000 3_000_000_001 current mirror
      (refl, (refl, tt)) mirror-IsKeyed

abbrev after_tick : MirrorDb
after_tick = (mirror_tick toy_blake3 (codes "id") 3_000_000_000 3_000_000_001 current mirror).1

-- `a` is new, and is reported as unchanged
abbrev reported : SnapshotDiff
reported = record {
  added = [];
  removed = codes "c" ∷ codes "d" ∷ [];
  modified = [];
  unchanged = codes "a" ∷ codes "b" ∷ [];
}

mirror_tick-reported :
    mirror_tick toy_blake3 (codes "id") 3_000_000_000 3_000_000_001 current mirror
    ≡ (ok reported, after_tick)
unfolding mirror_tick persist_changes compute_full_diff reconcile_soft_deletes_blocking
    soft_delete_each diff_of name_set is_in add_name upsert_server mark_deleted evict cached_state
    run_call upsert_row row_of request_of mark_rows evict_rows mark object_or_empty keep bytes_eq
    lex_le
mirror_tick-reported = refl

mirror_tick-HasNoNews_example : HasNoNews current reported
mirror_tick-HasNoNews_example =
    mirror_tick-HasNoNews toy_blake3 (codes "id") 3_000_000_000 3_000_000_001 current mirror
      after_tick reported (refl, (refl, tt)) mirror_tick-reported

abbrev snapshot : Bytes → ℕ → StoredSnapshot
snapshot id scraped_at = record {
  snapshot_id = id;
  snapshot_hash = replicate 32 1;
  server_count = 2;
  scraped_at = scraped_at;
  receipt_hash = replicate 32 2;
  receipt_signature = replicate 64 3;
  signer_kid = codes "k";
  receipt_cbor = codes "cbor";
  entries_json = codes "[]";
}

abbrev snapshots : List SnapshotRow
snapshots = snapshot_row (snapshot (codes "s1") 10) ∷ snapshot_row (snapshot (codes "s2") 20) ∷ []

snapshots-IsKeyed : Retention.IsKeyed snapshots
unfolding has_id bytes_eq snapshot_row
snapshots-IsKeyed = (refl, (refl, tt))

snapshots-new : has_id (codes "s3") snapshots ≡ false
unfolding has_id bytes_eq snapshot_row
snapshots-new = refl

snapshots-AreOlder : AreOlder 30 snapshots
unfolding snapshot_row
snapshots-AreOlder = omega arith

record_snapshot-retained_example :
    (rows' : List SnapshotRow) × (record_snapshot 2 true true (snapshot (codes "s3") 30) snapshots
      ≡ (ok tt, rows'))
    × (length (keep has_entries rows') ≤ 2)
    × (entries_json (codes "s3") rows' ≡ some (codes "[]"))
    × (map dropped_entries rows'
        ≡ map dropped_entries (snapshots ++ snapshot_row (snapshot (codes "s3") 30) ∷ []))
record_snapshot-retained_example =
    record_snapshot-retained 2 (snapshot (codes "s3") 30) snapshots (omega arith) snapshots-IsKeyed
      snapshots-new snapshots-AreOlder

-- signatures that a strict check takes, of 64 bytes
abbrev servers : List MirroredServer
servers = mirrored (codes "a") ∷ mirrored (codes "b") ∷ []

abbrev signing : Bytes → Bytes
signing = toy_sign toy_key

abbrev signed_snapshot : RegistrySnapshotReceipt
signed_snapshot =
    published toy_platform toy_crypto servers [] (replicate 16 1) (replicate 16 2) 99 none none
      (codes "k") signing

signed_snapshot-IsValue :
    IsValue toy_platform (registry_snapshot.to_cbor_value signed_snapshot false)
unfolding published hashed snapshot_receipt_of receipt_fields valid_utf8 snapshot_merkle_root
    reconcile_snapshots diff_names add_names add_name change_of get_by_name bytes_eq lex_le
signed_snapshot-IsValue = ground arith

signed_snapshot-short :
    length (encoding toy_platform (registry_snapshot.to_cbor_value signed_snapshot false)) < 2 ^ 64
unfolding published hashed snapshot_receipt_of receipt_fields snapshot_merkle_root encoding
    write_head encoded_key sort_by insert lex_le to_be_bytes reconcile_snapshots diff_names
    add_names add_name change_of get_by_name bytes_eq
signed_snapshot-short = omega arith

signing-verifies : (m : Bytes) → toy_crypto.verify toy_key m (signing m) ≡ true
signing-verifies m = bytes_eq_refl (signing m)

length-toy_blake3 : (bs : Bytes) → length (toy_blake3 bs) ≡ 32
length-toy_blake3 bs = length-replicate 32 (length bs % 256)

length-signing : (m : Bytes) → length (signing m) ≡ 64
length-signing m = omega (arith, length-append {0} (toy_blake3 m) toy_key, length-toy_blake3 m)

stored_snapshot-IsVerifiable_example :
    (plan : SnapshotPlan) × (stored : StoredSnapshot) × (build_snapshot_plan toy_platform toy_crypto
        servers []
        (replicate 16 1)
        (replicate 16 2)
        99
        none
        none
        (codes "k")
      ≡ some plan)
    × (stored_snapshot toy_platform toy_crypto
          (record { sign = λ m. ok (signing m); signer_kid = codes "k" })
          (λ v. codes "[]")
          plan.snapshot_receipt
          servers
        ≡ ok stored)
    × IsVerifiable toy_platform toy_crypto servers []
        (replicate 16 1)
        (replicate 16 2)
        99
        none
        none
        (codes "k")
        toy_key
        stored
stored_snapshot-IsVerifiable_example =
    stored_snapshot-IsVerifiable toy_platform toy_crypto servers [] (replicate 16 1)
      (replicate 16 2) 99 none none (codes "k") toy_platform-IsLawful signing (λ v. codes "[]")
      toy_key refl refl signing-verifies length-signing (λ m signature h. h) length-toy_blake3
      signed_snapshot-IsValue signed_snapshot-short
