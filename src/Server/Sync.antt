-- ===== src/Server/Sync.antt =====
-- crates/rcx-registry-server/src/loops/sync.rs: what one run does to the mirror. A time is a number of
-- milliseconds. An entry is what was fetched beside what it is mirrored as.
pub mod Calls
pub mod Persist
pub mod SoftDelete
pub mod Names
pub mod Tick
pub mod Diff
use rcx_registry.Prelude.{
  ℕ, ◌-◌, Bool, true, false, not, ◌||◌, Option, none, some, List, [], ◌∷◌, map, Bytes, bytes_eq,
  leb, if◌then◌else◌, keep,
}
use rcx_registry.Prelude.Outcome.{Outcome, ok, err, panic, stuck}
use rcx_registry.Crown.Json.{Json, object, no_members}
use rcx_registry.Crown.Hashing.{canonical_server_hash}
use rcx_registry.Ingest.{MirroredServer, SnapshotDiff, digest_entry_of, add_name, is_in}
use rcx_registry.Ingest.Envelope.{IngestError, RegistryServerEnvelope, schema_date_from_uri}
use rcx_registry.Server.Rows.{
  DbError, UpsertServer, MirrorDb, Db, upsert_server, mark_deleted, evict, cached_state,
}

abbrev pub soft_delete_retention : ℕ
soft_delete_retention = 2_592_000_000

abbrev pub Observed : Type 0
Observed = RegistryServerEnvelope × MirroredServer

-- what follows a call, by its result
abbrev pub follow_call :
    {A B : Type 0} → (A → Db B) → Outcome DbError A × MirrorDb → Outcome DbError B × MirrorDb
follow_call next (ok value, db') = next value db'
follow_call next (err why, db') = (err why, db')
follow_call next (panic, db') = (panic, db')
follow_call next (stuck, db') = (stuck, db')

infixl 5 ◌>>=◌
abbrev pub ◌>>=◌ : {A B : Type 0} → Db A → (A → Db B) → Db B
◌>>=◌ call next db = follow_call next (call db)

abbrev pub pure : {A : Type 0} → A → Db A
pure value db = (ok value, db)

-- `as_object().map(…).unwrap_or(…)`
unfoldable pub object_or_empty : Json → Json
object_or_empty (object ms) = object ms
object_or_empty _ = object no_members

-- `unwrap_or_else(|_| String::new())`
abbrev date_or_empty : Outcome IngestError Bytes → Bytes
date_or_empty (ok date) = date
date_or_empty _ = []

unfoldable pub request_of : (Bytes → Bytes) → Bytes → ℕ → Observed → UpsertServer
unfolding object_or_empty
request_of blake3 observed_in_snapshot observed_at (envelope, mirrored) = record {
  name = mirrored.name;
  version = mirrored.version;
  status = mirrored.status;
  schema_date = date_or_empty (schema_date_from_uri mirrored.schema_uri);
  is_latest = mirrored.is_latest;
  upstream_hash = canonical_server_hash blake3 (digest_entry_of mirrored);
  envelope = envelope;
  server_json = object_or_empty envelope.server;
  observed_in_snapshot = observed_in_snapshot;
  observed_at = observed_at;
}

module _ (blake3 : Bytes → Bytes) (snapshot_id : Bytes) (observed_at : ℕ) where
  unfoldable pub persist_changes : List Observed → Db (Unit {0})
  persist_changes [] = pure tt
  persist_changes (entry ∷ current) =
      upsert_server (request_of blake3 snapshot_id observed_at entry) >>= λ _.
      persist_changes current

-- a `BTreeSet` of names
unfoldable pub name_set : List Bytes → List Bytes
name_set [] = []
name_set (name ∷ names) = add_name name (name_set names)

abbrev pub difference : List Bytes → List Bytes → List Bytes
difference names others = keep (λ n. not (is_in n others)) names

abbrev pub intersection : List Bytes → List Bytes → List Bytes
intersection names others = keep (λ n. is_in n others) names

abbrev pub name_of : Observed → Bytes
name_of (_, mirrored) = mirrored.name

abbrev pub cached_name : Bytes × Option ℕ → Bytes
cached_name (name, _) = name

-- the sets of the names that are cached and of those that are current
unfoldable pub diff_of : List (Bytes × Option ℕ) → List Observed → SnapshotDiff
unfolding name_set is_in
diff_of cached current =
    let cached_names = name_set (map cached_name cached) in
    let current_names = name_set (map name_of current) in
    record {
      added = difference current_names cached_names;
      removed = difference cached_names current_names;
      modified = [];
      unchanged = intersection current_names cached_names;
    }

unfoldable pub compute_full_diff : List Observed → Db SnapshotDiff
unfolding diff_of
compute_full_diff current = cached_state >>= λ cached. pure (diff_of cached current)

-- the `match` on the time of deletion
abbrev pub soft_delete_one : ℕ → Bytes → Option ℕ → Db (Unit {0})
soft_delete_one now name none = mark_deleted name now
soft_delete_one now name (some stamp) =
    if leb soft_delete_retention (now - stamp) then evict name else pure tt

unfoldable pub soft_delete_each : ℕ → List Bytes → List (Bytes × Option ℕ) → Db (Unit {0})
soft_delete_each now current_names [] = pure tt
soft_delete_each now current_names ((name, deleted_at) ∷ cached) =
    (if is_in name current_names then pure tt else soft_delete_one now name deleted_at) >>= λ _.
    soft_delete_each now current_names cached

unfoldable pub reconcile_soft_deletes_blocking : ℕ → List Observed → Db (Unit {0})
unfolding soft_delete_each name_set
reconcile_soft_deletes_blocking now current =
    cached_state >>= λ cached. soft_delete_each now (name_set (map name_of current)) cached

-- what `run_tick_blocking` does to the mirror, and the diff that it returns
unfoldable pub mirror_tick : (Bytes → Bytes) → Bytes → ℕ → ℕ → List Observed → Db SnapshotDiff
unfolding persist_changes compute_full_diff reconcile_soft_deletes_blocking
mirror_tick blake3 snapshot_id observed_at now current = do
  persisted ← persist_changes blake3 snapshot_id observed_at current
  diff ← compute_full_diff current
  reconciled ← reconcile_soft_deletes_blocking now current
  pure diff
