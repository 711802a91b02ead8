-- ===== src/Server/Snapshots.antt =====
-- crates/rcx-registry-server/src/db/snapshots.rs: `PgSnapshotStore`, by what its SQL says of the rows of
-- `snapshots`, whose key is the id. Rows of one time are taken in the order of the table. Whether the
-- database serves a statement is an argument.
pub mod Retention
use rcx_registry.Prelude.{
  is_some, ℕ, ◌%◌, ◌^◌, Bool, true, false, not, ◌&&◌, ◌||◌, Option, none, some, List, [], ◌∷◌, ◌++◌,
  map, Bytes, bytes_eq, leb, ltb, ◌==◌, if◌then◌else◌, length, take, keep, sort_by,
}
use rcx_registry.Prelude.Outcome.{Outcome, ok, err}
use rcx_registry.Server.Rows.{DbError, failed}

abbrev pub default_entry_set_retention : ℕ
default_entry_set_retention = 24

abbrev positive_or_default : ℕ → ℕ
positive_or_default count = if ltb 0 count then count else default_entry_set_retention

-- the number that the environment gives, if it gives one that is not negative
unfoldable pub entry_set_retention : Option ℕ → ℕ
entry_set_retention none = default_entry_set_retention
entry_set_retention (some count) = positive_or_default count

pub record StoredSnapshot : Type 0 where
  pub snapshot_id : Bytes
  pub snapshot_hash : Bytes
  pub server_count : ℕ
  pub scraped_at : ℕ
  pub receipt_hash : Bytes
  pub receipt_signature : Bytes
  pub signer_kid : Bytes
  pub receipt_cbor : Bytes
  pub entries_json : Bytes

-- Rows from before the artifact columns have no receipt. The column of the count is a signed integer of
-- 32 bits, held by its bits.
pub record SnapshotRow : Type 0 where
  pub snapshot_id : Bytes
  pub snapshot_hash : Bytes
  pub server_count : ℕ
  pub scraped_at : ℕ
  pub receipt_hash : Bytes
  pub receipt_signature : Bytes
  pub signer_kid : Bytes
  pub receipt_cbor : Option Bytes
  pub entries_json : Option Bytes

abbrev pub Snapshots : Type 0
Snapshots = List SnapshotRow

-- `as i32`, by the bits
abbrev pub as_i32 : ℕ → ℕ
as_i32 count = count % 2 ^ 32

-- `.max(0) as u32`, of the bits: a number whose sign bit is set is negative
abbrev pub non_negative : ℕ → ℕ
non_negative bits = if ltb bits (2 ^ 31) then bits else 0

unfoldable pub snapshot_row : StoredSnapshot → SnapshotRow
snapshot_row s = record {
  snapshot_id = s.snapshot_id;
  snapshot_hash = s.snapshot_hash;
  server_count = as_i32 s.server_count;
  scraped_at = s.scraped_at;
  receipt_hash = s.receipt_hash;
  receipt_signature = s.receipt_signature;
  signer_kid = s.signer_kid;
  receipt_cbor = some s.receipt_cbor;
  entries_json = some s.entries_json;
}

unfoldable pub has_id : Bytes → Snapshots → Bool
has_id id [] = false
has_id id (row ∷ rows) = bytes_eq row.snapshot_id id || has_id id rows

-- `INSERT … ON CONFLICT (snapshot_id) DO NOTHING`
unfoldable pub insert_snapshot : SnapshotRow → Snapshots → Snapshots
unfolding has_id
insert_snapshot row rows = if has_id row.snapshot_id rows then rows else rows ++ row ∷ []

-- `ORDER BY scraped_at DESC`
abbrev pub newest_first : SnapshotRow → SnapshotRow → Bool
newest_first a b = leb b.scraped_at a.scraped_at

abbrev pub has_entries : SnapshotRow → Bool
has_entries row = is_some row.entries_json

-- the newest rows that have entries, up to a number
unfoldable pub retained_rows : ℕ → Snapshots → Snapshots
retained_rows retention rows = take retention (sort_by newest_first (keep has_entries rows))

abbrev pub dropped_entries : SnapshotRow → SnapshotRow
dropped_entries row = record row { entries_json = none }

-- the condition of the update
abbrev pub is_pruned : Snapshots → SnapshotRow → Bool
is_pruned retained row = has_entries row && not (has_id row.snapshot_id retained)

unfoldable pub drop_entries : Snapshots → Snapshots → Snapshots
drop_entries retained [] = []
drop_entries retained (row ∷ rows) =
    (if is_pruned retained row then dropped_entries row else row) ∷ drop_entries retained rows

unfoldable pub prune_entry_sets : ℕ → Snapshots → Snapshots
unfolding retained_rows drop_entries
prune_entry_sets retention rows = drop_entries (retained_rows retention rows) rows

-- `record`: the insertion, then the pruning as a statement of its own
unfoldable pub record_snapshot :
    ℕ → Bool → Bool → StoredSnapshot → Snapshots → Outcome DbError (Unit {0}) × Snapshots
unfolding insert_snapshot prune_entry_sets
record_snapshot retention inserts prunes snapshot rows =
    let rows' = insert_snapshot (snapshot_row snapshot) rows in
    if not inserts
    then (err failed, rows)
    else if not prunes
    then (err failed, rows')
    else (ok tt, prune_entry_sets retention rows')

abbrev pub head {ℓ} : {A : Type ℓ} → List A → Option A
head [] = none
head (x ∷ xs) = some x

-- What a third party needs of a row that has a receipt.
pub record StoredSnapshotArtifact : Type 0 where
  pub snapshot_id : Bytes
  pub snapshot_hash : Bytes
  pub server_count : ℕ
  pub scraped_at : ℕ
  pub receipt_hash : Bytes
  pub signer_kid : Bytes
  pub receipt_cbor : Bytes
  pub has_entries : Bool

abbrev artifact_with : SnapshotRow → Option Bytes → List StoredSnapshotArtifact
artifact_with row none = []
artifact_with row (some cbor) =
    record {
      snapshot_id = row.snapshot_id;
      snapshot_hash = row.snapshot_hash;
      server_count = non_negative row.server_count;
      scraped_at = row.scraped_at;
      receipt_hash = row.receipt_hash;
      signer_kid = row.signer_kid;
      receipt_cbor = cbor;
      has_entries = is_some row.entries_json;
    }
    ∷ []

-- `WHERE receipt_cbor IS NOT NULL`, each row as an artifact
unfoldable pub artifacts_of : Snapshots → List StoredSnapshotArtifact
artifacts_of [] = []
artifacts_of (row ∷ rows) = artifact_with row row.receipt_cbor ++ artifacts_of rows

abbrev is_before : Option ℕ → SnapshotRow → Bool
is_before none row = true
is_before (some cutoff) row = ltb row.scraped_at cutoff

unfoldable pub list_artifacts : ℕ → Option ℕ → Snapshots → List StoredSnapshotArtifact
unfolding artifacts_of
list_artifacts limit before rows =
    take limit (artifacts_of (sort_by newest_first (keep (is_before before) rows)))

unfoldable pub latest_artifact : Snapshots → Option StoredSnapshotArtifact
unfolding artifacts_of
latest_artifact rows = head (artifacts_of (sort_by newest_first rows))

unfoldable pub artifact_by_id : Bytes → Snapshots → Option StoredSnapshotArtifact
unfolding artifacts_of
artifact_by_id id rows = head (artifacts_of (keep (λ row. bytes_eq row.snapshot_id id) rows))

abbrev pub entries_of_row : Option SnapshotRow → Option Bytes
entries_of_row none = none
entries_of_row (some row) = row.entries_json

unfoldable pub entries_json : Bytes → Snapshots → Option Bytes
entries_json id rows =
    entries_of_row (head (keep (λ row. bytes_eq row.snapshot_id id && has_entries row) rows))

abbrev hash_of_row : Option SnapshotRow → Option Bytes
hash_of_row none = none
hash_of_row (some row) = some row.snapshot_hash

unfoldable pub latest_hash : Snapshots → Option Bytes
latest_hash rows = hash_of_row (head (sort_by newest_first rows))
