-- ===== src/Ingest.antt =====
-- crates/rcx-registry-ingest/src/lib.rs: how two mirrored snapshots are compared, when the next run is
-- due, and what becomes of servers that are gone upstream. Times and durations are numbers of one
-- unit, from the epoch on. A `BTreeMap` from names is the search for the last entry of a name, and a
-- `BTreeSet` of names an ascending list without two of one name.
pub mod Reconcile
pub mod Ascending
pub mod Diff
pub mod SoftDeletes
pub mod NameSets
pub mod Envelope
pub mod SnapshotPlan
use rcx_registry.Prelude.{
  ℕ, ◌+◌, ◌-◌, Bool, true, false, ◌||◌, Option, none, some, List, [], ◌∷◌, map, Bytes, bytes_eq,
  lex_le, leb, ltb, if◌then◌else◌, length,
}
use rcx_registry.Crown.Hashing.{SnapshotEntry, canonical_server_hash}

pub record MirroredServer : Type 0 where
  pub name : Bytes
  pub version : Bytes
  pub schema_uri : Bytes
  pub schema_date : Bytes
  pub status : Bytes
  pub updated_at : Option Bytes
  pub is_latest : Bool
  pub canonical_json : Bytes

-- what enters a digest
abbrev pub digest_entry_of : MirroredServer → SnapshotEntry
digest_entry_of s = record { name = s.name; version = s.version; canonical_json = s.canonical_json }

pub record SnapshotDiff : Type 0 where
  pub added : List Bytes
  pub removed : List Bytes
  pub modified : List Bytes
  pub unchanged : List Bytes

unfoldable pub changed_count : SnapshotDiff → ℕ
changed_count d = length d.added + length d.removed + length d.modified

-- a later entry of a name takes the place of an earlier one
abbrev pub or_entry : Bytes → MirroredServer → Option MirroredServer → Option MirroredServer
or_entry name e (some later) = some later
or_entry name e none = if bytes_eq e.name name then some e else none

-- `by_name(entries).get(name)`
unfoldable pub get_by_name : Bytes → List MirroredServer → Option MirroredServer
get_by_name name [] = none
get_by_name name (e ∷ es) = or_entry name e (get_by_name name es)

-- `BTreeSet::insert`
unfoldable pub add_name : Bytes → List Bytes → List Bytes
add_name name [] = name ∷ []
add_name name (n ∷ ns) =
    let rest = add_name name ns in
    if bytes_eq name n then n ∷ ns else if lex_le name n then name ∷ n ∷ ns else n ∷ rest

-- `BTreeSet::contains`
unfoldable pub is_in : Bytes → List Bytes → Bool
is_in name [] = false
is_in name (n ∷ names) = bytes_eq n name || is_in name names

unfoldable pub add_names : List MirroredServer → List Bytes → List Bytes
add_names [] ns = ns
add_names (e ∷ es) ns = add_name e.name (add_names es ns)

pub data Change : Type 0 where
  is_added is_removed is_modified is_unchanged is_absent : Change

-- the `match` on the two entries of a name
unfoldable pub change_of : (Bytes → Bytes) → Option MirroredServer → Option MirroredServer → Change
change_of blake3 none (some c) = is_added
change_of blake3 (some p) none = is_removed
change_of blake3 (some p) (some c) =
    if bytes_eq (canonical_server_hash blake3 (digest_entry_of p))
      (canonical_server_hash blake3 (digest_entry_of c))
    then is_unchanged
    else is_modified
change_of blake3 none none = is_absent

-- the list that a name is pushed to
abbrev pub push_name : Bytes → Change → SnapshotDiff → SnapshotDiff
push_name name is_added d = record {
  added = name ∷ d.added;
  removed = d.removed;
  modified = d.modified;
  unchanged = d.unchanged;
}
push_name name is_removed d = record {
  added = d.added;
  removed = name ∷ d.removed;
  modified = d.modified;
  unchanged = d.unchanged;
}
push_name name is_modified d = record {
  added = d.added;
  removed = d.removed;
  modified = name ∷ d.modified;
  unchanged = d.unchanged;
}
push_name name is_unchanged d = record {
  added = d.added;
  removed = d.removed;
  modified = d.modified;
  unchanged = name ∷ d.unchanged;
}
push_name name is_absent d = d

-- the loop over the names, over the change of each
unfoldable pub diff_names : (Bytes → Change) → List Bytes → SnapshotDiff
diff_names change [] = record { added = []; removed = []; modified = []; unchanged = [] }
diff_names change (n ∷ ns) = push_name n (change n) (diff_names change ns)

abbrev pub change_between :
    (Bytes → Bytes) → List MirroredServer → List MirroredServer → Bytes → Change
change_between blake3 previous current name =
    change_of blake3 (get_by_name name previous) (get_by_name name current)

unfoldable pub reconcile_snapshots :
    (Bytes → Bytes) → List MirroredServer → List MirroredServer → SnapshotDiff
unfolding diff_names
reconcile_snapshots blake3 previous current =
    diff_names (change_between blake3 previous current) (add_names previous (add_names current []))

-- less the mode of delta queries, which `next_run_at` does not read
pub record SyncCadencePolicy : Type 0 where
  pub target_interval : ℕ
  pub min_interval_floor : ℕ
  pub burst_follow_up_delay : ℕ
  pub burst_change_threshold : ℕ

unfoldable pub max_system_time : ℕ → ℕ → ℕ
max_system_time left right = if leb right left then left else right

unfoldable pub next_run_at : SyncCadencePolicy → ℕ → SnapshotDiff → ℕ
unfolding max_system_time changed_count
next_run_at policy last_success diff =
    let base_due = last_success + policy.target_interval in
    let earliest_allowed = last_success + policy.min_interval_floor in
    if ltb policy.burst_change_threshold (changed_count diff)
    then max_system_time earliest_allowed (last_success + policy.burst_follow_up_delay)
    else max_system_time earliest_allowed base_due

pub record CachedServerState : Type 0 where
  pub name : Bytes
  pub deleted_upstream_at : Option ℕ

pub record SoftDeletePlan : Type 0 where
  pub mark_deleted : List Bytes
  pub retain_deleted : List Bytes
  pub evict : List Bytes

unfoldable pub is_current : Bytes → List MirroredServer → Bool
is_current name [] = false
is_current name (e ∷ es) = bytes_eq e.name name || is_current name es

-- the `match` on the time of deletion; `duration_since` of a later time is taken for 0
abbrev pub plan_entry : Bytes → ℕ → ℕ → Option ℕ → SoftDeletePlan → SoftDeletePlan
plan_entry name now retention none plan = record {
  mark_deleted = name ∷ plan.mark_deleted;
  retain_deleted = plan.retain_deleted;
  evict = plan.evict;
}
plan_entry name now retention (some deleted_at) plan =
    if leb retention (now - deleted_at)
    then record {
      mark_deleted = plan.mark_deleted;
      retain_deleted = plan.retain_deleted;
      evict = name ∷ plan.evict;
    }
    else record {
      mark_deleted = plan.mark_deleted;
      retain_deleted = name ∷ plan.retain_deleted;
      evict = plan.evict;
    }

unfoldable pub reconcile_soft_deletes :
    List CachedServerState → List MirroredServer → ℕ → ℕ → SoftDeletePlan
unfolding is_current
reconcile_soft_deletes [] current now retention = record {
  mark_deleted = [];
  retain_deleted = [];
  evict = [];
}
reconcile_soft_deletes (entry ∷ cached) current now retention =
    let plan = reconcile_soft_deletes cached current now retention in
    if is_current entry.name current
    then plan
    else plan_entry entry.name now retention entry.deleted_upstream_at plan
