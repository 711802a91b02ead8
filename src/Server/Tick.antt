-- ===== src/Server/Tick.antt =====
-- crates/rcx-registry-server/src/loops/sync.rs: a run as a whole, and what the loop keeps from one run
-- to the next.
use rcx_registry.Prelude.{
  ℕ, ◌+◌, Option, none, some, List, [], ◌∷◌, ◌++◌, map, Bytes, codes, if◌then◌else◌, length, take,
  to_be_bytes,
}
use rcx_registry.Prelude.Outcome.{Outcome, ok, err, panic, stuck}
use rcx_registry.Prelude.Texts.{decimal}
use rcx_registry.Crown.Crypto.{Crypto}
use rcx_registry.Crown.Float.{Platform}
use rcx_registry.Crown.Json.{JsonText, Json}
use rcx_registry.Crown.Receipt.{ulid_len}
use rcx_registry.Ingest.{MirroredServer, SnapshotDiff, SyncCadencePolicy, next_run_at}
use rcx_registry.Ingest.Envelope.{
  IngestError, RegistryServerEnvelope, ListServersRequest, FetchPageResult, from_envelope,
  noop_schema_catalog,
}
use rcx_registry.Ingest.SnapshotPlan.{SnapshotPlan, build_snapshot_plan}
use rcx_registry.Server.Fetch.{fetch_all_pages}
use rcx_registry.Server.Rows.{DbError, MirrorDb}
use rcx_registry.Server.Snapshots.{latest_hash}
use rcx_registry.Server.Sync.{Observed, mirror_tick}
use rcx_registry.Server.Publish.{
  SyncError, ingest, db, Signer, ServerState, stored_snapshot, store_snapshot,
}

-- The clock's readings in a run, in milliseconds, and the one in nanoseconds.
pub record Clock : Type 0 where
  pub now_ns : ℕ
  pub seeded_at : ℕ
  pub scraped_at_ms : ℕ
  pub observed_at : ℕ
  pub reconciled_at : ℕ

-- the nanoseconds as a word of 128 bits
unfoldable pub derive_ulid_from_now : ℕ → Bytes
derive_ulid_from_now now_ns = take ulid_len (to_be_bytes 16 now_ns)

unfoldable pub derive_ulid_from_seed : (Bytes → Bytes) → Bytes → Bytes
derive_ulid_from_seed blake3 seed = take ulid_len (blake3 seed)

unfoldable pub event_seed : ℕ → ℕ → Bytes
event_seed millis count = codes "snapshot:" ++ (decimal millis ++ b':' ∷ decimal count)

-- the envelopes that can be mirrored, and how many cannot
abbrev or_skip :
    RegistryServerEnvelope
    → Outcome IngestError MirroredServer
    → List Observed × ℕ
    → List Observed × ℕ
or_skip envelope (ok mirrored) (current, errors) = ((envelope, mirrored) ∷ current, errors)
or_skip envelope _ (current, errors) = (current, errors + 1)

unfoldable pub mirrored_envelopes : JsonText → List RegistryServerEnvelope → List Observed × ℕ
mirrored_envelopes t [] = ([], 0)
mirrored_envelopes t (envelope ∷ envelopes) =
    or_skip envelope (from_envelope t noop_schema_catalog envelope) (mirrored_envelopes t envelopes)

abbrev pub server_of : Observed → MirroredServer
server_of (_, mirrored) = mirrored

module _ (p : Platform) (c : Crypto) (t : JsonText) (signer : Signer) (to_vec : Json → Bytes) where
  -- the last steps: the metrics are set once the snapshot is stored
  abbrev finish_tick :
      ℕ
      → SnapshotDiff
      → Outcome SyncError (Unit {0}) × ServerState
      → Outcome SyncError SnapshotDiff × ServerState
  finish_tick mirrored diff (ok stored, state) = (
    ok diff,
    record state { mcp_servers_mirrored = mirrored; snapshots_total = state.snapshots_total + 1 },
  )
  finish_tick mirrored diff (err e, state) = (err e, state)
  finish_tick mirrored diff (panic, state) = (panic, state)
  finish_tick mirrored diff (stuck, state) = (stuck, state)

  -- behind what is done to the mirror
  abbrev publish :
      List Observed
      → SnapshotPlan
      → ServerState
      → Outcome DbError SnapshotDiff × MirrorDb
      → Outcome SyncError SnapshotDiff × ServerState
  publish current plan state (err e, mirror') = (err (db e), record state { mirror = mirror' })
  publish current plan state (panic, mirror') = (panic, record state { mirror = mirror' })
  publish current plan state (stuck, mirror') = (stuck, record state { mirror = mirror' })
  publish current plan state (ok diff, mirror') = finish_tick (length current) diff (
      store_snapshot
        (stored_snapshot p c signer to_vec plan.snapshot_receipt (map server_of current))
        (record state { mirror = mirror' }))

  abbrev carry_out :
      Clock
      → List Observed
      → ServerState
      → Option SnapshotPlan
      → Outcome SyncError SnapshotDiff × ServerState
  carry_out clock current state none = (panic, state)
  carry_out clock current state (some plan) = publish current plan state (
      mirror_tick c.blake3 plan.snapshot_receipt.snapshot_id clock.observed_at clock.reconciled_at
        current state.mirror)

  -- the plan is built against no previous servers
  abbrev tick_on :
      Clock → List Observed → ServerState → Outcome SyncError SnapshotDiff × ServerState
  tick_on clock current state =
      if state.reads
      then carry_out clock current state (
          build_snapshot_plan p c (map server_of current) []
            (derive_ulid_from_seed c.blake3 (event_seed clock.seeded_at (length current)))
            (derive_ulid_from_now clock.now_ns) clock.scraped_at_ms (latest_hash state.snapshots)
            none signer.signer_kid)
      else (err (db DbError.failed), state)

  abbrev tick_fetched :
      Clock
      → Outcome IngestError (List RegistryServerEnvelope)
      → ServerState
      → Outcome SyncError SnapshotDiff × ServerState
  tick_fetched clock (err e) state = (err (ingest e), state)
  tick_fetched clock panic state = (panic, state)
  tick_fetched clock stuck state = (stuck, state)
  tick_fetched clock (ok envelopes) state =
      let (current, errors) = mirrored_envelopes t envelopes in
      tick_on clock current
        (record state { mcp_fetch_errors_total = state.mcp_fetch_errors_total + errors })

  unfoldable pub run_tick_blocking :
      (ListServersRequest → Outcome IngestError FetchPageResult)
      → Clock
      → ServerState
      → Outcome SyncError SnapshotDiff × ServerState
  run_tick_blocking fetch_servers_page clock state =
      tick_fetched clock (fetch_all_pages fetch_servers_page) state

-- What the loop of `run` keeps from one tick to the next.
pub record LoopState : Type 0 where
  pub last_run : Option ℕ
  pub last_diff : SnapshotDiff

-- when the next tick is due
abbrev due_after : SyncCadencePolicy → ℕ → SnapshotDiff → Option ℕ → ℕ
due_after policy now diff none = now
due_after policy now diff (some prior) = next_run_at policy prior diff

unfoldable pub due_at : SyncCadencePolicy → ℕ → LoopState → ℕ
due_at policy now state = due_after policy now state.last_diff state.last_run

-- a tick that fails leaves the last diff
unfoldable pub after_tick : ℕ → Outcome SyncError SnapshotDiff → LoopState → LoopState
after_tick now (ok diff) state = record { last_run = some now; last_diff = diff }
after_tick now _ state = record state { last_run = some now }
