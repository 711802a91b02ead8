-- ===== src/Server/Rows.antt =====
-- crates/rcx-registry-server/src/db/mirror.rs: `PgMirrorStore`, by what its SQL says of the rows of
-- `mcp_servers`, whose key is the name. A table is a list of rows; `answers` tells of the calls to come
-- whether the pool and the database serve them, and all do once it is used up.
pub mod Laws
use rcx_registry.Prelude.{
  ℕ, Bool, true, false, Option, none, some, List, [], ◌∷◌, map, Bytes, codes, bytes_eq,
  if◌then◌else◌,
}
use rcx_registry.Prelude.Outcome.{Outcome, ok, err}
use rcx_registry.Crown.Json.{Json}
use rcx_registry.Ingest.Envelope.{RegistryServerEnvelope}

pub data DbError : Type 0 where
  failed : DbError

pub record UpsertServer : Type 0 where
  pub name : Bytes
  pub version : Bytes
  pub status : Bytes
  pub schema_date : Bytes
  pub is_latest : Bool
  pub upstream_hash : Bytes
  pub envelope : RegistryServerEnvelope
  pub server_json : Json
  pub observed_in_snapshot : Bytes
  pub observed_at : ℕ

pub record ServerRow : Type 0 where
  pub name : Bytes
  pub server_json : Json
  pub upstream_hash : Bytes
  pub first_observed_at : ℕ
  pub last_observed_at : ℕ
  pub status : Bytes
  pub schema_date : Bytes
  pub observed_in_snapshot : Bytes
  pub envelope_json : RegistryServerEnvelope
  pub version : Bytes
  pub is_latest : Bool
  pub deleted_upstream_at : Option ℕ

abbrev pub Rows : Type 0
Rows = List ServerRow

-- the row of a request, first observed at a time
unfoldable pub row_of : UpsertServer → ℕ → ServerRow
row_of request first_observed_at = record {
  name = request.name;
  server_json = request.server_json;
  upstream_hash = request.upstream_hash;
  first_observed_at = first_observed_at;
  last_observed_at = request.observed_at;
  status = request.status;
  schema_date = request.schema_date;
  observed_in_snapshot = request.observed_in_snapshot;
  envelope_json = request.envelope;
  version = request.version;
  is_latest = request.is_latest;
  deleted_upstream_at = none;
}

-- `INSERT … ON CONFLICT (name) DO UPDATE`, which keeps `first_observed_at`
unfoldable pub upsert_row : UpsertServer → Rows → Rows
unfolding row_of
upsert_row request [] = row_of request request.observed_at ∷ []
upsert_row request (row ∷ rows) =
    let rest = upsert_row request rows in
    if bytes_eq row.name request.name
    then row_of request row.first_observed_at ∷ rows
    else row ∷ rest

-- `deleted_upstream_at IS NULL`
abbrev marked : ℕ → Option ℕ → ServerRow → ServerRow
marked when none row = record row { status = codes "deleted"; deleted_upstream_at = some when }
marked when (some stamp) row = row

unfoldable pub mark : ℕ → ServerRow → ServerRow
mark when row = marked when row.deleted_upstream_at row

-- `UPDATE … WHERE name = $1 AND deleted_upstream_at IS NULL`
unfoldable pub mark_rows : Bytes → ℕ → Rows → Rows
unfolding mark
mark_rows name when [] = []
mark_rows name when (row ∷ rows) =
    (if bytes_eq row.name name then mark when row else row) ∷ mark_rows name when rows

-- `DELETE … WHERE name = $1`
unfoldable pub evict_rows : Bytes → Rows → Rows
evict_rows name [] = []
evict_rows name (row ∷ rows) =
    let rest = evict_rows name rows in if bytes_eq row.name name then rest else row ∷ rest

abbrev pub state_of : ServerRow → Bytes × Option ℕ
state_of row = (row.name, row.deleted_upstream_at)

pub record MirrorDb : Type 0 where
  pub rows : Rows
  pub answers : List Bool

abbrev pub Db {ℓ} : Type ℓ → Type ℓ
Db A = MirrorDb → Outcome DbError A × MirrorDb

-- a call of the database, by what it does to the rows
abbrev served_call {ℓ} :
    {A : Type ℓ} → (Rows → A × Rows) → List Bool → Rows → Outcome DbError A × MirrorDb
served_call call [] rows = (ok (call rows).0, record { rows = (call rows).1; answers = [] })
served_call call (true ∷ answers) rows =
    (ok (call rows).0, record { rows = (call rows).1; answers = answers })
served_call call (false ∷ answers) rows = (err failed, record { rows = rows; answers = answers })

unfoldable pub run_call {ℓ} : {A : Type ℓ} → (Rows → A × Rows) → Db A
run_call call db = served_call call db.answers db.rows

unfoldable pub upsert_server : UpsertServer → Db (Unit {0})
unfolding run_call upsert_row
upsert_server request = run_call (λ rows. (tt, upsert_row request rows))

unfoldable pub mark_deleted : Bytes → ℕ → Db (Unit {0})
unfolding run_call mark_rows
mark_deleted name when = run_call (λ rows. (tt, mark_rows name when rows))

unfoldable pub evict : Bytes → Db (Unit {0})
unfolding run_call evict_rows
evict name = run_call (λ rows. (tt, evict_rows name rows))

unfoldable pub cached_state : Db (List (Bytes × Option ℕ))
unfolding run_call
cached_state = run_call (λ rows. (map state_of rows, rows))
