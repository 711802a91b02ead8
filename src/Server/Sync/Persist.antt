-- ===== src/Server/Sync/Persist.antt =====
-- `persist_changes` of crates/rcx-registry-server/src/loops/sync.rs.
use rcx_registry.Prelude.{
  ℕ, ◌≡◌, refl, ap, ◌∙◌, Option, none, some, List, [], ◌∷◌, Bytes, bytes_eq, if◌then◌else◌, arith,
}
use rcx_registry.Prelude.Outcome.{ok}
use rcx_registry.Server.Rows.{MirrorDb, Rows, ServerRow, row_of, upsert_server, upsert_row}
use rcx_registry.Server.Rows.Laws.{
  find_row, IsKeyed, upserted, find_row-upsert_row, upsert_row-IsKeyed,
}
use rcx_registry.Server.Sync.{Observed, request_of, persist_changes, name_of}
use rcx_registry.Server.Sync.Calls.{IsUp, after_call, after_call-IsUp, upsert_server-IsUp, >>=-ok}

abbrev or_this : Bytes → Observed → Option Observed → Option Observed
or_this name entry (some later) = some later
or_this name entry none = if bytes_eq (name_of entry) name then some entry else none

-- The last entry of a name.
unfoldable pub last_of : Bytes → List Observed → Option Observed
last_of name [] = none
last_of name (entry ∷ current) = or_this name entry (last_of name current)

module _ (blake3 : Bytes → Bytes) (snapshot_id : Bytes) (observed_at : ℕ) where
  -- The row of a name whose last entry is given, over the row that it had.
  abbrev pub placed : Option Observed → Option ServerRow → Option ServerRow
  placed none old = old
  placed (some entry) old = some (upserted (request_of blake3 snapshot_id observed_at entry) old)

  -- What all the calls together do to the rows.
  unfoldable pub upsert_all : List Observed → Rows → Rows
  upsert_all [] rows = rows
  upsert_all (entry ∷ current) rows =
      upsert_all current (upsert_row (request_of blake3 snapshot_id observed_at entry) rows)

  pub persist_changes-upsert_all :
      (current : List Observed) (db : MirrorDb)
      → IsUp db
      → (db' : MirrorDb) × (persist_changes blake3 snapshot_id observed_at current db
          ≡ (ok tt, db'))
        × IsUp db'
        × (db'.rows ≡ upsert_all current db.rows)
  unfolding persist_changes upsert_all after_call
  persist_changes-upsert_all [] db up = (db, refl, up, refl)
  persist_changes-upsert_all (entry ∷ current) db up =
      let request = request_of blake3 snapshot_id observed_at entry in
      let rows' = upsert_row request db.rows in
      let (db', e, up', r) =
        persist_changes-upsert_all current (after_call db rows') (after_call-IsUp db rows' up) in
      (
        db',
        >>=-ok (upsert_server request) (λ _. persist_changes blake3 snapshot_id observed_at current)
              db tt (after_call db rows') (upsert_server-IsUp request db up)
            ∙ e,
        up',
        r,
      )

  placed-upserted :
      (name : Bytes) (entry : Observed) (later : Option Observed) (old : Option ServerRow)
      → placed later (
          if bytes_eq (name_of entry) name
          then some (upserted (request_of blake3 snapshot_id observed_at entry) old)
          else old)
        ≡ placed (or_this name entry later) old
  unfolding request_of row_of
  placed-upserted name entry none old = ground arith
  placed-upserted name entry (some later) old = ground arith

  -- The row of a name is that of its last entry, or the row that was there.
  pub find_row-upsert_all :
      (name : Bytes) (current : List Observed) (rows : Rows)
      → find_row name (upsert_all current rows) ≡ placed (last_of name current) (find_row name rows)
  unfolding upsert_all last_of request_of
  find_row-upsert_all name [] rows = refl
  find_row-upsert_all name (entry ∷ current) rows =
      let request = request_of blake3 snapshot_id observed_at entry in
      find_row-upsert_all name current (upsert_row request rows)
      ∙ ap (placed (last_of name current)) (find_row-upsert_row name request rows)
      ∙ placed-upserted name entry (last_of name current) (find_row name rows)

  pub upsert_all-IsKeyed :
      (current : List Observed) (rows : Rows) → IsKeyed rows → IsKeyed (upsert_all current rows)
  unfolding upsert_all
  upsert_all-IsKeyed [] rows h = h
  upsert_all-IsKeyed (entry ∷ current) rows h =
      let request = request_of blake3 snapshot_id observed_at entry in
      upsert_all-IsKeyed current (upsert_row request rows) (upsert_row-IsKeyed request rows h)
