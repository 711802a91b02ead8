-- ===== src/Server/Sync/Tick.antt =====
-- What one run of crates/rcx-registry-server/src/loops/sync.rs makes of the mirror, as a whole.
use rcx_registry.Prelude.{
  is_some, ℕ, ◌-◌, ◌≡◌, refl, ap, ◌∙◌, Option, none, some, List, [], ◌∷◌, map, Bytes, leb,
  if◌then◌else◌, arith,
}
use rcx_registry.Prelude.Outcome.{ok}
use rcx_registry.Ingest.{SnapshotDiff}
use rcx_registry.Server.Rows.{MirrorDb, Rows, ServerRow, Db, mark, state_of, cached_state}
use rcx_registry.Server.Rows.Laws.{find_row, IsKeyed, upserted}
use rcx_registry.Server.Sync.{
  Observed, soft_delete_retention, request_of, name_of, name_set, diff_of, persist_changes,
  compute_full_diff, reconcile_soft_deletes_blocking, soft_delete_each, mirror_tick, pure, ◌>>=◌,
}
use rcx_registry.Server.Sync.Calls.{IsUp, after_call, after_call-IsUp, cached_state-IsUp, >>=-ok}
use rcx_registry.Server.Sync.Persist.{
  last_of, placed, upsert_all, persist_changes-upsert_all, find_row-upsert_all, upsert_all-IsKeyed,
}
use rcx_registry.Server.Sync.SoftDelete.{
  soft_delete_all, soft_delete_each-soft_delete_all, stamp_of, stamped, AreKeyed,
  find_row-soft_delete_all, soft_delete_all-IsKeyed,
}
use rcx_registry.Server.Sync.Names.{is_in-name_set, is_in-last_of}

abbrev expired : ℕ → ServerRow → Option ℕ → Option ServerRow
expired now row none = some (mark now row)
expired now row (some stamp) = if leb soft_delete_retention (now - stamp) then none else some row

-- What becomes of the row of a name that is gone upstream: it is marked as deleted, or, if it was
-- marked before, kept until the time of retention is over.
abbrev pub expire : ℕ → Option ServerRow → Option ServerRow
expire now none = none
expire now (some row) = expired now row row.deleted_upstream_at

-- The row of a name after a run, by the last entry of the name and the row before the run.
abbrev pub row_after :
    (Bytes → Bytes) → Bytes → ℕ → ℕ → Option Observed → Option ServerRow → Option ServerRow
row_after blake3 snapshot_id observed_at now (some entry) old =
    some (upserted (request_of blake3 snapshot_id observed_at entry) old)
row_after blake3 snapshot_id observed_at now none old = expire now old

abbrev deleted_of : Option ServerRow → Option (Option ℕ)
deleted_of none = none
deleted_of (some row) = some row.deleted_upstream_at

stamp_of-state_of :
    (name : Bytes) (rows : Rows)
    → stamp_of name (map state_of rows) ≡ deleted_of (find_row name rows)
unfolding find_row
stamp_of-state_of name [] = refl
stamp_of-state_of name (row ∷ rows) = ground (arith, stamp_of-state_of name rows)

state_of-AreKeyed : (rows : Rows) → IsKeyed rows → AreKeyed (map state_of rows)
state_of-AreKeyed [] h = tt
state_of-AreKeyed (row ∷ rows) (new, h) =
    (stamp_of-state_of row.name rows ∙ ap deleted_of new, state_of-AreKeyed rows h)

stamped-expire :
    (now : ℕ) (row : Option ServerRow) → stamped now (deleted_of row) row ≡ expire now row
stamped-expire now none = refl
stamped-expire now (some row) = go row.deleted_upstream_at
  where
    go : (d : Option ℕ) → stamped now (some d) (some row) ≡ expired now row d
    go none = refl
    go (some stamp) = refl

module _ (blake3 : Bytes → Bytes) (snapshot_id : Bytes) (observed_at now : ℕ) where
  module _ (current : List Observed) where
    unfoldable pub names : List Bytes
    names = name_set (map name_of current)

    unfoldable pub persisted : Rows → Rows
    persisted rows = upsert_all blake3 snapshot_id observed_at current rows

    unfoldable pub swept : Rows → Rows
    swept rows = soft_delete_all now names (map state_of rows) rows

    by_entry :
        (last : Option Observed) (old : Option ServerRow)
        → (if is_some last
            then placed blake3 snapshot_id observed_at last old
            else expire now (placed blake3 snapshot_id observed_at last old))
          ≡ row_after blake3 snapshot_id observed_at now last old
    by_entry none old = refl
    by_entry (some entry) old = refl

    find_row-swept :
        (name : Bytes) (rows : Rows)
        → IsKeyed rows
        → find_row name (swept (persisted rows))
          ≡ row_after blake3 snapshot_id observed_at now (last_of name current) (find_row name rows)
    unfolding swept persisted names
    find_row-swept name rows h =
        let after = persisted rows in
        let keyed = upsert_all-IsKeyed blake3 snapshot_id observed_at current rows h in
        rw
          (
            find_row-soft_delete_all now names name (map state_of after) after
                (state_of-AreKeyed after keyed),
            is_in-name_set name (map name_of current),
            is_in-last_of name current,
            stamp_of-state_of name after,
            stamped-expire now (find_row name after),
            find_row-upsert_all blake3 snapshot_id observed_at name current rows,
          )
          (by_entry (last_of name current) (find_row name rows))

    compute_full_diff-IsUp :
        (db : MirrorDb)
        → IsUp db
        → compute_full_diff current db
          ≡ (ok (diff_of (map state_of db.rows) current), after_call db db.rows)
    unfolding compute_full_diff
    compute_full_diff-IsUp db up =
        >>=-ok cached_state (λ cached. pure (diff_of cached current)) db (map state_of db.rows)
          (after_call db db.rows) (cached_state-IsUp db up)

    reconcile-swept :
        (db : MirrorDb)
        → IsUp db
        → (db' : MirrorDb) × (reconcile_soft_deletes_blocking now current db ≡ (ok tt, db'))
          × IsUp db'
          × (db'.rows ≡ swept db.rows)
    unfolding reconcile_soft_deletes_blocking swept names after_call
    reconcile-swept db up =
        let (db', e, up', r) =
          soft_delete_each-soft_delete_all now names (map state_of db.rows) (after_call db db.rows)
            (after_call-IsUp db db.rows up) in
        (
          db',
          >>=-ok cached_state (λ cached. soft_delete_each now names cached) db
                (map state_of db.rows) (after_call db db.rows) (cached_state-IsUp db up)
              ∙ e,
          up',
          r,
        )

    -- A run returns the diff against the rows that it has already written, and leaves what is swept.
    pub mirror_tick-swept :
        (db : MirrorDb)
        → IsUp db
        → (db' : MirrorDb) × (mirror_tick blake3 snapshot_id observed_at now current db
            ≡ (ok (diff_of (map state_of (persisted db.rows)) current), db'))
          × (db'.rows ≡ swept (persisted db.rows))
    unfolding mirror_tick persisted after_call
    mirror_tick-swept db up =
        let (db₁, e₁, up₁, r₁) =
          persist_changes-upsert_all blake3 snapshot_id observed_at current db up in
        let db₂ = after_call db₁ db₁.rows in
        let (db₃, e₃, _, r₃) = reconcile-swept db₂ (after_call-IsUp db₁ db₁.rows up₁) in
        let diff = diff_of (map state_of db₁.rows) current in
        let rest : SnapshotDiff → Db SnapshotDiff =
          λ d. reconcile_soft_deletes_blocking now current >>= λ _. pure d in
        (
          db₃,
          >>=-ok (persist_changes blake3 snapshot_id observed_at current)
                (λ _. compute_full_diff current >>= rest) db tt db₁ e₁
              ∙ >>=-ok (compute_full_diff current) rest db₁ diff db₂
                  (compute_full_diff-IsUp db₁ up₁)
              ∙ >>=-ok (reconcile_soft_deletes_blocking now current) (λ _. pure diff) db₂ tt db₃ e₃
              ∙ ap (λ t. (ok (diff_of (map state_of t) current), db₃)) r₁,
          r₃ ∙ ap swept r₁,
        )

    -- If the database serves all calls and no two rows have one name, then a run returns a diff and
    -- leaves a table in which no two rows have one name, a name that is current has the row of its last
    -- entry, not deleted, with the first observation of the row before if there was one, and any other
    -- name has no row if it had none, its row marked as deleted now if it was not yet, and otherwise
    -- its row as it was, or none if the time of retention since it was marked is over.
    pub mirror_tick-row_after :
        (db : MirrorDb)
        → IsUp db
        → IsKeyed db.rows
        → (diff : SnapshotDiff) × (db' : MirrorDb) × (mirror_tick blake3 snapshot_id observed_at now
              current db
            ≡ (ok diff, db'))
          × IsKeyed db'.rows
          × ((name : Bytes)
              → find_row name db'.rows
                ≡ row_after blake3 snapshot_id observed_at now
                    (last_of name current)
                    (find_row name db.rows))
    unfolding swept persisted
    mirror_tick-row_after db up keyed =
        let (db', e, r) = mirror_tick-swept db up in
        let keyed' =
          soft_delete_all-IsKeyed now names (map state_of (persisted db.rows)) (persisted db.rows)
            (upsert_all-IsKeyed blake3 snapshot_id observed_at current db.rows keyed) in
        (_, db', e, rw r keyed', λ name. ap (find_row name) r ∙ find_row-swept name db.rows keyed)
