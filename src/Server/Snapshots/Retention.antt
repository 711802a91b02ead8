-- ===== src/Server/Snapshots/Retention.antt =====
-- What the pruning of crates/rcx-registry-server/src/db/snapshots.rs keeps.
use rcx_registry.Prelude.{
  ℕ, zero, suc, ◌≤◌, ◌<◌, ◌≡◌, refl, ap, ◌∙◌, Bool, true, false, ◌||◌, inl, inr, some, List, [],
  ◌∷◌, ◌++◌, map, Bytes, bytes_eq, bytes_eq_refl, bytes_eq_comm, eq_of_bytes_eq, length, take, keep,
  sort_by, insert, All, Bool-cases, arith,
}
use rcx_registry.Prelude.Outcome.{ok}
use rcx_registry.Server.Snapshots.{
  StoredSnapshot, SnapshotRow, Snapshots, snapshot_row, has_id, insert_snapshot, has_entries,
  retained_rows, dropped_entries, drop_entries, prune_entry_sets, record_snapshot, newest_first,
  entries_json,
}

-- No two rows have one id, as the key of the table says.
abbrev pub IsKeyed : Snapshots → Type 0
IsKeyed [] = Unit
IsKeyed (row ∷ rows) = (has_id row.snapshot_id rows ≡ false) × IsKeyed rows

-- Rows of which none has the id.
keep-has_id :
    (id : Bytes) (test : SnapshotRow → Bool) (rows : Snapshots)
    → has_id id rows ≡ false
    → keep (λ row. bytes_eq id row.snapshot_id || test row) rows ≡ keep test rows
unfolding keep has_id
keep-has_id id test [] h = refl
keep-has_id id test (row ∷ rows) h =
    ground (arith, keep-has_id id test rows, bytes_eq_comm id row.snapshot_id)

-- One more id lets at most one more row pass.
length-keep_or :
    (id : Bytes) (test : SnapshotRow → Bool) (rows : Snapshots)
    → IsKeyed rows
    → length (keep (λ row. bytes_eq id row.snapshot_id || test row) rows)
      ≤ suc (length (keep test rows))
unfolding keep
length-keep_or id test [] k = omega arith
length-keep_or id test (row ∷ rows) (new, k) = elim (Bool-cases (bytes_eq id row.snapshot_id)) [
  | inl y ↦
      let e =
        keep-has_id id test rows
          (ap (λ t. has_id t rows) (eq_of_bytes_eq id row.snapshot_id y) ∙ new) in
      rw (y, e) (ground arith)
  | inr n ↦ rw n (ground (arith, length-keep_or id test rows k))
]

-- At most as many rows of a table are among others as there are others.
length-keep_among :
    (retained rows : Snapshots)
    → IsKeyed rows
    → length (keep (λ row. has_id row.snapshot_id retained) rows) ≤ length retained
unfolding has_id keep
length-keep_among [] rows k = none_of rows
  where
    none_of : (rows : Snapshots) → length (keep (λ (row : SnapshotRow). false) rows) ≤ 0
    none_of [] = omega arith
    none_of (row ∷ rows) = none_of rows
length-keep_among (r ∷ retained) rows k =
    let one = length-keep_or r.snapshot_id (λ row. has_id row.snapshot_id retained) rows k in
    omega (arith, one, length-keep_among retained rows k)

length-take_le {ℓ} : {A : Type ℓ} (n : ℕ) (xs : List A) → length (take n xs) ≤ n
length-take_le zero xs = omega arith
length-take_le (suc n) [] = omega arith
length-take_le (suc n) (x ∷ xs) = omega (arith, length-take_le n xs)

length-drop_entries :
    (retained rows : Snapshots)
    → length (keep has_entries (drop_entries retained rows))
      ≤ length (keep (λ row. has_id row.snapshot_id retained) rows)
unfolding keep drop_entries
length-drop_entries retained [] = omega arith
length-drop_entries retained (row ∷ rows) = ground (arith, length-drop_entries retained rows)

map-drop_entries :
    (retained rows : Snapshots)
    → map dropped_entries (drop_entries retained rows) ≡ map dropped_entries rows
unfolding drop_entries
map-drop_entries retained [] = refl
map-drop_entries retained (row ∷ rows) = ground (arith, map-drop_entries retained rows)

has_id-append :
    (id : Bytes) (row : SnapshotRow) (rows : Snapshots)
    → has_id id (rows ++ row ∷ []) ≡ (has_id id rows || bytes_eq row.snapshot_id id)
unfolding has_id
has_id-append id row [] = ground arith
has_id-append id row (r ∷ rows) = ground (arith, has_id-append id row rows)

append-IsKeyed :
    (row : SnapshotRow) (rows : Snapshots)
    → IsKeyed rows
    → has_id row.snapshot_id rows ≡ false
    → IsKeyed (rows ++ row ∷ [])
unfolding has_id
append-IsKeyed row [] k new = (refl, tt)
append-IsKeyed row (r ∷ rows) (n, k) new = (
  has_id-append r.snapshot_id row rows
      ∙ rw n (ground (arith, bytes_eq_comm row.snapshot_id r.snapshot_id)),
  append-IsKeyed row rows k (ground arith),
)

-- All rows are older than a time.
abbrev pub AreOlder : ℕ → Snapshots → Type 0
AreOlder time rows = All (λ row. row.scraped_at < time) rows

-- The newest row comes first of those that have entries.
newest-sorted :
    (row : SnapshotRow) (rows : Snapshots)
    → has_entries row ≡ true
    → AreOlder row.scraped_at rows
    → (rest : Snapshots) × (sort_by newest_first (keep has_entries (rows ++ row ∷ [])) ≡ row ∷ rest)
unfolding keep sort_by insert
newest-sorted row [] h older = ([], rw h)
newest-sorted row (r ∷ rows) h (old, older) =
    let (rest, e) = newest-sorted row rows h older in
    elim (Bool-cases (has_entries r)) [
      | inl y ↦
          let behind : newest_first r row ≡ false = ground arith in
          (insert newest_first r rest, rw (y, e, behind))
      | inr n ↦ (rest, rw (n, e))
    ]

newest-retained :
    (retention : ℕ) (row : SnapshotRow) (rows : Snapshots)
    → has_entries row ≡ true
    → AreOlder row.scraped_at rows
    → has_id row.snapshot_id (retained_rows (suc retention) (rows ++ row ∷ [])) ≡ true
unfolding retained_rows has_id
newest-retained retention row rows h older =
    let (rest, e) = newest-sorted row rows h older in rw (e, bytes_eq_refl row.snapshot_id)

-- The entries of a retained row are found behind rows of other ids.
entries_json-retained :
    (retained rows : Snapshots) (row : SnapshotRow)
    → has_id row.snapshot_id rows ≡ false
    → has_id row.snapshot_id retained ≡ true
    → has_entries row ≡ true
    → entries_json row.snapshot_id (drop_entries retained (rows ++ row ∷ [])) ≡ row.entries_json
unfolding entries_json drop_entries keep has_id
entries_json-retained retained [] row new kept h = rw (kept, h, bytes_eq_refl row.snapshot_id, h)
entries_json-retained retained (r ∷ rows) row new kept h =
    ground (arith, entries_json-retained retained rows row)

length-pruned :
    (retention : ℕ) (rows : Snapshots)
    → IsKeyed rows
    → length (keep has_entries (prune_entry_sets retention rows)) ≤ retention
unfolding prune_entry_sets retained_rows
length-pruned retention rows k =
    let retained = retained_rows retention rows in
    omega (
      arith,
      length-drop_entries retained rows,
      length-keep_among retained rows k,
      length-take_le retention (sort_by newest_first (keep has_entries rows)),
    )

-- If no two rows have one id, the id of a snapshot is new, the snapshot is newer than all rows, and at
-- least one entry set is retained, then recording it, where the database serves both statements,
-- succeeds; at most as many rows have an entry set afterwards as are retained, the snapshot's own
-- entry set is read back under its id as it was recorded, and but for entry sets the table is that of
-- before with the snapshot's row behind it.
pub record_snapshot-retained :
    (retention : ℕ) (s : StoredSnapshot) (rows : Snapshots)
    → 0 < retention
    → IsKeyed rows
    → has_id s.snapshot_id rows ≡ false
    → AreOlder s.scraped_at rows
    → (rows' : Snapshots) × (record_snapshot retention true true s rows ≡ (ok tt, rows'))
      × (length (keep has_entries rows') ≤ retention)
      × (entries_json s.snapshot_id rows' ≡ some s.entries_json)
      × (map dropped_entries rows' ≡ map dropped_entries (rows ++ snapshot_row s ∷ []))
unfolding record_snapshot insert_snapshot prune_entry_sets snapshot_row
record_snapshot-retained (suc retention) s rows positive k new older =
    let row = snapshot_row s in
    let rows' = rows ++ row ∷ [] in
    let retained = retained_rows (suc retention) rows' in
    (
      drop_entries retained rows',
      rw new,
      length-pruned (suc retention) rows' (append-IsKeyed row rows k new),
      entries_json-retained retained rows row new (newest-retained retention row rows refl older)
          refl,
      map-drop_entries retained rows',
    )
record_snapshot-retained zero s rows positive k new older = absurd (omega arith)
