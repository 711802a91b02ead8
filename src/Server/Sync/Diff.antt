-- ===== src/Server/Sync/Diff.antt =====
-- The diff that a run of crates/rcx-registry-server/src/loops/sync.rs returns, which the loop takes for
-- what changed upstream when it plans the next run.
use mathlib.Core.Path.{subst}
use rcx_registry.Prelude.{
  is_some, ℕ, ◌≡◌, refl, sym, ap, ◌∙◌, true, false, not, Option, none, some, List, [], map, Bytes,
  length, All, arith,
}
use rcx_registry.Prelude.Outcome.{Outcome, ok}
use rcx_registry.Ingest.{is_in, SnapshotDiff, changed_count}
use rcx_registry.Server.Rows.{MirrorDb, Rows, state_of, ServerRow}
use rcx_registry.Server.Rows.Laws.{find_row}
use rcx_registry.Server.Sync.{Observed, name_of, name_set, cached_name, diff_of, mirror_tick}
use rcx_registry.Server.Sync.Calls.{IsUp}
use rcx_registry.Server.Sync.Persist.{last_of, upsert_all, find_row-upsert_all, placed}
use rcx_registry.Server.Sync.Names.{
  is_in-name_set, is_in-last_of, is_in-find_row, All-is_in, keep-none, keep-All,
}
use rcx_registry.Server.Sync.Tick.{persisted, mirror_tick-swept}

module _ (blake3 : Bytes → Bytes) (snapshot_id : Bytes) (observed_at : ℕ) where
  placed-is_some :
      (last : Option Observed) (old : Option ServerRow)
      → is_some last ≡ true
      → is_some (placed blake3 snapshot_id observed_at last old) ≡ true
  placed-is_some none old h = cc
  placed-is_some (some entry) old h = refl

  -- Every current name is among those that are cached after the rows were written.
  current-cached :
      (current : List Observed) (rows : Rows) (n : Bytes)
      → is_in n (name_set (map name_of current)) ≡ true
      → is_in n (
          name_set (
            map cached_name
              (map state_of (upsert_all blake3 snapshot_id observed_at current rows))))
        ≡ true
  current-cached current rows n h =
      let rows' = upsert_all blake3 snapshot_id observed_at current rows in
      is_in-name_set n (map cached_name (map state_of rows'))
      ∙ is_in-find_row n rows'
      ∙ ap is_some (find_row-upsert_all blake3 snapshot_id observed_at n current rows)
      ∙ placed-is_some (last_of n current) (find_row n rows)
          (sym (is_in-last_of n current) ∙ sym (is_in-name_set n (map name_of current)) ∙ h)

-- `diff` has no addition and no modification, and all current names are unchanged.
pub record HasNoNews (current : List Observed) (diff : SnapshotDiff) : Type 0 where
  pub none_added : diff.added ≡ []
  pub none_modified : diff.modified ≡ []
  pub all_unchanged : diff.unchanged ≡ name_set (map name_of current)
  pub only_removed : changed_count diff ≡ length diff.removed

module _ (blake3 : Bytes → Bytes) (snapshot_id : Bytes) (observed_at now : ℕ) where
  diff_of-HasNoNews :
      (current : List Observed) (rows : Rows)
      → HasNoNews current
          (diff_of (map state_of (upsert_all blake3 snapshot_id observed_at current rows)) current)
  unfolding diff_of changed_count
  diff_of-HasNoNews current rows =
      let rows' = upsert_all blake3 snapshot_id observed_at current rows in
      let cached = name_set (map cached_name (map state_of rows')) in
      let names = name_set (map name_of current) in
      let known : All (λ n. is_in n cached ≡ true) names =
        All-is_in (λ n. is_in n cached ≡ true) names
          (current-cached blake3 snapshot_id observed_at current rows) in
      let unknown : All (λ n. not (is_in n cached) ≡ false) names =
        All-is_in (λ n. not (is_in n cached) ≡ false) names
          (λ n i. ap not (current-cached blake3 snapshot_id observed_at current rows n i)) in
      let no_added = keep-none (λ n. not (is_in n cached)) names unknown in
      record {
        none_added = no_added;
        none_modified = refl;
        all_unchanged = keep-All (λ n. is_in n cached) names known;
        only_removed = omega (arith, ap length no_added);
      }

  same_diff :
      {E : Type 0} (run : Outcome E SnapshotDiff × MirrorDb) (a b : SnapshotDiff) (s t : MirrorDb)
      → run ≡ (ok a, s)
      → run ≡ (ok b, t)
      → b ≡ a
  same_diff run a b s t h k = cc

  -- If the database serves all calls, then the diff that a run returns has no addition and no
  -- modification, whatever is new upstream: all current names are reported as unchanged, and what
  -- counts as changed are the removed names alone.
  pub mirror_tick-HasNoNews :
      (current : List Observed) (db db' : MirrorDb) (diff : SnapshotDiff)
      → IsUp db
      → mirror_tick blake3 snapshot_id observed_at now current db ≡ (ok diff, db')
      → HasNoNews current diff
  unfolding persisted
  mirror_tick-HasNoNews current db db' diff up returned =
      let (db'', e, _) = mirror_tick-swept blake3 snapshot_id observed_at now current db up in
      subst (HasNoNews current) (sym (same_diff _ _ diff db'' db' e returned))
        (diff_of-HasNoNews current db.rows)
