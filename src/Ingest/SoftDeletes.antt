-- ===== src/Ingest/SoftDeletes.antt =====
-- `reconcile_soft_deletes` and `next_run_at` (crates/rcx-registry-ingest/src/lib.rs).
use mathlib.Core.List.{Memᴰ}
use rcx_registry.Prelude.{
  ℕ, ◌+◌, ◌-◌, ◌<◌, ◌≤◌, ◌≡◌, refl, false, inl, inr, Option, none, some, List, [], ◌∷◌, Bytes, leb,
  Bool-cases, arith,
}
use rcx_registry.Ingest.{
  MirroredServer, SnapshotDiff, changed_count, CachedServerState, SoftDeletePlan, is_current,
  plan_entry, reconcile_soft_deletes, SyncCadencePolicy, max_system_time, next_run_at,
}

module _ (current : List MirroredServer) (now retention : ℕ) where
  -- A cached server that is not among the current ones, with its time of deletion.
  pub record IsGone (cached : List CachedServerState) (name : Bytes) (deleted_at : Option ℕ)
      : Type 0 where
    pub entry : CachedServerState
    pub is_cached : Memᴰ entry cached
    pub same_name : entry.name ≡ name
    pub not_current : is_current entry.name current ≡ false
    pub deleted : entry.deleted_upstream_at ≡ deleted_at

  -- Every name of a plan is that of such a server: one that is marked was not yet deleted, one that is
  -- retained was deleted for less than the retention, and one that is evicted for at least that.
  pub record IsPlan (cached : List CachedServerState) (plan : SoftDeletePlan) : Type 0 where
    pub marked : (name : Bytes) → Memᴰ name plan.mark_deleted → IsGone cached name none
    pub retained :
        (name : Bytes)
        → Memᴰ name plan.retain_deleted
        → (t : ℕ) × IsGone cached name (some t) × (now - t < retention)
    pub evicted :
        (name : Bytes)
        → Memᴰ name plan.evict
        → (t : ℕ) × IsGone cached name (some t) × (retention ≤ now - t)

  later :
      (e : CachedServerState) (cached : List CachedServerState) (name : Bytes) (o : Option ℕ)
      → IsGone cached name o
      → IsGone (e ∷ cached) name o
  later e cached name o g = record {
    entry = g.entry;
    is_cached = Memᴰ.tail g.is_cached;
    same_name = g.same_name;
    not_current = g.not_current;
    deleted = g.deleted;
  }

  later-IsPlan :
      (e : CachedServerState) (cached : List CachedServerState) (plan : SoftDeletePlan)
      → IsPlan cached plan
      → IsPlan (e ∷ cached) plan
  later-IsPlan e cached plan s = record {
    marked = λ name m. later e cached name none (s.marked name m);
    retained =
        λ name m. let (t, g, l) = s.retained name m in (t, later e cached name (some t) g, l);
    evicted = λ name m. let (t, g, l) = s.evicted name m in (t, later e cached name (some t) g, l);
  }

  -- a list with one more name
  pushed :
      (P : Bytes → Type 0) (n : Bytes) (ns : List Bytes)
      → P n
      → ((name : Bytes) → Memᴰ name ns → P name)
      → (name : Bytes) → Memᴰ name (n ∷ ns)
      → P name
  pushed P n ns p f name (Memᴰ.head e) = rw e p
  pushed P n ns p f name (Memᴰ.tail m) = f name m

  plan_entry-IsPlan :
      (cached : List CachedServerState) (name : Bytes) (o : Option ℕ) (plan : SoftDeletePlan)
      → IsGone cached name o
      → IsPlan cached plan
      → IsPlan cached (plan_entry name now retention o plan)
  plan_entry-IsPlan cached name none plan g s = record {
    marked = pushed (λ n. IsGone cached n none) name plan.mark_deleted g s.marked;
    retained = s.retained;
    evicted = s.evicted;
  }
  plan_entry-IsPlan cached name (some t) plan g s = elim (Bool-cases (leb retention (now - t))) [
    | inl y ↦ rw y (record {
      marked = s.marked;
      retained = s.retained;
      evicted =
          pushed (λ n. (t : ℕ) × IsGone cached n (some t) × (retention ≤ now - t)) name plan.evict
            (t, g, ground arith) s.evicted;
    })
    | inr n ↦ rw n (record {
      marked = s.marked;
      retained =
          pushed (λ n. (t : ℕ) × IsGone cached n (some t) × (now - t < retention)) name
            plan.retain_deleted (t, g, ground arith) s.retained;
      evicted = s.evicted;
    })
  ]

  -- Every name that `reconcile_soft_deletes` plans for is that of a cached server that is not among the
  -- current ones; what is marked was not deleted yet, what is retained was deleted for less than the
  -- retention, and what is evicted was deleted for at least the retention.
  pub reconcile_soft_deletes-IsPlan :
      (cached : List CachedServerState)
      → IsPlan cached (reconcile_soft_deletes cached current now retention)
  unfolding reconcile_soft_deletes
  reconcile_soft_deletes-IsPlan [] = record {
    marked = λ name m. elim m [ ];
    retained = λ name m. elim m [ ];
    evicted = λ name m. elim m [ ];
  }
  reconcile_soft_deletes-IsPlan (e ∷ cached) =
      let plan = reconcile_soft_deletes cached current now retention in
      let s = later-IsPlan e cached plan (reconcile_soft_deletes-IsPlan cached) in
      elim (Bool-cases (is_current e.name current)) [
        | inl y ↦ rw y s
        | inr n ↦ rw n (
            plan_entry-IsPlan (e ∷ cached) e.name e.deleted_upstream_at plan
              (record {
                entry = e;
                is_cached = Memᴰ.head refl;
                same_name = refl;
                not_current = n;
                deleted = refl;
              })
              s)
      ]

-- The next run is never due before the floor; if more changed than the threshold, it is not due before
-- the delay of a burst, and otherwise not before the target.
pub next_run_at-max :
    (policy : SyncCadencePolicy) (last_success : ℕ) (diff : SnapshotDiff)
    → (last_success + policy.min_interval_floor ≤ next_run_at policy last_success diff)
      × (policy.burst_change_threshold < changed_count diff
          → last_success + policy.burst_follow_up_delay ≤ next_run_at policy last_success diff)
      × (changed_count diff ≤ policy.burst_change_threshold
          → last_success + policy.target_interval ≤ next_run_at policy last_success diff)
unfolding next_run_at max_system_time
next_run_at-max policy last_success diff = (ground arith, λ h. ground arith, λ h. ground arith)
