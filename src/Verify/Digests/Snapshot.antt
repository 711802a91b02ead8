-- ===== src/Verify/Digests/Snapshot.antt =====
-- What `verify_snapshot` accepts.
use mathlib.Core.List.{Permᴰ}
use rcx_registry.Prelude.{
  ◌≡◌, ◌≢◌, sym, ◌∙◌, ◌⊎◌, inl, inr, List, Bytes, bytes_eq, eq_of_bytes_eq, ne_of_bytes_eq, All,
  Bool-cases, arith,
}
use rcx_registry.Prelude.Outcome.{ok}
use rcx_registry.Crown.Hashing.{SnapshotEntry, snapshot_preimage, snapshot_merkle_root}
use rcx_registry.Crown.Hashing.Framing.{IsFramed, snapshot_preimage-injective}
use rcx_registry.Verify.Digests.{verify_snapshot}

module _ (blake3 : Bytes → Bytes) where
  root_of_accepted :
      (es : List SnapshotEntry) (root : Bytes)
      → verify_snapshot blake3 es root ≡ ok tt
      → blake3 (snapshot_preimage es) ≡ root
  unfolding verify_snapshot snapshot_merkle_root
  root_of_accepted es root h = ground (arith, eq_of_bytes_eq (blake3 (snapshot_preimage es)) root)

  -- A collision of the hash.
  abbrev pub Collide : Bytes → Bytes → Type 0
  Collide xs ys = (xs ≢ ys) × (blake3 xs ≡ blake3 ys)

  -- If `verify_snapshot` accepts two snapshots under one root, and in both the names and versions hold
  -- no NUL byte and the JSON texts no byte 0xff, then the one is a rearrangement of the other, or their
  -- preimages are a collision of the hash.
  pub verify_snapshot-binding :
      (es fs : List SnapshotEntry) (root : Bytes)
      → All IsFramed es
      → All IsFramed fs
      → verify_snapshot blake3 es root ≡ ok tt
      → verify_snapshot blake3 fs root ≡ ok tt
      → Permᴰ es fs ⊎ Collide (snapshot_preimage es) (snapshot_preimage fs)
  verify_snapshot-binding es fs root h k ae af =
      elim (Bool-cases (bytes_eq (snapshot_preimage es) (snapshot_preimage fs))) [
        | inl y ↦ inl (snapshot_preimage-injective es fs h k (eq_of_bytes_eq _ _ y))
        | inr n ↦ inr (
          ne_of_bytes_eq (snapshot_preimage es) (snapshot_preimage fs) n,
          root_of_accepted es root ae ∙ sym (root_of_accepted fs root af),
        )
      ]
