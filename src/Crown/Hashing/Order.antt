-- ===== src/Crown/Hashing/Order.antt =====
-- The order of the entries in `snapshot_merkle_root` (hashing.rs).
use mathlib.Core.List.{Memᴰ, Permᴰ}
use rcx_registry.Prelude.{
  ◌≡◌, ap, true, false, List, Bytes, lex_le_total, lex_le_trans, lex_le_antisymm, eq_of_bytes_eq,
  bytes_eq_refl, bytes_eq_comm, IsOrder, TellsApart, sort_by-perm, arith, map, concat,
}
use rcx_registry.Crown.Hashing.{
  SnapshotEntry, entry_order, entry_frame, snapshot_preimage, snapshot_merkle_root,
}

entry_order_total : (a b : SnapshotEntry) → entry_order a b ≡ false → entry_order b a ≡ true
unfolding entry_order
entry_order_total a b h = ground (
  arith,
  lex_le_total a.version b.version,
  lex_le_total a.name b.name,
  bytes_eq_comm a.name b.name,
)

entry_order_trans :
    (a b c : SnapshotEntry)
    → entry_order a b ≡ true
    → entry_order b c ≡ true
    → entry_order a c ≡ true
unfolding entry_order
entry_order_trans a b c h k = ground (
  arith,
  lex_le_trans a.version b.version c.version,
  lex_le_trans a.name b.name c.name,
  eq_of_bytes_eq a.name b.name,
  eq_of_bytes_eq b.name c.name,
  eq_of_bytes_eq a.name c.name,
  lex_le_antisymm a.name b.name,
  bytes_eq_refl a.name,
)

pub entry_order-IsOrder : IsOrder entry_order
entry_order-IsOrder = record { total = entry_order_total; trans = entry_order_trans }

-- Entries that are not told apart have one name and one version.
pub entry_order_antisymm :
    (a b : SnapshotEntry)
    → entry_order a b ≡ true
    → entry_order b a ≡ true
    → (a.name ≡ b.name) × (a.version ≡ b.version)
unfolding entry_order
entry_order_antisymm a b h k = ground (
  arith,
  lex_le_antisymm a.version b.version,
  lex_le_antisymm a.name b.name,
  eq_of_bytes_eq a.name b.name,
  bytes_eq_comm a.name b.name,
  bytes_eq_refl a.name,
)

-- Any two entries of one name and version are the same.
abbrev pub IsFunctional : List SnapshotEntry → Type 0
IsFunctional es =
    (a b : SnapshotEntry) → Memᴰ a es → Memᴰ b es → a.name ≡ b.name → a.version ≡ b.version → a ≡ b

TellsApart-of_IsFunctional : (es : List SnapshotEntry) → IsFunctional es → TellsApart entry_order es
TellsApart-of_IsFunctional es f a b ma mb h k =
    let (n, v) = entry_order_antisymm a b h k in f a b ma mb n v

-- If no two different entries of a snapshot have one name and version, then the root of the snapshot
-- is the root of every rearrangement of it, whatever the hash is.
pub snapshot_merkle_root-perm :
    (blake3 : Bytes → Bytes) {es fs : List SnapshotEntry}
    → Permᴰ es fs
    → IsFunctional es
    → snapshot_merkle_root blake3 es ≡ snapshot_merkle_root blake3 fs
unfolding snapshot_merkle_root snapshot_preimage
snapshot_merkle_root-perm blake3 {es} p f =
    ap (λ sorted. blake3 (concat (map entry_frame sorted)))
      (sort_by-perm entry_order entry_order-IsOrder p (TellsApart-of_IsFunctional es f))
