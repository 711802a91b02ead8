-- ===== src/Crown/Hashing.antt =====
-- The hash inputs of crates/rcx-registry-crown/src/hashing.rs. A hasher is the bytes that it was given
-- so far; the digest of them is BLAKE3's, a parameter.
pub mod Order
pub mod Framing
pub mod Rendering
use rcx_registry.Prelude.{
  ℕ, Bool, true, false, List, [], ◌∷◌, ◌++◌, map, Bytes, codes, bytes_eq, lex_le, sort_by, concat,
  if◌then◌else◌,
}
use rcx_registry.Crown.Json.{
  JsonText, Json, null, bool, number, string, array, object, JsonItems, no_items, item, Members,
  no_members, member,
}

pub record SnapshotEntry : Type 0 where
  pub name : Bytes
  pub version : Bytes
  pub canonical_json : Bytes

-- `[…].join(",")`
unfoldable pub join_commas : List Bytes → Bytes
join_commas [] = []
join_commas (x ∷ []) = x
join_commas (x ∷ y ∷ ys) = x ++ b',' ∷ join_commas (y ∷ ys)

abbrev pub rendered_le : Bytes × Bytes → Bytes × Bytes → Bool
rendered_le a b = lex_le a.0 b.0

-- the rendering alone
abbrev pub rendering : Bytes × Bytes → Bytes
rendering a = a.1

-- The keys are sorted and each is looked up. Since the keys of an object are distinct, the look-up
-- finds the member that the key came from, and the members are sorted by their keys.
module _ (t : JsonText) where
  unfoldable mutual
    pub canonicalize_json : Json → Bytes
    canonicalize_json null = codes "null"
    canonicalize_json (bool true) = codes "true"
    canonicalize_json (bool false) = codes "false"
    canonicalize_json (number n) = t.number_text n
    canonicalize_json (string s) = t.quote s
    canonicalize_json (array xs) = b'[' ∷ (join_commas (canonicalize_items xs) ++ b']' ∷ [])
    canonicalize_json (object ms) =
        b'{'
        ∷ (join_commas (map rendering (sort_by rendered_le (canonicalize_members ms))) ++ b'}' ∷ [])

    pub canonicalize_items : JsonItems → List Bytes
    canonicalize_items no_items = []
    canonicalize_items (item v xs) = canonicalize_json v ∷ canonicalize_items xs

    -- each key beside `"key":value`
    pub canonicalize_members : Members → List (Bytes × Bytes)
    canonicalize_members no_members = []
    canonicalize_members (member k v ms) =
        (k, t.quote k ++ b':' ∷ canonicalize_json v) ∷ canonicalize_members ms

-- by the name, then by the version
unfoldable pub entry_order : SnapshotEntry → SnapshotEntry → Bool
entry_order a b =
    if bytes_eq a.name b.name then lex_le a.version b.version else lex_le a.name b.name

-- what the hasher of a server is given
unfoldable pub server_frame : SnapshotEntry → Bytes
server_frame e = e.name ++ 0 ∷ (e.version ++ 0 ∷ e.canonical_json)

-- what the hasher of a snapshot is given for an entry
unfoldable pub entry_frame : SnapshotEntry → Bytes
entry_frame e = e.name ++ 0 ∷ (e.version ++ 0 ∷ (e.canonical_json ++ 0xff ∷ []))

unfoldable pub snapshot_preimage : List SnapshotEntry → Bytes
snapshot_preimage entries = concat (map entry_frame (sort_by entry_order entries))

module _ (blake3 : Bytes → Bytes) where
  unfoldable pub snapshot_merkle_root : List SnapshotEntry → Bytes
  snapshot_merkle_root entries = blake3 (snapshot_preimage entries)

  unfoldable pub canonical_server_hash : SnapshotEntry → Bytes
  canonical_server_hash e = blake3 (server_frame e)

  unfoldable pub declaration_hash : JsonText → Json → Bytes × Bytes
  declaration_hash t v =
      let canonical_json = canonicalize_json t v in (blake3 canonical_json, canonical_json)
