-- ===== src/Examples/Digests.antt =====
-- Snapshots and declarations.
use mathlib.Core.List.{Permᴰ, Memᴰ}
use rcx_registry.Prelude.{
  ◌≡◌, ◌↔◌, ◌⊎◌, refl, Option, some, [], ◌∷◌, ◌++◌, Bytes, codes, bytes_eq, sym, ◌∙◌, insert,
  lex_le, sort_by, arith,
}
use rcx_registry.Prelude.Outcome.{ok}
use rcx_registry.Crown.Json.{JsonText, Json, string, object, Members, no_members, member}
use rcx_registry.Crown.Hashing.{
  SnapshotEntry, entry_order, entry_frame, snapshot_preimage, snapshot_merkle_root,
  canonicalize_json,
}
use rcx_registry.Crown.Hashing.Order.{IsFunctional, snapshot_merkle_root-perm}
use rcx_registry.Crown.Hashing.Framing.{IsFramed, snapshot_preimage-injective}
use rcx_registry.Crown.Hashing.Rendering.{HasDistinctKeys, canonicalize_json-perm}
use rcx_registry.Verify.Digests.{verify_snapshot, verify_namespace}
use rcx_registry.Verify.Digests.Snapshot.{Collide, verify_snapshot-binding}
use rcx_registry.Verify.Digests.Namespace.{IsClaim, verify_namespace_iff}
use rcx_registry.Examples.Toy.{toy_blake3}

abbrev first_entry : SnapshotEntry
first_entry = record { name = codes "a"; version = codes "1"; canonical_json = codes "{}" }

abbrev second_entry : SnapshotEntry
second_entry = record { name = codes "b"; version = codes "2"; canonical_json = codes "{}" }

first_entry-IsFramed : IsFramed first_entry
first_entry-IsFramed = (
  (λ e. absurd (omega arith), tt),
  (λ e. absurd (omega arith), tt),
  (λ e. absurd (omega arith), (λ e. absurd (omega arith), tt)),
)

second_entry-IsFramed : IsFramed second_entry
second_entry-IsFramed = (
  (λ e. absurd (omega arith), tt),
  (λ e. absurd (omega arith), tt),
  (λ e. absurd (omega arith), (λ e. absurd (omega arith), tt)),
)

entries-IsFunctional : IsFunctional (second_entry ∷ first_entry ∷ [])
entries-IsFunctional a b (Memᴰ.head p) (Memᴰ.head q) n v = p ∙ sym q
entries-IsFunctional a b (Memᴰ.head p) (Memᴰ.tail (Memᴰ.head q)) n v = cc
entries-IsFunctional a b (Memᴰ.head p) (Memᴰ.tail (Memᴰ.tail m)) n v = elim m [ ]
entries-IsFunctional a b (Memᴰ.tail (Memᴰ.head p)) (Memᴰ.head q) n v = cc
entries-IsFunctional a b (Memᴰ.tail (Memᴰ.head p)) (Memᴰ.tail (Memᴰ.head q)) n v = p ∙ sym q
entries-IsFunctional a b (Memᴰ.tail (Memᴰ.head p)) (Memᴰ.tail (Memᴰ.tail m)) n v = elim m [ ]
entries-IsFunctional a b (Memᴰ.tail (Memᴰ.tail m)) mb n v = elim m [ ]

swapped : Permᴰ (second_entry ∷ first_entry ∷ []) (first_entry ∷ second_entry ∷ [])
swapped = Permᴰ.swap refl refl

snapshot_merkle_root-perm_example :
    snapshot_merkle_root toy_blake3 (second_entry ∷ first_entry ∷ [])
    ≡ snapshot_merkle_root toy_blake3 (first_entry ∷ second_entry ∷ [])
snapshot_merkle_root-perm_example =
    snapshot_merkle_root-perm toy_blake3 swapped entries-IsFunctional

snapshot_preimage-injective_example :
    Permᴰ (second_entry ∷ first_entry ∷ []) (first_entry ∷ second_entry ∷ [])
unfolding snapshot_preimage sort_by insert entry_order entry_frame bytes_eq lex_le
snapshot_preimage-injective_example =
    snapshot_preimage-injective (second_entry ∷ first_entry ∷ []) (first_entry ∷ second_entry ∷ [])
      (second_entry-IsFramed, (first_entry-IsFramed, tt))
      (first_entry-IsFramed, (second_entry-IsFramed, tt)) refl

abbrev both_root : Bytes
both_root = snapshot_merkle_root toy_blake3 (first_entry ∷ second_entry ∷ [])

verify_snapshot-binding_example :
    Permᴰ (second_entry ∷ first_entry ∷ []) (first_entry ∷ second_entry ∷ [])
    ⊎ Collide toy_blake3
        (snapshot_preimage (second_entry ∷ first_entry ∷ []))
        (snapshot_preimage (first_entry ∷ second_entry ∷ []))
unfolding verify_snapshot snapshot_merkle_root snapshot_preimage sort_by insert entry_order
    entry_frame bytes_eq lex_le
verify_snapshot-binding_example =
    verify_snapshot-binding toy_blake3 (second_entry ∷ first_entry ∷ [])
      (first_entry ∷ second_entry ∷ []) both_root
      (second_entry-IsFramed, (first_entry-IsFramed, tt))
      (first_entry-IsFramed, (second_entry-IsFramed, tt)) refl refl

-- numbers are not printed, and strings are quoted as they are
abbrev toy_text : JsonText
toy_text = record { number_text = λ n. []; quote = λ s. b'"' ∷ (s ++ b'"' ∷ []) }

abbrev declared : Members
declared =
    member (codes "mcp_name") (string (codes "io.x"))
      (member (codes "by") (string (codes "p_1")) no_members)

abbrev declared_swapped : Members
declared_swapped =
    member (codes "by") (string (codes "p_1"))
      (member (codes "mcp_name") (string (codes "io.x")) no_members)

-- a parser that takes every text for the declaration
abbrev toy_from_str : Bytes → Option Json
toy_from_str text = some (object declared)

abbrev declared_hash : Bytes
declared_hash = toy_blake3 (canonicalize_json toy_text (object declared))

verify_namespace_iff_example :
    (verify_namespace toy_blake3 toy_text toy_from_str (codes "{}") declared_hash (codes "io.x")
      ≡ ok tt)
    ↔ IsClaim toy_blake3 toy_text toy_from_str (codes "{}") declared_hash (codes "io.x")
verify_namespace_iff_example =
    verify_namespace_iff toy_blake3 toy_text toy_from_str (codes "{}") declared_hash (codes "io.x")

declared-HasDistinctKeys : HasDistinctKeys declared
declared-HasDistinctKeys a b (Memᴰ.head p) (Memᴰ.head q) k = p ∙ sym q
declared-HasDistinctKeys a b (Memᴰ.head p) (Memᴰ.tail (Memᴰ.head q)) k = cc
declared-HasDistinctKeys a b (Memᴰ.head p) (Memᴰ.tail (Memᴰ.tail m)) k = elim m [ ]
declared-HasDistinctKeys a b (Memᴰ.tail (Memᴰ.head p)) (Memᴰ.head q) k = cc
declared-HasDistinctKeys a b (Memᴰ.tail (Memᴰ.head p)) (Memᴰ.tail (Memᴰ.head q)) k = p ∙ sym q
declared-HasDistinctKeys a b (Memᴰ.tail (Memᴰ.head p)) (Memᴰ.tail (Memᴰ.tail m)) k = elim m [ ]
declared-HasDistinctKeys a b (Memᴰ.tail (Memᴰ.tail m)) mb k = elim m [ ]

canonicalize_json-perm_example :
    canonicalize_json toy_text (object declared)
    ≡ canonicalize_json toy_text (object declared_swapped)
canonicalize_json-perm_example =
    canonicalize_json-perm toy_text declared declared_swapped (Permᴰ.swap refl refl)
      declared-HasDistinctKeys
