-- ===== src/Ingest/Ascending.antt =====
-- The order of the names of a diff (`reconcile_snapshots` of crates/rcx-registry-ingest/src/lib.rs).
use mathlib.Core.Path.{subst}
use rcx_registry.Prelude.{
  ◌≡◌, ◌≢◌, refl, sym, true, inl, inr, List, [], ◌∷◌, Bytes, bytes_eq, ne_of_bytes_eq, lex_le,
  lex_le_total, lex_le_antisymm, lex_le_trans, All, Bool-cases,
}
use rcx_registry.Ingest.{
  MirroredServer, Change, add_name, add_names, change_between, diff_names, reconcile_snapshots,
  is_added, is_removed, is_modified, is_unchanged, is_absent,
}
use rcx_registry.Ingest.Reconcile.{listed, listed-push_name}

-- A name that comes before another.
abbrev pub IsAhead : Bytes → Bytes → Type 0
IsAhead n m = (lex_le n m ≡ true) × (n ≢ m)

abbrev pub IsAscending : List Bytes → Type 0
IsAscending [] = Unit
IsAscending (n ∷ ns) = All (IsAhead n) ns × IsAscending ns

IsAhead-trans : (a b c : Bytes) → IsAhead a b → IsAhead b c → IsAhead a c
IsAhead-trans a b c (h, n) (k, m) =
    (lex_le_trans a b c h k, λ e. m (lex_le_antisymm b c k (subst (λ x. lex_le x b ≡ true) e h)))

behind : (a b : Bytes) → IsAhead a b → (ns : List Bytes) → All (IsAhead b) ns → All (IsAhead a) ns
behind a b h [] k = tt
behind a b h (n ∷ ns) (k, ks) = (IsAhead-trans a b n h k, behind a b h ns ks)

All-add_name :
    (P : Bytes → Type 0) (name : Bytes) (ns : List Bytes)
    → P name
    → All P ns
    → All P (add_name name ns)
unfolding add_name
All-add_name P name [] p h = (p, tt)
All-add_name P name (n ∷ ns) p (h, hs) = elim (Bool-cases (bytes_eq name n)) [
  | inl y ↦ rw y (h, hs)
  | inr e ↦ elim (Bool-cases (lex_le name n)) [
    | inl l ↦ rw (e, l) (p, (h, hs))
    | inr l ↦ rw (e, l) (h, All-add_name P name ns p hs)
  ]
]

add_name-IsAscending :
    (name : Bytes) (ns : List Bytes) → IsAscending ns → IsAscending (add_name name ns)
unfolding add_name
add_name-IsAscending name [] h = (tt, tt)
add_name-IsAscending name (n ∷ ns) (h, hs) = elim (Bool-cases (bytes_eq name n)) [
  | inl y ↦ rw y (h, hs)
  | inr e ↦ elim (Bool-cases (lex_le name n)) [
    | inl l ↦
        let a : IsAhead name n = (l, ne_of_bytes_eq name n e) in
        rw (e, l) ((a, behind name n a ns h), (h, hs))
    | inr l ↦
        let a : IsAhead n name = (lex_le_total name n l, λ p. ne_of_bytes_eq name n e (sym p)) in
        rw (e, l) (All-add_name (IsAhead n) name ns a h, add_name-IsAscending name ns hs)
  ]
]

add_names-IsAscending :
    (es : List MirroredServer) (ns : List Bytes) → IsAscending ns → IsAscending (add_names es ns)
unfolding add_names
add_names-IsAscending [] ns h = h
add_names-IsAscending (e ∷ es) ns h =
    add_name-IsAscending e.name (add_names es ns) (add_names-IsAscending es ns h)

none_listed :
    (k : Change)
    → listed k (record { added = []; removed = []; modified = []; unchanged = [] }) ≡ []
none_listed is_added = refl
none_listed is_removed = refl
none_listed is_modified = refl
none_listed is_unchanged = refl
none_listed is_absent = refl

All-diff_names :
    (P : Bytes → Type 0) (change : Bytes → Change) (k : Change) (ns : List Bytes)
    → All P ns
    → All P (listed k (diff_names change ns))
unfolding diff_names
All-diff_names P change k [] h = subst (All P) (sym (none_listed k)) tt
All-diff_names P change k (n ∷ ns) (h, hs) =
    elim (listed-push_name k (change n) n (diff_names change ns)) [
      | inl e ↦ subst (All P) (sym e) (h, All-diff_names P change k ns hs)
      | inr e ↦ subst (All P) (sym e) (All-diff_names P change k ns hs)
    ]

diff_names-IsAscending :
    (change : Bytes → Change) (k : Change) (ns : List Bytes)
    → IsAscending ns
    → IsAscending (listed k (diff_names change ns))
unfolding diff_names
diff_names-IsAscending change k [] h = subst IsAscending (sym (none_listed k)) tt
diff_names-IsAscending change k (n ∷ ns) (h, hs) =
    elim (listed-push_name k (change n) n (diff_names change ns)) [
      | inl e ↦
          subst IsAscending (sym e)
            (All-diff_names (IsAhead n) change k ns h, diff_names-IsAscending change k ns hs)
      | inr e ↦ subst IsAscending (sym e) (diff_names-IsAscending change k ns hs)
    ]

-- The names of each list of a diff are ascending.
pub reconcile_snapshots-IsAscending :
    (blake3 : Bytes → Bytes) (previous current : List MirroredServer) (k : Change)
    → IsAscending (listed k (reconcile_snapshots blake3 previous current))
unfolding reconcile_snapshots
reconcile_snapshots-IsAscending blake3 previous current k =
    diff_names-IsAscending (change_between blake3 previous current) k _
      (add_names-IsAscending previous _ (add_names-IsAscending current [] tt))
