-- ===== src/Ingest/Diff.antt =====
-- What the diff of two snapshots says of them (`reconcile_snapshots` of
-- crates/rcx-registry-ingest/src/lib.rs), where the last entry of a name counts.
use mathlib.Core.List.{Memᴰ}
use mathlib.Core.Path.{subst}
use rcx_registry.Prelude.{
  ◌≡◌, ◌≢◌, ◌↔◌, refl, sym, ap, ◌∙◌, false, inl, inr, Option, none, some, List, [], ◌∷◌, ◌++◌,
  Bytes, bytes_eq, bytes_eq_refl, eq_of_bytes_eq, ne_of_bytes_eq, All, Bool-cases,
}
use rcx_registry.Crown.Hashing.{canonical_server_hash}
use rcx_registry.Ingest.{
  MirroredServer, SnapshotDiff, digest_entry_of, get_by_name, or_entry, Change, is_added,
  is_removed, is_modified, is_unchanged, is_absent, change_of, change_between, reconcile_snapshots,
}
use rcx_registry.Ingest.Ascending.{IsAscending, reconcile_snapshots-IsAscending}
use rcx_registry.Ingest.Reconcile.{listed, reconcile_snapshots-Reports}

-- No entry has the name.
abbrev pub IsMissing : Bytes → List MirroredServer → Type 0
IsMissing name es = All (λ e. e.name ≢ name) es

-- The last of the entries that have the name.
pub record IsLast (name : Bytes) (es : List MirroredServer) (e : MirroredServer) : Type 0 where
  pub front : List MirroredServer
  pub rest : List MirroredServer
  pub split : es ≡ front ++ e ∷ rest
  pub has_name : e.name ≡ name
  pub none_later : IsMissing name rest

equal_not : (n name : Bytes) → n ≢ name → bytes_eq n name ≡ false
equal_not n name h = elim (Bool-cases (bytes_eq n name)) [
  | inl y ↦ absurd (h (eq_of_bytes_eq n name y))
  | inr n ↦ n
]

-- What a search finds.
abbrev Found : Bytes → List MirroredServer → Option MirroredServer → Type 0
Found name es none = IsMissing name es
Found name es (some e) = IsLast name es e

found : (name : Bytes) (es : List MirroredServer) → Found name es (get_by_name name es)
unfolding get_by_name
found name [] = tt
found name (f ∷ es) = step (get_by_name name es) (found name es)
  where
    step : (o : Option MirroredServer) → Found name es o → Found name (f ∷ es) (or_entry name f o)
    step (some e) h = record {
      front = f ∷ h.front;
      rest = h.rest;
      split = ap (λ t. f ∷ t) h.split;
      has_name = h.has_name;
      none_later = h.none_later;
    }
    step none h = elim (Bool-cases (bytes_eq f.name name)) [
      | inl y ↦ rw y (record {
        front = [];
        rest = es;
        split = refl;
        has_name = eq_of_bytes_eq f.name name y;
        none_later = h;
      })
      | inr n ↦ rw n (ne_of_bytes_eq f.name name n, h)
    ]

get_by_name-IsMissing :
    (name : Bytes) (es : List MirroredServer) → IsMissing name es → get_by_name name es ≡ none
unfolding get_by_name
get_by_name-IsMissing name [] h = refl
get_by_name-IsMissing name (e ∷ es) (h, hs) =
    rw (get_by_name-IsMissing name es hs, equal_not e.name name h)

get_by_name-append :
    (name : Bytes) (front rest : List MirroredServer) (e : MirroredServer)
    → e.name ≡ name
    → IsMissing name rest
    → get_by_name name (front ++ e ∷ rest) ≡ some e
unfolding get_by_name
get_by_name-append name [] rest e h k =
    rw (get_by_name-IsMissing name rest k, h, bytes_eq_refl name)
get_by_name-append name (f ∷ front) rest e h k = rw (get_by_name-append name front rest e h k)

get_by_name-IsLast :
    (name : Bytes) (es : List MirroredServer) (e : MirroredServer)
    → IsLast name es e
    → get_by_name name es ≡ some e
get_by_name-IsLast name es e h =
    ap (get_by_name name) h.split ∙ get_by_name-append name h.front h.rest e h.has_name h.none_later

module _ (blake3 : Bytes → Bytes) (previous current : List MirroredServer) where
  -- The hash of an entry's content.
  abbrev pub hash_of : MirroredServer → Bytes
  hash_of e = canonical_server_hash blake3 (digest_entry_of e)

  -- What each list of a diff says of a name.
  abbrev pub IsNew : Bytes → Type 0
  IsNew name = IsMissing name previous × (c : MirroredServer) × IsLast name current c

  abbrev pub IsGone : Bytes → Type 0
  IsGone name = (p : MirroredServer) × IsLast name previous p × IsMissing name current

  abbrev pub IsChanged : Bytes → Type 0
  IsChanged name =
      (p : MirroredServer) × (c : MirroredServer) × IsLast name previous p
      × IsLast name current c
      × (hash_of p ≢ hash_of c)

  abbrev pub IsSame : Bytes → Type 0
  IsSame name =
      (p : MirroredServer) × (c : MirroredServer) × IsLast name previous p
      × IsLast name current c
      × (hash_of p ≡ hash_of c)

  -- What a change says of a name that a search finds.
  abbrev Says : Bytes → Change → Type 0
  Says name is_added = IsNew name
  Says name is_removed = IsGone name
  Says name is_modified = IsChanged name
  Says name is_unchanged = IsSame name
  Says name is_absent = Unit

  says :
      (name : Bytes) (o o' : Option MirroredServer)
      → Found name previous o
      → Found name current o'
      → Says name (change_of blake3 o o')
  unfolding change_of
  says name none (some c) h h' = (h, c, h')
  says name (some p) none h h' = (p, h, h')
  says name none none h h' = tt
  says name (some p) (some c) h h' = elim (Bool-cases (bytes_eq (hash_of p) (hash_of c))) [
    | inl y ↦ rw y (p, c, h, h', eq_of_bytes_eq (hash_of p) (hash_of c) y)
    | inr n ↦ rw n (p, c, h, h', ne_of_bytes_eq (hash_of p) (hash_of c) n)
  ]

  change-Says :
      (name : Bytes) (k : Change) → change_between blake3 previous current name ≡ k → Says name k
  change-Says name k e = subst (Says name) e (
      says name (get_by_name name previous) (get_by_name name current) (found name previous)
        (found name current))

  -- The converse.
  change_new : (name : Bytes) → IsNew name → change_between blake3 previous current name ≡ is_added
  unfolding change_of
  change_new name (m, c, h) =
      rw (get_by_name-IsMissing name previous m, get_by_name-IsLast name current c h)

  change_gone :
      (name : Bytes) → IsGone name → change_between blake3 previous current name ≡ is_removed
  unfolding change_of
  change_gone name (p, h, m) =
      rw (get_by_name-IsLast name previous p h, get_by_name-IsMissing name current m)

  change_changed :
      (name : Bytes) → IsChanged name → change_between blake3 previous current name ≡ is_modified
  unfolding change_of
  change_changed name (p, c, h, h', n) = rw (
    get_by_name-IsLast name previous p h,
    get_by_name-IsLast name current c h',
    equal_not (hash_of p) (hash_of c) n,
  )

  change_same :
      (name : Bytes) → IsSame name → change_between blake3 previous current name ≡ is_unchanged
  unfolding change_of
  change_same name (p, c, h, h', e) = rw (
    get_by_name-IsLast name previous p h,
    get_by_name-IsLast name current c h',
    e,
    bytes_eq_refl (hash_of c),
  )

  -- A diff of the two: each list has exactly the names that it speaks of, ascending and each once.
  pub record IsDiff (d : SnapshotDiff) : Type 0 where
    pub added_names : (name : Bytes) → Memᴰ name d.added ↔ IsNew name
    pub removed_names : (name : Bytes) → Memᴰ name d.removed ↔ IsGone name
    pub modified_names : (name : Bytes) → Memᴰ name d.modified ↔ IsChanged name
    pub unchanged_names : (name : Bytes) → Memᴰ name d.unchanged ↔ IsSame name
    pub ascending :
        IsAscending d.added
        × IsAscending d.removed
        × IsAscending d.modified
        × IsAscending d.unchanged

  in_list :
      (name : Bytes) (k : Change)
      → k ≢ is_absent
      → change_between blake3 previous current name ≡ k
      → Memᴰ name (listed k (reconcile_snapshots blake3 previous current))
  in_list name k h e =
      subst (λ k. Memᴰ name (listed k (reconcile_snapshots blake3 previous current))) e
        ((reconcile_snapshots-Reports blake3 previous current).1 name (λ a. h (sym e ∙ a)))

  -- In the diff of two snapshots, of which the last entry of a name counts, the names that were added
  -- are those that only the current one has, those removed the ones that only the previous one has, and
  -- of those that both have the unchanged ones are those whose entries have one hash, the modified ones
  -- those whose entries have two. Each list is ascending, without a name twice.
  pub reconcile_snapshots-IsDiff : IsDiff (reconcile_snapshots blake3 previous current)
  reconcile_snapshots-IsDiff =
      let r = (reconcile_snapshots-Reports blake3 previous current).0 in
      record {
        added_names = λ name. (
          (λ m. change-Says name is_added (r.added_names name m)),
          (λ h. in_list name is_added (λ e. cc) (change_new name h)),
        );
        removed_names = λ name. (
          (λ m. change-Says name is_removed (r.removed_names name m)),
          (λ h. in_list name is_removed (λ e. cc) (change_gone name h)),
        );
        modified_names = λ name. (
          (λ m. change-Says name is_modified (r.modified_names name m)),
          (λ h. in_list name is_modified (λ e. cc) (change_changed name h)),
        );
        unchanged_names = λ name. (
          (λ m. change-Says name is_unchanged (r.unchanged_names name m)),
          (λ h. in_list name is_unchanged (λ e. cc) (change_same name h)),
        );
        ascending =
            let a = reconcile_snapshots-IsAscending blake3 previous current in
            (a is_added, a is_removed, a is_modified, a is_unchanged);
      }
