-- ===== src/Ingest/Reconcile.antt =====
-- `reconcile_snapshots` (crates/rcx-registry-ingest/src/lib.rs).
use mathlib.Core.List.{Memᴰ}
use mathlib.Core.Path.{subst}
use rcx_registry.Prelude.{
  ◌≡◌, ◌≢◌, ◌⊎◌, refl, sym, ap, ◌∙◌, inl, inr, Option, none, some, List, [], ◌∷◌, Bytes, bytes_eq,
  eq_of_bytes_eq, lex_le, Bool-cases, arith,
}
use rcx_registry.Ingest.{
  MirroredServer, SnapshotDiff, get_by_name, or_entry, add_name, add_names, Change, is_added,
  is_removed, is_modified, is_unchanged, is_absent, change_of, push_name, diff_names,
  change_between, reconcile_snapshots,
}

-- the list of a diff for a change
abbrev pub listed : Change → SnapshotDiff → List Bytes
listed is_added d = d.added
listed is_removed d = d.removed
listed is_modified d = d.modified
listed is_unchanged d = d.unchanged
listed is_absent d = []

Mem-add_name : (name : Bytes) (ns : List Bytes) → Memᴰ name (add_name name ns)
unfolding add_name
Mem-add_name name [] = Memᴰ.head refl
Mem-add_name name (n ∷ ns) = elim (Bool-cases (bytes_eq name n)) [
  | inl y ↦ rw y (Memᴰ.head (eq_of_bytes_eq name n y))
  | inr e ↦ elim (Bool-cases (lex_le name n)) [
    | inl l ↦ rw (e, l) (Memᴰ.head refl)
    | inr l ↦ rw (e, l) (Memᴰ.tail (Mem-add_name name ns))
  ]
]

kept_head :
    (name n : Bytes) (ns rest : List Bytes)
    → (Memᴰ name ns → Memᴰ name rest)
    → Memᴰ name (n ∷ ns)
    → Memᴰ name (n ∷ rest)
kept_head name n ns rest f (Memᴰ.head e) = Memᴰ.head e
kept_head name n ns rest f (Memᴰ.tail m) = Memᴰ.tail (f m)

Mem-add_name_other :
    (name other : Bytes) (ns : List Bytes) → Memᴰ name ns → Memᴰ name (add_name other ns)
unfolding add_name
Mem-add_name_other name other [] m = elim m [ ]
Mem-add_name_other name other (n ∷ ns) m = elim (Bool-cases (bytes_eq other n)) [
  | inl y ↦ rw y m
  | inr e ↦ elim (Bool-cases (lex_le other n)) [
    | inl l ↦ rw (e, l) (Memᴰ.tail m)
    | inr l ↦
        rw (e, l) (kept_head name n ns (add_name other ns) (Mem-add_name_other name other ns) m)
  ]
]

Mem-add_names_other :
    (name : Bytes) (es : List MirroredServer) (ns : List Bytes)
    → Memᴰ name ns
    → Memᴰ name (add_names es ns)
unfolding add_names
Mem-add_names_other name [] ns m = m
Mem-add_names_other name (e ∷ es) ns m =
    Mem-add_name_other name e.name (add_names es ns) (Mem-add_names_other name es ns m)

or_entry_found :
    (name : Bytes) (e : MirroredServer) (o : Option MirroredServer) (ns : List Bytes)
    → ((f : MirroredServer) → o ≡ some f → Memᴰ name ns)
    → (f : MirroredServer) → or_entry name e o ≡ some f
    → Memᴰ name (add_name e.name ns)
or_entry_found name e (some g) ns rec f h = Mem-add_name_other name e.name ns (rec g refl)
or_entry_found name e none ns rec f h = elim (Bool-cases (bytes_eq e.name name)) [
  | inl y ↦ rw (eq_of_bytes_eq e.name name y) (Mem-add_name name ns)
  | inr n ↦ absurd (ground arith)
]

-- A name that has an entry is among the names.
Mem-add_names :
    (name : Bytes) (es : List MirroredServer) (ns : List Bytes) (e : MirroredServer)
    → get_by_name name es ≡ some e
    → Memᴰ name (add_names es ns)
unfolding get_by_name add_names
Mem-add_names name [] ns e h = cc
Mem-add_names name (f ∷ es) ns e h =
    or_entry_found name f (get_by_name name es) (add_names es ns) (Mem-add_names name es ns) e h

-- Each list of a diff has names of its change alone.
pub record Reports (change : Bytes → Change) (d : SnapshotDiff) : Type 0 where
  pub added_names : (name : Bytes) → Memᴰ name d.added → change name ≡ is_added
  pub removed_names : (name : Bytes) → Memᴰ name d.removed → change name ≡ is_removed
  pub modified_names : (name : Bytes) → Memᴰ name d.modified → change name ≡ is_modified
  pub unchanged_names : (name : Bytes) → Memᴰ name d.unchanged → change name ≡ is_unchanged

pushed :
    (change : Bytes → Change) (c : Change) (n : Bytes) (ns : List Bytes)
    → change n ≡ c
    → ((name : Bytes) → Memᴰ name ns → change name ≡ c)
    → (name : Bytes) → Memᴰ name (n ∷ ns)
    → change name ≡ c
pushed change c n ns e f name (Memᴰ.head p) = ap change p ∙ e
pushed change c n ns e f name (Memᴰ.tail m) = f name m

push_name-Reports :
    (change : Bytes → Change) (c : Change) (n : Bytes) (d : SnapshotDiff)
    → change n ≡ c
    → Reports change d
    → Reports change (push_name n c d)
push_name-Reports change is_added n d e r = record {
  added_names = pushed change is_added n d.added e r.added_names;
  removed_names = r.removed_names;
  modified_names = r.modified_names;
  unchanged_names = r.unchanged_names;
}
push_name-Reports change is_removed n d e r = record {
  added_names = r.added_names;
  removed_names = pushed change is_removed n d.removed e r.removed_names;
  modified_names = r.modified_names;
  unchanged_names = r.unchanged_names;
}
push_name-Reports change is_modified n d e r = record {
  added_names = r.added_names;
  removed_names = r.removed_names;
  modified_names = pushed change is_modified n d.modified e r.modified_names;
  unchanged_names = r.unchanged_names;
}
push_name-Reports change is_unchanged n d e r = record {
  added_names = r.added_names;
  removed_names = r.removed_names;
  modified_names = r.modified_names;
  unchanged_names = pushed change is_unchanged n d.unchanged e r.unchanged_names;
}
push_name-Reports change is_absent n d e r = r

diff_names-Reports :
    (change : Bytes → Change) (ns : List Bytes) → Reports change (diff_names change ns)
unfolding diff_names
diff_names-Reports change [] = record {
  added_names = λ name m. elim m [ ];
  removed_names = λ name m. elim m [ ];
  modified_names = λ name m. elim m [ ];
  unchanged_names = λ name m. elim m [ ];
}
diff_names-Reports change (n ∷ ns) =
    push_name-Reports change (change n) n (diff_names change ns) refl (diff_names-Reports change ns)

-- A list gets the name or stays as it is.
pub listed-push_name :
    (c c' : Change) (n : Bytes) (d : SnapshotDiff)
    → (listed c (push_name n c' d) ≡ n ∷ listed c d) ⊎ (listed c (push_name n c' d) ≡ listed c d)
listed-push_name is_added is_added n d = inl refl
listed-push_name is_removed is_added n d = inr refl
listed-push_name is_modified is_added n d = inr refl
listed-push_name is_unchanged is_added n d = inr refl
listed-push_name is_added is_removed n d = inr refl
listed-push_name is_removed is_removed n d = inl refl
listed-push_name is_modified is_removed n d = inr refl
listed-push_name is_unchanged is_removed n d = inr refl
listed-push_name is_added is_modified n d = inr refl
listed-push_name is_removed is_modified n d = inr refl
listed-push_name is_modified is_modified n d = inl refl
listed-push_name is_unchanged is_modified n d = inr refl
listed-push_name is_added is_unchanged n d = inr refl
listed-push_name is_removed is_unchanged n d = inr refl
listed-push_name is_modified is_unchanged n d = inr refl
listed-push_name is_unchanged is_unchanged n d = inl refl
listed-push_name c is_absent n d = inr refl
listed-push_name is_absent c' n d = inr refl

-- Pushing a name keeps what every list has.
push_name-listed :
    (c c' : Change) (n name : Bytes) (d : SnapshotDiff)
    → Memᴰ name (listed c d)
    → Memᴰ name (listed c (push_name n c' d))
push_name-listed c c' n name d m = elim (listed-push_name c c' n d) [
  | inl e ↦ subst (Memᴰ name) (sym e) (Memᴰ.tail m)
  | inr e ↦ subst (Memᴰ name) (sym e) m
]

push_name-itself :
    (c : Change) (n : Bytes) (d : SnapshotDiff)
    → c ≢ is_absent
    → Memᴰ n (listed c (push_name n c d))
push_name-itself is_added n d h = Memᴰ.head refl
push_name-itself is_removed n d h = Memᴰ.head refl
push_name-itself is_modified n d h = Memᴰ.head refl
push_name-itself is_unchanged n d h = Memᴰ.head refl
push_name-itself is_absent n d h = absurd (h refl)

diff_names-listed :
    (change : Bytes → Change) (ns : List Bytes) (name : Bytes)
    → change name ≢ is_absent
    → Memᴰ name ns
    → Memᴰ name (listed (change name) (diff_names change ns))
unfolding diff_names
diff_names-listed change [] name h m = elim m [ ]
diff_names-listed change (n ∷ ns) name h (Memᴰ.head p) =
    rw p (push_name-itself (change n) n (diff_names change ns) (λ e. h (ap change p ∙ e)))
diff_names-listed change (n ∷ ns) name h (Memᴰ.tail m) =
    push_name-listed (change name) (change n) n name (diff_names change ns)
      (diff_names-listed change ns name h m)

module _ (blake3 : Bytes → Bytes) (previous current : List MirroredServer) where
  among_names :
      (name : Bytes) (o o' : Option MirroredServer)
      → get_by_name name previous ≡ o
      → get_by_name name current ≡ o'
      → change_of blake3 o o' ≢ is_absent
      → Memᴰ name (add_names previous (add_names current []))
  unfolding change_of
  among_names name (some e) o' h h' a = Mem-add_names name previous (add_names current []) e h
  among_names name none (some e) h h' a =
      Mem-add_names_other name previous (add_names current []) (Mem-add_names name current [] e h')
  among_names name none none h h' a = absurd (a refl)

  -- Each list has the names of its change.
  pub reconcile_snapshots-Reports :
      Reports (change_between blake3 previous current) (reconcile_snapshots blake3 previous current)
      × ((name : Bytes)
          → change_between blake3 previous current name ≢ is_absent
          → Memᴰ name (
              listed
                (change_between blake3 previous current name)
                (reconcile_snapshots blake3 previous current)))
  unfolding reconcile_snapshots
  reconcile_snapshots-Reports =
      let names = add_names previous (add_names current []) in
      (
        diff_names-Reports (change_between blake3 previous current) names,
        λ name h.
            diff_names-listed (change_between blake3 previous current) names name h
              (among_names name _ _ refl refl h),
      )
