-- ===== src/Server/Sync/Names.antt =====
-- The sets of names of crates/rcx-registry-server/src/loops/sync.rs.
use rcx_registry.Prelude.{
  is_some, ◌≡◌, refl, ap, ◌∙◌, Bool, true, false, ◌||◌, List, [], ◌∷◌, map, Bytes, bytes_eq,
  bytes_eq_refl, All, keep, arith,
}
use rcx_registry.Ingest.{is_in}
use rcx_registry.Ingest.NameSets.{is_in-add_name}
use rcx_registry.Server.Rows.{Rows, state_of}
use rcx_registry.Server.Rows.Laws.{find_row}
use rcx_registry.Server.Sync.{Observed, name_of, name_set, cached_name}
use rcx_registry.Server.Sync.Persist.{last_of}

-- A set has the names of the list that it is made of.
pub is_in-name_set : (n : Bytes) (names : List Bytes) → is_in n (name_set names) ≡ is_in n names
unfolding is_in name_set
is_in-name_set n [] = refl
is_in-name_set n (name ∷ names) =
    is_in-add_name n name (name_set names) ∙ ap (λ t. bytes_eq name n || t) (is_in-name_set n names)

-- A name is current if it has a last entry.
pub is_in-last_of :
    (n : Bytes) (current : List Observed)
    → is_in n (map name_of current) ≡ is_some (last_of n current)
unfolding is_in last_of
is_in-last_of n [] = refl
is_in-last_of n (entry ∷ current) = ground (arith, is_in-last_of n current)

-- A name is cached if it has a row.
pub is_in-find_row :
    (n : Bytes) (rows : Rows)
    → is_in n (map cached_name (map state_of rows)) ≡ is_some (find_row n rows)
unfolding is_in find_row
is_in-find_row n [] = refl
is_in-find_row n (row ∷ rows) = ground (arith, is_in-find_row n rows)

-- What holds of all names that are in a list holds of its items.
pub All-is_in {ℓ} :
    (P : Bytes → Type ℓ) (names : List Bytes)
    → ((n : Bytes) → is_in n names ≡ true → P n)
    → All P names
unfolding is_in
All-is_in P [] h = tt
All-is_in P (name ∷ names) h =
    (h name (rw (bytes_eq_refl name)), All-is_in P names (λ n i. h n (ground (arith, i))))

pub keep-none {ℓ} :
    {A : Type ℓ} (test : A → Bool) (xs : List A) → All (λ x. test x ≡ false) xs → keep test xs ≡ []
unfolding keep
keep-none test [] h = refl
keep-none test (x ∷ xs) h = rw h.0 (keep-none test xs h.1)

pub keep-All {ℓ} :
    {A : Type ℓ} (test : A → Bool) (xs : List A) → All (λ x. test x ≡ true) xs → keep test xs ≡ xs
unfolding keep
keep-All test [] h = refl
keep-All test (x ∷ xs) h = rw h.0 (ap (λ t. x ∷ t) (keep-All test xs h.1))
