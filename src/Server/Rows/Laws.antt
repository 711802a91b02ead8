-- ===== src/Server/Rows/Laws.antt =====
-- What the statements of crates/rcx-registry-server/src/db/mirror.rs do to the row of a name.
use rcx_registry.Prelude.{
  ℕ, ◌≡◌, refl, sym, ap, ◌∙◌, true, inl, inr, Option, none, some, [], ◌∷◌, Bytes, bytes_eq,
  bytes_eq_refl, eq_of_bytes_eq, bytes_eq_comm, if◌then◌else◌, Bool-cases, arith,
}
use rcx_registry.Server.Rows.{
  UpsertServer, ServerRow, Rows, row_of, upsert_row, mark, mark_rows, evict_rows,
}

-- The row of a name.
unfoldable pub find_row : Bytes → Rows → Option ServerRow
find_row name [] = none
find_row name (row ∷ rows) = if bytes_eq row.name name then some row else find_row name rows

-- No two rows have one name, as the key of the table says.
abbrev pub IsKeyed : Rows → Type 0
IsKeyed [] = Unit
IsKeyed (row ∷ rows) = (find_row row.name rows ≡ none) × IsKeyed rows

-- when a row of a request was first observed
abbrev pub first_observed : ℕ → Option ServerRow → ℕ
first_observed now none = now
first_observed now (some row) = row.first_observed_at

-- The row of a request takes the place of the one of its name.
abbrev pub upserted : UpsertServer → Option ServerRow → ServerRow
upserted request old = row_of request (first_observed request.observed_at old)

abbrev pub marked_row : ℕ → Option ServerRow → Option ServerRow
marked_row when none = none
marked_row when (some row) = some (mark when row)

bytes_eq_same : (a b c : Bytes) → bytes_eq a b ≡ true → bytes_eq a c ≡ bytes_eq b c
bytes_eq_same a b c h = ap (λ t. bytes_eq t c) (eq_of_bytes_eq a b h)

pub find_row-upsert_row :
    (name : Bytes) (request : UpsertServer) (rows : Rows)
    → find_row name (upsert_row request rows) ≡ (
        if bytes_eq request.name name
        then some (upserted request (find_row name rows))
        else find_row name rows)
unfolding find_row upsert_row row_of
find_row-upsert_row name request [] = refl
find_row-upsert_row name request (row ∷ rows) = elim (Bool-cases (bytes_eq row.name request.name)) [
  | inl y ↦ rw (y, bytes_eq_same row.name request.name name y) (ground arith)
  | inr n ↦ ground (
    arith,
    find_row-upsert_row name request rows,
    eq_of_bytes_eq row.name name,
    eq_of_bytes_eq request.name name,
    bytes_eq_refl name,
  )
]

name-mark : (when : ℕ) (row : ServerRow) → (mark when row).name ≡ row.name
unfolding mark
name-mark when row = ground arith

pub find_row-mark_rows :
    (name other : Bytes) (when : ℕ) (rows : Rows)
    → find_row name (mark_rows other when rows)
      ≡ (if bytes_eq other name then marked_row when (find_row name rows) else find_row name rows)
unfolding find_row mark_rows
find_row-mark_rows name other when [] = ground arith
find_row-mark_rows name other when (row ∷ rows) = elim (Bool-cases (bytes_eq row.name other)) [
  | inl y ↦
      rw
        (
          y,
          name-mark when row,
          find_row-mark_rows name other when rows,
          bytes_eq_same row.name other name y,
        )
        (ground arith)
  | inr n ↦ ground (
    arith,
    find_row-mark_rows name other when rows,
    eq_of_bytes_eq row.name name,
    eq_of_bytes_eq other name,
    bytes_eq_refl name,
  )
]

pub find_row-evict_rows :
    (name other : Bytes) (rows : Rows)
    → find_row name (evict_rows other rows)
      ≡ (if bytes_eq other name then none else find_row name rows)
unfolding find_row evict_rows
find_row-evict_rows name other [] = ground arith
find_row-evict_rows name other (row ∷ rows) = ground (
  arith,
  find_row-evict_rows name other rows,
  eq_of_bytes_eq row.name name,
  eq_of_bytes_eq row.name other,
  eq_of_bytes_eq other name,
  bytes_eq_refl name,
)

pub upsert_row-IsKeyed :
    (request : UpsertServer) (rows : Rows) → IsKeyed rows → IsKeyed (upsert_row request rows)
unfolding find_row upsert_row row_of
upsert_row-IsKeyed request [] h = (refl, tt)
upsert_row-IsKeyed request (row ∷ rows) (new, h) =
    elim (Bool-cases (bytes_eq row.name request.name)) [
      | inl y ↦
          rw y (ap (λ t. find_row t rows) (sym (eq_of_bytes_eq row.name request.name y)) ∙ new, h)
      | inr n ↦ rw n (
        find_row-upsert_row row.name request rows
            ∙ ground (arith, bytes_eq_comm row.name request.name),
        upsert_row-IsKeyed request rows h,
      )
    ]

pub mark_rows-IsKeyed :
    (name : Bytes) (when : ℕ) (rows : Rows) → IsKeyed rows → IsKeyed (mark_rows name when rows)
unfolding find_row mark_rows
mark_rows-IsKeyed name when [] h = tt
mark_rows-IsKeyed name when (row ∷ rows) (new, h) = elim (Bool-cases (bytes_eq row.name name)) [
  | inl y ↦ rw y (
    ap (λ t. find_row t (mark_rows name when rows)) (name-mark when row)
        ∙ find_row-mark_rows row.name name when rows
        ∙ rw new (ground arith),
    mark_rows-IsKeyed name when rows h,
  )
  | inr n ↦ rw n (
    find_row-mark_rows row.name name when rows ∙ rw new (ground arith),
    mark_rows-IsKeyed name when rows h,
  )
]

pub evict_rows-IsKeyed :
    (name : Bytes) (rows : Rows) → IsKeyed rows → IsKeyed (evict_rows name rows)
unfolding find_row evict_rows
evict_rows-IsKeyed name [] h = tt
evict_rows-IsKeyed name (row ∷ rows) (new, h) = elim (Bool-cases (bytes_eq row.name name)) [
  | inl y ↦ rw y (evict_rows-IsKeyed name rows h)
  | inr n ↦ rw n (
    find_row-evict_rows row.name name rows ∙ rw new (ground arith),
    evict_rows-IsKeyed name rows h,
  )
]
