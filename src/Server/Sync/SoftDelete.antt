-- ===== src/Server/Sync/SoftDelete.antt =====
-- `reconcile_soft_deletes_blocking` of crates/rcx-registry-server/src/loops/sync.rs.
use rcx_registry.Prelude.{
  ℕ, ◌-◌, ◌≡◌, refl, sym, ap, ◌∙◌, inl, inr, Option, none, some, List, [], ◌∷◌, Bytes, bytes_eq,
  eq_of_bytes_eq, leb, if◌then◌else◌, Bool-cases, arith,
}
use rcx_registry.Prelude.Outcome.{ok}
use rcx_registry.Server.Rows.{MirrorDb, Rows, ServerRow, mark_rows, evict_rows}
use rcx_registry.Server.Rows.Laws.{
  find_row, IsKeyed, marked_row, find_row-mark_rows, mark_rows-IsKeyed, find_row-evict_rows,
  evict_rows-IsKeyed,
}
use rcx_registry.Ingest.{is_in}
use rcx_registry.Server.Sync.{soft_delete_retention, soft_delete_one, soft_delete_each}
use rcx_registry.Server.Sync.Calls.{
  IsUp, after_call, after_call-IsUp, mark_deleted-IsUp, evict-IsUp, >>=-ok,
}

-- The stamp of a name among cached states.
abbrev pub stamp_of : Bytes → List (Bytes × Option ℕ) → Option (Option ℕ)
stamp_of name [] = none
stamp_of name ((n, deleted_at) ∷ cached) =
    if bytes_eq n name then some deleted_at else stamp_of name cached

abbrev pub AreKeyed : List (Bytes × Option ℕ) → Type 0
AreKeyed [] = Unit
AreKeyed ((n, _) ∷ cached) = (stamp_of n cached ≡ none) × AreKeyed cached

module _ (now : ℕ) where
  -- What a run does to the rows of a name that is not current.
  unfoldable pub soft_delete_rows : Bytes → Option ℕ → Rows → Rows
  soft_delete_rows name none rows = mark_rows name now rows
  soft_delete_rows name (some stamp) rows =
      if leb soft_delete_retention (now - stamp) then evict_rows name rows else rows

  -- What becomes of the row of such a name.
  abbrev pub soft_deleted : Option ℕ → Option ServerRow → Option ServerRow
  soft_deleted none row = marked_row now row
  soft_deleted (some stamp) row = if leb soft_delete_retention (now - stamp) then none else row

  find_row-soft_delete_rows :
      (name other : Bytes) (deleted_at : Option ℕ) (rows : Rows)
      → find_row name (soft_delete_rows other deleted_at rows) ≡ (
          if bytes_eq other name
          then soft_deleted deleted_at (find_row name rows)
          else find_row name rows)
  unfolding soft_delete_rows
  find_row-soft_delete_rows name other none rows = find_row-mark_rows name other now rows
  find_row-soft_delete_rows name other (some stamp) rows =
      ground (arith, find_row-evict_rows name other rows)

  soft_delete_rows-IsKeyed :
      (name : Bytes) (deleted_at : Option ℕ) (rows : Rows)
      → IsKeyed rows
      → IsKeyed (soft_delete_rows name deleted_at rows)
  unfolding soft_delete_rows
  soft_delete_rows-IsKeyed name none rows h = mark_rows-IsKeyed name now rows h
  soft_delete_rows-IsKeyed name (some stamp) rows h =
      elim (Bool-cases (leb soft_delete_retention (now - stamp))) [
        | inl y ↦ rw y (evict_rows-IsKeyed name rows h)
        | inr n ↦ rw n h
      ]

  soft_delete_one-IsUp :
      (name : Bytes) (deleted_at : Option ℕ) (db : MirrorDb)
      → IsUp db
      → (db' : MirrorDb) × (soft_delete_one now name deleted_at db ≡ (ok tt, db'))
        × IsUp db'
        × (db'.rows ≡ soft_delete_rows name deleted_at db.rows)
  unfolding soft_delete_rows after_call
  soft_delete_one-IsUp name none db up =
      let rows' = mark_rows name now db.rows in
      (after_call db rows', mark_deleted-IsUp name now db up, after_call-IsUp db rows' up, refl)
  soft_delete_one-IsUp name (some stamp) db up =
      let rows' = evict_rows name db.rows in
      elim (Bool-cases (leb soft_delete_retention (now - stamp))) [
        | inl y ↦
            rw y (after_call db rows', evict-IsUp name db up, after_call-IsUp db rows' up, refl)
        | inr n ↦ rw n (db, refl, up, refl)
      ]

  abbrev pub stamped : Option (Option ℕ) → Option ServerRow → Option ServerRow
  stamped none row = row
  stamped (some deleted_at) row = soft_deleted deleted_at row

  module _ (current_names : List Bytes) where
    -- What the loop over the cached states does to the rows.
    unfoldable pub soft_delete_all : List (Bytes × Option ℕ) → Rows → Rows
    soft_delete_all [] rows = rows
    soft_delete_all ((name, deleted_at) ∷ cached) rows =
        soft_delete_all cached
          (if is_in name current_names then rows else soft_delete_rows name deleted_at rows)

    pub soft_delete_each-soft_delete_all :
        (cached : List (Bytes × Option ℕ)) (db : MirrorDb)
        → IsUp db
        → (db' : MirrorDb) × (soft_delete_each now current_names cached db ≡ (ok tt, db'))
          × IsUp db'
          × (db'.rows ≡ soft_delete_all cached db.rows)
    unfolding soft_delete_each soft_delete_all
    soft_delete_each-soft_delete_all [] db up = (db, refl, up, refl)
    soft_delete_each-soft_delete_all ((name, deleted_at) ∷ cached) db up =
        elim (Bool-cases (is_in name current_names)) [
          | inl y ↦ rw y (soft_delete_each-soft_delete_all cached db up)
          | inr n ↦
              let (db₁, e, up₁, r) = soft_delete_one-IsUp name deleted_at db up in
              let (db', e', up', r') = soft_delete_each-soft_delete_all cached db₁ up₁ in
              rw n (
                db',
                >>=-ok (soft_delete_one now name deleted_at)
                      (λ _. soft_delete_each now current_names cached) db tt db₁ e
                    ∙ e',
                up',
                r' ∙ ap (soft_delete_all cached) r,
              )
        ]

    stamped-step :
        (name n : Bytes) (d : Option ℕ) (cached : List (Bytes × Option ℕ)) (rows : Rows)
        → stamp_of n cached ≡ none
        → (if is_in name current_names
            then find_row name (if is_in n current_names then rows else soft_delete_rows n d rows)
            else stamped
                (stamp_of name cached)
                (find_row name (if is_in n current_names then rows else soft_delete_rows n d rows)))
          ≡ (if is_in name current_names
              then find_row name rows
              else stamped (stamp_of name ((n, d) ∷ cached)) (find_row name rows))
    stamped-step name n d cached rows new = elim (Bool-cases (bytes_eq n name)) [
      | inl y ↦
          let e = eq_of_bytes_eq n name y in
          let e_in : is_in n current_names ≡ is_in name current_names =
            ap (λ t. is_in t current_names) e in
          let e_new : stamp_of name cached ≡ none = ap (λ t. stamp_of t cached) (sym e) ∙ new in
          elim (Bool-cases (is_in name current_names)) [
            | inl i ↦ rw (e_in, i)
            | inr o ↦ rw (e_in, o, e_new, y, find_row-soft_delete_rows name n d rows, y)
          ]
      | inr other ↦ elim (Bool-cases (is_in n current_names)) [
        | inl i ↦ rw (i, other)
        | inr o ↦ rw (o, other, find_row-soft_delete_rows name n d rows, other)
      ]
    ]

    pub find_row-soft_delete_all :
        (name : Bytes) (cached : List (Bytes × Option ℕ)) (rows : Rows)
        → AreKeyed cached
        → find_row name (soft_delete_all cached rows) ≡ (
            if is_in name current_names
            then find_row name rows
            else stamped (stamp_of name cached) (find_row name rows))
    unfolding soft_delete_all
    find_row-soft_delete_all name [] rows k = ground arith
    find_row-soft_delete_all name ((n, d) ∷ cached) rows (new, k) =
        find_row-soft_delete_all name cached
          (if is_in n current_names then rows else soft_delete_rows n d rows) k
        ∙ stamped-step name n d cached rows new

    pub soft_delete_all-IsKeyed :
        (cached : List (Bytes × Option ℕ)) (rows : Rows)
        → IsKeyed rows
        → IsKeyed (soft_delete_all cached rows)
    unfolding soft_delete_all
    soft_delete_all-IsKeyed [] rows h = h
    soft_delete_all-IsKeyed ((name, deleted_at) ∷ cached) rows h =
        elim (Bool-cases (is_in name current_names)) [
          | inl y ↦ rw y (soft_delete_all-IsKeyed cached rows h)
          | inr n ↦ rw n (
              soft_delete_all-IsKeyed cached (soft_delete_rows name deleted_at rows)
                (soft_delete_rows-IsKeyed name deleted_at rows h))
        ]
