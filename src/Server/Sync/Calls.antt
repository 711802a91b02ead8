-- ===== src/Server/Sync/Calls.antt =====
-- Calls of crates/rcx-registry-server/src/db/mirror.rs that the database serves.
use rcx_registry.Prelude.{◌≡◌, refl, ap, Bool, true, false, List, [], ◌∷◌, Bytes, ℕ, All, map}
use rcx_registry.Prelude.Outcome.{ok}
use rcx_registry.Server.Rows.{
  Rows, MirrorDb, Db, UpsertServer, run_call, upsert_server, upsert_row, mark_deleted, mark_rows,
  evict, evict_rows, cached_state, state_of,
}
use rcx_registry.Server.Sync.{follow_call, ◌>>=◌}

-- The pool and the database serve all calls.
abbrev pub IsUp : MirrorDb → Type 0
IsUp db = All (λ answer. answer ≡ true) db.answers

tail_answers : List Bool → List Bool
tail_answers [] = []
tail_answers (answer ∷ answers) = answers

-- The database after a call that leaves these rows.
unfoldable pub after_call : MirrorDb → Rows → MirrorDb
unfolding tail_answers
after_call db rows = record { rows = rows; answers = tail_answers db.answers }

pub after_call-IsUp : (db : MirrorDb) (rows : Rows) → IsUp db → IsUp (after_call db rows)
unfolding after_call
after_call-IsUp db rows h = go db.answers h
  where
    go :
        (answers : List Bool)
        → All (λ answer. answer ≡ true) answers
        → All (λ answer. answer ≡ true) (tail_answers answers)
    go [] h = tt
    go (answer ∷ answers) h = h.1

served :
    {A : Type 0} (call : Rows → A × Rows) (answers : List Bool) (rows : Rows)
    → All (λ answer. answer ≡ true) answers
    → run_call call (record { rows = rows; answers = answers })
      ≡ (ok (call rows).0, record { rows = (call rows).1; answers = tail_answers answers })
unfolding run_call tail_answers
served call [] rows h = refl
served call (true ∷ answers) rows h = refl
served call (false ∷ answers) rows h = cc

pub run_call-IsUp :
    {A : Type 0} (call : Rows → A × Rows) (db : MirrorDb)
    → IsUp db
    → run_call call db ≡ (ok (call db.rows).0, after_call db (call db.rows).1)
unfolding after_call
run_call-IsUp call db h = served call db.answers db.rows h

pub upsert_server-IsUp :
    (request : UpsertServer) (db : MirrorDb)
    → IsUp db
    → upsert_server request db ≡ (ok tt, after_call db (upsert_row request db.rows))
unfolding upsert_server
upsert_server-IsUp request db h = run_call-IsUp _ db h

pub mark_deleted-IsUp :
    (name : Bytes) (when : ℕ) (db : MirrorDb)
    → IsUp db
    → mark_deleted name when db ≡ (ok tt, after_call db (mark_rows name when db.rows))
unfolding mark_deleted
mark_deleted-IsUp name when db h = run_call-IsUp _ db h

pub evict-IsUp :
    (name : Bytes) (db : MirrorDb)
    → IsUp db
    → evict name db ≡ (ok tt, after_call db (evict_rows name db.rows))
unfolding evict
evict-IsUp name db h = run_call-IsUp _ db h

pub cached_state-IsUp :
    (db : MirrorDb) → IsUp db → cached_state db ≡ (ok (map state_of db.rows), after_call db db.rows)
unfolding cached_state
cached_state-IsUp db h = run_call-IsUp _ db h

-- A call that returns, followed by another.
pub >>=-ok :
    {A B : Type 0} (call : Db A) (next : A → Db B) (db : MirrorDb) (value : A) (db' : MirrorDb)
    → call db ≡ (ok value, db')
    → (call >>= next) db ≡ next value db'
>>=-ok call next db value db' h = ap (follow_call next) h
