-- ===== src/Server/Listing/Pages.antt =====
-- The pages of the database's mirror beside those of the mirror in memory.
use mathlib.Core.Path.{subst}
use rcx_registry.Prelude.{
  ℕ, zero, suc, length-map, ◌≡◌, refl, sym, ap, inl, inr, Option, some, none, List, [], ◌∷◌, map,
  ◌++◌, codes, Bytes, bytes_eq, ltb, length, take, All, Bool-cases,
}
use rcx_registry.Prelude.Outcome.{ok, ◌>>=◌}
use rcx_registry.Prelude.Partial
use rcx_registry.Ingest.Envelope.{
  RegistryServerEnvelope, ListServersRequest, normalized_limit, string_member,
}
use rcx_registry.Api.Mirror.{
  StoredServerRecord, stored_name, stored_version, or_bad_request, stored_token, after_cursor,
  skip_to, envelope_of, last_token, page_of, matching_records, filtered_records, list_servers,
  InMemoryMirrorStore,
}
use rcx_registry.Api.Mirror.Pages.{HasToken, token}
use rcx_registry.Server.Listing.{
  cursor_token, envelope_version, behind_cursor, split_off, last_cursor, envelope_page,
  page_envelopes, Sql, query_envelopes, answer_of, pg_list_servers,
}
use rcx_registry.Server.Rows.{MirrorDb}

-- Envelopes of records that were found.
envelopes_of : Option (List StoredServerRecord) → Option (List RegistryServerEnvelope)
envelopes_of none = none
envelopes_of (some rs) = some (map envelope_of rs)

-- A record with a token and its envelope have the same one.
same_token : (r : StoredServerRecord) → HasToken r → cursor_token r.envelope ≡ some (token r)
unfolding stored_token stored_name stored_version cursor_token envelope_version
same_token r h =
    go (string_member (codes "name") r.envelope.server)
      (string_member (codes "version") r.envelope.server) (token r) h
  where
    go :
        (n v : Option Bytes) (t : Bytes)
        → (or_bad_request (codes "server.name missing") n >>= λ name.
            or_bad_request (codes "server.version missing") v >>= λ version.
            ok (name ++ b':' ∷ version))
          ≡ ok t
        → Partial.◌>>=◌ n (λ name. Partial.◌>>=◌ v λ version. some (name ++ b':' ∷ version))
          ≡ some t
    go none v t h = cc
    go (some name) none t h = cc
    go (some name) (some version) t h = cc

same_rest :
    (o : Option (List StoredServerRecord)) (a b : List StoredServerRecord)
    → o ≡ some a
    → o ≡ some b
    → a ≡ b
same_rest o a b h k = cc

same_behind :
    (cursor : Bytes) (rs : List StoredServerRecord)
    → All HasToken rs
    → behind_cursor cursor (map envelope_of rs) ≡ envelopes_of (after_cursor cursor rs)
unfolding behind_cursor after_cursor envelopes_of
same_behind cursor [] h = refl
same_behind cursor (r ∷ rs) (h, hs) = elim (Bool-cases (bytes_eq (token r) cursor)) [
  | inl y ↦ rw (same_token r h, h, y)
  | inr n ↦ rw (same_token r h, h, n) (same_behind cursor rs hs)
]

same_last :
    (rs : List StoredServerRecord)
    → All HasToken rs
    → last_token rs ≡ ok (last_cursor (map envelope_of rs))
unfolding last_token last_cursor
same_last [] h = refl
same_last (r ∷ []) (h, hs) = rw (h, same_token r h)
same_last (r ∷ r' ∷ rs) (h, hs) = same_last (r' ∷ rs) hs

take-map :
    (n : ℕ) (rs : List StoredServerRecord)
    → take n (map envelope_of rs) ≡ map envelope_of (take n rs)
take-map zero rs = refl
take-map (suc n) [] = refl
take-map (suc n) (r ∷ rs) = ap (λ es. r.envelope ∷ es) (take-map n rs)

All-take : (n : ℕ) (rs : List StoredServerRecord) → All HasToken rs → All HasToken (take n rs)
All-take zero rs h = tt
All-take (suc n) [] h = tt
All-take (suc n) (r ∷ rs) (h, hs) = (h, All-take n rs hs)

All-after_cursor :
    (cursor : Bytes) (rs rest : List StoredServerRecord)
    → All HasToken rs
    → after_cursor cursor rs ≡ some rest
    → All HasToken rest
unfolding after_cursor
All-after_cursor cursor [] rest h e = cc
All-after_cursor cursor (r ∷ rs) rest (h, hs) e = elim (Bool-cases (bytes_eq (token r) cursor)) [
  | inl y ↦ subst (All HasToken) (same_rest (some rs) rs rest refl (rw (h, y) at e)) hs
  | inr n ↦ All-after_cursor cursor rs rest hs (rw (h, n) at e)
]

same_page :
    (limit : ℕ) (rs : List StoredServerRecord)
    → All HasToken rs
    → page_of limit rs ≡ ok (envelope_page limit (map envelope_of rs))
unfolding page_of envelope_page
same_page limit rs h = elim (Bool-cases (ltb limit (length (take (suc limit) rs)))) [
  | inl y ↦ rw (
    take-map (suc limit) rs,
    length-map envelope_of (take (suc limit) rs),
    y,
    take-map limit (take (suc limit) rs),
    length-map envelope_of (take limit (take (suc limit) rs)),
    same_last (take limit (take (suc limit) rs))
        (All-take limit (take (suc limit) rs) (All-take (suc limit) rs h)),
  )
  | inr n ↦ rw (take-map (suc limit) rs, length-map envelope_of (take (suc limit) rs), n)
]

-- A page of the envelopes behind a cursor is that of the records behind it.
paged :
    (request : ListServersRequest) (cursor : Option Bytes) (rs : List StoredServerRecord)
    → All HasToken rs
    → (split_off cursor (map envelope_of rs) >>= λ rest.
        ok (envelope_page (normalized_limit request) rest))
      ≡ (skip_to cursor rs >>= page_of (normalized_limit request))
unfolding split_off skip_to envelopes_of
paged request none rs h = sym (same_page (normalized_limit request) rs h)
paged request (some cursor) rs h = go (after_cursor cursor rs) refl
  where
    go :
        (o : Option (List StoredServerRecord))
        → after_cursor cursor rs ≡ o
        → (split_off (some cursor) (map envelope_of rs) >>= λ rest.
            ok (envelope_page (normalized_limit request) rest))
          ≡ (skip_to (some cursor) rs >>= page_of (normalized_limit request))
    go none e = rw (same_behind cursor rs h, e)
    go (some rest) e =
        rw (same_behind cursor rs h, e)
          (sym (same_page (normalized_limit request) rest (All-after_cursor cursor rs rest h e)))

-- If the statement selects the envelopes of the records that the mirror in memory finds for a request,
-- and each of these has a name and a version, then both mirrors answer the request alike, with the same
-- page, cursor and error.
pub pg_list_servers-list_servers :
    (sql : Sql) (records : InMemoryMirrorStore) (request : ListServersRequest) (db db' : MirrorDb)
    → query_envelopes sql request db
      ≡ (ok (map envelope_of (matching_records records request)), db')
    → All HasToken (matching_records records request)
    → pg_list_servers sql request db ≡ (list_servers records request, db')
unfolding pg_list_servers answer_of page_envelopes list_servers filtered_records
pg_list_servers-list_servers sql records request db db' e h = rw e (
    ap (λ answer. (answer, db'))
      (paged request request.cursor (matching_records records request) h))
