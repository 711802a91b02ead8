-- ===== src/Server/Fetch/Complete.antt =====
-- `fetch_all_pages` of crates/rcx-registry-server/src/loops/sync.rs against the mirror of
-- crates/rcx-registry-api/src/lib.rs, which serves the same protocol of pages.
use mathlib.Core.Path.{subst}
use mathlib.Core.List.{map-append}
use rcx_registry.Prelude.{
  ℕ, zero, suc, ◌*◌, ◌≤◌, ◌≡◌, refl, sym, ap, ◌∙◌, inl, inr, Option, none, some, List, [], ◌∷◌,
  ◌++◌, map, Bytes, length, drop, length-drop, ltb, append_assoc, arith, Bool-cases,
}
use rcx_registry.Prelude.Outcome.{Outcome, ok, map_err, ◌>>=◌, >>=-eq-ok}
use rcx_registry.Ingest.Envelope.{
  IngestError, unexpected_status, ListServersRequest, FetchPageResult, normalized_limit,
  RegistryServerListResponse,
}
use rcx_registry.Api.Errors.{status_code}
use rcx_registry.Api.Mirror.{
  StoredServerRecord, InMemoryMirrorStore, stored_token, stored_name, stored_version,
  matching_records, skip_to, list_servers, envelope_of, page_of, response_of, filtered_records,
}
use rcx_registry.Api.Mirror.Pages.{
  AreListed, HasToken, token, middle-HasToken, after_cursor-append, page_of-last, page_of-more,
}
use rcx_registry.Server.Fetch.{
  page_request, fetch_pages, fetch_all_pages, max_pages_per_run, follow, take_page, Envelopes,
}

-- A mirror behind HTTP: an error arrives as its status.
unfoldable pub served :
    InMemoryMirrorStore → ListServersRequest → Outcome IngestError FetchPageResult
served records request = do
  response ← map_err (λ e. unexpected_status (status_code e)) (list_servers records request)
  ok (record { page = some response; etag = none })

-- What the mirror lists to a client that asks for no more than the pages.
abbrev pub listed : InMemoryMirrorStore → List StoredServerRecord
listed records = matching_records records (page_request none)

abbrev IsCons : Bytes → Type 0
IsCons bs = (b : ℕ) × (rest : Bytes) × (bs ≡ b ∷ rest)

append-IsCons : (front : Bytes) (b : ℕ) (rest : Bytes) → IsCons (front ++ b ∷ rest)
append-IsCons [] b rest = (b, rest, refl)
append-IsCons (f ∷ front) b rest = (f, front ++ b ∷ rest, refl)

token-IsCons : (r : StoredServerRecord) (t : Bytes) → stored_token r ≡ ok t → IsCons t
unfolding stored_token
token-IsCons r t h =
    let (name, _, h') = >>=-eq-ok (stored_name r) _ h in
    let (version, _, e) = >>=-eq-ok (stored_version r) _ h' in
    let (b, rest, e') = append-IsCons name b':' version in (b, rest, cc)

module _ (rounds : Option Bytes → Outcome IngestError Envelopes) (servers : Envelopes) where
  follow-IsCons :
      (t : Bytes)
      → IsCons t
      → follow rounds servers (some t) ≡ (rounds (some t) >>= λ more. ok (servers ++ more))
  follow-IsCons t (b, rest, e) = rw e

module _ (records : InMemoryMirrorStore) where
  served-page :
      (cursor : Option Bytes) (rest : List StoredServerRecord)
      (response : RegistryServerListResponse)
      → skip_to cursor (listed records) ≡ ok rest
      → page_of 100 rest ≡ ok response
      → served records (page_request cursor) ≡ ok (record { page = some response; etag = none })
  unfolding served list_servers filtered_records normalized_limit page_request matching_records
  served-page cursor rest response h e = rw (h, e)

  skip_to-token :
      (front : List StoredServerRecord) (r : StoredServerRecord) (rest : List StoredServerRecord)
      → listed records ≡ front ++ r ∷ rest
      → AreListed (listed records)
      → skip_to (some (token r)) (listed records) ≡ ok rest
  unfolding skip_to
  skip_to-token front r rest split all =
      rw (split, after_cursor-append front r rest (subst AreListed split all))

  -- one full page, over what the rounds after it fetch
  take_page-listed :
      (cursor : Option Bytes) (rounds : Option Bytes → Outcome IngestError Envelopes)
      (front : List StoredServerRecord) (r : StoredServerRecord) (rest : List StoredServerRecord)
      (records' : List StoredServerRecord)
      → HasToken r
      → records' ≡ front ++ r ∷ rest
      → rounds (some (token r)) ≡ ok (map envelope_of rest)
      → take_page rounds (some (response_of (front ++ r ∷ []) (some (token r))))
        ≡ ok (map envelope_of records')
  take_page-listed cursor rounds front r rest records' has e later = rw (
    follow-IsCons rounds (map envelope_of (front ++ r ∷ [])) (token r)
        (token-IsCons r (token r) has),
    later,
    e,
    map-append envelope_of front (r ∷ []),
    map-append envelope_of front (r ∷ rest),
    append_assoc (map envelope_of front) (r.envelope ∷ []) (map envelope_of rest),
  )

  fetch_pages-listed :
      AreListed (listed records)
      → (rounds : ℕ) (cursor : Option Bytes) (front rest : List StoredServerRecord)
      → listed records ≡ front ++ rest
      → skip_to cursor (listed records) ≡ ok rest
      → length rest ≤ 100 * rounds
      → fetch_pages (served records) rounds cursor ≡ ok (map envelope_of rest)
  unfolding fetch_pages
  fetch_pages-listed all zero cursor front [] split skip few = refl
  fetch_pages-listed all zero cursor front (r ∷ rest) split skip few = absurd (omega arith)
  fetch_pages-listed all (suc rounds) cursor front rest split skip few =
      elim (Bool-cases (ltb 100 (length rest))) [
        | inr last_page ↦ rw (served-page cursor rest _ skip (page_of-last 100 rest (ground arith)))
        | inl more ↦
            let (page, r, _, e, step) = page_of-more 99 rest (ground arith) in
            let whole : listed records ≡ (front ++ page) ++ r ∷ drop 100 rest =
              split ∙ ap (λ t. front ++ t) e ∙ sym (append_assoc front page (r ∷ drop 100 rest)) in
            let has =
              middle-HasToken (front ++ page) r (drop 100 rest) (subst AreListed whole all) in
            let later =
              fetch_pages-listed all rounds (some (token r)) ((front ++ page) ++ r ∷ [])
                (drop 100 rest)
                (whole ∙ sym (append_assoc (front ++ page) (r ∷ []) (drop 100 rest)))
                (skip_to-token (front ++ page) r (drop 100 rest) whole all)
                (omega (arith, length-drop 100 rest)) in
            rw (served-page cursor rest _ skip (step has)) (
              take_page-listed cursor (fetch_pages (served records) rounds) page r (drop 100 rest)
                rest has e later)
      ]

-- If the records that a mirror lists without a filter all have a name and a version, no two have the
-- same cursor, and there are at most 100000 of them, then fetching all pages from the mirror returns
-- the envelopes of exactly these records, each once and in the mirror's order.
pub fetch_all_pages-listed :
    (records : InMemoryMirrorStore)
    → AreListed (listed records)
    → length (listed records) ≤ 100_000
    → fetch_all_pages (served records) ≡ ok (map envelope_of (listed records))
unfolding fetch_all_pages skip_to
fetch_all_pages-listed records all few =
    fetch_pages-listed records all max_pages_per_run none [] (listed records) refl skip_start few
  where
    skip_start : skip_to none (listed records) ≡ ok (listed records)
    skip_start = refl
