-- ===== src/Api/Mirror.antt =====
-- crates/rcx-registry-api/src/lib.rs: `StoredServerRecord` and `InMemoryMirrorStore`, the mirror that
-- lists servers in pages.
pub mod Pages
use rcx_registry.Prelude.{
  is_some, ℕ, suc, Bool, true, false, not, ◌||◌, Option, none, some, List, [], ◌∷◌, ◌++◌, map,
  Bytes, codes, bytes_eq, lex_le, ltb, if◌then◌else◌, length, take, drop, keep, sort_by,
}
use rcx_registry.Prelude.Outcome.{Outcome, ok, err, ◌>>=◌}
use rcx_registry.Prelude.Texts.{to_ascii_lowercase, contains_text}
use rcx_registry.Crown.Json.{Json}
use rcx_registry.Ingest.Envelope.{
  RegistryServerEnvelope, RegistryServerListResponse, ListServersRequest, normalized_limit,
  string_member,
}
use rcx_registry.Api.Errors.{Api, ApiError, not_found, invalid_cursor, bad_request}

pub record StoredServerRecord : Type 0 where
  pub envelope : RegistryServerEnvelope

abbrev pub or_bad_request : Bytes → Option Bytes → Api Bytes
or_bad_request message none = err (bad_request message)
or_bad_request message (some value) = ok value

module _ (r : StoredServerRecord) where
  unfoldable pub stored_name : Api Bytes
  stored_name =
      or_bad_request (codes "server.name missing") (string_member (codes "name") r.envelope.server)

  unfoldable pub stored_version : Api Bytes
  stored_version =
      or_bad_request (codes "server.version missing")
        (string_member (codes "version") r.envelope.server)

  unfoldable pub stored_token : Api Bytes
  unfolding stored_name stored_version
  stored_token = do name ← stored_name; version ← stored_version; ok (name ++ b':' ∷ version)

  unfoldable pub is_deleted : Bool
  is_deleted = bytes_eq r.envelope.meta.official.status (codes "deleted")

  unfoldable pub is_latest : Bool
  is_latest = r.envelope.meta.official.is_latest

abbrev or_option : Option Bytes → Option Bytes → Option Bytes
or_option (some a) b = some a
or_option none b = b

unfoldable pub comparison_timestamp : StoredServerRecord → Option Bytes
comparison_timestamp r =
    let official = r.envelope.meta.official in
    or_option official.updated_at (or_option official.status_changed_at official.published_at)

abbrev pub InMemoryMirrorStore : Type 0
InMemoryMirrorStore = List StoredServerRecord

-- `unwrap_or_default`
abbrev pub or_empty : Api Bytes → Bytes
or_empty (ok value) = value
or_empty _ = []

-- `map(…).unwrap_or(false)`
abbrev holds : (Bytes → Bool) → Api Bytes → Bool
holds test (ok value) = test value
holds test _ = false

abbrev keeps_search : Option Bytes → StoredServerRecord → Bool
keeps_search none r = true
keeps_search (some needle) r =
    holds (λ name. contains_text (to_ascii_lowercase needle) (to_ascii_lowercase name))
      (stored_name r)

-- the test of a version, where `latest` is a word of its own
abbrev version_test : Bytes → StoredServerRecord → Bool
version_test version r =
    if bytes_eq version (codes "latest")
    then is_latest r
    else holds (λ candidate. bytes_eq candidate version) (stored_version r)

abbrev keeps_version : Option Bytes → StoredServerRecord → Bool
keeps_version none r = true
keeps_version (some version) r = version_test version r

abbrev is_since : Bytes → Option Bytes → Bool
is_since since none = false
is_since since (some timestamp) = lex_le since timestamp

abbrev keeps_since : Option Bytes → StoredServerRecord → Bool
keeps_since none r = true
keeps_since (some since) r = is_since since (comparison_timestamp r)

-- by the name, then by the version
unfoldable pub record_order : StoredServerRecord → StoredServerRecord → Bool
record_order left right =
    let left_name = or_empty (stored_name left) in
    let right_name = or_empty (stored_name right) in
    if bytes_eq left_name right_name
    then lex_le (or_empty (stored_version left)) (or_empty (stored_version right))
    else lex_le left_name right_name

-- what a request asks for, before its cursor
unfoldable pub matching_records : InMemoryMirrorStore → ListServersRequest → List StoredServerRecord
unfolding keep
matching_records records request =
    let include_deleted = request.include_deleted || is_some request.updated_since in
    let shown = keep (λ r. include_deleted || not (is_deleted r)) records in
    let found = keep (keeps_search request.search) shown in
    let of_version = keep (keeps_version request.version) found in
    sort_by record_order (keep (keeps_since request.updated_since) of_version)

abbrev is_token : Bytes → Api Bytes → Bool
is_token cursor (ok token) = bytes_eq token cursor
is_token cursor _ = false

-- `position` and `skip(index + 1)`: what is behind the first record of the cursor
unfoldable pub after_cursor : Bytes → List StoredServerRecord → Option (List StoredServerRecord)
after_cursor cursor [] = none
after_cursor cursor (r ∷ rs) =
    let rest = after_cursor cursor rs in if is_token cursor (stored_token r) then some rs else rest

abbrev or_invalid_cursor : Option (List StoredServerRecord) → Api (List StoredServerRecord)
or_invalid_cursor none = err invalid_cursor
or_invalid_cursor (some rs) = ok rs

unfoldable pub skip_to : Option Bytes → List StoredServerRecord → Api (List StoredServerRecord)
skip_to none rs = ok rs
skip_to (some cursor) rs = or_invalid_cursor (after_cursor cursor rs)

unfoldable pub filtered_records :
    InMemoryMirrorStore → ListServersRequest → Api (List StoredServerRecord)
unfolding matching_records skip_to
filtered_records records request = skip_to request.cursor (matching_records records request)

abbrev pub envelope_of : StoredServerRecord → RegistryServerEnvelope
envelope_of r = r.envelope

-- the token of the last record, where there is one
unfoldable pub last_token : List StoredServerRecord → Api (Option Bytes)
last_token [] = ok none
last_token (r ∷ []) = do token ← stored_token r; ok (some token)
last_token (r ∷ r' ∷ rs) = last_token (r' ∷ rs)

abbrev pub response_of : List StoredServerRecord → Option Bytes → RegistryServerListResponse
response_of page next_cursor = record {
  servers = map envelope_of page;
  metadata = record { next_cursor = next_cursor; count = length page };
}

-- one record more than the limit is taken, to see whether there are more
unfoldable pub page_of : ℕ → List StoredServerRecord → Api RegistryServerListResponse
page_of limit records =
    let page = take (suc limit) records in
    if ltb limit (length page)
    then (do
      next_cursor ← last_token (take limit page)
      ok (response_of (take limit page) next_cursor))
    else ok (response_of page none)

unfoldable pub list_servers :
    InMemoryMirrorStore → ListServersRequest → Api RegistryServerListResponse
unfolding filtered_records page_of
list_servers records request = do
  found ← filtered_records records request
  page_of (normalized_limit request) found

abbrev is_named : Bytes → StoredServerRecord → Bool
is_named name r = holds (λ n. bytes_eq n name) (stored_name r)

-- the latest version first
unfoldable pub version_order : StoredServerRecord → StoredServerRecord → Bool
version_order left right = lex_le (or_empty (stored_version right)) (or_empty (stored_version left))

unfoldable pub list_versions : InMemoryMirrorStore → Bytes → Bool → Api RegistryServerListResponse
unfolding keep
list_versions records server_name include_deleted =
    let named = keep (is_named server_name) records in
    let shown = keep (λ r. include_deleted || not (is_deleted r)) named in
    ok (response_of (sort_by version_order shown) none)

-- `find(…).map(…).ok_or(NotFound)`
unfoldable pub first_envelope :
    (StoredServerRecord → Bool) → List StoredServerRecord → Api RegistryServerEnvelope
first_envelope test [] = err not_found
first_envelope test (r ∷ rs) =
    let rest = first_envelope test rs in if test r then ok r.envelope else rest

unfoldable pub get_version : InMemoryMirrorStore → Bytes → Bytes → Bool → Api RegistryServerEnvelope
unfolding keep first_envelope
get_version records server_name version include_deleted =
    let named = keep (is_named server_name) records in
    let shown = keep (λ r. include_deleted || not (is_deleted r)) named in
    first_envelope (version_test version) shown
