-- ===== src/Skills/Uri.antt =====
-- crates/rcx-registry-skills/src/uri.rs: `skill://` URIs, their parser and printer, and resolution
-- across registries. Texts are ASCII where the parser looks at them, so bytes stand for characters.
pub mod Parts
pub mod RoundTrip
pub mod Resolution
use rcx_registry.Prelude.Texts.{
  to_ascii_lowercase, all_bytes, is_ascii_digit, strip_prefix, behind, split_once, last_split,
  rsplit_once, contains_byte, strip_prefix-append, split_once-append, rsplit_once-none,
  rsplit_once-append, contains_byte-all_bytes, all_bytes-weaken,
}
use rcx_registry.Prelude.{
  ℕ, ◌+◌, Bool, true, false, not, ◌&&◌, ◌||◌, Option, none, some, List, [], ◌∷◌, ◌++◌, map, Bytes,
  codes, bytes_eq, leb, ◌==◌, if◌then◌else◌, length, sort_by,
}
use rcx_registry.Prelude.Outcome.{Outcome, ok, err, ◌>>=◌}
use rcx_registry.Prelude.Partial
use rcx_registry.Skills.Errors.{
  SkillsError, bad_skill_uri, UriReason, missing_scheme, missing_skill_id, empty_registry,
  registry_outside_host_syntax, empty_skill_id, skill_id_with_slash_or_dots, skill_id_with_at,
  empty_version, version_not_commit,
}
use rcx_registry.Skills.Lock.{SkillLock, LockEntry}

abbrev pub scheme : Bytes
scheme = codes "skill://"

pub record SkillUri : Type 0 where
  pub registry : Bytes
  pub skill_id : Bytes
  pub version : Option Bytes

-- `contains` of `..`
unfoldable pub contains_dots : Bytes → Bool
contains_dots [] = false
contains_dots (b ∷ []) = false
contains_dots (a ∷ b ∷ text) = a == b'.' && b == b'.' || contains_dots (b ∷ text)

abbrev pub is_ascii_alphanumeric : ℕ → Bool
is_ascii_alphanumeric b = is_ascii_digit b || leb b'a' b && leb b b'z' || leb b'A' b && leb b b'Z'

abbrev pub is_host_byte : ℕ → Bool
is_host_byte b = is_ascii_alphanumeric b || b == b'.' || b == b'-' || b == b':'

abbrev pub is_ascii_hexdigit : ℕ → Bool
is_ascii_hexdigit b = is_ascii_digit b || leb b'a' b && leb b b'f' || leb b'A' b && leb b b'F'

unfoldable pub is_commit_id : Bytes → Bool
unfolding all_bytes
is_commit_id s = length s == 40 && all_bytes is_ascii_hexdigit s

abbrev pub is_empty : Bytes → Bool
is_empty [] = true
is_empty (b ∷ bs) = false

-- the id and the version, at the last `@`
abbrev pub id_and_version : Bytes → Option (Bytes × Bytes) → Bytes × Option Bytes
id_and_version tail (some (id, ver)) = (id, some ver)
id_and_version tail none = (tail, none)

-- the `match version`
unfoldable pub parse_version : Bytes → Option Bytes → Outcome SkillsError (Option Bytes)
parse_version raw none = ok none
parse_version raw (some []) = err (bad_skill_uri raw empty_version)
parse_version raw (some (b ∷ v)) =
    if is_commit_id (b ∷ v)
    then ok (some (to_ascii_lowercase (b ∷ v)))
    else err (bad_skill_uri raw version_not_commit)

-- the checks of the id, and the version
unfoldable pub parse_id : Bytes → Bytes → Bytes × Option Bytes → Outcome SkillsError SkillUri
unfolding parse_version
parse_id raw registry (skill_id, version) =
    let parsed = parse_version raw version in
    if is_empty skill_id
    then err (bad_skill_uri raw empty_skill_id)
    else if contains_byte b'/' skill_id || contains_dots skill_id
    then err (bad_skill_uri raw skill_id_with_slash_or_dots)
    else if contains_byte b'@' skill_id
    then err (bad_skill_uri raw skill_id_with_at)
    else (parsed >>= λ v. ok (record { registry = registry; skill_id = skill_id; version = v }))

-- the checks of the authority
unfoldable pub parse_authority : Bytes → Option (Bytes × Bytes) → Outcome SkillsError SkillUri
unfolding parse_id
parse_authority raw none = err (bad_skill_uri raw missing_skill_id)
parse_authority raw (some (registry, tail)) =
    if is_empty registry
    then err (bad_skill_uri raw empty_registry)
    else if not (all_bytes is_host_byte registry)
    then err (bad_skill_uri raw registry_outside_host_syntax)
    else parse_id raw registry (id_and_version tail (rsplit_once b'@' tail))

unfoldable pub parse_rest : Bytes → Option Bytes → Outcome SkillsError SkillUri
unfolding parse_authority
parse_rest raw none = err (bad_skill_uri raw missing_scheme)
parse_rest raw (some rest) = parse_authority raw (split_once b'/' rest)

unfoldable pub parse : Bytes → Outcome SkillsError SkillUri
unfolding parse_rest
parse raw = parse_rest raw (strip_prefix scheme raw)

abbrev pub display_version : Option Bytes → Bytes
display_version none = []
display_version (some version) = b'@' ∷ version

-- `Display`
unfoldable pub display : SkillUri → Bytes
display uri = scheme ++ (uri.registry ++ b'/' ∷ (uri.skill_id ++ display_version uri.version))

-- Registries, and which of them answers.
pub data RegistryKind : Type 0 where
  local trusted_remote public_fallback : RegistryKind

-- the derived order
abbrev pub rank : RegistryKind → ℕ
rank local = 0
rank trusted_remote = 1
rank public_fallback = 2

pub record Registry : Type 0 where
  pub host : Bytes
  pub kind : RegistryKind
  pub lock : SkillLock

pub record Resolved : Type 0 where
  pub uri : SkillUri
  pub registry : Bytes
  pub kind : RegistryKind
  pub entry : LockEntry

-- `sort_by_key(|r| r.kind)`, which is stable
abbrev pub kind_le : Registry → Registry → Bool
kind_le a b = leb (rank a.kind) (rank b.kind)

unfoldable pub resolution_order : List Registry → List Registry
resolution_order registries = sort_by kind_le registries

-- `BTreeMap::get`
unfoldable pub get_skill : Bytes → List (Bytes × LockEntry) → Option LockEntry
get_skill name [] = none
get_skill name ((k, e) ∷ es) = if bytes_eq k name then some e else get_skill name es

-- the first registry of that host
unfoldable pub find_host : Bytes → List Registry → Option Registry
find_host host [] = none
find_host host (r ∷ rs) = if bytes_eq r.host host then some r else find_host host rs

-- whether an entry is at the commit that is asked for
abbrev pub at_commit : Option Bytes → LockEntry → Bool
at_commit none e = true
at_commit (some version) e = bytes_eq e.git_ref version

unfoldable pub resolve : SkillUri → List Registry → Option Resolved
resolve uri registries = Partial.◌>>=◌ (find_host uri.registry registries) λ r.
    Partial.◌>>=◌ (get_skill uri.skill_id r.lock.skills) λ e.
      if not (at_commit uri.version e)
      then none
      else some (record { uri = uri; registry = r.host; kind = r.kind; entry = e })

-- the version of an entry that has a commit
abbrev pub version_of : LockEntry → Option Bytes
version_of e = if is_empty e.git_ref then none else some e.git_ref

abbrev pub answer : Bytes → Registry → LockEntry → Resolved
answer skill_id r e = record {
  uri = record { registry = r.host; skill_id = skill_id; version = version_of e };
  registry = r.host;
  kind = r.kind;
  entry = e;
}

-- the loop of `resolve_by_id`
unfoldable pub first_answer : Bytes → List Registry → Option Resolved
first_answer skill_id [] = none
first_answer skill_id (r ∷ rs) = elim (get_skill skill_id r.lock.skills) [
  | none ↦ first_answer skill_id rs
  | some e ↦ some (answer skill_id r e)
]

unfoldable pub resolve_by_id : Bytes → List Registry → Option Resolved
unfolding first_answer resolution_order
resolve_by_id skill_id registries = first_answer skill_id (resolution_order registries)

unfoldable pub uri_for : Bytes → Bytes × LockEntry → SkillUri
uri_for authority (name, e) = record {
  registry = authority;
  skill_id = name;
  version = version_of e;
}

unfoldable pub uris_for : SkillLock → Bytes → List SkillUri
uris_for lock authority = map (uri_for authority) lock.skills

unfoldable pub pinned_to : SkillUri → Bytes → SkillUri
pinned_to uri commit = record {
  registry = uri.registry;
  skill_id = uri.skill_id;
  version = some (to_ascii_lowercase commit);
}
