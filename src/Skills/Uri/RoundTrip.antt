-- ===== src/Skills/Uri/RoundTrip.antt =====
-- `SkillUri::parse` and `Display` together (crates/rcx-registry-skills/src/uri.rs).
use mathlib.Core.Path.{subst}
use rcx_registry.Prelude.Texts.{
  to_ascii_lowercase, lower_byte, all_bytes, strip_prefix, split_once, rsplit_once, contains_byte,
  strip_prefix-append, split_once-append, rsplit_once-none, rsplit_once-append,
  contains_byte-all_bytes, all_bytes-weaken,
}
use rcx_registry.Prelude.{
  ◌≡◌, refl, inl, inr, true, false, Option, none, some, [], ◌∷◌, ◌++◌, append-nil, Bytes,
  length-map, Bool-cases, arith,
}
use rcx_registry.Prelude.Outcome.{Outcome, ok, >>=-eq-ok}
use rcx_registry.Skills.Errors.{SkillsError}
use rcx_registry.Skills.Lock.{is_lower_hex, is_lower_hex_digit, is_git_sha_hex}
use rcx_registry.Skills.Uri.{
  scheme, SkillUri, contains_dots, is_host_byte, is_commit_id, is_ascii_hexdigit, is_empty,
  id_and_version, parse_version, parse_id, parse_authority, parse_rest, parse, display_version,
  display,
}
use rcx_registry.Skills.Uri.Parts.{lowercase-lower_hex, all_bytes-to_ascii_lowercase}

-- A version is none or a commit id in lower case.
abbrev pub IsVersion : Option Bytes → Type 0
IsVersion none = Unit
IsVersion (some version) = is_git_sha_hex version ≡ true

-- A URI that the grammar has.
pub record IsUri (uri : SkillUri) : Type 0 where
  pub registry_given : is_empty uri.registry ≡ false
  pub registry_host : all_bytes is_host_byte uri.registry ≡ true
  pub id_given : is_empty uri.skill_id ≡ false
  pub id_slash : contains_byte b'/' uri.skill_id ≡ false
  pub id_dots : contains_dots uri.skill_id ≡ false
  pub id_at : contains_byte b'@' uri.skill_id ≡ false
  pub version_pinned : IsVersion uri.version

parse_version-IsVersion :
    (raw : Bytes) (version : Option Bytes)
    → IsVersion version
    → parse_version raw version ≡ ok version
unfolding parse_version is_commit_id is_git_sha_hex is_lower_hex
parse_version-IsVersion raw none h = refl
parse_version-IsVersion raw (some []) h = cc
parse_version-IsVersion raw (some (b ∷ v)) h = ground (
  arith,
  all_bytes-weaken is_lower_hex_digit is_ascii_hexdigit (λ b h. ground arith) (b ∷ v),
  lowercase-lower_hex (b ∷ v),
)

split-version :
    (skill_id : Bytes) (version : Option Bytes)
    → contains_byte b'@' skill_id ≡ false
    → IsVersion version
    → id_and_version
        (skill_id ++ display_version version)
        (rsplit_once b'@' (skill_id ++ display_version version))
      ≡ (skill_id, version)
unfolding is_git_sha_hex is_lower_hex
split-version skill_id none h v = rw (append-nil skill_id, rsplit_once-none b'@' skill_id h)
split-version skill_id (some version) h v = rw (
    rsplit_once-append b'@' skill_id version
      (contains_byte-all_bytes b'@' is_lower_hex_digit version refl (ground arith)))

-- The parser reads back what is printed of a URI whose authority is not empty and of host syntax,
-- whose id is not empty and holds no `/`, no `..` and no `@`, and whose version is none or a commit id
-- in lower case.
pub parse-display : (uri : SkillUri) → IsUri uri → parse (display uri) ≡ ok uri
unfolding parse parse_rest parse_authority parse_id display
parse-display uri s = rw (
  strip_prefix-append scheme (uri.registry ++ b'/' ∷ (uri.skill_id ++ display_version uri.version)),
  split_once-append b'/' uri.registry (uri.skill_id ++ display_version uri.version)
      (contains_byte-all_bytes b'/' is_host_byte uri.registry refl s.registry_host),
  s.registry_given,
  s.registry_host,
  split-version uri.skill_id uri.version s.id_at s.version_pinned,
  s.id_given,
  s.id_slash,
  s.id_dots,
  s.id_at,
  parse_version-IsVersion (display uri) uri.version s.version_pinned,
)

same_value :
    (o : Outcome SkillsError (Option Bytes)) (a b : Option Bytes) → o ≡ ok a → o ≡ ok b → a ≡ b
same_value o a b h k = cc

lowered : (v : Bytes) → is_commit_id v ≡ true → is_git_sha_hex (to_ascii_lowercase v) ≡ true
unfolding is_commit_id is_git_sha_hex is_lower_hex to_ascii_lowercase
lowered v h = ground (arith, length-map lower_byte v, all_bytes-to_ascii_lowercase v)

IsVersion-sound :
    (raw : Bytes) (version parsed : Option Bytes)
    → parse_version raw version ≡ ok parsed
    → IsVersion parsed
unfolding parse_version
IsVersion-sound raw none parsed h = subst IsVersion (same_value _ none parsed refl h) tt
IsVersion-sound raw (some []) parsed h = cc
IsVersion-sound raw (some (b ∷ v)) parsed h = elim (Bool-cases (is_commit_id (b ∷ v))) [
  | inl y ↦
      subst IsVersion (same_value _ (some (to_ascii_lowercase (b ∷ v))) parsed refl (rw y at h))
        (lowered (b ∷ v) y)
  | inr n ↦ absurd (ground arith)
]

same_uri : (o : Outcome SkillsError SkillUri) (a b : SkillUri) → o ≡ ok a → o ≡ ok b → a ≡ b
same_uri o a b h k = cc

-- what passed the checks of the id
checked_id :
    (raw registry skill_id : Bytes) (version : Option Bytes) (uri : SkillUri)
    → parse_id raw registry (skill_id, version) ≡ ok uri
    → (is_empty skill_id ≡ false)
      × (contains_byte b'/' skill_id ≡ false)
      × (contains_dots skill_id ≡ false)
      × (contains_byte b'@' skill_id ≡ false)
unfolding parse_id
checked_id raw registry skill_id version uri h =
    (ground arith, ground arith, ground arith, ground arith)

id_sound :
    (raw registry : Bytes) (parts : Bytes × Option Bytes) (uri : SkillUri)
    → is_empty registry ≡ false
    → all_bytes is_host_byte registry ≡ true
    → parse_id raw registry parts ≡ ok uri
    → IsUri uri
unfolding parse_id
id_sound raw registry (skill_id, version) uri rg rh h =
    let (e, s, d, a) = checked_id raw registry skill_id version uri h in
    let (v, ev, ok_uri) = >>=-eq-ok (parse_version raw version) _ (rw (e, s, d, a) at h) in
    subst IsUri
      (same_uri _ (record { registry = registry; skill_id = skill_id; version = v }) uri refl
        ok_uri)
      (record {
        registry_given = rg;
        registry_host = rh;
        id_given = e;
        id_slash = s;
        id_dots = d;
        id_at = a;
        version_pinned = IsVersion-sound raw version v ev;
      })

authority_sound :
    (raw : Bytes) (parts : Option (Bytes × Bytes)) (uri : SkillUri)
    → parse_authority raw parts ≡ ok uri
    → IsUri uri
unfolding parse_authority
authority_sound raw none uri h = cc
authority_sound raw (some (registry, tail)) uri h = elim (Bool-cases (is_empty registry)) [
  | inl y ↦ absurd (ground arith)
  | inr g ↦ elim (Bool-cases (all_bytes is_host_byte registry)) [
    | inr n ↦ absurd (ground arith)
    | inl a ↦
        id_sound raw registry (id_and_version tail (rsplit_once b'@' tail)) uri g a (rw (g, a) at h)
  ]
]

rest_sound :
    (raw : Bytes) (rest : Option Bytes) (uri : SkillUri) → parse_rest raw rest ≡ ok uri → IsUri uri
unfolding parse_rest
rest_sound raw none uri h = cc
rest_sound raw (some rest) uri h = authority_sound raw (split_once b'/' rest) uri h

-- A URI that the parser returns has an authority that is not empty and of host syntax, an id that is
-- not empty and holds no `/`, no `..` and no `@`, and a version that is none or a commit id in lower
-- case, and what is printed of it is parsed to it again.
pub parse-IsUri :
    (raw : Bytes) (uri : SkillUri) → parse raw ≡ ok uri → IsUri uri × (parse (display uri) ≡ ok uri)
unfolding parse
parse-IsUri raw uri h =
    let s = rest_sound raw (strip_prefix scheme raw) uri h in (s, parse-display uri s)
