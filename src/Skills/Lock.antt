-- ===== src/Skills/Lock.antt =====
-- crates/rcx-registry-skills/src/lock.rs: lockfiles. The `BTreeMap` of the skills is the list of its
-- entries in ascending order of their names. Reading and printing the JSON is left out.
use rcx_registry.Prelude.Texts.{all_bytes, is_ascii_digit}
use rcx_registry.Prelude.{
  ℕ, Bool, true, false, not, ◌&&◌, ◌||◌, List, [], ◌∷◌, Bytes, codes, bytes_eq, ltb, leb, ◌==◌,
  if◌then◌else◌, length,
}
use rcx_registry.Prelude.Outcome.{Outcome, ok, err}
use rcx_registry.Skills.Errors.{
  SkillsError, bad_hash, unsupported_source, not_signable, version_below, empty_lock,
  ref_not_commit,
}

abbrev pub min_signable_lock_version : ℕ
min_signable_lock_version = 2

pub record LockEntry : Type 0 where
  pub source : Bytes
  pub source_type : Bytes
  pub skill_path : Bytes
  pub git_ref : Bytes
  pub computed_hash : Bytes

pub record SkillLock : Type 0 where
  pub version : ℕ
  pub skills : List (Bytes × LockEntry)

abbrev pub is_lower_hex_digit : ℕ → Bool
is_lower_hex_digit b = is_ascii_digit b || leb b'a' b && leb b b'f'

unfoldable pub is_lower_hex : Bytes → ℕ → Bool
unfolding all_bytes
is_lower_hex s len = length s == len && all_bytes is_lower_hex_digit s

unfoldable pub is_sha256_hex : Bytes → Bool
is_sha256_hex s = is_lower_hex s 64

unfoldable pub is_git_sha_hex : Bytes → Bool
is_git_sha_hex s = is_lower_hex s 40

-- the loop of `validate`
unfoldable pub validate_entries : List (Bytes × LockEntry) → Outcome SkillsError (Unit {0})
validate_entries [] = ok tt
validate_entries ((name, e) ∷ es) =
    let rest = validate_entries es in
    if not (is_sha256_hex e.computed_hash)
    then err (bad_hash name e.computed_hash)
    else if not (bytes_eq e.source_type (codes "github"))
    then err (unsupported_source name e.source_type)
    else rest

unfoldable pub validate : SkillLock → Outcome SkillsError (Unit {0})
validate lock = validate_entries lock.skills

-- the loop of `signable`
unfoldable pub check_refs : List (Bytes × LockEntry) → Outcome SkillsError (Unit {0})
check_refs [] = ok tt
check_refs ((name, e) ∷ es) =
    let rest = check_refs es in
    if not (is_git_sha_hex e.git_ref)
    then err (not_signable (ref_not_commit name e.git_ref))
    else rest

abbrev pub is_empty : List (Bytes × LockEntry) → Bool
is_empty [] = true
is_empty (e ∷ es) = false

unfoldable pub signable : SkillLock → Outcome SkillsError (Unit {0})
signable lock =
    if ltb lock.version min_signable_lock_version
    then err (not_signable (version_below lock.version))
    else if is_empty lock.skills
    then err (not_signable empty_lock)
    else check_refs lock.skills
