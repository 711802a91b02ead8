-- ===== src/Skills/Errors.antt =====
-- `SkillsError` of crates/rcx-registry-skills/src/error.rs, less the errors of other crates that it
-- wraps and of fetching; the reasons that it spells out are data.
use rcx_registry.Prelude.{ℕ, Bytes}
use rcx_registry.Crown.Cbor.Decode.{CrownError}

pub data SignReason : Type 0 where
  empty_lock root_differs : SignReason
  version_below : ℕ → SignReason
  ref_not_commit : Bytes → Bytes → SignReason
  signature_refused : CrownError → SignReason
  lock_version_differs skill_count_differs : ℕ → ℕ → SignReason

pub data UriReason : Type 0 where
  missing_scheme missing_skill_id empty_registry registry_outside_host_syntax : UriReason
  empty_skill_id skill_id_with_slash_or_dots skill_id_with_at empty_version : UriReason
  version_not_commit : UriReason

pub data SkillsError : Type 0 where
  bad_hash unsupported_source : Bytes → Bytes → SkillsError
  not_signable : SignReason → SkillsError
  bad_skill_uri : Bytes → UriReason → SkillsError
