-- ===== src/Admin/Namespace.antt =====
-- crates/rcx-registry-admin/src/lib.rs: which kind of namespace a server's name is in, and the proofs
-- that a publisher controls it. `none` of a receipt is the encoder's panic.
pub mod Control
pub mod Receipt
pub mod Classify
use rcx_registry.Prelude.Texts.{strip_prefix, split_once}
use rcx_registry.Prelude.{
  ℕ, Bool, true, false, ◌||◌, Option, none, some, List, [], ◌∷◌, ◌++◌, Bytes, codes, bytes_eq,
  if◌then◌else◌, replicate,
}
use rcx_registry.Prelude.Partial.{◌>>=◌}
use rcx_registry.Prelude.Outcome
use rcx_registry.Prelude.Outcome.{Outcome, ok, err}
use rcx_registry.Crown.Crypto.{Crypto}
use rcx_registry.Crown.Float.{Platform}
use rcx_registry.Crown.Receipt.{hash_len, signature_len, compute_hash}
use rcx_registry.Crown.Receipt.Kinds.Claims.{
  PublisherRightsVerifiedReceipt, publisher_rights_verified,
}
use rcx_registry.Admin.Pop.{Hex}

pub data NamespaceKind : Type 0 where
  github reverse_dns : Bytes → NamespaceKind
  anonymous : NamespaceKind

pub record NamespaceClaim : Type 0 where
  pub namespace : Bytes
  pub server_name : Bytes
  pub kind : NamespaceKind

pub record DnsTxtChallenge : Type 0 where
  pub record_name : Bytes
  pub expected_value : Bytes

pub record PublisherRightsRecord : Type 0 where
  pub publisher_passport : Bytes
  pub namespace : Bytes
  pub server_name : Bytes
  pub verification_method : Bytes
  pub verified_at : ℕ
  pub receipt_hash : Bytes

pub data VerificationMethod : Type 0 where
  github_oauth dns_txt manual : VerificationMethod

unfoldable pub method_text : VerificationMethod → Bytes
method_text github_oauth = codes "github_oauth"
method_text dns_txt = codes "dns_txt"
method_text manual = codes "manual"

pub data AdminError : Type 0 where
  invalid_server_name anonymous_namespace dns_namespace_required : AdminError
  manual_namespace_required : AdminError
  unsupported_namespace : Bytes → AdminError
  github_passport_mismatch dns_txt_mismatch : Bytes → Bytes → AdminError

abbrev pub github_prefix : Bytes
github_prefix = codes "io.github."

abbrev pub anonymous_text : Bytes
anonymous_text = codes "io.modelcontextprotocol.anonymous"

abbrev pub dns_prefix : Bytes
dns_prefix = codes "io."

abbrev pub passport_prefix : Bytes
passport_prefix = codes "passport:github:"

-- the last of the three tests
unfoldable pub dns_kind : Bytes → Option Bytes → Outcome AdminError NamespaceKind
dns_kind namespace (some domain) = ok (reverse_dns domain)
dns_kind namespace none = err (unsupported_namespace namespace)

-- the tests behind that for GitHub
unfoldable pub namespace_kind : Bytes → Option Bytes → Outcome AdminError NamespaceKind
unfolding dns_kind
namespace_kind namespace (some owner) = ok (github owner)
namespace_kind namespace none =
    if bytes_eq namespace anonymous_text
    then ok anonymous
    else dns_kind namespace (strip_prefix dns_prefix namespace)

-- the claim of a name that was split at its first `/`
unfoldable pub claim_of : Bytes → Option (Bytes × Bytes) → Outcome AdminError NamespaceClaim
unfolding namespace_kind
claim_of server_name none = err invalid_server_name
claim_of server_name (some (namespace, _)) =
    Outcome.◌>>=◌ (namespace_kind namespace (strip_prefix github_prefix namespace))
      λ kind. ok (record { namespace = namespace; server_name = server_name; kind = kind })

unfoldable pub classify_namespace : Bytes → Outcome AdminError NamespaceClaim
unfolding claim_of
classify_namespace server_name = claim_of server_name (split_once b'/' server_name)

-- the `match` on the kind
unfoldable pub github_passport : Bytes → Bytes → NamespaceKind → Outcome AdminError (Unit {0})
github_passport namespace publisher_passport (github owner) =
    if bytes_eq publisher_passport (passport_prefix ++ owner)
    then ok tt
    else err (github_passport_mismatch publisher_passport owner)
github_passport namespace publisher_passport anonymous = err anonymous_namespace
github_passport namespace publisher_passport (reverse_dns domain) =
    err (unsupported_namespace namespace)

unfoldable pub verify_github_passport : NamespaceClaim → Bytes → Outcome AdminError (Unit {0})
unfolding github_passport
verify_github_passport claim publisher_passport =
    github_passport claim.namespace publisher_passport claim.kind

unfoldable pub dns_txt_challenge : Bytes → Bytes → DnsTxtChallenge
dns_txt_challenge domain passport_fingerprint = record {
  record_name = codes "_rcx-registry." ++ domain;
  expected_value = passport_fingerprint;
}

-- `any`
unfoldable pub observed : Bytes → List Bytes → Bool
observed expected [] = false
observed expected (v ∷ vs) = bytes_eq v expected || observed expected vs

-- the domain of a kind that has one
unfoldable pub dns_txt_of : NamespaceKind → Bytes → List Bytes → Outcome AdminError DnsTxtChallenge
unfolding dns_txt_challenge observed
dns_txt_of (reverse_dns domain) passport_fingerprint observed_values =
    let challenge = dns_txt_challenge domain passport_fingerprint in
    if observed challenge.expected_value observed_values
    then ok challenge
    else err (dns_txt_mismatch challenge.record_name challenge.expected_value)
dns_txt_of (github owner) passport_fingerprint observed_values = err dns_namespace_required
dns_txt_of anonymous passport_fingerprint observed_values = err dns_namespace_required

unfoldable pub verify_dns_txt :
    NamespaceClaim → Bytes → List Bytes → Outcome AdminError DnsTxtChallenge
unfolding dns_txt_of
verify_dns_txt claim passport_fingerprint observed_values =
    dns_txt_of claim.kind passport_fingerprint observed_values

unfoldable pub manual_review_of : NamespaceKind → Outcome AdminError (Unit {0})
manual_review_of anonymous = err manual_namespace_required
manual_review_of (github owner) = ok tt
manual_review_of (reverse_dns domain) = ok tt

unfoldable pub verify_manual_review : NamespaceClaim → Outcome AdminError (Unit {0})
unfolding manual_review_of
verify_manual_review claim = manual_review_of claim.kind

-- a receipt of publisher rights under a hash and a signature
abbrev pub rights_receipt :
    Bytes
    → Bytes
    → Bytes
    → VerificationMethod
    → ℕ
    → Bytes
    → Bytes
    → Bytes
    → PublisherRightsVerifiedReceipt
rights_receipt event_id publisher_passport namespace method verified_at_ms signer_kid hash
      signature =
    record {
      event_id = event_id;
      publisher_passport = publisher_passport;
      namespace = namespace;
      verification_method = method_text method;
      verified_at = verified_at_ms;
      receipt_hash = hash;
      receipt_signature = signature;
      signer_kid = signer_kid;
    }

unfoldable pub build_publisher_rights_verified_receipt :
    Platform
    → Crypto
    → Bytes
    → Bytes
    → Bytes
    → VerificationMethod
    → ℕ
    → Bytes
    → Option PublisherRightsVerifiedReceipt
build_publisher_rights_verified_receipt p c event_id publisher_passport namespace method
      verified_at_ms signer_kid =
    let receipt =
      rights_receipt event_id publisher_passport namespace method verified_at_ms signer_kid in
    compute_hash p c (receipt (replicate hash_len 0) (replicate signature_len 0)) >>= λ hash.
    some (receipt hash (replicate signature_len 0))

unfoldable pub publisher_rights_record :
    Hex → NamespaceClaim → Bytes → VerificationMethod → ℕ → Bytes → PublisherRightsRecord
publisher_rights_record h claim publisher_passport method verified_at_ms receipt_hash = record {
  publisher_passport = publisher_passport;
  namespace = claim.namespace;
  server_name = claim.server_name;
  verification_method = method_text method;
  verified_at = verified_at_ms;
  receipt_hash = codes "blake3:" ++ h.encode_hex receipt_hash;
}
