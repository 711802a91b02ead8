-- ===== src/Api/Control.antt =====
-- crates/rcx-registry-api/src/lib.rs: the handlers that prove control of a namespace. The resolver, the
-- OAuth provider and the source of entropy are parameters, as are the clock's readings.
pub mod Granted
pub mod Proven
pub mod ProvenOwner
pub mod Refused
use rcx_registry.Prelude.{
  ℕ, not, Option, none, some, List, [], ◌∷◌, ◌++◌, Bytes, codes, bytes_eq, ◌||◌, ◌==◌,
  if◌then◌else◌, take,
}
use rcx_registry.Prelude.Texts.{decimal, split_on}
use rcx_registry.Prelude.Outcome as Outcome
use rcx_registry.Prelude.Outcome.{ok, err, or_panic}
use rcx_registry.Crown.Crypto.{Crypto}
use rcx_registry.Crown.Float.{Platform}
use rcx_registry.Crown.Receipt.{ulid_len}
use rcx_registry.Admin.Pop.{Hex, check_fingerprint, verify_pop}
use rcx_registry.Admin.Pop.Nonces.{NonceBinding}
use rcx_registry.Admin.Pop.OauthStates.{OauthStateBinding}
use rcx_registry.Admin.Namespace.{
  NamespaceKind, github, reverse_dns, anonymous, NamespaceClaim, VerificationMethod, dns_txt,
  github_oauth, method_text, PublisherRightsRecord, classify_namespace, verify_github_passport,
  dns_txt_challenge, verify_dns_txt, build_publisher_rights_verified_receipt,
  publisher_rights_record,
}
use rcx_registry.Api.Requests.{
  DnsChallengeRequest, DnsChallengeResponse, DnsVerifyRequest, GithubStartQuery,
  GithubCallbackQuery, client_key,
}
use rcx_registry.Api.Errors.{Api, bad_request, verification_failed}
use rcx_registry.Api.Messages.{of_pop, of_admin}
use rcx_registry.Api.State.{
  ApiState, Handler, ◌>>=◌, lift, spawn_store, check_limit, issue_nonce, consume_nonce, issue_state,
  consume_state, store_right,
}

-- The resolver, the OAuth provider and the entropy of a request.
pub record Services : Type 0 where
  pub lookup_txt : Bytes → Api (List Bytes)
  pub authorize_url : Bytes → Bytes → Bytes → Api Bytes
  pub exchange_code : Bytes → Bytes → Api Bytes
  pub fresh_nonce : Api Bytes

-- `let NamespaceKind::ReverseDns { domain } = … else`
unfoldable pub domain_or : Bytes → NamespaceKind → Api Bytes
domain_or message (reverse_dns domain) = ok domain
domain_or message (github owner) = err (bad_request message)
domain_or message anonymous = err (bad_request message)

unfoldable pub owner_or : Bytes → NamespaceKind → Api Bytes
owner_or message (github owner) = ok owner
owner_or message (reverse_dns domain) = err (bad_request message)
owner_or message anonymous = err (bad_request message)

abbrev dns_only : Bytes
dns_only = codes "dns txt verification only applies to reverse-dns namespaces"

abbrev github_only : Bytes
github_only = codes "github oauth only applies to io.github.<owner> namespaces"

abbrev pub dns_label : Bytes → Bytes
dns_label domain = codes "passport:dns:" ++ domain

-- the test of the passport's label
unfoldable pub check_label : Bytes → Bytes → Bytes → Api (Unit {0})
check_label expected_label passport namespace =
    if not (bytes_eq passport expected_label)
    then err (
        verification_failed (
          codes "publisher_passport must be `"
          ++ (expected_label ++ (codes "` for namespace `" ++ (namespace ++ codes "`")))))
    else ok tt

-- the test of the owner that GitHub resolved
unfoldable pub check_owner : Bytes → Bytes → Api (Unit {0})
check_owner resolved expected =
    if not (bytes_eq resolved expected)
    then err (
        verification_failed (
          codes "github callback resolved owner `"
          ++ (resolved ++ (codes "` but namespace requires `" ++ (expected ++ codes "`")))))
    else ok tt

unfoldable pub derived_event_id : (Bytes → Bytes) → Bytes → Bytes
derived_event_id blake3 seed = take ulid_len (blake3 seed)

abbrev pub default_publisher_signer_kid : Bytes
default_publisher_signer_kid = codes "vault:transit:rcx-registry-signing-key-1"

module _ (p : Platform) (c : Crypto) (h : Hex) (services : Services) where
  abbrev event_seed : NamespaceClaim → Bytes → VerificationMethod → ℕ → Bytes
  event_seed claim passport method verified_at =
      claim.server_name
      ++ b':' ∷ (passport ++ b':' ∷ (method_text method ++ b':' ∷ decimal verified_at))

  unfoldable pub build_verified_rights_record :
      NamespaceClaim → Bytes → VerificationMethod → ℕ → Api PublisherRightsRecord
  unfolding derived_event_id
  build_verified_rights_record claim passport method verified_at =
      Outcome.◌>>=◌
        (or_panic (
          build_publisher_rights_verified_receipt p c
            (derived_event_id c.blake3 (event_seed claim passport method verified_at)) passport
            claim.namespace method verified_at default_publisher_signer_kid))
        λ receipt.
          ok (publisher_rights_record h claim passport method verified_at receipt.receipt_hash)

  abbrev pub nonce_binding : NamespaceClaim → Bytes → Bytes → NonceBinding
  nonce_binding claim fingerprint public_key_hex = record {
    server_name = claim.server_name;
    passport_fpr = fingerprint;
    public_key_hex = public_key_hex;
  }

  -- the last steps of a proof: the record is built and stored
  unfoldable pub grant :
      NamespaceClaim → Bytes → VerificationMethod → ℕ → Handler PublisherRightsRecord
  grant claim passport method verified_at = do
    row ← lift (build_verified_rights_record claim passport method verified_at)
    _ ← store_right row
    lift (ok row)

  unfoldable pub dns_challenge :
      ℕ → ℕ → Option Bytes → DnsChallengeRequest → Handler DnsChallengeResponse
  dns_challenge received_at issued_at forwarded body = do
    _ ← check_limit received_at (client_key forwarded)
    claim ← lift (of_admin (classify_namespace body.server_name))
    domain ← lift (domain_or dns_only claim.kind)
    _ ← lift (of_pop (check_fingerprint c h body.passport_fingerprint body.public_key_hex))
    nonce ← lift services.fresh_nonce
    nonce_expires_at ←
        issue_nonce issued_at nonce
          (nonce_binding claim body.passport_fingerprint body.public_key_hex)
    let challenge = dns_txt_challenge domain body.passport_fingerprint
    lift (
        ok (record {
          publisher_passport = body.publisher_passport;
          namespace = claim.namespace;
          server_name = claim.server_name;
          verification_method = method_text dns_txt;
          record_name = challenge.record_name;
          expected_value = challenge.expected_value;
          nonce = nonce;
          nonce_expires_at = nonce_expires_at;
        }))

  -- behind the passport's label: the nonce, the key and the domain
  unfoldable pub prove_domain :
      ℕ → ℕ → NamespaceClaim → Bytes → DnsVerifyRequest → Handler PublisherRightsRecord
  prove_domain consumed_at verified_at claim domain body = do
    _ ←
        consume_nonce consumed_at body.nonce
          (nonce_binding claim body.passport_fingerprint body.public_key_hex)
    _ ← lift (
        of_pop (
          verify_pop c h body.nonce claim.server_name body.passport_fingerprint body.public_key_hex
            body.signature))
    let challenge = dns_txt_challenge domain body.passport_fingerprint
    observed_values ← lift (services.lookup_txt challenge.record_name)
    _ ← lift (of_admin (verify_dns_txt claim body.passport_fingerprint observed_values))
    grant claim body.publisher_passport dns_txt verified_at

  -- the closure
  unfoldable pub verify_dns : ℕ → ℕ → DnsVerifyRequest → Handler PublisherRightsRecord
  verify_dns consumed_at verified_at body = do
    claim ← lift (of_admin (classify_namespace body.server_name))
    domain ← lift (domain_or dns_only claim.kind)
    _ ← lift (check_label (dns_label domain) body.publisher_passport claim.namespace)
    prove_domain consumed_at verified_at claim domain body

  unfoldable pub dns_verify :
      ℕ → ℕ → ℕ → Option Bytes → DnsVerifyRequest → Handler PublisherRightsRecord
  dns_verify received_at consumed_at verified_at forwarded body = do
    _ ← check_limit received_at (client_key forwarded)
    λ s. spawn_store (verify_dns consumed_at verified_at body s)

  abbrev pub state_binding : NamespaceClaim → Bytes → Bytes → OauthStateBinding
  state_binding claim passport redirect_uri = record {
    server_name = claim.server_name;
    publisher_passport = passport;
    redirect_uri = redirect_uri;
  }

  unfoldable pub github_oauth_start : ℕ → GithubStartQuery → Handler Bytes
  github_oauth_start issued_at query = do
    claim ← lift (of_admin (classify_namespace query.server_name))
    _ ← lift (of_admin (verify_github_passport claim query.publisher_passport))
    owner ← lift (owner_or github_only claim.kind)
    oauth_state ← lift services.fresh_nonce
    _ ←
        issue_state issued_at oauth_state
          (state_binding claim query.publisher_passport query.redirect_uri)
    lift (services.authorize_url owner query.redirect_uri oauth_state)

  -- behind the owner of the namespace: the state and the owner that GitHub resolves
  unfoldable pub prove_owner :
      ℕ → ℕ → NamespaceClaim → Bytes → GithubCallbackQuery → Handler PublisherRightsRecord
  prove_owner consumed_at verified_at claim owner query = do
    _ ←
        consume_state consumed_at query.state
          (state_binding claim query.publisher_passport query.redirect_uri)
    resolved_owner ← lift (services.exchange_code query.code query.state)
    _ ← lift (check_owner resolved_owner owner)
    grant claim query.publisher_passport github_oauth verified_at

  -- the closure
  unfoldable pub call_back : ℕ → ℕ → GithubCallbackQuery → Handler PublisherRightsRecord
  call_back consumed_at verified_at query = do
    claim ← lift (of_admin (classify_namespace query.server_name))
    _ ← lift (of_admin (verify_github_passport claim query.publisher_passport))
    owner ← lift (owner_or github_only claim.kind)
    prove_owner consumed_at verified_at claim owner query

  unfoldable pub github_oauth_callback : ℕ → ℕ → GithubCallbackQuery → Handler PublisherRightsRecord
  github_oauth_callback consumed_at verified_at query s =
      spawn_store (call_back consumed_at verified_at query s)
