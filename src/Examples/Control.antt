-- ===== src/Examples/Control.antt =====
-- Proofs of control over a namespace.
use rcx_registry.Prelude.{
  ◌≡◌, refl, false, none, some, [], ◌∷◌, Bytes, codes, bytes_eq, to_be_bytes,
}
use rcx_registry.Prelude.Outcome.{ok}
use rcx_registry.Crown.Cbor.Encode.{encode, write_value}
use rcx_registry.Crown.Receipt.{compute_hash, receipt_fields}
use rcx_registry.Admin.Pop.{
  Hex, challenge_signing_bytes, passport_fpr_from_public_key, length_prefixed, of_hex,
  decode_public_key, check_fingerprint, check_pop_signature, verify_pop,
}
use rcx_registry.Admin.Namespace.{
  NamespaceClaim, PublisherRightsRecord, reverse_dns, github, dns_txt, publisher_rights_record,
  classify_namespace, claim_of, namespace_kind, dns_kind, verify_dns_txt, verify_github_passport,
  github_passport, dns_txt_of, dns_txt_challenge, observed, build_publisher_rights_verified_receipt,
}
use rcx_registry.Api.Errors.{Api}
use rcx_registry.Api.State.{
  ApiState, new_state, check_limit, issue_nonce, issue_state, consume_nonce, store_right,
  consume_state,
}
use rcx_registry.Api.Control.{
  Services, nonce_binding, state_binding, dns_verify, github_oauth_callback, verify_dns,
  prove_domain, grant, build_verified_rights_record, domain_or, check_label, owner_or, check_owner,
  call_back, prove_owner,
}
use rcx_registry.Api.Requests.{
  DnsVerifyRequest, GithubCallbackQuery, client_key, trim_start, trim_end,
}
use rcx_registry.Api.RateLimit as RateLimit
use rcx_registry.Api.RateLimit.{retain_windows, get_window, set_window}
use rcx_registry.Api.Stores.{upsert_right, put_row}
use rcx_registry.Admin.Pop.Nonces as Nonces
use rcx_registry.Admin.Pop.OauthStates as OauthStates
use rcx_registry.Admin.Pop.Store as Store
use rcx_registry.Prelude.Texts.{strip_prefix, split_once, split_on}
use rcx_registry.Api.Control.Proven.{IsProvenDomain, dns_verify-IsProvenDomain}
use rcx_registry.Api.Control.ProvenOwner.{IsProvenOwner, github_oauth_callback-IsProvenOwner}
use rcx_registry.Api.Control.Refused.{IsAttempt, dns_verify-IsAttempt}
use rcx_registry.Examples.Toy.{toy_platform, toy_crypto, toy_key, toy_sign}

-- texts of digits that stand for themselves
abbrev pub toy_hex : Hex
toy_hex = record { decode_hex = λ digits. some digits; encode_hex = λ bs. bs }

abbrev pub toy_fpr : Bytes
toy_fpr = passport_fpr_from_public_key toy_crypto toy_hex toy_key

-- a domain that names the key, and an owner that GitHub resolves every code to
abbrev pub toy_services : Services
toy_services = record {
  lookup_txt = λ name. ok (codes "other" ∷ toy_fpr ∷ []);
  authorize_url = λ owner uri state. ok uri;
  exchange_code = λ code state. ok (codes "acme");
  fresh_nonce = ok (codes "ab");
}

abbrev pub dns_claim : NamespaceClaim
dns_claim = record {
  namespace = codes "io.x.org";
  server_name = codes "io.x.org/tool";
  kind = reverse_dns (codes "x.org");
}

abbrev dns_request : DnsVerifyRequest
dns_request = record {
  server_name = codes "io.x.org/tool";
  publisher_passport = codes "passport:dns:x.org";
  passport_fingerprint = toy_fpr;
  public_key_hex = toy_key;
  nonce = codes "ab";
  signature =
      toy_sign toy_key (challenge_signing_bytes (codes "ab") (codes "io.x.org/tool") toy_fpr);
}

abbrev challenged : ApiState
challenged =
    (issue_nonce 1000 (codes "ab")
      (nonce_binding toy_platform toy_crypto toy_hex toy_services dns_claim toy_fpr toy_key)
      new_state).1

abbrev row_or : Api PublisherRightsRecord → PublisherRightsRecord
row_or (ok row) = row
row_or _ = publisher_rights_record toy_hex dns_claim [] dns_txt 0 []

abbrev dns_answer : Api PublisherRightsRecord × ApiState
dns_answer =
    dns_verify toy_platform toy_crypto toy_hex toy_services 2000 2001 2002 (some (codes "10.0.0.1"))
      dns_request challenged

dns_classified : classify_namespace dns_request.server_name ≡ ok dns_claim
unfolding classify_namespace claim_of namespace_kind dns_kind split_once strip_prefix bytes_eq
dns_classified = refl

dns_granted : dns_answer ≡ (ok (row_or dns_answer.0), dns_answer.1)
unfolding dns_verify verify_dns prove_domain grant check_limit consume_nonce issue_nonce store_right
    build_verified_rights_record domain_or check_label client_key trim_start trim_end split_on
    new_state RateLimit.new RateLimit.check retain_windows get_window set_window Nonces.new
    Nonces.issue Nonces.consume Nonces.binding_eq Store.new Store.issue Store.consume Store.find
    Store.remove Store.retain Store.insert Store.judge Store.saturating_add classify_namespace
    claim_of namespace_kind dns_kind split_once strip_prefix bytes_eq verify_pop check_fingerprint
    decode_public_key of_hex passport_fpr_from_public_key check_pop_signature
    challenge_signing_bytes length_prefixed verify_dns_txt dns_txt_of dns_txt_challenge observed
    upsert_right put_row to_be_bytes build_publisher_rights_verified_receipt compute_hash encode
    write_value receipt_fields
dns_granted = refl

dns_verify-IsProvenDomain_example :
    IsProvenDomain toy_platform toy_crypto toy_hex toy_services 2001 2002 dns_request
      challenged.pop_nonces dns_answer.1
      (row_or dns_answer.0)
dns_verify-IsProvenDomain_example =
    dns_verify-IsProvenDomain toy_platform toy_crypto toy_hex toy_services 2000 2001 2002
      (some (codes "10.0.0.1")) dns_request challenged dns_answer.1 (row_or dns_answer.0)
      dns_granted

-- the same request over a signature of other bytes
abbrev bad_request : DnsVerifyRequest
bad_request = record dns_request { signature = toy_sign toy_key (codes "no") }

abbrev limited : Api (Unit {0}) × ApiState
limited = check_limit 2000 (client_key none) challenged

let_through : limited ≡ (ok tt, limited.1)
unfolding check_limit RateLimit.check RateLimit.new new_state issue_nonce retain_windows get_window
    set_window bytes_eq client_key
let_through = refl

lock_is_sound : challenged.pop_nonces.poisoned ≡ false
unfolding issue_nonce new_state Nonces.issue Store.issue Nonces.new Store.new
lock_is_sound = refl

dns_verify-IsAttempt_example :
    let r =
      dns_verify toy_platform toy_crypto toy_hex toy_services 2000 2001 2002 none bad_request
        challenged in
    IsAttempt toy_platform toy_crypto toy_hex toy_services (codes "ab") challenged r.0 r.1
dns_verify-IsAttempt_example =
    dns_verify-IsAttempt toy_platform toy_crypto toy_hex toy_services 2000 2001 2002 none
      bad_request dns_claim (codes "x.org") challenged limited.1 let_through dns_classified refl
      refl lock_is_sound

abbrev github_claim : NamespaceClaim
github_claim = record {
  namespace = codes "io.github.acme";
  server_name = codes "io.github.acme/tool";
  kind = github (codes "acme");
}

abbrev callback : GithubCallbackQuery
callback = record {
  server_name = codes "io.github.acme/tool";
  publisher_passport = codes "passport:github:acme";
  code = codes "c";
  state = codes "s1";
  redirect_uri = codes "https://rcx";
}

abbrev started : ApiState
started =
    (issue_state 1000 (codes "s1")
      (state_binding toy_platform toy_crypto toy_hex toy_services github_claim
        (codes "passport:github:acme") (codes "https://rcx"))
      new_state).1

abbrev github_answer : Api PublisherRightsRecord × ApiState
github_answer =
    github_oauth_callback toy_platform toy_crypto toy_hex toy_services 2000 2001 callback started

github_granted : github_answer ≡ (ok (row_or github_answer.0), github_answer.1)
unfolding github_oauth_callback call_back prove_owner grant consume_state issue_state store_right
    build_verified_rights_record owner_or check_owner new_state OauthStates.new OauthStates.issue
    OauthStates.consume OauthStates.binding_eq Store.new Store.issue Store.consume Store.find
    Store.remove Store.retain Store.insert Store.judge Store.saturating_add classify_namespace
    claim_of namespace_kind split_once strip_prefix bytes_eq verify_github_passport github_passport
    upsert_right put_row build_publisher_rights_verified_receipt compute_hash encode write_value
    receipt_fields
github_granted = refl

github_oauth_callback-IsProvenOwner_example :
    IsProvenOwner toy_platform toy_crypto toy_hex toy_services 2000 2001 callback started
      github_answer.1
      (row_or github_answer.0)
github_oauth_callback-IsProvenOwner_example =
    github_oauth_callback-IsProvenOwner toy_platform toy_crypto toy_hex toy_services 2000 2001
      callback started github_answer.1 (row_or github_answer.0) github_granted
