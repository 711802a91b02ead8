-- ===== src/Api/Messages.antt =====
-- crates/rcx-registry-api/src/lib.rs: what a handler answers for an error of crates/rcx-registry-admin,
-- with that crate's messages.
use rcx_registry.Prelude.{◌++◌, Bytes, codes}
use rcx_registry.Prelude.Texts.{decimal}
use rcx_registry.Prelude.Outcome.{Outcome, map_err}
use rcx_registry.Admin.Pop.{
  PopError, malformed_public_key, malformed_signature, bad_signature, unknown_nonce,
  nonce_binding_mismatch, store_poisoned, public_key_length, signature_length, fingerprint_mismatch,
}
use rcx_registry.Admin.Namespace.{
  AdminError, invalid_server_name, anonymous_namespace, dns_namespace_required,
  manual_namespace_required, unsupported_namespace, github_passport_mismatch, dns_txt_mismatch,
}
use rcx_registry.Api.Errors.{Api, ApiError, bad_request, verification_failed, store}

-- the messages; what the crate `hex` says of malformed digits is left out
unfoldable pub pop_message : PopError → Bytes
pop_message malformed_public_key = codes "public key is not valid hex: "
pop_message (public_key_length n) =
    codes "public key is " ++ (decimal n ++ codes " bytes, expected 32")
pop_message malformed_signature = codes "signature is not valid hex: "
pop_message (signature_length n) =
    codes "signature is " ++ (decimal n ++ codes " bytes, expected 64")
pop_message (fingerprint_mismatch stated derived) =
    codes "passport fingerprint `"
    ++ (stated
        ++ (codes "` does not match the presented key (derived `" ++ (derived ++ codes "`)")))
pop_message bad_signature = codes "proof-of-possession signature did not verify"
pop_message unknown_nonce = codes "challenge nonce is unknown, already used, or expired"
pop_message nonce_binding_mismatch =
    codes "challenge nonce was issued for a different server_name, passport, or key"
pop_message store_poisoned = codes "nonce store mutex poisoned"

unfoldable pub of_pop_error : PopError → ApiError
unfolding pop_message
of_pop_error (fingerprint_mismatch stated derived) =
    verification_failed (pop_message (fingerprint_mismatch stated derived))
of_pop_error bad_signature = verification_failed (pop_message bad_signature)
of_pop_error unknown_nonce = verification_failed (pop_message unknown_nonce)
of_pop_error nonce_binding_mismatch = verification_failed (pop_message nonce_binding_mismatch)
of_pop_error store_poisoned = store (pop_message store_poisoned)
of_pop_error malformed_public_key = bad_request (pop_message malformed_public_key)
of_pop_error malformed_signature = bad_request (pop_message malformed_signature)
of_pop_error (public_key_length n) = bad_request (pop_message (public_key_length n))
of_pop_error (signature_length n) = bad_request (pop_message (signature_length n))

unfoldable pub admin_message : AdminError → Bytes
admin_message invalid_server_name = codes "server name must include a namespace and path"
admin_message (unsupported_namespace namespace) =
    codes "unsupported namespace `" ++ (namespace ++ codes "`")
admin_message (github_passport_mismatch passport owner) =
    codes "passport `"
    ++ (passport ++ (codes "` does not control github owner `" ++ (owner ++ codes "`")))
admin_message anonymous_namespace = codes "anonymous namespaces cannot be rights-verified in v1.0"
admin_message dns_namespace_required =
    codes "dns txt verification only applies to reverse-dns namespaces"
admin_message manual_namespace_required =
    codes "manual verification requires a non-anonymous namespace"
admin_message (dns_txt_mismatch record_name expected_value) =
    codes "dns txt record `"
    ++ (record_name ++ (codes "` did not contain `" ++ (expected_value ++ codes "`")))

unfoldable pub of_admin_error : AdminError → ApiError
unfolding admin_message
of_admin_error (github_passport_mismatch passport owner) =
    verification_failed (admin_message (github_passport_mismatch passport owner))
of_admin_error (dns_txt_mismatch record_name expected_value) =
    verification_failed (admin_message (dns_txt_mismatch record_name expected_value))
of_admin_error invalid_server_name = bad_request (admin_message invalid_server_name)
of_admin_error (unsupported_namespace namespace) =
    bad_request (admin_message (unsupported_namespace namespace))
of_admin_error anonymous_namespace = bad_request (admin_message anonymous_namespace)
of_admin_error dns_namespace_required = bad_request (admin_message dns_namespace_required)
of_admin_error manual_namespace_required = bad_request (admin_message manual_namespace_required)

abbrev pub of_pop : {A : Type 0} → Outcome PopError A → Api A
of_pop result = map_err of_pop_error result

abbrev pub of_admin : {A : Type 0} → Outcome AdminError A → Api A
of_admin result = map_err of_admin_error result
