-- ===== src/Api/Control/Proven.antt =====
-- What a handler that grants rights has checked.
use mathlib.Core.List.{Memᴰ}
use mathlib.Core.Path.{subst}
use rcx_registry.Prelude.{ℕ, ◌≡◌, sym, Option, some, List, ◌++◌, Bytes, codes}
use rcx_registry.Prelude.Outcome.{ok}
use rcx_registry.Crown.Crypto.{Crypto}
use rcx_registry.Crown.Float.{Platform}
use rcx_registry.Admin.Pop.{Hex}
use rcx_registry.Admin.Pop.Accepts.{IsProof, verify_pop_iff}
use rcx_registry.Admin.Pop.Nonces.{NonceStore}
use rcx_registry.Admin.Namespace.{
  reverse_dns, NamespaceClaim, dns_txt, PublisherRightsRecord, publisher_rights_record,
  classify_namespace, dns_txt_challenge,
}
use rcx_registry.Admin.Namespace.Control.{IsClaimOf, verify_dns_txt-classify_namespace}
use rcx_registry.Api.Stores.{lookup_right}
use rcx_registry.Api.State.{ApiState, check_limit, consume_nonce}
use rcx_registry.Api.State.Calls.{>>=-eq-ok, lift-eq-ok, map_err-eq-ok}
use rcx_registry.Api.Control.Granted.{
  IsSpent, domain_sound, label_sound, spawned, checked, consumed, granted,
}
use rcx_registry.Api.Control.{
  Services, dns_label, nonce_binding, prove_domain, verify_dns, dns_verify,
}
use rcx_registry.Api.Requests.{DnsVerifyRequest, client_key}

module _ (p : Platform) (c : Crypto) (h : Hex) (services : Services) where
  -- What has been checked when a domain's rights are granted.
  pub record IsProvenDomain (consumed_at verified_at : ℕ) (body : DnsVerifyRequest)
      (nonces : NonceStore) (s' : ApiState) (row : PublisherRightsRecord) : Type 0 where
    pub claim : NamespaceClaim
    pub domain : Bytes
    pub values : List Bytes
    pub hash : Bytes
    pub is_claim : IsClaimOf body.server_name claim
    pub is_dns : claim.kind ≡ reverse_dns domain
    pub labelled : body.publisher_passport ≡ dns_label domain
    pub is_spent :
        IsSpent nonces s'.pop_nonces consumed_at body.nonce
          (nonce_binding p c h services claim body.passport_fingerprint body.public_key_hex)
    pub proof :
        IsProof c h body.nonce claim.server_name body.passport_fingerprint body.public_key_hex
          body.signature
    pub resolved : services.lookup_txt (codes "_rcx-registry." ++ domain) ≡ ok values
    pub named : Memᴰ body.passport_fingerprint values
    pub is_row :
        row ≡ publisher_rights_record h claim body.publisher_passport dns_txt verified_at hash
    pub found :
        lookup_right row.publisher_passport row.namespace s'.publisher_rights_store ≡ ok (some row)

  proved_domain :
      (consumed_at verified_at : ℕ) (claim : NamespaceClaim) (domain : Bytes)
      (body : DnsVerifyRequest) (s s' : ApiState) (row : PublisherRightsRecord)
      → classify_namespace body.server_name ≡ ok claim
      → claim.kind ≡ reverse_dns domain
      → body.publisher_passport ≡ dns_label domain
      → prove_domain p c h services consumed_at verified_at claim domain body s ≡ (ok row, s')
      → IsProvenDomain consumed_at verified_at body s.pop_nonces s' row
  unfolding prove_domain dns_txt_challenge
  proved_domain consumed_at verified_at claim domain body s s' row hc hk hl e =
      let b = nonce_binding p c h services claim body.passport_fingerprint body.public_key_hex in
      let (_, t, e0, e0') = >>=-eq-ok (consume_nonce consumed_at body.nonce b) _ s e in
      let (_, e1, e1') = lift-eq-ok _ _ t e0' in
      let (values, e2, e2') = lift-eq-ok _ _ t e1' in
      let (challenge, e3, e3') = lift-eq-ok _ _ t e2' in
      let g =
        granted p c h services claim body.publisher_passport dns_txt verified_at t s' row e3' in
      let (is_claim, met) =
        verify_dns_txt-classify_namespace body.server_name body.passport_fingerprint values claim
          challenge hc (map_err-eq-ok _ _ e3) in
      record {
        claim = claim;
        domain = domain;
        values = values;
        hash = g.hash;
        is_claim = is_claim;
        is_dns = hk;
        labelled = hl;
        is_spent =
            subst (λ n. IsSpent s.pop_nonces n consumed_at body.nonce b)
              (sym g.is_stored.same_nonces) (consumed consumed_at body.nonce b s t e0);
        proof =
            (verify_pop_iff c h body.nonce claim.server_name body.passport_fingerprint
                body.public_key_hex body.signature).0
              (map_err-eq-ok _ _ e1);
        resolved = e2;
        named = met.found;
        is_row = g.is_row;
        found = g.is_stored.found;
      }

  -- If `dns_verify` grants a record, then the server's name is in a reverse-DNS namespace, the passport
  -- is the label of its domain, the nonce was live and bound to the very name, fingerprint and key and is
  -- now spent, the signature proves possession of the key, the TXT record of the domain names the
  -- fingerprint, and the record is that of the claim and can be looked up.
  pub dns_verify-IsProvenDomain :
      (received_at consumed_at verified_at : ℕ) (forwarded : Option Bytes) (body : DnsVerifyRequest)
      (s s' : ApiState) (row : PublisherRightsRecord)
      → dns_verify p c h services received_at consumed_at verified_at forwarded body s
        ≡ (ok row, s')
      → IsProvenDomain consumed_at verified_at body s.pop_nonces s' row
  unfolding dns_verify verify_dns
  dns_verify-IsProvenDomain received_at consumed_at verified_at forwarded body s s' row e =
      let (_, t, e0, e0') = >>=-eq-ok (check_limit received_at (client_key forwarded)) _ s e in
      let e' = spawned (verify_dns p c h services consumed_at verified_at body t) row s' e0' in
      let (claim, e1, e1') = lift-eq-ok _ _ t e' in
      let (domain, e2, e2') = lift-eq-ok _ _ t e1' in
      let (_, e3, e3') = lift-eq-ok _ _ t e2' in
      subst (λ n. IsProvenDomain consumed_at verified_at body n s' row)
        (checked received_at (client_key forwarded) s t e0).0
        (proved_domain consumed_at verified_at claim domain body t s' row (map_err-eq-ok _ _ e1)
          (domain_sound _ claim.kind domain e2) (label_sound _ _ _ e3) e3')
