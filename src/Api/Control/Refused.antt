-- ===== src/Api/Control/Refused.antt =====
-- What an attempt to prove a domain leaves, whatever it answers.
use mathlib.Core.Path.{subst}
use rcx_registry.Prelude.{
  ℕ, ◌≡◌, refl, sym, ap, ◌∙◌, false, inl, inr, Option, none, List, Bytes, bytes_eq_refl,
}
use rcx_registry.Prelude.Outcome.{ok}
use rcx_registry.Crown.Crypto.{Crypto}
use rcx_registry.Crown.Float.{Platform}
use rcx_registry.Admin.Pop.{Hex}
use rcx_registry.Api.Messages.{of_admin}
use rcx_registry.Admin.Pop.Store.{find}
use rcx_registry.Admin.Namespace.{
  reverse_dns, NamespaceClaim, VerificationMethod, PublisherRightsRecord, classify_namespace,
  dns_txt, dns_txt_challenge, verify_dns_txt,
}
use rcx_registry.Api.Errors.{Api}
use rcx_registry.Api.State.{
  ApiState, Handler, follow_call, ◌>>=◌, lift, spawn_store, check_limit, consume_nonce, store_right,
}
use rcx_registry.Api.Control.{
  Services, domain_or, check_label, dns_label, nonce_binding, grant, prove_domain, verify_dns,
  dns_verify, build_verified_rights_record,
}
use rcx_registry.Api.Requests.{DnsVerifyRequest, client_key}
use rcx_registry.Api.Control.Granted.{checked}
use rcx_registry.Api.State.Stops.{
  is_ok, stop_or_go, lift-stop_or_go, spawned, HasRights, HasSpent, refused-store_right,
  spent-consume_nonce, spent-store_right, kept-consume_nonce,
}

module _ (p : Platform) (c : Crypto) (h : Hex) (services : Services) where
  -- The rights are kept unless a value is returned, and a nonce that is spent stays so.
  pub record IsAttempt (nonce : Bytes) (s : ApiState) (o : Api PublisherRightsRecord)
      (s' : ApiState) : Type 0 where
    pub keeps : is_ok o ≡ false → s'.publisher_rights_store ≡ s.publisher_rights_store
    pub spent : find nonce s'.pop_nonces.entries ≡ none

  unchanged :
      (nonce : Bytes) (s : ApiState) (o : Api PublisherRightsRecord) (s' : ApiState)
      → HasSpent nonce s
      → s ≡ s'
      → IsAttempt nonce s o s'
  unchanged nonce s o s' k e =
      subst (IsAttempt nonce s o) e (record { keeps = λ _. refl; spent = k })

  attempted-grant :
      (nonce : Bytes) (claim : NamespaceClaim) (passport : Bytes) (method : VerificationMethod)
      (verified_at : ℕ) (s : ApiState) (o : Api PublisherRightsRecord) (s' : ApiState)
      → HasSpent nonce s
      → grant p c h services claim passport method verified_at s ≡ (o, s')
      → IsAttempt nonce s o s'
  unfolding grant
  attempted-grant nonce claim passport method verified_at s o s' k e =
      let built = build_verified_rights_record p c h services claim passport method verified_at in
      let q = lift-stop_or_go built (λ row. store_right row >>= λ _. lift (ok row)) s e in
      elim q [
        | inl same ↦ unchanged nonce s o s' k same
        | inr (row, _, e') ↦
            let q = stop_or_go (store_right row) _ s e' in
            elim q [
              | inl (refused, same) ↦ subst (IsAttempt nonce s o) same (record {
                keeps = λ _. refused-store_right row s refused;
                spent = spent-store_right nonce row s k;
              })
              | inr (_, t, e1, e2) ↦ record {
                keeps = λ n. absurd (cc (ap (λ r. is_ok r.0) e2, n));
                spent =
                    subst (HasSpent nonce) (ap (λ r. r.1) e1 ∙ ap (λ r. r.1) e2)
                      (spent-store_right nonce row s k);
              }
            ]
      ]

  -- An attempt on a state that has the rights of another.
  rebased :
      (nonce : Bytes) (s t : ApiState) (o : Api PublisherRightsRecord) (s' : ApiState)
      → t.publisher_rights_store ≡ s.publisher_rights_store
      → IsAttempt nonce t o s'
      → IsAttempt nonce s o s'
  rebased nonce s t o s' e k = record { keeps = λ n. k.keeps n ∙ e; spent = k.spent }

  attempted-prove_domain :
      (consumed_at verified_at : ℕ) (claim : NamespaceClaim) (domain : Bytes)
      (body : DnsVerifyRequest) (s : ApiState) (o : Api PublisherRightsRecord) (s' : ApiState)
      → s.pop_nonces.poisoned ≡ false
      → prove_domain p c h services consumed_at verified_at claim domain body s ≡ (o, s')
      → IsAttempt body.nonce s o s'
  unfolding prove_domain
  attempted-prove_domain consumed_at verified_at claim domain body s o s' h0 e =
      let b = nonce_binding p c h services claim body.passport_fingerprint body.public_key_hex in
      let end : Handler PublisherRightsRecord =
        grant p c h services claim body.publisher_passport dns_txt verified_at in
      let check_dns : List Bytes → Handler PublisherRightsRecord = λ values.
        lift (of_admin (verify_dns_txt claim body.passport_fingerprint values)) >>= λ _. end in
      let resolve : Handler PublisherRightsRecord =
        lift (services.lookup_txt (dns_txt_challenge domain body.passport_fingerprint).record_name)
        >>= check_dns in
      let kept = kept-consume_nonce consumed_at body.nonce b s in
      let spent = spent-consume_nonce consumed_at body.nonce b s h0 in
      elim (stop_or_go (consume_nonce consumed_at body.nonce b) _ s e) [
        | inl (_, same) ↦
            let first : IsAttempt body.nonce s o (consume_nonce consumed_at body.nonce b s).1 =
              record { keeps = λ _. kept; spent = spent } in
            subst (IsAttempt body.nonce s o) same first
        | inr (_, t, e1, e2) ↦
            let at_t : HasSpent body.nonce t =
              subst (HasSpent body.nonce) (ap (λ r. r.1) e1) spent in
            rebased body.nonce s t o s'
              (subst (HasRights s.publisher_rights_store) (ap (λ r. r.1) e1) kept)
              (let q = lift-stop_or_go _ (λ _. resolve) t e2 in
                elim q [
                  | inl same ↦ unchanged body.nonce t o s' at_t same
                  | inr (_, _, e3) ↦
                      let q = lift-stop_or_go _ check_dns t e3 in
                      elim q [
                        | inl same ↦ unchanged body.nonce t o s' at_t same
                        | inr (values, _, e4) ↦
                            let q = lift-stop_or_go _ (λ _. end) t e4 in
                            elim q [
                              | inl same ↦ unchanged body.nonce t o s' at_t same
                              | inr (_, _, e5) ↦
                                  attempted-grant body.nonce claim body.publisher_passport dns_txt
                                    verified_at t o s' at_t e5
                            ]
                      ]
                ])
      ]

  verified :
      (consumed_at verified_at : ℕ) (claim : NamespaceClaim) (domain : Bytes)
      (body : DnsVerifyRequest) (s : ApiState)
      → classify_namespace body.server_name ≡ ok claim
      → claim.kind ≡ reverse_dns domain
      → body.publisher_passport ≡ dns_label domain
      → verify_dns p c h services consumed_at verified_at body s
        ≡ prove_domain p c h services consumed_at verified_at claim domain body s
  unfolding verify_dns domain_or check_label
  verified consumed_at verified_at claim domain body s hc hk hl =
      rw (hc, hk, hl, bytes_eq_refl (dns_label domain))

  -- Once the limit lets a request through whose name is in the namespace of a domain and whose passport
  -- is the domain's label, the nonce is spent whatever `dns_verify` answers, and the stored rights are as
  -- before unless it grants a record. The nonces' lock must not be poisoned.
  pub dns_verify-IsAttempt :
      (received_at consumed_at verified_at : ℕ) (forwarded : Option Bytes) (body : DnsVerifyRequest)
      (claim : NamespaceClaim) (domain : Bytes) (s t : ApiState)
      → check_limit received_at (client_key forwarded) s ≡ (ok tt, t)
      → classify_namespace body.server_name ≡ ok claim
      → claim.kind ≡ reverse_dns domain
      → body.publisher_passport ≡ dns_label domain
      → s.pop_nonces.poisoned ≡ false
      → let r = dns_verify p c h services received_at consumed_at verified_at forwarded body s in
        IsAttempt body.nonce s r.0 r.1
  unfolding dns_verify
  dns_verify-IsAttempt received_at consumed_at verified_at forwarded body claim domain s t e hc hk
        hl h0 =
      let (n, r) = checked received_at (client_key forwarded) s t e in
      let o = prove_domain p c h services consumed_at verified_at claim domain body t in
      let k =
        attempted-prove_domain consumed_at verified_at claim domain body t o.0 o.1
          (ap (λ n. n.poisoned) n ∙ h0) refl in
      let (same_state, same_ok) = spawned o in
      let first : IsAttempt body.nonce s (spawn_store o).0 (spawn_store o).1 = record {
        keeps = λ refused.
            ap (λ u. u.publisher_rights_store) same_state ∙ (k.keeps (sym same_ok ∙ refused) ∙ r);
        spent = ap (λ u. find body.nonce u.pop_nonces.entries) same_state ∙ k.spent;
      } in
      subst (λ r. IsAttempt body.nonce s r.0 r.1)
        (sym (
          ap
            (follow_call
              λ _ u. spawn_store (verify_dns p c h services consumed_at verified_at body u))
            e
          ∙ ap (λ r. spawn_store r)
              (verified consumed_at verified_at claim domain body t hc hk hl)))
        first
