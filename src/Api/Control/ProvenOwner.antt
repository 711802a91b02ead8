-- ===== src/Api/Control/ProvenOwner.antt =====
-- What `github_oauth_callback` has checked when it grants rights.
use mathlib.Core.Path.{subst}
use rcx_registry.Prelude.{ℕ, ◌≡◌, sym, ap, ◌∙◌, some, ◌++◌, Bytes, eq_of_bytes_eq, arith}
use rcx_registry.Prelude.Outcome.{ok}
use rcx_registry.Crown.Crypto.{Crypto}
use rcx_registry.Crown.Float.{Platform}
use rcx_registry.Admin.Pop.{Hex}
use rcx_registry.Admin.Namespace.{
  github, NamespaceClaim, github_oauth, PublisherRightsRecord, publisher_rights_record,
  passport_prefix, classify_namespace, github_passport, verify_github_passport,
}
use rcx_registry.Admin.Namespace.Control.{IsClaimOf, classify_namespace-IsClaimOf}
use rcx_registry.Api.Stores.{lookup_right}
use rcx_registry.Api.State.{ApiState, consume_state}
use rcx_registry.Api.State.Calls.{>>=-eq-ok, lift-eq-ok, map_err-eq-ok}
use rcx_registry.Api.Control.{
  Services, state_binding, prove_owner, call_back, github_oauth_callback,
}
use rcx_registry.Api.Requests.{GithubCallbackQuery}
use rcx_registry.Api.Control.Granted.{
  IsSpent, owner_sound, same_owner, spawned, consumed_state, granted,
}

owner_passport :
    (namespace passport owner : Bytes)
    → github_passport namespace passport (github owner) ≡ ok tt
    → passport ≡ passport_prefix ++ owner
unfolding github_passport
owner_passport namespace passport owner e =
    ground (arith, eq_of_bytes_eq passport (passport_prefix ++ owner))

module _ (p : Platform) (c : Crypto) (h : Hex) (services : Services) where
  -- What has been checked when an owner's rights are granted.
  pub record IsProvenOwner (consumed_at verified_at : ℕ) (query : GithubCallbackQuery)
      (s s' : ApiState) (row : PublisherRightsRecord) : Type 0 where
    pub claim : NamespaceClaim
    pub owner : Bytes
    pub hash : Bytes
    pub is_claim : IsClaimOf query.server_name claim
    pub is_github : claim.kind ≡ github owner
    pub labelled : query.publisher_passport ≡ passport_prefix ++ owner
    pub is_spent :
        IsSpent s.oauth_states s'.oauth_states consumed_at query.state
          (state_binding p c h services claim query.publisher_passport query.redirect_uri)
    pub resolved : services.exchange_code query.code query.state ≡ ok owner
    pub is_row :
        row ≡ publisher_rights_record h claim query.publisher_passport github_oauth verified_at hash
    pub found :
        lookup_right row.publisher_passport row.namespace s'.publisher_rights_store ≡ ok (some row)

  passport_of_owner :
      (claim : NamespaceClaim) (passport owner : Bytes)
      → verify_github_passport claim passport ≡ ok tt
      → claim.kind ≡ github owner
      → passport ≡ passport_prefix ++ owner
  unfolding verify_github_passport
  passport_of_owner claim passport owner e k =
      owner_passport claim.namespace passport owner
        (subst (λ kind. github_passport claim.namespace passport kind ≡ ok tt) k e)

  proved_owner :
      (consumed_at verified_at : ℕ) (claim : NamespaceClaim) (owner : Bytes)
      (query : GithubCallbackQuery) (s s' : ApiState) (row : PublisherRightsRecord)
      → classify_namespace query.server_name ≡ ok claim
      → claim.kind ≡ github owner
      → query.publisher_passport ≡ passport_prefix ++ owner
      → prove_owner p c h services consumed_at verified_at claim owner query s ≡ (ok row, s')
      → IsProvenOwner consumed_at verified_at query s s' row
  unfolding prove_owner
  proved_owner consumed_at verified_at claim owner query s s' row hc hk hl e =
      let b = state_binding p c h services claim query.publisher_passport query.redirect_uri in
      let (_, t, e0, e0') = >>=-eq-ok (consume_state consumed_at query.state b) _ s e in
      let (resolved, e1, e1') = lift-eq-ok _ _ t e0' in
      let (_, e2, e2') = lift-eq-ok _ _ t e1' in
      let g =
        granted p c h services claim query.publisher_passport github_oauth verified_at t s' row
          e2' in
      record {
        claim = claim;
        owner = owner;
        hash = g.hash;
        is_claim = classify_namespace-IsClaimOf query.server_name claim hc;
        is_github = hk;
        labelled = hl;
        is_spent =
            subst (λ states. IsSpent s.oauth_states states consumed_at query.state b)
              (sym g.is_stored.same_states) (consumed_state consumed_at query.state b s t e0);
        resolved = e1 ∙ ap (λ o. ok o) (same_owner resolved owner e2);
        is_row = g.is_row;
        found = g.is_stored.found;
      }

  -- If `github_oauth_callback` grants a record, then the server's name is in the namespace of a GitHub
  -- owner, the passport is that owner's, the state was live and bound to the very name, passport and
  -- redirect URI and is now spent, GitHub resolves the code to that owner, and the record is that of the
  -- claim and can be looked up.
  pub github_oauth_callback-IsProvenOwner :
      (consumed_at verified_at : ℕ) (query : GithubCallbackQuery) (s s' : ApiState)
      (row : PublisherRightsRecord)
      → github_oauth_callback p c h services consumed_at verified_at query s ≡ (ok row, s')
      → IsProvenOwner consumed_at verified_at query s s' row
  unfolding github_oauth_callback call_back
  github_oauth_callback-IsProvenOwner consumed_at verified_at query s s' row e =
      let e' = spawned (call_back p c h services consumed_at verified_at query s) row s' e in
      let (claim, e1, e1') = lift-eq-ok _ _ s e' in
      let (_, e2, e2') = lift-eq-ok _ _ s e1' in
      let (owner, e3, e3') = lift-eq-ok _ _ s e2' in
      let k = owner_sound _ claim.kind owner e3 in
      proved_owner consumed_at verified_at claim owner query s s' row (map_err-eq-ok _ _ e1) k
        (passport_of_owner claim query.publisher_passport owner (map_err-eq-ok _ _ e2) k) e3'
