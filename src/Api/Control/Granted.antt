-- ===== src/Api/Control/Granted.antt =====
-- What the steps of a handler that grants rights have done where they returned a value.
use mathlib.Core.Path.{subst}
use rcx_registry.Prelude.{
  ℕ, ◌≤◌, ◌≡◌, refl, sym, ap, ◌∙◌, Option, some, none, Bytes, eq_of_bytes_eq, arith,
}
use rcx_registry.Prelude.Outcome as Outcome
use rcx_registry.Prelude.Outcome.{ok, or_panic}
use rcx_registry.Crown.Receipt.Kinds.Claims.{PublisherRightsVerifiedReceipt}
use rcx_registry.Crown.Crypto.{Crypto}
use rcx_registry.Crown.Float.{Platform}
use rcx_registry.Admin.Pop.{Hex}
use rcx_registry.Admin.Pop.Store.{Store, Entry, find}
use rcx_registry.Admin.Pop.Nonces as Nonces
use rcx_registry.Admin.Pop.Nonces.{NonceBinding}
use rcx_registry.Admin.Pop.OauthStates as OauthStates
use rcx_registry.Admin.Pop.OauthStates.{OauthStateBinding}
use rcx_registry.Admin.Namespace.{
  NamespaceKind, github, reverse_dns, NamespaceClaim, VerificationMethod, PublisherRightsRecord,
  publisher_rights_record,
}
use rcx_registry.Api.Errors.{Api, ApiError}
use rcx_registry.Api.Stores.{lookup_right}
use rcx_registry.Api.State.{
  ApiState, check_limit, consume_nonce, consume_state, store_right, spawn_store,
}
use rcx_registry.Api.State.Calls.{
  >>=-eq-ok, lift-eq-ok, map_err-eq-ok, consume-eq-ok, lookup_right-upsert_right,
}
use rcx_registry.Api.Control.{
  Services, domain_or, owner_or, check_owner, check_label, build_verified_rights_record, grant,
}

pub domain_sound :
    (message : Bytes) (kind : NamespaceKind) (domain : Bytes)
    → domain_or message kind ≡ ok domain
    → kind ≡ reverse_dns domain
unfolding domain_or
domain_sound message kind domain h = ground arith

pub owner_sound :
    (message : Bytes) (kind : NamespaceKind) (owner : Bytes)
    → owner_or message kind ≡ ok owner
    → kind ≡ github owner
unfolding owner_or
owner_sound message kind owner h = ground arith

pub same_owner :
    (resolved expected : Bytes) → check_owner resolved expected ≡ ok tt → resolved ≡ expected
unfolding check_owner
same_owner resolved expected h = ground (arith, eq_of_bytes_eq resolved expected)

pub label_sound :
    (expected passport namespace : Bytes)
    → check_label expected passport namespace ≡ ok tt
    → passport ≡ expected
unfolding check_label
label_sound expected passport namespace h = ground (arith, eq_of_bytes_eq passport expected)

pub spawned :
    {A : Type 0} (r : Api A × ApiState) (value : A) (s' : ApiState)
    → spawn_store r ≡ (ok value, s')
    → r ≡ (ok value, s')
spawned r value s' h = ground arith

pub checked :
    (now : ℕ) (client : Bytes) (s t : ApiState)
    → check_limit now client s ≡ (ok tt, t)
    → (t.pop_nonces ≡ s.pop_nonces) × (t.publisher_rights_store ≡ s.publisher_rights_store)
unfolding check_limit
checked now client s t h =
    (sym (ap (λ r. r.1.pop_nonces) h), sym (ap (λ r. r.1.publisher_rights_store) h))

pub same_row :
    (o : Api PublisherRightsRecord) (a b : PublisherRightsRecord) → o ≡ ok a → o ≡ ok b → a ≡ b
same_row o a b h k = cc

-- The record of a receipt that was built.
pub row_of :
    (h : Hex) (o : Option PublisherRightsVerifiedReceipt) (claim : NamespaceClaim)
    (passport : Bytes) (method : VerificationMethod) (verified_at : ℕ) (row : PublisherRightsRecord)
    → Outcome.◌>>=◌ {Err = ApiError} (or_panic o) (λ receipt.
      ok (publisher_rights_record h claim passport method verified_at receipt.receipt_hash))
      ≡ ok row
    → (hash : Bytes) × (row ≡ publisher_rights_record h claim passport method verified_at hash)
row_of h (some receipt) claim passport method verified_at row e =
    (receipt.receipt_hash, same_row (ok row) row _ refl (sym e))
row_of h none claim passport method verified_at row e = cc

-- Rights were stored, and the other parts of the state are as before.
pub record IsStored (s s' : ApiState) (row : PublisherRightsRecord) : Type 0 where
  pub found :
      lookup_right row.publisher_passport row.namespace s'.publisher_rights_store ≡ ok (some row)
  pub same_nonces : s'.pop_nonces ≡ s.pop_nonces
  pub same_states : s'.oauth_states ≡ s.oauth_states

pub stored :
    (row : PublisherRightsRecord) (s s' : ApiState)
    → store_right row s ≡ (ok tt, s')
    → IsStored s s' row
unfolding store_right
stored row s s' e =
    subst (λ t. IsStored s t row) (ap (λ r. r.1) e)
      (record {
        found = lookup_right-upsert_right row s.publisher_rights_store (ap (λ r. r.0) e);
        same_nonces = refl;
        same_states = refl;
      })

-- What is so when a single-use value was handed over.
pub record IsSpent {B : Type 0} (before after : Store B) (now : ℕ) (key : Bytes) (binding : B)
    : Type 0 where
  pub entry : Entry B
  pub live : find key before.entries ≡ some entry
  pub bound : entry.binding ≡ binding
  pub in_time : now ≤ entry.expires_at_ms
  pub spent : find key after.entries ≡ none

pub consumed :
    (now : ℕ) (nonce : Bytes) (binding : NonceBinding) (s t : ApiState)
    → consume_nonce now nonce binding s ≡ (ok tt, t)
    → IsSpent s.pop_nonces t.pop_nonces now nonce binding
unfolding consume_nonce Nonces.consume
consumed now nonce binding s t e =
    let (entry, f, b, l, g) =
      consume-eq-ok Nonces.binding_eq now nonce binding s.pop_nonces
        (map_err-eq-ok _ _ (ap (λ r. r.0) e)) in
    record {
      entry = entry;
      live = f;
      bound = Nonces.eq_of_binding_eq entry.binding binding b;
      in_time = l;
      spent = subst (λ t. find nonce t.pop_nonces.entries ≡ none) (ap (λ r. r.1) e) g;
    }

pub consumed_state :
    (now : ℕ) (key : Bytes) (binding : OauthStateBinding) (s t : ApiState)
    → consume_state now key binding s ≡ (ok tt, t)
    → IsSpent s.oauth_states t.oauth_states now key binding
unfolding consume_state OauthStates.consume
consumed_state now key binding s t e =
    let (entry, f, b, l, g) =
      consume-eq-ok OauthStates.binding_eq now key binding s.oauth_states
        (map_err-eq-ok _ _ (ap (λ r. r.0) e)) in
    record {
      entry = entry;
      live = f;
      bound = OauthStates.eq_of_binding_eq entry.binding binding b;
      in_time = l;
      spent = subst (λ t. find key t.oauth_states.entries ≡ none) (ap (λ r. r.1) e) g;
    }

module _ (p : Platform) (c : Crypto) (h : Hex) (services : Services) where
  -- Rights were granted for a claim.
  pub record IsGranted (s s' : ApiState) (claim : NamespaceClaim) (passport : Bytes)
      (method : VerificationMethod) (verified_at : ℕ) (row : PublisherRightsRecord) : Type 0 where
    pub hash : Bytes
    pub is_row : row ≡ publisher_rights_record h claim passport method verified_at hash
    pub is_stored : IsStored s s' row

  pub granted :
      (claim : NamespaceClaim) (passport : Bytes) (method : VerificationMethod) (verified_at : ℕ)
      (s s' : ApiState) (row : PublisherRightsRecord)
      → grant p c h services claim passport method verified_at s ≡ (ok row, s')
      → IsGranted s s' claim passport method verified_at row
  unfolding grant build_verified_rights_record
  granted claim passport method verified_at s s' row e =
      let (row', e1, e1') =
        lift-eq-ok (build_verified_rights_record p c h services claim passport method verified_at) _
          s e in
      let (_, t, e2, e2') = >>=-eq-ok (store_right row') _ s e1' in
      let (hash, k) = row_of h _ claim passport method verified_at row' e1 in
      let same = same_row (ok row') row' row refl (ap (λ r. r.0) e2') in
      record {
        hash = hash;
        is_row = sym same ∙ k;
        is_stored =
            subst (λ r. IsStored s s' r) same
              (subst (λ t. IsStored s t row') (ap (λ r. r.1) e2') (stored row' s t e2));
      }
