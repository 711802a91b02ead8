-- ===== src/Api/State.antt =====
-- crates/rcx-registry-api/src/lib.rs: `ApiState` and what a handler does to it. The state holds the
-- parts that the handlers here change.
pub mod Calls
pub mod Stops
use rcx_registry.Prelude.{ℕ, Bytes, codes}
use rcx_registry.Prelude.Outcome.{ok, err, panic, stuck}
use rcx_registry.Admin.Pop.{default_nonce_ttl_ms}
use rcx_registry.Admin.Pop.Nonces as Nonces
use rcx_registry.Admin.Pop.Nonces.{NonceStore, NonceBinding}
use rcx_registry.Admin.Pop.OauthStates as OauthStates
use rcx_registry.Admin.Pop.OauthStates.{OauthStateStore, OauthStateBinding}
use rcx_registry.Admin.Namespace.{PublisherRightsRecord}
use rcx_registry.Enrich.Blocks.{PublisherEnrichmentRecord}
use rcx_registry.Api.Errors.{Api, store}
use rcx_registry.Api.Messages.{of_pop}
use rcx_registry.Api.Stores.{
  RightsStore, EnrichmentStore, no_records, upsert_right, upsert_enrichment,
}
use rcx_registry.Api.RateLimit as RateLimit
use rcx_registry.Api.RateLimit.{
  RateLimiter, default_mutation_rate_window_ms, default_mutation_rate_max,
}

pub record ApiState : Type 0 where
  pub publisher_rights_store : RightsStore
  pub publisher_enrichment_store : EnrichmentStore
  pub pop_nonces : NonceStore
  pub oauth_states : OauthStateStore
  pub mutation_limiter : RateLimiter

unfoldable pub new_state : ApiState
new_state = record {
  publisher_rights_store = no_records;
  publisher_enrichment_store = no_records;
  pop_nonces = Nonces.new default_nonce_ttl_ms;
  oauth_states = OauthStates.new default_nonce_ttl_ms;
  mutation_limiter = RateLimit.new default_mutation_rate_window_ms default_mutation_rate_max;
}

abbrev pub Handler : Type 0 → Type 0
Handler A = ApiState → Api A × ApiState

-- what follows a call, by its result
abbrev pub follow_call : {A B : Type 0} → (A → Handler B) → Api A × ApiState → Api B × ApiState
follow_call next (ok value, s) = next value s
follow_call next (err why, s) = (err why, s)
follow_call next (panic, s) = (panic, s)
follow_call next (stuck, s) = (stuck, s)

infixl 5 ◌>>=◌
abbrev pub ◌>>=◌ : {A B : Type 0} → Handler A → (A → Handler B) → Handler B
◌>>=◌ call next s = follow_call next (call s)

-- a call that does not change the state
abbrev pub lift : {A : Type 0} → Api A → Handler A
lift result s = (result, s)

-- a closure that panics is an error of the store; what the runtime says of it is left out
abbrev pub spawn_store : {A : Type 0} → Api A × ApiState → Api A × ApiState
spawn_store (panic, s) = (err (store (codes "blocking task failed: ")), s)
spawn_store (ok value, s) = (ok value, s)
spawn_store (err why, s) = (err why, s)
spawn_store (stuck, s) = (stuck, s)

-- Calls of the state's parts.
unfoldable pub check_limit : ℕ → Bytes → Handler (Unit {0})
check_limit now client s =
    let (limiter, result) = RateLimit.check s.mutation_limiter now client in
    (result, record s { mutation_limiter = limiter })

unfoldable pub issue_nonce : ℕ → Bytes → NonceBinding → Handler ℕ
issue_nonce now nonce binding s =
    let (result, nonces) = Nonces.issue now nonce binding s.pop_nonces in
    (of_pop result, record s { pop_nonces = nonces })

unfoldable pub consume_nonce : ℕ → Bytes → NonceBinding → Handler (Unit {0})
consume_nonce now nonce binding s =
    let (result, nonces) = Nonces.consume now nonce binding s.pop_nonces in
    (of_pop result, record s { pop_nonces = nonces })

unfoldable pub issue_state : ℕ → Bytes → OauthStateBinding → Handler ℕ
issue_state now key binding s =
    let (result, states) = OauthStates.issue now key binding s.oauth_states in
    (of_pop result, record s { oauth_states = states })

unfoldable pub consume_state : ℕ → Bytes → OauthStateBinding → Handler (Unit {0})
consume_state now key binding s =
    let (result, states) = OauthStates.consume now key binding s.oauth_states in
    (of_pop result, record s { oauth_states = states })

unfoldable pub store_right : PublisherRightsRecord → Handler (Unit {0})
store_right row s =
    let (result, rights) = upsert_right row s.publisher_rights_store in
    (result, record s { publisher_rights_store = rights })

unfoldable pub store_enrichment : PublisherEnrichmentRecord → Handler (Unit {0})
store_enrichment row s =
    let (result, enrichments) = upsert_enrichment row s.publisher_enrichment_store in
    (result, record s { publisher_enrichment_store = enrichments })
