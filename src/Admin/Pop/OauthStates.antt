-- ===== src/Admin/Pop/OauthStates.antt =====
-- `OAuthStateStore` of crates/rcx-registry-admin/src/pop.rs: `state` values of an OAuth flow.
use rcx_registry.Prelude.{
  ℕ, ◌≤◌, ◌≡◌, Bool, true, ◌&&◌, List, Bytes, bytes_eq, eq_of_bytes_eq, arith,
}
use rcx_registry.Prelude.Outcome.{Outcome, ok}
use rcx_registry.Admin.Pop.{PopError}
use rcx_registry.Admin.Pop.Store as Store
use rcx_registry.Admin.Pop.Store.{Entry, Store}
use rcx_registry.Admin.Pop.Store.History.{Op, run}
use rcx_registry.Admin.Pop.Store.Origin.{IsLive, consume-IsLive}

pub record OauthStateBinding : Type 0 where
  pub server_name : Bytes
  pub publisher_passport : Bytes
  pub redirect_uri : Bytes

-- the derived `==`
unfoldable pub binding_eq : OauthStateBinding → OauthStateBinding → Bool
binding_eq a b =
    bytes_eq a.server_name b.server_name
    && bytes_eq a.publisher_passport b.publisher_passport
    && bytes_eq a.redirect_uri b.redirect_uri

abbrev pub OauthStateStore : Type 0
OauthStateStore = Store OauthStateBinding

unfoldable pub new : ℕ → OauthStateStore
new ttl_ms = Store.new ttl_ms

unfoldable pub issue :
    ℕ → Bytes → OauthStateBinding → OauthStateStore → Outcome PopError ℕ × OauthStateStore
issue now_ms state binding s = Store.issue now_ms state binding s

unfoldable pub consume :
    ℕ → Bytes → OauthStateBinding → OauthStateStore → Outcome PopError (Unit {0}) × OauthStateStore
consume now_ms state expected s = Store.consume binding_eq now_ms state expected s

pub eq_of_binding_eq : (a b : OauthStateBinding) → binding_eq a b ≡ true → a ≡ b
unfolding binding_eq
eq_of_binding_eq a b h =
    same a b (ground (arith, eq_of_bytes_eq a.server_name b.server_name))
      (ground (arith, eq_of_bytes_eq a.publisher_passport b.publisher_passport))
      (ground (arith, eq_of_bytes_eq a.redirect_uri b.redirect_uri))
  where
    same :
        (a b : OauthStateBinding)
        → a.server_name ≡ b.server_name
        → a.publisher_passport ≡ b.publisher_passport
        → a.redirect_uri ≡ b.redirect_uri
        → a ≡ b
    same a b p q r = λ i. record { server_name = p i; publisher_passport = q i; redirect_uri = r i }

-- If `OAuthStateStore::consume` takes a state after any operations on a new store, then the last
-- operation on the state was to issue it, for the very binding that is presented, redirect URI
-- included, and it has not expired.
pub consume-state_issued :
    (ttl now : ℕ) (key : Bytes) (expected : OauthStateBinding) (ops : List (Op OauthStateBinding))
    → (consume now key expected (run binding_eq ops (new ttl))).0 ≡ ok tt
    → (e : Entry OauthStateBinding) × IsLive ttl key e ops
      × (e.binding ≡ expected)
      × (now ≤ e.expires_at_ms)
unfolding consume new
consume-state_issued ttl now key expected ops h =
    let (e, live, b, l) = consume-IsLive binding_eq ttl now key expected ops h in
    (e, live, eq_of_binding_eq e.binding expected b, l)
