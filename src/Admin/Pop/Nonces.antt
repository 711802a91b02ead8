-- ===== src/Admin/Pop/Nonces.antt =====
-- `NonceStore` of crates/rcx-registry-admin/src/pop.rs: challenge nonces.
use rcx_registry.Prelude.{
  ℕ, ◌≤◌, ◌≡◌, Bool, true, ◌&&◌, List, Bytes, bytes_eq, eq_of_bytes_eq, arith,
}
use rcx_registry.Prelude.Outcome.{Outcome, ok}
use rcx_registry.Admin.Pop.{PopError}
use rcx_registry.Admin.Pop.Store as Store
use rcx_registry.Admin.Pop.Store.{Entry, Store}
use rcx_registry.Admin.Pop.Store.History.{Op, run}
use rcx_registry.Admin.Pop.Store.Origin.{IsLive, consume-IsLive}

pub record NonceBinding : Type 0 where
  pub server_name : Bytes
  pub passport_fpr : Bytes
  pub public_key_hex : Bytes

-- the derived `==`
unfoldable pub binding_eq : NonceBinding → NonceBinding → Bool
binding_eq a b =
    bytes_eq a.server_name b.server_name
    && bytes_eq a.passport_fpr b.passport_fpr
    && bytes_eq a.public_key_hex b.public_key_hex

abbrev pub NonceStore : Type 0
NonceStore = Store NonceBinding

unfoldable pub new : ℕ → NonceStore
new ttl_ms = Store.new ttl_ms

unfoldable pub issue : ℕ → Bytes → NonceBinding → NonceStore → Outcome PopError ℕ × NonceStore
issue now_ms nonce_hex binding s = Store.issue now_ms nonce_hex binding s

unfoldable pub consume :
    ℕ → Bytes → NonceBinding → NonceStore → Outcome PopError (Unit {0}) × NonceStore
consume now_ms nonce_hex expected s = Store.consume binding_eq now_ms nonce_hex expected s

pub eq_of_binding_eq : (a b : NonceBinding) → binding_eq a b ≡ true → a ≡ b
unfolding binding_eq
eq_of_binding_eq a b h =
    same a b (ground (arith, eq_of_bytes_eq a.server_name b.server_name))
      (ground (arith, eq_of_bytes_eq a.passport_fpr b.passport_fpr))
      (ground (arith, eq_of_bytes_eq a.public_key_hex b.public_key_hex))
  where
    same :
        (a b : NonceBinding)
        → a.server_name ≡ b.server_name
        → a.passport_fpr ≡ b.passport_fpr
        → a.public_key_hex ≡ b.public_key_hex
        → a ≡ b
    same a b p q r = λ i. record { server_name = p i; passport_fpr = q i; public_key_hex = r i }

-- If `NonceStore::consume` takes a nonce after any operations on a new store, then the last operation on
-- the nonce was to issue it, for the very binding that is presented, and it has not expired.
pub consume-nonce_issued :
    (ttl now : ℕ) (key : Bytes) (expected : NonceBinding) (ops : List (Op NonceBinding))
    → (consume now key expected (run binding_eq ops (new ttl))).0 ≡ ok tt
    → (e : Entry NonceBinding) × IsLive ttl key e ops
      × (e.binding ≡ expected)
      × (now ≤ e.expires_at_ms)
unfolding consume new
consume-nonce_issued ttl now key expected ops h =
    let (e, live, b, l) = consume-IsLive binding_eq ttl now key expected ops h in
    (e, live, eq_of_binding_eq e.binding expected b, l)
