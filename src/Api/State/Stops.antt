-- ===== src/Api/State/Stops.antt =====
-- Where a handler's chain of calls stops, and what its calls leave.
use rcx_registry.Prelude.{
  ℕ, ◌≡◌, Bool, ◌⊎◌, refl, ap, true, false, inl, inr, none, Bytes, Bool-cases, arith,
}
use rcx_registry.Prelude.Outcome.{ok, err, panic, stuck}
use rcx_registry.Admin.Pop.Store as Store
use rcx_registry.Admin.Pop.Store.{Store, find}
use rcx_registry.Admin.Pop.Store.Lookup.{find-remove}
use rcx_registry.Admin.Pop.Nonces as Nonces
use rcx_registry.Admin.Namespace.{PublisherRightsRecord}
use rcx_registry.Api.Errors.{Api}
use rcx_registry.Api.Stores.{RightsStore, upsert_right}
use rcx_registry.Api.State.{
  ApiState, Handler, follow_call, ◌>>=◌, lift, spawn_store, consume_nonce, store_right,
}

-- Whether a value is returned.
abbrev pub is_ok : {A : Type 0} → Api A → Bool
is_ok (ok a) = true
is_ok (err why) = false
is_ok panic = false
is_ok stuck = false

-- A chain stops at its first call, which returns no value, or it goes on.
pub stop_or_go :
    {A B : Type 0} (call : Handler A) (next : A → Handler B) (s : ApiState) {o : Api B}
    {s' : ApiState}
    → (call >>= next) s ≡ (o, s')
    → ((is_ok (call s).0 ≡ false) × ((call s).1 ≡ s'))
      ⊎ ((a : A) × (t : ApiState) × (call s ≡ (ok a, t)) × (next a t ≡ (o, s')))
stop_or_go {A = A} {B = B} call next s {o = o} {s' = s'} e = go (call s) e
  where
    go :
        (r : Api A × ApiState)
        → follow_call next r ≡ (o, s')
        → ((is_ok r.0 ≡ false) × (r.1 ≡ s'))
          ⊎ ((a : A) × (t : ApiState) × (r ≡ (ok a, t)) × (next a t ≡ (o, s')))
    go (ok a, t) e = inr (a, t, refl, e)
    go (err why, t) e = inl (refl, ap (λ r. r.1) e)
    go (panic, t) e = inl (refl, ap (λ r. r.1) e)
    go (stuck, t) e = inl (refl, ap (λ r. r.1) e)

pub lift-stop_or_go :
    {A B : Type 0} (r : Api A) (next : A → Handler B) (s : ApiState) {o : Api B} {s' : ApiState}
    → (lift r >>= next) s ≡ (o, s')
    → (s ≡ s') ⊎ ((a : A) × (r ≡ ok a) × (next a s ≡ (o, s')))
lift-stop_or_go (ok a) next s e = inr (a, refl, e)
lift-stop_or_go (err why) next s e = inl (ap (λ r. r.1) e)
lift-stop_or_go panic next s e = inl (ap (λ r. r.1) e)
lift-stop_or_go stuck next s e = inl (ap (λ r. r.1) e)

-- Whatever a closure answers, its state is left, and no value is made of an answer that is none.
pub spawned :
    {A : Type 0} (r : Api A × ApiState)
    → ((spawn_store r).1 ≡ r.1) × (is_ok (spawn_store r).0 ≡ is_ok r.0)
spawned (ok a, t) = (refl, refl)
spawned (err why, t) = (refl, refl)
spawned (panic, t) = (refl, refl)
spawned (stuck, t) = (refl, refl)

-- The rights are those.
abbrev pub HasRights : RightsStore → ApiState → Type 0
HasRights rights t = t.publisher_rights_store ≡ rights

-- The nonce is gone.
abbrev pub HasSpent : Bytes → ApiState → Type 0
HasSpent nonce t = find nonce t.pop_nonces.entries ≡ none

pub refused-store_right :
    (row : PublisherRightsRecord) (s : ApiState)
    → is_ok (store_right row s).0 ≡ false
    → HasRights s.publisher_rights_store (store_right row s).1
unfolding store_right upsert_right
refused-store_right row s h = elim (Bool-cases s.publisher_rights_store.poisoned) [
  | inl y ↦ rw y refl
  | inr n ↦ absurd (ground arith)
]

pub spent-consume_nonce :
    (now : ℕ) (nonce : Bytes) (binding : Nonces.NonceBinding) (s : ApiState)
    → s.pop_nonces.poisoned ≡ false
    → HasSpent nonce (consume_nonce now nonce binding s).1
unfolding consume_nonce Nonces.consume Store.consume
spent-consume_nonce now nonce binding s h = rw (h, find-remove nonce s.pop_nonces.entries)

pub spent-store_right :
    (nonce : Bytes) (row : PublisherRightsRecord) (s : ApiState)
    → HasSpent nonce s
    → HasSpent nonce (store_right row s).1
unfolding store_right
spent-store_right nonce row s h = h

pub kept-consume_nonce :
    (now : ℕ) (nonce : Bytes) (binding : Nonces.NonceBinding) (s : ApiState)
    → HasRights s.publisher_rights_store (consume_nonce now nonce binding s).1
unfolding consume_nonce
kept-consume_nonce now nonce binding s = refl
