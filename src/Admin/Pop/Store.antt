-- ===== src/Admin/Pop/Store.antt =====
-- What the two stores of crates/rcx-registry-admin/src/pop.rs have in common: single-use values that
-- live for a time, each bound to what it was issued for. The map is a list of entries without two of
-- one key; the mutex is a flag that says whether it is poisoned. Times are milliseconds in 64 bits.
pub mod Lookup
pub mod History
pub mod SingleUse
pub mod Origin
use rcx_registry.Prelude.{
  ℕ, ◌+◌, ◌-◌, ◌^◌, Bool, true, false, not, Option, none, some, List, [], ◌∷◌, Bytes, bytes_eq, ltb,
  leb, if◌then◌else◌, length,
}
use rcx_registry.Prelude.Outcome.{Outcome, ok, err}
use rcx_registry.Admin.Pop.{PopError, unknown_nonce, nonce_binding_mismatch, store_poisoned}

-- `saturating_add` on `u64`
unfoldable pub saturating_add : ℕ → ℕ → ℕ
saturating_add a b = if ltb (a + b) (2 ^ 64) then a + b else 2 ^ 64 - 1

pub record Entry {ℓ} (B : Type ℓ) : Type ℓ where
  pub binding : B
  pub expires_at_ms : ℕ

pub record Store {ℓ} (B : Type ℓ) : Type ℓ where
  pub ttl_ms : ℕ
  pub poisoned : Bool
  pub entries : List (Bytes × Entry B)

module _ {ℓ} {B : Type ℓ} where
  unfoldable pub find : Bytes → List (Bytes × Entry B) → Option (Entry B)
  find key [] = none
  find key ((k, e) ∷ es) = if bytes_eq k key then some e else find key es

  -- `HashMap::remove`
  unfoldable pub remove : Bytes → List (Bytes × Entry B) → List (Bytes × Entry B)
  remove key [] = []
  remove key ((k, e) ∷ es) =
      let rest = remove key es in if bytes_eq k key then rest else (k, e) ∷ rest

  -- `retain(|_, e| now_ms <= e.expires_at_ms)`
  unfoldable pub retain : ℕ → List (Bytes × Entry B) → List (Bytes × Entry B)
  retain now_ms [] = []
  retain now_ms ((k, e) ∷ es) =
      let rest = retain now_ms es in if leb now_ms e.expires_at_ms then (k, e) ∷ rest else rest

  -- `HashMap::insert`
  unfoldable pub insert : Bytes → Entry B → List (Bytes × Entry B) → List (Bytes × Entry B)
  unfolding remove
  insert key e es = (key, e) ∷ remove key es

  unfoldable pub new : ℕ → Store B
  new ttl_ms = record { ttl_ms = ttl_ms; poisoned = false; entries = [] }

  abbrev pub with_entries : Store B → List (Bytes × Entry B) → Store B
  with_entries s es = record { ttl_ms = s.ttl_ms; poisoned = s.poisoned; entries = es }

  unfoldable pub issue : ℕ → Bytes → B → Store B → Outcome PopError ℕ × Store B
  unfolding insert retain saturating_add
  issue now_ms key binding s =
      let expires_at_ms = saturating_add now_ms s.ttl_ms in
      if s.poisoned then (err store_poisoned, s) else (
        ok expires_at_ms,
        with_entries s (
            insert key (record { binding = binding; expires_at_ms = expires_at_ms })
              (retain now_ms s.entries)),
      )

  -- what a caller is told of the entry that it removed
  unfoldable pub judge : (B → B → Bool) → ℕ → B → Option (Entry B) → Outcome PopError (Unit {0})
  judge binding_eq now_ms expected none = err unknown_nonce
  judge binding_eq now_ms expected (some e) =
      if ltb e.expires_at_ms now_ms
      then err unknown_nonce
      else if not (binding_eq e.binding expected)
      then err nonce_binding_mismatch
      else ok tt

  -- the entry is removed before it is looked at
  unfoldable pub consume :
      (B → B → Bool) → ℕ → Bytes → B → Store B → Outcome PopError (Unit {0}) × Store B
  unfolding find remove judge
  consume binding_eq now_ms key expected s = if s.poisoned then (err store_poisoned, s) else (
    judge binding_eq now_ms expected (find key s.entries),
    with_entries s (remove key s.entries),
  )

  unfoldable pub len : Store B → ℕ
  len s = if s.poisoned then 0 else length s.entries
