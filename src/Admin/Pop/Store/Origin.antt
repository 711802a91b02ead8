-- ===== src/Admin/Pop/Store/Origin.antt =====
-- `consume` after any operations on a new store (crates/rcx-registry-admin/src/pop.rs).
use mathlib.Core.List.{Memᴰ}
use rcx_registry.Prelude.{
  ℕ, ◌≤◌, ◌≡◌, refl, sym, ap, ◌∙◌, ◌⊎◌, inl, inr, Bool, true, false, Option, none, some, List, [],
  ◌∷◌, Bytes, arith,
}
use rcx_registry.Prelude.Outcome.{ok}
use rcx_registry.Admin.Pop.Store.{
  Entry, Store, find, remove, retain, insert, new, issue, judge, consume, saturating_add,
}
use rcx_registry.Admin.Pop.Store.Lookup.{Mem_of_find, Mem_of_remove, Mem_of_retain}
use rcx_registry.Admin.Pop.Store.History.{
  Op, issue_op, consume_op, Avoids, apply_op, run, sound_apply, run_sound, consume-find,
}

module _ {ℓ} {B : Type ℓ} where
  -- The value's last operation was to issue it with that entry.
  pub data IsLive (ttl : ℕ) (key : Bytes) (e : Entry B) : List (Op B) → Type ℓ where
    issued_here :
        {now : ℕ} {k : Bytes} {b : B} {ops : List (Op B)}
        → k ≡ key
        → e ≡ (record { binding = b; expires_at_ms = saturating_add now ttl })
        → Avoids key ops
        → IsLive ttl key e (issue_op now k b ∷ ops)
    issued_later :
        {o : Op B} {ops : List (Op B)} → IsLive ttl key e ops → IsLive ttl key e (o ∷ ops)

module _ {ℓ} {B : Type ℓ} (binding_eq : B → B → Bool) where
  -- an entry of a store after an operation was there before, or has just been issued
  Mem_of_apply :
      (key : Bytes) (e : Entry B) (o : Op B) (ops : List (Op B)) (s : Store B)
      → s.poisoned ≡ false
      → Avoids key ops
      → Memᴰ (key, e) (apply_op binding_eq o s).entries
      → (Memᴰ (key, e) s.entries × Avoids key (o ∷ ops)) ⊎ IsLive s.ttl_ms key e (o ∷ ops)
  unfolding issue consume insert
  Mem_of_apply key e (issue_op now k b) ops s p a m = go (rw p at m)
    where
      go :
          Memᴰ
            (key, e)
            ((k, (record { binding = b; expires_at_ms = saturating_add now s.ttl_ms }))
              ∷ remove k (retain now s.entries))
          → (Memᴰ (key, e) s.entries × Avoids key (issue_op now k b ∷ ops))
            ⊎ IsLive s.ttl_ms key e (issue_op now k b ∷ ops)
      go (Memᴰ.head q) = inr (issued_here (sym (ap (λ x. x.0) q)) (ap (λ x. x.1) q) a)
      go (Memᴰ.tail m) =
          let (m', d) = Mem_of_remove key k e (retain now s.entries) m in
          inl (Mem_of_retain now (key, e) s.entries m', (d, a))
  Mem_of_apply key e (consume_op now k b) ops s p a m =
      let (m', d) = Mem_of_remove key k e s.entries (rw p at m) in inl (m', (d, a))

  Mem_of_run :
      (key : Bytes) (e : Entry B) (ops : List (Op B)) (s : Store B)
      → s.poisoned ≡ false
      → Memᴰ (key, e) (run binding_eq ops s).entries
      → (Memᴰ (key, e) s.entries × Avoids key ops) ⊎ IsLive s.ttl_ms key e ops
  unfolding run
  Mem_of_run key e [] s p m = inl (m, tt)
  Mem_of_run key e (o ∷ ops) s p m =
      let (p', t) = sound_apply binding_eq o s p in
      elim (Mem_of_run key e ops (apply_op binding_eq o s) p' m) [
        | inl (m', a) ↦ Mem_of_apply key e o ops s p a m'
        | inr l ↦ inr (issued_later (rw t at l))
      ]

  accepted :
      (now : ℕ) (expected : B) (o : Option (Entry B))
      → judge binding_eq now expected o ≡ ok tt
      → (e : Entry B) × (o ≡ some e)
        × (binding_eq e.binding expected ≡ true)
        × (now ≤ e.expires_at_ms)
  unfolding judge
  accepted now expected none h = cc
  accepted now expected (some e) h = (e, refl, ground arith, ground arith)

  -- If a store that began empty takes a value after any operations, then the last operation on the
  -- value was to issue it, for a binding that equals the one presented, and it has not expired.
  pub consume-IsLive :
      (ttl now : ℕ) (key : Bytes) (expected : B) (ops : List (Op B))
      → (consume binding_eq now key expected (run binding_eq ops (new ttl))).0 ≡ ok tt
      → (e : Entry B) × IsLive ttl key e ops
        × (binding_eq e.binding expected ≡ true)
        × (now ≤ e.expires_at_ms)
  unfolding new
  consume-IsLive ttl now key expected ops h =
      let s = run binding_eq ops (new ttl) in
      let (e, f, b, l) = accepted now expected (find key s.entries) (
        sym (
          consume-find binding_eq s now key expected _ (run_sound binding_eq ops (new ttl) refl)
            refl)
        ∙ h) in
      elim (Mem_of_run key e ops (new ttl) refl (Mem_of_find key e s.entries f)) [
        | inl (m, _) ↦ elim m [ ]
        | inr live ↦ (e, live, b, l)
      ]
