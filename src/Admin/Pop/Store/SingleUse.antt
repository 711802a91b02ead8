-- ===== src/Admin/Pop/Store/SingleUse.antt =====
-- `consume` after `issue`, and after `consume` (crates/rcx-registry-admin/src/pop.rs).
use rcx_registry.Prelude.{
  ℕ, ◌≡◌, Bool, false, not, none, some, List, Bytes, if◌then◌else◌, ltb, All,
}
use rcx_registry.Prelude.Outcome.{ok, err}
use rcx_registry.Admin.Pop.{unknown_nonce, nonce_binding_mismatch}
use rcx_registry.Admin.Pop.Store.{Entry, Store, issue, judge, consume, saturating_add}
use rcx_registry.Admin.Pop.Store.History.{
  Op, issue_op, consume_op, Avoids, AllBy, IssuesOther, run, sound_apply, run_sound, keep_all,
  stay_gone-All, consume-find, find-consume, find-issue,
}

module _ {ℓ} {B : Type ℓ} (binding_eq : B → B → Bool) where
  -- Once a value was presented to a store whose mutex is not poisoned, with whatever binding and
  -- result, it is unknown to the store at every time and with every binding, until it is issued again.
  pub consume-consume :
      (s : Store B) (now now' : ℕ) (key : Bytes) (b b' : B) (ops : List (Op B))
      → s.poisoned ≡ false
      → All (IssuesOther key) ops
      → (consume binding_eq now' key b' (run binding_eq ops (consume binding_eq now key b s).1)).0
        ≡ err unknown_nonce
  unfolding judge
  consume-consume s now now' key b b' ops p a =
      let s' = (consume binding_eq now key b s).1 in
      let p' = (sound_apply binding_eq (consume_op now key b) s p).0 in
      consume-find binding_eq (run binding_eq ops s') now' key b' none
        (run_sound binding_eq ops s' p')
        (stay_gone-All binding_eq key ops s' p' a (find-consume binding_eq s now key b p))

  -- A value that was issued to a store whose mutex is not poisoned is good for what it was issued for,
  -- and for nothing else, until it expires, if all operations since then are on other values and none
  -- of them is later than its expiry; after its expiry it is unknown.
  pub consume-issue :
      (s : Store B) (t now : ℕ) (key : Bytes) (b expected : B) (ops : List (Op B))
      → s.poisoned ≡ false
      → Avoids key ops
      → AllBy (saturating_add t s.ttl_ms) ops
      → (consume binding_eq now key expected (run binding_eq ops (issue t key b s).1)).0 ≡ (
          if ltb (saturating_add t s.ttl_ms) now
          then err unknown_nonce
          else if not (binding_eq b expected)
          then err nonce_binding_mismatch
          else ok tt)
  unfolding judge
  consume-issue s t now key b expected ops p a l =
      let s' = (issue t key b s).1 in
      let e : Entry B = record { binding = b; expires_at_ms = saturating_add t s.ttl_ms } in
      let p' = (sound_apply binding_eq (issue_op t key b) s p).0 in
      consume-find binding_eq (run binding_eq ops s') now key expected (some e)
        (run_sound binding_eq ops s' p')
        (keep_all binding_eq key e ops s' p' a l (find-issue binding_eq s t key b p))
