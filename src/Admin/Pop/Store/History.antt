-- ===== src/Admin/Pop/Store/History.antt =====
-- A store after any sequence of its operations.
use rcx_registry.Prelude.{
  ℕ, ◌≤◌, ◌≡◌, inl, inr, Bool, false, Option, none, some, List, [], ◌∷◌, Bytes, bytes_eq,
  bytes_eq_refl, eq_of_bytes_eq, All, Bool-cases,
}
use rcx_registry.Admin.Pop.Store.{
  Entry, Store, find, retain, insert, issue, judge, consume, saturating_add,
}
use rcx_registry.Admin.Pop.Store.Lookup.{
  find-remove, find-remove_other, find-retain_alive, find-retain-none,
}

-- the operations that change a store, with their arguments
pub data Op {ℓ} (B : Type ℓ) : Type ℓ where
  issue_op consume_op : ℕ → Bytes → B → Op B

module _ {ℓ} {B : Type ℓ} where
  abbrev pub op_key : Op B → Bytes
  op_key (issue_op now key b) = key
  op_key (consume_op now key b) = key

  abbrev pub op_time : Op B → ℕ
  op_time (issue_op now key b) = now
  op_time (consume_op now key b) = now

  -- None of the operations is on the value.
  abbrev pub Avoids : Bytes → List (Op B) → Type 0
  Avoids key = All (λ o. bytes_eq (op_key o) key ≡ false)

  -- None of the operations is later than that.
  abbrev pub AllBy : ℕ → List (Op B) → Type 0
  AllBy time = All (λ o. op_time o ≤ time)

  -- None of the operations issues the value.
  abbrev pub IssuesOther : Bytes → Op B → Type 0
  IssuesOther key (issue_op now k b) = bytes_eq k key ≡ false
  IssuesOther key (consume_op now k b) = Unit

module _ {ℓ} {B : Type ℓ} (binding_eq : B → B → Bool) where
  abbrev pub apply_op : Op B → Store B → Store B
  apply_op (issue_op now key b) s = (issue now key b s).1
  apply_op (consume_op now key b) s = (consume binding_eq now key b s).1

  unfoldable pub run : List (Op B) → Store B → Store B
  run [] s = s
  run (o ∷ ops) s = run ops (apply_op o s)

  -- no operation poisons a store or changes its time to live
  pub sound_apply :
      (o : Op B) (s : Store B)
      → s.poisoned ≡ false
      → ((apply_op o s).poisoned ≡ false) × ((apply_op o s).ttl_ms ≡ s.ttl_ms)
  unfolding issue consume
  sound_apply (issue_op now key b) s h = (rw h, rw h)
  sound_apply (consume_op now key b) s h = (rw h, rw h)

  pub run_sound :
      (ops : List (Op B)) (s : Store B) → s.poisoned ≡ false → (run ops s).poisoned ≡ false
  unfolding run
  run_sound [] s h = h
  run_sound (o ∷ ops) s h = run_sound ops (apply_op o s) ((sound_apply o s h).0)

  -- an operation on another value, no later than the entry's expiry, keeps the entry
  keep :
      (key : Bytes) (e : Entry B) (o : Op B) (s : Store B)
      → s.poisoned ≡ false
      → bytes_eq (op_key o) key ≡ false
      → op_time o ≤ e.expires_at_ms
      → find key s.entries ≡ some e
      → find key (apply_op o s).entries ≡ some e
  unfolding issue consume insert find
  keep key e (issue_op now k b) s p d t h =
      rw (p, d, find-remove_other key k (retain now s.entries) d)
        (find-retain_alive now key e s.entries h t)
  keep key e (consume_op now k b) s p d t h = rw (p, find-remove_other key k s.entries d) h

  pub keep_all :
      (key : Bytes) (e : Entry B) (ops : List (Op B)) (s : Store B)
      → s.poisoned ≡ false
      → Avoids key ops
      → AllBy e.expires_at_ms ops
      → find key s.entries ≡ some e
      → find key (run ops s).entries ≡ some e
  unfolding run
  keep_all key e [] s p a t h = h
  keep_all key e (o ∷ ops) s p (d, a) (l, t) h =
      keep_all key e ops (apply_op o s) ((sound_apply o s p).0) a t (keep key e o s p d l h)

  -- a value that is not there stays so until it is issued
  stay_gone :
      (key : Bytes) (o : Op B) (s : Store B)
      → s.poisoned ≡ false
      → IssuesOther key o
      → find key s.entries ≡ none
      → find key (apply_op o s).entries ≡ none
  unfolding issue consume insert find
  stay_gone key (issue_op now k b) s p d h =
      rw (p, d, find-remove_other key k (retain now s.entries) d)
        (find-retain-none now key s.entries h)
  stay_gone key (consume_op now k b) s p d h = elim (Bool-cases (bytes_eq k key)) [
    | inl y ↦ rw (p, eq_of_bytes_eq k key y) (find-remove key s.entries)
    | inr n ↦ rw (p, find-remove_other key k s.entries n) h
  ]

  pub stay_gone-All :
      (key : Bytes) (ops : List (Op B)) (s : Store B)
      → s.poisoned ≡ false
      → All (IssuesOther key) ops
      → find key s.entries ≡ none
      → find key (run ops s).entries ≡ none
  unfolding run
  stay_gone-All key [] s p a h = h
  stay_gone-All key (o ∷ ops) s p (d, a) h =
      stay_gone-All key ops (apply_op o s) ((sound_apply o s p).0) a (stay_gone key o s p d h)

  -- what a caller is told is what the look-up comes to
  pub consume-find :
      (s : Store B) (now : ℕ) (key : Bytes) (expected : B) (o : Option (Entry B))
      → s.poisoned ≡ false
      → find key s.entries ≡ o
      → (consume binding_eq now key expected s).0 ≡ judge binding_eq now expected o
  unfolding consume
  consume-find s now key expected o p h = rw (p, h)

  pub find-consume :
      (s : Store B) (now : ℕ) (key : Bytes) (b : B)
      → s.poisoned ≡ false
      → find key (consume binding_eq now key b s).1.entries ≡ none
  unfolding consume
  find-consume s now key b p = rw p (find-remove key s.entries)

  pub find-issue :
      (s : Store B) (now : ℕ) (key : Bytes) (b : B)
      → s.poisoned ≡ false
      → find key (issue now key b s).1.entries
        ≡ some (record { binding = b; expires_at_ms = saturating_add now s.ttl_ms })
  unfolding issue insert find
  find-issue s now key b p = rw (p, bytes_eq_refl key)
