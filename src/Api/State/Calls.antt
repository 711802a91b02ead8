-- ===== src/Api/State/Calls.antt =====
-- Calls of a handler's state that return a value.
use rcx_registry.Prelude.{
  ℕ, ◌≤◌, ◌≡◌, refl, Bool, true, inl, inr, Option, none, some, List, [], ◌∷◌, Bytes, bytes_eq_refl,
  Bool-cases, arith,
}
use rcx_registry.Prelude.Outcome.{Outcome, ok, err, panic, stuck, map_err}
use rcx_registry.Admin.Pop.Store as Store
use rcx_registry.Admin.Pop.Store.{Store, Entry, find, remove, judge}
use rcx_registry.Admin.Pop.Store.Lookup.{find-remove}
use rcx_registry.Admin.Namespace.{PublisherRightsRecord}
use rcx_registry.Api.Errors.{Api}
use rcx_registry.Api.Stores.{RightsStore, is_right, put_row, get_row, upsert_right, lookup_right}
use rcx_registry.Api.State.{ApiState, Handler, follow_call, ◌>>=◌, lift}

follow_call-eq-ok :
    {A B : Type 0} (r : Api A × ApiState) (next : A → Handler B) {value : B} {s' : ApiState}
    → follow_call next r ≡ (ok value, s')
    → (a : A) × (t : ApiState) × (r ≡ (ok a, t)) × (next a t ≡ (ok value, s'))
follow_call-eq-ok (ok a, t) next h = (a, t, refl, h)
follow_call-eq-ok (err why, t) next h = cc
follow_call-eq-ok (panic, t) next h = cc
follow_call-eq-ok (stuck, t) next h = cc

pub >>=-eq-ok :
    {A B : Type 0} (call : Handler A) (next : A → Handler B) (s : ApiState) {value : B}
    {s' : ApiState}
    → (call >>= next) s ≡ (ok value, s')
    → (a : A) × (t : ApiState) × (call s ≡ (ok a, t)) × (next a t ≡ (ok value, s'))
>>=-eq-ok call next s h = follow_call-eq-ok (call s) next h

pub lift-eq-ok :
    {A B : Type 0} (r : Api A) (next : A → Handler B) (s : ApiState) {value : B} {s' : ApiState}
    → (lift r >>= next) s ≡ (ok value, s')
    → (a : A) × (r ≡ ok a) × (next a s ≡ (ok value, s'))
lift-eq-ok (ok a) next s h = (a, refl, h)
lift-eq-ok (err why) next s h = cc
lift-eq-ok panic next s h = cc
lift-eq-ok stuck next s h = cc

pub map_err-eq-ok :
    {E F A : Type 0} (convert : E → F) (r : Outcome E A) {value : A}
    → map_err convert r ≡ ok value
    → r ≡ ok value
map_err-eq-ok convert (ok a) h = cc
map_err-eq-ok convert (err why) h = cc
map_err-eq-ok convert panic h = cc
map_err-eq-ok convert stuck h = cc

-- A single-use value that a store hands over.
module _ {B : Type 0} (binding_eq : B → B → Bool) where
  judge-eq-ok :
      (now : ℕ) (expected : B) (o : Option (Entry B))
      → judge binding_eq now expected o ≡ ok tt
      → (e : Entry B) × (o ≡ some e)
        × (binding_eq e.binding expected ≡ true)
        × (now ≤ e.expires_at_ms)
  unfolding judge
  judge-eq-ok now expected none h = cc
  judge-eq-ok now expected (some e) h = (e, refl, ground arith, ground arith)

  pub consume-eq-ok :
      (now : ℕ) (key : Bytes) (expected : B) (s : Store B)
      → (Store.consume binding_eq now key expected s).0 ≡ ok tt
      → (e : Entry B) × (find key s.entries ≡ some e)
        × (binding_eq e.binding expected ≡ true)
        × (now ≤ e.expires_at_ms)
        × (find key (Store.consume binding_eq now key expected s).1.entries ≡ none)
  unfolding Store.consume
  consume-eq-ok now key expected s h = elim (Bool-cases s.poisoned) [
    | inl y ↦ absurd (ground arith)
    | inr n ↦
        let (e, f, b, l) = judge-eq-ok now expected (find key s.entries) (ground arith) in
        (e, f, b, l, rw (n, find-remove key s.entries))
  ]

-- A value that was put in under its key is found there.
pub get_row-put_row :
    {A : Type 0} (same : A → Bool) (row : A) (rows : List A)
    → same row ≡ true
    → get_row same (put_row same row rows) ≡ some row
unfolding get_row put_row
get_row-put_row same row [] h = ground arith
get_row-put_row same row (r ∷ rows) h = ground (arith, get_row-put_row same row rows)

pub lookup_right-upsert_right :
    (row : PublisherRightsRecord) (s : RightsStore)
    → (upsert_right row s).0 ≡ ok tt
    → lookup_right row.publisher_passport row.namespace (upsert_right row s).1 ≡ ok (some row)
unfolding upsert_right lookup_right
lookup_right-upsert_right row s h = elim (Bool-cases s.poisoned) [
  | inl y ↦ absurd (ground arith)
  | inr n ↦ rw (
    n,
    get_row-put_row (is_right row.publisher_passport row.namespace) row s.rows
        (rw (bytes_eq_refl row.publisher_passport, bytes_eq_refl row.namespace)),
  )
]
