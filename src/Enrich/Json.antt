-- ===== src/Enrich/Json.antt =====
-- `json_to_cbor` of crates/rcx-registry-enrich/src/lib.rs.
use rcx_registry.Prelude.{◌≡◌, refl, true}
use rcx_registry.Prelude.Outcome.{Outcome, ok, err, panic, stuck, ◌>>=◌}
use rcx_registry.Crown.Float.{is_finite64}
use rcx_registry.Crown.Json.{JsonNumber, positive, negative, real, Json, JsonItems, Members}
use rcx_registry.Crown.Cbor.Value.{CborValue, Items, Pairs}
use rcx_registry.Crown.Cbor.Encoding.{IsFinite, AreFinite, AreFinitePairs}
use rcx_registry.Enrich.{EnrichError, negative_number}

-- `as_u64`, then `as_i64`, then `as_f64`: a positive number is a `u64`, and a negative one is below 0
unfoldable pub number_to_cbor : JsonNumber → Outcome EnrichError CborValue
number_to_cbor (positive n) = ok (CborValue.uint n)
number_to_cbor (negative n) = err negative_number
number_to_cbor (real bits) = ok (CborValue.float bits)

unfoldable mutual
  unfolding number_to_cbor

  pub json_to_cbor : Json → Outcome EnrichError CborValue
  json_to_cbor Json.null = ok CborValue.null
  json_to_cbor (Json.bool b) = ok (CborValue.bool b)
  json_to_cbor (Json.string s) = ok (CborValue.text s)
  json_to_cbor (Json.array items) = do values ← items_to_cbor items; ok (CborValue.array values)
  json_to_cbor (Json.object ms) = do pairs ← members_to_cbor ms; ok (CborValue.object pairs)
  json_to_cbor (Json.number n) = number_to_cbor n

  pub items_to_cbor : JsonItems → Outcome EnrichError Items
  items_to_cbor JsonItems.no_items = ok Items.no_items
  items_to_cbor (JsonItems.item v vs) = do
    value ← json_to_cbor v
    values ← items_to_cbor vs
    ok (Items.item value values)

  pub members_to_cbor : Members → Outcome EnrichError Pairs
  members_to_cbor Members.no_members = ok Pairs.no_pairs
  members_to_cbor (Members.member key v ms) = do
    value ← json_to_cbor v
    pairs ← members_to_cbor ms
    ok (Pairs.pair key value pairs)

-- A number that is not below 0; a float is finite.
abbrev pub IsNonNegativeNumber : JsonNumber → Type 0
IsNonNegativeNumber (negative n) = ⊥
IsNonNegativeNumber (real bits) = is_finite64 bits ≡ true
IsNonNegativeNumber (positive n) = Unit

-- The values of `serde_json` that hold no number below 0; its floats are finite.
abbrev mutual
  pub IsNonNegative : Json → Type 0
  IsNonNegative (Json.number n) = IsNonNegativeNumber n
  IsNonNegative (Json.array items) = AreNonNegative items
  IsNonNegative (Json.object ms) = AreNonNegativeMembers ms
  IsNonNegative _ = Unit

  pub AreNonNegative : JsonItems → Type 0
  AreNonNegative JsonItems.no_items = Unit
  AreNonNegative (JsonItems.item v vs) = IsNonNegative v × AreNonNegative vs

  pub AreNonNegativeMembers : Members → Type 0
  AreNonNegativeMembers Members.no_members = Unit
  AreNonNegativeMembers (Members.member key v ms) = IsNonNegative v × AreNonNegativeMembers ms

-- The value of a call that returns a finite one.
abbrev pub Returns : {A : Type 0} → (A → Type 0) → Outcome EnrichError A → Type 0
Returns P (ok a) = P a
Returns P _ = ⊥

Returns-bind :
    {A B : Type 0} (P : A → Type 0) (Q : B → Type 0) (call : Outcome EnrichError A)
    (next : A → Outcome EnrichError B)
    → Returns P call
    → ((a : A) → P a → Returns Q (next a))
    → Returns Q (call >>= next)
Returns-bind P Q (ok a) next h k = k a h
Returns-bind P Q (err e) next h k = absurd h
Returns-bind P Q panic next h k = absurd h
Returns-bind P Q stuck next h k = absurd h

mutual
  unfolding json_to_cbor number_to_cbor

  -- A value without a number below 0 is converted, to a value that the encoder takes.
  pub json_to_cbor-IsFinite : (v : Json) → IsNonNegative v → Returns IsFinite (json_to_cbor v)
  json_to_cbor-IsFinite Json.null h = tt
  json_to_cbor-IsFinite (Json.bool b) h = tt
  json_to_cbor-IsFinite (Json.string s) h = tt
  json_to_cbor-IsFinite (Json.number (positive n)) h = tt
  json_to_cbor-IsFinite (Json.number (negative n)) h = absurd h
  json_to_cbor-IsFinite (Json.number (real bits)) h = h
  json_to_cbor-IsFinite (Json.array items) h =
      Returns-bind AreFinite IsFinite (items_to_cbor items) _ (items-AreFinite items h)
        (λ values k. k)
  json_to_cbor-IsFinite (Json.object ms) h =
      Returns-bind AreFinitePairs IsFinite (members_to_cbor ms) _ (members-AreFinite ms h)
        (λ pairs k. k)

  items-AreFinite : (vs : JsonItems) → AreNonNegative vs → Returns AreFinite (items_to_cbor vs)
  items-AreFinite JsonItems.no_items h = tt
  items-AreFinite (JsonItems.item v vs) (hv, h) =
      Returns-bind IsFinite AreFinite (json_to_cbor v) _ (json_to_cbor-IsFinite v hv) (λ value k.
        Returns-bind AreFinite AreFinite (items_to_cbor vs) _ (items-AreFinite vs h)
          (λ values ks. (k, ks)))

  members-AreFinite :
      (ms : Members) → AreNonNegativeMembers ms → Returns AreFinitePairs (members_to_cbor ms)
  members-AreFinite Members.no_members h = tt
  members-AreFinite (Members.member key v ms) (hv, h) =
      Returns-bind IsFinite AreFinitePairs (json_to_cbor v) _ (json_to_cbor-IsFinite v hv)
        (λ value k.
          Returns-bind AreFinitePairs AreFinitePairs (members_to_cbor ms) _ (members-AreFinite ms h)
            (λ pairs ks. (k, ks)))

-- The value that a call returns.
pub Returns-ok :
    {A : Type 0} (P : A → Type 0) (call : Outcome EnrichError A)
    → Returns P call
    → (a : A) × (call ≡ ok a) × P a
Returns-ok P (ok a) h = (a, refl, h)
Returns-ok P (err e) h = absurd h
Returns-ok P panic h = absurd h
Returns-ok P stuck h = absurd h
