-- ===== src/Verify/Digests/Namespace.antt =====
-- What `verify_publisher` and `verify_namespace` accept.
use rcx_registry.Prelude.{
  ◌≡◌, refl, ◌↔◌, inl, inr, Option, none, some, Bytes, bytes_eq, bytes_eq_refl, eq_of_bytes_eq,
  Bool-cases, arith,
}
use rcx_registry.Prelude.Outcome.{ok, err, >>=-eq-ok}
use rcx_registry.Crown.Json.{JsonText, Json, object, string, Members, get_key, get_member, as_str}
use rcx_registry.Crown.Hashing.{canonicalize_json, declaration_hash}
use rcx_registry.Verify.Errors.{decode_error, declaration_not_json}
use rcx_registry.Verify.Digests.{
  field_mcp_name, parse_declaration, verify_publisher, match_name, declared_name, verify_namespace,
}

module _ (blake3 : Bytes → Bytes) (t : JsonText) (from_str : Bytes → Option Json) where
  -- The text of a declaration parses, and its canonical text has the hash.
  pub record IsPublished (text hash : Bytes) : Type 0 where
    pub declaration : Json
    pub parsed : from_str text ≡ some declaration
    pub hashed : blake3 (canonicalize_json t declaration) ≡ hash

  parsed_ok :
      (text : Bytes) (v : Json)
      → parse_declaration blake3 t from_str text ≡ ok v
      → from_str text ≡ some v
  unfolding parse_declaration
  parsed_ok text v h = go (from_str text) h
    where
      go :
          (o : Option Json)
          → elim o [ none ↦ err (decode_error declaration_not_json) | some value ↦ ok value ] ≡ ok v
          → o ≡ some v
      go none h = cc
      go (some w) h = cc

  parse_some :
      (text : Bytes) (v : Json)
      → from_str text ≡ some v
      → parse_declaration blake3 t from_str text ≡ ok v
  unfolding parse_declaration
  parse_some text v e = rw (parse_declaration, e)

  published :
      (text hash : Bytes)
      → verify_publisher blake3 t from_str text hash ≡ ok tt
      → IsPublished text hash
  unfolding verify_publisher declaration_hash
  published text hash h =
      let (v, e, h') = >>=-eq-ok (parse_declaration blake3 t from_str text) _ h in
      elim (Bool-cases (bytes_eq (blake3 (canonicalize_json t v)) hash)) [
        | inr n ↦ absurd (ground arith)
        | inl y ↦ record {
          declaration = v;
          parsed = parsed_ok text v e;
          hashed = eq_of_bytes_eq _ _ y;
        }
      ]

  -- `verify_publisher` accepts a text and a hash exactly if the text parses and the digest of the
  -- canonical text of its value is the hash.
  pub verify_publisher_iff :
      (text hash : Bytes)
      → (verify_publisher blake3 t from_str text hash ≡ ok tt) ↔ IsPublished text hash
  unfolding verify_publisher declaration_hash
  verify_publisher_iff text hash = (
    published text hash,
    λ s. rw (parse_some text s.declaration s.parsed, s.hashed, bytes_eq_refl hash),
  )

  -- A claim: the declaration is published under the hash and its `mcp_name` is the namespace.
  pub record IsClaim (text hash claimed : Bytes) : Type 0 where
    pub publication : IsPublished text hash
    pub members : Members
    pub is_object : publication.declaration ≡ object members
    pub named : get_member field_mcp_name members ≡ some (string claimed)

  match_sound :
      (claimed : Bytes) (o : Option Bytes)
      → match_name blake3 t from_str claimed o ≡ ok tt
      → o ≡ some claimed
  unfolding match_name
  match_sound claimed none h = cc
  match_sound claimed (some name) h = ground (arith, eq_of_bytes_eq name claimed)

  declared_sound :
      (v : Json) (claimed : Bytes)
      → declared_name blake3 t from_str v ≡ some claimed
      → (ms : Members) × (v ≡ object ms) × (get_member field_mcp_name ms ≡ some (string claimed))
  unfolding declared_name get_key as_str
  declared_sound (object ms) claimed h = (ms, refl, string_of (get_member field_mcp_name ms) h)
    where
      string_of :
          (o : Option Json)
          → elim o [ none ↦ none | some v ↦ as_str v ] ≡ some claimed
          → o ≡ some (string claimed)
      string_of none h = cc
      string_of (some (string s)) h = cc
      string_of (some (object ms)) h = cc
      string_of (some Json.null) h = cc
      string_of (some (Json.bool b)) h = cc
      string_of (some (Json.number n)) h = cc
      string_of (some (Json.array xs)) h = cc
  declared_sound (string s) claimed h = cc
  declared_sound Json.null claimed h = cc
  declared_sound (Json.bool b) claimed h = cc
  declared_sound (Json.number n) claimed h = cc
  declared_sound (Json.array xs) claimed h = cc

  claim :
      (text hash claimed : Bytes)
      → verify_namespace blake3 t from_str text hash claimed ≡ ok tt
      → IsClaim text hash claimed
  unfolding verify_namespace
  claim text hash claimed h =
      let (_, e0, h0) = >>=-eq-ok (verify_publisher blake3 t from_str text hash) _ h in
      let s = published text hash e0 in
      let (v, e1, h1) = >>=-eq-ok (parse_declaration blake3 t from_str text) _ h0 in
      let (ms, o, n) =
        declared_sound v claimed (match_sound claimed (declared_name blake3 t from_str v) h1) in
      record {
        publication = record {
          declaration = v;
          parsed = parsed_ok text v e1;
          hashed = rw (← same_value text v s.declaration (parsed_ok text v e1) s.parsed) s.hashed;
        };
        members = ms;
        is_object = o;
        named = n;
      }
    where
      same_value :
          (text : Bytes) (v w : Json) → from_str text ≡ some v → from_str text ≡ some w → w ≡ v
      same_value text v w e f = cc

  -- `verify_namespace` accepts a text, a hash and a namespace exactly if the text is published under
  -- the hash and its value is an object whose member `mcp_name` is the namespace as a string.
  pub verify_namespace_iff :
      (text hash claimed : Bytes)
      → (verify_namespace blake3 t from_str text hash claimed ≡ ok tt) ↔ IsClaim text hash claimed
  unfolding verify_namespace declared_name get_key as_str match_name
  verify_namespace_iff text hash claimed = (
    claim text hash claimed,
    λ s. rw (
      (verify_publisher_iff text hash).1 s.publication,
      parse_some text s.publication.declaration s.publication.parsed,
      s.is_object,
      declared_name,
      get_key,
      s.named,
      bytes_eq_refl claimed,
    ),
  )
