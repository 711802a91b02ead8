-- ===== src/Examples/Pop.antt =====
-- Proofs of possession, nonces and OAuth states.
use rcx_registry.Prelude.{
  ◌≤◌, ◌≡◌, ◌↔◌, refl, false, not, some, [], ◌∷◌, Bytes, codes, bytes_eq, ltb, if◌then◌else◌,
  ltb→lt, arith,
}
use rcx_registry.Prelude.Outcome.{ok, err}
use rcx_registry.Admin.Pop.{
  Hex, unknown_nonce, nonce_binding_mismatch, challenge_signing_bytes, verify_pop,
  passport_fpr_from_public_key, default_nonce_ttl_ms,
}
use rcx_registry.Admin.Pop.Framing.{challenge_signing_bytes-injective}
use rcx_registry.Admin.Pop.Accepts.{IsProof, verify_pop_iff}
use rcx_registry.Admin.Pop.Store as Store
use rcx_registry.Admin.Pop.Store.{Store, Entry, saturating_add, find, remove, retain, insert, judge}
use rcx_registry.Admin.Pop.Store.History.{issue_op, consume_op, run}
use rcx_registry.Admin.Pop.Store.SingleUse.{consume-consume, consume-issue}
use rcx_registry.Admin.Pop.Store.Origin.{IsLive}
use rcx_registry.Admin.Pop.Nonces as Nonces
use rcx_registry.Admin.Pop.Nonces.{NonceBinding, consume-nonce_issued}
use rcx_registry.Admin.Pop.OauthStates as OauthStates
use rcx_registry.Admin.Pop.OauthStates.{OauthStateBinding, consume-state_issued}
use rcx_registry.Examples.Toy.{toy_crypto, toy_key, toy_sign}

-- texts of digits that stand for themselves
abbrev toy_hex : Hex
toy_hex = record { decode_hex = λ digits. some digits; encode_hex = λ bs. bs }

abbrev toy_fpr : Bytes
toy_fpr = passport_fpr_from_public_key toy_crypto toy_hex toy_key

abbrev toy_proof : Bytes
toy_proof = toy_sign toy_key (challenge_signing_bytes (codes "ab") (codes "io.x") toy_fpr)

verify_pop_iff_example :
    (verify_pop toy_crypto toy_hex (codes "ab") (codes "io.x") toy_fpr toy_key toy_proof ≡ ok tt)
    ↔ IsProof toy_crypto toy_hex (codes "ab") (codes "io.x") toy_fpr toy_key toy_proof
verify_pop_iff_example =
    verify_pop_iff toy_crypto toy_hex (codes "ab") (codes "io.x") toy_fpr toy_key toy_proof

challenge_signing_bytes-injective_example :
    (codes "n" ≡ codes "n") × (codes "a" ≡ codes "a") × (codes "bc" ≡ codes "bc")
challenge_signing_bytes-injective_example =
    challenge_signing_bytes-injective (codes "n") (codes "a") (codes "bc") (codes "n") (codes "a")
      (codes "bc") (ltb→lt _ _ refl) (ltb→lt _ _ refl) (ltb→lt _ _ refl) (ltb→lt _ _ refl)
      (ltb→lt _ _ refl) (ltb→lt _ _ refl) refl

abbrev nonce_binding : NonceBinding
nonce_binding = record {
  server_name = codes "io.x";
  passport_fpr = codes "p_1";
  public_key_hex = codes "09";
}

abbrev state_binding : OauthStateBinding
state_binding = record {
  server_name = codes "io.x";
  publisher_passport = codes "p_1";
  redirect_uri = codes "https://rcx";
}

abbrev empty_store : Store NonceBinding
empty_store = record { ttl_ms = default_nonce_ttl_ms; poisoned = false; entries = [] }

consume-consume_example :
    (Store.consume Nonces.binding_eq 3000 (codes "n1") nonce_binding (
      run Nonces.binding_eq
        (issue_op 2500 (codes "n2") nonce_binding ∷ [])
        (Store.consume Nonces.binding_eq 2000
          (codes "n1")
          nonce_binding
          (Store.issue 1000 (codes "n1") nonce_binding empty_store).1).1)).0
    ≡ err unknown_nonce
unfolding Store.issue bytes_eq
consume-consume_example =
    consume-consume Nonces.binding_eq (Store.issue 1000 (codes "n1") nonce_binding empty_store).1
      2000 3000 (codes "n1") nonce_binding nonce_binding
      (issue_op 2500 (codes "n2") nonce_binding ∷ []) refl (refl, tt)

consume-issue_example :
    (Store.consume Nonces.binding_eq 2000 (codes "n1") nonce_binding (
      run Nonces.binding_eq
        (consume_op 1500 (codes "n2") nonce_binding ∷ [])
        (Store.issue 1000 (codes "n1") nonce_binding empty_store).1)).0
    ≡ (if ltb (saturating_add 1000 default_nonce_ttl_ms) 2000
        then err unknown_nonce
        else if not (Nonces.binding_eq nonce_binding nonce_binding)
        then err nonce_binding_mismatch
        else ok tt)
unfolding bytes_eq saturating_add
consume-issue_example =
    consume-issue Nonces.binding_eq empty_store 1000 2000 (codes "n1") nonce_binding nonce_binding
      (consume_op 1500 (codes "n2") nonce_binding ∷ []) refl (refl, tt) (omega arith, tt)

consume-nonce_issued_example :
    (e : Entry NonceBinding) × IsLive 1000
      (codes "n1")
      e
      (issue_op 5 (codes "n1") nonce_binding ∷ [])
    × (e.binding ≡ nonce_binding)
    × (6 ≤ e.expires_at_ms)
unfolding Nonces.consume Nonces.new Nonces.binding_eq Store.new Store.consume Store.issue run find
    remove retain insert judge saturating_add bytes_eq
consume-nonce_issued_example =
    consume-nonce_issued 1000 6 (codes "n1") nonce_binding
      (issue_op 5 (codes "n1") nonce_binding ∷ []) refl

consume-state_issued_example :
    (e : Entry OauthStateBinding) × IsLive 1000
      (codes "s1")
      e
      (issue_op 5 (codes "s1") state_binding ∷ [])
    × (e.binding ≡ state_binding)
    × (6 ≤ e.expires_at_ms)
unfolding OauthStates.consume OauthStates.new OauthStates.binding_eq Store.new Store.consume
    Store.issue run find remove retain insert judge saturating_add bytes_eq
consume-state_issued_example =
    consume-state_issued 1000 6 (codes "s1") state_binding
      (issue_op 5 (codes "s1") state_binding ∷ []) refl
