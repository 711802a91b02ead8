-- ===== src/Admin/Pop/Framing.antt =====
-- `challenge_signing_bytes` and its length prefixes (crates/rcx-registry-admin/src/pop.rs).
use rcx_registry.Prelude.{
  ◌<◌, ◌^◌, ◌%◌, ◌≡◌, refl, sym, ap, ◌∙◌, [], ◌∷◌, ◌++◌, append_assoc, Bytes, length, to_be_bytes,
  from_be_bytes, length-to_be_bytes, from_be_bytes-to_be_bytes, arith,
}
use rcx_registry.Admin.Pop.{length_prefixed, challenge_signing_bytes, pop_domain}

-- Lists that agree and whose first parts are as long agree in both parts.
append_unique :
    (as' bs rest rest' : Bytes)
    → length as' ≡ length bs
    → as' ++ rest ≡ bs ++ rest'
    → (as' ≡ bs) × (rest ≡ rest')
append_unique [] [] rest rest' l e = (refl, e)
append_unique [] (b ∷ bs) rest rest' l e = absurd (omega arith)
append_unique (a ∷ as') [] rest rest' l e = absurd (omega arith)
append_unique (a ∷ as') (b ∷ bs) rest rest' l e =
    let (e1, e2) = append_unique as' bs rest rest' (omega arith) (cc) in (cc, e2)

field_unique :
    (f g rest rest' : Bytes)
    → length f < 2 ^ 32
    → length g < 2 ^ 32
    → length_prefixed f ++ rest ≡ length_prefixed g ++ rest'
    → (f ≡ g) × (rest ≡ rest')
unfolding length_prefixed
field_unique f g rest rest' hf hg e =
    let (heads, tails) =
      append_unique (to_be_bytes 4 (length f % 2 ^ 32)) (to_be_bytes 4 (length g % 2 ^ 32))
        (f ++ rest) (g ++ rest') (length-to_be_bytes 4 _ ∙ sym (length-to_be_bytes 4 _))
        (sym (append_assoc (to_be_bytes 4 (length f % 2 ^ 32)) f rest)
          ∙ e
          ∙ append_assoc (to_be_bytes 4 (length g % 2 ^ 32)) g rest') in
    append_unique f g rest rest'
      (omega (
        arith,
        ap from_be_bytes heads,
        from_be_bytes-to_be_bytes 4 (length f % 2 ^ 32) (omega arith),
        from_be_bytes-to_be_bytes 4 (length g % 2 ^ 32) (omega arith),
      ))
      tails

-- If the signing bytes of two challenges are the same, and all fields are shorter than 2 ^ 32 bytes,
-- then the challenges have one nonce, one server name and one fingerprint.
pub challenge_signing_bytes-injective :
    (nonce server fpr nonce' server' fpr' : Bytes)
    → length nonce < 2 ^ 32
    → length server < 2 ^ 32
    → length fpr < 2 ^ 32
    → length nonce' < 2 ^ 32
    → length server' < 2 ^ 32
    → length fpr' < 2 ^ 32
    → challenge_signing_bytes nonce server fpr ≡ challenge_signing_bytes nonce' server' fpr'
    → (nonce ≡ nonce') × (server ≡ server') × (fpr ≡ fpr')
unfolding challenge_signing_bytes
challenge_signing_bytes-injective nonce server fpr nonce' server' fpr' hn hs hf hn' hs' hf' e =
    let (_, e0) = append_unique (pop_domain ++ 0 ∷ []) (pop_domain ++ 0 ∷ []) _ _ refl e in
    let (e1, e1') = field_unique nonce nonce' _ _ hn hn' e0 in
    let (e2, e2') = field_unique server server' _ _ hs hs' e1' in
    let (e3, _) = field_unique fpr fpr' [] [] hf hf' e2' in (e1, e2, e3)
