-- ===== src/Skills/Uri/Parts.antt =====
-- Splitting what was joined.
use rcx_registry.Prelude.Texts.{to_ascii_lowercase, all_bytes}
use rcx_registry.Prelude.{◌≡◌, refl, ap₂, true, [], ◌∷◌, Bytes, arith}
use rcx_registry.Skills.Lock.{is_lower_hex_digit}
use rcx_registry.Skills.Uri.{is_ascii_hexdigit}

pub lowercase-lower_hex :
    (text : Bytes) → all_bytes is_lower_hex_digit text ≡ true → to_ascii_lowercase text ≡ text
unfolding to_ascii_lowercase all_bytes
lowercase-lower_hex [] h = refl
lowercase-lower_hex (b ∷ text) h =
    ap₂ (λ c cs. c ∷ cs) (ground arith) (lowercase-lower_hex text (ground arith))

pub all_bytes-to_ascii_lowercase :
    (text : Bytes)
    → all_bytes is_ascii_hexdigit text ≡ true
    → all_bytes is_lower_hex_digit (to_ascii_lowercase text) ≡ true
unfolding to_ascii_lowercase all_bytes
all_bytes-to_ascii_lowercase [] h = refl
all_bytes-to_ascii_lowercase (b ∷ text) h = ground (arith, all_bytes-to_ascii_lowercase text)
