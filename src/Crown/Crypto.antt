-- ===== src/Crown/Crypto.antt =====
-- The primitives that the program takes from the crates `blake3` and `ed25519-dalek`.
use rcx_registry.Prelude.{Bool, Bytes}

pub record Crypto : Type 0 where
  -- the digest of all that a hasher was given
  pub blake3 : Bytes → Bytes
  -- whether `VerifyingKey::from_bytes` takes the 32 bytes
  pub valid_key : Bytes → Bool
  -- `verify` and `verify_strict` of a key, for a message and a signature
  pub verify : Bytes → Bytes → Bytes → Bool
  pub verify_strict : Bytes → Bytes → Bytes → Bool
