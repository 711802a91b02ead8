-- ===== src/Verify/Fields.antt =====
-- The helpers on the fields of a receipt: look-up, byte strings of a known length, zeroing.
pub mod Lookup
pub mod Zeroing
use rcx_registry.Prelude.{
  ℕ, Bool, true, false, ◌||◌, Option, none, some, List, [], ◌∷◌, map, Bytes, bytes_eq, ◌==◌,
  if◌then◌else◌, length, replicate,
}
use rcx_registry.Prelude.Outcome.{Outcome, ok, err}
use rcx_registry.Crown.Cbor.Value.{CborValue, bytes, text, object, null, to_list, of_list}
use rcx_registry.Verify.Errors.{VerifyError, missing_field, decode_error, wrong_length, not_bytes}

-- The first field of that name.
unfoldable pub lookup : Bytes → List (Bytes × CborValue) → Option CborValue
lookup key [] = none
lookup key ((name, v) ∷ fields) = if bytes_eq name key then some v else lookup key fields

abbrev pub bytes_of_len : Bytes → ℕ → Option CborValue → Outcome VerifyError Bytes
bytes_of_len key expected_len (some (bytes bs)) =
    if length bs == expected_len then ok bs else err (decode_error (wrong_length key (length bs)))
bytes_of_len key expected_len (some _) = err (decode_error (not_bytes key))
bytes_of_len key expected_len none = err (missing_field key)

unfoldable pub take_bytes : List (Bytes × CborValue) → Bytes → ℕ → Outcome VerifyError Bytes
take_bytes fields key expected_len = bytes_of_len key expected_len (lookup key fields)

-- `keys.contains`
unfoldable pub contains : List Bytes → Bytes → Bool
contains [] name = false
contains (key ∷ keys) name = bytes_eq key name || contains keys name

-- Bytes become as many zeros, a text becomes null, and anything else stays.
unfoldable pub zeroed : CborValue → CborValue
zeroed (bytes bs) = bytes (replicate (length bs) 0)
zeroed (text s) = null
zeroed v = v

abbrev pub zero_field : List Bytes → Bytes × CborValue → Bytes × CborValue
zero_field keys (name, v) = (name, if contains keys name then zeroed v else v)

unfoldable pub zero_fields : CborValue → List Bytes → CborValue
zero_fields (object fields) keys = object (of_list (map (zero_field keys) (to_list fields)))
zero_fields v keys = v
