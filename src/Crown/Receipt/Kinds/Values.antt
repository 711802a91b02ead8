-- ===== src/Crown/Receipt/Kinds/Values.antt =====
-- The values of optional fields.
use rcx_registry.Prelude.{Option, none, some, Bytes}
use rcx_registry.Crown.Cbor.Value.{CborValue, bytes, text, null}

abbrev pub bytes_or_null : Option Bytes → CborValue
bytes_or_null (some hash) = bytes hash
bytes_or_null none = null

abbrev pub text_or_null : Option Bytes → CborValue
text_or_null (some s) = text s
text_or_null none = null
