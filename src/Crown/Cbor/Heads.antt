-- ===== src/Crown/Cbor/Heads.antt =====
-- `read_value` on the heads that `write_head` writes.
use rcx_registry.Prelude.{
  ℕ, suc, ◌+◌, ◌*◌, ◌%◌, ◌^◌, ◌<◌, ◌≡◌, refl, true, [], ◌∷◌, ◌++◌, Bytes, bit_and, bit_or, ltb, leb,
  ◌==◌, ==_iff, if◌then◌else◌, length, length-append, take-append, drop-append, passes_up_to,
  passes_up_to_lem, to_be_bytes, length-to_be_bytes, from_be_bytes-to_be_bytes, arith,
}
use rcx_registry.Prelude.Outcome.{ok, ◌>>=◌}
use rcx_registry.Crown.Float.{Platform}
use rcx_registry.Crown.Cbor.Encode.{write_head}
use rcx_registry.Crown.Cbor.Decode.{
  Cursor, take_bytes, take_u8, take_word, read_arg, read_body, read_value,
}

abbrev pub at_cursor : ℕ → Bytes → Cursor
at_cursor pos rest = record { pos = pos; rest = rest }

-- The bits of a head do not overlap.
or_table :
    passes_up_to
      (λ major. passes_up_to (λ info. bit_or (major * 32) info == major * 32 + info) 32)
      8
    ≡ true
unfolding passes_up_to
or_table = refl

pub head_or :
    (major info : ℕ) → major < 8 → info < 32 → bit_or (major * 32) info ≡ major * 32 + info
head_or major info hm hi = (==_iff _ _).0 (
    passes_up_to_lem _ 32 info hi (
      passes_up_to_lem (λ m. passes_up_to (λ i. bit_or (m * 32) i == m * 32 + i) 32) 8 major hm
        or_table))

and_table : passes_up_to (λ first. bit_and first 0x1f == first % 32) 256 ≡ true
unfolding passes_up_to
and_table = refl

pub head_and : (first : ℕ) → first < 256 → bit_and first 0x1f ≡ first % 32
head_and first h =
    (==_iff _ _).0 (passes_up_to_lem (λ f. bit_and f 0x1f == f % 32) 256 first h and_table)

-- Reading what was appended before the rest.
pub take_bytes-append :
    (pos : ℕ) (bs rest : Bytes)
    → pos + length bs < 2 ^ 64
    → take_bytes (length bs) (at_cursor pos (bs ++ rest))
      ≡ ok (bs, at_cursor (pos + length bs) rest)
unfolding take_bytes
take_bytes-append pos bs rest h =
    ground (arith, length-append bs rest, take-append bs rest, drop-append bs rest)

pub take_word-append :
    (width pos n : ℕ) (rest : Bytes)
    → n < 256 ^ width
    → pos + width < 2 ^ 64
    → take_word width (at_cursor pos (to_be_bytes width n ++ rest))
      ≡ ok (n, at_cursor (pos + width) rest)
unfolding take_word
take_word-append width pos n rest hn hp = ground (
  arith,
  length-to_be_bytes width n,
  from_be_bytes-to_be_bytes width n hn,
  take_bytes-append pos (to_be_bytes width n) rest,
)

pub take_u8-cons :
    (pos b : ℕ) (rest : Bytes)
    → pos + 1 < 2 ^ 64
    → take_u8 (at_cursor pos (b ∷ rest)) ≡ ok (b, at_cursor (pos + 1) rest)
unfolding take_u8
take_u8-cons pos b rest h = ground arith

-- The two parts of a head.
abbrev pub head_info : ℕ → ℕ
head_info arg =
    if ltb arg 24
    then arg
    else if leb arg 0xff
    then 24
    else if leb arg 0xffff
    then 25
    else if leb arg 0xffff_ffff
    then 26
    else 27

abbrev pub head_rest : ℕ → Bytes
head_rest arg =
    if ltb arg 24
    then []
    else if leb arg 0xff
    then to_be_bytes 1 arg
    else if leb arg 0xffff
    then to_be_bytes 2 arg
    else if leb arg 0xffff_ffff
    then to_be_bytes 4 arg
    else to_be_bytes 8 arg

pub write_head-parts :
    (major arg : ℕ)
    → major < 8
    → write_head major arg ≡ (major * 32 + head_info arg) ∷ head_rest arg
unfolding write_head
write_head-parts major arg h = ground (
  arith,
  head_or major arg h,
  head_or major 24 h,
  head_or major 25 h,
  head_or major 26 h,
  head_or major 27 h,
)

pub head_info-lt : (arg : ℕ) → head_info arg < 28
head_info-lt arg = ground arith

take_byte_word :
    (arg pos : ℕ) (tail : Bytes)
    → arg < 256
    → pos + 1 < 2 ^ 64
    → take_u8 (at_cursor pos (to_be_bytes 1 arg ++ tail)) ≡ ok (arg, at_cursor (pos + 1) tail)
unfolding to_be_bytes
take_byte_word arg pos tail h k = ground (arith, take_u8-cons pos (arg % 256) tail)

-- `read_arg` reads back the argument, and the rest is left.
pub read_arg-head :
    (arg pos : ℕ) (tail : Bytes)
    → arg < 2 ^ 64
    → pos + length (head_rest arg) < 2 ^ 64
    → read_arg (head_info arg) (at_cursor pos (head_rest arg ++ tail))
      ≡ ok (arg, at_cursor (pos + length (head_rest arg)) tail)
unfolding read_arg
read_arg-head arg pos tail ha hp = ground (
  arith,
  length-to_be_bytes 1 arg,
  length-to_be_bytes 2 arg,
  length-to_be_bytes 4 arg,
  length-to_be_bytes 8 arg,
  take_byte_word arg pos tail,
  take_word-append 2 pos arg tail,
  take_word-append 4 pos arg tail,
  take_word-append 8 pos arg tail,
)

-- A first byte that is neither a simple value nor a float.
pub read_value-first :
    (p : Platform) (fuel pos major info : ℕ) (rest : Bytes)
    → major < 7
    → info < 32
    → pos + 1 < 2 ^ 64
    → read_value p (suc fuel) (at_cursor pos ((major * 32 + info) ∷ rest)) ≡ (
        read_arg info (at_cursor (pos + 1) rest) >>= λ (arg, c).
        read_body p (read_value p fuel) major arg c)
unfolding read_value
read_value-first p fuel pos major info rest hm hi hp = ground (
  arith,
  take_u8-cons pos (major * 32 + info) rest hp,
  head_and (major * 32 + info) (omega arith),
)

pub read_value-head :
    (p : Platform) (fuel pos major arg : ℕ) (tail : Bytes)
    → major < 7
    → arg < 2 ^ 64
    → pos + length (write_head major arg) < 2 ^ 64
    → read_value p (suc fuel) (at_cursor pos (write_head major arg ++ tail))
      ≡ read_body p
          (read_value p fuel)
          major
          arg
          (at_cursor (pos + length (write_head major arg)) tail)
read_value-head p fuel pos major arg tail hm ha hp = ground (
  arith,
  write_head-parts major arg,
  read_value-first p fuel pos major (head_info arg) (head_rest arg ++ tail),
  read_arg-head arg (pos + 1) tail,
  head_info-lt arg,
)
