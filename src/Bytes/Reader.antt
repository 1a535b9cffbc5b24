-- ===== src/Bytes/Reader.antt =====
-- src/knx/bytes/ByteBufferReader.cpp. The `int` counts of the source are lengths: no caller passes a
-- negative one.
use libknx.Prelude.{
  ℕ, ◌+◌, ◌-◌, ◌*◌, ◌%◌, ◌^◌, Bool, not, ◌&&◌, List, [], ◌∷◌, none, some, leb, ltb, ◌==◌,
  if◌then◌else◌, length, get_elem?, take, drop, bit_or, ◌<<<◌, u16, byteswap32,
}
use libknx.Bytes.Parser.{
  Endian, little, big, Parser, ByteBufferReader, ok, err, out_of_range, pure, fail, ◌>>=◌, advance,
}

pub bytes_left : ByteBufferReader → ℕ
bytes_left r = (length r.bytes + 2 * 2 ^ 64 - r.index - 1) % 2 ^ 64

unfoldable pub skip : ℕ → Parser (Unit {0})
skip n r = ok (tt, advance r n)

-- `data[index++]`
unfoldable pub read_uint8 : Parser ℕ
read_uint8 r = elim (get_elem? r.bytes r.index) [
  | none ↦ err out_of_range
  | some b ↦ ok (b, advance r 1)
]

-- `data.subspan(index, n)`
unfoldable pub read_byte_span : ℕ → Parser (List ℕ)
read_byte_span n r =
    if leb (r.index + n) (length r.bytes)
    then ok (take n (drop r.index r.bytes), advance r n)
    else err out_of_range

-- `&data[index]` needs a byte there, also where none is copied.
unfoldable pub read_string : ℕ → Parser (List ℕ)
read_string n r =
    if ltb r.index (length r.bytes) && leb (r.index + n) (length r.bytes)
    then ok (take n (drop r.index r.bytes), advance r n)
    else err out_of_range

-- An element of a span that has been taken.
unfoldable pub element : List ℕ → ℕ → Parser ℕ
element span i = elim (get_elem? span i) [ none ↦ fail out_of_range | some b ↦ pure b ]

-- The loop of `readTerminatedString`, which stops at the first zero.
unfoldable pub until_zero : List ℕ → List ℕ
until_zero [] = []
until_zero (b ∷ bs) = if b == 0 then [] else b ∷ until_zero bs

unfoldable pub read_terminated_string : ℕ → Parser (List ℕ)
read_terminated_string max_length = do span ← read_byte_span max_length; pure (until_zero span)

-- The bytes that overwrite a destination of `n` bytes.
unfoldable pub copy_to_span : ℕ → Parser (List ℕ)
copy_to_span n r =
    if leb (r.index + n) (length r.bytes)
    then ok (take n (drop r.index r.bytes), advance r n)
    else err out_of_range

unfoldable pub get_4_bytes_copy : Parser (ℕ × ℕ × ℕ × ℕ)
get_4_bytes_copy = do
  a ← read_uint8
  b ← read_uint8
  c ← read_uint8
  d ← read_uint8
  pure (a, b, c, d)

unfoldable pub read_bool_from_byte : Parser Bool
read_bool_from_byte = do b ← read_uint8; pure (not (b == 0))

module _ (native : Endian) where
  -- The first byte is the high one where `isNativeLittleEndian()`, and the low one elsewhere.
  unfoldable pub read_uint16 : Parser ℕ
  read_uint16 = do
    a ← read_uint8
    b ← read_uint8
    pure (elim native [ little ↦ bit_or (u16 (a <<< 8)) b | big ↦ bit_or (b <<< 8) a ])

  -- A `std::int16_t` is its sixteen bits.
  unfoldable pub read_int16 : Parser ℕ
  read_int16 = do
    a ← read_uint8
    b ← read_uint8
    pure (elim native [ little ↦ u16 (bit_or (u16 (a <<< 8)) b) | big ↦ u16 (bit_or a (b <<< 8)) ])

  -- `memcpy` into a native integer, and a swap on a little-endian machine.
  unfoldable pub read_uint32 : Parser ℕ
  read_uint32 = do
    (a, b, c, d) ← get_4_bytes_copy
    pure (elim native [
      | little ↦ byteswap32 (a + b * 256 + c * 65536 + d * 16777216)
      | big ↦ a * 16777216 + b * 65536 + c * 256 + d
    ])
