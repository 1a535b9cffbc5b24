-- ===== src/Bytes/Writer.antt =====
-- src/knx/bytes/ByteBufferWriter.cpp: each operation appends to the vector that the writer refers
-- to. A `Writer` takes the vector's contents to the new contents.
use libknx.Prelude.{
  ℕ, zero, suc, ◌+◌, ◌-◌, ◌%◌, ◌^◌, Bool, List, [], ◌∷◌, ◌++◌, length, bit_and, ◌>>>◌, u32,
  byteswap16, byteswap32, from_bool,
}
use libknx.Bytes.Parser.{Endian, little, big}

abbrev pub Writer : Type 0
Writer = List ℕ → List ℕ

-- One write and then another.
infixl 5 ◌>>◌
abbrev pub ◌>>◌ : Writer → Writer → Writer
◌>>◌ m k out = k (m out)

-- `data.push_back(value)`
unfoldable pub write_uint8 : ℕ → Writer
write_uint8 value out = out ++ value ∷ []

unfoldable pub write_zeros : ℕ → Writer
write_zeros zero out = out
write_zeros (suc n) out = write_zeros n (out ++ 0 ∷ [])

unfoldable pub write_string : List ℕ → Writer
write_string text out = out ++ text

unfoldable pub write_byte_span : List ℕ → Writer
write_byte_span span out = out ++ span

unfoldable pub write_vector : List ℕ → Writer
write_vector vector out = out ++ vector

-- The difference is taken in `uint32_t`.
unfoldable pub write_terminated_string : List ℕ → ℕ → Writer
write_terminated_string text max_length = do
  write_string text
  write_zeros ((u32 max_length + 2 ^ 32 - u32 (length text)) % 2 ^ 32)

unfoldable pub write_bool_as_byte : Bool → Writer
write_bool_as_byte value = write_uint8 (from_bool value)

module _ (native : Endian) where
  abbrev to_wire16 : ℕ → ℕ
  to_wire16 value = elim native [ little ↦ byteswap16 value | big ↦ value ]

  abbrev to_wire32 : ℕ → ℕ
  to_wire32 value = elim native [ little ↦ byteswap32 value | big ↦ value ]

  unfoldable pub write_uint16 : ℕ → Writer
  write_uint16 value = do
    write_uint8 (bit_and (to_wire16 value) 0xff)
    write_uint8 (bit_and (to_wire16 value >>> 8) 0xff)

  -- A `std::int16_t` is its sixteen bits, of which the shift and the mask give the high ones.
  unfoldable pub write_int16 : ℕ → Writer
  write_int16 value = do
    write_uint8 (bit_and (to_wire16 value) 0xff)
    write_uint8 (bit_and (to_wire16 value >>> 8) 0xff)

  unfoldable pub write_uint32 : ℕ → Writer
  write_uint32 value = do
    write_uint8 (bit_and (to_wire32 value) 0xff)
    write_uint8 (bit_and (to_wire32 value >>> 8) 0xff)
    write_uint8 (bit_and (to_wire32 value >>> 16) 0xff)
    write_uint8 (bit_and (to_wire32 value >>> 24) 0xff)
