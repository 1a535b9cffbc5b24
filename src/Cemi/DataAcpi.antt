-- ===== src/Cemi/DataAcpi.antt =====
-- src/knx/cemi/ACPI.cpp: the application control field and the data of a frame.
pub mod Bits
use libknx.Prelude.{
  ℕ, ◌+◌, ◌-◌, ◌≡◌, Bool, true, false, ◌&&◌, ◌||◌, List, [], ◌∷◌, ◌==◌, if◌then◌else◌, length,
  bit_and, bit_or, ◌<<<◌, ◌>>>◌, u8, none, some, get_elem?,
}
use libknx.Bytes.Parser.{Parser, length_error, pure, fail, ◌>>=◌}
use libknx.Bytes.Reader.{read_uint8, copy_to_span}
use libknx.Bytes.Writer.{Writer, ◌>>◌, write_uint8, write_vector}

-- `payload` is the member `data`.
pub record DataAcpi : Type 0 where
  pub type : ℕ
  pub payload : List ℕ
  pub fits_6_bits : Bool

abbrev pub group_value_read : ℕ
group_value_read = 0

abbrev pub group_value_response : ℕ
group_value_response = 1

abbrev pub group_value_write : ℕ
group_value_write = 2

-- The constructors: data of any length, data of one byte, and none.
abbrev pub of_vector : ℕ → List ℕ → DataAcpi
of_vector type payload = record { type = type; payload = payload; fits_6_bits = false }

abbrev pub of_byte : ℕ → ℕ → Bool → DataAcpi
of_byte type byte fits_6_bits = record {
  type = type;
  payload = byte ∷ [];
  fits_6_bits = fits_6_bits;
}

abbrev pub of_type : ℕ → DataAcpi
of_type type = record { type = type; payload = []; fits_6_bits = true }

-- Two bits from the first byte and two from the second.
unfoldable pub type_of : ℕ → ℕ → ℕ
type_of first_byte second_byte =
    u8 (bit_or (u8 (bit_and first_byte 0x03 <<< 2)) (bit_and second_byte 0xc0 >>> 6))

-- A length of 0 resizes the vector to `-1` elements, which no vector holds.
unfoldable pub parse : ℕ → ℕ → Parser DataAcpi
parse first_byte length = do
  second_byte ← read_uint8
  let type = type_of first_byte second_byte
  if length == 1
      then pure (record {
        type = type;
        payload = bit_and second_byte 0b00111111 ∷ [];
        fits_6_bits = true;
      })
      else (if length == 0 then fail length_error else (do
        payload ← copy_to_span (length - 1)
        pure (record { type = type; payload = payload; fits_6_bits = false })))

unfoldable pub is_small : List ℕ → Bool
is_small payload = elim (get_elem? payload 0) [ none ↦ false | some b ↦ bit_and b 0b11000000 == 0 ]

unfoldable pub one_byte_data : DataAcpi → Bool
unfolding is_small
one_byte_data a = a.fits_6_bits && (length a.payload == 1 && is_small a.payload)

unfoldable pub no_data : DataAcpi → Bool
no_data a = length a.payload == 0

-- `data[0]`, which is read where there is one byte of data.
abbrev pub first_of : List ℕ → ℕ
first_of [] = 0
first_of (b ∷ bs) = b

unfoldable pub write : ℕ → DataAcpi → Writer
write first_byte a =
    let second_byte = u8 (bit_and a.type 0x03 <<< 6) in
    (do
      write_uint8 (if one_byte_data a || no_data a then 1 else u8 (length a.payload + 1))
      write_uint8 (u8 (bit_or first_byte (bit_and a.type 0x06 >>> 2)))
      if one_byte_data a
          then write_uint8 (u8 (bit_or second_byte (bit_and (first_of a.payload) 0b0011111111)))
          else write_uint8 second_byte >> write_vector a.payload)
