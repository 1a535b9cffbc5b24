-- ===== src/Cemi/AdditionalInformation.antt =====
-- src/knx/cemi/AdditionalInformation.cpp: typed blocks of bytes in front of the control field.
pub mod Laws
pub mod Ends
use libknx.Prelude.{ℕ, zero, suc, ◌+◌, ◌-◌, ◌%◌, List, [], ◌∷◌, ◌==◌, if◌then◌else◌, length, u8}
use libknx.Bytes.Parser.{Parser, diverged, fail, pure, ◌>>=◌}
use libknx.Bytes.Reader.{read_uint8, copy_to_span}
use libknx.Bytes.Writer.{Writer, ◌>>◌, write_uint8, write_byte_span}

-- The type is an enumeration over `std::uint8_t`: any byte is a value of it. `payload` is the member
-- `data`.
pub record AdditionalInformationElement : Type 0 where
  pub type : ℕ
  pub payload : List ℕ

pub record AdditionalInformation : Type 0 where
  pub elements : List AdditionalInformationElement

-- The loop of `parse` on `remainingLength`, a `std::uint8_t` whose subtraction wraps. Each round reads
-- two bytes at least, so that the fuel outlasts the input: `diverged` is never the outcome.
unfoldable pub parse_elements : ℕ → ℕ → Parser (List AdditionalInformationElement)
parse_elements zero remaining_length = fail diverged
parse_elements (suc fuel) remaining_length =
    let round = (do
      type ← read_uint8
      element_length ← read_uint8
      payload ← copy_to_span element_length
      rest ← parse_elements fuel (u8 (remaining_length + 512 - (element_length + 2)))
      pure (record { type = type; payload = payload } ∷ rest)) in
    if remaining_length == 0 then pure [] else round

unfoldable pub parse : Parser AdditionalInformation
parse r =
    (do
      remaining_length ← read_uint8
      elements ← parse_elements (suc (length r.bytes)) remaining_length
      pure (record { elements = elements }))
      r

unfoldable pub frame_size : AdditionalInformationElement → ℕ
frame_size e = u8 (2 + length e.payload)

unfoldable pub write_element : AdditionalInformationElement → Writer
write_element e = do
  write_uint8 e.type
  write_uint8 (u8 (length e.payload))
  write_byte_span e.payload

-- The sum of the sizes, in a `std::uint8_t`.
unfoldable pub total_length : ℕ → List AdditionalInformationElement → ℕ
total_length total [] = total
total_length total (e ∷ es) = total_length (u8 (total + frame_size e)) es

unfoldable pub write_elements : List AdditionalInformationElement → Writer
write_elements [] out = out
write_elements (e ∷ es) out = write_elements es (write_element e out)

unfoldable pub write : AdditionalInformation → Writer
write a = do write_uint8 (total_length 0 a.elements); write_elements a.elements
