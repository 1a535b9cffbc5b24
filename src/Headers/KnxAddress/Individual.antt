-- ===== src/Headers/KnxAddress/Individual.antt =====
-- `IndividualAddress` of src/knx/headers/KnxAddress.cpp on its two bytes.
use libknx.Prelude.{
  ℕ, ◌+◌, ◌*◌, ◌/◌, ◌%◌, ◌<◌, ◌≡◌, refl, List, [], ◌∷◌, arith, IsByte, bit_and, bit_or, ◌<<<◌,
  ◌>>>◌, u8, all_below, equal_below,
}
use libknx.Prelude.Bits.{bit_and-mask}
use libknx.Bytes.Parser.{Parser, pure, ◌>>=◌}
use libknx.Bytes.Reader.{read_byte_span, element}
use libknx.Bytes.Writer.{Writer, ◌>>◌, write_uint8}
use libknx.Bytes.Wire.{
  Reads, Appends, RoundTrips, RoundTrips-wire, Reads-return, Reads-bind, Reads-span, Appends-uint8,
  Appends-byte, Appends-then,
}
use libknx.Headers.KnxAddress.{IndividualAddress}

unfoldable pub parse : Parser IndividualAddress
parse = do
  address ← read_byte_span 2
  first ← element address 0
  second ← element address 1
  pure (record { high = bit_and (first >>> 4) 0x0f; middle = bit_and first 0x0f; low = second })

unfoldable pub write : IndividualAddress → Writer
write a = do
  write_uint8 (u8 (bit_or (bit_and (a.high <<< 4) 0xf0) (bit_and a.middle 0x0f)))
  write_uint8 a.low

-- An area and a line of four bits each, and a device of eight.
abbrev pub IsIndividual : IndividualAddress → Type 0
IsIndividual a = (a.high < 16) × (a.middle < 16) × IsByte a.low

abbrev pub individual_bytes : IndividualAddress → List ℕ
individual_bytes a = (a.high * 16 + a.middle) ∷ a.low ∷ []

first_byte :
    (high middle : ℕ)
    → high < 16
    → middle < 16
    → u8 (bit_or (bit_and (high <<< 4) 0xf0) (bit_and middle 0x0f)) ≡ high * 16 + middle
unfolding all_below
first_byte high middle h m = ground (
  arith,
  equal_below 256 (λ x. u8 (bit_or (bit_and ((x / 16) <<< 4) 0xf0) (bit_and (x % 16) 0x0f)))
      (λ x. x) (high * 16 + middle) refl,
)

pub write-Appends :
    (a : IndividualAddress) → IsIndividual a → Appends (write a) (individual_bytes a)
unfolding write
write-Appends a v =
    Appends-then (Appends-byte (first_byte a.high a.middle v.0 v.1)) (Appends-uint8 a.low)

pub parse-Reads : (a : IndividualAddress) → IsIndividual a → Reads parse (individual_bytes a) a
unfolding parse element
parse-Reads a v = Reads-bind _ (Reads-span ((a.high * 16 + a.middle) ∷ a.low ∷ [])) (
    Reads-return (
      ground (
        arith,
        bit_and-mask 4 ((a.high * 16 + a.middle) / 16),
        bit_and-mask 4 (a.high * 16 + a.middle),
      )))

-- An address within its fields' bits is read back as it was written.
pub parse-write_individual : (a : IndividualAddress) → IsIndividual a → RoundTrips (write a) parse a
parse-write_individual a v =
    RoundTrips-wire (individual_bytes a) (write-Appends a v) (parse-Reads a v)
