-- ===== src/Headers/KnxAddress/Group.antt =====
-- `GroupAddress` of src/knx/headers/KnxAddress.cpp on its two bytes.
use libknx.Prelude.{
  ℕ, ◌+◌, ◌*◌, ◌/◌, ◌%◌, ◌<◌, ◌≡◌, refl, List, [], ◌∷◌, arith, IsByte, bit_and, bit_or, ◌<<<◌,
  ◌>>>◌, u8, all_below, equal_below,
}
use libknx.Prelude.Bits.{bit_and-mask}
use libknx.Bytes.Parser.{Parser, pure, ◌>>=◌}
use libknx.Bytes.Reader.{read_byte_span, element}
use libknx.Bytes.Writer.{Writer, ◌>>◌, write_uint8}
use libknx.Bytes.Wire.{
  Reads, Appends, RoundTrips, RoundTrips-wire, Reads-return, Reads-bind, Reads-span, Appends-uint8,
  Appends-byte, Appends-then,
}
use libknx.Headers.KnxAddress.{GroupAddress}

unfoldable pub parse : Parser GroupAddress
parse = do
  address ← read_byte_span 2
  first ← element address 0
  second ← element address 1
  pure (record { high = bit_and (first >>> 3) 0x1f; middle = bit_and first 0x07; low = second })

unfoldable pub to_bytes : GroupAddress → Writer
to_bytes a = do
  write_uint8 (u8 (bit_or (bit_and a.high 0x1f <<< 3) (bit_and a.middle 0x1f)))
  write_uint8 a.low

-- A main group of five bits, a middle group of three, and a subgroup of eight.
abbrev pub IsGroup : GroupAddress → Type 0
IsGroup a = (a.high < 32) × (a.middle < 8) × IsByte a.low

abbrev pub group_bytes : GroupAddress → List ℕ
group_bytes a = (a.high * 8 + a.middle) ∷ a.low ∷ []

first_byte :
    (high middle : ℕ)
    → high < 32
    → middle < 8
    → u8 (bit_or (bit_and high 0x1f <<< 3) (bit_and middle 0x1f)) ≡ high * 8 + middle
unfolding all_below
first_byte high middle h m = ground (
  arith,
  equal_below 256 (λ x. u8 (bit_or (bit_and (x / 8) 0x1f <<< 3) (bit_and (x % 8) 0x1f))) (λ x. x)
      (high * 8 + middle) refl,
)

pub to_bytes-Appends : (a : GroupAddress) → IsGroup a → Appends (to_bytes a) (group_bytes a)
unfolding to_bytes
to_bytes-Appends a v =
    Appends-then (Appends-byte (first_byte a.high a.middle v.0 v.1)) (Appends-uint8 a.low)

pub parse-Reads : (a : GroupAddress) → IsGroup a → Reads parse (group_bytes a) a
unfolding parse element
parse-Reads a v = Reads-bind _ (Reads-span ((a.high * 8 + a.middle) ∷ a.low ∷ [])) (
    Reads-return (
      ground (
        arith,
        bit_and-mask 5 ((a.high * 8 + a.middle) / 8),
        bit_and-mask 3 (a.high * 8 + a.middle),
      )))

-- An address within its fields' bits is read back as it was written.
pub parse-to_bytes : (a : GroupAddress) → IsGroup a → RoundTrips (to_bytes a) parse a
parse-to_bytes a v = RoundTrips-wire (group_bytes a) (to_bytes-Appends a v) (parse-Reads a v)
