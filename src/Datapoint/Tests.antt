-- ===== src/Datapoint/Tests.antt =====
-- Runs of the formats, and the theorems at examples.
use libknx.Prelude.{ℕ, ◌≤◌, ◌≡◌, refl, List, [], ◌∷◌, false, true, some, arith}
use libknx.Bytes.Parser.{little, ok}
use libknx.Datapoint.BooleanFormat
use libknx.Datapoint.KnxFloat16Format.{
  Double, to_data, to_value, encoded, normalise, packed, to_int16,
}
use libknx.Bytes.Writer.{write_int16, write_uint8}
use libknx.Datapoint.KnxFloat16Format.Laws.{Takes}
use libknx.Datapoint.KnxFloat16Format.RoundTrip.{to_value-to_data, cut}
use libknx.Datapoint.UInt8Format
use libknx.Datapoint.UInt16Format

boolean_run : BooleanFormat.to_value (BooleanFormat.to_data true) ≡ true
unfolding BooleanFormat.to_value BooleanFormat.to_data
boolean_run = refl

uint8_run : UInt8Format.to_value (UInt8Format.to_data 200) ≡ 200
unfolding UInt8Format.to_value UInt8Format.to_data
uint8_run = refl

-- The data has one byte, where `toValue` asks for two.
uint16_run :
    UInt16Format.to_value little (UInt16Format.to_data 200)
    ≡ ok (0, record { bytes = UInt16Format.to_data 200; index = 0 })
unfolding UInt16Format.to_value UInt16Format.to_data
uint16_run = refl

-- -30.01 in hundredths.
abbrev frost : Double
frost = record { negative = true; numerator = 3001; scale = 0 }

float16_run : to_data little false false frost ≡ some (0x8a ∷ 0x24 ∷ [])
unfolding to_data encoded normalise packed write_int16 write_uint8 to_int16
float16_run = refl

out_of_range_run : to_data little true false frost ≡ some (0 ∷ 0 ∷ [])
unfolding to_data
out_of_range_run = refl

-- One binary digit is cut off.
to_value-to_data_example :
    (k : ℕ) × (bytes : List ℕ) × (k ≤ 15)
    × Takes k frost
    × (to_data little false false frost ≡ some bytes)
    × (to_value little bytes ≡ ok (cut k frost))
to_value-to_data_example = to_value-to_data frost (omega arith)
