-- ===== src/Datapoint/KnxFloat16Format.antt =====
-- `KnxFloat16Format`. A finite `double` is a sign and a numerator over a power of two; halving one
-- is exact here. The product of the value with 100, and the test of the value against the ends of
-- the range, are the processor's: `toData` starts from their results. `toValue` gives hundredths,
-- which the processor multiplies by 0.01.
pub mod Laws
pub mod RoundTrip
use libknx.Prelude.{
  ℕ, zero, suc, ◌+◌, ◌-◌, ◌*◌, ◌/◌, ◌%◌, ◌^◌, List, [], ◌∷◌, Bool, true, false, Option, none, some,
  if◌then◌else◌, ◌==◌, ltb, length, bit_and, bit_or, ◌<<<◌, ◌>>>◌, u8, u16,
}
use libknx.Bytes.Parser.{Endian, Result, ok, err, ByteBufferReader}
use libknx.Bytes.Reader.{read_int16}
use libknx.Bytes.Writer.{write_int16}

pub record Double : Type 0 where
  pub negative : Bool
  pub numerator : ℕ
  pub scale : ℕ

abbrev pub halve : Double → Double
halve m = record m { scale = suc m.scale }

-- How far a mantissa may be from 0, on either side.
abbrev pub limit : Bool → ℕ
limit true = 2048
limit false = 2047

-- `(mantisse < -2048) || (mantisse > 2047)`
abbrev pub is_outside : Double → Bool
is_outside m = ltb (limit m.negative * 2 ^ m.scale) m.numerator

-- The loop, with fuel; the exponent is a `std::uint8_t`.
unfoldable pub normalise : ℕ → ℕ → Double → Option (ℕ × Double)
normalise zero exponent m = none
normalise (suc fuel) exponent m =
    let rest = normalise fuel (u8 (exponent + 1)) (halve m) in
    if is_outside m then rest else some (exponent, m)

-- `static_cast<std::int16_t>` of a mantissa: towards 0, as sixteen bits.
unfoldable pub to_int16 : Double → ℕ
to_int16 m =
    let whole = m.numerator / 2 ^ m.scale in if m.negative then (2 ^ 16 - whole) % 2 ^ 16 else whole

-- The two bytes of the mantissa with the exponent between its sign and its three highest bits.
unfoldable pub packed : ℕ → List ℕ → List ℕ
packed exponent (a ∷ b ∷ rest) = u8 (bit_or (exponent <<< 3) (bit_and a 0x87)) ∷ b ∷ []
packed exponent _ = []

-- Sixteen halvings are enough for what is in the range.
abbrev pub fuel : ℕ
fuel = 16

-- An unfinished loop is `none`.
unfoldable pub encoded : Endian → Option (ℕ × Double) → Option (List ℕ)
encoded native none = none
encoded native (some (exponent, m)) = some (packed exponent (write_int16 native (to_int16 m) []))

unfoldable pub to_data : Endian → Bool → Bool → Double → Option (List ℕ)
to_data native is_below is_above hundredfold =
    if is_below
    then some (0 ∷ 0 ∷ [])
    else if is_above
    then some (0 ∷ 0 ∷ [])
    else encoded native (normalise fuel 0 hundredfold)

pub record Hundredths : Type 0 where
  pub negative : Bool
  pub magnitude : ℕ

-- A `std::int16_t` times a power of two.
unfoldable pub times : ℕ → ℕ → Hundredths
times mantisse exponent =
    if ltb mantisse (2 ^ 15)
    then record { negative = false; magnitude = mantisse * 2 ^ exponent }
    else record { negative = true; magnitude = (2 ^ 16 - mantisse) * 2 ^ exponent }

abbrev pub scaled : ℕ → Result (ℕ × ByteBufferReader) → Result Hundredths
scaled exponent (ok (mantisse, reader)) = ok (times mantisse exponent)
scaled exponent (err f) = err f

-- The first byte without its exponent, the sign extended over it.
unfoldable pub extended : ℕ → ℕ
extended a =
    let kept = bit_and a 0x87 in if bit_and a 0x80 == 0x80 then u8 (bit_or kept 0x78) else kept

-- Only two bytes are read.
unfoldable pub to_value : Endian → List ℕ → Result Hundredths
to_value native (a ∷ b ∷ []) =
    scaled (bit_and (a >>> 3) 0x0f)
      (read_int16 native (record { bytes = extended a ∷ b ∷ []; index = 0 }))
to_value native _ = ok (record { negative = false; magnitude = 0 })
