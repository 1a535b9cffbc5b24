-- ===== src/Cemi/DataAcpi/Bits.antt =====
-- The bits of the two bytes that the application control field shares with other fields.
use libknx.Prelude.{
  ℕ, ◌+◌, ◌*◌, ◌/◌, ◌%◌, ◌<◌, ◌≡◌, refl, arith, ltb, bit_and, bit_or, ◌<<<◌, ◌>>>◌, u8, ◌==◌,
  all_below, equal_below,
}
use libknx.Prelude.Bits.{bit_and-mask, bit_or-disjoint}
use libknx.Cemi.DataAcpi.{type_of}

top_two : (x : ℕ) → x < 256 → bit_and x 0xc0 ≡ x / 64 * 64
unfolding all_below
top_two x h = equal_below 256 (λ y. bit_and y 0xc0) (λ y. y / 64 * 64) x refl h

pub top_two_clear : (x : ℕ) → x < 256 → (bit_and x 0xc0 == 0) ≡ ltb x 64
top_two_clear x h = ground (arith, top_two x h)

pub type_of_lem :
    (first second : ℕ) → second < 256 → type_of first second ≡ first % 4 * 4 + second / 64
unfolding type_of
type_of_lem first second h =
    ground
      (arith, bit_and-mask 2 first, top_two second h, bit_or-disjoint 2 (first % 4) (second / 64))

-- Of the type, the first byte takes bit 2 alone.
pub first_bits :
    (high type : ℕ)
    → high < 16
    → type < 256
    → u8 (bit_or (high * 16) (bit_and type 0x06 >>> 2)) ≡ high * 16 + type / 4 % 2
unfolding all_below
first_bits high type h t = ground (
  arith,
  equal_below 256 (λ y. bit_and y 0x06 / 4) (λ y. y / 4 % 2) type refl t,
  bit_or-disjoint 4 high (type / 4 % 2),
)

pub second_bits : (type : ℕ) → u8 (bit_and type 0x03 <<< 6) ≡ type % 4 * 64
second_bits type = omega (arith, bit_and-mask 2 type)

pub second_bits_with :
    (type value : ℕ)
    → value < 64
    → u8 (bit_or (type % 4 * 64) (bit_and value 0b0011111111)) ≡ type % 4 * 64 + value
second_bits_with type value h =
    ground (arith, bit_and-mask 8 value, bit_or-disjoint 6 (type % 4) value)
