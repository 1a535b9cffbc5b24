-- ===== src/Datapoint/Laws.antt =====
-- What a value becomes on its way through a group write.
use libknx.Prelude.{
  ℕ, ◌-◌, ◌^◌, ◌%◌, ◌≤◌, ◌<◌, ◌≡◌, ◌≢◌, ap, ◌∙◌, List, [], All, arith, length, length-append,
  length-replicate, replicate, append-nil, bit_and, u8,
}
use libknx.Prelude.Bits.{bit_and-mask}
use libknx.Bytes.Parser.{ok}
use libknx.Bytes.Text.{padded, read_terminated_string-Reads, write_terminated_string-Appends}
use libknx.Datapoint.StringFormat
use libknx.Datapoint.UInt6Format

length-padded : (text : List ℕ) (size : ℕ) → length text ≤ size → length (padded size text) ≡ size
length-padded text size h = omega (
  arith,
  h,
  length-append text (replicate (size - length text) 0),
  length-replicate {A = ℕ} (size - length text) 0,
)

-- A text without zeros that fits the size is read back from its data, all of which is read.
pub string-round_trip :
    (text : List ℕ) (size : ℕ)
    → All (λ c. c ≢ 0) text
    → length text ≤ size
    → size < 2 ^ 32
    → StringFormat.to_value (StringFormat.to_data text size)
      ≡ ok (text, record { bytes = StringFormat.to_data text size; index = size })
unfolding StringFormat.to_value StringFormat.to_data
string-round_trip text size h fits small =
    rw ((write_terminated_string-Appends text size fits small).run [], length-padded text size fits)
      ((read_terminated_string-Reads text size h fits).run
          (record { bytes = padded size text; index = 0 }) [] (omega arith) (simp append-nil)
        ∙ ap (λ n. ok (text, record { bytes = padded size text; index = n }))
            (omega (arith, length-padded text size fits)))

-- A number comes back as its lowest six bits.
pub uint6-round_trip : (n : ℕ) → UInt6Format.to_value (UInt6Format.to_data n) ≡ n % 64
unfolding UInt6Format.to_value UInt6Format.to_data
uint6-round_trip n = bit_and-mask 6 (u8 (bit_and n 0x3f)) ∙ omega (arith, bit_and-mask 6 n)
