-- ===== src/Cemi/Tpci.antt =====
-- src/knx/cemi/TCPI.cpp: the transport control bits of a frame.
use libknx.Prelude.{
  ℕ, ◌+◌, ◌*◌, ◌<◌, ◌≡◌, refl, Bool, true, false, not, arith, ◌==◌, if◌then◌else◌, bit_and, bit_or,
  ◌<<<◌, ◌>>>◌, u8, all_below, all_below_sound, equal_below, equal_bool, from_bool,
  equal_bool_sound, ltb, ◌/◌, ◌%◌,
}
use libknx.Prelude.Bits.{bit_and-mask}

pub record Tpci : Type 0 where
  pub is_control : Bool
  pub has_sequence : Bool
  pub sequence : ℕ

-- The shift binds tighter than `&`.
unfoldable pub parse : ℕ → Tpci
parse byte = record {
  is_control = not (bit_and byte (1 <<< 8) == 0);
  has_sequence = not (bit_and byte (1 <<< 7) == 0);
  sequence = bit_and (byte >>> 4) 0x03;
}

-- `|=` on a byte narrows the result to eight bits.
unfoldable pub to_byte : Tpci → ℕ
to_byte t =
    let control = if t.is_control then u8 (bit_or 0 (1 <<< 8)) else 0 in
    let sequenced = if t.has_sequence then u8 (bit_or control (1 <<< 7)) else control in
    u8 (bit_or sequenced (bit_and t.sequence 0x03 <<< 4))

to_byte_at :
    (c s : Bool) (n : ℕ)
    → n < 4
    → to_byte (record { is_control = c; has_sequence = s; sequence = n })
      ≡ from_bool s * 128 + n * 16
unfolding to_byte all_below
to_byte_at true true n h =
    equal_below 4 (λ k. to_byte (record { is_control = true; has_sequence = true; sequence = k }))
      (λ k. 1 * 128 + k * 16) n refl h
to_byte_at true false n h =
    equal_below 4 (λ k. to_byte (record { is_control = true; has_sequence = false; sequence = k }))
      (λ k. 0 * 128 + k * 16) n refl h
to_byte_at false true n h =
    equal_below 4 (λ k. to_byte (record { is_control = false; has_sequence = true; sequence = k }))
      (λ k. 1 * 128 + k * 16) n refl h
to_byte_at false false n h =
    equal_below 4 (λ k. to_byte (record { is_control = false; has_sequence = false; sequence = k }))
      (λ k. 0 * 128 + k * 16) n refl h

-- The byte's high nibble holds the sequence flag and two bits of the sequence; its low is empty.
pub to_byte_sum :
    (t : Tpci) → t.sequence < 4 → to_byte t ≡ from_bool t.has_sequence * 128 + t.sequence * 16
to_byte_sum t h = to_byte_at t.is_control t.has_sequence t.sequence h

-- No byte has bit 8.
no_control : (b : ℕ) → b < 256 → (parse b).is_control ≡ false
unfolding parse all_below
no_control b h = equal_bool_sound _ _ (
    all_below_sound 256 (λ x. equal_bool (parse x).is_control false) b (unfold equal_bool in refl)
      h)

sequence_flag : (b : ℕ) → b < 256 → (parse b).has_sequence ≡ ltb 127 b
unfolding parse all_below equal_bool
sequence_flag b h =
    equal_bool_sound _ _
      (all_below_sound 256 (λ x. equal_bool (parse x).has_sequence (ltb 127 x)) b refl h)

sequence_bits : (b : ℕ) → (parse b).sequence ≡ b / 16 % 4
unfolding parse
sequence_bits b = bit_and-mask 2 (b / 16)

-- A sequence of two bits and its flag survive the byte; the control flag never does, since bit 8 is
-- not a bit of a byte.
pub parse-to_byte :
    (t : Tpci) → t.sequence < 4 → parse (to_byte t) ≡ record t { is_control = false }
parse-to_byte t h = ground (
  arith,
  to_byte_sum t h,
  no_control (to_byte t),
  sequence_flag (to_byte t),
  sequence_bits (to_byte t),
)
