-- ===== src/Cemi/Control/Laws.antt =====
-- The control bytes and the fields that they stand for.
use libknx.Prelude.{
  ℕ, ◌+◌, ◌-◌, ◌*◌, ◌/◌, ◌%◌, ◌<◌, ◌≡◌, refl, List, [], ◌∷◌, ◌++◌, ltb, from_bool, Bool, true,
  false, ◌&&◌, ◌==◌, arith, IsByte, bit_and, ◌>>>◌, all_bool, all_bool_sound, equal_bool,
  equal_bool_sound, all_below, all_below_sound, equal_below,
}
use libknx.Prelude.Bits.{bit_and-mask}
use libknx.Bytes.Parser.{ok}
use libknx.Bytes.Wire.{
  Reads-pure, Decodes-wire, reader_after, Reads, Appends, RoundTrips, RoundTrips-wire, Reads-return,
  Reads-bind, Reads-uint8, Appends-uint8, Appends-then,
}
use libknx.Cemi.Control.{
  KnxPrio, Control, to_number, to_prio, is_bit_set, is_bit_not_set, first_byte, second_byte, parse,
  write,
}

-- What `parse` makes of the two bytes.
fields_of : ℕ → ℕ → Control
fields_of byte1 byte2 = record {
  standard_frame_type = is_bit_set byte1 8;
  repeat_on_error = is_bit_set byte1 6;
  system_broadcast = is_bit_set byte1 5;
  acknowledge_wanted = is_bit_not_set byte1 2;
  confirmation_on_error = is_bit_not_set byte1 1;
  destination_address_is_group = is_bit_set byte2 8;
  priority = to_prio (bit_and (byte1 >>> 2) 0x03);
  hop_count = bit_and (byte2 >>> 4) 0x07;
}

-- A control with these fields in its first byte, and the rest of another.
abbrev with_flags : Control → Bool → Bool → Bool → Bool → Bool → KnxPrio → Control
with_flags c s r b a e p = record c {
  standard_frame_type = s;
  repeat_on_error = r;
  system_broadcast = b;
  acknowledge_wanted = a;
  confirmation_on_error = e;
  priority = p;
}

-- The fields of the first byte are the same.
abbrev Agree : Control → Control → Type 0
Agree c d =
    (c.standard_frame_type ≡ d.standard_frame_type)
    × (c.repeat_on_error ≡ d.repeat_on_error)
    × (c.system_broadcast ≡ d.system_broadcast)
    × (c.acknowledge_wanted ≡ d.acknowledge_wanted)
    × (c.confirmation_on_error ≡ d.confirmation_on_error)
    × (c.priority ≡ d.priority)

agree : Control → Control → Bool
agree c d =
    equal_bool c.standard_frame_type d.standard_frame_type
    && (equal_bool c.repeat_on_error d.repeat_on_error
        && (equal_bool c.system_broadcast d.system_broadcast
            && (equal_bool c.acknowledge_wanted d.acknowledge_wanted
                && (equal_bool c.confirmation_on_error d.confirmation_on_error
                    && (to_number c.priority == to_number d.priority)))))

to_number_injective : (p q : KnxPrio) → to_number p ≡ to_number q → p ≡ q
unfolding to_number
to_number_injective p q h = ground arith

agree_sound : (c d : Control) → agree c d ≡ true → Agree c d
unfolding agree
agree_sound c d h = ground (
  arith,
  equal_bool_sound c.standard_frame_type d.standard_frame_type,
  equal_bool_sound c.repeat_on_error d.repeat_on_error,
  equal_bool_sound c.system_broadcast d.system_broadcast,
  equal_bool_sound c.acknowledge_wanted d.acknowledge_wanted,
  equal_bool_sound c.confirmation_on_error d.confirmation_on_error,
  to_number_injective c.priority d.priority,
)

-- Every combination of the flags, for one priority.
flags_table : Control → KnxPrio → Bool
flags_table c p = all_bool λ s. all_bool λ r. all_bool λ b.
    all_bool
      λ a. all_bool λ e. let d = with_flags c s r b a e p in agree (fields_of (first_byte d) 0) d

flags_table_holds : (c : Control) (p : KnxPrio) → flags_table c p ≡ true
unfolding flags_table all_bool agree equal_bool fields_of first_byte is_bit_set is_bit_not_set
    to_prio to_number
flags_table_holds c KnxPrio.system = refl
flags_table_holds c KnxPrio.normal = refl
flags_table_holds c KnxPrio.urgent = refl
flags_table_holds c KnxPrio.low = refl

flags-first_byte : (c : Control) → Agree (fields_of (first_byte c) 0) c
unfolding flags_table
flags-first_byte c =
    let at_s = all_bool_sound _ (flags_table_holds c c.priority) c.standard_frame_type in
    let at_r = all_bool_sound _ at_s c.repeat_on_error in
    let at_b = all_bool_sound _ at_r c.system_broadcast in
    let at_a = all_bool_sound _ at_b c.acknowledge_wanted in
    agree_sound _ _ (all_bool_sound _ at_a c.confirmation_on_error)

-- The second byte, over the hop counts of three bits.
second_byte_sum :
    (c : Control) (g : Bool) (hops : ℕ)
    → hops < 8
    → second_byte (record c { destination_address_is_group = g; hop_count = hops })
      ≡ from_bool g * 128 + hops * 16
unfolding second_byte all_below
second_byte_sum c true hops h =
    equal_below 8
      (λ x. second_byte (record c { destination_address_is_group = true; hop_count = x }))
      (λ x. 1 * 128 + x * 16) hops refl h
second_byte_sum c false hops h =
    equal_below 8
      (λ x. second_byte (record c { destination_address_is_group = false; hop_count = x }))
      (λ x. 0 * 128 + x * 16) hops refl h

top_bit : (x : ℕ) → x < 256 → is_bit_set x 8 ≡ ltb 127 x
unfolding is_bit_set all_below
top_bit x h = equal_bool_sound _ _ (
    all_below_sound 256 (λ y. equal_bool (is_bit_set y 8) (ltb 127 y)) x (unfold equal_bool in refl)
      h)

group-second_byte :
    (c : Control) → c.hop_count < 8 → is_bit_set (second_byte c) 8 ≡ c.destination_address_is_group
group-second_byte c h =
    ground (
      arith,
      second_byte_sum c c.destination_address_is_group c.hop_count h,
      top_bit (second_byte c),
    )

hops-second_byte :
    (c : Control) → c.hop_count < 8 → bit_and (second_byte c >>> 4) 0x07 ≡ c.hop_count
hops-second_byte c h = ground (
  arith,
  second_byte_sum c c.destination_address_is_group c.hop_count h,
  bit_and-mask 3 (second_byte c / 16),
)

-- Only the hop count has a bound: of its bits, the lowest three have a place.
pub parse-Reads :
    (c : Control) → c.hop_count < 8 → Reads parse (first_byte c ∷ second_byte c ∷ []) c
unfolding parse
parse-Reads c h =
    let flags = flags-first_byte c in
    Reads-bind _ (Reads-uint8 (first_byte c)) (
      Reads-bind _ (Reads-uint8 (second_byte c)) (
        Reads-return (
          unfold fields_of in
          ground (arith, flags-first_byte c, group-second_byte c h, hops-second_byte c h))))

pub write-Appends : (c : Control) → Appends (write c) (first_byte c ∷ second_byte c ∷ [])
unfolding write
write-Appends c = Appends-then (Appends-uint8 (first_byte c)) (Appends-uint8 (second_byte c))

-- Every control whose hop count has three bits is read back as it was written.
pub parse-write_control : (c : Control) → c.hop_count < 8 → RoundTrips (write c) parse c
parse-write_control c h =
    RoundTrips-wire (first_byte c ∷ second_byte c ∷ []) (write-Appends c) (parse-Reads c h)

first_byte-fields_of : (b1 b2 : ℕ) → b1 < 256 → first_byte (fields_of b1 b2) ≡ b1 - b1 / 64 % 2 * 64
unfolding first_byte fields_of is_bit_set is_bit_not_set to_prio all_below
first_byte-fields_of b1 b2 h =
    equal_below 256 (λ b. first_byte (fields_of b b2)) (λ b. b - b / 64 % 2 * 64) b1 refl h

second_byte-fields_of : (b1 b2 : ℕ) → b2 < 256 → second_byte (fields_of b1 b2) ≡ b2 / 16 * 16
unfolding second_byte fields_of is_bit_set all_below
second_byte-fields_of b1 b2 h =
    equal_below 256 (λ b. second_byte (fields_of b1 b)) (λ b. b / 16 * 16) b2 refl h

fields_of-Reads : (b1 b2 : ℕ) → Reads parse (b1 ∷ b2 ∷ []) (fields_of b1 b2)
unfolding parse fields_of
fields_of-Reads b1 b2 = Reads-bind _ (Reads-uint8 b1) (Reads-bind _ (Reads-uint8 b2) (Reads-pure _))

-- Two control bytes that are parsed and written again come back with the reserved bit of the first
-- and the extended frame format, the low nibble of the second, cleared, and nothing else changed.
pub write-parse_control :
    (b1 b2 : ℕ)
    → IsByte b1
    → IsByte b2
    → (out rest : List ℕ)
    → (c : Control) × (parse (reader_after out (out ++ b1 ∷ b2 ∷ rest))
        ≡ ok (c, reader_after (out ++ b1 ∷ b2 ∷ []) (out ++ b1 ∷ b2 ∷ rest)))
      × (write c out ≡ out ++ (b1 - b1 / 64 % 2 * 64) ∷ (b2 / 16 * 16) ∷ [])
write-parse_control b1 b2 h1 h2 out rest = (
  fields_of b1 b2,
  Decodes-wire (fields_of-Reads b1 b2) out rest,
  rw (← first_byte-fields_of b1 b2 h1, ← second_byte-fields_of b1 b2 h2)
      ((write-Appends (fields_of b1 b2)).run out),
)
