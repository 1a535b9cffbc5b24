-- ===== src/Cemi/Control.antt =====
-- src/knx/cemi/Control.cpp: the two control bytes of a frame.
pub mod Laws
use libknx.Prelude.{
  ℕ, ◌-◌, Bool, true, false, not, ◌==◌, if◌then◌else◌, bit_and, bit_or, ◌<<<◌, ◌>>>◌, u8,
}
use libknx.Bytes.Parser.{Parser, pure, ◌>>=◌}
use libknx.Bytes.Reader.{read_uint8}
use libknx.Bytes.Writer.{Writer, ◌>>◌, write_uint8}

pub data KnxPrio : Type 0 where
  system normal urgent low : KnxPrio

pub record Control : Type 0 where
  pub standard_frame_type : Bool
  pub repeat_on_error : Bool
  pub system_broadcast : Bool
  pub acknowledge_wanted : Bool
  pub confirmation_on_error : Bool
  pub destination_address_is_group : Bool
  pub priority : KnxPrio
  pub hop_count : ℕ

abbrev pub default_hop_count : ℕ
default_hop_count = 5

-- The constructor, with the defaults of the other members.
abbrev pub new : KnxPrio → Bool → ℕ → Control
new prio destination_address_is_group hop_count = record {
  standard_frame_type = true;
  repeat_on_error = true;
  system_broadcast = false;
  acknowledge_wanted = true;
  confirmation_on_error = true;
  destination_address_is_group = destination_address_is_group;
  priority = prio;
  hop_count = hop_count;
}

unfoldable pub to_number : KnxPrio → ℕ
to_number system = 0
to_number normal = 1
to_number urgent = 2
to_number low = 3

-- `static_cast<KnxPrio>` of a number of two bits.
unfoldable pub to_prio : ℕ → KnxPrio
to_prio n = if n == 0 then system else if n == 1 then normal else if n == 2 then urgent else low

unfoldable pub is_bit_set : ℕ → ℕ → Bool
is_bit_set byte pos = not (bit_and byte (0x01 <<< (pos - 1)) == 0x00)

unfoldable pub is_bit_not_set : ℕ → ℕ → Bool
is_bit_not_set byte pos = bit_and byte (0x01 <<< (pos - 1)) == 0x00

unfoldable pub set_bit : ℕ → ℕ → Bool → ℕ
set_bit byte pos value = if value then u8 (bit_or byte (0x01 <<< (pos - 1))) else byte

unfoldable pub parse : Parser Control
unfolding to_prio is_bit_set is_bit_not_set
parse = do
  byte1 ← read_uint8
  byte2 ← read_uint8
  pure (record {
    standard_frame_type = is_bit_set byte1 8;
    repeat_on_error = is_bit_set byte1 6;
    system_broadcast = is_bit_set byte1 5;
    acknowledge_wanted = is_bit_not_set byte1 2;
    confirmation_on_error = is_bit_not_set byte1 1;
    destination_address_is_group = is_bit_set byte2 8;
    priority = to_prio (bit_and (byte1 >>> 2) 0x03);
    hop_count = bit_and (byte2 >>> 4) 0x07;
  })

-- The two bytes that `write` builds.
unfoldable pub first_byte : Control → ℕ
unfolding to_number set_bit
first_byte c =
    let byte1 = u8 (bit_or 0x00 (to_number c.priority <<< 2)) in
    let byte1' = set_bit byte1 1 (not c.confirmation_on_error) in
    let byte1'' = set_bit byte1' 2 (not c.acknowledge_wanted) in
    let byte1''' = set_bit byte1'' 5 c.system_broadcast in
    set_bit (set_bit byte1''' 6 c.repeat_on_error) 8 c.standard_frame_type

unfoldable pub second_byte : Control → ℕ
unfolding set_bit
second_byte c = u8 (bit_or (set_bit 0x00 8 c.destination_address_is_group) (c.hop_count <<< 4))

unfoldable pub write : Control → Writer
unfolding first_byte second_byte
write c = do write_uint8 (first_byte c); write_uint8 (second_byte c)
