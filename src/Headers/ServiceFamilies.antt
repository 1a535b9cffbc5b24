-- ===== src/Headers/ServiceFamilies.antt =====
-- src/knx/headers/SupportedServiceFamiliesDib.cpp: the services that a device supports.
pub mod Laws
use libknx.Prelude.{
  ℕ, zero, suc, ◌+◌, ◌-◌, ◌*◌, ◌/◌, List, [], ◌∷◌, ◌==◌, if◌then◌else◌, length, u16,
}
use libknx.Bytes.Parser.{Endian, Parser, pure, ◌>>=◌}
use libknx.Bytes.Reader.{read_uint8}
use libknx.Bytes.Writer.{Writer, ◌>>◌, write_uint8}
use libknx.Headers.KnxStructure
use libknx.Headers.KnxStructure.{write_knx_structure}

pub data ServiceFamilyType : Type 0 where
  knx_ip_core knx_net_device_mgmt knx_ip_tunneling knx_ip_routing : ServiceFamilyType
  knx_ip_remote_diag_and_config unknown : ServiceFamilyType

pub record ServiceFamily : Type 0 where
  pub type : ServiceFamilyType
  pub version : ℕ

pub record SupportedServiceFamiliesDib : Type 0 where
  pub service_families : List ServiceFamily

abbrev pub families_type : ℕ
families_type = 0x02

-- `static_cast<std::uint8_t>`
unfoldable pub to_number : ServiceFamilyType → ℕ
to_number knx_ip_core = 0x02
to_number knx_net_device_mgmt = 0x03
to_number knx_ip_tunneling = 0x04
to_number knx_ip_routing = 0x05
to_number knx_ip_remote_diag_and_config = 0x07
to_number unknown = 0xfe

unfoldable pub to_enum : ℕ → ServiceFamilyType
to_enum value =
    if value == 0x02
    then knx_ip_core
    else if value == 0x05
    then knx_ip_routing
    else if value == 0x04
    then knx_ip_tunneling
    else if value == 0x03
    then knx_net_device_mgmt
    else if value == 0x07
    then knx_ip_remote_diag_and_config
    else unknown

-- The loop of `parse`, with the number of families that are still to be read.
unfoldable pub parse_families : ℕ → Parser (List ServiceFamily)
parse_families zero = pure []
parse_families (suc n) = do
  value ← read_uint8
  version ← read_uint8
  rest ← parse_families n
  pure (record { type = to_enum value; version = version } ∷ rest)

unfoldable pub write_families : List ServiceFamily → Writer
write_families [] out = out
write_families (f ∷ fs) out =
    write_families fs (write_uint8 f.version (write_uint8 (to_number f.type) out))

module _ (native : Endian) where
  -- The quotient of `int`s is 0 also where the length is 0.
  unfoldable pub parse : Parser SupportedServiceFamiliesDib
  parse = do
    structure ← KnxStructure.parse native
    families ← parse_families ((structure.length - 1) / 2)
    pure (record { service_families = families })

  unfoldable pub write : SupportedServiceFamiliesDib → Writer
  write d = do
    write_knx_structure native families_type (u16 (length d.service_families * 2 + 2))
    write_families d.service_families
