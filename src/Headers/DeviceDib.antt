-- ===== src/Headers/DeviceDib.antt =====
-- src/knx/headers/DeviceDib.cpp: what a device says of itself.
pub mod Laws
use libknx.Prelude.{ℕ, List}
use libknx.Bytes.Parser.{Endian, Parser, pure, ◌>>=◌}
use libknx.Bytes.Reader.{read_uint8, read_uint16, copy_to_span, read_terminated_string}
use libknx.Bytes.Writer.{Writer, ◌>>◌, write_uint8, write_uint16, write_byte_span}
use libknx.Headers.KnxStructure
use libknx.Headers.KnxStructure.{write_knx_structure}
use libknx.Headers.KnxAddress.{IndividualAddress}
use libknx.Headers.KnxAddress.Individual
use libknx.Headers.IpAddress
use libknx.Headers.IpAddress.{IpAddress}

abbrev pub device_type : ℕ
device_type = 0x01

abbrev pub max_length_device_name : ℕ
max_length_device_name = 30

abbrev pub length_serial_number : ℕ
length_serial_number = 6

abbrev pub length_mac_address : ℕ
length_mac_address = 6

pub record DeviceDib : Type 0 where
  pub individual_address : IndividualAddress
  pub device_name : List ℕ
  pub serial_number : List ℕ
  pub knx_medium : ℕ
  pub device_status : ℕ
  pub project_installation_identifier : ℕ
  pub multicast_address : IpAddress
  pub mac_address : List ℕ

module _ (native : Endian) where
  unfoldable pub parse : Parser DeviceDib
  parse = do
    _ ← KnxStructure.parse native
    knx_medium ← read_uint8
    device_status ← read_uint8
    individual_address ← Individual.parse
    project_installation_identifier ← read_uint16 native
    serial_number ← copy_to_span length_serial_number
    multicast_address ← IpAddress.parse
    mac_address ← copy_to_span length_mac_address
    device_name ← read_terminated_string max_length_device_name
    pure (record {
      individual_address = individual_address;
      device_name = device_name;
      serial_number = serial_number;
      knx_medium = knx_medium;
      device_status = device_status;
      project_installation_identifier = project_installation_identifier;
      multicast_address = multicast_address;
      mac_address = mac_address;
    })

  unfoldable pub write : DeviceDib → Writer
  write d = do
    write_knx_structure native device_type 2
    write_uint8 d.knx_medium
    write_uint8 d.device_status
    Individual.write d.individual_address
    write_uint16 native d.project_installation_identifier
    write_byte_span d.serial_number
    IpAddress.write d.multicast_address
    write_byte_span d.mac_address
