-- ===== src/Cemi/CemiFrame.antt =====
-- src/knx/cemi/Cemi.cpp: the whole frame.
pub mod Laws
use libknx.Prelude.{ℕ, List, []}
use libknx.Bytes.Parser.{Parser, pure, ◌>>=◌}
use libknx.Bytes.Reader.{read_uint8}
use libknx.Bytes.Writer.{Writer, ◌>>◌, write_uint8}
use libknx.Prelude.{Bool, true, false, if◌then◌else◌}
use libknx.Headers.KnxAddress.{IndividualAddress, GroupAddress}
use libknx.Headers.KnxAddress.Individual
use libknx.Headers.KnxAddress.Group
use libknx.Cemi.AdditionalInformation
use libknx.Cemi.AdditionalInformation.{AdditionalInformation}
use libknx.Cemi.Control
use libknx.Cemi.Control.{Control}
use libknx.Cemi.NpduFrame
use libknx.Cemi.NpduFrame.{NpduFrame}

abbrev pub l_data_ind : ℕ
l_data_ind = 0x29

abbrev pub l_data_req : ℕ
l_data_req = 0x11

abbrev pub l_data_con : ℕ
l_data_con = 0x2e

-- `std::variant<IndividualAddress, GroupAddress>`
pub data Destination : Type 0 where
  individual : IndividualAddress → Destination
  group : GroupAddress → Destination

pub record Cemi : Type 0 where
  pub message_code : ℕ
  pub additional_information : AdditionalInformation
  pub control : Control
  pub source : IndividualAddress
  pub destination : Destination
  pub npdu : NpduFrame

-- The constructor without additional information.
abbrev pub new : ℕ → Control → IndividualAddress → Destination → NpduFrame → Cemi
new message_code control source destination npdu = record {
  message_code = message_code;
  additional_information = record { elements = [] };
  control = control;
  source = source;
  destination = destination;
  npdu = npdu;
}

unfoldable pub parse_group : Parser Destination
parse_group = do address ← Group.parse; pure (group address)

unfoldable pub parse_individual : Parser Destination
parse_individual = do address ← Individual.parse; pure (individual address)

unfoldable pub parse_address : Control → Parser Destination
unfolding parse_group parse_individual
parse_address c = if c.destination_address_is_group then parse_group else parse_individual

unfoldable pub write_address : Destination → Writer
write_address (individual a) = Individual.write a
write_address (group a) = Group.to_bytes a

unfoldable pub parse : Parser Cemi
parse = do
  message_code ← read_uint8
  additional_information ← AdditionalInformation.parse
  control ← Control.parse
  source ← Individual.parse
  destination ← parse_address control
  npdu ← NpduFrame.parse
  pure (record {
    message_code = message_code;
    additional_information = additional_information;
    control = control;
    source = source;
    destination = destination;
    npdu = npdu;
  })

unfoldable pub write : Cemi → Writer
write c = do
  write_uint8 c.message_code
  AdditionalInformation.write c.additional_information
  Control.write c.control
  Individual.write c.source
  write_address c.destination
  NpduFrame.write c.npdu
