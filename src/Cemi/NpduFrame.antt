-- ===== src/Cemi/NpduFrame.antt =====
-- src/knx/cemi/NPDUFrame.cpp: the transport and the application part of a frame.
pub mod Laws
use libknx.Prelude.{ℕ, bit_and}
use libknx.Bytes.Parser.{Parser, pure, ◌>>=◌}
use libknx.Bytes.Reader.{read_uint8}
use libknx.Bytes.Writer.{Writer}
use libknx.Cemi.Tpci
use libknx.Cemi.Tpci.{Tpci}
use libknx.Cemi.DataAcpi
use libknx.Cemi.DataAcpi.{DataAcpi}

pub record NpduFrame : Type 0 where
  pub tpci : Tpci
  pub data_acpi : DataAcpi

unfoldable pub parse : Parser NpduFrame
parse = do
  length ← read_uint8
  first_byte ← read_uint8
  data_acpi ← DataAcpi.parse (bit_and first_byte 0x0f) length
  pure (record { tpci = Tpci.parse (bit_and first_byte 0xf0); data_acpi = data_acpi })

unfoldable pub write : NpduFrame → Writer
write n = DataAcpi.write (Tpci.to_byte n.tpci) n.data_acpi
