-- ===== src/Headers/ManufacturerDib.antt =====
-- src/knx/headers/ManufacturerDib.cpp: a description block whose contents are passed over.
use libknx.Prelude.{ℕ}
use libknx.Bytes.Parser.{Endian, Parser, pure, ◌>>=◌}
use libknx.Bytes.Reader.{skip}
use libknx.Bytes.Writer.{Writer}
use libknx.Headers.KnxStructure

-- It keeps its constant type only.
pub record ManufacturerDib : Type 0 where
  pub type : ℕ

abbrev pub new : ManufacturerDib
new = record { type = 0xfe }

module _ (native : Endian) where
  unfoldable pub parse : Parser ManufacturerDib
  parse = do structure ← KnxStructure.parse native; _ ← skip structure.length; pure new

-- The body of `write` is empty.
unfoldable pub write : ManufacturerDib → Writer
write d out = out
