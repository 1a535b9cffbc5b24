-- ===== src/Headers/ConnectionHeader.antt =====
-- src/knx/headers/ConnectionHeader.cpp: channel, sequence and status of a tunnelling message. The
-- channel stands where other structures have their type.
use libknx.Prelude.{ℕ, List, [], ◌∷◌, arith}
use libknx.Bytes.Parser.{Endian, Parser, pure, ◌>>=◌}
use libknx.Bytes.Reader.{read_uint8}
use libknx.Bytes.Writer.{Writer, ◌>>◌, write_uint8}
use libknx.Bytes.Wire.{
  Reads, Appends, Reads-pure, Reads-bind, Reads-uint8, Appends-uint8, Appends-then,
}
use libknx.Headers.KnxStructure
use libknx.Headers.KnxStructure.{write_knx_structure}

pub record ConnectionHeader : Type 0 where
  pub channel : ℕ
  pub sequence : ℕ
  pub status : ℕ

module _ (native : Endian) where
  unfoldable pub parse : Parser ConnectionHeader
  parse = do
    structure ← KnxStructure.parse native
    sequence ← read_uint8
    status ← read_uint8
    pure (record { channel = structure.type; sequence = sequence; status = status })

  unfoldable pub write : ConnectionHeader → Writer
  write h = do write_knx_structure native h.channel 4; write_uint8 h.sequence; write_uint8 h.status

  abbrev pub header_bytes : ConnectionHeader → List ℕ
  header_bytes h = 4 ∷ h.channel ∷ h.sequence ∷ h.status ∷ []

  pub write-Appends : (h : ConnectionHeader) → Appends (write h) (header_bytes h)
  unfolding write
  write-Appends h =
      Appends-then
        (Appends-then (KnxStructure.write_knx_structure-Appends native h.channel 4 (omega arith))
          (Appends-uint8 h.sequence))
        (Appends-uint8 h.status)

  pub parse-Reads : (h : ConnectionHeader) → Reads parse (header_bytes h) h
  unfolding parse
  parse-Reads h =
      Reads-bind _ (KnxStructure.parse-Reads native h.channel 4 (omega arith))
        (Reads-bind _ (Reads-uint8 h.sequence) (Reads-bind _ (Reads-uint8 h.status) (Reads-pure _)))
