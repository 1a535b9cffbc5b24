-- ===== src/Message/IpHeader.antt =====
-- src/knx/ipreqresp/KnxIpHeader.cpp: the six bytes in front of every message.
use libknx.Prelude.{ℕ, ◌<◌, List, [], ◌∷◌, ◌++◌}
use libknx.Bytes.Parser.{Endian, Parser, pure, ◌>>=◌}
use libknx.Bytes.Reader.{read_uint16, skip}
use libknx.Bytes.Writer.{Writer, ◌>>◌, write_uint8, write_uint16}
use libknx.Bytes.Wire.{
  Reads, Appends, Reads-pure, Reads-bind, Reads-skip, Appends-uint8, Appends-then,
}
use libknx.Bytes.Values.{bytes16, Appends-uint16, Reads-uint16}

abbrev pub size_header : ℕ
size_header = 0x06

abbrev pub protocol_version : ℕ
protocol_version = 0x10

pub record KnxIpHeader : Type 0 where
  pub service_type : ℕ
  pub length_in_bytes : ℕ

module _ (native : Endian) where
  unfoldable pub write : ℕ → ℕ → Writer
  write service_type length_in_bytes = do
    write_uint8 size_header
    write_uint8 protocol_version
    write_uint16 native service_type
    write_uint16 native length_in_bytes

  -- The first two bytes are passed over without a look at them.
  unfoldable pub parse : Parser KnxIpHeader
  parse = do
    _ ← skip 2
    service_type ← read_uint16 native
    length_in_bytes ← read_uint16 native
    pure (record { service_type = service_type; length_in_bytes = length_in_bytes })

  abbrev pub header_bytes : ℕ → ℕ → List ℕ
  header_bytes service_type length_in_bytes =
      size_header
      ∷ protocol_version
      ∷ (bytes16 native service_type ++ bytes16 native length_in_bytes)

  pub write-Appends :
      (service_type length_in_bytes : ℕ)
      → service_type < 65536
      → length_in_bytes < 65536
      → Appends (write service_type length_in_bytes) (header_bytes service_type length_in_bytes)
  unfolding write
  write-Appends s n hs hn =
      Appends-then
        (Appends-then (Appends-then (Appends-uint8 size_header) (Appends-uint8 protocol_version))
          (Appends-uint16 native s hs))
        (Appends-uint16 native n hn)

  pub parse-Reads :
      (service_type length_in_bytes : ℕ)
      → service_type < 65536
      → length_in_bytes < 65536
      → Reads parse
          (header_bytes service_type length_in_bytes)
          (record { service_type = service_type; length_in_bytes = length_in_bytes })
  unfolding parse
  parse-Reads s n hs hn = Reads-bind _ (Reads-skip (size_header ∷ protocol_version ∷ [])) (
      Reads-bind _ (Reads-uint16 native s hs)
        (Reads-bind _ (Reads-uint16 native n hn) (Reads-pure _)))
