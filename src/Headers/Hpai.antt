-- ===== src/Headers/Hpai.antt =====
-- src/knx/headers/HPAI.cpp: host protocol address information, an endpoint on eight bytes.
use libknx.Prelude.{ℕ, ◌<◌, List, ◌∷◌, ◌++◌, Bool, ◌==◌, u16, arith}
use libknx.Bytes.Parser.{Endian, Parser, pure, ◌>>=◌}
use libknx.Bytes.Reader.{read_uint16}
use libknx.Bytes.Writer.{Writer, ◌>>◌, write_uint8, write_uint16}
use libknx.Bytes.Wire.{
  Reads, Appends, RoundTrips, RoundTrips-wire, Reads-return, Reads-bind, Appends-uint8,
  Appends-then,
}
use libknx.Bytes.Values.{bytes16, Appends-uint16, Reads-uint16}
use libknx.Headers.KnxStructure
use libknx.Headers.IpAddress
use libknx.Headers.IpAddress.{IpAddress, address_bytes}

abbrev pub udp : ℕ
udp = 0x01

abbrev pub tcp : ℕ
tcp = 0x02

abbrev pub size : ℕ
size = 8

-- `type` is the protocol code, which the base class keeps.
pub record Hpai : Type 0 where
  pub type : ℕ
  pub address : IpAddress
  pub port : ℕ

-- The constructor narrows an `int` port.
abbrev pub new : IpAddress → ℕ → ℕ → Hpai
new address port protocol_code = record { type = protocol_code; address = address; port = u16 port }

unfoldable pub is_udp : Hpai → Bool
is_udp h = h.type == udp

unfoldable pub is_tcp : Hpai → Bool
is_tcp h = h.type == tcp

module _ (native : Endian) where
  unfoldable pub write : Hpai → Writer
  write h = do
    write_uint8 size
    write_uint8 h.type
    IpAddress.write h.address
    write_uint16 native h.port

  unfoldable pub parse : Parser Hpai
  parse = do
    structure ← KnxStructure.parse native
    address ← IpAddress.parse
    port ← read_uint16 native
    pure (new address port structure.type)

  abbrev pub hpai_bytes : Hpai → List ℕ
  hpai_bytes h = size ∷ h.type ∷ (address_bytes h.address ++ bytes16 native h.port)

  pub write-Appends : (h : Hpai) → h.port < 65536 → Appends (write h) (hpai_bytes h)
  unfolding write
  write-Appends h p =
      Appends-then
        (Appends-then (Appends-then (Appends-uint8 size) (Appends-uint8 h.type))
          (IpAddress.write-Appends h.address))
        (Appends-uint16 native h.port p)

  pub parse-Reads : (h : Hpai) → h.port < 65536 → Reads parse (hpai_bytes h) h
  unfolding parse
  parse-Reads h p = Reads-bind _ (KnxStructure.parse-Reads native h.type size (omega arith)) (
      Reads-bind _ (IpAddress.parse-Reads h.address)
        (Reads-bind _ (Reads-uint16 native h.port p) (Reads-return (ground arith))))

  -- An endpoint with a port of sixteen bits is read back as it was written.
  pub parse-write_hpai : (h : Hpai) → h.port < 65536 → RoundTrips (write h) parse h
  parse-write_hpai h p = RoundTrips-wire (hpai_bytes h) (write-Appends h p) (parse-Reads h p)
