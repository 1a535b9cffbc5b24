-- ===== src/Headers/ConnectionRequest.antt =====
-- src/knx/headers/ConnectionRequestData.cpp and ConnectionRequestInformation.cpp: what a connection
-- is asked for, and the address that the server gives it.
use libknx.Prelude.{ℕ, List, [], ◌∷◌, arith}
use libknx.Bytes.Parser.{Endian, Parser, pure, ◌>>=◌}
use libknx.Bytes.Reader.{read_uint8, skip}
use libknx.Bytes.Writer.{Writer, ◌>>◌, write_uint8}
use libknx.Bytes.Wire.{
  Reads, Appends, Reads-pure, Reads-bind, Reads-uint8, Reads-skip, Appends-uint8, Appends-then,
}
use libknx.Headers.KnxStructure
use libknx.Headers.KnxStructure.{write_knx_structure}
use libknx.Headers.KnxAddress.{IndividualAddress}
use libknx.Headers.KnxAddress.Individual
use libknx.Headers.KnxAddress.Individual.{IsIndividual, individual_bytes}

pub record ConnectionRequestData : Type 0 where
  pub type : ℕ
  pub address : IndividualAddress

pub record ConnectionRequestInformation : Type 0 where
  pub type : ℕ
  pub layer : ℕ

abbrev pub new_tunneling_data : ConnectionRequestData
new_tunneling_data = record { type = 4; address = record { high = 0; middle = 0; low = 0 } }

-- `TUNNELING_CONNECTION_TYPE` on `TUNNELING_LINK_LAYER`
abbrev pub new_tunneling : ConnectionRequestInformation
new_tunneling = record { type = 0x04; layer = 0x02 }

module _ (native : Endian) where
  unfoldable pub parse_data : Parser ConnectionRequestData
  parse_data = do
    structure ← KnxStructure.parse native
    address ← Individual.parse
    pure (record { type = structure.type; address = address })

  unfoldable pub write_data : ConnectionRequestData → Writer
  write_data d = do write_knx_structure native d.type 4; Individual.write d.address

  -- The last byte is reserved.
  unfoldable pub parse_information : Parser ConnectionRequestInformation
  parse_information = do
    structure ← KnxStructure.parse native
    layer ← read_uint8
    _ ← skip 1
    pure (record { type = structure.type; layer = layer })

  unfoldable pub write_information : ConnectionRequestInformation → Writer
  write_information i = do
    write_knx_structure native i.type 4
    write_uint8 i.layer
    write_uint8 0x00

  abbrev pub data_bytes : ConnectionRequestData → List ℕ
  data_bytes d = 4 ∷ d.type ∷ individual_bytes d.address

  abbrev pub information_bytes : ConnectionRequestInformation → List ℕ
  information_bytes i = 4 ∷ i.type ∷ i.layer ∷ 0 ∷ []

  pub write_data-Appends :
      (d : ConnectionRequestData) → IsIndividual d.address → Appends (write_data d) (data_bytes d)
  unfolding write_data
  write_data-Appends d v =
      Appends-then (KnxStructure.write_knx_structure-Appends native d.type 4 (omega arith))
        (Individual.write-Appends d.address v)

  pub parse_data-Reads :
      (d : ConnectionRequestData) → IsIndividual d.address → Reads parse_data (data_bytes d) d
  unfolding parse_data
  parse_data-Reads d v =
      Reads-bind _ (KnxStructure.parse-Reads native d.type 4 (omega arith))
        (Reads-bind _ (Individual.parse-Reads d.address v) (Reads-pure _))

  pub write_information-Appends :
      (i : ConnectionRequestInformation) → Appends (write_information i) (information_bytes i)
  unfolding write_information
  write_information-Appends i =
      Appends-then
        (Appends-then (KnxStructure.write_knx_structure-Appends native i.type 4 (omega arith))
          (Appends-uint8 i.layer))
        (Appends-uint8 0x00)

  pub parse_information-Reads :
      (i : ConnectionRequestInformation) → Reads parse_information (information_bytes i) i
  unfolding parse_information
  parse_information-Reads i =
      Reads-bind _ (KnxStructure.parse-Reads native i.type 4 (omega arith))
        (Reads-bind _ (Reads-uint8 i.layer) (Reads-bind _ (Reads-skip (0 ∷ [])) (Reads-pure _)))
