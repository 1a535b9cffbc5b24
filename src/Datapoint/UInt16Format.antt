-- ===== src/Datapoint/UInt16Format.antt =====
-- `UInt16Format`
use libknx.Prelude.{ℕ, List, [], ◌∷◌, if◌then◌else◌, ◌==◌, length}
use libknx.Bytes.Parser.{Endian, ByteBufferReader, Result, ok}
use libknx.Bytes.Reader.{read_uint16}

-- The parameter is a `std::uint8_t`.
unfoldable pub to_data : ℕ → List ℕ
to_data value = value ∷ []

unfoldable pub to_value : Endian → List ℕ → Result (ℕ × ByteBufferReader)
to_value native bytes =
    let reader : ByteBufferReader = record { bytes = bytes; index = 0 } in
    if length bytes == 2 then read_uint16 native reader else ok (0, reader)
