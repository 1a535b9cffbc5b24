-- ===== src/Datapoint/StringFormat.antt =====
-- `StringFormat`
use libknx.Prelude.{ℕ, List, [], length}
use libknx.Bytes.Parser.{ByteBufferReader, Result}
use libknx.Bytes.Reader.{read_terminated_string}
use libknx.Bytes.Writer.{write_terminated_string}

unfoldable pub to_data : List ℕ → ℕ → List ℕ
to_data value size = write_terminated_string value size []

unfoldable pub to_value : List ℕ → Result (List ℕ × ByteBufferReader)
to_value bytes = read_terminated_string (length bytes) (record { bytes = bytes; index = 0 })
