-- ===== src/Datapoint/UInt8Format.antt =====
-- `UInt8Format`
use libknx.Prelude.{ℕ, List, [], ◌∷◌, if◌then◌else◌, ◌==◌, length}
use libknx.Cemi.DataAcpi.{first_of}

unfoldable pub to_data : ℕ → List ℕ
to_data value = value ∷ []

unfoldable pub to_value : List ℕ → ℕ
to_value bytes = if length bytes == 1 then first_of bytes else 0x00
