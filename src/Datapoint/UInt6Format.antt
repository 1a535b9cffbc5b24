-- ===== src/Datapoint/UInt6Format.antt =====
-- `UInt6Format`
use libknx.Prelude.{ℕ, List, [], ◌∷◌, if◌then◌else◌, ◌==◌, length, bit_and, u8}
use libknx.Cemi.DataAcpi.{first_of}

unfoldable pub to_data : ℕ → List ℕ
to_data value = u8 (bit_and value 0x3f) ∷ []

unfoldable pub to_value : List ℕ → ℕ
to_value bytes = if length bytes == 1 then bit_and (first_of bytes) 0x3f else 0
