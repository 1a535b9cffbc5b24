-- ===== src/Datapoint/BooleanFormat.antt =====
-- `BooleanFormat`
use libknx.Prelude.{ℕ, List, [], ◌∷◌, Bool, not, ◌&&◌, if◌then◌else◌, ◌==◌, length}
use libknx.Cemi.DataAcpi.{first_of}

unfoldable pub to_data : Bool → List ℕ
to_data value = if value then 0x01 ∷ [] else 0x00 ∷ []

unfoldable pub to_value : List ℕ → Bool
to_value bytes = (length bytes == 1) && not (first_of bytes == 0x00)
