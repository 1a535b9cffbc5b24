-- ===== src/Cemi/Tests.antt =====
-- The theorems on the parts of a frame, at examples.
use libknx.Prelude.{◌-◌, ◌*◌, ◌/◌, ◌%◌, ◌≡◌, [], ◌∷◌, ◌++◌, true, arith}
use libknx.Bytes.Parser.{ok}
use libknx.Bytes.Wire.{reader_after}
use libknx.Cemi.AdditionalInformation
use libknx.Cemi.AdditionalInformation.{AdditionalInformation}
use libknx.Cemi.AdditionalInformation.Laws.{parse-write_information}
use libknx.Cemi.Control
use libknx.Cemi.Control.{Control}
use libknx.Cemi.Control.Laws.{write-parse_control}

abbrev medium : AdditionalInformation
medium = record { elements = record { type = 1; payload = 0 ∷ 0x6c ∷ [] } ∷ [] }

abbrev control : Control
control = Control.new Control.low true 5

parse-write_information_example :
    AdditionalInformation.parse (reader_after [] (AdditionalInformation.write medium [] ++ 9 ∷ []))
    ≡ ok (
      medium,
      reader_after
          (AdditionalInformation.write medium [])
          (AdditionalInformation.write medium [] ++ 9 ∷ []),
    )
parse-write_information_example = parse-write_information medium (omega arith) [] (9 ∷ [])

write-parse_control_example :
    (c : Control) × (Control.parse (reader_after [] ([] ++ 0xbc ∷ 0xd0 ∷ []))
      ≡ ok (c, reader_after ([] ++ 0xbc ∷ 0xd0 ∷ []) ([] ++ 0xbc ∷ 0xd0 ∷ [])))
    × (Control.write c [] ≡ [] ++ (0xbc - 0xbc / 64 % 2 * 64) ∷ (0xd0 / 16 * 16) ∷ [])
write-parse_control_example = write-parse_control 0xbc 0xd0 (omega arith) (omega arith) [] []
