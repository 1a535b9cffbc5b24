-- ===== src/Headers/KnxStructure.antt =====
-- src/knx/headers/KnxStructure.cpp: the length and type that begin every structure.
use libknx.Prelude.{
  ℕ, ◌+◌, ◌-◌, ◌%◌, ◌<◌, ◌≡◌, List, [], ◌∷◌, ◌++◌, false, arith, leb, ◌==◌, if◌then◌else◌, u8, inl,
  inr, Bool-cases,
}
use libknx.Bytes.Parser.{Endian, Parser, pure, ◌>>=◌}
use libknx.Bytes.Reader.{read_uint8, read_uint16}
use libknx.Bytes.Writer.{Writer, ◌>>◌, write_uint8, write_uint16}
use libknx.Bytes.Wire.{
  Reads, Appends, Reads-pure, Reads-bind, Reads-uint8, Appends-uint8, Appends-byte, Appends-then,
}
use libknx.Bytes.Values.{bytes16, Appends-uint16, Reads-uint16}

abbrev pub max_size : ℕ
max_size = 255

pub record ParseResult : Type 0 where
  pub length : ℕ
  pub type : ℕ

module _ (native : Endian) where
  -- `length -= 2` on a `uint16_t`.
  unfoldable pub parse : Parser ParseResult
  parse = do
    first ← read_uint8
    length ← if first == max_size then read_uint16 native else pure first
    type ← read_uint8
    pure (record { length = (length + 65536 - 2) % 65536; type = type })

  unfoldable pub write_knx_structure : ℕ → ℕ → Writer
  write_knx_structure type length = do
    if leb max_size length
        then write_uint8 max_size >> write_uint16 native length
        else write_uint8 (u8 length)
    write_uint8 type

  -- One byte of length, or three from `max_size` on.
  abbrev pub length_bytes : ℕ → List ℕ
  length_bytes length =
      if leb max_size length then max_size ∷ bytes16 native length else length ∷ []

  pub write_knx_structure-Appends :
      (type length : ℕ)
      → length < 65536
      → Appends (write_knx_structure type length) (length_bytes length ++ type ∷ [])
  unfolding write_knx_structure
  write_knx_structure-Appends type length h = elim (Bool-cases (leb max_size length)) [
    | inl long ↦ rw long (
        Appends-then (Appends-then (Appends-uint8 max_size) (Appends-uint16 native length h))
          (Appends-uint8 type))
    | inr short ↦ rw short (Appends-then (Appends-byte (ground arith)) (Appends-uint8 type))
  ]

  pub parse-Reads :
      (type length : ℕ)
      → length < 65536
      → Reads parse
          (length_bytes length ++ type ∷ [])
          (record { length = (length + 65536 - 2) % 65536; type = type })
  unfolding parse
  parse-Reads type length h = elim (Bool-cases (leb max_size length)) [
    | inl long ↦ rw long (
        Reads-bind _ (Reads-uint8 max_size) (
          Reads-bind _ (Reads-uint16 native length h)
            (Reads-bind _ (Reads-uint8 type) (Reads-pure _))))
    | inr short ↦
        let one_byte : (length == max_size) ≡ false = ground arith in
        rw short (
          Reads-bind _ (Reads-uint8 length)
            (rw one_byte (Reads-bind _ (Reads-uint8 type) (Reads-pure _))))
  ]
