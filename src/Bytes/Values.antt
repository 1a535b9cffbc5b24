-- ===== src/Bytes/Values.antt =====
-- The values that the reader and the writer translate: numbers of two and four bytes.
use libknx.Prelude.{ℕ, ◌+◌, ◌*◌, ◌/◌, ◌%◌, ◌<◌, List, [], ◌∷◌, arith}
use libknx.Prelude.Bits.{bit_and-byte, bit_or-byte}
use libknx.Bytes.Parser.{Endian, little, big}
use libknx.Bytes.Reader.{read_uint16, read_int16, get_4_bytes_copy}
use libknx.Bytes.Writer.{write_uint16, write_int16}
use libknx.Bytes.Wire.{
  Reads, Appends, Reads-pure, Reads-return, Reads-bind, Reads-uint8, Appends-byte, Appends-then,
}

-- The two bytes of a `uint16_t` as the machine puts them on the wire: the high byte first from a
-- little-endian machine, the low byte first from a big-endian one.
abbrev pub bytes16 : Endian → ℕ → List ℕ
bytes16 native v =
    (elim native [ little ↦ v / 256 | big ↦ v % 256 ])
    ∷ (elim native [ little ↦ v % 256 | big ↦ v / 256 ])
    ∷ []

pub Appends-uint16 :
    (native : Endian) (v : ℕ) → v < 65536 → Appends (write_uint16 native v) (bytes16 native v)
unfolding write_uint16
Appends-uint16 little v h =
    Appends-then (Appends-byte (omega (arith, bit_and-byte (v % 256 * 256 + v / 256 % 256))))
      (Appends-byte (omega (arith, bit_and-byte ((v % 256 * 256 + v / 256 % 256) / 256))))
Appends-uint16 big v h =
    Appends-then (Appends-byte (bit_and-byte v))
      (Appends-byte (omega (arith, bit_and-byte (v / 256))))

pub Reads-uint16 :
    (native : Endian) (v : ℕ) → v < 65536 → Reads (read_uint16 native) (bytes16 native v) v
unfolding read_uint16
Reads-uint16 little v h =
    Reads-bind _ (Reads-uint8 _) (
      Reads-bind _ (Reads-uint8 _) (Reads-return (ground (arith, bit_or-byte (v / 256) (v % 256)))))
Reads-uint16 big v h = Reads-bind _ (Reads-uint8 _) (
    Reads-bind _ (Reads-uint8 _)
      (Reads-return (omega (arith, bit_or-byte (v / 256) (v % 256) (omega arith)))))

pub Appends-int16 : (v : ℕ) → v < 65536 → Appends (write_int16 little v) (bytes16 little v)
unfolding write_int16
Appends-int16 v h =
    Appends-then (Appends-byte (omega (arith, bit_and-byte (v % 256 * 256 + v / 256 % 256))))
      (Appends-byte (omega (arith, bit_and-byte ((v % 256 * 256 + v / 256 % 256) / 256))))

pub Reads-int16 : (v : ℕ) → v < 65536 → Reads (read_int16 little) (bytes16 little v) v
unfolding read_int16
Reads-int16 v h =
    Reads-bind _ (Reads-uint8 _) (
      Reads-bind _ (Reads-uint8 _) (Reads-return (ground (arith, bit_or-byte (v / 256) (v % 256)))))

pub Reads-4_bytes : (a b c d : ℕ) → Reads get_4_bytes_copy (a ∷ b ∷ c ∷ d ∷ []) (a, b, c, d)
unfolding get_4_bytes_copy
Reads-4_bytes a b c d = Reads-bind _ (Reads-uint8 a) (
    Reads-bind _ (Reads-uint8 b)
      (Reads-bind _ (Reads-uint8 c) (Reads-bind _ (Reads-uint8 d) (Reads-pure (a, b, c, d)))))
