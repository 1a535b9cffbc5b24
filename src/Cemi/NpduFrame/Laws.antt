-- ===== src/Cemi/NpduFrame/Laws.antt =====
-- The bytes of the transport and the application part, and what comes back from them.
use libknx.Prelude.{
  ℕ, suc, ◌+◌, ◌-◌, ◌*◌, ◌/◌, ◌%◌, ◌<◌, ◌≤◌, ◌≡◌, refl, inl, inr, Bool, true, false, ◌||◌, List, [],
  ◌∷◌, ◌++◌, arith, IsByte, All, ltb, ◌==◌, if◌then◌else◌, length, bit_and, all_below, equal_below,
  from_bool, Bool-cases,
}
use libknx.Prelude
use libknx.Prelude.Bits.{bit_and-mask}
use libknx.Bytes.Wire.{
  Reads, Appends, RoundTrips, RoundTrips-wire, Reads-pure, Reads-return, Reads-bind, Reads-last,
  Reads-uint8, Reads-copy_of, Appends-uint8, Appends-byte, Appends-vector, Appends-then,
}
use libknx.Cemi.Tpci.{Tpci, to_byte, to_byte_sum, parse-to_byte}
use libknx.Cemi.DataAcpi
use libknx.Cemi.DataAcpi.{DataAcpi, type_of, one_byte_data, no_data, is_small, first_of}
use libknx.Cemi.DataAcpi.Bits.{
  top_two_clear, type_of_lem, first_bits, second_bits, second_bits_with,
}
use libknx.Cemi.NpduFrame.{NpduFrame, parse, write}

-- The members within their widths, and data that a length byte can count.
pub record IsNpdu (n : NpduFrame) : Type 0 where
  pub sequence : n.tpci.sequence < 4
  pub type : IsByte n.data_acpi.type
  pub bytes : All IsByte n.data_acpi.payload
  pub counted : length n.data_acpi.payload < 255

-- What the receiver of an application part sees.
abbrev pub received_acpi : DataAcpi → DataAcpi
received_acpi a = record {
  type = a.type % 8;
  payload = if no_data a then 0 ∷ [] else a.payload;
  fits_6_bits = one_byte_data a || no_data a;
}

abbrev pub received : NpduFrame → NpduFrame
received n = record {
  tpci = record (n.tpci) { is_control = false };
  data_acpi = received_acpi n.data_acpi;
}

high_nibble : (x : ℕ) → x < 256 → bit_and x 0xf0 ≡ x / 16 * 16
unfolding all_below
high_nibble x h = equal_below 256 (λ y. bit_and y 0xf0) (λ y. y / 16 * 16) x refl h

-- The first of the two shared bytes.
abbrev first_number : Tpci → ℕ → ℕ
first_number t type = to_byte t + type / 4 % 2

nibbles :
    (t : Tpci) (type : ℕ)
    → t.sequence < 4
    → (bit_and (first_number t type) 0x0f ≡ type / 4 % 2)
      × (bit_and (first_number t type) 0xf0 ≡ to_byte t)
nibbles t type h = ground (
  arith,
  to_byte_sum t h,
  bit_and-mask 4 (first_number t type),
  high_nibble (first_number t type),
)

written_type :
    (type value : ℕ) → value < 64 → type_of (type / 4 % 2) (type % 4 * 64 + value) ≡ type % 8
written_type type value h =
    omega (arith, type_of_lem (type / 4 % 2) (type % 4 * 64 + value) (omega arith))

compact-Reads :
    (t : Tpci) (type value : ℕ)
    → t.sequence < 4
    → value < 64
    → Reads parse (1 ∷ first_number t type ∷ (type % 4 * 64 + value) ∷ []) (record {
      tpci = record t { is_control = false };
      data_acpi = record { type = type % 8; payload = value ∷ []; fits_6_bits = true };
    })
unfolding parse DataAcpi.parse
compact-Reads t type value h v = Reads-bind _ (Reads-uint8 1) (
    Reads-bind _ (Reads-uint8 (first_number t type)) (
      rw ((nibbles t type h).0, (nibbles t type h).1, parse-to_byte t h)
        (Reads-bind _
          (Reads-bind _ (Reads-uint8 (type % 4 * 64 + value)) (
            Reads-return
              (ground (arith, written_type type value v, bit_and-mask 6 (type % 4 * 64 + value)))))
          (Reads-pure _))))

long-Reads :
    (t : Tpci) (type : ℕ) (payload : List ℕ)
    → t.sequence < 4
    → 0 < length payload
    → Reads parse (suc (length payload) ∷ first_number t type ∷ (type % 4 * 64) ∷ payload) (record {
      tpci = record t { is_control = false };
      data_acpi = record { type = type % 8; payload = payload; fits_6_bits = false };
    })
unfolding parse DataAcpi.parse
long-Reads t type payload h p =
    let several : (suc (length payload) == 1) ≡ false = ground arith in
    let some_length : (suc (length payload) == 0) ≡ false = ground arith in
    let counted : length payload ≡ suc (length payload) - 1 = omega arith in
    Reads-bind _ (Reads-uint8 (suc (length payload))) (
      Reads-bind _ (Reads-uint8 (first_number t type)) (
        rw ((nibbles t type h).0, (nibbles t type h).1, parse-to_byte t h)
          (Reads-last _
            (Reads-bind _ (Reads-uint8 (type % 4 * 64)) (
              rw (several, some_length)
                (Reads-last _ (Reads-copy_of payload counted)
                  (Reads-return (ground (arith, written_type type 0))))))
            (Reads-pure _))))

first_written :
    (t : Tpci) (type : ℕ)
    → t.sequence < 4
    → type < 256
    → Prelude.u8 (Prelude.bit_or (to_byte t) (Prelude.◌>>>◌ (bit_and type 0x06) 2))
      ≡ first_number t type
first_written t type h b = ground (arith, to_byte_sum t h, first_bits (to_byte t / 16) type)

compact-Appends :
    (t : Tpci) (type value : ℕ)
    → t.sequence < 4
    → type < 256
    → value < 64
    → Appends
        (write (record { tpci = t; data_acpi = DataAcpi.of_byte type value true }))
        (1 ∷ first_number t type ∷ (type % 4 * 64 + value) ∷ [])
unfolding write DataAcpi.write one_byte_data is_small
compact-Appends t type value h b v =
    let small : (bit_and value 0b11000000 == 0) ≡ true = ground (arith, top_two_clear value) in
    rw small (
      Appends-then (Appends-then (Appends-uint8 1) (Appends-byte (first_written t type h b)))
        (Appends-byte (rw (second_bits type) (second_bits_with type value v))))

empty-Appends :
    (t : Tpci) (type : ℕ) (fits : Bool)
    → t.sequence < 4
    → type < 256
    → Appends
        (write (record {
          tpci = t;
          data_acpi = record { type = type; payload = []; fits_6_bits = fits };
        }))
        (1 ∷ first_number t type ∷ (type % 4 * 64 + 0) ∷ [])
unfolding write DataAcpi.write one_byte_data no_data
empty-Appends t type true h b =
    Appends-then (Appends-then (Appends-uint8 1) (Appends-byte (first_written t type h b)))
      (Appends-then (Appends-byte (omega (arith, second_bits type))) (Appends-vector []))
empty-Appends t type false h b =
    Appends-then (Appends-then (Appends-uint8 1) (Appends-byte (first_written t type h b)))
      (Appends-then (Appends-byte (omega (arith, second_bits type))) (Appends-vector []))

long-Appends :
    (n : NpduFrame)
    → IsNpdu n
    → one_byte_data n.data_acpi ≡ false
    → no_data n.data_acpi ≡ false
    → Appends (write n) (
        suc (length n.data_acpi.payload)
        ∷ first_number n.tpci n.data_acpi.type
        ∷ (n.data_acpi.type % 4 * 64)
        ∷ n.data_acpi.payload)
unfolding write DataAcpi.write
long-Appends n v one some_data =
    rw (one, some_data)
      (Appends-then
        (Appends-then (Appends-byte (let c = v.counted in omega arith))
          (Appends-byte (first_written n.tpci n.data_acpi.type v.sequence v.type)))
        (Appends-then (Appends-byte (second_bits n.data_acpi.type))
          (Appends-vector n.data_acpi.payload)))

-- Some bytes that `write` appends and that `parse` reads as what is received.
abbrev Wire : NpduFrame → Type 0
Wire n = (bs : List ℕ) × Appends (write n) bs × Reads parse bs (received n)

some_bytes : (a : DataAcpi) → no_data a ≡ false → 0 < length a.payload
unfolding no_data
some_bytes a h = ground arith

long-Wire :
    (n : NpduFrame)
    → IsNpdu n
    → one_byte_data n.data_acpi ≡ false
    → no_data n.data_acpi ≡ false
    → Wire n
long-Wire n v one some_data = (
  _,
  long-Appends n v one some_data,
  rw (one, some_data)
      (long-Reads n.tpci n.data_acpi.type n.data_acpi.payload v.sequence
        (some_bytes n.data_acpi some_data)),
)

small_byte : (x : ℕ) → x < 256 → (bit_and x 0b11000000 == 0) ≡ true → x < 64
small_byte x h small = ground (arith, top_two_clear x)

abbrev frame : Tpci → ℕ → List ℕ → Bool → NpduFrame
frame t type payload fits = record {
  tpci = t;
  data_acpi = record { type = type; payload = payload; fits_6_bits = fits };
}

wire :
    (t : Tpci) (type : ℕ) (payload : List ℕ) (fits : Bool)
    → IsNpdu (frame t type payload fits)
    → Wire (frame t type payload fits)
unfolding one_byte_data no_data is_small
wire t type [] true v = (
  _,
  empty-Appends t type true v.sequence v.type,
  compact-Reads t type 0 v.sequence (omega arith),
)
wire t type [] false v = (
  _,
  empty-Appends t type false v.sequence v.type,
  compact-Reads t type 0 v.sequence (omega arith),
)
wire t type (x ∷ []) false v = long-Wire _ v (ground arith) (ground arith)
wire t type (x ∷ y ∷ ys) false v = long-Wire _ v (ground arith) (ground arith)
wire t type (x ∷ y ∷ ys) true v = long-Wire _ v (ground arith) (ground arith)
wire t type (x ∷ []) true v = elim (Bool-cases (bit_and x 0b11000000 == 0)) [
  | inl small ↦ (
    _,
    compact-Appends t type x v.sequence v.type (small_byte x v.bytes.0 small),
    rw small (compact-Reads t type x v.sequence (small_byte x v.bytes.0 small)),
  )
  | inr large ↦ long-Wire _ v large refl
]

pub write-Wire : (n : NpduFrame) → IsNpdu n → Wire n
write-Wire n v = wire n.tpci n.data_acpi.type n.data_acpi.payload n.data_acpi.fits_6_bits v

-- A frame part within its widths is read back with its sequence flag, its sequence and its data; the
-- control flag is lost, of the type the lowest three bits come back, and where there was no data a
-- single zero is read.
pub parse-write_npdu : (n : NpduFrame) → IsNpdu n → RoundTrips (write n) parse (received n)
parse-write_npdu n v = RoundTrips-wire (write-Wire n v).0 (write-Wire n v).1 (write-Wire n v).2
