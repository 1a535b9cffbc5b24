-- ===== src/Cemi/AdditionalInformation/Laws.antt =====
-- The blocks on the wire, and the end of the loop that reads them.
use libknx.Prelude.{
  ℕ, zero, suc, ◌+◌, ◌-◌, ◌%◌, ◌≤◌, ◌<◌, false, ◌≡◌, List, [], ◌∷◌, ◌++◌, arith, length, ◌==◌,
  length-append, length-drop, append-nil, ap, ◌∙◌,
}
use native.Mathlib.Nat.{zero-add}
use libknx.Bytes.Parser.{ByteBufferReader, pure, ◌>>=◌}
use libknx.Bytes.Wire.{
  remaining, Reads, Appends, RoundTrips, RoundTrips-wire, Reads-pure, Reads-bind, Reads-last,
  Reads-uint8, Reads-copy, Appends-uint8, Appends-byte, Appends-span, Appends-then,
}
use libknx.Cemi.AdditionalInformation.{
  AdditionalInformationElement, AdditionalInformation, parse_elements, parse, frame_size,
  total_length, write_element, write_elements, write,
}

abbrev pub size : List AdditionalInformationElement → ℕ
size [] = 0
size (e ∷ es) = 2 + length e.payload + size es

-- The blocks fit the length byte in front of them.
abbrev pub IsShort : AdditionalInformation → Type 0
IsShort a = size a.elements < 256

abbrev elements_bytes : List AdditionalInformationElement → List ℕ
elements_bytes [] = []
elements_bytes (e ∷ es) = e.type ∷ length e.payload ∷ (e.payload ++ elements_bytes es)

abbrev pub information_bytes : AdditionalInformation → List ℕ
information_bytes a = size a.elements ∷ elements_bytes a.elements

total_length-size :
    (total : ℕ) (es : List AdditionalInformationElement)
    → total + size es < 256
    → total_length total es ≡ total + size es
unfolding total_length frame_size
total_length-size total [] h = omega arith
total_length-size total (e ∷ es) h =
    let exact : (total + (2 + length e.payload) % 256) % 256 ≡ total + (2 + length e.payload) =
      omega arith in
    rw exact (omega (arith, total_length-size (total + (2 + length e.payload)) es (omega arith)))

write_elements-Appends :
    (es : List AdditionalInformationElement)
    → size es < 256
    → Appends (write_elements es) (elements_bytes es)
unfolding write_elements write_element
write_elements-Appends [] h = record { run = λ out. rw append-nil }
write_elements-Appends (e ∷ es) h =
    Appends-then
      (Appends-then (Appends-uint8 e.type) (Appends-byte {b = length e.payload} (omega arith)))
      (Appends-then (Appends-span e.payload) (write_elements-Appends es (omega arith)))

parse_elements-Reads :
    (es : List AdditionalInformationElement) (fuel : ℕ)
    → size es < 256
    → length es < fuel
    → Reads (parse_elements fuel (size es)) (elements_bytes es) es
unfolding parse_elements
parse_elements-Reads es zero h f = absurd (omega arith)
parse_elements-Reads [] (suc fuel) h f = Reads-pure []
parse_elements-Reads (e ∷ es) (suc fuel) h f =
    let more : (2 + length e.payload + size es == 0) ≡ false = ground arith in
    let left : (2 + length e.payload + size es + 512 - (length e.payload + 2)) % 256 ≡ size es =
      omega arith in
    rw more (
      Reads-bind _ (Reads-uint8 e.type) (
        Reads-bind _ (Reads-uint8 (length e.payload)) (
          Reads-bind _ (Reads-copy e.payload) (
            rw left (
              Reads-last _ (parse_elements-Reads es fuel (omega arith) (omega arith))
                (Reads-pure _))))))

length-elements_bytes :
    (es : List AdditionalInformationElement) → length es ≤ length (elements_bytes es)
length-elements_bytes [] = omega arith
length-elements_bytes (e ∷ es) =
    omega (arith, length-append e.payload (elements_bytes es), length-elements_bytes es)

-- The fuel of `parse` covers as many blocks as the input can hold.
fuel_covers :
    (a : AdditionalInformation) (r : ByteBufferReader) (rest : List ℕ)
    → remaining r ≡ information_bytes a ++ rest
    → length a.elements < suc (length r.bytes)
fuel_covers a r rest e = omega (
  arith,
  length-elements_bytes a.elements,
  ap length e,
  length-append (elements_bytes a.elements) rest,
  length-drop r.index r.bytes,
)

pub parse-Reads : (a : AdditionalInformation) → IsShort a → Reads parse (information_bytes a) a
unfolding parse
parse-Reads a h = record {
  run = λ r rest i e.
      (Reads-bind
          (λ remaining_length. parse_elements (suc (length r.bytes)) remaining_length >>= λ es.
            pure (record { elements = es }))
          (Reads-uint8 (size a.elements))
          (Reads-last _
            (parse_elements-Reads a.elements (suc (length r.bytes)) h (fuel_covers a r rest e))
            (Reads-pure _))).run
        r rest i e;
}

pub write-Appends :
    (a : AdditionalInformation) → IsShort a → Appends (write a) (information_bytes a)
unfolding write
write-Appends a h =
    Appends-then
      (Appends-byte (total_length-size 0 a.elements (omega arith) ∙ zero-add (size a.elements)))
      (write_elements-Appends a.elements h)

-- Additional information of fewer than 256 bytes is read back as it was written.
pub parse-write_information : (a : AdditionalInformation) → IsShort a → RoundTrips (write a) parse a
parse-write_information a h =
    RoundTrips-wire (information_bytes a) (write-Appends a h) (parse-Reads a h)
