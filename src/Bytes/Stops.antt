-- ===== src/Bytes/Stops.antt =====
-- Inputs that end too early: where a parser meets the end of the span.
use libknx.Prelude.{
  ℕ, suc, ◌+◌, ◌≤◌, ◌≡◌, ap, List, [], ◌++◌, arith, length, length-drop, lt→not-leb,
  get_elem?-drop_nil,
}
use libknx.Bytes.Parser.{Fault, out_of_range, err, Parser, ByteBufferReader, ◌>>=◌, advance}
use libknx.Bytes.Reader.{read_uint8, read_byte_span}
use libknx.Bytes.Wire.{remaining, remaining-advance, remaining-room, Reads}

-- `p` faults with `e` where `bs` are the last bytes of the input.
pub record Stops {A : Type 0} (p : Parser A) (bs : List ℕ) (e : Fault) : Type 0 where
  pub run : (r : ByteBufferReader) → r.index ≤ length r.bytes → remaining r ≡ bs → p r ≡ err e

pub Stops-bind :
    {A B : Type 0} {p : Parser A} (f : A → Parser B) {bs cs : List ℕ} {a : A} {e : Fault}
    → Reads p bs a
    → Stops (f a) cs e
    → Stops (p >>= f) (bs ++ cs) e
Stops-bind f {bs} {cs} hp hf = record {
  run = λ r i h.
      rw (hp.run r cs i h)
        (hf.run (advance r (length bs)) (remaining-room r bs cs i h) (remaining-advance r bs cs h));
}

pub Stops-first :
    {A B : Type 0} {p : Parser A} (f : A → Parser B) {bs : List ℕ} {e : Fault}
    → Stops p bs e
    → Stops (p >>= f) bs e
Stops-first f hp = record { run = λ r i h. rw (hp.run r i h) }

pub Stops-uint8 : Stops read_uint8 [] out_of_range
unfolding read_uint8
Stops-uint8 = record { run = λ r i h. rw (get_elem?-drop_nil r.index r.bytes h, read_uint8) }

pub Stops-span : (n : ℕ) → Stops (read_byte_span (suc n)) [] out_of_range
unfolding read_byte_span
Stops-span n = record {
  run = λ r i h. rw (
    lt→not-leb (r.index + suc n) (length r.bytes)
        (omega (arith, length-drop r.index r.bytes, ap length h)),
    read_byte_span,
  );
}
