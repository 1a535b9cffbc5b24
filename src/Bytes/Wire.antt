-- ===== src/Bytes/Wire.antt =====
-- Wire formats: which bytes a writer appends, and which bytes a parser takes off the front of what
-- is left to read. Rules for sequences of both.
use libknx.Prelude.{
  ℕ, ◌+◌, ◌-◌, ◌≤◌, ◌≡◌, refl, ap, ◌∙◌, List, [], ◌∷◌, ◌++◌, append_assoc, append-nil, arith,
  length, length-append, length-drop, take, drop, drop-add, drop-append, take-append,
  get_elem?-drop, le→leb,
}
use native.Mathlib.Nat.{add-zero, add_assoc}
use libknx.Bytes.Parser.{ok, Parser, ByteBufferReader, pure, ◌>>=◌, advance}
use libknx.Bytes.Reader.{read_uint8, read_byte_span, copy_to_span, skip}
use libknx.Bytes.Writer.{Writer, ◌>>◌, write_uint8, write_byte_span, write_vector}

-- What the reader has not passed yet.
abbrev pub remaining : ByteBufferReader → List ℕ
remaining r = drop r.index r.bytes

-- `p` takes `bs` off the front of any input, gives `a`, and leaves the reader behind `bs`.
pub record Reads {A : Type 0} (p : Parser A) (bs : List ℕ) (a : A) : Type 0 where
  pub run :
      (r : ByteBufferReader) (rest : List ℕ)
      → r.index ≤ length r.bytes
      → remaining r ≡ bs ++ rest
      → p r ≡ ok (a, advance r (length bs))

-- `m` appends `bs` to any vector.
pub record Appends (m : Writer) (bs : List ℕ) : Type 0 where
  pub run : (out : List ℕ) → m out ≡ out ++ bs

-- The reader at the first byte behind `done`, over what was written after it and the rest.
abbrev pub reader_after : List ℕ → List ℕ → ByteBufferReader
reader_after done bytes = record { bytes = bytes; index = length done }

-- Whatever was in the vector before and follows after, `p` reads back what `m` has written, and
-- stops where the written bytes stop.
abbrev pub RoundTrips : {A : Type 0} → Writer → Parser A → A → Type 0
RoundTrips m p a =
    (out rest : List ℕ)
    → p (reader_after out (m out ++ rest)) ≡ ok (a, reader_after (m out) (m out ++ rest))

pub remaining-advance :
    (r : ByteBufferReader) (bs rest : List ℕ)
    → remaining r ≡ bs ++ rest
    → remaining (advance r (length bs)) ≡ rest
remaining-advance r bs rest e =
    drop-add r.index (length bs) r.bytes ∙ (ap (drop (length bs)) e ∙ drop-append bs rest)

pub remaining-room :
    (r : ByteBufferReader) (bs rest : List ℕ)
    → r.index ≤ length r.bytes
    → remaining r ≡ bs ++ rest
    → r.index + length bs ≤ length r.bytes
remaining-room r bs rest h e =
    omega (arith, length-drop r.index r.bytes, ap length e, length-append bs rest)

pub Reads-pure : {A : Type 0} (a : A) → Reads (pure a) [] a
Reads-pure a = record { run = λ r rest h e. rw add-zero }

pub Reads-bind :
    {A B : Type 0} {p : Parser A} (f : A → Parser B) {bs cs : List ℕ} {a : A} {b : B}
    → Reads p bs a
    → Reads (f a) cs b
    → Reads (p >>= f) (bs ++ cs) b
Reads-bind f {bs} {cs} hp hf = record {
  run = λ r rest h e.
      let e' = e ∙ append_assoc bs cs rest in
      rw (
        hp.run r (cs ++ rest) h e',
        hf.run (advance r (length bs)) rest (remaining-room r bs (cs ++ rest) h e')
            (remaining-advance r bs (cs ++ rest) e'),
        length-append bs cs,
        add_assoc,
      );
}

pub Reads-uint8 : (b : ℕ) → Reads read_uint8 (b ∷ []) b
unfolding read_uint8
Reads-uint8 b = record { run = λ r rest h e. rw (get_elem?-drop r.index r.bytes e, read_uint8) }

pub Reads-return : {A : Type 0} {a b : A} → a ≡ b → Reads (pure a) [] b
Reads-return e = rw e (Reads-pure _)

-- The last step of a parser, behind which nothing more is read.
pub Reads-last :
    {A B : Type 0} {p : Parser A} (f : A → Parser B) {bs : List ℕ} {a : A} {b : B}
    → Reads p bs a
    → Reads (f a) [] b
    → Reads (p >>= f) bs b
Reads-last f {bs} hp hf = rw append-nil at (Reads-bind f hp hf)

pub Reads-as :
    {A : Type 0} {p : Parser A} {bs cs : List ℕ} {a : A} → Reads p bs a → bs ≡ cs → Reads p cs a
Reads-as h e = rw (← e) h

pub Reads-skip : (bs : List ℕ) → Reads (skip (length bs)) bs tt
unfolding skip
Reads-skip bs = record { run = λ r rest h e. refl }

span-Reads :
    (r : ByteBufferReader) (bs rest : List ℕ)
    → remaining r ≡ bs ++ rest
    → take (length bs) (drop r.index r.bytes) ≡ bs
span-Reads r bs rest e = rw e (take-append bs rest)

pub Reads-span : (bs : List ℕ) → Reads (read_byte_span (length bs)) bs bs
unfolding read_byte_span
Reads-span bs = record {
  run = λ r rest h e. rw (
    le→leb (r.index + length bs) (length r.bytes) (remaining-room r bs rest h e),
    read_byte_span,
    span-Reads r bs rest e,
  );
}

pub Reads-copy : (bs : List ℕ) → Reads (copy_to_span (length bs)) bs bs
unfolding copy_to_span
Reads-copy bs = record {
  run = λ r rest h e. rw (
    le→leb (r.index + length bs) (length r.bytes) (remaining-room r bs rest h e),
    copy_to_span,
    span-Reads r bs rest e,
  );
}

pub Reads-span_of : {n : ℕ} (bs : List ℕ) → length bs ≡ n → Reads (read_byte_span n) bs bs
Reads-span_of bs e = rw (← e) (Reads-span bs)

pub Reads-copy_of : {n : ℕ} (bs : List ℕ) → length bs ≡ n → Reads (copy_to_span n) bs bs
Reads-copy_of bs e = rw (← e) (Reads-copy bs)

pub Appends-uint8 : (b : ℕ) → Appends (write_uint8 b) (b ∷ [])
unfolding write_uint8
Appends-uint8 b = record { run = λ out. refl }

pub Appends-byte : {v b : ℕ} → v ≡ b → Appends (write_uint8 v) (b ∷ [])
Appends-byte e = rw e (Appends-uint8 _)

pub Appends-span : (bs : List ℕ) → Appends (write_byte_span bs) bs
unfolding write_byte_span
Appends-span bs = record { run = λ out. refl }

pub Appends-vector : (bs : List ℕ) → Appends (write_vector bs) bs
unfolding write_vector
Appends-vector bs = record { run = λ out. refl }

pub Appends-then :
    {m k : Writer} {bs cs : List ℕ} → Appends m bs → Appends k cs → Appends (m >> k) (bs ++ cs)
Appends-then {bs} {cs} hm hk = record {
  run = λ out. rw (hm.run out, hk.run (out ++ bs)) (append_assoc out bs cs);
}

pub Appends-as : {m : Writer} {bs cs : List ℕ} → Appends m bs → bs ≡ cs → Appends m cs
Appends-as h e = rw (← e) h

-- A writer and a parser of the same bytes go round.
pub RoundTrips-wire :
    {A : Type 0} {m : Writer} {p : Parser A} {a : A} (bs : List ℕ)
    → Appends m bs
    → Reads p bs a
    → RoundTrips m p a
RoundTrips-wire bs hm hp out rest = rw (hm.run out) (
    rw (length-append out bs) (
      hp.run (reader_after out ((out ++ bs) ++ rest)) rest
        (omega (arith, length-append (out ++ bs) rest, length-append out bs))
        (rw append_assoc (drop-append out (bs ++ rest)))))

-- `p` reads `bs` wherever they stand in the input, gives `a`, and stops behind them.
abbrev pub Decodes : {A : Type 0} → Parser A → List ℕ → A → Type 0
Decodes p bs a =
    (out rest : List ℕ)
    → p (reader_after out (out ++ (bs ++ rest)))
      ≡ ok (a, reader_after (out ++ bs) (out ++ (bs ++ rest)))

pub Decodes-wire : {A : Type 0} {p : Parser A} {bs : List ℕ} {a : A} → Reads p bs a → Decodes p bs a
Decodes-wire {bs} hp out rest = rw (length-append out bs) (
    hp.run (reader_after out (out ++ (bs ++ rest))) rest
      (omega (arith, length-append out (bs ++ rest))) (drop-append out (bs ++ rest)))

-- A parser that reads less than what was written stops before the end.
pub Reads-partly :
    {A : Type 0} {p : Parser A} {bs : List ℕ} {a : A}
    → Reads p bs a
    → (out last rest : List ℕ)
    → let written = out ++ (bs ++ last) in
      p (reader_after out (written ++ rest))
      ≡ ok (a, record { bytes = written ++ rest; index = length written - length last })
Reads-partly {bs} {a} hp out last rest =
    let behind : length (out ++ (bs ++ last)) - length last ≡ length out + length bs =
      omega (arith, length-append out (bs ++ last), length-append bs last) in
    rw behind (
      hp.run (reader_after out ((out ++ (bs ++ last)) ++ rest)) (last ++ rest)
        (omega (arith, length-append (out ++ (bs ++ last)) rest, length-append out (bs ++ last)))
        (simp (append_assoc, drop-append)))
