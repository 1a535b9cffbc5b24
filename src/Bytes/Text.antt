-- ===== src/Bytes/Text.antt =====
-- Text in a field of fixed length, padded with zeros.
use libknx.Prelude.{
  ℕ, zero, suc, ◌+◌, ◌-◌, ◌%◌, ◌^◌, ◌≤◌, ◌<◌, ◌≡◌, ◌≢◌, refl, ◌∙◌, List, [], ◌∷◌, ◌++◌, arith,
  length, replicate, length-append, length-replicate, All, append-nil, append_assoc, u32,
}
use libknx.Bytes.Reader.{until_zero, read_terminated_string}
use libknx.Bytes.Writer.{write_zeros, write_string, write_terminated_string}
use libknx.Bytes.Wire.{
  Reads, Appends, RoundTrips, RoundTrips-wire, Reads-last, Reads-return, Reads-span_of,
  Appends-then,
}

until_zero-padded :
    (text : List ℕ) (n : ℕ) → All (λ c. c ≢ 0) text → until_zero (text ++ replicate n 0) ≡ text
unfolding until_zero
until_zero-padded [] zero h = refl
until_zero-padded [] (suc n) h = refl
until_zero-padded (c ∷ text) n h = ground (arith, until_zero-padded text n h.1)

abbrev pub padded : ℕ → List ℕ → List ℕ
padded max_length text = text ++ replicate (max_length - length text) 0

pub read_terminated_string-Reads :
    (text : List ℕ) (max_length : ℕ)
    → All (λ c. c ≢ 0) text
    → length text ≤ max_length
    → Reads (read_terminated_string max_length) (padded max_length text) text
unfolding read_terminated_string
read_terminated_string-Reads text max_length h fits =
    Reads-last _
      (Reads-span_of (padded max_length text) (
        omega (
          arith,
          length-append text (replicate (max_length - length text) 0),
          length-replicate {A = ℕ} (max_length - length text) 0,
        )))
      (Reads-return (until_zero-padded text _ h))

write_zeros-run : (n : ℕ) (out : List ℕ) → write_zeros n out ≡ out ++ replicate n 0
unfolding write_zeros
write_zeros-run zero out = rw append-nil
write_zeros-run (suc n) out =
    write_zeros-run n (out ++ 0 ∷ []) ∙ append_assoc out (0 ∷ []) (replicate n 0)

write_string-Appends : (text : List ℕ) → Appends (write_string text) text
unfolding write_string
write_string-Appends text = record { run = λ out. refl }

padding_lem :
    (length_text max_length : ℕ)
    → length_text ≤ max_length
    → max_length < 2 ^ 32
    → (u32 max_length + 2 ^ 32 - u32 length_text) % 2 ^ 32 ≡ max_length - length_text
padding_lem l m h k = omega arith

pub write_terminated_string-Appends :
    (text : List ℕ) (max_length : ℕ)
    → length text ≤ max_length
    → max_length < 2 ^ 32
    → Appends (write_terminated_string text max_length) (padded max_length text)
unfolding write_terminated_string
write_terminated_string-Appends text max_length h k =
    rw (padding_lem (length text) max_length h k)
      (Appends-then (write_string-Appends text) (record { run = write_zeros-run _ }))

-- A text without zeros that fits its field is read back from it as it was written, and the reader
-- stops behind the whole field.
pub read-write_terminated_string :
    (text : List ℕ) (max_length : ℕ)
    → All (λ c. c ≢ 0) text
    → length text ≤ max_length
    → max_length < 2 ^ 32
    → RoundTrips (write_terminated_string text max_length) (read_terminated_string max_length) text
read-write_terminated_string text max_length h fits small =
    RoundTrips-wire (padded max_length text)
      (write_terminated_string-Appends text max_length fits small)
      (read_terminated_string-Reads text max_length h fits)
