-- ===== src/Cemi/AdditionalInformation/Ends.antt =====
-- The loop of `AdditionalInformation::parse` ends on every input.
use libknx.Prelude.{ℕ, ◌+◌, ◌≤◌, ◌≡◌, ◌⊎◌, length}
use libknx.Bytes.Parser.{ByteBufferReader, Parser, ok, err, out_of_range, advance}

-- An operation that moves the reader on by at least `n`, within the span, or faults otherwise than
-- by divergence.
record Moves {A : Type 0} (n : ℕ) (m : Parser A) : Type 0 where
  run :
      (r : ByteBufferReader)
      → (m r ≡ err out_of_range)
        ⊎ ((a : A) × (k : ℕ) × (n ≤ k)
            × (r.index + k ≤ length r.bytes)
            × (m r ≡ ok (a, advance r k)))
