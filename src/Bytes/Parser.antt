-- ===== src/Bytes/Parser.antt =====
-- What a function that takes a `ByteBufferReader &` returns: a value and the reader moved on, or a
-- fault. The state is the reader of src/knx/bytes/ByteBufferReader.h.
use libknx.Prelude.{ℕ, ◌+◌, List}

-- `std::endian::native`, which the reader and the writer test at compile time.
pub data Endian : Type 0 where
  little big : Endian

-- `out_of_range` stands for a read outside the span, which C++ leaves undefined; the others are the
-- exceptions `std::length_error` and `std::bad_variant_access`. `diverged` is the outcome of a loop
-- that is cut off by its fuel; the loops that use it are proved never to have it.
pub data Fault : Type 0 where
  out_of_range length_error bad_variant_access diverged : Fault

pub data Result {ℓ} (A : Type ℓ) : Type ℓ where
  ok : A → Result A
  err : Fault → Result A

-- `bytes` is the span that the reader refers to, and `index` the position of the next byte. The
-- index is a `size_t`; it does not wrap here.
pub record ByteBufferReader : Type 0 where
  pub bytes : List ℕ
  pub index : ℕ

abbrev pub Parser : Type 0 → Type 0
Parser A = ByteBufferReader → Result (A × ByteBufferReader)

abbrev pub pure : {A : Type 0} → A → Parser A
pure a r = ok (a, r)

abbrev pub fail : {A : Type 0} → Fault → Parser A
fail e r = err e

abbrev pub continue :
    {A B : Type 0} → (A → Parser B) → Result (A × ByteBufferReader) → Result (B × ByteBufferReader)
continue f (ok (a, r)) = f a r
continue f (err e) = err e

infixl 5 ◌>>=◌
abbrev pub ◌>>=◌ : {A B : Type 0} → Parser A → (A → Parser B) → Parser B
◌>>=◌ m f r = continue f (m r)

abbrev pub advance : ByteBufferReader → ℕ → ByteBufferReader
advance r n = record r { index = r.index + n }
