-- ===== src/Connection/Outcome.antt =====
-- What a step of a connection comes to: a new state, or a fault.
use libknx.Bytes.Parser.{Fault}

-- `use_after_free` is a read through a pointer to a destroyed object, and
-- `null_pointer` one through an empty pointer, which C++ leaves undefined;
-- `malformed` is a fault of the byte buffers or of `std::get`.
pub data Failure : Type 0 where
  use_after_free null_pointer : Failure
  malformed : Fault → Failure

pub data Outcome {ℓ} (A : Type ℓ) : Type ℓ where
  done : A → Outcome A
  failed : Failure → Outcome A

infixl 5 ◌>>=◌
abbrev pub ◌>>=◌ {ℓ κ} : {A : Type ℓ} {B : Type κ} → Outcome A → (A → Outcome B) → Outcome B
done a >>= f = f a
failed e >>= f = failed e
