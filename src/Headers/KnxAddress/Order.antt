-- ===== src/Headers/KnxAddress/Order.antt =====
-- The comparison operators of src/knx/headers/KnxAddress.cpp.
use libknx.Prelude.{ℕ, ◌+◌, ◌*◌, ◌<◌, ◌≡◌, ◌↔◌, ◌⊎◌, ◌≢◌, true, false, arith, IsByte}
use libknx.Headers.KnxAddress.{KnxAddress, equal, greater, less}

-- Each part is a `uint8_t`.
abbrev pub IsBytes : KnxAddress → Type 0
IsBytes a = IsByte a.high × IsByte a.middle × IsByte a.low

-- The address as one number, the high part first.
abbrev pub number : KnxAddress → ℕ
number a = a.high * 65536 + a.middle * 256 + a.low

equal_iff : (a b : KnxAddress) → (equal a b ≡ true) ↔ (a ≡ b)
unfolding equal
equal_iff a b = ground arith

-- `a > b` is the order of the numbers.
pub greater_iff :
    (a b : KnxAddress) → IsBytes a → IsBytes b → (greater a b ≡ true) ↔ (number b < number a)
unfolding greater
greater_iff a b ha hb = (ground arith, ground arith)

-- Of addresses of three bytes, `a < b` says that the number of `a`, its bytes with the high part first, is below that
-- of `b`.
pub less_iff :
    (a b : KnxAddress) → IsBytes a → IsBytes b → (less a b ≡ true) ↔ (number a < number b)
unfolding less
less_iff a b ha hb = (ground arith, ground arith)

-- Of two addresses of three bytes exactly one of `a < b`, `a == b` and `a > b` holds.
pub less_trichotomy :
    (a b : KnxAddress)
    → IsBytes a
    → IsBytes b
    → ((less a b ≡ true) × (a ≢ b) × (greater a b ≡ false))
      ⊎ (((less a b ≡ false) × (a ≡ b) × (greater a b ≡ false))
          ⊎ ((less a b ≡ false) × (a ≢ b) × (greater a b ≡ true)))
unfolding less
less_trichotomy a b ha hb = ground arith
