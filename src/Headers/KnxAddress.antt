-- ===== src/Headers/KnxAddress.antt =====
-- src/knx/headers/KnxAddress.cpp: the addresses of devices and of groups, on two bytes each.
pub mod Order
pub mod Individual
pub mod Group
use libknx.Prelude.{
  ℕ, Bool, true, false, ◌&&◌, ltb, ◌==◌, if◌then◌else◌, bit_and, bit_or, ◌<<<◌, ◌>>>◌, u8,
}

pub record KnxAddress : Type 0 where
  pub high : ℕ
  pub middle : ℕ
  pub low : ℕ

-- The two classes differ in how they are written, not in what they hold.
abbrev pub IndividualAddress : Type 0
IndividualAddress = KnxAddress

abbrev pub GroupAddress : Type 0
GroupAddress = KnxAddress

unfoldable pub equal : KnxAddress → KnxAddress → Bool
equal a b = (a.high == b.high) && (a.middle == b.middle) && (a.low == b.low)

-- `operator>`
unfoldable pub greater : KnxAddress → KnxAddress → Bool
greater a b =
    if ltb b.high a.high
    then true
    else if a.high == b.high
    then (if ltb b.middle a.middle
        then true
        else if a.middle == b.middle
        then ltb b.low a.low
        else false)
    else false

-- `operator<`
unfoldable pub less : KnxAddress → KnxAddress → Bool
unfolding equal greater
less a b = if equal a b then false else greater b a
