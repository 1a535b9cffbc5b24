-- ===== src/Prelude/Bits.antt =====
-- `|` of disjoint fields and `&` with a mask of low bits, read as arithmetic at every width.
use Prim.Native.Nat.{
  ℕ, zero, suc, ◌+◌, ◌*◌, ◌/◌, ◌%◌, ◌^◌, ◌-◌, ◌≤◌, ◌<◌, min, max, bit_and, bit_or, digits,
  bit_and-bitwise, bit_or-bitwise,
}
use mathlib.Core.Path.{◌≡◌, refl, ap}
use native.Mathlib.Nat.{pow-suc, one-le-pow}
use native.Mathlib.Omega.{arith}

-- The recursion on binary digits gives one result on any fuel that covers its first number.
digits_enough :
    (z : ℕ → ℕ) (f : ℕ → ℕ → ℕ) (a b n m : ℕ) → a ≤ n → a ≤ m → digits z f n a b ≡ digits z f m a b
digits_enough z f zero b zero zero h k = refl
digits_enough z f zero b zero (suc m) h k = refl
digits_enough z f zero b (suc n) zero h k = refl
digits_enough z f zero b (suc n) (suc m) h k = refl
digits_enough z f (suc a) b zero m h k = absurd (omega arith)
digits_enough z f (suc a) b (suc n) zero h k = absurd (omega arith)
digits_enough z f (suc a) b (suc n) (suc m) h k =
    rw (digits_enough z f (suc a / 2) (b / 2) n m (omega arith) (omega arith))

and_digit : (a b : ℕ) → bit_and a b ≡ bit_and (a / 2) (b / 2) * 2 + min (a % 2) (b % 2)
and_digit zero b = simp bit_and-bitwise (omega arith)
and_digit (suc a) b = simp bit_and-bitwise (
    omega (
      arith,
      digits_enough (λ y. 0) min (suc a / 2) (b / 2) a (suc a / 2) (omega arith) (omega arith),
    ))

or_digit : (a b : ℕ) → bit_or a b ≡ bit_or (a / 2) (b / 2) * 2 + max (a % 2) (b % 2)
or_digit zero b = simp bit_or-bitwise (omega arith)
or_digit (suc a) b = simp bit_or-bitwise (
    omega (
      arith,
      digits_enough (λ y. y) max (suc a / 2) (b / 2) a (suc a / 2) (omega arith) (omega arith),
    ))

and_nothing : (n a : ℕ) → a ≤ n → bit_and a 0 ≡ 0
and_nothing n zero h = refl
and_nothing zero (suc a) h = absurd (omega arith)
and_nothing (suc n) (suc a) h =
    omega (arith, and_digit (suc a) 0, and_nothing n (suc a / 2) (omega arith))

or_nothing : (n a : ℕ) → a ≤ n → bit_or a 0 ≡ a
or_nothing n zero h = refl
or_nothing zero (suc a) h = absurd (omega arith)
or_nothing (suc n) (suc a) h =
    omega (arith, or_digit (suc a) 0, or_nothing n (suc a / 2) (omega arith))

bit_and_low : (k hi lo : ℕ) → lo < 2 ^ k → bit_and (hi * 2 ^ k + lo) (2 ^ k - 1) ≡ lo
bit_and_low zero hi lo h = ground (arith, and_nothing (hi * 2 ^ 0 + lo) (hi * 2 ^ 0 + lo))
bit_and_low (suc k) hi lo h = ground (
  arith,
  and_digit (hi * 2 ^ suc k + lo) (2 ^ suc k - 1),
  pow-suc 2 k,
  one-le-pow k 2,
  ap (λ (t : ℕ). hi * t) (pow-suc 2 k),
  bit_and_low k hi (lo / 2),
)

pub bit_and-mask : (k a : ℕ) → bit_and a (2 ^ k - 1) ≡ a % 2 ^ k
bit_and-mask k a = ground (arith, one-le-pow k 2, bit_and_low k (a / 2 ^ k) (a % 2 ^ k))

pub bit_or-disjoint : (k hi lo : ℕ) → lo < 2 ^ k → bit_or (hi * 2 ^ k) lo ≡ hi * 2 ^ k + lo
bit_or-disjoint zero hi lo h = ground (arith, or_nothing hi hi)
bit_or-disjoint (suc k) hi lo h = ground (
  arith,
  or_digit (hi * 2 ^ suc k) lo,
  pow-suc 2 k,
  ap (λ (t : ℕ). hi * t) (pow-suc 2 k),
  bit_or-disjoint k hi (lo / 2),
)

pub bit_and-byte : (a : ℕ) → bit_and a 0xff ≡ a % 256
bit_and-byte a = bit_and-mask 8 a

pub bit_or-byte : (hi lo : ℕ) → lo < 256 → bit_or (hi * 256) lo ≡ hi * 256 + lo
bit_or-byte hi lo h = bit_or-disjoint 8 hi lo h

nothing_or : (b : ℕ) → bit_or 0 b ≡ b
nothing_or b = simp bit_or-bitwise

-- The same with the low bits first.
pub bit_or-above : (k hi lo : ℕ) → lo < 2 ^ k → bit_or lo (hi * 2 ^ k) ≡ lo + hi * 2 ^ k
bit_or-above zero hi zero h = omega (arith, nothing_or (hi * 2 ^ 0))
bit_or-above zero hi (suc lo) h = absurd (omega (arith, h))
bit_or-above (suc k) hi lo h = ground (
  arith,
  or_digit lo (hi * 2 ^ suc k),
  pow-suc 2 k,
  ap (λ (t : ℕ). hi * t) (pow-suc 2 k),
  bit_or-above k hi (lo / 2),
)
