-- ===== src/Prelude/Word.antt =====
-- Conversions to the unsigned widths, shifts, and the std::byteswap of two and four bytes.
use Prim.Native.Nat.{ℕ, ◌+◌, ◌*◌, ◌/◌, ◌%◌, ◌^◌, ◌<◌}

abbrev pub u8 : ℕ → ℕ
u8 n = n % 2 ^ 8

abbrev pub u16 : ℕ → ℕ
u16 n = n % 2 ^ 16

abbrev pub u32 : ℕ → ℕ
u32 n = n % 2 ^ 32

infixl 68 ◌<<<◌ ◌>>>◌
abbrev pub ◌<<<◌ : ℕ → ℕ → ℕ
x <<< k = x * 2 ^ k

abbrev pub ◌>>>◌ : ℕ → ℕ → ℕ
x >>> k = x / 2 ^ k

abbrev pub byteswap16 : ℕ → ℕ
byteswap16 v = v % 256 * 256 + v / 256 % 256

abbrev pub byteswap32 : ℕ → ℕ
byteswap32 v =
    v % 256 * 16777216 + v / 256 % 256 * 65536 + v / 65536 % 256 * 256 + v / 16777216 % 256

abbrev pub IsByte : ℕ → Type 0
IsByte b = b < 256
