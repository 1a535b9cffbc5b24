-- ===== src/Headers/IpAddress.antt =====
-- src/knx/headers/IpAddress.cpp: the four bytes of an IPv4 address.
use libknx.Prelude.{ℕ, ◌+◌, ◌/◌, ◌%◌, List, [], ◌∷◌, ◌++◌, ltb, if◌then◌else◌}
use libknx.Bytes.Parser.{Parser, pure, ◌>>=◌}
use libknx.Bytes.Reader.{get_4_bytes_copy}
use libknx.Bytes.Writer.{Writer, write_byte_span}
use libknx.Bytes.Wire.{Reads, Appends, Reads-pure, Reads-bind, Appends-span}
use libknx.Bytes.Values.{Reads-4_bytes}

-- `std::array<std::uint8_t, 4>`
pub record IpAddress : Type 0 where
  pub address : ℕ × ℕ × ℕ × ℕ

unfoldable pub parse : Parser IpAddress
parse = do address ← get_4_bytes_copy; pure (record { address = address })

abbrev pub address_bytes : IpAddress → List ℕ
address_bytes ip = ip.address.0 ∷ ip.address.1 ∷ ip.address.2 ∷ ip.address.3 ∷ []

-- A byte in decimal digits, as `std::format` writes it.
unfoldable pub decimal : ℕ → List ℕ
decimal n =
    if ltb n 10
    then (48 + n) ∷ []
    else if ltb n 100
    then (48 + n / 10) ∷ (48 + n % 10) ∷ []
    else (48 + n / 100) ∷ (48 + n / 10 % 10) ∷ (48 + n % 10) ∷ []

-- The bytes with dots between them.
unfoldable pub as_string : IpAddress → List ℕ
unfolding decimal
as_string ip =
    decimal ip.address.0
    ++ 46 ∷ (decimal ip.address.1 ++ 46 ∷ (decimal ip.address.2 ++ 46 ∷ decimal ip.address.3))

unfoldable pub write : IpAddress → Writer
write ip = write_byte_span (address_bytes ip)

pub write-Appends : (ip : IpAddress) → Appends (write ip) (address_bytes ip)
unfolding write
write-Appends ip = Appends-span _

pub parse-Reads : (ip : IpAddress) → Reads parse (address_bytes ip) ip
unfolding parse
parse-Reads ip = Reads-bind _ (Reads-4_bytes _ _ _ _) (Reads-pure _)
