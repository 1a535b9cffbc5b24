-- ===== src/Connection/UdpSocket.antt =====
-- src/knx/ip/UdpSocket.cpp: the state that a socket keeps beside the one of asio.
pub mod Reading
pub mod Asio
pub mod Laws
pub mod Tests
pub mod Refinement
use libknx.Prelude.{ℕ, Bool, true, false}

-- The handlers are set by the owner and call it; asio's socket is not part of the model.
pub record UdpSocket : Type 0 where
  pub port : ℕ
  pub is_open : Bool

abbrev pub new : ℕ → UdpSocket
new port = record { port = port; is_open = false }

-- A socket that is open stays as it is.
unfoldable pub start : UdpSocket → UdpSocket
start s = elim s.is_open [ true ↦ s | false ↦ record s { is_open = true } ]

-- `stop` and whether it calls the handler for a closed socket.
unfoldable pub stop : UdpSocket → UdpSocket × Bool
stop s = elim s.is_open [ true ↦ (record s { is_open = false }, true) | false ↦ (s, false) ]
