-- ===== src/Connection/Discovery/Scanning/Started.antt =====
-- How a search begins.
use libknx.Prelude.{[], ℕ, suc, ◌≡◌, refl, ap, ◌∷◌, Bool, true, false}
use libknx.Bytes.Parser.{Endian}
use libknx.Connection.UdpSocket.Reading.{AsioSocket, Socket, start_multicast}
use libknx.Connection.Discovery
use libknx.Connection.Discovery.{
  KnxIp, Search, multicast_address, make_search_request, push_back, do_receive, to_knx_ip,
  on_header,
}
use libknx.Connection.UdpSocket.Reading.{reading}
use libknx.Connection.Discovery.Scanning.{scanning, start_scanning}
use libknx.Connection.Discovery.Scanning.Laws.{IsHearing}

module _ (asio : AsioSocket) (native : Endian) (max_results : ℕ) where
  -- A search whose socket has joined the group and whose request is sent.
  joined-started :
      (s : Socket asio) (x : asio.State × Bool)
      → (reading asio s x).1 ≡ true
      → s.has_handler ≡ true
      → s.waiting ≡ 0
      → IsHearing asio native max_results 1 (scanning asio native true (reading asio s x))
        × ((scanning asio native true (reading asio s x)).search ≡ Discovery.new)
        × ((scanning asio native true (reading asio s x)).written ≡ make_search_request native ∷ [])
        × ((scanning asio native true (reading asio s x)).socket.is_open ≡ true)
  joined-started s (a, true) h set none_waiting =
      ((refl, set, ap (λ n. suc n) none_waiting), refl, refl, refl)
  joined-started s (a, false) h set none_waiting = cc

  pub started :
      (s : Socket asio)
      → (start_multicast asio multicast_address (record s { has_handler = true })).1 ≡ true
      → s.waiting ≡ 0
      → IsHearing asio native max_results 1 (start_scanning asio native true s)
        × ((start_scanning asio native true s).search ≡ Discovery.new)
        × ((start_scanning asio native true s).written ≡ make_search_request native ∷ [])
        × ((start_scanning asio native true s).socket.is_open ≡ true)
  unfolding start_scanning start_multicast
  started s h none_waiting = joined-started (record s { has_handler = true }) _ h refl none_waiting

  pub unsent-started :
      (s : Socket asio) (x : asio.State × Bool)
      → (reading asio s x).1 ≡ true
      → s.has_handler ≡ true
      → s.waiting ≡ 0
      → ((scanning asio native false (reading asio s x)).is_scanning ≡ false)
        × ((scanning asio native false (reading asio s x)).socket.has_handler ≡ true)
        × ((scanning asio native false (reading asio s x)).socket.waiting ≡ 1)
  unsent-started s (a, true) h set none_waiting = (refl, set, ap (λ n. suc n) none_waiting)
  unsent-started s (a, false) h set none_waiting = cc
