-- ===== src/Connection/UdpSocket/Reading.antt =====
-- src/knx/ip/UdpSocket.cpp: the whole socket, with the coroutine that reads it. asio's socket is a
-- parameter; what a read completes with is an event.
use libknx.Prelude.{
  ℕ, suc, ◌-◌, List, [], ◌∷◌, ◌++◌, Bool, true, false, not, ◌&&◌, if◌then◌else◌, ltb, length,
}
use libknx.Headers.IpAddress.{IpAddress}

-- The operations of `asio::ip::udp::socket` that are called. A false flag is a `std::system_error`.
pub record AsioSocket : Type 1 where
  pub State : Type 0
  pub open_protocol : State → State × Bool
  pub reuse_address : State → State × Bool
  pub bind : ℕ → State → State × Bool
  pub join_group : IpAddress → State → State × Bool
  pub release : State → State

-- What a pending `async_receive_from` completes with.
pub data Completion : Type 0 where
  aborted : Completion
  failed : Completion
  received : List ℕ → Completion

-- The functions of the owner that are called.
pub data Call : Type 0 where
  handler : List ℕ → Call
  on_socket_closed : Call

pub record ReadingSocket (A : Type 0) : Type 0 where
  pub port : ℕ
  pub is_open : Bool
  pub has_handler : Bool
  pub has_closed_handler : Bool
  pub socket : A
  -- How many coroutines wait for a datagram.
  pub waiting : ℕ

-- What the owner and the event loop do with a socket.
pub data Input : Type 0 where
  call_start : Input
  call_start_multicast : IpAddress → Input
  call_stop : Bool → Input
  call_set_handler : Bool → Input
  call_set_connection_closed_handler : Bool → Input
  completed : Completion → Input

module _ (asio : AsioSocket) where
  abbrev pub Socket : Type 0
  Socket = ReadingSocket asio.State

  -- A call, where the ones before it have not thrown.
  abbrev pub then_call : (asio.State → asio.State × Bool) → asio.State × Bool → asio.State × Bool
  then_call f (a, true) = f a
  then_call f (a, false) = (a, false)

  abbrev pub prepared : ℕ → asio.State → asio.State × Bool
  prepared port a = then_call (asio.bind port) (then_call asio.reuse_address (asio.open_protocol a))

  -- `co_spawn(ctx, readIncoming(), asio::detached); open = true;`
  abbrev pub reading : Socket → asio.State × Bool → Socket × Bool
  reading s (a, true) = (record s { socket = a; is_open = true; waiting = suc s.waiting }, true)
  reading s (a, false) = (record s { socket = a }, false)

  -- A false flag is the exception of a call of asio.
  unfoldable pub start_multicast : IpAddress → Socket → Socket × Bool
  start_multicast address s =
      reading s (then_call (asio.join_group address) (prepared s.port s.socket))

  unfoldable pub start : Socket → Socket × Bool
  start s = if s.is_open then (s, true) else reading s (prepared s.port s.socket)

  abbrev pub closed_calls : Bool → List Call
  closed_calls is_set = if is_set then on_socket_closed ∷ [] else []

  unfoldable pub stop : Bool → Socket → Socket × List Call
  stop reset_handler s =
      if s.is_open
      then (
        record s {
          is_open = false;
          has_handler = s.has_handler && not reset_handler;
          socket = asio.release s.socket;
        },
        closed_calls s.has_closed_handler,
      )
      else (s, [])

  abbrev pub handled : Bool → List ℕ → List Call
  handled is_set bytes = if ltb 0 (length bytes) && is_set then handler bytes ∷ [] else []

  abbrev pub finished : Socket → Socket
  finished s = record s { waiting = s.waiting - 1 }

  -- One round of `readIncoming`, which waits again after a datagram.
  unfoldable pub read_incoming : Completion → Socket → Socket × List Call
  read_incoming aborted s = (finished s, [])
  read_incoming failed s = (record (finished s) { is_open = false }, [])
  read_incoming (received bytes) s = (s, handled s.has_handler bytes)

  -- The callback of `receiveSome`.
  unfoldable pub receive_some : Completion → Socket → Socket × List Call
  receive_some aborted s = (finished s, [])
  receive_some failed s = stop false (finished s)
  receive_some (received bytes) s = (s, handled s.has_handler bytes)

  unfoldable pub step : Input → Socket → Socket × List Call
  step call_start s = ((start s).0, [])
  step (call_start_multicast address) s = ((start_multicast address s).0, [])
  step (call_stop reset_handler) s = stop reset_handler s
  step (call_set_handler is_set) s = (record s { has_handler = is_set }, [])
  step (call_set_connection_closed_handler is_set) s =
      (record s { has_closed_handler = is_set }, [])
  step (completed c) s = read_incoming c s

  abbrev pub and_then : List Call → Socket × List Call → Socket × List Call
  and_then calls (s, more) = (s, calls ++ more)

  unfoldable pub run : List Input → Socket → Socket × List Call
  run [] s = (s, [])
  run (i ∷ is) s = let (t, calls) = step i s in and_then calls (run is t)
