-- ===== src/Connection/Discovery/Scanning.antt =====
-- src/knx/connection/Discovery.cpp: `lookAround(int)` over time, with the socket and its reader. The
-- timer is asio's: that it ends, and whether waiting for it throws, are given.
pub mod Laws
pub mod Started
pub mod Endings
use libknx.Prelude.{ℕ, ◌+◌, ◌-◌, List, [], ◌∷◌, Bool, true, false, not, ◌&&◌, if◌then◌else◌, ◌==◌}
use libknx.Bytes.Parser.{Endian, Result, ok, err}
use libknx.Connection.Outcome.{Outcome, done, failed, use_after_free, ◌>>=◌}
use libknx.Connection.UdpSocket.Reading.{
  AsioSocket, ReadingSocket, Socket, Completion, aborted, received, Call, handler, on_socket_closed,
  finished, read_incoming, start_multicast, stop,
}
use libknx.Connection.Discovery
use libknx.Connection.Discovery.{
  Search, multicast_address, push_back, do_receive, make_search_request,
}

-- How the wait for the timer ends.
pub data Wait : Type 0 where
  expired cancelled : Wait

-- A search, and whether the coroutine `startScanning`, which holds the callback, still exists.
pub record Scanning (A : Type 0) : Type 0 where
  pub socket : ReadingSocket A
  pub search : Search
  pub is_scanning : Bool
  -- The datagrams that were sent.
  pub written : List (List ℕ)

module _ (asio : AsioSocket) where
  -- `writeToSync` has thrown where `is_sent` is false. That ends the coroutine; the socket goes on.
  abbrev pub scanning : Endian → Bool → Socket asio × Bool → Scanning asio.State
  scanning native is_sent (s, is_started) = record {
    socket = s;
    search = Discovery.new;
    is_scanning = is_started && is_sent;
    written = if is_started && is_sent then make_search_request native ∷ [] else [];
  }

  -- `startScanning` up to its wait. An exception of the socket ends the coroutine.
  unfoldable pub start_scanning : Endian → Bool → Socket asio → Scanning asio.State
  start_scanning native is_sent s =
      scanning native is_sent
        (start_multicast asio multicast_address (record s { has_handler = true }))

  -- An exception of the callback ends the coroutine that reads.
  abbrev pub called_back : Scanning asio.State → Result Search → Outcome (Scanning asio.State)
  called_back s (ok search) = done (record s { search = search })
  called_back s (err f) = done (record s { socket = finished asio s.socket })

  module _ (native : Endian) (max_results : ℕ) where
    -- The handler refers to the callback of the coroutine.
    abbrev pub on_data : List ℕ → Scanning asio.State → Outcome (Scanning asio.State)
    on_data bytes s =
        if s.is_scanning
        then called_back s (do_receive native bytes (push_back max_results) s.search)
        else failed use_after_free

    abbrev pub on_calls : List Call → Scanning asio.State → Outcome (Scanning asio.State)
    on_calls [] s = done s
    on_calls (handler bytes ∷ calls) s = on_data bytes s >>= λ t. on_calls calls t
    on_calls (on_socket_closed ∷ calls) s = on_calls calls s

    abbrev pub with_calls :
        Scanning asio.State → Socket asio × List Call → Outcome (Scanning asio.State)
    with_calls s (t, calls) = on_calls calls (record s { socket = t })

    -- A read completes, where one waits.
    unfoldable pub complete : Completion → Scanning asio.State → Outcome (Scanning asio.State)
    complete c s =
        if s.socket.waiting == 0 then done s else with_calls s (read_incoming asio c s.socket)

    unfoldable pub arrive : List (List ℕ) → Scanning asio.State → Outcome (Scanning asio.State)
    arrive [] s = done s
    arrive (bytes ∷ rest) s = complete (received bytes) s >>= λ t. arrive rest t

  -- The rest of `startScanning`, unless the wait has thrown.
  abbrev pub behind_wait : (Wait → Bool) → Wait → Scanning asio.State → Scanning asio.State
  behind_wait throws w s =
      if throws w
      then record s { is_scanning = false }
      else record s { is_scanning = false; socket = (stop asio false s.socket).0 }

  -- Only the callback cancels the timer, which may have expired before that.
  unfoldable pub end_wait : (Wait → Bool) → Wait → Scanning asio.State → Scanning asio.State
  end_wait throws expired s = behind_wait throws expired s
  end_wait throws cancelled s = if s.search.cancelled then behind_wait throws cancelled s else s

-- `ctx.run()` returns when nothing waits any more.
abbrev pub is_done : {A : Type 0} → Scanning A → Bool
is_done s = not s.is_scanning && (s.socket.waiting == 0)
