-- ===== src/Connection/Tunneling/Run.antt =====
-- A connection among its events, in any order that the environment chooses.
use libknx.Prelude.{ℕ, List, [], ◌∷◌, Bool}
use libknx.Bytes.Parser.{Endian}
use libknx.Headers.IpAddress.{IpAddress}
use libknx.Cemi.CemiFrame.{Cemi}
use libknx.Connection.AsyncMessage.{Waited}
use libknx.Connection.Outcome.{Outcome, done, ◌>>=◌}
use libknx.Connection.Tunneling.State.{Connection, close_for_user, add_listener}
use libknx.Connection.Tunneling.Receive.{on_receive_data}
use libknx.Connection.Tunneling.Calls.{
  on_sent, on_waited, on_check_timer, start_connection, close, describe, send,
}

-- What can happen to a connection: datagrams, completions that its coroutines await, and calls.
pub data Input : Type 0 where
  datagram : List ℕ → Input
  sent : ℕ → Input
  waited : ℕ → Waited → Input
  check_timer : Bool → Input
  call_start call_close call_describe : Input
  call_send : Cemi → Input
  call_add_listener : ℕ → Input

module _ (native : Endian) (make_address_v4 : List ℕ → IpAddress) where
  unfoldable pub step : Input → Connection → Outcome Connection
  step (datagram bytes) c = on_receive_data native bytes c
  step (sent p) c = on_sent native make_address_v4 p c
  step (waited p w) c = on_waited native make_address_v4 p w c
  step (check_timer e) c = done (on_check_timer native e c)
  step call_start c = done (start_connection native c)
  step call_close c = done (close native close_for_user c)
  step call_describe c = done (describe native c)
  step (call_send cemi) c = done (send native cemi c)
  step (call_add_listener l) c = done (add_listener l c)

  unfoldable pub run : List Input → Connection → Outcome Connection
  run [] c = done c
  run (i ∷ is) c = do next ← step i c; run is next
