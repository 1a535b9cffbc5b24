-- ===== src/Connection/Tunneling/Close.antt =====
-- `reset`, `closeWithoutDisconnect` and `close`.
use libknx.Prelude.{ℕ, zero, suc, [], true, false}
use libknx.Bytes.Parser.{Endian}
use libknx.Message.Request.{disconnect_request}
use libknx.Connection.UdpSocket
use libknx.Connection.Tunneling.State.{
  Connection, Caller, no_address, on_disconnect, for_every_listener, create_control_hpai,
}
use libknx.Connection.Tunneling.Requests.{send_request}

-- The items are cancelled and then destroyed, which leaves no trace of the cancellation; the
-- cancelled timer of `checkConnection` completes with an error, which is an event.
unfoldable pub reset : Connection → Connection
reset c = record c { send_items = []; sequence = 0; knx_address = no_address }

-- A socket that is stopped calls `onControlSocketClosed` or `onDataSocketClosed`, which call
-- `closeWithoutDisconnect` again. The fuel is the depth of these calls.
unfoldable pub close_nested : ℕ → Connection → Connection
unfolding reset for_every_listener UdpSocket.stop
close_nested zero c = c
close_nested (suc depth) c =
    let c1 = reset c in
    let control = UdpSocket.stop c1.control_socket in
    let c2 = record c1 { control_socket = control.0 } in
    let c3 : Connection = elim control.1 [ true ↦ close_nested depth c2 | false ↦ c2 ] in
    let socket = UdpSocket.stop c3.data_socket in
    let c4 = record c3 { data_socket = socket.0 } in
    let c5 : Connection = elim socket.1 [ true ↦ close_nested depth c4 | false ↦ c4 ] in
    for_every_listener on_disconnect c5

-- Two sockets can be stopped, so three calls are the most that are nested.
unfoldable pub close_without_disconnect : Connection → Connection
close_without_disconnect c = close_nested 3 c

module _ (native : Endian) where
  -- The part of `close` behind the test of `closingDown`, up to where it waits.
  unfoldable pub begin_close : Caller → Connection → Connection
  begin_close caller c =
      let closing = record c { closing_down = true } in
      let request =
        disconnect_request
          (record { channel = c.channel_id; control_endpoint = create_control_hpai closing }) in
      send_request native request caller closing
