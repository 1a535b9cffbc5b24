-- ===== src/Connection/Tunneling/Receive.antt =====
-- `onReceiveData` and its handlers: what a datagram does.
use libknx.Prelude.{ℕ, List, [], ◌∷◌, if◌then◌else◌, ◌==◌}
use libknx.Bytes.Parser.{Endian, ByteBufferReader, Result, ok, err}
use libknx.Message.IpHeader
use libknx.Message.IpHeader.{KnxIpHeader}
use libknx.Message.Request.{
  RequestVariant, TunnelRequest, DisconnectRequest, tunnel_request, disconnect_request,
  matches_response,
}
use libknx.Message.Response.{ResponseVariant, tunnel_ack_to_bytes, disconnect_to_bytes}
use libknx.Message.Factory.{
  MessageType, request, response, unknown, get_type, parse_request, parse_response,
}
use libknx.Connection.AsyncMessage
use libknx.Connection.AsyncMessage.{set_response}
use libknx.Connection.Outcome.{Outcome, done, failed, malformed}
use libknx.Connection.Tunneling.State.{
  Item, Connection, control_written, on_disconnect, on_incoming_cemi, for_every_listener, act,
}
use libknx.Connection.Tunneling.Close.{reset}

-- The loop over `sendItems`: the first item whose request matches gets the response.
unfoldable pub deliver : ResponseVariant → List Item → List Item
deliver r [] = []
deliver r (i ∷ is) =
    let rest = deliver r is in
    if matches_response i.request r
    then record i { message = AsyncMessage.step i.message (set_response r) } ∷ is
    else i ∷ rest

-- A parsed message is handled; a fault of the parser ends the handler.
abbrev pub parsed :
    {A : Type 0} → (A → Connection) → Result (A × ByteBufferReader) → Outcome Connection
parsed k (ok (a, _)) = done (k a)
parsed k (err f) = failed (malformed f)

abbrev pub answered_with : Connection → ResponseVariant → Connection
answered_with c r = record c { send_items = deliver r c.send_items }

module _ (native : Endian) where
  unfoldable pub on_receive_tunnel_request : TunnelRequest → Connection → Connection
  on_receive_tunnel_request q c =
      let ack = tunnel_ack_to_bytes native (record { connection_header = q.connection_header }) in
      for_every_listener (on_incoming_cemi q.cemi)
        (act (control_written c.remote_control_end_point ack ∷ []) c)

  -- `DisconnectResponse` with the status 0.
  unfoldable pub on_receive_disconnect_request : DisconnectRequest → Connection → Connection
  on_receive_disconnect_request q c =
      let answer = disconnect_to_bytes native (record { channel = c.channel_id; status = 0 }) in
      if q.channel == c.channel_id
      then for_every_listener on_disconnect
          (reset (act (control_written c.remote_control_end_point answer ∷ []) c))
      else c

  -- The `std::visit` on the request; the other requests are only printed.
  unfoldable pub on_receive_request : RequestVariant → Connection → Connection
  on_receive_request (tunnel_request q) c = on_receive_tunnel_request q c
  on_receive_request (disconnect_request q) c = on_receive_disconnect_request q c
  on_receive_request _ c = c

  -- By the type of the header; a message of no known type is passed over.
  unfoldable pub on_message :
      Connection → MessageType → KnxIpHeader → ByteBufferReader → Outcome Connection
  on_message c unknown header reader = done c
  on_message c response header reader =
      parsed (answered_with c) (parse_response native header reader)
  on_message c request header reader =
      parsed (λ q. on_receive_request q c) (parse_request native header reader)

  unfoldable pub on_header :
      Connection → Result (KnxIpHeader × ByteBufferReader) → Outcome Connection
  on_header c (ok (header, reader)) = on_message c (get_type header) header reader
  on_header c (err f) = failed (malformed f)

  unfoldable pub on_receive_data : List ℕ → Connection → Outcome Connection
  unfolding on_header
  on_receive_data bytes c =
      on_header c (IpHeader.parse native (record { bytes = bytes; index = 0 }))
