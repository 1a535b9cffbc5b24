-- ===== src/Message/Response/Laws.antt =====
-- The bodies of the responses on the wire.
use libknx.Prelude.{ℕ, ◌<◌, ◌≡◌, List, [], ◌∷◌, ◌++◌, arith}
use libknx.Bytes.Parser.{Endian}
use libknx.Bytes.Wire.{Reads, Reads-pure, Reads-bind, Reads-uint8, Appends-uint8, Appends-then}
use libknx.Headers.Hpai
use libknx.Headers.Hpai.{hpai_bytes}
use libknx.Headers.KnxAddress.Individual.{IsIndividual}
use libknx.Headers.ConnectionHeader
use libknx.Headers.ConnectionHeader.{header_bytes}
use libknx.Headers.ConnectionRequest
use libknx.Headers.ConnectionRequest.{data_bytes}
use libknx.Message.IpHeader
use libknx.Message.Response.{
  ConnectResponse, ConnectStateResponse, DisconnectResponse, TunnelAckResponse, parse_connect,
  parse_connect_state, parse_disconnect, parse_tunnel_ack, tunnel_ack_to_bytes, disconnect_to_bytes,
}

pub connect_state-Reads :
    (r : ConnectStateResponse) → Reads parse_connect_state (r.channel_id ∷ r.status ∷ []) r
unfolding parse_connect_state
connect_state-Reads r =
    Reads-bind _ (Reads-uint8 r.channel_id) (Reads-bind _ (Reads-uint8 r.status) (Reads-pure _))

pub disconnect-Reads :
    (r : DisconnectResponse) → Reads parse_disconnect (r.channel ∷ r.status ∷ []) r
unfolding parse_disconnect
disconnect-Reads r =
    Reads-bind _ (Reads-uint8 r.channel) (Reads-bind _ (Reads-uint8 r.status) (Reads-pure _))

module _ (native : Endian) where
  abbrev pub connect_bytes : ConnectResponse → List ℕ
  connect_bytes r =
      r.channel_id ∷ r.status ∷ (hpai_bytes native r.data_end_point ++ data_bytes native r.crd)

  pub connect-Reads :
      (r : ConnectResponse)
      → r.data_end_point.port < 65536
      → IsIndividual r.crd.address
      → Reads (parse_connect native) (connect_bytes r) r
  unfolding parse_connect
  connect-Reads r p v = Reads-bind _ (Reads-uint8 r.channel_id) (
      Reads-bind _ (Reads-uint8 r.status) (
        Reads-bind _ (Hpai.parse-Reads native r.data_end_point p)
          (Reads-bind _ (ConnectionRequest.parse_data-Reads native r.crd v) (Reads-pure _))))

  pub tunnel_ack-Reads :
      (r : TunnelAckResponse)
      → Reads (parse_tunnel_ack native) (header_bytes native r.connection_header) r
  unfolding parse_tunnel_ack
  tunnel_ack-Reads r =
      Reads-bind _ (ConnectionHeader.parse-Reads native r.connection_header) (Reads-pure _)

  -- The acknowledgement as it goes out: the announced length is that of the bytes.
  pub tunnel_ack_to_bytes_lem :
      (r : TunnelAckResponse)
      → tunnel_ack_to_bytes native r
        ≡ IpHeader.header_bytes native 0x0421 10 ++ header_bytes native r.connection_header
  unfolding tunnel_ack_to_bytes
  tunnel_ack_to_bytes_lem r =
      (Appends-then (IpHeader.write-Appends native 0x0421 10 (omega arith) (omega arith))
          (ConnectionHeader.write-Appends native r.connection_header)).run
        []

  pub disconnect_to_bytes_lem :
      (r : DisconnectResponse)
      → disconnect_to_bytes native r
        ≡ IpHeader.header_bytes native 0x020a 8 ++ r.channel ∷ r.status ∷ []
  unfolding disconnect_to_bytes
  disconnect_to_bytes_lem r =
      (Appends-then
          (Appends-then (IpHeader.write-Appends native 0x020a 8 (omega arith) (omega arith))
            (Appends-uint8 r.channel))
          (Appends-uint8 r.status)).run
        []
