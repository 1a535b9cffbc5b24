-- ===== src/Message/Request.antt =====
-- src/knx/ipreqresp/requests: what a client asks a router, and what a router asks a client.
pub mod Laws
use libknx.Prelude.{ℕ, ◌+◌, ◌<◌, ◌≡◌, List, [], length, Bool, true, false, if◌then◌else◌, ◌==◌, u16}
use libknx.Bytes.Parser.{Endian, Parser, ByteBufferReader, Result, ok, err, pure, ◌>>=◌}
use libknx.Bytes.Reader.{read_uint8, skip}
use libknx.Bytes.Writer.{Writer, ◌>>◌, write_uint8, write_vector}
use libknx.Headers.IpAddress.{IpAddress}
use libknx.Headers.Hpai
use libknx.Headers.Hpai.{Hpai}
use libknx.Headers.ConnectionHeader
use libknx.Headers.ConnectionHeader.{ConnectionHeader}
use libknx.Headers.ConnectionRequest.{
  ConnectionRequestInformation, parse_information, write_information,
}
use libknx.Cemi.CemiFrame
use libknx.Cemi.CemiFrame.{Cemi}
use libknx.Message.IpHeader
use libknx.Message.Response.{
  ResponseVariant, monostate, connect, connect_state, tunnel_ack, search, disconnect, description,
}

pub record ConnectRequest : Type 0 where
  pub control_end_point : Hpai
  pub data_end_point : Hpai
  pub cri : ConnectionRequestInformation

pub record ConnectStateRequest : Type 0 where
  pub control_end_point : Hpai
  pub channel_id : ℕ

pub record DisconnectRequest : Type 0 where
  pub channel : ℕ
  pub control_endpoint : Hpai

pub record DescriptionRequest : Type 0 where
  pub control_end_point : Hpai

pub record SearchRequest : Type 0 where
  pub hpai_local : Hpai

pub record TunnelRequest : Type 0 where
  pub connection_header : ConnectionHeader
  pub cemi : Cemi

-- `std::variant`, with `monostate` for a message that is none of these.
pub data RequestVariant : Type 0 where
  no_request : RequestVariant
  tunnel_request : TunnelRequest → RequestVariant
  connect_state_request : ConnectStateRequest → RequestVariant
  connect_request : ConnectRequest → RequestVariant
  disconnect_request : DisconnectRequest → RequestVariant
  search_request : SearchRequest → RequestVariant
  description_request : DescriptionRequest → RequestVariant

abbrev pub tunnel_id : ℕ
tunnel_id = 0x0420

abbrev pub connect_state_id : ℕ
connect_state_id = 0x0207

abbrev pub connect_id : ℕ
connect_id = 0x0205

abbrev pub disconnect_id : ℕ
disconnect_id = 0x0209

abbrev pub search_id : ℕ
search_id = 0x0201

abbrev pub description_id : ℕ
description_id = 0x0203

unfoldable pub new_default : SearchRequest
new_default = record { hpai_local = Hpai.new (record { address = (244, 0, 23, 12) }) 5371 Hpai.udp }

abbrev pub left_at :
    {A : Type 0} → ByteBufferReader → Result (A × ByteBufferReader) → Result (A × ByteBufferReader)
left_at r (ok (a, _)) = ok (a, r)
left_at r (err e) = err e

-- A parser that gets a copy of the reader: the caller's reader stays where it is.
unfoldable pub by_value : {A : Type 0} → Parser A → Parser A
by_value p r = left_at r (p r)

module _ (native : Endian) where
  unfoldable pub write_connect : ConnectRequest → Writer
  write_connect q = do
    IpHeader.write native connect_id 26
    Hpai.write native q.control_end_point
    Hpai.write native q.data_end_point
    write_information native q.cri

  unfoldable pub parse_connect : Parser ConnectRequest
  parse_connect = do
    control_end_point ← Hpai.parse native
    data_end_point ← Hpai.parse native
    cri ← parse_information native
    pure (record {
      control_end_point = control_end_point;
      data_end_point = data_end_point;
      cri = cri;
    })

  unfoldable pub write_connect_state : ConnectStateRequest → Writer
  write_connect_state q = do
    IpHeader.write native connect_state_id 16
    write_uint8 q.channel_id
    write_uint8 0x00
    Hpai.write native q.control_end_point

  unfoldable pub parse_connect_state : Parser ConnectStateRequest
  parse_connect_state = do
    channel_id ← read_uint8
    _ ← skip 1
    control_end_point ← Hpai.parse native
    pure (record { control_end_point = control_end_point; channel_id = channel_id })

  unfoldable pub write_disconnect : DisconnectRequest → Writer
  write_disconnect q = do
    IpHeader.write native disconnect_id 16
    write_uint8 q.channel
    write_uint8 0x00
    Hpai.write native q.control_endpoint

  unfoldable pub parse_disconnect : Parser DisconnectRequest
  parse_disconnect = do
    channel ← read_uint8
    _ ← skip 1
    control_endpoint ← Hpai.parse native
    pure (record { channel = channel; control_endpoint = control_endpoint })

  unfoldable pub write_description : DescriptionRequest → Writer
  write_description q = do
    IpHeader.write native description_id 14
    Hpai.write native q.control_end_point

  unfoldable pub parse_description : Parser DescriptionRequest
  parse_description = do
    control_end_point ← Hpai.parse native
    pure (record { control_end_point = control_end_point })

  unfoldable pub write_search : SearchRequest → Writer
  write_search q = do IpHeader.write native search_id 14; Hpai.write native q.hpai_local

  unfoldable pub parse_search : Parser SearchRequest
  parse_search = do hpai_local ← Hpai.parse native; pure (record { hpai_local = hpai_local })

  -- What is written behind the header, in a vector of its own, for its length.
  abbrev pub tunnel_body : TunnelRequest → List ℕ
  tunnel_body q = (do ConnectionHeader.write native q.connection_header; CemiFrame.write q.cemi) []

  unfoldable pub write_tunnel : TunnelRequest → Writer
  write_tunnel q =
      let request_bytes = tunnel_body q in
      do
        IpHeader.write native tunnel_id (u16 (length request_bytes + IpHeader.size_header))
        write_vector request_bytes

  unfoldable pub parse_tunnel : Parser TunnelRequest
  parse_tunnel = do
    connection_header ← ConnectionHeader.parse native
    cemi ← CemiFrame.parse
    pure (record { connection_header = connection_header; cemi = cemi })

  -- `write` of the request that the variant holds; without one nothing is written.
  unfoldable pub write : RequestVariant → Writer
  write (tunnel_request q) = write_tunnel q
  write (connect_state_request q) = write_connect_state q
  write (connect_request q) = write_connect q
  write (disconnect_request q) = write_disconnect q
  write (search_request q) = write_search q
  write (description_request q) = write_description q
  write no_request = write_vector []

-- `getServiceType` of the request that the variant holds; 0, which is no service, without one.
unfoldable pub get_service_type : RequestVariant → ℕ
get_service_type (tunnel_request _) = tunnel_id
get_service_type (connect_state_request _) = connect_state_id
get_service_type (connect_request _) = connect_id
get_service_type (disconnect_request _) = disconnect_id
get_service_type (search_request _) = search_id
get_service_type (description_request _) = description_id
get_service_type no_request = 0

-- An acknowledgement answers a tunnel request of its channel and its sequence number.
unfoldable pub tunnel_matches : TunnelRequest → ResponseVariant → Bool
tunnel_matches q (tunnel_ack a) =
    if a.connection_header.channel == q.connection_header.channel
    then a.connection_header.sequence == q.connection_header.sequence
    else false
tunnel_matches q _ = false

-- `matchesResponse` of the request that the variant holds.
unfoldable pub matches_response : RequestVariant → ResponseVariant → Bool
unfolding tunnel_matches
matches_response (tunnel_request q) r = tunnel_matches q r
matches_response (connect_state_request _) (connect_state _) = true
matches_response (connect_request _) (connect _) = true
matches_response (disconnect_request _) (disconnect _) = true
matches_response (search_request _) (search _) = true
matches_response (description_request _) (description _) = true
matches_response _ _ = false
