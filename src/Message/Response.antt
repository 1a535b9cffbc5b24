-- ===== src/Message/Response.antt =====
-- src/knx/ipreqresp/responses: what the router answers.
pub mod Laws
use libknx.Prelude.{ℕ, List, []}
use libknx.Bytes.Parser.{Endian, Parser, pure, ◌>>=◌}
use libknx.Bytes.Reader.{read_uint8}
use libknx.Bytes.Writer.{Writer, ◌>>◌, write_uint8}
use libknx.Headers.Hpai
use libknx.Headers.Hpai.{Hpai}
use libknx.Headers.ConnectionHeader
use libknx.Headers.ConnectionHeader.{ConnectionHeader}
use libknx.Headers.ConnectionRequest.{ConnectionRequestData, parse_data}
use libknx.Headers.DeviceDib
use libknx.Headers.DeviceDib.{DeviceDib}
use libknx.Headers.ServiceFamilies
use libknx.Headers.ServiceFamilies.{SupportedServiceFamiliesDib}
use libknx.Message.IpHeader

pub record ConnectResponse : Type 0 where
  pub channel_id : ℕ
  pub status : ℕ
  pub data_end_point : Hpai
  pub crd : ConnectionRequestData

pub record ConnectStateResponse : Type 0 where
  pub channel_id : ℕ
  pub status : ℕ

pub record DisconnectResponse : Type 0 where
  pub channel : ℕ
  pub status : ℕ

pub record TunnelAckResponse : Type 0 where
  pub connection_header : ConnectionHeader

pub record SearchResponse : Type 0 where
  pub control_end_point : Hpai
  pub device_dib : DeviceDib
  pub supported_service_families_dib : SupportedServiceFamiliesDib

pub record DescriptionResponse : Type 0 where
  pub device_dib : DeviceDib
  pub supported_service_families_dib : SupportedServiceFamiliesDib

-- `std::variant`, with `monostate` for a message that is none of these.
pub data ResponseVariant : Type 0 where
  monostate : ResponseVariant
  connect : ConnectResponse → ResponseVariant
  connect_state : ConnectStateResponse → ResponseVariant
  tunnel_ack : TunnelAckResponse → ResponseVariant
  search : SearchResponse → ResponseVariant
  disconnect : DisconnectResponse → ResponseVariant
  description : DescriptionResponse → ResponseVariant

abbrev pub tunnel_ack_id : ℕ
tunnel_ack_id = 0x0421

abbrev pub connect_state_id : ℕ
connect_state_id = 0x0208

abbrev pub connect_id : ℕ
connect_id = 0x0206

abbrev pub disconnect_id : ℕ
disconnect_id = 0x020a

abbrev pub search_id : ℕ
search_id = 0x0202

abbrev pub description_id : ℕ
description_id = 0x0204

-- `getServiceType` of the response that the variant holds; 0, which is no service, without one.
unfoldable pub get_service_type : ResponseVariant → ℕ
get_service_type (connect _) = connect_id
get_service_type (connect_state _) = connect_state_id
get_service_type (tunnel_ack _) = tunnel_ack_id
get_service_type (search _) = search_id
get_service_type (disconnect _) = disconnect_id
get_service_type (description _) = description_id
get_service_type monostate = 0

unfoldable pub parse_connect_state : Parser ConnectStateResponse
parse_connect_state = do
  channel_id ← read_uint8
  status ← read_uint8
  pure (record { channel_id = channel_id; status = status })

unfoldable pub parse_disconnect : Parser DisconnectResponse
parse_disconnect = do
  channel ← read_uint8
  status ← read_uint8
  pure (record { channel = channel; status = status })

unfoldable pub write_connect_state : ConnectStateResponse → Writer
write_connect_state r = do write_uint8 r.channel_id; write_uint8 r.status

unfoldable pub write_disconnect : DisconnectResponse → Writer
write_disconnect r = do write_uint8 r.channel; write_uint8 r.status

module _ (native : Endian) where
  unfoldable pub parse_connect : Parser ConnectResponse
  parse_connect = do
    channel_id ← read_uint8
    status ← read_uint8
    data_end_point ← Hpai.parse native
    crd ← parse_data native
    pure (record {
      channel_id = channel_id;
      status = status;
      data_end_point = data_end_point;
      crd = crd;
    })

  -- The connection request data is not written.
  unfoldable pub write_connect : ConnectResponse → Writer
  write_connect r = do
    write_uint8 r.channel_id
    write_uint8 r.status
    Hpai.write native r.data_end_point

  unfoldable pub parse_tunnel_ack : Parser TunnelAckResponse
  parse_tunnel_ack = do
    header ← ConnectionHeader.parse native
    pure (record { connection_header = header })

  unfoldable pub write_tunnel_ack : TunnelAckResponse → Writer
  write_tunnel_ack r = ConnectionHeader.write native r.connection_header

  unfoldable pub parse_search : Parser SearchResponse
  parse_search = do
    control_end_point ← Hpai.parse native
    device_dib ← DeviceDib.parse native
    families ← ServiceFamilies.parse native
    pure (record {
      control_end_point = control_end_point;
      device_dib = device_dib;
      supported_service_families_dib = families;
    })

  unfoldable pub write_search : SearchResponse → Writer
  write_search r = do
    Hpai.write native r.control_end_point
    DeviceDib.write native r.device_dib
    ServiceFamilies.write native r.supported_service_families_dib

  unfoldable pub parse_description : Parser DescriptionResponse
  parse_description = do
    device_dib ← DeviceDib.parse native
    families ← ServiceFamilies.parse native
    pure (record { device_dib = device_dib; supported_service_families_dib = families })

  unfoldable pub write_description : DescriptionResponse → Writer
  write_description r = do
    DeviceDib.write native r.device_dib
    ServiceFamilies.write native r.supported_service_families_dib

  -- The two responses that a client sends: with the header, in a vector of their own.
  unfoldable pub tunnel_ack_to_bytes : TunnelAckResponse → List ℕ
  tunnel_ack_to_bytes r =
      (do IpHeader.write native tunnel_ack_id 10; ConnectionHeader.write native r.connection_header)
        []

  unfoldable pub disconnect_to_bytes : DisconnectResponse → List ℕ
  disconnect_to_bytes r =
      (do IpHeader.write native disconnect_id 8; write_uint8 r.channel; write_uint8 r.status) []
