-- ===== src/Message/Factory.antt =====
-- src/knx/ipreqresp/RequestResponseFactory.cpp: from the service type of a header to the message.
pub mod Laws
pub mod Types
pub mod Answers
use libknx.Prelude.{ℕ, if◌then◌else◌, ◌==◌}
use libknx.Bytes.Parser.{Endian, Parser, pure, ◌>>=◌}
use libknx.Message.IpHeader
use libknx.Message.IpHeader.{KnxIpHeader}
use libknx.Message.Request
use libknx.Message.Request.{
  RequestVariant, no_request, tunnel_request, connect_state_request, connect_request,
  disconnect_request, search_request, description_request, by_value,
}
use libknx.Message.Response
use libknx.Message.Response.{
  ResponseVariant, monostate, connect, connect_state, tunnel_ack, search, disconnect, description,
}

pub data MessageType : Type 0 where
  request response unknown : MessageType

-- A parsed message as an alternative of a variant.
unfoldable pub alternative : {A B : Type 0} → (A → B) → Parser A → Parser B
alternative f p = do a ← p; pure (f a)

unfoldable pub get_type : KnxIpHeader → MessageType
get_type h =
    let id = h.service_type in
    if id == Request.tunnel_id
    then request
    else if id == Request.connect_state_id
    then request
    else if id == Request.connect_id
    then request
    else if id == Request.disconnect_id
    then request
    else if id == Request.search_id
    then request
    else if id == Request.description_id
    then request
    else if id == Response.tunnel_ack_id
    then response
    else if id == Response.connect_state_id
    then response
    else if id == Response.connect_id
    then response
    else if id == Response.disconnect_id
    then response
    else if id == Response.search_id
    then response
    else if id == Response.description_id
    then response
    else unknown

module _ (native : Endian) where
  unfoldable pub parse_response : KnxIpHeader → Parser ResponseVariant
  parse_response h =
      let id = h.service_type in
      if id == Response.tunnel_ack_id
      then alternative tunnel_ack (Response.parse_tunnel_ack native)
      else if id == Response.connect_state_id
      then alternative connect_state Response.parse_connect_state
      else if id == Response.connect_id
      then alternative connect (Response.parse_connect native)
      else if id == Response.disconnect_id
      then alternative disconnect Response.parse_disconnect
      else if id == Response.search_id
      then alternative search (Response.parse_search native)
      else if id == Response.description_id
      then alternative description (Response.parse_description native)
      else pure monostate

  unfoldable pub parse_request : KnxIpHeader → Parser RequestVariant
  parse_request h =
      let id = h.service_type in
      if id == Request.tunnel_id
      then alternative tunnel_request (Request.parse_tunnel native)
      else if id == Request.connect_state_id
      then alternative connect_state_request (by_value (Request.parse_connect_state native))
      else if id == Request.connect_id
      then alternative connect_request (by_value (Request.parse_connect native))
      else if id == Request.disconnect_id
      then alternative disconnect_request (Request.parse_disconnect native)
      else if id == Request.search_id
      then alternative search_request (Request.parse_search native)
      else if id == Request.description_id
      then alternative description_request (Request.parse_description native)
      else pure no_request

  -- The header and then the request, as a connection reads a datagram.
  unfoldable pub receive_request : Parser RequestVariant
  receive_request = do header ← IpHeader.parse native; parse_request header

  unfoldable pub receive_response : Parser ResponseVariant
  receive_response = do header ← IpHeader.parse native; parse_response header
