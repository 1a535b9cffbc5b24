-- ===== src/Message/Factory/Answers.antt =====
-- Which response answers which request.
use libknx.Prelude.{suc, ◌≡◌, ◌↔◌, true, arith}
use libknx.Message.Request
use libknx.Message.Request.{
  RequestVariant, no_request, tunnel_request, connect_state_request, connect_request,
  disconnect_request, search_request, description_request, matches_response, tunnel_matches,
}
use libknx.Message.Response
use libknx.Message.Response.{
  ResponseVariant, monostate, connect, connect_state, tunnel_ack, search, disconnect, description,
}

-- An acknowledgement of the same channel and sequence number.
abbrev pub SameTunnel : RequestVariant → ResponseVariant → Type 0
SameTunnel (tunnel_request q) (tunnel_ack a) =
    (a.connection_header.channel ≡ q.connection_header.channel)
    × (a.connection_header.sequence ≡ q.connection_header.sequence)
SameTunnel _ _ = Unit

-- `matches_response` accepts exactly the responses whose service type follows that of the request,
-- and of these, for a tunnel request, those of the same channel and sequence number.
pub matches_response_iff :
    (q : RequestVariant) (r : ResponseVariant)
    → (matches_response q r ≡ true)
      ↔ ((Response.get_service_type r ≡ suc (Request.get_service_type q)) × SameTunnel q r)
unfolding matches_response tunnel_matches Response.get_service_type Request.get_service_type
matches_response_iff (tunnel_request q) (tunnel_ack a) = ground arith
matches_response_iff no_request r = elim r [
  | monostate ↦ ground arith
  | connect x ↦ ground arith
  | connect_state x ↦ ground arith
  | tunnel_ack x ↦ ground arith
  | search x ↦ ground arith
  | disconnect x ↦ ground arith
  | description x ↦ ground arith
]
matches_response_iff (description_request q) (description x) = ground arith
matches_response_iff q r = ground arith
