-- ===== src/Connection/Tunneling/Laws/Receive.antt =====
-- What the datagrams of a router do to a connection.
use libknx.Prelude.{
  ℕ, ◌+◌, ◌≡◌, refl, ap, ◌∙◌, List, [], ◌∷◌, ◌++◌, map, arith, append_assoc, length, length-append,
  if◌then◌else◌, ◌==◌,
}
use libknx.Bytes.Parser.{Endian, ByteBufferReader, Result, ok, err}
use libknx.Cemi.CemiFrame.Laws.{received_cemi}
use libknx.Message.IpHeader
use libknx.Message.Request
use libknx.Message.Request.{
  RequestVariant, TunnelRequest, DisconnectRequest, no_request, tunnel_request, connect_request,
  connect_state_request, disconnect_request, search_request, description_request, matches_response,
  get_service_type,
}
use libknx.Message.Request.Laws as Requests
use libknx.Message.Request.Laws.{
  IsRequest, IsTunnel, IsEndpoint, body, received_request, request_bytes, announced,
}
use libknx.Message.Response.{
  TunnelAckResponse, tunnel_ack, tunnel_ack_to_bytes, disconnect_to_bytes,
}
use libknx.Message.Factory.{request, response, get_type, parse_request, parse_response}
use libknx.Message.Factory.Laws.{value, parse_request-Gives, alternative-Reads}
use libknx.Headers.ConnectionHeader.{header_bytes}
use libknx.Message.Response.Laws.{tunnel_ack-Reads, tunnel_ack_to_bytes_lem}
use libknx.Connection.Outcome.{done}
use libknx.Connection.Tunneling.State.{
  Connection, control_written, told, on_disconnect, on_incoming_cemi, for_every_listener,
  no_address,
}
use libknx.Connection.Tunneling.Close.{reset}
use libknx.Connection.Tunneling.Receive.{
  deliver, on_receive_data, on_header, on_message, parsed, answered_with, on_receive_request,
  on_receive_tunnel_request, on_receive_disconnect_request,
}

-- The handler sees the value, wherever the reader stopped.
parsed_lem :
    {A : Type 0} (k : A → Connection) (x : Result (A × ByteBufferReader)) {a : A}
    → value x ≡ ok a
    → parsed k x ≡ done (k a)
parsed_lem k (ok (q, _)) e = cc e
parsed_lem k (err f) e = cc e

module _ (native : Endian) where
  get_type-announced :
      (q : RequestVariant) (v : IsRequest native q) → get_type (announced native q v) ≡ request
  unfolding get_type get_service_type
  get_type-announced (tunnel_request q) v = refl
  get_type-announced (connect_request q) v = refl
  get_type-announced (connect_state_request q) v = refl
  get_type-announced (disconnect_request q) v = refl
  get_type-announced (search_request q) v = refl
  get_type-announced (description_request q) v = refl
  get_type-announced no_request v = absurd (omega (arith, v))

  -- The reader at the start of a request and at its body.
  abbrev before : (q : RequestVariant) → IsRequest native q → List ℕ → ByteBufferReader
  before q v rest = record { bytes = request_bytes native q v ++ rest; index = 0 }

  header_read :
      (q : RequestVariant) (v : IsRequest native q) (rest : List ℕ)
      → IpHeader.parse native (before q v rest)
        ≡ ok (announced native q v, record { bytes = request_bytes native q v ++ rest; index = 6 })
  header_read q v rest =
      (Requests.header-Reads native q v).run (before q v rest) (body native q v ++ rest)
        (omega arith)
        (append_assoc
          (IpHeader.header_bytes native (get_service_type q) (6 + length (body native q v)))
          (body native q v) rest)

  body_read :
      (q : RequestVariant) (v : IsRequest native q) (rest : List ℕ)
      → value (
          parse_request native
            (announced native q v)
            (record { bytes = request_bytes native q v ++ rest; index = 6 }))
        ≡ ok (received_request native q)
  body_read q v rest =
      (parse_request-Gives native q v _).run
        (record { bytes = request_bytes native q v ++ rest; index = 6 }) rest
        (omega (arith, length-append (request_bytes native q v) rest)) refl

  -- A datagram that starts with a request within its widths is handled as what its receiver sees.
  pub on_receive_data-request :
      (q : RequestVariant)
      → IsRequest native q
      → (rest : List ℕ) (c : Connection)
      → on_receive_data native (Request.write native q [] ++ rest) c
        ≡ done (on_receive_request native (received_request native q) c)
  unfolding on_receive_data on_header on_message
  on_receive_data-request q v rest c = rw ((Requests.write-Appends native q v).run []) (
      ap (on_header native c) (header_read q v rest)
      ∙ (ap
            (λ t.
              on_message native c t (announced native q v)
                (record { bytes = request_bytes native q v ++ rest; index = 6 }))
            (get_type-announced q v)
          ∙ parsed_lem (λ q. on_receive_request native q c) _ (body_read q v rest)))

  -- A tunnel request within its widths is answered with one acknowledgement of its connection
  -- header, sent to the router's control end point; then every listener gets the frame, in the
  -- order of their registration. Nothing else changes; channel and sequence number are not compared.
  pub on_receive_data-tunnel_request :
      (q : TunnelRequest)
      → IsTunnel native q
      → (rest : List ℕ) (c : Connection)
      → on_receive_data native (Request.write native (tunnel_request q) [] ++ rest) c
        ≡ done (record c {
          actions =
              c.actions
              ++ (control_written c.remote_control_end_point (
                    tunnel_ack_to_bytes native (record { connection_header = q.connection_header }))
                  ∷ map
                      (λ l. told l (on_incoming_cemi (received_cemi q.cemi)))
                      c.connection_listeners);
        })
  unfolding on_receive_request on_receive_tunnel_request for_every_listener
  on_receive_data-tunnel_request q v rest c =
      on_receive_data-request (tunnel_request q) v rest c
      ∙ ap (λ a. done (record c { actions = a })) (append_assoc c.actions (_ ∷ []) _)

  -- A disconnect request for another channel changes nothing. One for the connection's own channel
  -- is answered, destroys the items, clears address and sequence number, and tells every listener.
  pub on_receive_data-disconnect_request :
      (q : DisconnectRequest)
      → IsEndpoint q.control_endpoint
      → (rest : List ℕ) (c : Connection)
      → on_receive_data native (Request.write native (disconnect_request q) [] ++ rest) c
        ≡ done (
            if q.channel == c.channel_id
            then record c {
              send_items = [];
              sequence = 0;
              knx_address = no_address;
              actions =
                  c.actions
                  ++ (control_written c.remote_control_end_point
                        (disconnect_to_bytes native (record { channel = c.channel_id; status = 0 }))
                      ∷ map (λ l. told l on_disconnect) c.connection_listeners);
            }
            else c)
  unfolding on_receive_request on_receive_disconnect_request for_every_listener reset
  on_receive_data-disconnect_request q v rest c =
      on_receive_data-request (disconnect_request q) v rest c
      ∙ ap
          (λ a. done (
            if q.channel == c.channel_id
            then record c { send_items = []; sequence = 0; knx_address = no_address; actions = a }
            else c))
          (append_assoc c.actions (_ ∷ []) _)

  get_type-ack : get_type (record { service_type = 0x0421; length_in_bytes = 10 }) ≡ response
  unfolding get_type
  get_type-ack = refl

  ack_header :
      (a : TunnelAckResponse) (rest : List ℕ)
      → IpHeader.parse native (record { bytes = tunnel_ack_to_bytes native a ++ rest; index = 0 })
        ≡ ok (
          record { service_type = 0x0421; length_in_bytes = 10 },
          record { bytes = tunnel_ack_to_bytes native a ++ rest; index = 6 },
        )
  ack_header a rest = rw (tunnel_ack_to_bytes_lem native a) (
      (IpHeader.parse-Reads native 0x0421 10 (omega arith) (omega arith)).run _
        (header_bytes native a.connection_header ++ rest) (omega arith)
        (append_assoc (IpHeader.header_bytes native 0x0421 10)
          (header_bytes native a.connection_header) rest))

  ack_body :
      (a : TunnelAckResponse) (rest : List ℕ)
      → value (
          parse_response native
            (record { service_type = 0x0421; length_in_bytes = 10 })
            (record { bytes = tunnel_ack_to_bytes native a ++ rest; index = 6 }))
        ≡ ok (tunnel_ack a)
  unfolding parse_response
  ack_body a rest = rw (tunnel_ack_to_bytes_lem native a) (
      ap value (
        (alternative-Reads tunnel_ack (tunnel_ack-Reads native a)).run
          (record {
            bytes =
                (IpHeader.header_bytes native 0x0421 10 ++ header_bytes native a.connection_header)
                ++ rest;
            index = 6;
          })
          rest (omega arith) refl))

  -- A tunnel acknowledgement is handed to the items, and changes nothing else.
  pub on_receive_data-tunnel_ack :
      (a : TunnelAckResponse) (rest : List ℕ) (c : Connection)
      → on_receive_data native (tunnel_ack_to_bytes native a ++ rest) c
        ≡ done (record c { send_items = deliver (tunnel_ack a) c.send_items })
  unfolding on_receive_data on_header on_message
  on_receive_data-tunnel_ack a rest c =
      ap (on_header native c) (ack_header a rest)
      ∙ (ap
            (λ t.
              on_message native c t (record { service_type = 0x0421; length_in_bytes = 10 })
                (record { bytes = tunnel_ack_to_bytes native a ++ rest; index = 6 }))
            get_type-ack
          ∙ parsed_lem (answered_with c) _ (ack_body a rest))
