-- ===== src/Message/Request/Laws.antt =====
-- The requests on the wire.
use libknx.Prelude.{ℕ, ◌+◌, ◌<◌, ◌≡◌, List, [], ◌∷◌, ◌++◌, length, arith, u16}
use libknx.Bytes.Parser.{Endian}
use libknx.Bytes.Writer.{◌>>◌, write_vector}
use libknx.Bytes.Wire.{
  Reads, Appends, Reads-pure, Reads-bind, Reads-last, Reads-uint8, Reads-skip, Appends-uint8,
  Appends-then, Appends-vector,
}
use libknx.Headers.Hpai
use libknx.Headers.Hpai.{Hpai, hpai_bytes}
use libknx.Headers.ConnectionHeader
use libknx.Headers.ConnectionHeader.{header_bytes}
use libknx.Headers.ConnectionRequest
use libknx.Headers.ConnectionRequest.{information_bytes}
use libknx.Cemi.CemiFrame
use libknx.Cemi.CemiFrame.Laws as CemiLaws
use libknx.Cemi.CemiFrame.Laws.{IsCemi, received_cemi, cemi_bytes}
use libknx.Message.IpHeader
use libknx.Message.Request.{
  ConnectRequest, ConnectStateRequest, DisconnectRequest, DescriptionRequest, SearchRequest,
  TunnelRequest, RequestVariant, no_request, tunnel_request, connect_state_request, connect_request,
  disconnect_request, search_request, description_request, get_service_type, write, write_tunnel,
  write_connect, write_connect_state, write_disconnect, write_search, write_description,
  parse_tunnel, parse_connect, parse_connect_state, parse_disconnect, parse_search,
  parse_description,
}

abbrev pub IsEndpoint : Hpai → Type 0
IsEndpoint h = h.port < 65536

module _ (native : Endian) where
  -- A tunnel request whose frame is within its widths, and whose announced length is of sixteen bits.
  pub record IsTunnel (q : TunnelRequest) : Type 0 where
    pub cemi : IsCemi q.cemi
    pub size : length (CemiFrame.write q.cemi []) + 10 < 65536

  -- Requests whose parts are within their widths.
  abbrev pub IsRequest : RequestVariant → Type 0
  IsRequest (tunnel_request q) = IsTunnel q
  IsRequest (connect_state_request q) = IsEndpoint q.control_end_point
  IsRequest (connect_request q) = IsEndpoint q.control_end_point × IsEndpoint q.data_end_point
  IsRequest (disconnect_request q) = IsEndpoint q.control_endpoint
  IsRequest (search_request q) = IsEndpoint q.hpai_local
  IsRequest (description_request q) = IsEndpoint q.control_end_point
  IsRequest no_request = 1 < 0

  -- What the receiver of a request sees.
  abbrev pub received_request : RequestVariant → RequestVariant
  received_request (tunnel_request q) = tunnel_request (record q { cemi = received_cemi q.cemi })
  received_request q = q

  -- The bytes behind the header.
  abbrev pub body : (q : RequestVariant) → IsRequest q → List ℕ
  body (tunnel_request q) v = header_bytes native q.connection_header ++ cemi_bytes q.cemi v.cemi
  body (connect_state_request q) v = q.channel_id ∷ 0 ∷ hpai_bytes native q.control_end_point
  body (connect_request q) v =
      hpai_bytes native q.control_end_point
      ++ (hpai_bytes native q.data_end_point ++ information_bytes native q.cri)
  body (disconnect_request q) v = q.channel ∷ 0 ∷ hpai_bytes native q.control_endpoint
  body (search_request q) v = hpai_bytes native q.hpai_local
  body (description_request q) v = hpai_bytes native q.control_end_point
  body no_request v = []

  -- All the bytes of a request: the header announces how many they are.
  abbrev pub request_bytes : (q : RequestVariant) → IsRequest q → List ℕ
  request_bytes q v =
      IpHeader.header_bytes native (get_service_type q) (6 + length (body q v)) ++ body q v

  tunnel_body_lem :
      (q : TunnelRequest) (v : IsTunnel q)
      → Appends
          ((ConnectionHeader.write native q.connection_header) >> (CemiFrame.write q.cemi))
          (body (tunnel_request q) v)
  tunnel_body_lem q v =
      Appends-then (ConnectionHeader.write-Appends native q.connection_header)
        (CemiLaws.write-Appends q.cemi v.cemi)

  cemi-size : (q : TunnelRequest) (v : IsTunnel q) → length (cemi_bytes q.cemi v.cemi) + 10 < 65536
  cemi-size q v = rw ((CemiLaws.write-Appends q.cemi v.cemi).run []) at (v.size)

  -- The size that a tunnel request announces does not wrap around.
  tunnel-size :
      (q : TunnelRequest) (v : IsTunnel q)
      → u16 (length (body (tunnel_request q) v) + 6) ≡ 6 + length (body (tunnel_request q) v)
  tunnel-size q v = omega (arith, cemi-size q v)

  tunnel-Appends :
      (q : TunnelRequest) (v : IsTunnel q) (bs : List ℕ)
      → bs ≡ body (tunnel_request q) v
      → Appends ((IpHeader.write native 0x0420 (u16 (length bs + 6))) >> (write_vector bs)) (
          IpHeader.header_bytes native 0x0420 (6 + length (body (tunnel_request q) v))
          ++ body (tunnel_request q) v)
  tunnel-Appends q v bs e =
      rw (e, tunnel-size q v)
        (Appends-then
          (IpHeader.write-Appends native 0x0420 _ (omega arith) (omega (arith, cemi-size q v)))
          (Appends-vector _))

  -- A request is written as its header, which announces the number of all bytes, and its body.
  pub write-Appends :
      (q : RequestVariant) (v : IsRequest q) → Appends (write native q) (request_bytes q v)
  unfolding write get_service_type write_tunnel write_connect write_connect_state write_disconnect
      write_search write_description
  write-Appends (tunnel_request q) v = tunnel-Appends q v _ ((tunnel_body_lem q v).run [])
  write-Appends (connect_state_request q) v =
      Appends-then
        (Appends-then
          (Appends-then (IpHeader.write-Appends native 0x0207 16 (omega arith) (omega arith))
            (Appends-uint8 q.channel_id))
          (Appends-uint8 0))
        (Hpai.write-Appends native q.control_end_point v)
  write-Appends (connect_request q) v =
      Appends-then
        (Appends-then
          (Appends-then (IpHeader.write-Appends native 0x0205 26 (omega arith) (omega arith))
            (Hpai.write-Appends native q.control_end_point v.0))
          (Hpai.write-Appends native q.data_end_point v.1))
        (ConnectionRequest.write_information-Appends native q.cri)
  write-Appends (disconnect_request q) v =
      Appends-then
        (Appends-then
          (Appends-then (IpHeader.write-Appends native 0x0209 16 (omega arith) (omega arith))
            (Appends-uint8 q.channel))
          (Appends-uint8 0))
        (Hpai.write-Appends native q.control_endpoint v)
  write-Appends (search_request q) v =
      Appends-then (IpHeader.write-Appends native 0x0201 14 (omega arith) (omega arith))
        (Hpai.write-Appends native q.hpai_local v)
  write-Appends (description_request q) v =
      Appends-then (IpHeader.write-Appends native 0x0203 14 (omega arith) (omega arith))
        (Hpai.write-Appends native q.control_end_point v)
  write-Appends no_request v = absurd (omega (arith, v))

  pub parse_tunnel-Reads :
      (q : TunnelRequest) (v : IsTunnel q)
      → Reads
          (parse_tunnel native)
          (body (tunnel_request q) v)
          (record q { cemi = received_cemi q.cemi })
  unfolding parse_tunnel
  parse_tunnel-Reads q v =
      Reads-bind _ (ConnectionHeader.parse-Reads native q.connection_header)
        (Reads-last _ (CemiLaws.parse-Reads q.cemi v.cemi) (Reads-pure _))

  pub parse_connect-Reads :
      (q : ConnectRequest) (v : IsRequest (connect_request q))
      → Reads (parse_connect native) (body (connect_request q) v) q
  unfolding parse_connect
  parse_connect-Reads q v = Reads-bind _ (Hpai.parse-Reads native q.control_end_point v.0) (
      Reads-bind _ (Hpai.parse-Reads native q.data_end_point v.1)
        (Reads-last _ (ConnectionRequest.parse_information-Reads native q.cri) (Reads-pure _)))

  pub parse_connect_state-Reads :
      (q : ConnectStateRequest) (v : IsRequest (connect_state_request q))
      → Reads (parse_connect_state native) (body (connect_state_request q) v) q
  unfolding parse_connect_state
  parse_connect_state-Reads q v = Reads-bind _ (Reads-uint8 q.channel_id) (
      Reads-bind _ (Reads-skip (0 ∷ []))
        (Reads-last _ (Hpai.parse-Reads native q.control_end_point v) (Reads-pure _)))

  pub parse_disconnect-Reads :
      (q : DisconnectRequest) (v : IsRequest (disconnect_request q))
      → Reads (parse_disconnect native) (body (disconnect_request q) v) q
  unfolding parse_disconnect
  parse_disconnect-Reads q v = Reads-bind _ (Reads-uint8 q.channel) (
      Reads-bind _ (Reads-skip (0 ∷ []))
        (Reads-last _ (Hpai.parse-Reads native q.control_endpoint v) (Reads-pure _)))

  pub parse_search-Reads :
      (q : SearchRequest) (v : IsRequest (search_request q))
      → Reads (parse_search native) (body (search_request q) v) q
  unfolding parse_search
  parse_search-Reads q v = Reads-last _ (Hpai.parse-Reads native q.hpai_local v) (Reads-pure _)

  pub parse_description-Reads :
      (q : DescriptionRequest) (v : IsRequest (description_request q))
      → Reads (parse_description native) (body (description_request q) v) q
  unfolding parse_description
  parse_description-Reads q v =
      Reads-last _ (Hpai.parse-Reads native q.control_end_point v) (Reads-pure _)

  pub length-body : (q : RequestVariant) (v : IsRequest q) → 6 + length (body q v) < 65536
  length-body (tunnel_request q) v = omega (arith, cemi-size q v)
  length-body (connect_state_request q) v = omega arith
  length-body (connect_request q) v = omega arith
  length-body (disconnect_request q) v = omega arith
  length-body (search_request q) v = omega arith
  length-body (description_request q) v = omega arith
  length-body no_request v = absurd (omega (arith, v))

  pub get_service_type-small : (q : RequestVariant) → get_service_type q < 65536
  unfolding get_service_type
  get_service_type-small (tunnel_request q) = omega arith
  get_service_type-small (connect_state_request q) = omega arith
  get_service_type-small (connect_request q) = omega arith
  get_service_type-small (disconnect_request q) = omega arith
  get_service_type-small (search_request q) = omega arith
  get_service_type-small (description_request q) = omega arith
  get_service_type-small no_request = omega arith

  -- What `IpHeader.parse` finds in front of a request.
  abbrev pub announced : (q : RequestVariant) → IsRequest q → IpHeader.KnxIpHeader
  announced q v = record {
    service_type = get_service_type q;
    length_in_bytes = 6 + length (body q v);
  }

  pub header-Reads :
      (q : RequestVariant) (v : IsRequest q)
      → Reads
          (IpHeader.parse native)
          (IpHeader.header_bytes native (get_service_type q) (6 + length (body q v)))
          (announced q v)
  header-Reads q v =
      IpHeader.parse-Reads native (get_service_type q) _ (get_service_type-small q)
        (length-body q v)
