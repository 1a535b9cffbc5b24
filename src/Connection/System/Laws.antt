-- ===== src/Connection/System/Laws.antt =====
-- What an event of the tunneling connection does to the client above it.
use libknx.Prelude.{
  ℕ, suc, ◌+◌, ◌%◌, ◌≡◌, refl, ap, sym, ◌∙◌, List, [], ◌∷◌, ◌++◌, map, Bool, append-nil, drop,
  drop-append, length,
}
use libknx.Bytes.Parser.{Endian}
use libknx.Headers.IpAddress.{IpAddress}
use libknx.Headers.KnxAddress.{GroupAddress}
use libknx.Headers.ConnectionHeader.{ConnectionHeader}
use libknx.Cemi.DataAcpi.{group_value_write, of_vector}
use libknx.Cemi.CemiFrame.{Cemi}
use libknx.Cemi.CemiFrame.Laws.{received_cemi}
use libknx.Message.Request.{TunnelRequest, tunnel_request, write}
use libknx.Message.Request.Laws.{IsTunnel}
use libknx.Message.Response.{tunnel_ack_to_bytes}
use libknx.Connection.Outcome.{done, ◌>>=◌}
use libknx.Connection.Tunneling.State.{Action, control_written, told, Connection, on_incoming_cemi}
use libknx.Connection.Tunneling.Requests.{written}
use libknx.Connection.Tunneling.Run as Tunneling
use libknx.Connection.Tunneling.Laws.Silence.{carrying}
use libknx.Connection.Tunneling.Laws.Receive.{on_receive_data-tunnel_request}
use libknx.Connection.Client.State.{Client, itself}
use libknx.Connection.Client.Listeners as Listeners
use libknx.Connection.Client.Requests.{request_frame}
use libknx.Connection.Client.Laws.Confirmed.{over, confirmation}
use libknx.Connection.System.{step_below, tell, heard}

-- The frame that a write of some bytes to a group sends.
abbrev pub writing : GroupAddress → List ℕ → Cemi
writing a value = request_frame a (of_vector group_value_write value)

-- What the router sends back for a frame: a confirmation in a tunnel request.
abbrev pub confirming : ConnectionHeader → Cemi → GroupAddress → Connection → TunnelRequest
confirming h cemi a t = record { connection_header = h; cemi = confirmation t cemi a }

-- The tunneling connection when it has sent a frame, and when it has received its confirmation.
abbrev pub acknowledged : Endian → Cemi → Connection → Connection
acknowledged native cemi t = record t {
  sequence = (t.sequence + 1) % 256;
  next_pointer = suc t.next_pointer;
  actions = t.actions ++ written native (carrying cemi t) t ∷ [];
}

abbrev pub notified : Endian → ConnectionHeader → Cemi → Connection → Connection
notified native h con t = record t {
  actions =
      t.actions
      ++ control_written t.remote_control_end_point
          (tunnel_ack_to_bytes native (record { connection_header = h }))
        ∷ told itself (on_incoming_cemi (received_cemi con))
        ∷ [];
}

module _ (native : Endian) (make_address_v4 : List ℕ → IpAddress) (alive : ℕ → Bool) where
  -- What an event below does, where it is known what it adds to the history.
  pub step_below_lem :
      (i : Tunneling.Input) (t t' : Connection) (new : List Action) (c : Client)
      → Tunneling.step native make_address_v4 i t ≡ done t'
      → t'.actions ≡ t.actions ++ new
      → step_below native make_address_v4 alive i (over t c) ≡ tell alive new (over t' c)
  unfolding step_below
  step_below_lem i t t' new c e h =
      ap (λ o. o >>= (λ t'. tell alive (drop (length t.actions) t'.actions) (over t' c))) e
      ∙ ap (λ added. tell alive (drop (length t.actions) added) (over t' c)) h
      ∙ ap (λ added. tell alive added (over t' c)) (drop-append t.actions new)

  -- An event below that nobody sees.
  pub step_below-silent :
      (i : Tunneling.Input) (t t' : Connection) (c : Client)
      → Tunneling.step native make_address_v4 i t ≡ done t'
      → t'.actions ≡ t.actions
      → step_below native make_address_v4 alive i (over t c) ≡ done (over t' c)
  unfolding tell
  step_below-silent i t t' c e h = step_below_lem i t t' [] c e (h ∙ sym (append-nil t.actions))

  -- A datagram with a frame, where the client is the only listener of its connection: it is
  -- acknowledged, and the client gets the frame.
  pub datagram_lem :
      (cemi : Cemi) (h : ConnectionHeader) (rest : List ℕ) (t : Connection) (c : Client)
      → t.connection_listeners ≡ itself ∷ []
      → IsTunnel native (record { connection_header = h; cemi = cemi })
      → step_below native make_address_v4 alive
          (Tunneling.datagram (
            write native (tunnel_request (record { connection_header = h; cemi = cemi })) []
            ++ rest))
          (over t c)
        ≡ Listeners.on_incoming_cemi alive (received_cemi cemi) (over (notified native h cemi t) c)
          >>= (λ next. done next)
  unfolding Tunneling.step tell heard
  datagram_lem cemi h rest t c l v =
      let ack =
        control_written t.remote_control_end_point
          (tunnel_ack_to_bytes native (record { connection_header = h })) in
      let call = λ (l : ℕ). told l (on_incoming_cemi (received_cemi cemi)) in
      step_below_lem _ t (notified native h cemi t) (ack ∷ call itself ∷ []) c
        (on_receive_data-tunnel_request native (record { connection_header = h; cemi = cemi }) v
            rest t
          ∙ ap (λ ls. done (record t { actions = t.actions ++ ack ∷ map call ls })) l)
        refl
