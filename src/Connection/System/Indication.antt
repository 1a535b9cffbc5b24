-- ===== src/Connection/System/Indication.antt =====
-- From the bus to the listeners of the user.
use libknx.Prelude.{ℕ, ◌≡◌, ap, ◌∙◌, List, [], ◌∷◌, ◌++◌, Bool}
use libknx.Bytes.Parser.{Endian}
use libknx.Headers.IpAddress.{IpAddress}
use libknx.Headers.KnxAddress.{GroupAddress}
use libknx.Headers.ConnectionHeader.{ConnectionHeader}
use libknx.Cemi.CemiFrame.{Cemi}
use libknx.Cemi.CemiFrame.Laws.{received_cemi}
use libknx.Message.Request.{tunnel_request, write}
use libknx.Message.Request.Laws.{IsTunnel}
use libknx.Connection.Outcome.{done, ◌>>=◌}
use libknx.Connection.Tunneling.State.{Connection}
use libknx.Connection.Tunneling.Run as Tunneling
use libknx.Connection.Client.State.{Client, itself}
use libknx.Connection.Client.Laws.Listeners.{
  indication, call_of, told_of, on_incoming_cemi-indication,
}
use libknx.Connection.Client.Laws.Confirmed.{over}
use libknx.Connection.System.{step_below}
use libknx.Connection.System.Laws.{datagram_lem, notified}

module _ (native : Endian) (make_address_v4 : List ℕ → IpAddress) (alive : ℕ → Bool) where
  -- A datagram with a frame from the bus for a group, where the client is the only listener of its
  -- connection and the frame is within its widths: the datagram is acknowledged, and every user's
  -- listener that is alive gets the call that the type of the received frame calls for.
  pub datagram-told :
      (cemi : Cemi) (a : GroupAddress) (h : ConnectionHeader) (rest : List ℕ) (t : Connection)
      (c : Client)
      → t.connection_listeners ≡ itself ∷ []
      → IsTunnel native (record { connection_header = h; cemi = indication cemi a })
      → step_below native make_address_v4 alive
          (Tunneling.datagram (
            write native
              (tunnel_request (record { connection_header = h; cemi = indication cemi a }))
              []
            ++ rest))
          (over t c)
        ≡ done (
            told_of alive
              (call_of (received_cemi cemi) a)
              (over (notified native h (indication cemi a) t) c))
  datagram-told cemi a h rest t c l v =
      datagram_lem native make_address_v4 alive (indication cemi a) h rest t c l v
      ∙ ap (λ o. o >>= (λ next. done next))
          (on_incoming_cemi-indication alive (received_cemi cemi) a
            (over (notified native h (indication cemi a) t) c))
