-- ===== src/Connection/System/Confirmed.antt =====
-- From a call of the user to the bus and back.
use libknx.Prelude.{ℕ, suc, ◌≡◌, refl, ap, ◌∙◌, List, [], ◌∷◌, ◌++◌, Bool, false, some, All}
use libknx.Bytes.Parser.{Endian}
use libknx.Headers.IpAddress.{IpAddress}
use libknx.Headers.KnxAddress.{GroupAddress}
use libknx.Headers.ConnectionHeader.{ConnectionHeader}
use libknx.Cemi.DataAcpi
use libknx.Cemi.DataAcpi.{group_value_write, of_vector}
use libknx.Cemi.CemiFrame.{Cemi}
use libknx.Cemi.CemiFrame.Laws.{received_cemi}
use libknx.Message.Request.{tunnel_request, matches_response, write}
use libknx.Message.Request.Laws.{IsTunnel}
use libknx.Message.Response.{tunnel_ack, tunnel_ack_to_bytes}
use libknx.Connection.AsyncMessage
use libknx.Connection.AsyncMessage.{AsyncMessage, sending, aborted, in_send, in_wait, returned}
use libknx.Connection.Outcome.{Outcome, done, ◌>>=◌}
use libknx.Connection.Tunneling.State.{Connection, send_cemi, get_knx_address}
use libknx.Connection.Tunneling.Requests.{written, send_request}
use libknx.Connection.Tunneling.Run as Tunneling
use libknx.Connection.Tunneling.Calls as Calls
use libknx.Connection.Tunneling.Calls.{send_answered}
use libknx.Connection.Tunneling.Laws.Last as Pointers
use libknx.Connection.Tunneling.Laws.Sending.{pending, attempt, first_sent}
use libknx.Connection.Tunneling.Laws.Silence.{carrying, advanced}
use libknx.Connection.Tunneling.Laws.Acknowledged.{
  answered, acknowledgement, acked, woken, finished, carrying-matches,
}
use libknx.Connection.Client.State.{Client, itself, to_map_key}
use libknx.Connection.Client.Requests.{request_frame, write_to_group}
use libknx.Connection.Client.Laws.Requests.{Unused, Allocated, with_request, waiting}
use libknx.Connection.Client.Laws.Requests as ClientRequests
use libknx.Connection.Client.Laws.Confirmed.{
  over, confirmation, send_lem, written_lem, confirmation_lem, woken_lem,
}
use libknx.Connection.System.{below, sent, waited, call_write_to_group, step_below, step, run}
use libknx.Connection.System.Laws.{
  writing, confirming, acknowledged, notified, step_below-silent, datagram_lem,
}

writing-key :
    (t : Connection) (a : GroupAddress) (value : List ℕ)
    → to_map_key (confirmation t (received_cemi (writing a value)) a) a
      ≡ to_map_key (writing a value) a
unfolding request_frame to_map_key DataAcpi.no_data DataAcpi.one_byte_data
writing-key t a value = refl

module _ (native : Endian) (make_address_v4 : List ℕ → IpAddress) (alive : ℕ → Bool) where
  -- The three events by which the router's acknowledgement ends a `send` below.
  sent_below :
      (cemi : Cemi) (t : Connection) (c : Client) (f : Client → Outcome Client)
      → Pointers.Allocated t
      → All
          (λ j. matches_response j.request (tunnel_ack (acknowledgement t 0)) ≡ false)
          t.send_items
      → step_below native make_address_v4 alive
            (Tunneling.sent t.next_pointer)
            (over (Calls.send native cemi t) c)
          >>= (λ x.
              step_below native make_address_v4 alive
                (Tunneling.datagram (tunnel_ack_to_bytes native (acknowledgement t 0) ++ []))
                x
              >>= (λ y.
                  step_below native make_address_v4 alive
                    (Tunneling.waited t.next_pointer aborted)
                    y
                  >>= f))
        ≡ f (over (acknowledged native cemi t) c)
  unfolding Calls.send send_request AsyncMessage.send AsyncMessage.loop AsyncMessage.is_sending
      AsyncMessage.decrement send_answered written
  sent_below cemi t c f h u =
      let q = carrying cemi t in
      let r = tunnel_ack (acknowledgement t 0) in
      let acts = t.actions ++ written native q t ∷ [] in
      let ack = Tunneling.datagram (tunnel_ack_to_bytes native (acknowledgement t 0) ++ []) in
      let wake = Tunneling.waited t.next_pointer aborted in
      let go = step_below native make_address_v4 alive in
      let t1 = pending q send_cemi (attempt 1 sending 1 in_send) acts (advanced t) in
      let t2 = pending q send_cemi (attempt 1 sending 1 in_wait) acts (advanced t) in
      let t3 = pending q send_cemi (answered r in_wait) acts (advanced t) in
      ap (λ o. o >>= (λ x. go ack x >>= (λ y. go wake y >>= f)))
        (step_below-silent native make_address_v4 alive (Tunneling.sent t.next_pointer) t1 t2 c
          (first_sent native make_address_v4 q send_cemi acts (advanced t) 1 1 h) refl)
      ∙ ap (λ o. o >>= (λ y. go wake y >>= f))
          (step_below-silent native make_address_v4 alive ack t2 t3 c
            (acked native make_address_v4 q (acknowledgement t 0) [] acts (advanced t) u
              (carrying-matches cemi t 0))
            refl)
      ∙ ap (λ o. o >>= f)
          (step_below-silent native make_address_v4 alive wake t3 (acknowledged native cemi t) c
            (woken native make_address_v4 q r acts (advanced t) h
              ∙ finished native make_address_v4 q r acts (advanced t) h)
            refl)

  -- A confirmation that the router sends as a datagram.
  confirmed_below :
      (k : ℕ) (q cemi : Cemi) (a : GroupAddress) (h : ConnectionHeader) (t : Connection)
      (c : Client)
      → Allocated c
      → Unused k c.requests
      → t.connection_listeners ≡ itself ∷ []
      → IsTunnel native (record { connection_header = h; cemi = confirmation t cemi a })
      → to_map_key (confirmation t (received_cemi cemi) a) a ≡ k
      → step_below native make_address_v4 alive
          (Tunneling.datagram (
            write native
              (tunnel_request (record { connection_header = h; cemi = confirmation t cemi a }))
              []
            ++ []))
          (over t (with_request k q (waiting in_wait) c))
        ≡ done (
            over (notified native h (confirmation t cemi a) t) (
              with_request k q
                (ClientRequests.answered (confirmation t (received_cemi cemi) a) in_wait)
                c))
  unfolding get_knx_address
  confirmed_below k q cemi a h t c al u l v e =
      datagram_lem native make_address_v4 alive (confirmation t cemi a) h [] t
        (with_request k q (waiting in_wait) c) l v
      ∙ ap (λ o. o >>= (λ next. done next))
          (confirmation_lem native alive q (received_cemi cemi) a k
            (notified native h (confirmation t cemi a) t) c al u e)

  -- A write to a group, from the call to its end, in datagrams. The frame goes out in one tunnel
  -- request; the router acknowledges that, and then sends the frame back as a confirmation, which
  -- is acknowledged. After that the request is gone from the client and its item from the
  -- tunneling connection, no user's listener has been called, and all else is as it was. The
  -- conditions: the client is the connection's only listener, no earlier item matches the
  -- acknowledgement, no other request has the key, and the confirmation is within its widths.
  pub write_to_group-confirmed :
      (a : GroupAddress) (value : List ℕ) (h : ConnectionHeader) (t : Connection) (c : Client)
      → Pointers.Allocated t
      → Allocated c
      → t.connection_listeners ≡ itself ∷ []
      → All
          (λ j. matches_response j.request (tunnel_ack (acknowledgement t 0)) ≡ false)
          t.send_items
      → Unused (to_map_key (writing a value) a) c.requests
      → IsTunnel native (confirming h (writing a value) a t)
      → run native make_address_v4 alive
          (call_write_to_group a value
            ∷ below (Tunneling.sent t.next_pointer)
            ∷ below (Tunneling.datagram (tunnel_ack_to_bytes native (acknowledgement t 0) ++ []))
            ∷ below (Tunneling.waited t.next_pointer aborted)
            ∷ sent c.next_pointer
            ∷ below (
                Tunneling.datagram
                  (write native (tunnel_request (confirming h (writing a value) a t)) [] ++ []))
            ∷ waited c.next_pointer aborted
            ∷ [])
          (over t c)
        ≡ done (record c {
          tunneling_connection = some (
              notified native h
                (confirmation t (writing a value) a)
                (acknowledged native (writing a value) t));
          next_pointer = suc c.next_pointer;
        })
  unfolding run step write_to_group request_frame get_knx_address
  write_to_group-confirmed a value h t c ht hc l u unused v =
      let frame = writing a value in
      let k = to_map_key frame a in
      let go = run native make_address_v4 alive in
      let low = step_below native make_address_v4 alive in
      let t2 = acknowledged native frame t in
      let ack = Tunneling.datagram (tunnel_ack_to_bytes native (acknowledgement t 0) ++ []) in
      let con =
        Tunneling.datagram (write native (tunnel_request (confirming h frame a t)) [] ++ []) in
      let rest = sent c.next_pointer ∷ below con ∷ waited c.next_pointer aborted ∷ [] in
      ap
        (λ o.
          o
          >>= go (
              below (Tunneling.sent t.next_pointer)
              ∷ below ack
              ∷ below (Tunneling.waited t.next_pointer aborted)
              ∷ rest))
        (send_lem native frame a t c unused)
      ∙ sent_below frame t (with_request k frame (waiting in_send) c) (go rest) ht u
      ∙ ap (λ o. o >>= go (below con ∷ waited c.next_pointer aborted ∷ []))
          (written_lem native k frame t2 c hc)
      ∙ ap (λ o. o >>= go (waited c.next_pointer aborted ∷ []))
          (confirmed_below k frame frame a h t2 c hc unused l v (writing-key t2 a value))
      ∙ ap (λ o. o >>= (λ x. done x))
          (woken_lem native k frame (confirmation t2 (received_cemi frame) a)
            (notified native h (confirmation t frame a) t2) c hc unused)
