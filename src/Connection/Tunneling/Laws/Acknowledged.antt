-- ===== src/Connection/Tunneling/Laws/Acknowledged.antt =====
-- A frame that the router acknowledges, from `send` to its return.
use libknx.Prelude.{
  ℕ, suc, ◌+◌, ◌%◌, ◌≡◌, refl, ap, ◌∙◌, List, [], ◌∷◌, ◌++◌, true, false, All, if◌then◌else◌, ◌==◌,
  ==_iff,
}
use libknx.Bytes.Parser.{Endian}
use libknx.Headers.IpAddress.{IpAddress}
use libknx.Cemi.CemiFrame.{Cemi}
use libknx.Message.Request.{RequestVariant, matches_response, tunnel_matches}
use libknx.Message.Response.{ResponseVariant, TunnelAckResponse, tunnel_ack, tunnel_ack_to_bytes}
use libknx.Connection.AsyncMessage
use libknx.Connection.AsyncMessage.{
  AsyncMessage, State, Place, ok, sending, in_send, in_wait, returned, aborted, set_response,
}
use libknx.Connection.Outcome.{done, ◌>>=◌}
use libknx.Connection.Tunneling.State.{
  Item, Action, send_cemi, close_for_ack, Connection, erase_item,
}
use libknx.Connection.Tunneling.Requests.{written, send_request}
use libknx.Connection.Tunneling.Receive.{deliver}
use libknx.Connection.Tunneling.Calls.{
  deref, waited_by, send_returned, send, send_answered, close, finish, return_answer, is_timeout,
  on_waited,
}
use libknx.Connection.Tunneling.Run.{Input, sent, waited, datagram, call_send, step, run}
use libknx.Connection.Tunneling.Laws.Last.{Allocated, find_item-last, erase_item-last}
use libknx.Connection.Tunneling.Laws.Receive.{on_receive_data-tunnel_ack}
use libknx.Connection.Tunneling.Laws.Sending.{
  item, pending, returned_from, attempt, resume-pending, moved_returned, first_sent,
}
use libknx.Connection.Tunneling.Laws.Silence.{carrying, advanced}

deliver-last :
    (r : ResponseVariant) (is : List Item) (i : Item)
    → All (λ j. matches_response j.request r ≡ false) is
    → matches_response i.request r ≡ true
    → deliver r (is ++ i ∷ [])
      ≡ is ++ record i { message = AsyncMessage.step i.message (set_response r) } ∷ []
unfolding deliver
deliver-last r [] i h e = rw e refl
deliver-last r (j ∷ is) i h e = rw (h.0) (ap (λ l. j ∷ l) (deliver-last r is i h.1 e))

-- The message when the answer is there, and when `send` has returned.
abbrev pub answered : ResponseVariant → Place → AsyncMessage ResponseVariant
answered r place = record { state = ok; response = r; attempts = 1; place = place; sends = 1 }

-- The acknowledgement of a frame that is sent now.
abbrev pub acknowledgement : Connection → ℕ → TunnelAckResponse
acknowledgement c status = record {
  connection_header = record { channel = c.channel_id; sequence = c.sequence; status = status };
}

pub carrying-matches :
    (cemi : Cemi) (c : Connection) (status : ℕ)
    → matches_response (carrying cemi c) (tunnel_ack (acknowledgement c status)) ≡ true
unfolding matches_response tunnel_matches
carrying-matches cemi c status =
    rw ((==_iff c.channel_id c.channel_id).1 refl, (==_iff c.sequence c.sequence).1 refl) refl

module _ (native : Endian) (make_address_v4 : List ℕ → IpAddress) where
  pub acked :
      (q : RequestVariant) (a : TunnelAckResponse) (extra : List ℕ) (actions : List Action)
      (c : Connection)
      → All (λ j. matches_response j.request (tunnel_ack a) ≡ false) c.send_items
      → matches_response q (tunnel_ack a) ≡ true
      → step native make_address_v4
          (datagram (tunnel_ack_to_bytes native a ++ extra))
          (pending q send_cemi (attempt 1 sending 1 in_wait) actions c)
        ≡ done (pending q send_cemi (answered (tunnel_ack a) in_wait) actions c)
  unfolding step AsyncMessage.step
  acked q a extra actions c h e =
      let waiting = pending q send_cemi (attempt 1 sending 1 in_wait) actions c in
      on_receive_data-tunnel_ack native a extra waiting
      ∙ ap (λ l. done (record waiting { send_items = l }))
          (deliver-last (tunnel_ack a) c.send_items
            (item c.next_pointer q (attempt 1 sending 1 in_wait)) h e)

  pub woken :
      (q : RequestVariant) (r : ResponseVariant) (actions : List Action) (c : Connection)
      → Allocated c
      → step native make_address_v4
          (waited c.next_pointer aborted)
          (pending q send_cemi (answered r in_wait) actions c)
        ≡ finish c.next_pointer
            (return_answer native make_address_v4 send_cemi)
            (returned_from q (answered r returned) actions c)
  unfolding step on_waited AsyncMessage.step AsyncMessage.after_wait AsyncMessage.loop
      AsyncMessage.state_after AsyncMessage.is_sending send_returned is_timeout
  woken q r actions c h =
      resume-pending native make_address_v4 q send_cemi (answered r in_wait) actions c h
        (waited_by native make_address_v4 aborted _)
      ∙ moved_returned native make_address_v4 q send_cemi (answered r in_wait) (answered r returned)
          actions c h

  pub finished :
      (q : RequestVariant) (r : ResponseVariant) (actions : List Action) (c : Connection)
      → Allocated c
      → finish c.next_pointer
          (return_answer native make_address_v4 send_cemi)
          (returned_from q (answered r returned) actions c)
        ≡ done (
            send_answered native r
              (record c { next_pointer = suc c.next_pointer; actions = actions }))
  unfolding finish return_answer
  finished q r actions c h =
      let e = returned_from q (answered r returned) actions c in
      let i = item c.next_pointer q (answered r returned) in
      ap
        (λ o. deref o (λ i.
          return_answer native make_address_v4 send_cemi i.message.response
            (record e { send_items = erase_item c.next_pointer e.send_items })))
        (find_item-last c.next_pointer c.send_items i h.0 refl)
      ∙ ap (λ l. done (send_answered native r (record e { send_items = l })))
          (erase_item-last c.next_pointer c.send_items i h.0 refl)

  -- A frame that is sent, written, and acknowledged with its channel and sequence number, where no
  -- item before it matches the acknowledgement: `send` returns, its item is gone, all other items
  -- and coroutines are as before, one datagram has been written, and the sequence number is one
  -- more, modulo 256. A status other than 0 closes the connection.
  pub send-acknowledged :
      (cemi : Cemi) (status : ℕ) (extra : List ℕ) (c : Connection) (rest : List Input)
      → Allocated c
      → All
          (λ j. matches_response j.request (tunnel_ack (acknowledgement c status)) ≡ false)
          c.send_items
      → run native make_address_v4
          (call_send cemi
            ∷ sent c.next_pointer
            ∷ datagram (tunnel_ack_to_bytes native (acknowledgement c status) ++ extra)
            ∷ waited c.next_pointer aborted
            ∷ rest)
          c
        ≡ (let after = record c {
          sequence = (c.sequence + 1) % 256;
          next_pointer = suc c.next_pointer;
          actions = c.actions ++ written native (carrying cemi c) c ∷ [];
        } in
            run native make_address_v4 rest
              (if status == 0 then after else close native close_for_ack after))
  unfolding run step send send_request send_answered written AsyncMessage.send AsyncMessage.loop
      AsyncMessage.is_sending AsyncMessage.decrement
  send-acknowledged cemi status extra c rest h k =
      let q = carrying cemi c in
      let p = c.next_pointer in
      let go = run native make_address_v4 in
      let actions = c.actions ++ written native q c ∷ [] in
      let a = acknowledgement c status in
      let ack = datagram (tunnel_ack_to_bytes native a ++ extra) in
      ap (λ o. o >>= go (ack ∷ waited p aborted ∷ rest))
        (first_sent native make_address_v4 q send_cemi actions (advanced c) 1 1 h)
      ∙ ap (λ o. o >>= go (waited p aborted ∷ rest))
          (acked q a extra actions (advanced c) k (carrying-matches cemi c status))
      ∙ ap (λ o. o >>= go rest)
          (woken q (tunnel_ack a) actions (advanced c) h
            ∙ finished q (tunnel_ack a) actions (advanced c) h)
