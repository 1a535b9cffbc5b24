-- ===== src/Connection/Tunneling/Laws/Silence.antt =====
-- What a router that does not answer brings about, and one that does.
use libknx.Prelude.{
  ℕ, suc, ◌+◌, ◌%◌, ◌≡◌, refl, ap, ◌∙◌, List, [], ◌∷◌, ◌++◌, true, false, arith, if◌then◌else◌,
}
use libknx.Bytes.Parser.{Endian}
use libknx.Headers.IpAddress.{IpAddress}
use libknx.Cemi.CemiFrame.{Cemi}
use libknx.Message.Request.{RequestVariant, tunnel_request, disconnect_request}
use libknx.Message.Response.{ResponseVariant}
use libknx.Connection.AsyncMessage.{AsyncMessage, timeout, returned}
use libknx.Connection.Outcome.{done, failed, use_after_free, ◌>>=◌}
use libknx.Connection.Tunneling.State.{
  Action, Caller, send_cemi, close_for_timeout, Connection, erase_item, create_control_hpai,
}
use libknx.Connection.Tunneling.Requests.{written}
use libknx.Connection.Tunneling.Close.{begin_close}
use libknx.Connection.Tunneling.Calls.{
  deref, send_returned, send, finish, return_answer, is_timeout,
}
use libknx.Connection.Tunneling.Run.{Input, call_send, step, run}
use libknx.Connection.Tunneling.Laws.Last.{Allocated, find_item-last}
use libknx.Connection.Tunneling.Laws.Pointers.{timeout_dangles, All-map, All-last}
use libknx.Connection.Tunneling.Laws.Sending.{item, returned_from, attempt, silence, silence_lem}

-- The request that carries a frame.
abbrev pub carrying : Cemi → Connection → RequestVariant
carrying cemi c = tunnel_request (record {
  connection_header = record { channel = c.channel_id; sequence = c.sequence; status = 0 };
  cemi = cemi;
})

-- The connection with the sequence number that comes next.
abbrev pub advanced : Connection → Connection
advanced c = record c { sequence = (c.sequence + 1) % 256 }

returned_from-Allocated :
    (q : RequestVariant) (m : AsyncMessage ResponseVariant) (actions : List Action) (c : Connection)
    → Allocated c
    → Allocated (returned_from q m actions c)
returned_from-Allocated q m actions c h = (
  All-last _ c.send_items _ (All-map (λ i b. omega (arith, b)) c.send_items h.0) (omega arith),
  All-map (λ f b. omega (arith, b)) c.frames h.1,
)

module _ (native : Endian) (make_address_v4 : List ℕ → IpAddress) where
  -- The connection that has written a frame twice without an answer.
  abbrev pub given_up_on : Cemi → Connection → Connection
  given_up_on cemi c =
      let w = written native (carrying cemi c) c in
      returned_from (carrying cemi c) (attempt 0 timeout 2 returned)
        ((c.actions ++ w ∷ []) ++ w ∷ []) (advanced c)

  -- A frame that is sent while the connection is not being closed, and whose two attempts both run
  -- into the timer, is written exactly twice, the second time with the same bytes; then a
  -- disconnect request is sent, and the call waits behind it. This holds whatever else is waiting.
  pub send-silence :
      (cemi : Cemi) (c : Connection) (rest : List Input)
      → Allocated c
      → c.closing_down ≡ false
      → run native make_address_v4 (call_send cemi ∷ silence c.next_pointer rest) c
        ≡ run native make_address_v4 rest
            (begin_close native (close_for_timeout c.next_pointer send_cemi) (given_up_on cemi c))
  unfolding run step send send_returned is_timeout written
  send-silence cemi c rest h running =
      let e = given_up_on cemi c in
      silence_lem native make_address_v4 (carrying cemi c) send_cemi (advanced c) rest h
      ∙ ap
          (λ b.
            (if b
              then finish c.next_pointer (return_answer native make_address_v4 send_cemi) e
              else done (begin_close native (close_for_timeout c.next_pointer send_cemi) e))
            >>= run native make_address_v4 rest)
          running

  finish-dangles :
      (p : ℕ) (caller : Caller) (q : RequestVariant) (m : AsyncMessage ResponseVariant)
      (actions : List Action) (c : Connection)
      → Allocated c
      → finish c.next_pointer
          (return_answer native make_address_v4 (close_for_timeout p caller))
          (returned_from q m actions c)
        ≡ failed use_after_free
  unfolding finish
  finish-dangles p caller q m actions c h =
      let e = returned_from q m actions c in
      let rest = record e { send_items = erase_item c.next_pointer e.send_items } in
      ap
        (λ o. deref o (λ i.
          return_answer native make_address_v4 (close_for_timeout p caller) i.message.response
            rest))
        (find_item-last c.next_pointer c.send_items (item c.next_pointer q m) h.0 refl)
      ∙ timeout_dangles native make_address_v4 p caller m.response rest

  -- The disconnect request of a `close` that a timed out request awaits: when it times out too, a
  -- destroyed item is read.
  close-silence :
      (p : ℕ) (caller : Caller) (c : Connection) (rest : List Input)
      → Allocated c
      → run native make_address_v4
          (silence c.next_pointer rest)
          (begin_close native (close_for_timeout p caller) c)
        ≡ failed use_after_free
  unfolding begin_close send_returned is_timeout create_control_hpai
  close-silence p caller c rest h =
      let q =
        disconnect_request
          (record { channel = c.channel_id; control_endpoint = create_control_hpai c }) in
      let closing = record c { closing_down = true } in
      let w = written native q closing in
      silence_lem native make_address_v4 q (close_for_timeout p caller) closing rest h
      ∙ ap (λ o. o >>= run native make_address_v4 rest)
          (finish-dangles p caller q (attempt 0 timeout 2 returned)
            ((c.actions ++ w ∷ []) ++ w ∷ []) closing h)

  -- A router that falls silent: a frame is sent, and neither it nor the disconnect request behind it
  -- is answered. Then the connection reads an item that it has destroyed itself, whatever it was
  -- doing before, and whatever comes next.
  pub silent_router-dangles :
      (cemi : Cemi) (c : Connection) (rest : List Input)
      → Allocated c
      → c.closing_down ≡ false
      → run native make_address_v4
          (call_send cemi ∷ silence c.next_pointer (silence (suc c.next_pointer) rest))
          c
        ≡ failed use_after_free
  silent_router-dangles cemi c rest h running =
      send-silence cemi c (silence (suc c.next_pointer) rest) h running
      ∙ close-silence c.next_pointer send_cemi (given_up_on cemi c) rest (
          returned_from-Allocated (carrying cemi c) (attempt 0 timeout 2 returned)
            (given_up_on cemi c).actions (advanced c) h)
