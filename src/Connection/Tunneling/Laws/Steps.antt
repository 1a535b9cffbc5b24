-- ===== src/Connection/Tunneling/Laws/Steps.antt =====
-- Every step of a connection keeps its pointers below the next one.
use libknx.Prelude.{ℕ, zero, suc, ◌≡◌, refl, List, Bool, ◌==◌}
use libknx.Bytes.Parser.{Endian, ByteBufferReader, Result, ok, err}
use libknx.Headers.IpAddress.{IpAddress}
use libknx.Message.IpHeader.{KnxIpHeader}
use libknx.Message.Request.{
  RequestVariant, no_request, tunnel_request, connect_request, connect_state_request,
  disconnect_request, search_request, description_request,
}
use libknx.Message.Response.{
  ResponseVariant, monostate, connect, connect_state, tunnel_ack, search, disconnect, description,
}
use libknx.Message.Factory.{
  MessageType, request, response, unknown, get_type, parse_request, parse_response,
}
use libknx.Connection.AsyncMessage.{AsyncMessage, State, Place, idle, in_send, in_wait, returned}
use libknx.Connection.Outcome.{Outcome, done, failed, ◌>>=◌}
use libknx.Connection.Tunneling.State.{
  Item, Caller, start, send_cemi, check_connection, print_description, close_for_user,
  close_for_ack, close_for_check, close_for_timeout, Connection, for_every_listener, find_caller,
  add_listener,
}
use libknx.Connection.Tunneling.Close.{reset}
use libknx.Connection.Tunneling.Receive.{
  parsed, on_receive_data, on_header, on_message, on_receive_request, on_receive_tunnel_request,
  on_receive_disconnect_request, answered_with,
}
use libknx.Connection.Tunneling.Calls.{
  is_timeout, start_connection, send, send_answered, check_answered, on_check_timer, describe,
  close_answered, connected, start_answered, return_answer, send_returned, message_moved, sent_to,
  waited_by, on_sent, on_waited,
}
use libknx.Connection.Tunneling.Run.{
  Input, datagram, sent, waited, check_timer, call_start, call_close, call_describe, call_send,
  call_add_listener, step,
}
use libknx.Connection.Tunneling.Laws.Last.{Allocated}
use libknx.Connection.Tunneling.Laws.Invariant.{
  Sound, if_lem, deliver-Below, set_message-Below, erase_frame-Below, send_request-Allocated,
  close_answered-Allocated, finish-Sound, resume-Sound, begin_close-Allocated, close-Allocated,
}

bind-Sound :
    (o : Outcome Connection) (f : Connection → Outcome Connection)
    → Sound o
    → ((c : Connection) → Allocated c → Sound (f c))
    → Sound (o >>= f)
bind-Sound (done c) f h k = k c h
bind-Sound (failed e) f h k = tt

parsed-Sound :
    {A : Type 0} (k : A → Connection) (x : Result (A × ByteBufferReader))
    → ((a : A) → Allocated (k a))
    → Sound (parsed k x)
parsed-Sound k (ok (a, _)) h = h a
parsed-Sound k (err f) h = tt

module _ (native : Endian) where
  request-Allocated :
      (q : RequestVariant) (c : Connection)
      → Allocated c
      → Allocated (on_receive_request native q c)
  unfolding on_receive_request on_receive_tunnel_request on_receive_disconnect_request
      for_every_listener reset
  request-Allocated (tunnel_request q) c h = h
  request-Allocated (disconnect_request q) c h =
      if_lem Allocated (q.channel == c.channel_id) _ _ (tt, h.1) h
  request-Allocated (connect_request q) c h = h
  request-Allocated (connect_state_request q) c h = h
  request-Allocated (search_request q) c h = h
  request-Allocated (description_request q) c h = h
  request-Allocated no_request c h = h

  message-Sound :
      (t : MessageType) (header : KnxIpHeader) (reader : ByteBufferReader) (c : Connection)
      → Allocated c
      → Sound (on_message native c t header reader)
  unfolding on_message
  message-Sound unknown header reader c h = h
  message-Sound response header reader c h =
      parsed-Sound (answered_with c) (parse_response native header reader)
        (λ r. (deliver-Below c.next_pointer r c.send_items h.0, h.1))
  message-Sound request header reader c h =
      parsed-Sound (λ q. on_receive_request native q c) (parse_request native header reader)
        (λ q. request-Allocated q c h)

  header-Sound :
      (x : Result (KnxIpHeader × ByteBufferReader)) (c : Connection)
      → Allocated c
      → Sound (on_header native c x)
  unfolding on_header
  header-Sound (ok (header, reader)) c h = message-Sound (get_type header) header reader c h
  header-Sound (err f) c h = tt

  check_timer-Allocated :
      (e : Bool) (c : Connection) (n : ℕ)
      → c.checks ≡ n
      → Allocated c
      → Allocated (on_check_timer native e c)
  unfolding on_check_timer
  check_timer-Allocated e c zero q h = rw q h
  check_timer-Allocated e c (suc n) q h = rw q (
      if_lem Allocated e _ _ h
        (send_request-Allocated native _ check_connection (record c { checks = n }) h))

  send_answered-Allocated :
      (r : ResponseVariant) (c : Connection) → Allocated c → Allocated (send_answered native r c)
  unfolding send_answered
  send_answered-Allocated (tunnel_ack r) c h =
      if_lem Allocated (r.connection_header.status == 0) _ _ h
        (close-Allocated native close_for_ack c h)
  send_answered-Allocated (connect r) c h = h
  send_answered-Allocated (connect_state r) c h = h
  send_answered-Allocated (search r) c h = h
  send_answered-Allocated (disconnect r) c h = h
  send_answered-Allocated (description r) c h = h
  send_answered-Allocated monostate c h = h

  check_answered-Allocated :
      (r : ResponseVariant) (c : Connection) → Allocated c → Allocated (check_answered native r c)
  unfolding check_answered
  check_answered-Allocated (connect_state r) c h =
      if_lem Allocated (r.status == 0) _ _ h (close-Allocated native close_for_check c h)
  check_answered-Allocated (tunnel_ack r) c h = h
  check_answered-Allocated (connect r) c h = h
  check_answered-Allocated (search r) c h = h
  check_answered-Allocated (disconnect r) c h = h
  check_answered-Allocated (description r) c h = h
  check_answered-Allocated monostate c h = h

module _ (native : Endian) (make_address_v4 : List ℕ → IpAddress) where
  start_answered-Allocated :
      (r : ResponseVariant) (c : Connection)
      → Allocated c
      → Allocated (start_answered native make_address_v4 r c)
  unfolding start_answered connected for_every_listener reset
  start_answered-Allocated (connect r) c h = h
  start_answered-Allocated (connect_state r) c h = (tt, h.1)
  start_answered-Allocated (tunnel_ack r) c h = (tt, h.1)
  start_answered-Allocated (search r) c h = (tt, h.1)
  start_answered-Allocated (disconnect r) c h = (tt, h.1)
  start_answered-Allocated (description r) c h = (tt, h.1)
  start_answered-Allocated monostate c h = (tt, h.1)

  answer-Sound :
      (caller : Caller) (r : ResponseVariant) (c : Connection)
      → Allocated c
      → Sound (return_answer native make_address_v4 caller r c)
  unfolding return_answer
  answer-Sound start r c h = start_answered-Allocated r c h
  answer-Sound send_cemi r c h = send_answered-Allocated native r c h
  answer-Sound check_connection r c h = check_answered-Allocated native r c h
  answer-Sound print_description r c h = h
  answer-Sound close_for_user r c h = close_answered-Allocated c h
  answer-Sound close_for_ack r c h = close_answered-Allocated c h
  answer-Sound close_for_check r c h = close_answered-Allocated c h
  answer-Sound (close_for_timeout p caller) r c h =
      finish-Sound p (return_answer native make_address_v4 caller) (close_answered c)
        (answer-Sound caller) (close_answered-Allocated c h)

  returned-Sound :
      (p : ℕ) (caller : Caller) (s : State) (c : Connection)
      → Allocated c
      → Sound (send_returned native make_address_v4 p caller s c)
  unfolding send_returned
  returned-Sound p caller s c h =
      let rest =
        finish-Sound p (return_answer native make_address_v4 caller) c (answer-Sound caller) h in
      if_lem Sound (is_timeout s) _ _
        (if_lem Sound c.closing_down _ _ rest
          (begin_close-Allocated native (close_for_timeout p caller) c h))
        rest

  by_place :
      (place : Place) (a b d e : Outcome Connection)
      → Sound a
      → Sound b
      → Sound d
      → Sound e
      → Sound (elim place [ idle ↦ a | in_wait ↦ b | in_send ↦ d | returned ↦ e ])
  by_place idle a b d e h i j k = h
  by_place in_wait a b d e h i j k = i
  by_place in_send a b d e h i j k = j
  by_place returned a b d e h i j k = k

  moved-Sound :
      (i : Item) (caller : Caller) (m : AsyncMessage ResponseVariant) (c : Connection)
      → Allocated c
      → Sound (message_moved native make_address_v4 i caller m c)
  unfolding message_moved
  moved-Sound i caller m c h =
      let items = set_message-Below c.next_pointer i.pointer m c.send_items h.0 in
      by_place m.place _ _ _ _ (items, h.1) (items, h.1) (items, h.1)
        (returned-Sound i.pointer caller m.state _
          (items, erase_frame-Below c.next_pointer i.pointer c.frames h.1))

  pub step-Sound :
      (i : Input) (c : Connection) → Allocated c → Sound (step native make_address_v4 i c)
  unfolding step on_receive_data on_sent on_waited start_connection send describe add_listener
  step-Sound (datagram bytes) c h = header-Sound native _ c h
  step-Sound (sent p) c h =
      resume-Sound (find_caller p c.frames) p c (sent_to native make_address_v4 c) h
        (λ i caller. by_place i.message.place _ _ _ _ h h (moved-Sound i caller _ c h) h)
  step-Sound (waited p w) c h =
      resume-Sound (find_caller p c.frames) p c (waited_by native make_address_v4 w c) h
        (λ i caller. by_place i.message.place _ _ _ _ h (moved-Sound i caller _ c h) h h)
  step-Sound (check_timer e) c h = check_timer-Allocated native e c c.checks refl h
  step-Sound call_start c h = send_request-Allocated native _ start _ h
  step-Sound call_close c h = close-Allocated native close_for_user c h
  step-Sound call_describe c h = send_request-Allocated native _ print_description c h
  step-Sound (call_send cemi) c h = send_request-Allocated native _ send_cemi _ h
  step-Sound (call_add_listener l) c h = h
