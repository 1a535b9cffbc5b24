-- ===== src/Connection/Tunneling/Calls.antt =====
-- The coroutines of a connection: what starts them, and how each goes on when what it awaits is
-- there. An object that was destroyed while a coroutine waited for it is read when it goes on.
use libknx.Prelude.{
  ℕ, zero, suc, ◌+◌, ◌%◌, List, [], ◌∷◌, Bool, true, false, Option, none, some, if◌then◌else◌, ◌==◌,
}
use libknx.Bytes.Parser.{Endian}
use libknx.Headers.IpAddress.{IpAddress, as_string}
use libknx.Headers.ConnectionRequest.{new_tunneling}
use libknx.Cemi.CemiFrame.{Cemi}
use libknx.Message.Request.{
  tunnel_request, connect_request, connect_state_request, description_request,
}
use libknx.Message.Response.{ResponseVariant, ConnectResponse, connect, connect_state, tunnel_ack}
use libknx.Connection.AsyncMessage
use libknx.Connection.AsyncMessage.{
  AsyncMessage, State, timeout, Place, idle, in_send, in_wait, returned, Waited, sent, waited,
}
use libknx.Connection.Outcome.{Outcome, done, failed, use_after_free}
use libknx.Connection.UdpSocket
use libknx.Connection.Tunneling.State.{
  Item, Caller, start, send_cemi, check_connection, print_description, close_for_user,
  close_for_ack, close_for_check, close_for_timeout, Connection, on_connect, for_every_listener,
  act, find_item, erase_item, set_message, find_caller, erase_frame, create_data_hpai,
  create_control_hpai,
}
use libknx.Connection.Tunneling.Requests.{send_request, written}
use libknx.Connection.Tunneling.Close.{reset, close_without_disconnect, begin_close}

unfoldable pub is_timeout : State → Bool
is_timeout timeout = true
is_timeout _ = false

module _ (native : Endian) where
  unfoldable pub start_connection : Connection → Connection
  start_connection c =
      let c1 = record c {
        control_socket = UdpSocket.start c.control_socket;
        data_socket = UdpSocket.start c.data_socket;
        sequence = 0;
      } in
      let request = connect_request (record {
        control_end_point = create_control_hpai c1;
        data_end_point = create_data_hpai c1;
        cri = new_tunneling;
      }) in
      send_request native request start c1

  -- The sequence number is a `std::uint8_t`.
  unfoldable pub send : Cemi → Connection → Connection
  send cemi c =
      let request = tunnel_request (record {
        connection_header = record { channel = c.channel_id; sequence = c.sequence; status = 0 };
        cemi = cemi;
      }) in
      send_request native request send_cemi (record c { sequence = (c.sequence + 1) % 256 })

  -- `close` where nobody waits behind it, or where who waits only returns.
  unfoldable pub close : Caller → Connection → Connection
  close caller c = if c.closing_down then c else begin_close native caller c

  unfoldable pub send_answered : ResponseVariant → Connection → Connection
  send_answered (tunnel_ack r) c =
      if r.connection_header.status == 0 then c else close close_for_ack c
  send_answered _ c = c

  -- The next turn of the loop waits for the timer again.
  unfoldable pub check_answered : ResponseVariant → Connection → Connection
  check_answered (connect_state r) c =
      if r.status == 0 then record c { checks = suc c.checks } else close close_for_check c
  check_answered _ c = c

  -- One turn of the loop in `checkConnection`: an error ends it.
  unfoldable pub on_check_timer : Bool → Connection → Connection
  on_check_timer is_error c =
      let request =
        connect_state_request
          (record { control_end_point = create_control_hpai c; channel_id = c.channel_id }) in
      elim c.checks [
        | zero ↦ c
        | suc n ↦
            if is_error
            then record c { checks = n }
            else send_request native request check_connection (record c { checks = n })
      ]

  unfoldable pub describe : Connection → Connection
  describe c =
      send_request native
        (description_request (record { control_end_point = create_control_hpai c }))
        print_description c

-- What is done with the object behind a pointer.
abbrev pub deref : Option Item → (Item → Outcome Connection) → Outcome Connection
deref none k = failed use_after_free
deref (some i) k = k i

-- The end of `sendRequest`: the response is read through the pointer, the item is erased, and the
-- caller goes on.
unfoldable pub finish :
    ℕ → (ResponseVariant → Connection → Outcome Connection) → Connection → Outcome Connection
finish p k c =
    deref (find_item p c.send_items)
      (λ i. k i.message.response (record c { send_items = erase_item p c.send_items }))

-- The coroutine `AsyncMessageState::send` of an item goes on, if there is one.
abbrev pub resume :
    Option Caller → ℕ → Connection → (Item → Caller → Outcome Connection) → Outcome Connection
resume none p c k = done c
resume (some caller) p c k = deref (find_item p c.send_items) (λ i. k i caller)

-- The end of `close`.
unfoldable pub close_answered : Connection → Connection
close_answered c = record (close_without_disconnect c) { closing_down = false }

module _ (native : Endian) (make_address_v4 : List ℕ → IpAddress) where
  -- `start` behind its request: the status of the response is not looked at.
  unfoldable pub connected : ConnectResponse → Connection → Connection
  connected r c = for_every_listener on_connect (record c {
    channel_id = r.channel_id;
    remote_data_end_point = record {
      address = make_address_v4 (as_string r.data_end_point.address);
      port = r.data_end_point.port;
    };
    checks = suc c.checks;
    knx_address = r.crd.address;
  })

  unfoldable pub start_answered : ResponseVariant → Connection → Connection
  start_answered (connect r) c = connected r c
  start_answered _ c = reset c

  -- The caller of `sendRequest` goes on with the answer.
  unfoldable pub return_answer : Caller → ResponseVariant → Connection → Outcome Connection
  return_answer start r c = done (start_answered r c)
  return_answer send_cemi r c = done (send_answered native r c)
  return_answer check_connection r c = done (check_answered native r c)
  return_answer print_description r c = done c
  return_answer close_for_user r c = done (close_answered c)
  return_answer close_for_ack r c = done (close_answered c)
  return_answer close_for_check r c = done (close_answered c)
  return_answer (close_for_timeout p caller) r c =
      finish p (return_answer caller) (close_answered c)

  -- `sendRequest` behind `item->send()`.
  unfoldable pub send_returned : ℕ → Caller → State → Connection → Outcome Connection
  send_returned p caller s c =
      if is_timeout s
      then (if c.closing_down
          then finish p (return_answer caller) c
          else done (begin_close native (close_for_timeout p caller) c))
      else finish p (return_answer caller) c

  -- The message of an item has moved on: it waits, it is written again, or its `send` has returned.
  unfoldable pub message_moved :
      Item → Caller → AsyncMessage ResponseVariant → Connection → Outcome Connection
  message_moved i caller m c =
      let moved = record c { send_items = set_message i.pointer m c.send_items } in
      elim m.place [
        | idle ↦ done moved
        | in_wait ↦ done moved
        | in_send ↦ done (act (written native i.request moved ∷ []) moved)
        | returned ↦
            send_returned i.pointer caller m.state
              (record moved { frames = erase_frame i.pointer moved.frames })
      ]

  -- An event that the coroutine does not wait for is none of its.
  abbrev pub sent_to : Connection → Item → Caller → Outcome Connection
  sent_to c i caller = elim i.message.place [
    | in_send ↦ message_moved i caller (AsyncMessage.step i.message sent) c
    | _ ↦ done c
  ]

  abbrev pub waited_by : Waited → Connection → Item → Caller → Outcome Connection
  waited_by w c i caller = elim i.message.place [
    | in_wait ↦ message_moved i caller (AsyncMessage.step i.message (waited w)) c
    | _ ↦ done c
  ]

  unfoldable pub on_sent : ℕ → Connection → Outcome Connection
  on_sent p c = resume (find_caller p c.frames) p c (sent_to c)

  unfoldable pub on_waited : ℕ → Waited → Connection → Outcome Connection
  on_waited p w c = resume (find_caller p c.frames) p c (waited_by w c)
