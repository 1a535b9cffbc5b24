-- ===== src/Connection/Tunneling/Tests.antt =====
-- The theorems on a tunneling connection, at examples.
use libknx.Prelude.{
  ℕ, suc, ◌+◌, ◌%◌, ◌≡◌, ◌≢◌, ◌⊎◌, inl, refl, List, [], ◌∷◌, ◌++◌, map, All, true, false, arith,
  if◌then◌else◌, ◌==◌,
}
use libknx.Bytes.Parser.{little, big}
use libknx.Headers.IpAddress.{IpAddress}
use libknx.Headers.Hpai
use libknx.Cemi.CemiFrame.Laws.{received_cemi}
use libknx.Message.Request.{
  DisconnectRequest, tunnel_request, disconnect_request, matches_response, write,
}
use libknx.Message.Response.{
  TunnelAckResponse, tunnel_ack, tunnel_ack_to_bytes, disconnect_to_bytes,
}
use libknx.Message.Tests.{frame, header, tunnel-IsRequest}
use libknx.Connection.AsyncMessage.{expired, aborted}
use libknx.Connection.Outcome.{done, failed, use_after_free}
use libknx.Connection.Tunneling.State.{
  Endpoint, Connection, Item, send_cemi, close_for_ack, close_for_timeout, control_written, told,
  on_disconnect, on_incoming_cemi, no_address, find_caller,
}
use libknx.Connection.Tunneling.Requests.{send_request, written}
use libknx.Connection.Tunneling.Close.{close_nested, close_without_disconnect, begin_close, reset}
use libknx.Connection.Tunneling.Receive.{on_receive_data}
use libknx.Connection.Tunneling.Calls.{on_sent, on_waited, send, close}
use libknx.Connection.Tunneling.Run.{call_send, call_describe, sent, waited, datagram, run}
use libknx.Connection.Tunneling.Laws.Close.{closed, close_without_disconnect_lem}
use libknx.Connection.Tunneling.Laws.Receive.{
  on_receive_data-tunnel_request, on_receive_data-disconnect_request,
}
use libknx.Connection.Tunneling.Laws.Matching.{FirstMatch, tunnel_ack-FirstMatch}
use libknx.Connection.Tunneling.Laws.Pointers.{reset_dangles}
use libknx.Connection.Tunneling.Laws.Safety.{resume_safe}
use libknx.Connection.Tunneling.Laws.Sending.{silence}
use libknx.Connection.Tunneling.Laws.Silence.{
  carrying, given_up_on, send-silence, silent_router-dangles,
}
use libknx.Connection.Tunneling.Laws.Acknowledged.{acknowledgement, send-acknowledged}

abbrev router : Endpoint
router = record { address = record { address = (192, 168, 1, 2) }; port = 3671 }

-- In place of asio's parser of addresses.
abbrev pub make_address : List ℕ → IpAddress
make_address text = record { address = (192, 168, 1, 2) }

-- A connection with an open data socket, two listeners and the last sequence number.
abbrev pub running : Connection
running = record {
  remote_control_end_point = router;
  remote_data_end_point = router;
  local_bind_ip = record { address = (192, 168, 1, 3) };
  data_port = 3672;
  control_port = 3673;
  data_socket = record { port = 3672; is_open = true };
  control_socket = record { port = 3673; is_open = false };
  channel_id = 7;
  connection_listeners = 1 ∷ 2 ∷ [];
  closing_down = false;
  sequence = 255;
  send_items = [];
  knx_address = record { high = 1; middle = 1; low = 250 };
  checks = 1;
  frames = [];
  next_pointer = 4;
  actions = [];
}

-- The same with a frame on its way.
abbrev sending : Connection
unfolding send send_request
sending = send little frame running

close_without_disconnect_lem_example :
    (close_nested (suc (suc (suc 2))) running ≡ close_without_disconnect running)
    × (close_without_disconnect running ≡ closed running)
close_without_disconnect_lem_example = close_without_disconnect_lem 2 running

on_receive_data-tunnel_request_example :
    on_receive_data little
      (write little (tunnel_request (record { connection_header = header; cemi = frame })) []
        ++ 0 ∷ [])
      running
    ≡ done (record running {
      actions =
          []
          ++ (control_written router
                (tunnel_ack_to_bytes little (record { connection_header = header }))
              ∷ map (λ l. told l (on_incoming_cemi (received_cemi frame))) (1 ∷ 2 ∷ []));
    })
on_receive_data-tunnel_request_example =
    on_receive_data-tunnel_request little (record { connection_header = header; cemi = frame })
      tunnel-IsRequest (0 ∷ []) running

abbrev leaving : DisconnectRequest
leaving = record {
  channel = 7;
  control_endpoint = Hpai.new (record { address = (192, 168, 1, 2) }) 3671 Hpai.udp;
}

on_receive_data-disconnect_request_example :
    on_receive_data big (write big (disconnect_request leaving) [] ++ []) running
    ≡ done (
        if 7 == 7
        then record running {
          send_items = [];
          sequence = 0;
          knx_address = no_address;
          actions =
              []
              ++ (control_written router
                    (disconnect_to_bytes big (record { channel = 7; status = 0 }))
                  ∷ map (λ l. told l on_disconnect) (1 ∷ 2 ∷ []));
        }
        else running)
on_receive_data-disconnect_request_example =
    on_receive_data-disconnect_request big leaving (omega arith) [] running

abbrev ack : TunnelAckResponse
ack = record { connection_header = record { channel = 7; sequence = 255; status = 0 } }

tunnel_ack-FirstMatch_example :
    (items : List Item) × (on_receive_data little (tunnel_ack_to_bytes little ack ++ []) sending
      ≡ done (record sending { send_items = items }))
    × (((items ≡ sending.send_items)
          × All (λ j. matches_response j.request (tunnel_ack ack) ≡ false) sending.send_items)
        ⊎ FirstMatch (tunnel_ack ack) sending.send_items items)
tunnel_ack-FirstMatch_example = tunnel_ack-FirstMatch little ack [] sending

reset_dangles_example :
    (on_sent little make_address 4 (reset sending) ≡ failed use_after_free)
    × (on_waited little make_address 4 expired (reset sending) ≡ failed use_after_free)
unfolding find_caller sending
reset_dangles_example = reset_dangles little make_address 4 expired send_cemi sending refl

resume_safe_example :
    (on_sent little make_address 4 sending ≢ failed use_after_free)
    × (on_waited little make_address 4 expired sending ≢ failed use_after_free)
unfolding find_caller sending
resume_safe_example =
    resume_safe little make_address 4 expired send_cemi sending (inl refl, tt) refl refl

send-silence_example :
    run little make_address (call_send frame ∷ silence 4 (call_describe ∷ [])) running
    ≡ run little make_address (call_describe ∷ []) (
        begin_close little
          (close_for_timeout 4 send_cemi)
          (given_up_on little make_address frame running))
send-silence_example =
    send-silence little make_address frame running (call_describe ∷ []) (tt, tt) refl

silent_router-dangles_example :
    run little make_address (call_send frame ∷ silence 4 (silence 5 [])) running
    ≡ failed use_after_free
silent_router-dangles_example =
    silent_router-dangles little make_address frame running [] (tt, tt) refl

send-acknowledged_example :
    run big make_address
      (call_send frame
        ∷ sent 4
        ∷ datagram (tunnel_ack_to_bytes big (acknowledgement running 0) ++ [])
        ∷ waited 4 aborted
        ∷ [])
      running
    ≡ (let after = record running {
      sequence = (255 + 1) % 256;
      next_pointer = suc 4;
      actions = [] ++ written big (carrying frame running) running ∷ [];
    } in
        run big make_address [] (if 0 == 0 then after else close big close_for_ack after))
send-acknowledged_example = send-acknowledged big make_address frame 0 [] running [] (tt, tt) tt
