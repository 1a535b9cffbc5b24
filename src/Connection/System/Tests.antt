-- ===== src/Connection/System/Tests.antt =====
-- The theorems on a client and its tunneling connection, at examples.
use libknx.Prelude.{
  ℕ, suc, ◌+◌, ◌<◌, ◌≡◌, refl, List, [], ◌∷◌, ◌++◌, Bool, true, arith, length, some, none,
}
use libknx.Bytes.Parser.{little}
use libknx.Bytes.Writer.{write_uint8, write_byte_span, write_vector}
use libknx.Headers.KnxAddress.{GroupAddress}
use libknx.Headers.KnxAddress.Individual
use libknx.Headers.KnxAddress.Group
use libknx.Cemi.AdditionalInformation
use libknx.Cemi.Control
use libknx.Cemi.Tpci
use libknx.Cemi.DataAcpi
use libknx.Cemi.NpduFrame
use libknx.Cemi.CemiFrame
use libknx.Cemi.CemiFrame.Laws.{received_cemi}
use libknx.Message.Request.{tunnel_request, write}
use libknx.Message.Request.Laws.{IsTunnel}
use libknx.Message.Response.{tunnel_ack_to_bytes}
use libknx.Message.Tests.{frame, header, tunnel-IsRequest}
use libknx.Connection.AsyncMessage
use libknx.Connection.AsyncMessage.{aborted}
use libknx.Connection.Outcome.{Outcome, done, failed}
use libknx.Connection.Tunneling.State.{Connection, get_knx_address}
use libknx.Connection.Tunneling.Run as Tunneling
use libknx.Connection.Tunneling.Tests as Tunnels
use libknx.Connection.Tunneling.Laws.Acknowledged.{acknowledgement}
use libknx.Connection.Client.State as Client
use libknx.Connection.Client.State.{Client, get_group, erase_key, to_map_key}
use libknx.Connection.Client.Requests.{request_frame, send_read_group, send_cemi, forward}
use libknx.Connection.Client.Laws.Listeners.{indication, call_of, told_of}
use libknx.Connection.Client.Laws.Confirmed.{over, confirmation}
use libknx.Connection.System.{
  below, sent, waited, call_write_to_group, call_send_read_group, create_tunneling_client,
  step_below, step, run, Input, tell,
}
use libknx.Connection.Tunneling.Calls as Calls
use libknx.Connection.Tunneling.Requests.{send_request}
use libknx.Connection.Tunneling.State as Tunnel
use libknx.Connection.System.Laws.{writing, acknowledged, notified, confirming}
use libknx.Connection.System.Confirmed.{write_to_group-confirmed}
use libknx.Connection.System.Living.{IsSafe, IsPaired}
use libknx.Connection.System.Safety.{AllFresh, created-run-IsSafe, created-run-IsPaired}
use libknx.Connection.Client.Requests as Requests
use libknx.Connection.Tunneling.Laws.Close.{open_sockets, closed}
use libknx.Connection.System.{close_returned, bereft}
use libknx.Connection.System.Closing.{disconnected_times, close_returned-told}
use libknx.Connection.System.Indication.{datagram-told}

-- A connection that the client alone listens to.
abbrev tunnel : Connection
tunnel = record (Tunnels.running) { connection_listeners = 0 ∷ [] }

abbrev client : Client
client = record {
  tunneling_connection = none;
  connection_listeners = 1 ∷ [];
  requests = [];
  senders = [];
  next_pointer = 0;
  orphans = [];
  orphan_checks = 0;
  told = [];
}

abbrev lamp : GroupAddress
lamp = record { high = 1; middle = 0; low = 1 }

abbrev alive : ℕ → Bool
alive l = true

confirming-size :
    length (CemiFrame.write (confirmation tunnel (writing lamp (1 ∷ [])) lamp) []) + 10 < 65536
unfolding CemiFrame.write CemiFrame.write_address Control.write Control.first_byte
    Control.second_byte Control.set_bit Control.to_number Individual.write Group.to_bytes
    NpduFrame.write DataAcpi.write DataAcpi.one_byte_data DataAcpi.no_data DataAcpi.is_small
    Tpci.to_byte AdditionalInformation.write AdditionalInformation.write_elements
    AdditionalInformation.write_element AdditionalInformation.total_length
    AdditionalInformation.frame_size write_uint8 write_byte_span write_vector request_frame
    get_knx_address
confirming-size = omega arith

confirming-IsTunnel : IsTunnel little (confirming header (writing lamp (1 ∷ [])) lamp tunnel)
unfolding request_frame get_knx_address
confirming-IsTunnel = record {
  cemi = record {
    information = omega arith;
    hops = omega arith;
    source = (omega arith, omega arith, omega arith);
    destination = (refl, (omega arith, omega arith, omega arith));
    npdu = record {
      sequence = omega arith;
      type = omega arith;
      bytes = (omega arith, tt);
      counted = omega arith;
    };
  };
  size = confirming-size;
}

write_to_group-confirmed_example :
    run little Tunnels.make_address alive
      (call_write_to_group lamp (1 ∷ [])
        ∷ below (Tunneling.sent 4)
        ∷ below (Tunneling.datagram (tunnel_ack_to_bytes little (acknowledgement tunnel 0) ++ []))
        ∷ below (Tunneling.waited 4 aborted)
        ∷ sent 0
        ∷ below (
            Tunneling.datagram (
              write little
                (tunnel_request (confirming header (writing lamp (1 ∷ [])) lamp tunnel))
                []
              ++ []))
        ∷ waited 0 aborted
        ∷ [])
      (over tunnel client)
    ≡ done (record client {
      tunneling_connection = some (
          notified little header
            (confirmation tunnel (writing lamp (1 ∷ [])) lamp)
            (acknowledged little (writing lamp (1 ∷ [])) tunnel));
      next_pointer = suc 0;
    })
write_to_group-confirmed_example =
    write_to_group-confirmed little Tunnels.make_address alive lamp (1 ∷ []) header tunnel client
      (tt, tt) (tt, tt) refl tt tt confirming-IsTunnel

datagram-told_example :
    step_below little Tunnels.make_address alive
      (Tunneling.datagram (
        write little
          (tunnel_request (record { connection_header = header; cemi = indication frame lamp }))
          []
        ++ []))
      (over tunnel client)
    ≡ done (
        told_of alive
          (call_of (received_cemi frame) lamp)
          (over (notified little header (indication frame lamp) tunnel) client))
datagram-told_example =
    datagram-told little Tunnels.make_address alive frame lamp header [] tunnel client refl
      tunnel-IsRequest

-- What the factory makes, for a router at 192.168.1.1.
abbrev created : Client
created =
    create_tunneling_client
      (record { address = record { address = (192, 168, 1, 1) }; port = 3671 })
      (record { address = (192, 168, 1, 2) }) 5000 5001

abbrev state_of : Outcome Client → Client
state_of (done c) = c
state_of (failed e) = created

-- Two requests are under way.
abbrev busy : List Input
busy =
    call_send_read_group lamp
    ∷ call_send_read_group (record lamp { low = 2 })
    ∷ below (Tunneling.sent 0)
    ∷ []

abbrev ended : Client
ended = state_of (run little Tunnels.make_address alive busy created)

created_run : run little Tunnels.make_address alive busy created ≡ done ended
unfolding create_tunneling_client run step send_read_group send_cemi get_group forward Client.new
    Calls.send erase_key send_request Tunnel.new to_map_key step_below Tunneling.step Calls.on_sent
    Tunnel.find_caller Tunnel.find_item AsyncMessage.send AsyncMessage.loop AsyncMessage.is_sending
    Calls.message_moved AsyncMessage.step AsyncMessage.after_send AsyncMessage.is_settled tell
created_run = refl

busy_fresh : AllFresh little Tunnels.make_address alive busy created
unfolding create_tunneling_client run step send_read_group send_cemi get_group forward Client.new
    Calls.send erase_key send_request Tunnel.new to_map_key step_below Tunneling.step Calls.on_sent
    Tunnel.find_caller Tunnel.find_item AsyncMessage.send AsyncMessage.loop AsyncMessage.is_sending
    Calls.message_moved AsyncMessage.step AsyncMessage.after_send AsyncMessage.is_settled tell
busy_fresh = (tt, ((refl, tt), (tt, tt)))

created-run-IsSafe_example :
    IsSafe (Requests.on_sent little 0 ended) × IsSafe (Requests.on_waited little 0 aborted ended)
created-run-IsSafe_example =
    created-run-IsSafe little Tunnels.make_address alive busy
      (record { address = record { address = (192, 168, 1, 1) }; port = 3671 })
      (record { address = (192, 168, 1, 2) }) 5000 5001 ended busy_fresh created_run 0 aborted

created-run-IsPaired_example : IsPaired ended
created-run-IsPaired_example =
    created-run-IsPaired little Tunnels.make_address alive busy
      (record { address = record { address = (192, 168, 1, 1) }; port = 3671 })
      (record { address = (192, 168, 1, 2) }) 5000 5001 ended busy_fresh created_run

close_returned-told_example :
    close_returned alive (over tunnel client)
    ≡ done (disconnected_times alive (suc (open_sockets tunnel)) (bereft (closed tunnel) client))
close_returned-told_example = close_returned-told alive tunnel client refl
