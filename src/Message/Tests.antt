-- ===== src/Message/Tests.antt =====
-- Runs on the frames of src/test/requests/TunnelingRequestTests.cpp, and the theorems at examples.
use libknx.Prelude.{
  ℕ, ◌+◌, ◌-◌, ◌<◌, ◌≡◌, ◌≢◌, ◌↔◌, refl, List, [], ◌∷◌, ◌++◌, length, drop, true, false, arith, suc,
}
use libknx.Bytes.Parser.{little, big, ok}
use libknx.Bytes.Wire.{reader_after}
use libknx.Bytes.Writer.{write_uint8, write_byte_span, write_vector}
use libknx.Headers.KnxAddress.Individual
use libknx.Headers.KnxAddress.Group
use libknx.Cemi.AdditionalInformation
use libknx.Cemi.Tpci
use libknx.Headers.Hpai
use libknx.Headers.Hpai.{Hpai}
use libknx.Headers.ConnectionHeader.{ConnectionHeader}
use libknx.Cemi.CemiFrame
use libknx.Cemi.CemiFrame.{Cemi, group}
use libknx.Cemi.CemiFrame.Laws.{IsCemi, parse-write_cemi, received_cemi}
use libknx.Cemi.NpduFrame
use libknx.Cemi.NpduFrame.{NpduFrame}
use libknx.Cemi.NpduFrame.Laws.{received, parse-write_npdu}
use libknx.Cemi.Control
use libknx.Cemi.Control.{Control}
use libknx.Cemi.DataAcpi
use libknx.Message.IpHeader
use libknx.Message.IpHeader.{KnxIpHeader}
use libknx.Message.Request.{
  RequestVariant, tunnel_request, connect_state_request, no_request, get_service_type,
  matches_response, write,
}
use libknx.Message.Request.Laws.{IsRequest, received_request}
use libknx.Message.Response
use libknx.Message.Response.{
  ResponseVariant, TunnelAckResponse, tunnel_ack, disconnect, monostate, tunnel_ack_to_bytes,
  disconnect_to_bytes,
}
use libknx.Message.Factory.{
  request, response, get_type, parse_request, parse_response, receive_request,
}
use libknx.Message.Factory.Laws.{value, receive_request-write, announced-write}
use libknx.Message.Factory.Types.{get_type-parsers}
use libknx.Message.Factory.Answers.{SameTunnel, matches_response_iff}

-- L_Data.ind 1.1.4->1/0/1 GroupValueWrite $00
abbrev pub frame : Cemi
frame = record {
  message_code = CemiFrame.l_data_ind;
  additional_information = record { elements = record { type = 1; payload = 0 ∷ 0x6c ∷ [] } ∷ [] };
  control = record (Control.new Control.low true 5) { system_broadcast = true };
  source = record { high = 1; middle = 1; low = 4 };
  destination = group (record { high = 1; middle = 0; low = 1 });
  npdu = record {
    tpci = record { is_control = false; has_sequence = false; sequence = 0 };
    data_acpi = DataAcpi.of_byte DataAcpi.group_value_write 0 true;
  };
}

pub frame-IsCemi : IsCemi frame
frame-IsCemi = record {
  information = omega arith;
  hops = omega arith;
  source = (omega arith, omega arith, omega arith);
  destination = (refl, (omega arith, omega arith, omega arith));
  npdu = record {
    sequence = omega arith;
    type = omega arith;
    bytes = (omega arith, tt);
    counted = omega arith;
  };
}

abbrev pub header : ConnectionHeader
header = record { channel = 1; sequence = 0; status = 0 }

abbrev pub tunnel : RequestVariant
tunnel = tunnel_request (record { connection_header = header; cemi = frame })

abbrev endpoint : Hpai
endpoint = Hpai.new (record { address = (192, 168, 1, 2) }) 3671 Hpai.udp

abbrev state : RequestVariant
state = connect_state_request (record { control_end_point = endpoint; channel_id = 7 })

-- The bytes of TEST_FRAME1.
abbrev test_frame1 : List ℕ
test_frame1 =
    0x06 ∷ 0x10 ∷ 0x04 ∷ 0x20 ∷ 0x00 ∷ 0x19 ∷ 0x04 ∷ 0x01 ∷ 0x00 ∷ 0x00 ∷ 0x29 ∷ 0x04 ∷ 0x01 ∷ 0x02
    ∷ 0x00 ∷ 0x6c ∷ 0xbc ∷ 0xd0 ∷ 0x11 ∷ 0x04 ∷ 0x08 ∷ 0x01 ∷ 0x01 ∷ 0x00 ∷ 0x80 ∷ []

-- The frame is written as the bytes of TEST_FRAME1 behind its headers.
frame_bytes : CemiFrame.write frame [] ≡ drop 10 test_frame1
unfolding CemiFrame.write CemiFrame.write_address Control.write Control.first_byte
    Control.second_byte Control.set_bit Control.to_number Individual.write Group.to_bytes
    NpduFrame.write DataAcpi.write DataAcpi.one_byte_data DataAcpi.no_data DataAcpi.is_small
    Tpci.to_byte AdditionalInformation.write AdditionalInformation.write_elements
    AdditionalInformation.write_element AdditionalInformation.total_length
    AdditionalInformation.frame_size write_uint8 write_byte_span write_vector
frame_bytes = refl

frame-size : length (CemiFrame.write frame []) + 10 < 65536
frame-size = rw frame_bytes (omega arith)

parse-write_cemi_example :
    CemiFrame.parse (reader_after (0x06 ∷ []) (CemiFrame.write frame (0x06 ∷ []) ++ []))
    ≡ ok (
      received_cemi frame,
      reader_after (CemiFrame.write frame (0x06 ∷ [])) (CemiFrame.write frame (0x06 ∷ []) ++ []),
    )
parse-write_cemi_example = parse-write_cemi frame frame-IsCemi (0x06 ∷ []) []

parse-write_npdu_example :
    NpduFrame.parse (reader_after [] (NpduFrame.write frame.npdu [] ++ 1 ∷ []))
    ≡ ok (
      received frame.npdu,
      reader_after (NpduFrame.write frame.npdu []) (NpduFrame.write frame.npdu [] ++ 1 ∷ []),
    )
parse-write_npdu_example = parse-write_npdu frame.npdu frame-IsCemi.npdu [] (1 ∷ [])

pub tunnel-IsRequest : IsRequest little tunnel
tunnel-IsRequest = record { cemi = frame-IsCemi; size = frame-size }

receive_request-write_example :
    value (receive_request little (reader_after [] (write little tunnel [] ++ 1 ∷ [])))
    ≡ ok (received_request little tunnel)
receive_request-write_example = receive_request-write little tunnel tunnel-IsRequest [] (1 ∷ [])

announced-write_example :
    value (IpHeader.parse big (reader_after [] (write big state [] ++ [])))
    ≡ ok (record {
      service_type = get_service_type state;
      length_in_bytes = length (write big state []) - 0;
    })
announced-write_example = announced-write big state (omega arith) [] []

get_type-parsers_example :
    ((get_type (record { service_type = 0x0421; length_in_bytes = 10 }) ≡ request) ↔ (
      parse_request little
        (record { service_type = 0x0421; length_in_bytes = 10 })
        (reader_after [] test_frame1)
      ≢ ok (no_request, reader_after [] test_frame1)))
    × ((get_type (record { service_type = 0x0421; length_in_bytes = 10 }) ≡ response) ↔ (
        parse_response little
          (record { service_type = 0x0421; length_in_bytes = 10 })
          (reader_after [] test_frame1)
        ≢ ok (monostate, reader_after [] test_frame1)))
get_type-parsers_example =
    get_type-parsers little (record { service_type = 0x0421; length_in_bytes = 10 })
      (reader_after [] test_frame1)

matches_response_iff_example :
    (matches_response tunnel (tunnel_ack (record { connection_header = header })) ≡ true) ↔ (
      (Response.get_service_type (tunnel_ack (record { connection_header = header }))
        ≡ suc (get_service_type tunnel))
      × SameTunnel tunnel (tunnel_ack (record { connection_header = header })))
matches_response_iff_example =
    matches_response_iff tunnel (tunnel_ack (record { connection_header = header }))
