-- ===== src/Connection/Tests.antt =====
-- The theorems on awaited messages, at examples.
use libknx.Prelude.{ℕ, ◌+◌, ◌≤◌, ◌≡◌, refl, arith, [], ◌∷◌, ◌==◌, if◌then◌else◌}
use libknx.Bytes.Parser.{little}
use libknx.Bytes.Writer.{write_uint8, write_byte_span, write_uint16}
use libknx.Headers.IpAddress
use libknx.Headers.Hpai
use libknx.Message.IpHeader
use libknx.Message.Request.{write_search}
use libknx.Connection.Discovery.{make_search_request}
use libknx.Connection.AsyncMessage.{
  initial, ok, sending, timeout, idle, in_wait, returned, expired, sent, waited, set_response,
  AsyncMessage, send, step, called, next,
}
use libknx.Connection.AsyncMessage.Laws.{
  sends-Reachable, run, unanswered, timed_out, send-unanswered, set_response-waited,
}

-- The search for routers as it is sent, from the multicast address and port of KNXnet/IP.
search_run :
    make_search_request little
    ≡ 0x06 ∷ 0x10 ∷ 0x02 ∷ 0x01 ∷ 0x00 ∷ 0x0e ∷ 0x08 ∷ 0x01 ∷ 224 ∷ 0 ∷ 23 ∷ 12 ∷ 0x0e ∷ 0x57 ∷ []
unfolding make_search_request write_search IpHeader.write Hpai.write IpAddress.write write_uint8
    write_byte_span write_uint16
search_run = refl

-- A message whose responses are numbers.
abbrev fresh : AsyncMessage ℕ
fresh = record { state = initial; response = 0; attempts = 0; place = idle; sends = 0 }

abbrev waiting : AsyncMessage ℕ
waiting = record { state = sending; response = 0; attempts = 0; place = in_wait; sends = 2 }

sends-Reachable_example : (step (send 2 fresh) sent).sends ≤ 2
sends-Reachable_example =
    sends-Reachable 2 fresh (step (send 2 fresh) sent) (omega arith) refl
      (next (send 2 fresh) sent called tt)

send-unanswered_example : run (send 2 fresh) (unanswered 2) ≡ timed_out fresh (0 + 2)
send-unanswered_example = send-unanswered 2 fresh (omega arith)

set_response-waited_example :
    run waiting (set_response 7 ∷ waited expired ∷ [])
    ≡ record waiting { state = if 0 == 0 then timeout else ok; response = 7; place = returned }
set_response-waited_example = set_response-waited waiting 7 expired refl
