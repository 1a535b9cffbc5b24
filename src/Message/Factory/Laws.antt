-- ===== src/Message/Factory/Laws.antt =====
-- From the bytes of a datagram to the message, and which response answers which request.
use libknx.Prelude.{
  ℕ, ◌+◌, ◌-◌, ◌≤◌, ◌≡◌, ap, ◌∙◌, List, [], ◌∷◌, ◌++◌, length, append_assoc, arith, length-append,
  drop-append,
}
use libknx.Bytes.Parser.{
  Endian, Parser, ByteBufferReader, Result, ok, err, pure, ◌>>=◌, continue, advance,
}
use libknx.Bytes.Wire.{
  Reads, remaining, reader_after, remaining-advance, remaining-room, Reads-pure, Reads-bind,
  Reads-last,
}
use libknx.Headers.ConnectionHeader.{header_bytes}
use libknx.Message.IpHeader
use libknx.Message.IpHeader.{KnxIpHeader}
use libknx.Message.Request.{
  RequestVariant, no_request, tunnel_request, connect_state_request, connect_request,
  disconnect_request, search_request, description_request, get_service_type, write, by_value,
  left_at,
}
use libknx.Message.Request.Laws as Requests
use libknx.Message.Request.Laws.{IsRequest, body, request_bytes, received_request}
use libknx.Message.Response.Laws.{
  tunnel_ack-Reads, tunnel_ack_to_bytes_lem, disconnect-Reads, disconnect_to_bytes_lem,
}
use libknx.Message.Response.{
  TunnelAckResponse, DisconnectResponse, tunnel_ack_to_bytes, disconnect_to_bytes, tunnel_ack,
  disconnect,
}
use libknx.Message.Factory.{
  alternative, parse_request, parse_response, receive_request, receive_response,
}

-- The value of a parser, without the place where it stops.
abbrev pub value : {A : Type 0} → Result (A × ByteBufferReader) → Result A
value (ok (a, _)) = ok a
value (err e) = err e

-- `p` gives `a` on an input that starts with `bs`, wherever it stops.
pub record Gives {A : Type 0} (p : Parser A) (bs : List ℕ) (a : A) : Type 0 where
  pub run :
      (r : ByteBufferReader) (rest : List ℕ)
      → r.index ≤ length r.bytes
      → remaining r ≡ bs ++ rest
      → value (p r) ≡ ok a

Gives-Reads : {A : Type 0} {p : Parser A} {bs : List ℕ} {a : A} → Reads p bs a → Gives p bs a
Gives-Reads h = record { run = λ r rest l e. ap value (h.run r rest l e) }

Gives-bind :
    {A B : Type 0} {p : Parser A} (f : A → Parser B) {bs cs : List ℕ} {a : A} {b : B}
    → Reads p bs a
    → Gives (f a) cs b
    → Gives (p >>= f) (bs ++ cs) b
Gives-bind f {bs} {cs} hp hf = record {
  run = λ r rest h e.
      let e' = e ∙ append_assoc bs cs rest in
      ap (λ m. value (continue f m)) (hp.run r (cs ++ rest) h e')
      ∙ hf.run (advance r (length bs)) rest (remaining-room r bs (cs ++ rest) h e')
          (remaining-advance r bs (cs ++ rest) e');
}

pub alternative-Reads :
    {A B : Type 0} (f : A → B) {p : Parser A} {bs : List ℕ} {a : A}
    → Reads p bs a
    → Reads (alternative f p) bs (f a)
unfolding alternative
alternative-Reads f h = Reads-last _ h (Reads-pure _)

by_value-Gives :
    {A B : Type 0} (f : A → B) {p : Parser A} {bs : List ℕ} {a : A}
    → Reads p bs a
    → Gives (alternative f (by_value p)) bs (f a)
unfolding alternative by_value
by_value-Gives f h = record {
  run = λ r rest l e. ap (λ m. value (continue (λ a. pure (f a)) (left_at r m))) (h.run r rest l e);
}

module _ (native : Endian) where
  pub parse_request-Gives :
      (q : RequestVariant) (v : IsRequest native q) (n : ℕ)
      → Gives
          (parse_request native (record { service_type = get_service_type q; length_in_bytes = n }))
          (body native q v)
          (received_request native q)
  unfolding parse_request get_service_type
  parse_request-Gives (tunnel_request q) v n =
      Gives-Reads (alternative-Reads _ (Requests.parse_tunnel-Reads native q v))
  parse_request-Gives (connect_state_request q) v n =
      by_value-Gives _ (Requests.parse_connect_state-Reads native q v)
  parse_request-Gives (connect_request q) v n =
      by_value-Gives _ (Requests.parse_connect-Reads native q v)
  parse_request-Gives (disconnect_request q) v n =
      Gives-Reads (alternative-Reads _ (Requests.parse_disconnect-Reads native q v))
  parse_request-Gives (search_request q) v n =
      Gives-Reads (alternative-Reads _ (Requests.parse_search-Reads native q v))
  parse_request-Gives (description_request q) v n =
      Gives-Reads (alternative-Reads _ (Requests.parse_description-Reads native q v))
  parse_request-Gives no_request v n = absurd (omega (arith, v))

  -- Every request within its widths, written anywhere in a datagram, is read back by the header's
  -- parser and `parse_request` as the same request; of a tunnel request's frame the receiver sees
  -- what `received_cemi` says.
  pub receive_request-write :
      (q : RequestVariant)
      → IsRequest native q
      → (out rest : List ℕ)
      → value (receive_request native (reader_after out (write native q out ++ rest)))
        ≡ ok (received_request native q)
  unfolding receive_request
  receive_request-write q v out rest = rw ((Requests.write-Appends native q v).run out) (
      (Gives-bind _ (Requests.header-Reads native q v) (parse_request-Gives q v _)).run
        (reader_after out ((out ++ request_bytes native q v) ++ rest)) rest
        (omega (
          arith,
          length-append (out ++ request_bytes native q v) rest,
          length-append out (request_bytes native q v),
        ))
        (rw append_assoc (drop-append out (request_bytes native q v ++ rest))))

  -- The header that a request within its widths is written with announces the service type of the
  -- request, and exactly as many bytes as are written.
  pub announced-write :
      (q : RequestVariant)
      → IsRequest native q
      → (out rest : List ℕ)
      → value (IpHeader.parse native (reader_after out (write native q out ++ rest)))
        ≡ ok (record {
          service_type = get_service_type q;
          length_in_bytes = length (write native q out) - length out;
        })
  announced-write q v out rest = rw ((Requests.write-Appends native q v).run out) (
      (Gives-Reads (Requests.header-Reads native q v)).run
        (reader_after out ((out ++ request_bytes native q v) ++ rest)) (body native q v ++ rest)
        (omega (
          arith,
          length-append (out ++ request_bytes native q v) rest,
          length-append out (request_bytes native q v),
        ))
        (rw append_assoc (
          rw drop-append (
            append_assoc
              (IpHeader.header_bytes native (get_service_type q) (6 + length (body native q v)))
              (body native q v) rest)))
      ∙ ap (λ n. ok (record { service_type = get_service_type q; length_in_bytes = n }))
          (omega (arith, length-append out (request_bytes native q v))))

  -- The acknowledgement that a client sends is received as that acknowledgement, and the reader stops
  -- behind its ten bytes.
  pub receive_response-tunnel_ack :
      (a : TunnelAckResponse) (rest : List ℕ)
      → receive_response native (reader_after [] (tunnel_ack_to_bytes native a ++ rest))
        ≡ ok (tunnel_ack a, record { bytes = tunnel_ack_to_bytes native a ++ rest; index = 10 })
  unfolding receive_response parse_response
  receive_response-tunnel_ack a rest = rw (tunnel_ack_to_bytes_lem native a) (
      (Reads-bind _ (IpHeader.parse-Reads native 0x0421 10 (omega arith) (omega arith))
          (alternative-Reads tunnel_ack (tunnel_ack-Reads native a))).run
        (reader_after [] _) rest (omega arith)
        (append_assoc (IpHeader.header_bytes native 0x0421 10)
          (header_bytes native a.connection_header) rest))

  -- The disconnect response that a client sends is received as that response, and the reader stops
  -- behind its eight bytes.
  pub receive_response-disconnect :
      (d : DisconnectResponse) (rest : List ℕ)
      → receive_response native (reader_after [] (disconnect_to_bytes native d ++ rest))
        ≡ ok (disconnect d, record { bytes = disconnect_to_bytes native d ++ rest; index = 8 })
  unfolding receive_response parse_response
  receive_response-disconnect d rest = rw (disconnect_to_bytes_lem native d) (
      (Reads-bind _ (IpHeader.parse-Reads native 0x020a 8 (omega arith) (omega arith))
          (alternative-Reads disconnect (disconnect-Reads d))).run
        (reader_after [] _) rest (omega arith)
        (append_assoc (IpHeader.header_bytes native 0x020a 8) (d.channel ∷ d.status ∷ []) rest))
