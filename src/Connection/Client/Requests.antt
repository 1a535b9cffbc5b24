-- ===== src/Connection/Client/Requests.antt =====
-- The coroutines of a client connection.
use libknx.Prelude.{ℕ, suc, List, [], ◌∷◌, ◌++◌, Bool, true, false, Option, some, none}
use libknx.Bytes.Parser.{Endian}
use libknx.Headers.KnxAddress.{GroupAddress}
use libknx.Cemi.Control
use libknx.Cemi.Control.{low, default_hop_count}
use libknx.Cemi.DataAcpi.{
  DataAcpi, group_value_read, group_value_write, of_byte, of_vector, of_type,
}
use libknx.Cemi.CemiFrame
use libknx.Cemi.CemiFrame.{Cemi, group, l_data_req}
use libknx.Connection.AsyncMessage
use libknx.Connection.AsyncMessage.{
  AsyncMessage, initial, idle, in_send, in_wait, returned, Waited, sent, waited,
}
use libknx.Connection.Outcome.{Outcome, done, failed, use_after_free, null_pointer, ◌>>=◌}
use libknx.Connection.Tunneling.State.{no_address, close_for_user}
use libknx.Connection.Tunneling.Calls as Tunneling
use libknx.Connection.Client.State.{
  Client, Request, Sender, to_map_key, get_group, at_pointer, erase_key, set_message, find_sender,
  erase_sender,
}

abbrev pub new_message : AsyncMessage (Option Cemi)
new_message = record { state = initial; response = none; attempts = 0; place = idle; sends = 0 }

-- A `GROUP_VALUE_READ` and a `GROUP_VALUE_WRITE` as they are sent. The router fills in the source.
unfoldable pub request_frame : GroupAddress → DataAcpi → Cemi
request_frame address data_acpi =
    CemiFrame.new l_data_req (Control.new low true default_hop_count) no_address (group address)
      (record {
        tpci = record { is_control = false; has_sequence = false; sequence = 0 };
        data_acpi = data_acpi;
      })

module _ (native : Endian) where
  -- The send method: it begins a `send` of the tunneling connection, whose return is an event.
  unfoldable pub forward : Cemi → Client → Outcome Client
  forward cemi c = elim c.tunneling_connection [
    | none ↦ failed null_pointer
    | some t ↦ done (record c { tunneling_connection = some (Tunneling.send native cemi t) })
  ]

  -- `sendCemi` up to where it waits. An object that stands under the key already is destroyed.
  unfoldable pub send_cemi : Cemi → Client → Outcome Client
  send_cemi cemi c = do
    address ← get_group cemi.destination
    let key = to_map_key cemi address
    let request : Request = record {
      key = key;
      pointer = c.next_pointer;
      cemi = cemi;
      message = AsyncMessage.send 2 new_message;
    }
    forward cemi (record c {
      requests = erase_key key c.requests ++ request ∷ [];
      senders = c.senders ++ record { pointer = c.next_pointer; key = key } ∷ [];
      next_pointer = suc c.next_pointer;
    })

  unfoldable pub write_byte_to_group : GroupAddress → ℕ → Bool → Client → Outcome Client
  unfolding request_frame
  write_byte_to_group address value only_6_bits c =
      send_cemi (request_frame address (of_byte group_value_write value only_6_bits)) c

  unfoldable pub write_to_group : GroupAddress → List ℕ → Client → Outcome Client
  unfolding request_frame
  write_to_group address value c =
      send_cemi (request_frame address (of_vector group_value_write value)) c

  unfoldable pub send_read_group : GroupAddress → Client → Outcome Client
  unfolding request_frame
  send_read_group address c = send_cemi (request_frame address (of_type group_value_read)) c

  -- The message of a request has moved on. At its end `sendCemi` erases what stands under the key.
  unfoldable pub message_moved :
      Request → Sender → AsyncMessage (Option Cemi) → Client → Outcome Client
  message_moved r s m c =
      let moved = record c { requests = set_message r.pointer m c.requests } in
      elim m.place [
        | idle ↦ done moved
        | in_wait ↦ done moved
        | in_send ↦ forward r.cemi moved
        | returned ↦ done (record c {
          requests = erase_key s.key moved.requests;
          senders = erase_sender s.pointer c.senders;
        })
      ]

  -- What is done with the object behind a pointer.
  abbrev pub deref : Option Request → (Request → Outcome Client) → Outcome Client
  deref none k = failed use_after_free
  deref (some r) k = k r

  abbrev pub resume : Option Sender → Client → (Request → Sender → Outcome Client) → Outcome Client
  resume none c k = done c
  resume (some s) c k = deref (at_pointer s.pointer c.requests) (λ r. k r s)

  abbrev pub sent_to : Client → Request → Sender → Outcome Client
  sent_to c r s = elim r.message.place [
    | in_send ↦ message_moved r s (AsyncMessage.step r.message sent) c
    | _ ↦ done c
  ]

  abbrev pub waited_by : Waited → Client → Request → Sender → Outcome Client
  waited_by w c r s = elim r.message.place [
    | in_wait ↦ message_moved r s (AsyncMessage.step r.message (waited w)) c
    | _ ↦ done c
  ]

  -- The tunneling connection has sent the frame of a request.
  unfoldable pub on_sent : ℕ → Client → Outcome Client
  on_sent p c = resume (find_sender p c.senders) c (sent_to c)

  -- The timer of a request is done.
  unfoldable pub on_waited : ℕ → Waited → Client → Outcome Client
  on_waited p w c = resume (find_sender p c.senders) c (waited_by w c)

  -- `start` and `printDescription` up to where they wait; neither looks whether `close` has been
  -- called before.
  unfoldable pub start : Client → Outcome Client
  start c = elim c.tunneling_connection [
    | none ↦ failed null_pointer
    | some t ↦ done (record c { tunneling_connection = some (Tunneling.start_connection native t) })
  ]

  unfoldable pub print_description : Client → Outcome Client
  print_description c = elim c.tunneling_connection [
    | none ↦ failed null_pointer
    | some t ↦ done (record c { tunneling_connection = some (Tunneling.describe native t) })
  ]

  unfoldable pub close : Client → Client
  close c = elim c.tunneling_connection [
    | none ↦ c
    | some t ↦ record c { tunneling_connection = some (Tunneling.close native close_for_user t) }
  ]

-- `tunnelingConnection != nullptr`
unfoldable pub is_open : Client → Bool
is_open c = elim c.tunneling_connection [ none ↦ false | some _ ↦ true ]
