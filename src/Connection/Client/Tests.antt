-- ===== src/Connection/Client/Tests.antt =====
-- The theorems on a client connection, at examples.
use libknx.Prelude.{ℕ, suc, ◌+◌, ◌*◌, ◌^◌, ◌<◌, ◌≡◌, refl, [], ◌∷◌, Bool, arith, ◌==◌, some}
use libknx.Bytes.Parser.{little, big}
use libknx.Headers.KnxAddress.{GroupAddress}
use libknx.Message.Tests.{frame}
use libknx.Connection.AsyncMessage.{expired, aborted}
use libknx.Connection.Outcome.{done, failed, use_after_free, ◌>>=◌}
use libknx.Connection.Tunneling.Calls as Tunneling
use libknx.Connection.Tunneling.Tests.{running}
use libknx.Connection.Client.State.{Client, to_map_key, on_group_write}
use libknx.Connection.Client.Listeners.{on_incoming_cemi}
use libknx.Connection.Client.Requests.{send_cemi, write_to_group, on_sent, on_waited}
use libknx.Connection.Client.Laws.Keys.{to_map_key_lem, to_map_key-injective}
use libknx.Connection.Client.Laws.Listeners.{
  indication, told_of, call_of, on_incoming_cemi-indication,
}
use libknx.Connection.Client.Laws.Confirmed.{over, to_group, confirmation, send_cemi-confirmed}
use libknx.Connection.Client.Laws.Twice.{write_to_group-twice}

abbrev lamp : GroupAddress
lamp = record { high = 1; middle = 0; low = 1 }

-- Two listeners, of which the second has expired.
abbrev client : Client
client = record {
  tunneling_connection = some running;
  connection_listeners = 1 ∷ 2 ∷ [];
  requests = [];
  senders = [];
  next_pointer = 0;
  orphans = [];
  orphan_checks = 0;
  told = [];
}

abbrev alive : ℕ → Bool
alive l = l == 1

to_map_key_lem_example :
    (to_map_key frame lamp ≡ 2 + 1 * 256 + 0 * 65536 + 1 * 16777216)
    × (to_map_key frame lamp < 2 ^ 32)
to_map_key_lem_example =
    to_map_key_lem frame lamp (omega arith) (omega arith, omega arith, omega arith)

to_map_key-injective_example :
    (frame.npdu.data_acpi.type ≡ frame.npdu.data_acpi.type) × (lamp ≡ lamp)
to_map_key-injective_example =
    to_map_key-injective frame frame lamp lamp (omega arith) (omega arith)
      (omega arith, omega arith, omega arith) (omega arith, omega arith, omega arith) refl

on_incoming_cemi-indication_example :
    on_incoming_cemi alive (indication frame lamp) client
    ≡ done (told_of alive (call_of frame lamp) client)
on_incoming_cemi-indication_example = on_incoming_cemi-indication alive frame lamp client

-- The first listener is told, and the second is dropped.
written_run : told_of alive (call_of frame lamp) client ≡ record client {
  connection_listeners = 1 ∷ [];
  told = record { listener = 1; call = on_group_write frame.source lamp (0 ∷ []) } ∷ [];
}
written_run = refl

send_cemi-confirmed_example :
    (let t' = Tunneling.send little (to_group frame lamp) running in
      send_cemi little (to_group frame lamp) (over running client)
        >>= on_sent little 0
        >>= on_incoming_cemi alive (confirmation t' frame lamp)
        >>= on_waited little 0 aborted
      ≡ done (record client { tunneling_connection = some t'; next_pointer = suc 0 }))
send_cemi-confirmed_example = send_cemi-confirmed little alive frame lamp running client (tt, tt) tt

write_to_group-twice_example :
    (write_to_group big lamp (1 ∷ []) (over running client)
        >>= write_to_group big lamp (0 ∷ [])
        >>= on_sent big 0
      ≡ failed use_after_free)
    × (write_to_group big lamp (1 ∷ []) (over running client)
          >>= write_to_group big lamp (0 ∷ [])
          >>= on_waited big 0 expired
        ≡ failed use_after_free)
write_to_group-twice_example =
    write_to_group-twice big lamp (1 ∷ []) (0 ∷ []) expired running client (tt, tt)
