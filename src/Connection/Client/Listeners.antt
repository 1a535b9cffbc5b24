-- ===== src/Connection/Client/Listeners.antt =====
-- The calls of listeners. The client holds them as weak pointers; which of them are alive is the
-- environment's, and does not change during a call.
use libknx.Prelude.{
  ℕ, List, [], ◌∷◌, ◌++◌, Bool, false, not, Option, ◌||◌, some, none, if◌then◌else◌, ◌==◌,
}
use libknx.Cemi.DataAcpi.{group_value_read, group_value_response, group_value_write}
use libknx.Cemi.CemiFrame.{Cemi, l_data_ind, l_data_con}
use libknx.Headers.KnxAddress
use libknx.Connection.AsyncMessage
use libknx.Connection.AsyncMessage.{set_response}
use libknx.Connection.Outcome.{Outcome, done, failed, null_pointer, ◌>>=◌}
use libknx.Connection.Tunneling.State.{get_knx_address}
use libknx.Connection.Client.State.{
  Client, Call, on_connect, on_disconnect, on_group_read, on_group_read_response, on_group_write,
  Told, Request, to_map_key, get_group, at_key, set_message,
}

unfoldable pub add_listener : ℕ → Client → Client
add_listener listener c = record c {
  connection_listeners = c.connection_listeners ++ listener ∷ [];
}

-- The loop: every listener that is alive is called; a call may throw.
unfoldable pub call_all : (ℕ → Bool) → Outcome Call → List ℕ → Outcome (List Told)
call_all alive call [] = done []
call_all alive call (l ∷ ls) =
    let rest = call_all alive call ls in
    if alive l
    then (do this ← call; others ← rest; done (record { listener = l; call = this } ∷ others))
    else rest

unfoldable pub has_loose_listener : (ℕ → Bool) → List ℕ → Bool
has_loose_listener alive [] = false
has_loose_listener alive (l ∷ ls) = not (alive l) || has_loose_listener alive ls

-- `std::erase_if` of the expired pointers.
unfoldable pub erase_expired : (ℕ → Bool) → List ℕ → List ℕ
erase_expired alive [] = []
erase_expired alive (l ∷ ls) =
    let rest = erase_expired alive ls in if alive l then l ∷ rest else rest

module _ (alive : ℕ → Bool) where
  unfoldable pub for_every_listener : Outcome Call → Client → Outcome Client
  for_every_listener call c = do
    told ← call_all alive call c.connection_listeners
    done (record c {
      told = c.told ++ told;
      connection_listeners =
          (if has_loose_listener alive c.connection_listeners
            then erase_expired alive c.connection_listeners
            else c.connection_listeners);
    })

  unfoldable pub connected : Client → Outcome Client
  connected c = for_every_listener (done on_connect) c

  unfoldable pub disconnected : Client → Outcome Client
  disconnected c = for_every_listener (done on_disconnect) c

  -- The `switch` on the type.
  unfoldable pub update_listeners : Cemi → Client → Outcome Client
  update_listeners cemi c =
      let acpi = cemi.npdu.data_acpi in
      if acpi.type == group_value_read
      then for_every_listener
          (do address ← get_group cemi.destination; done (on_group_read cemi.source address)) c
      else if acpi.type == group_value_response
      then for_every_listener
          (do
            address ← get_group cemi.destination
            done (on_group_read_response cemi.source address acpi.payload))
          c
      else if acpi.type == group_value_write
      then for_every_listener
          (do
            address ← get_group cemi.destination
            done (on_group_write cemi.source address acpi.payload))
          c
      else done c

  unfoldable pub check_for_update_listener : Cemi → Client → Outcome Client
  check_for_update_listener cemi c =
      if cemi.message_code == l_data_ind then update_listeners cemi c else done c

-- The response for what stands under a key, if anything does.
abbrev pub answer : Option Request → Cemi → Client → Client
answer none cemi c = c
answer (some r) cemi c = record c {
  requests =
      set_message r.pointer (AsyncMessage.step r.message (set_response (some cemi))) c.requests;
}

-- `requests.contains(key)`
unfoldable pub confirm : Cemi → ℕ → Client → Client
confirm cemi key c = answer (at_key key c.requests) cemi c

-- A frame that comes back from the address that the router gave the connection.
unfoldable pub confirmed : Cemi → Client → Outcome Client
confirmed cemi c = elim c.tunneling_connection [
  | none ↦ failed null_pointer
  | some t ↦
      if KnxAddress.equal cemi.source (get_knx_address t)
      then (do
        address ← get_group cemi.destination
        done (confirm cemi (to_map_key cemi address) c))
      else done c
]

unfoldable pub check_for_confirm : Cemi → Client → Outcome Client
check_for_confirm cemi c = if cemi.message_code == l_data_con then confirmed cemi c else done c

unfoldable pub on_incoming_cemi : (ℕ → Bool) → Cemi → Client → Outcome Client
on_incoming_cemi alive cemi c = do
  updated ← check_for_update_listener alive cemi c
  check_for_confirm cemi updated
