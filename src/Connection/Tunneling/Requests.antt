-- ===== src/Connection/Tunneling/Requests.antt =====
-- `sendRequest` up to where it waits.
use libknx.Prelude.{ℕ, suc, [], ◌∷◌, ◌++◌, if◌then◌else◌, ◌==◌}
use libknx.Bytes.Parser.{Endian}
use libknx.Message.Request
use libknx.Message.Request.{RequestVariant, get_service_type}
use libknx.Message.Response.{ResponseVariant, monostate}
use libknx.Connection.AsyncMessage
use libknx.Connection.AsyncMessage.{AsyncMessage, initial, idle}
use libknx.Connection.Tunneling.State.{
  Action, control_written, data_written, Item, Caller, Connection,
}

-- A `TunnelingSendState` as it is constructed: the response is the empty variant.
abbrev pub new_message : AsyncMessage ResponseVariant
new_message = record {
  state = initial;
  response = monostate;
  attempts = 0;
  place = idle;
  sends = 0;
}

-- The default of `send`'s parameter.
abbrev pub default_attempts : ℕ
default_attempts = 2

module _ (native : Endian) where
  -- The send method: `toBytes`, and out by the socket that the service type asks for. That the
  -- write completes is an event; a write that fails throws, which is not modelled.
  unfoldable pub written : RequestVariant → Connection → Action
  written q c =
      let bytes = Request.write native q [] in
      if get_service_type q == Request.tunnel_id
      then data_written c.remote_data_end_point bytes
      else control_written c.remote_control_end_point bytes

  unfoldable pub send_request : RequestVariant → Caller → Connection → Connection
  send_request q caller c =
      let item : Item = record {
        pointer = c.next_pointer;
        request = q;
        message = AsyncMessage.send default_attempts new_message;
      } in
      record c {
        send_items = c.send_items ++ item ∷ [];
        frames = c.frames ++ record { item = c.next_pointer; caller = caller } ∷ [];
        next_pointer = suc c.next_pointer;
        actions = c.actions ++ written q c ∷ [];
      }
