-- ===== src/Connection/Tunneling/State.antt =====
-- What a tunneling connection keeps. A `unique_ptr` of `sendItems` is an item with its pointer: a
-- pointer that stands in no item dangles. The two sockets are made by the constructor and never
-- given back, so the tests for a null pointer always succeed.
use libknx.Prelude.{
  ℕ, List, [], ◌∷◌, ◌++◌, map, Bool, false, Option, none, some, if◌then◌else◌, ◌==◌,
}
use libknx.Headers.IpAddress.{IpAddress}
use libknx.Headers.KnxAddress.{IndividualAddress}
use libknx.Headers.Hpai
use libknx.Headers.Hpai.{Hpai}
use libknx.Cemi.CemiFrame.{Cemi}
use libknx.Message.Request.{RequestVariant}
use libknx.Message.Response.{ResponseVariant}
use libknx.Connection.AsyncMessage.{AsyncMessage}
use libknx.Connection.UdpSocket
use libknx.Connection.UdpSocket.{UdpSocket}

-- `asio::ip::udp::endpoint`
pub record Endpoint : Type 0 where
  pub address : IpAddress
  pub port : ℕ

-- The methods of `ConnectionListener`.
pub data Call : Type 0 where
  on_connect : Call
  on_disconnect : Call
  on_incoming_cemi : Cemi → Call

-- What others see of the connection: datagrams that leave a socket, and calls of listeners.
pub data Action : Type 0 where
  control_written : Endpoint → List ℕ → Action
  data_written : Endpoint → List ℕ → Action
  told : ℕ → Call → Action

-- A `TunnelingSendState` on the heap, with the request that its matcher and send method refer to.
pub record Item : Type 0 where
  pub pointer : ℕ
  pub request : RequestVariant
  pub message : AsyncMessage ResponseVariant

-- Who goes on when `sendRequest` returns: one of the methods of the connection. `close` is called
-- by its user, by `send`, by the check of the connection, or by a `sendRequest` that timed out,
-- which goes on behind it with its own item and its own caller.
pub data Caller : Type 0 where
  start send_cemi check_connection print_description : Caller
  close_for_user close_for_ack close_for_check : Caller
  close_for_timeout : ℕ → Caller → Caller

-- A `sendRequest` that awaits `item->send()`.
pub record Frame : Type 0 where
  pub item : ℕ
  pub caller : Caller

-- `checks` counts the coroutines that await the timer in `checkConnection`; `actions` is the
-- history, the oldest first.
pub record Connection : Type 0 where
  pub remote_control_end_point : Endpoint
  pub remote_data_end_point : Endpoint
  pub local_bind_ip : IpAddress
  pub data_port : ℕ
  pub control_port : ℕ
  pub data_socket : UdpSocket
  pub control_socket : UdpSocket
  pub channel_id : ℕ
  pub connection_listeners : List ℕ
  pub closing_down : Bool
  pub sequence : ℕ
  pub send_items : List Item
  pub knx_address : IndividualAddress
  pub checks : ℕ
  pub frames : List Frame
  pub next_pointer : ℕ
  pub actions : List Action

abbrev pub no_address : IndividualAddress
no_address = record { high = 0; middle = 0; low = 0 }

-- The constructor. The addresses come as text in the source, and asio reads them.
unfoldable pub new : Endpoint → IpAddress → ℕ → ℕ → Connection
new remote local_bind_ip data_port control_port = record {
  remote_control_end_point = remote;
  remote_data_end_point = record { address = record { address = (0, 0, 0, 0) }; port = 0 };
  local_bind_ip = local_bind_ip;
  data_port = data_port;
  control_port = control_port;
  data_socket = UdpSocket.new data_port;
  control_socket = UdpSocket.new control_port;
  channel_id = 0;
  connection_listeners = [];
  closing_down = false;
  sequence = 0;
  send_items = [];
  knx_address = no_address;
  checks = 0;
  frames = [];
  next_pointer = 0;
  actions = [];
}

unfoldable pub add_listener : ℕ → Connection → Connection
add_listener listener c = record c {
  connection_listeners = c.connection_listeners ++ listener ∷ [];
}

unfoldable pub get_knx_address : Connection → IndividualAddress
get_knx_address c = c.knx_address

unfoldable pub create_data_hpai : Connection → Hpai
create_data_hpai c = Hpai.new c.local_bind_ip c.data_port Hpai.udp

unfoldable pub create_control_hpai : Connection → Hpai
create_control_hpai c = Hpai.new c.local_bind_ip c.control_port Hpai.udp

abbrev pub act : List Action → Connection → Connection
act actions c = record c { actions = c.actions ++ actions }

-- One call of every listener, in the order in which they were added.
unfoldable pub for_every_listener : Call → Connection → Connection
for_every_listener call c = act (map (λ l. told l call) c.connection_listeners) c

-- The object behind a pointer.
unfoldable pub find_item : ℕ → List Item → Option Item
find_item p [] = none
find_item p (i ∷ is) = if i.pointer == p then some i else find_item p is

-- `std::erase_if` by pointer
unfoldable pub erase_item : ℕ → List Item → List Item
erase_item p [] = []
erase_item p (i ∷ is) = if i.pointer == p then erase_item p is else i ∷ erase_item p is

unfoldable pub set_message : ℕ → AsyncMessage ResponseVariant → List Item → List Item
set_message p m [] = []
set_message p m (i ∷ is) =
    (if i.pointer == p then record i { message = m } else i) ∷ set_message p m is

unfoldable pub find_caller : ℕ → List Frame → Option Caller
find_caller p [] = none
find_caller p (f ∷ fs) = if f.item == p then some f.caller else find_caller p fs

unfoldable pub erase_frame : ℕ → List Frame → List Frame
erase_frame p [] = []
erase_frame p (f ∷ fs) = if f.item == p then erase_frame p fs else f ∷ erase_frame p fs
