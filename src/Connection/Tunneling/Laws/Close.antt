-- ===== src/Connection/Tunneling/Laws/Close.antt =====
-- What closing a connection leaves behind.
use libknx.Prelude.{
  ℕ, zero, suc, ◌+◌, ◌≡◌, List, [], ◌++◌, map, Bool, true, false, append_assoc, append-nil,
  from_bool, sym, ap, ◌∙◌,
}
use libknx.Connection.UdpSocket
use libknx.Connection.UdpSocket.{UdpSocket}
use libknx.Connection.Tunneling.State.{
  Connection, Action, told, on_disconnect, for_every_listener, no_address,
}
use libknx.Connection.Tunneling.Close.{reset, close_nested, close_without_disconnect}

-- A call of `onDisconnect` on every listener.
abbrev pub farewell : Connection → List Action
farewell c = map (λ l. told l on_disconnect) c.connection_listeners

abbrev pub repeated : ℕ → List Action → List Action
repeated zero actions = []
repeated (suc n) actions = actions ++ repeated n actions

-- How many of the sockets are open.
abbrev pub open_sockets : Connection → ℕ
open_sockets c = from_bool c.control_socket.is_open + from_bool c.data_socket.is_open

abbrev pub shut : UdpSocket → UdpSocket
shut s = record s { is_open = false }

abbrev at : Connection → Bool → Bool → Connection
at c control socket = record c {
  control_socket = record (c.control_socket) { is_open = control };
  data_socket = record (c.data_socket) { is_open = socket };
}

abbrev pub closed : Connection → Connection
closed c = record c {
  control_socket = shut c.control_socket;
  data_socket = shut c.data_socket;
  send_items = [];
  sequence = 0;
  knx_address = no_address;
  actions = c.actions ++ repeated (suc (open_sockets c)) (farewell c);
}

once : (a f : List Action) → a ++ f ≡ a ++ repeated 1 f
once a f = simp append-nil

twice : (a f : List Action) → (a ++ f) ++ f ≡ a ++ repeated 2 f
twice a f = simp (append-nil, append_assoc)

thrice : (a f : List Action) → ((a ++ f) ++ f) ++ f ≡ a ++ repeated 3 f
thrice a f = simp (append-nil, append_assoc)

with_actions :
    (c : Connection) {a b : List Action}
    → a ≡ b
    → record (closed c) { actions = a } ≡ record (closed c) { actions = b }
with_actions c e = ap (λ a. record (closed c) { actions = a }) e

nested_lem :
    (control socket : Bool) (depth : ℕ) (c : Connection)
    → close_nested (suc (suc (suc depth))) (at c control socket) ≡ closed (at c control socket)
unfolding close_nested reset for_every_listener UdpSocket.stop
nested_lem false false depth c = with_actions (at c false false) (once c.actions (farewell c))
nested_lem false true depth c = with_actions (at c false true) (twice c.actions (farewell c))
nested_lem true false depth c = with_actions (at c true false) (twice c.actions (farewell c))
nested_lem true true depth c = with_actions (at c true true) (thrice c.actions (farewell c))

-- `closeWithoutDisconnect` ends with both sockets closed, the items destroyed and the address and
-- the sequence number cleared, and leaves the channel, the listeners and the waiting coroutines as
-- they are. It calls `onDisconnect` of every listener once, and once more for every socket that was
-- open. No depth of the nested calls above three changes that.
pub close_without_disconnect_lem :
    (depth : ℕ) (c : Connection)
    → (close_nested (suc (suc (suc depth))) c ≡ close_without_disconnect c)
      × (close_without_disconnect c ≡ closed c)
unfolding close_without_disconnect
close_without_disconnect_lem depth c =
    let one = nested_lem c.control_socket.is_open c.data_socket.is_open depth c in
    let two = nested_lem c.control_socket.is_open c.data_socket.is_open 0 c in (one ∙ sym two, two)
