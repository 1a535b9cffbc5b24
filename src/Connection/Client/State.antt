-- ===== src/Connection/Client/State.antt =====
-- What a client connection keeps. A `unique_ptr` of `requests` is a request with its pointer: a
-- pointer that stands in no request dangles.
use libknx.Prelude.{ℕ, List, [], ◌∷◌, Option, none, some, if◌then◌else◌, ◌==◌, bit_or, ◌<<<◌, u32}
use libknx.Bytes.Parser.{bad_variant_access}
use libknx.Headers.KnxAddress.{IndividualAddress, GroupAddress}
use libknx.Cemi.CemiFrame.{Cemi, Destination, individual, group}
use libknx.Connection.AsyncMessage.{AsyncMessage}
use libknx.Connection.Outcome.{Outcome, done, failed, malformed}
use libknx.Connection.Tunneling.State.{Connection, add_listener}

-- The methods of `KnxConnectionListener`.
pub data Call : Type 0 where
  on_connect : Call
  on_disconnect : Call
  on_group_read : IndividualAddress → GroupAddress → Call
  on_group_read_response : IndividualAddress → GroupAddress → List ℕ → Call
  on_group_write : IndividualAddress → GroupAddress → List ℕ → Call

-- A listener that is called.
pub record Told : Type 0 where
  pub listener : ℕ
  pub call : Call

-- A `CemiSendState` on the heap, under its key in the map `requests`.
pub record Request : Type 0 where
  pub key : ℕ
  pub pointer : ℕ
  pub cemi : Cemi
  pub message : AsyncMessage (Option Cemi)

-- A `sendCemi` that awaits the `send` of a request.
pub record Sender : Type 0 where
  pub pointer : ℕ
  pub key : ℕ

-- `orphans` are the items that coroutines of a destroyed tunneling connection wait for, and
-- `orphan_checks` counts those of its coroutines that wait for the timer of `checkConnection`. `told`
-- is the history of the calls of listeners, the oldest first.
pub record Client : Type 0 where
  pub tunneling_connection : Option Connection
  pub connection_listeners : List ℕ
  pub requests : List Request
  pub senders : List Sender
  pub next_pointer : ℕ
  pub orphans : List ℕ
  pub orphan_checks : ℕ
  pub told : List Told

-- The name of the client among the listeners of its tunneling connection.
abbrev pub itself : ℕ
itself = 0

-- The constructor makes the client a listener of the tunneling connection.
unfoldable pub new : Connection → Client
unfolding add_listener
new tunneling_connection = record {
  tunneling_connection = some (add_listener itself tunneling_connection);
  connection_listeners = [];
  requests = [];
  senders = [];
  next_pointer = 0;
  orphans = [];
  orphan_checks = 0;
  told = [];
}

-- The shifts are of an `int`, and `|=` is on a `std::uint32_t`.
unfoldable pub to_map_key : Cemi → GroupAddress → ℕ
to_map_key cemi destination =
    let high = bit_or cemi.npdu.data_acpi.type (destination.high <<< 8) in
    let middle = bit_or high (destination.middle <<< 16) in
    u32 (bit_or middle (destination.low <<< 24))

-- `std::get<GroupAddress>`
unfoldable pub get_group : Destination → Outcome GroupAddress
get_group (group a) = done a
get_group (individual a) = failed (malformed bad_variant_access)

-- The map at a key, and an object behind a pointer.
unfoldable pub at_key : ℕ → List Request → Option Request
at_key k [] = none
at_key k (r ∷ rs) = if r.key == k then some r else at_key k rs

unfoldable pub at_pointer : ℕ → List Request → Option Request
at_pointer p [] = none
at_pointer p (r ∷ rs) = if r.pointer == p then some r else at_pointer p rs

-- `requests.erase(key)`
unfoldable pub erase_key : ℕ → List Request → List Request
erase_key k [] = []
erase_key k (r ∷ rs) = if r.key == k then erase_key k rs else r ∷ erase_key k rs

-- The message of an object is changed through its pointer.
unfoldable pub set_message : ℕ → AsyncMessage (Option Cemi) → List Request → List Request
set_message p m [] = []
set_message p m (r ∷ rs) =
    (if r.pointer == p then record r { message = m } else r) ∷ set_message p m rs

unfoldable pub find_sender : ℕ → List Sender → Option Sender
find_sender p [] = none
find_sender p (s ∷ ss) = if s.pointer == p then some s else find_sender p ss

unfoldable pub erase_sender : ℕ → List Sender → List Sender
erase_sender p [] = []
erase_sender p (s ∷ ss) = if s.pointer == p then erase_sender p ss else s ∷ erase_sender p ss
