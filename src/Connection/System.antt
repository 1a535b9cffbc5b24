-- ===== src/Connection/System.antt =====
-- A client connection together with the tunneling connection below it: the calls that go down, the
-- listener calls that come up, and what the environment does in between, in any order.
pub mod Laws
pub mod Confirmed
pub mod Indication
pub mod Closing
pub mod Invariant
pub mod Steps
pub mod Quiet
pub mod Living
pub mod Resumed
pub mod Safety
mod Tests
use libknx.Prelude.{
  ℕ, ◌+◌, ◌-◌, List, [], ◌∷◌, ◌++◌, map, Bool, true, false, none, some, drop, length, if◌then◌else◌,
  ◌==◌,
}
use libknx.Bytes.Parser.{Endian}
use libknx.Headers.IpAddress.{IpAddress}
use libknx.Headers.KnxAddress.{GroupAddress}
use libknx.Connection.AsyncMessage.{Waited}
use libknx.Connection.Outcome.{Outcome, done, failed, use_after_free, ◌>>=◌}
use libknx.Connection.Tunneling.State as Tunnel
use libknx.Connection.Tunneling.State.{
  Action, control_written, data_written, told, Call, on_connect, on_disconnect, on_incoming_cemi,
  Connection, Endpoint,
}
use libknx.Connection.Tunneling.Run as Tunneling
use libknx.Connection.Tunneling.Close.{close_without_disconnect}
use libknx.Connection.Client.State as Client
use libknx.Connection.Client.State.{Client, itself}
use libknx.Connection.Client.Listeners as Listeners
use libknx.Connection.Client.Requests as Requests

-- `createTunnelingClient`
unfoldable pub create_tunneling_client : Endpoint → IpAddress → ℕ → ℕ → Client
create_tunneling_client remote local_bind_ip data_port control_port =
    Client.new (Tunnel.new remote local_bind_ip data_port control_port)

-- The client as a `ConnectionListener`.
unfoldable pub heard : (ℕ → Bool) → Call → Client → Outcome Client
heard alive on_connect c = Listeners.connected alive c
heard alive on_disconnect c = Listeners.disconnected alive c
heard alive (on_incoming_cemi cemi) c = Listeners.on_incoming_cemi alive cemi c

-- The calls among some actions of the tunneling connection, in their order. A listener leaves the
-- tunneling connection alone, so its calls can be made at the end of the step.
unfoldable pub tell : (ℕ → Bool) → List Action → Client → Outcome Client
tell alive [] c = done c
tell alive (told l call ∷ actions) c = do
  next ← (if l == itself then heard alive call c else done c)
  tell alive actions next
tell alive (control_written _ _ ∷ actions) c = tell alive actions c
tell alive (data_written _ _ ∷ actions) c = tell alive actions c

-- A client whose tunneling connection is destroyed, with what is left of that.
abbrev pub bereft : Connection → Client → Client
bereft t c = record c {
  tunneling_connection = none;
  orphans = c.orphans ++ map (λ f. f.item) t.frames;
  orphan_checks = c.orphan_checks + t.checks;
}

-- `close` behind the `close` of the tunneling connection, which is then destroyed: its destructor
-- closes it, and tells the client so when it has no tunneling connection any more.
unfoldable pub close_returned : (ℕ → Bool) → Client → Outcome Client
close_returned alive c = elim c.tunneling_connection [
  | none ↦ done c
  | some t ↦
      (let closed = close_without_disconnect t in
        tell alive (drop (length t.actions) closed.actions) (bereft closed c))
]

abbrev pub is_orphan : ℕ → List ℕ → Bool
is_orphan p [] = false
is_orphan p (q ∷ qs) = let rest = is_orphan p qs in if p == q then true else rest

abbrev pub orphan_resumed : ℕ → Client → Outcome Client
orphan_resumed p c = if is_orphan p c.orphans then failed use_after_free else done c

-- A coroutine of a tunneling connection that is destroyed reads what is destroyed when it goes on,
-- but for `checkConnection`, which ends where its timer was cancelled. Its sockets are closed, and
-- nobody calls it.
unfoldable pub orphaned : Tunneling.Input → Client → Outcome Client
orphaned (Tunneling.sent p) c = orphan_resumed p c
orphaned (Tunneling.waited p w) c = orphan_resumed p c
orphaned (Tunneling.check_timer is_error) c =
    if c.orphan_checks == 0
    then done c
    else if is_error
    then done (record c { orphan_checks = c.orphan_checks - 1 })
    else failed use_after_free
orphaned i c = done c

-- What can happen: an event of the tunneling connection, the return of its `send` for a request of
-- the client, the timer of a request, and calls.
pub data Input : Type 0 where
  below : Tunneling.Input → Input
  sent : ℕ → Input
  waited : ℕ → Waited → Input
  call_start call_print_description call_close client_close_returned : Input
  call_write_to_group : GroupAddress → List ℕ → Input
  call_write_byte_to_group : GroupAddress → ℕ → Bool → Input
  call_send_read_group : GroupAddress → Input

module _ (native : Endian) (make_address_v4 : List ℕ → IpAddress) (alive : ℕ → Bool) where
  -- An event of the tunneling connection, or of what is left of it.
  unfoldable pub step_below : Tunneling.Input → Client → Outcome Client
  step_below i c = elim c.tunneling_connection [
    | none ↦ orphaned i c
    | some t ↦ (do
      t' ← Tunneling.step native make_address_v4 i t
      tell alive (drop (length t.actions) t'.actions) (record c { tunneling_connection = some t' }))
  ]

  unfoldable pub step : Input → Client → Outcome Client
  step (below i) c = step_below i c
  step (sent p) c = Requests.on_sent native p c
  step (waited p w) c = Requests.on_waited native p w c
  step call_start c = Requests.start native c
  step call_print_description c = Requests.print_description native c
  step call_close c = done (Requests.close native c)
  step client_close_returned c = close_returned alive c
  step (call_write_to_group a value) c = Requests.write_to_group native a value c
  step (call_write_byte_to_group a value only_6_bits) c =
      Requests.write_byte_to_group native a value only_6_bits c
  step (call_send_read_group a) c = Requests.send_read_group native a c

  unfoldable pub run : List Input → Client → Outcome Client
  run [] c = done c
  run (i ∷ is) c = do next ← step i c; run is next
