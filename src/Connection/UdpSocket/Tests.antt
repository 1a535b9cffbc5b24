-- ===== src/Connection/UdpSocket/Tests.antt =====
-- The socket over two networks: every port is free, or none.
use libknx.Prelude.{◌≡◌, refl, sym, ap, ◌∙◌, List, [], ◌∷◌, Bool, true, false, not}
use libknx.Connection.UdpSocket.Reading.{
  AsioSocket, aborted, failed, received, handler, on_socket_closed, Socket, start, stop, Input,
  call_start, call_stop, completed, run, step, read_incoming,
}
use libknx.Connection.UdpSocket.Asio.{IsAsio}
use libknx.Connection.UdpSocket.Laws.{failed-run, thrown-run, is_told}
use libknx.Connection.UdpSocket.Refinement.{run-Seen, AllCalm, Agrees, view, closings, owner_run}

-- Whether the socket is open.
abbrev pub free_ports : AsioSocket
free_ports = record {
  State = Bool;
  open_protocol = λ a. (true, not a);
  reuse_address = λ a. (a, a);
  bind = λ port a. (a, a);
  join_group = λ address a. (a, a);
  release = λ a. false;
}

abbrev answer : Bool → Bool → Bool × Bool
answer a b = (a, b)

pub open_refused : (a : Bool) → a ≡ true → answer true (not a) ≡ answer a false
open_refused a h = ap (λ x. answer true (not x)) h ∙ ap (λ x. answer x false) (sym h)

abbrev pub free_ports-IsAsio : IsAsio free_ports
free_ports-IsAsio = record {
  is_open = λ a. a;
  opened = λ a h. ap (λ x. not x) (sym h);
  already_open = open_refused;
  reused = λ a. refl;
  bound = λ port a. refl;
  joined = λ address a. refl;
  released = λ a. refl;
}

-- A socket that reads, and whose owner is told when it closes.
abbrev reading_socket : Socket free_ports
reading_socket = record {
  port = 3671;
  is_open = true;
  has_handler = true;
  has_closed_handler = true;
  socket = true;
  waiting = 1;
}

abbrev restarted : List Input
restarted =
    completed (received (1 ∷ 2 ∷ []))
    ∷ completed (received [])
    ∷ call_stop true
    ∷ completed aborted
    ∷ call_start
    ∷ completed (received (3 ∷ []))
    ∷ []

-- Only the first datagram has bytes and comes before the handler is reset.
restarted_run :
    (run free_ports restarted reading_socket).1 ≡ (handler (1 ∷ 2 ∷ []) ∷ on_socket_closed ∷ [])
unfolding run step stop start read_incoming
restarted_run = refl

failed-run_example :
    (((run free_ports (completed failed ∷ restarted) reading_socket).0).is_open ≡ false)
    × (((run free_ports (completed failed ∷ restarted) reading_socket).0).socket ≡ true)
    × (is_told ((run free_ports (completed failed ∷ restarted) reading_socket).1) ≡ false)
    × ((start free_ports ((run free_ports (completed failed ∷ restarted) reading_socket).0)).1
        ≡ false)
failed-run_example = failed-run free_ports free_ports-IsAsio restarted reading_socket refl

restarted_calm : AllCalm free_ports restarted reading_socket
unfolding start step read_incoming stop
restarted_calm = (tt, (tt, (tt, (tt, (refl, (tt, tt))))))

run-Seen_example :
    Agrees free_ports free_ports-IsAsio ((run free_ports restarted reading_socket).0)
    × (view ((run free_ports restarted reading_socket).0)
        ≡ (owner_run restarted (view reading_socket)).0)
    × (closings ((run free_ports restarted reading_socket).1)
        ≡ (owner_run restarted (view reading_socket)).1)
run-Seen_example =
    run-Seen free_ports free_ports-IsAsio restarted reading_socket restarted_calm (refl, refl)

-- A network on which the port is taken.
abbrev taken_port : AsioSocket
taken_port = record free_ports { bind = λ port a. (a, false) }

abbrev taken_port-IsAsio : IsAsio taken_port
taken_port-IsAsio = record {
  is_open = λ a. a;
  opened = λ a h. ap (λ x. not x) (sym h);
  already_open = open_refused;
  reused = λ a. refl;
  bound = λ port a. refl;
  joined = λ address a. refl;
  released = λ a. refl;
}

abbrev new_socket : Socket taken_port
new_socket = record reading_socket { is_open = false; socket = false; waiting = 0 }

start_thrown : (start taken_port new_socket).1 ≡ false
unfolding start
start_thrown = refl

thrown-run_example :
    (((run taken_port (call_start ∷ restarted) new_socket).0).is_open ≡ false)
    × (((run taken_port (call_start ∷ restarted) new_socket).0).socket ≡ true)
    × (is_told ((run taken_port (call_start ∷ restarted) new_socket).1) ≡ false)
    × ((start taken_port ((run taken_port (call_start ∷ restarted) new_socket).0)).1 ≡ false)
thrown-run_example =
    thrown-run taken_port taken_port-IsAsio restarted new_socket refl refl refl start_thrown
