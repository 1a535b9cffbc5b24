-- ===== src/Connection/System/Safety.antt =====
-- A client from the factory that never sends under a key in use.
use libknx.Prelude.{ℕ, ◌≡◌, refl, subst, List, [], ◌∷◌, Bool}
use libknx.Bytes.Parser.{Endian}
use libknx.Headers.IpAddress.{IpAddress}
use libknx.Cemi.CemiFrame.{Cemi}
use libknx.Connection.AsyncMessage.{Waited}
use libknx.Connection.Outcome.{Outcome, done, failed, ◌>>=◌}
use libknx.Connection.Tunneling.State.{
  Connection, Action, told, control_written, data_written, get_knx_address, on_connect,
  on_disconnect, on_incoming_cemi, close_for_user, start, send_cemi, print_description,
}
use libknx.Connection.Tunneling.State as Tunnel
use libknx.Connection.Client.State as Client
use libknx.Connection.Client.State.{
  Client, Request, Sender, Told, Call, itself, at_key, at_pointer, erase_key, set_message,
  find_sender, erase_sender, get_group, to_map_key,
}
use libknx.Connection.Client.Requests as Requests
use libknx.Connection.System.{
  Input, below, sent, waited, call_start, call_print_description, call_close, client_close_returned,
  call_write_to_group, call_write_byte_to_group, call_send_read_group, create_tunneling_client,
  step, run,
}
use libknx.Connection.System.Invariant.{IsSound, Kept}
use libknx.Connection.System.Quiet.{
  step_below-Quiet, start-Quiet, describe-Quiet, close-Quiet, close_returned-Quiet,
}
use libknx.Connection.System.Invariant.{IsSound}
use libknx.Connection.System.Living.{IsPaired, IsSafe}
use libknx.Connection.System.Resumed.{
  IsSendable, Pairs, safe-Pairs, quiet-Pairs, send_cemi-Pairs, on_sent-IsSafe, on_waited-IsSafe,
}
use libknx.Connection.System.Steps.{step-Kept}
use libknx.Connection.System.Invariant.{Kept}
use libknx.Cemi.DataAcpi.{of_vector, of_byte, of_type, group_value_write, group_value_read}
use libknx.Connection.Client.Requests.{request_frame}

abbrev IsFree : Cemi → Client → Type 0
IsFree cemi c = IsSendable (get_group cemi.destination) cemi c

-- No frame is sent under a key in use.
abbrev pub IsFresh : Input → Client → Type 0
IsFresh (call_write_to_group a value) c =
    IsFree (request_frame a (of_vector group_value_write value)) c
IsFresh (call_write_byte_to_group a value only_6_bits) c =
    IsFree (request_frame a (of_byte group_value_write value only_6_bits)) c
IsFresh (call_send_read_group a) c = IsFree (request_frame a (of_type group_value_read)) c
IsFresh i c = Unit

abbrev pub Then : Outcome Client → (Client → Type 0) → Type 0
Then (done c) P = P c
Then (failed e) P = Unit

module _ (native : Endian) (make_address_v4 : List ℕ → IpAddress) (alive : ℕ → Bool) where
  abbrev pub AllFresh : List Input → Client → Type 0
  AllFresh [] c = Unit
  AllFresh (i ∷ is) c =
      IsFresh i c × Then (step native make_address_v4 alive i c) (λ d. AllFresh is d)

  step-Pairs :
      (i : Input) (c : Client)
      → IsSound c
      → IsPaired c
      → IsFresh i c
      → Pairs (step native make_address_v4 alive i c)
  unfolding step Requests.write_to_group Requests.write_byte_to_group Requests.send_read_group
  step-Pairs (below i) c k h f =
      quiet-Pairs c _ h (step_below-Quiet alive native make_address_v4 i c.tunneling_connection c)
  step-Pairs (sent p) c k h f = safe-Pairs _ (on_sent-IsSafe native p c (k.0.0) h)
  step-Pairs (waited p w) c k h f = safe-Pairs _ (on_waited-IsSafe native p w c (k.0.0) h)
  step-Pairs call_start c k h f = quiet-Pairs c _ h (start-Quiet native c.tunneling_connection c)
  step-Pairs call_print_description c k h f =
      quiet-Pairs c _ h (describe-Quiet native c.tunneling_connection c)
  step-Pairs call_close c k h f =
      quiet-Pairs c (done (Requests.close native c)) h (close-Quiet native c.tunneling_connection c)
  step-Pairs client_close_returned c k h f =
      quiet-Pairs c _ h (close_returned-Quiet alive c.tunneling_connection c)
  step-Pairs (call_write_to_group a value) c k h f = send_cemi-Pairs native _ c h f
  step-Pairs (call_write_byte_to_group a value only_6_bits) c k h f = send_cemi-Pairs native _ c h f
  step-Pairs (call_send_read_group a) c k h f = send_cemi-Pairs native _ c h f

  bind-Both :
      (o : Outcome Client) (is : List Input)
      → Kept o
      → Pairs o
      → Then o (λ d. AllFresh is d)
      → ((d : Client)
          → IsSound d
          → IsPaired d
          → AllFresh is d
          → Then (run native make_address_v4 alive is d) (λ c. IsSound c × IsPaired c))
      → Then (o >>= run native make_address_v4 alive is) (λ c. IsSound c × IsPaired c)
  bind-Both (done d) is k h f g = g d k h f
  bind-Both (failed e) is k h f g = tt

  run-Both :
      (is : List Input) (c : Client)
      → IsSound c
      → IsPaired c
      → AllFresh is c
      → Then (run native make_address_v4 alive is c) (λ c. IsSound c × IsPaired c)
  unfolding run
  run-Both [] c k h f = (k, h)
  run-Both (i ∷ is) c k h f =
      bind-Both (step native make_address_v4 alive i c) is
        (step-Kept native make_address_v4 alive i c k) (step-Pairs i c k h (f.0)) (f.1)
        (run-Both is)

  -- A client as the factory makes it, after whatever happens to it, as long as no frame is sent
  -- under a key that a request has: the requests are those that coroutines wait for, one for each
  -- coroutine and in the order in which they were sent, so none is left behind and none is missing.
  pub created-run-IsPaired :
      (is : List Input) (remote : Tunnel.Endpoint) (ip : IpAddress) (data_port control_port : ℕ)
      (c : Client)
      → AllFresh is (create_tunneling_client remote ip data_port control_port)
      → run native make_address_v4 alive is
          (create_tunneling_client remote ip data_port control_port)
        ≡ done c
      → IsPaired c
  unfolding create_tunneling_client Client.new Tunnel.new Tunnel.add_listener
  created-run-IsPaired is remote ip data_port control_port c f e =
      (subst (λ o. Then o (λ d. IsSound d × IsPaired d)) e
        (run-Both is (create_tunneling_client remote ip data_port control_port)
          ((tt, tt), tt, (tt, tt)) refl f)).1

  -- A client as the factory makes it, after whatever happens to it, as long as no frame is sent
  -- under a key that a request has: when a frame of its has been sent, and when a timer of its is
  -- done, no destroyed request is read, and each coroutine that is left waits for a living one.
  pub created-run-IsSafe :
      (is : List Input) (remote : Tunnel.Endpoint) (ip : IpAddress) (data_port control_port : ℕ)
      (c : Client)
      → AllFresh is (create_tunneling_client remote ip data_port control_port)
      → run native make_address_v4 alive is
          (create_tunneling_client remote ip data_port control_port)
        ≡ done c
      → (p : ℕ) (w : Waited)
      → IsSafe (Requests.on_sent native p c) × IsSafe (Requests.on_waited native p w c)
  unfolding create_tunneling_client Client.new Tunnel.new Tunnel.add_listener
  created-run-IsSafe is remote ip data_port control_port c f e p w =
      let both : IsSound c × IsPaired c =
        subst (λ o. Then o (λ d. IsSound d × IsPaired d)) e
          (run-Both is (create_tunneling_client remote ip data_port control_port)
            ((tt, tt), tt, (tt, tt)) refl f) in
      (
        on_sent-IsSafe native p c (both.0.0.0) (both.1),
        on_waited-IsSafe native p w c (both.0.0.0) (both.1),
      )
