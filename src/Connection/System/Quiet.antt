-- ===== src/Connection/System/Quiet.antt =====
-- Steps that leave the requests under their keys, and the coroutines that wait for them.
use libknx.Prelude.{
  ℕ, ◌≡◌, List, [], ◌∷◌, Bool, Option, none, some, if◌then◌else◌, ◌==◌, refl, ◌∙◌, drop, length,
}
use libknx.Headers.KnxAddress
use libknx.Headers.KnxAddress.{GroupAddress}
use libknx.Cemi.DataAcpi.{group_value_read, group_value_response, group_value_write}
use libknx.Cemi.CemiFrame.{Cemi, l_data_ind, l_data_con}
use libknx.Connection.Outcome.{Outcome, done, failed, ◌>>=◌}
use libknx.Connection.Tunneling.State.{
  Connection, Action, told, control_written, data_written, get_knx_address, on_connect,
  on_disconnect, on_incoming_cemi, close_for_user, start, send_cemi, print_description,
}
use libknx.Connection.Tunneling.State as Tunnel
use libknx.Connection.Tunneling.Laws.Invariant.{if_lem}
use libknx.Connection.Client.State.{Client, Request, Call, itself, at_key, get_group, to_map_key}
use libknx.Connection.Client.Listeners as Listeners
use libknx.Connection.Client.Listeners.{call_all, has_loose_listener, erase_expired, answer}
use libknx.Connection.Client.Laws.Invariant.{tags, set_message-tags}
use libknx.Connection.Tunneling.Close.{close_without_disconnect}
use libknx.Connection.System.{orphaned, is_orphan, close_returned, bereft, heard, tell}
use libknx.Bytes.Parser.{Endian}
use libknx.Headers.IpAddress.{IpAddress}
use libknx.Connection.System.{step_below}
use libknx.Connection.Tunneling.Run as Tunneling
use libknx.Connection.Client.Requests as Requests

-- The outcome is a failure, or a client with the requests and the waiting coroutines of `c`.
abbrev pub Quiet : Client → Outcome Client → Type 0
Quiet c (done d) = (tags d.requests ≡ tags c.requests) × (d.senders ≡ c.senders)
Quiet c (failed e) = Unit

value-Quiet :
    {A : Type 0} (c : Client) (o : Outcome A) (f : A → Outcome Client)
    → ((a : A) → Quiet c (f a))
    → Quiet c (o >>= f)
value-Quiet c (done a) f k = k a
value-Quiet c (failed e) f k = tt

bind-Quiet :
    (c : Client) (o : Outcome Client) (f : Client → Outcome Client)
    → Quiet c o
    → ((d : Client) → Quiet c (done d) → Quiet c (f d))
    → Quiet c (o >>= f)
bind-Quiet c (done d) f h k = k d h
bind-Quiet c (failed e) f h k = tt

-- A quiet step behind quiet ones.
behind : (c d : Client) (o : Outcome Client) → Quiet c (done d) → Quiet d o → Quiet c o
behind c d (done e) h k = (k.0 ∙ h.0, k.1 ∙ h.1)
behind c d (failed e) h k = tt

module _ (alive : ℕ → Bool) where
  for_every-Quiet :
      (call : Outcome Call) (c : Client) → Quiet c (Listeners.for_every_listener alive call c)
  unfolding Listeners.for_every_listener
  for_every-Quiet call c =
      value-Quiet c (call_all alive call c.connection_listeners) _ (λ told. (refl, refl))

  update-Quiet :
      (cemi : Cemi) (c : Client) → Quiet c (Listeners.check_for_update_listener alive cemi c)
  unfolding Listeners.check_for_update_listener Listeners.update_listeners
  update-Quiet cemi c =
      let type = cemi.npdu.data_acpi.type in
      if_lem (Quiet c) (cemi.message_code == l_data_ind) _ _
        (if_lem (Quiet c) (type == group_value_read) _ _ (for_every-Quiet _ c) (
          if_lem (Quiet c) (type == group_value_response) _ _ (for_every-Quiet _ c)
            (if_lem (Quiet c) (type == group_value_write) _ _ (for_every-Quiet _ c) (refl, refl))))
        (refl, refl)

  answer-Quiet : (o : Option Request) (cemi : Cemi) (c : Client) → Quiet c (done (answer o cemi c))
  answer-Quiet none cemi c = (refl, refl)
  answer-Quiet (some r) cemi c = (set_message-tags r.pointer _ c.requests, refl)

  confirmed-Quiet :
      (cemi : Cemi) (o : Option Connection) (c : Client)
      → Quiet c (Listeners.confirmed cemi (record c { tunneling_connection = o }))
  unfolding Listeners.confirmed Listeners.confirm
  confirmed-Quiet cemi none c = tt
  confirmed-Quiet cemi (some t) c =
      let d = record c { tunneling_connection = some t } in
      if_lem (Quiet c) (KnxAddress.equal cemi.source (get_knx_address t)) _ _
        (value-Quiet c (get_group cemi.destination) _
          (λ a. answer-Quiet (at_key (to_map_key cemi a) c.requests) cemi d))
        (refl, refl)

  incoming-Quiet : (cemi : Cemi) (c : Client) → Quiet c (Listeners.on_incoming_cemi alive cemi c)
  unfolding Listeners.on_incoming_cemi Listeners.check_for_confirm
  incoming-Quiet cemi c =
      bind-Quiet c (Listeners.check_for_update_listener alive cemi c) _ (update-Quiet cemi c)
        (λ d k.
          if_lem (Quiet c) (cemi.message_code == l_data_con) _ _
            (behind c d _ k (confirmed-Quiet cemi d.tunneling_connection d)) k)

  heard-Quiet : (call : Tunnel.Call) (c : Client) → Quiet c (heard alive call c)
  unfolding heard Listeners.connected Listeners.disconnected
  heard-Quiet on_connect c = for_every-Quiet _ c
  heard-Quiet on_disconnect c = for_every-Quiet _ c
  heard-Quiet (on_incoming_cemi cemi) c = incoming-Quiet cemi c

  tell-Quiet : (actions : List Action) (c : Client) → Quiet c (tell alive actions c)
  unfolding tell
  tell-Quiet [] c = (refl, refl)
  tell-Quiet (told l call ∷ actions) c =
      bind-Quiet c (if l == itself then heard alive call c else done c) (tell alive actions)
        (if_lem (Quiet c) (l == itself) _ _ (heard-Quiet call c) (refl, refl))
        (λ d k. behind c d _ k (tell-Quiet actions d))
  tell-Quiet (control_written _ _ ∷ actions) c = tell-Quiet actions c
  tell-Quiet (data_written _ _ ∷ actions) c = tell-Quiet actions c

  orphaned-Quiet : (i : Tunneling.Input) (c : Client) → Quiet c (orphaned i c)
  unfolding orphaned
  orphaned-Quiet (Tunneling.sent p) c = if_lem (Quiet c) (is_orphan p c.orphans) _ _ tt (refl, refl)
  orphaned-Quiet (Tunneling.waited p w) c =
      if_lem (Quiet c) (is_orphan p c.orphans) _ _ tt (refl, refl)
  orphaned-Quiet (Tunneling.check_timer is_error) c =
      if_lem (Quiet c) (c.orphan_checks == 0) _ _ (refl, refl)
        (if_lem (Quiet c) is_error _ _ (refl, refl) tt)
  orphaned-Quiet i c = (refl, refl)

  pub close_returned-Quiet :
      (o : Option Connection) (c : Client)
      → Quiet c (close_returned alive (record c { tunneling_connection = o }))
  unfolding close_returned
  close_returned-Quiet none c = (refl, refl)
  close_returned-Quiet (some t) c =
      behind c (bereft (close_without_disconnect t) c) _ (refl, refl) (tell-Quiet _ _)

  pub step_below-Quiet :
      (native : Endian) (make_address_v4 : List ℕ → IpAddress) (i : Tunneling.Input)
      (o : Option Connection) (c : Client)
      → Quiet c (step_below native make_address_v4 alive i (record c { tunneling_connection = o }))
  unfolding step_below
  step_below-Quiet native make_address_v4 i none c =
      behind c (record c { tunneling_connection = none }) _ (refl, refl)
        (orphaned-Quiet i (record c { tunneling_connection = none }))
  step_below-Quiet native make_address_v4 i (some t) c =
      value-Quiet c (Tunneling.step native make_address_v4 i t) _ (λ t'.
        tell-Quiet (drop (length t.actions) t'.actions)
          (record c { tunneling_connection = some t' }))

module _ (native : Endian) where
  pub forward-Quiet :
      (cemi : Cemi) (o : Option Connection) (c : Client)
      → Quiet c (Requests.forward native cemi (record c { tunneling_connection = o }))
  unfolding Requests.forward
  forward-Quiet cemi none c = tt
  forward-Quiet cemi (some t) c = (refl, refl)

  pub start-Quiet :
      (o : Option Connection) (c : Client)
      → Quiet c (Requests.start native (record c { tunneling_connection = o }))
  unfolding Requests.start
  start-Quiet none c = tt
  start-Quiet (some t) c = (refl, refl)

  pub describe-Quiet :
      (o : Option Connection) (c : Client)
      → Quiet c (Requests.print_description native (record c { tunneling_connection = o }))
  unfolding Requests.print_description
  describe-Quiet none c = tt
  describe-Quiet (some t) c = (refl, refl)

  pub close-Quiet :
      (o : Option Connection) (c : Client)
      → Quiet c (done (Requests.close native (record c { tunneling_connection = o })))
  unfolding Requests.close
  close-Quiet none c = (refl, refl)
  close-Quiet (some t) c = (refl, refl)
