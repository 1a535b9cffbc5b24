-- ===== src/Connection/System/Invariant.antt =====
-- What every step of a client and its tunneling connection keeps.
use libknx.Prelude.{
  ℕ, ◌<◌, ◌≡◌, sym, subst, List, [], ◌∷◌, Bool, Option, none, some, All, if◌then◌else◌, ◌==◌,
}
use libknx.Headers.KnxAddress
use libknx.Headers.KnxAddress.{GroupAddress}
use libknx.Cemi.DataAcpi.{group_value_read, group_value_response, group_value_write}
use libknx.Cemi.CemiFrame.{Cemi, l_data_ind, l_data_con}
use libknx.Connection.Outcome.{Outcome, done, failed, ◌>>=◌}
use libknx.Connection.Tunneling.State.{
  Connection, Action, told, control_written, data_written, get_knx_address, on_connect,
  on_disconnect, on_incoming_cemi, close_for_user, start, send_cemi, print_description,
}
use libknx.Connection.Tunneling.State as Tunnel
use libknx.Connection.Tunneling.Laws.Last as Pointers
use libknx.Connection.Tunneling.Laws.Invariant.{if_lem}
use libknx.Connection.Client.State.{
  Client, Request, Sender, Call, itself, at_key, erase_sender, get_group, to_map_key,
}
use libknx.Connection.Client.Listeners as Listeners
use libknx.Connection.Client.Listeners.{call_all, has_loose_listener, erase_expired, answer}
use libknx.Connection.Client.Laws.Invariant.{tags, IsTable, set_message-tags}
use libknx.Connection.System.{heard, tell}

abbrev Tunneled : Option Connection → Type 0
Tunneled none = Unit
Tunneled (some t) = Pointers.Allocated t

-- The requests are a table, and all pointers in use, above and below, are below the next ones.
abbrev pub IsSound : Client → Type 0
IsSound c =
    IsTable c.next_pointer (tags c.requests)
    × All (λ s. s.pointer < c.next_pointer) c.senders
    × Tunneled c.tunneling_connection

abbrev pub Kept : Outcome Client → Type 0
Kept (done c) = IsSound c
Kept (failed e) = Unit

pub bind-Kept :
    (o : Outcome Client) (f : Client → Outcome Client)
    → Kept o
    → ((c : Client) → IsSound c → Kept (f c))
    → Kept (o >>= f)
bind-Kept (done c) f h k = k c h
bind-Kept (failed e) f h k = tt

pub value-Kept :
    {A : Type 0} (o : Outcome A) (f : A → Outcome Client) → ((a : A) → Kept (f a)) → Kept (o >>= f)
value-Kept (done a) f k = k a
value-Kept (failed e) f k = tt

-- A client whose requests carry the same tags.
pub same_tags :
    (c : Client) (rs : List Request)
    → tags rs ≡ tags c.requests
    → IsSound c
    → IsSound (record c { requests = rs })
same_tags c rs e h = (subst (IsTable c.next_pointer) (sym e) h.0, h.1, h.2)

pub erase_sender-below :
    (n p : ℕ) (ss : List Sender)
    → All (λ s. s.pointer < n) ss
    → All (λ s. s.pointer < n) (erase_sender p ss)
unfolding erase_sender
erase_sender-below n p [] h = tt
erase_sender-below n p (s ∷ ss) h =
    if_lem (λ (l : List Sender). All (λ s. s.pointer < n) l) (s.pointer == p) _ _
      (erase_sender-below n p ss h.1) (h.0, erase_sender-below n p ss h.1)

module _ (alive : ℕ → Bool) where
  for_every-Kept :
      (call : Outcome Call) (c : Client)
      → IsSound c
      → Kept (Listeners.for_every_listener alive call c)
  unfolding Listeners.for_every_listener
  for_every-Kept call c h = value-Kept (call_all alive call c.connection_listeners) _ (λ told. h)

  update-Kept :
      (cemi : Cemi) (c : Client)
      → IsSound c
      → Kept (Listeners.check_for_update_listener alive cemi c)
  unfolding Listeners.check_for_update_listener Listeners.update_listeners
  update-Kept cemi c h =
      let type = cemi.npdu.data_acpi.type in
      if_lem Kept (cemi.message_code == l_data_ind) _ _
        (if_lem Kept (type == group_value_read) _ _ (for_every-Kept _ c h) (
          if_lem Kept (type == group_value_response) _ _ (for_every-Kept _ c h)
            (if_lem Kept (type == group_value_write) _ _ (for_every-Kept _ c h) h)))
        h

  answer-IsSound :
      (o : Option Request) (cemi : Cemi) (c : Client) → IsSound c → IsSound (answer o cemi c)
  answer-IsSound none cemi c h = h
  answer-IsSound (some r) cemi c h = same_tags c _ (set_message-tags r.pointer _ c.requests) h

  confirmed-Kept :
      (cemi : Cemi) (o : Option Connection) (c : Client)
      → IsSound (record c { tunneling_connection = o })
      → Kept (Listeners.confirmed cemi (record c { tunneling_connection = o }))
  unfolding Listeners.confirmed Listeners.confirm
  confirmed-Kept cemi none c h = tt
  confirmed-Kept cemi (some t) c h =
      let d = record c { tunneling_connection = some t } in
      if_lem Kept (KnxAddress.equal cemi.source (get_knx_address t)) _ _
        (value-Kept (get_group cemi.destination) _
          (λ a. answer-IsSound (at_key (to_map_key cemi a) c.requests) cemi d h))
        h

  incoming-Kept :
      (cemi : Cemi) (c : Client) → IsSound c → Kept (Listeners.on_incoming_cemi alive cemi c)
  unfolding Listeners.on_incoming_cemi Listeners.check_for_confirm
  incoming-Kept cemi c h =
      bind-Kept (Listeners.check_for_update_listener alive cemi c) _ (update-Kept cemi c h) (λ d k.
        if_lem Kept (cemi.message_code == l_data_con) _ _
          (confirmed-Kept cemi d.tunneling_connection d k) k)

  heard-Kept : (call : Tunnel.Call) (c : Client) → IsSound c → Kept (heard alive call c)
  unfolding heard Listeners.connected Listeners.disconnected
  heard-Kept on_connect c h = for_every-Kept _ c h
  heard-Kept on_disconnect c h = for_every-Kept _ c h
  heard-Kept (on_incoming_cemi cemi) c h = incoming-Kept cemi c h

  pub tell-Kept : (actions : List Action) (c : Client) → IsSound c → Kept (tell alive actions c)
  unfolding tell
  tell-Kept [] c h = h
  tell-Kept (told l call ∷ actions) c h =
      bind-Kept (if l == itself then heard alive call c else done c) (tell alive actions)
        (if_lem Kept (l == itself) _ _ (heard-Kept call c h) h) (tell-Kept actions)
  tell-Kept (control_written _ _ ∷ actions) c h = tell-Kept actions c h
  tell-Kept (data_written _ _ ∷ actions) c h = tell-Kept actions c h
