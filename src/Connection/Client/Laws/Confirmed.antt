-- ===== src/Connection/Client/Laws/Confirmed.antt =====
-- A frame that is sent for the user: until it is confirmed, and when it is sent twice.
use libknx.Prelude.{
  same, ℕ, suc, ◌≡◌, refl, ap, ◌∙◌, [], ◌∷◌, ◌++◌, Bool, true, Option, some, if◌then◌else◌,
}
use libknx.Bytes.Parser.{Endian}
use libknx.Headers.KnxAddress
use libknx.Headers.KnxAddress.{GroupAddress}
use libknx.Cemi.CemiFrame.{Cemi, group, l_data_con}
use libknx.Connection.AsyncMessage
use libknx.Connection.AsyncMessage.{
  AsyncMessage, ok, sending, Place, in_send, in_wait, returned, sent, waited, aborted, Waited,
  set_response,
}
use libknx.Connection.Outcome.{Outcome, done, ◌>>=◌}
use libknx.Connection.Tunneling.State.{Connection, get_knx_address}
use libknx.Connection.Tunneling.Calls as Tunneling
use libknx.Connection.Client.State.{
  Client, Request, Sender, to_map_key, get_group, erase_key, find_sender, erase_sender,
}
use libknx.Connection.Client.Listeners.{
  on_incoming_cemi, check_for_update_listener, check_for_confirm, confirmed, confirm, answer,
}
use libknx.Connection.Client.Requests.{
  send_cemi, forward, message_moved, deref, resume, sent_to, waited_by, on_sent, on_waited,
}
use libknx.Connection.Client.Laws.Requests.{
  Unused, Allocated, erase_key-Unused, erase_key-last, at_key-last, at_pointer-last,
  set_message-last, find_sender-last, erase_sender-last, request, with_request, waiting, answered,
}

-- The client over a tunneling connection.
abbrev pub over : Connection → Client → Client
over t c = record c { tunneling_connection = some t }

abbrev pub to_group : Cemi → GroupAddress → Cemi
to_group cemi a = record cemi { destination = group a }

-- What a router confirms a frame with: the frame, from the address that it gave the connection.
abbrev pub confirmation : Connection → Cemi → GroupAddress → Cemi
confirmation t cemi a = record cemi {
  message_code = l_data_con;
  source = get_knx_address t;
  destination = group a;
}

pub equal_refl : (a : GroupAddress) → KnxAddress.equal a a ≡ true
unfolding KnxAddress.equal
equal_refl a = rw (same a.high, same a.middle, same a.low) refl

confirmation-key :
    (t : Connection) (cemi : Cemi) (a : GroupAddress)
    → to_map_key (confirmation t cemi a) a ≡ to_map_key (to_group cemi a) a
unfolding to_map_key
confirmation-key t cemi a = refl

module _ (native : Endian) where
  resumed :
      (k : ℕ) (q : Cemi) (m : AsyncMessage (Option Cemi)) (t : Connection) (c : Client)
      → Allocated c
      → (f : Request → Sender → Outcome Client)
      → resume native
          (find_sender c.next_pointer (with_request k q m c).senders)
          (over t (with_request k q m c))
          f
        ≡ f (request k c.next_pointer q m) (record { pointer = c.next_pointer; key = k })
  resumed k q m t c h f =
      ap (λ o. resume native o (over t (with_request k q m c)) f)
        (find_sender-last c.senders (record { pointer = c.next_pointer; key = k }) h.1)
      ∙ ap (λ o. deref native o (λ r. f r (record { pointer = c.next_pointer; key = k })))
          (at_pointer-last c.requests (request k c.next_pointer q m) h.0)

  pub send_lem :
      (cemi : Cemi) (a : GroupAddress) (t : Connection) (c : Client)
      → Unused (to_map_key (to_group cemi a) a) c.requests
      → send_cemi native (to_group cemi a) (over t c)
        ≡ done (
            over
              (Tunneling.send native (to_group cemi a) t)
              (with_request (to_map_key (to_group cemi a) a) (to_group cemi a) (waiting in_send) c))
  unfolding send_cemi forward get_group AsyncMessage.send AsyncMessage.loop AsyncMessage.is_sending
      AsyncMessage.decrement
  send_lem cemi a t c h =
      let k = to_map_key (to_group cemi a) a in
      let after =
        over (Tunneling.send native (to_group cemi a) t)
          (with_request k (to_group cemi a) (waiting in_send) c) in
      ap
        (λ rs. done (record after {
          requests = rs ++ request k c.next_pointer (to_group cemi a) (waiting in_send) ∷ [];
        }))
        (erase_key-Unused k c.requests h)

  pub written_lem :
      (k : ℕ) (q : Cemi) (t : Connection) (c : Client)
      → Allocated c
      → on_sent native c.next_pointer (over t (with_request k q (waiting in_send) c))
        ≡ done (over t (with_request k q (waiting in_wait) c))
  unfolding on_sent message_moved AsyncMessage.step AsyncMessage.after_send AsyncMessage.is_settled
  written_lem k q t c h =
      resumed k q (waiting in_send) t c h
        (sent_to native (over t (with_request k q (waiting in_send) c)))
      ∙ ap (λ rs. done (record (over t (with_request k q (waiting in_send) c)) { requests = rs }))
          (set_message-last (waiting in_wait) c.requests
            (request k c.next_pointer q (waiting in_send)) h.0)

  pub confirm_lem :
      (q con : Cemi) (k : ℕ) (t : Connection) (c : Client)
      → Allocated c
      → Unused k c.requests
      → confirm con k (over t (with_request k q (waiting in_wait) c))
        ≡ over t (with_request k q (answered con in_wait) c)
  unfolding confirm AsyncMessage.step
  confirm_lem q con k t c h u =
      let r = request k c.next_pointer q (waiting in_wait) in
      ap (λ o. answer o con (over t (with_request k q (waiting in_wait) c)))
        (at_key-last c.requests r u)
      ∙ ap (λ rs. record (over t (with_request k q (waiting in_wait) c)) { requests = rs })
          (set_message-last (answered con in_wait) c.requests r h.0)

  -- The confirmation of a frame reaches the request under its key.
  pub confirmation_lem :
      (alive : ℕ → Bool) (q cemi : Cemi) (a : GroupAddress) (k : ℕ) (t : Connection) (c : Client)
      → Allocated c
      → Unused k c.requests
      → to_map_key (confirmation t cemi a) a ≡ k
      → on_incoming_cemi alive
          (confirmation t cemi a)
          (over t (with_request k q (waiting in_wait) c))
        ≡ done (over t (with_request k q (answered (confirmation t cemi a) in_wait) c))
  unfolding on_incoming_cemi check_for_update_listener check_for_confirm confirmed get_group
  confirmation_lem alive q cemi a k t c h u e =
      let con = confirmation t cemi a in
      let d = over t (with_request k q (waiting in_wait) c) in
      ap (λ b. if b then done (confirm con (to_map_key con a) d) else done d)
        (equal_refl (get_knx_address t))
      ∙ ap (λ key. done (confirm con key d)) e
      ∙ ap (λ e. done e) (confirm_lem q con k t c h u)

  pub woken_lem :
      (k : ℕ) (q con : Cemi) (t : Connection) (c : Client)
      → Allocated c
      → Unused k c.requests
      → on_waited native c.next_pointer aborted (over t (with_request k q (answered con in_wait) c))
        ≡ done (record (over t c) { next_pointer = suc c.next_pointer })
  unfolding on_waited message_moved AsyncMessage.step AsyncMessage.after_wait AsyncMessage.loop
      AsyncMessage.state_after AsyncMessage.is_sending
  woken_lem k q con t c h u =
      let r = request k c.next_pointer q (answered con in_wait) in
      let s : Sender = record { pointer = c.next_pointer; key = k } in
      let d = over t (with_request k q (answered con in_wait) c) in
      resumed k q (answered con in_wait) t c h (waited_by native aborted d)
      ∙ ap
          (λ rs. done (record d {
            requests = erase_key k rs;
            senders = erase_sender c.next_pointer (c.senders ++ s ∷ []);
          }))
          (set_message-last (answered con returned) c.requests r h.0)
      ∙ ap
          (λ rs. done (record d {
            requests = rs;
            senders = erase_sender c.next_pointer (c.senders ++ s ∷ []);
          }))
          (erase_key-last c.requests (request k c.next_pointer q (answered con returned)) u)
      ∙ ap (λ ss. done (record d { requests = c.requests; senders = ss }))
          (erase_sender-last c.senders s h.1)

  -- A frame to a group under a key that no other request has: it is handed to the tunneling
  -- connection, and when the router confirms it with the same frame from the connection's own
  -- address, its request and its coroutine are gone. No other request and no listener notices.
  pub send_cemi-confirmed :
      (alive : ℕ → Bool) (cemi : Cemi) (a : GroupAddress) (t : Connection) (c : Client)
      → Allocated c
      → Unused (to_map_key (to_group cemi a) a) c.requests
      → (let t' = Tunneling.send native (to_group cemi a) t in
          send_cemi native (to_group cemi a) (over t c)
            >>= on_sent native c.next_pointer
            >>= on_incoming_cemi alive (confirmation t' cemi a)
            >>= on_waited native c.next_pointer aborted
          ≡ done (record c { tunneling_connection = some t'; next_pointer = suc c.next_pointer }))
  send_cemi-confirmed alive cemi a t c h u =
      let k = to_map_key (to_group cemi a) a in
      let q = to_group cemi a in
      let t' = Tunneling.send native q t in
      let sent_on = on_sent native c.next_pointer in
      let told = on_incoming_cemi alive (confirmation t' cemi a) in
      let woken = on_waited native c.next_pointer aborted in
      ap (λ o. o >>= sent_on >>= told >>= woken) (send_lem cemi a t c u)
      ∙ ap (λ o. o >>= told >>= woken) (written_lem k q t' c h)
      ∙ ap (λ o. o >>= woken)
          (confirmation_lem alive q cemi a k t' c h u (confirmation-key t' cemi a))
      ∙ woken_lem k q (confirmation t' cemi a) t' c h u
