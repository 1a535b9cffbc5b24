-- ===== src/Connection/System/Steps.antt =====
-- The steps of a client with its tunneling connection.
use libknx.Prelude.{
  ℕ, suc, ◌==◌, refl, List, [], ◌∷◌, ◌++◌, Bool, Option, none, some, arith, drop, length,
}
use libknx.Bytes.Parser.{Endian}
use libknx.Headers.IpAddress.{IpAddress}
use libknx.Cemi.CemiFrame.{Cemi}
use libknx.Connection.AsyncMessage
use libknx.Connection.AsyncMessage.{AsyncMessage, Place, idle, in_send, in_wait, returned, Waited}
use libknx.Connection.Outcome.{Outcome, done, failed, ◌>>=◌}
use libknx.Connection.Tunneling.State.{
  Connection, close_for_user, start, send_cemi, print_description,
}
use libknx.Connection.Tunneling.Calls as Calls
use libknx.Connection.Tunneling.Run as Tunneling
use libknx.Connection.Tunneling.Laws.Last as Pointers
use libknx.Connection.Tunneling.Laws.Pointers.{All-map, All-last}
use libknx.Connection.Tunneling.Laws.Invariant.{
  if_lem, Sound, send_request-Allocated, close-Allocated,
}
use libknx.Connection.Tunneling.Laws.Steps.{step-Sound}
use libknx.Connection.Client.State.{
  Client, Request, Sender, at_pointer, erase_key, set_message, find_sender, get_group, to_map_key,
}
use libknx.Connection.Client.Requests as Requests
use libknx.Connection.Client.Laws.Invariant.{
  set_message-tags, erase_key-All, erase_key-Distinct, replace-IsTable,
}
use libknx.Connection.Tunneling.Close.{close_without_disconnect}
use libknx.Connection.System.{
  Input, below, sent, waited, call_start, call_print_description, call_close, client_close_returned,
  close_returned, bereft, orphaned, is_orphan, call_write_to_group, call_write_byte_to_group,
  call_send_read_group, step_below, step,
}
use libknx.Connection.System.Invariant.{
  IsSound, Kept, erase_sender-below, same_tags, tell-Kept, value-Kept,
}

module _ (native : Endian) where
  forward-Kept :
      (cemi : Cemi) (o : Option Connection) (c : Client)
      → IsSound (record c { tunneling_connection = o })
      → Kept (Requests.forward native cemi (record c { tunneling_connection = o }))
  unfolding Requests.forward Calls.send
  forward-Kept cemi none c h = tt
  forward-Kept cemi (some t) c h = (h.0, h.1, send_request-Allocated native _ send_cemi _ h.2)

  send_cemi-Kept : (cemi : Cemi) (c : Client) → IsSound c → Kept (Requests.send_cemi native cemi c)
  unfolding Requests.send_cemi
  send_cemi-Kept cemi c h = value-Kept (get_group cemi.destination) _ (λ a.
      let k = to_map_key cemi a in
      let r : Request = record {
        key = k;
        pointer = c.next_pointer;
        cemi = cemi;
        message = AsyncMessage.send 2 Requests.new_message;
      } in
      let d = record c {
        requests = erase_key k c.requests ++ r ∷ [];
        senders = c.senders ++ record { pointer = c.next_pointer; key = k } ∷ [];
        next_pointer = suc c.next_pointer;
      } in
      forward-Kept cemi c.tunneling_connection d (
        replace-IsTable k c.next_pointer c.requests r refl refl h.0,
        All-last _ c.senders _ (All-map (λ s b. omega (arith, b)) c.senders h.1) (omega arith),
        h.2,
      ))

  by_place :
      (place : Place) (a b d e : Outcome Client)
      → Kept a
      → Kept b
      → Kept d
      → Kept e
      → Kept (elim place [ idle ↦ a | in_wait ↦ b | in_send ↦ d | returned ↦ e ])
  by_place idle a b d e h i j k = h
  by_place in_wait a b d e h i j k = i
  by_place in_send a b d e h i j k = j
  by_place returned a b d e h i j k = k

  moved-Kept :
      (r : Request) (s : Sender) (m : AsyncMessage (Option Cemi)) (c : Client)
      → IsSound c
      → Kept (Requests.message_moved native r s m c)
  unfolding Requests.message_moved
  moved-Kept r s m c h =
      let rs = set_message r.pointer m c.requests in
      let moved : IsSound (record c { requests = rs }) =
        same_tags c rs (set_message-tags r.pointer m c.requests) h in
      by_place m.place _ _ _ _ moved moved
        (forward-Kept r.cemi c.tunneling_connection (record c { requests = rs }) moved)
        (
          (erase_key-Distinct s.key rs moved.0.0, erase_key-All _ s.key rs moved.0.1),
          erase_sender-below c.next_pointer s.pointer c.senders h.1,
          h.2,
        )

  deref-Kept :
      (o : Option Request) (k : Request → Outcome Client)
      → ((r : Request) → Kept (k r))
      → Kept (Requests.deref native o k)
  deref-Kept none k f = tt
  deref-Kept (some r) k f = f r

  resume-Kept :
      (o : Option Sender) (c : Client) (k : Request → Sender → Outcome Client)
      → IsSound c
      → ((r : Request) (s : Sender) → Kept (k r s))
      → Kept (Requests.resume native o c k)
  resume-Kept none c k h f = h
  resume-Kept (some s) c k h f =
      deref-Kept (at_pointer s.pointer c.requests) (λ r. k r s) (λ r. f r s)

  start-Kept :
      (o : Option Connection) (c : Client)
      → IsSound (record c { tunneling_connection = o })
      → Kept (Requests.start native (record c { tunneling_connection = o }))
  unfolding Requests.start Calls.start_connection
  start-Kept none c h = tt
  start-Kept (some t) c h = (h.0, h.1, send_request-Allocated native _ start _ h.2)

  describe-Kept :
      (o : Option Connection) (c : Client)
      → IsSound (record c { tunneling_connection = o })
      → Kept (Requests.print_description native (record c { tunneling_connection = o }))
  unfolding Requests.print_description Calls.describe
  describe-Kept none c h = tt
  describe-Kept (some t) c h = (h.0, h.1, send_request-Allocated native _ print_description t h.2)

  close-IsSound :
      (o : Option Connection) (c : Client)
      → IsSound (record c { tunneling_connection = o })
      → IsSound (Requests.close native (record c { tunneling_connection = o }))
  unfolding Requests.close
  close-IsSound none c h = h
  close-IsSound (some t) c h = (h.0, h.1, close-Allocated native close_for_user t h.2)

module _ (native : Endian) (make_address_v4 : List ℕ → IpAddress) (alive : ℕ → Bool) where
  below-Kept :
      (o : Outcome Connection) (k : Connection → Outcome Client)
      → Sound o
      → ((t : Connection) → Pointers.Allocated t → Kept (k t))
      → Kept (o >>= k)
  below-Kept (done t) k h f = f t h
  below-Kept (failed e) k h f = tt

  orphaned-Kept : (i : Tunneling.Input) (c : Client) → IsSound c → Kept (orphaned i c)
  unfolding orphaned
  orphaned-Kept (Tunneling.sent p) c h = if_lem Kept (is_orphan p c.orphans) _ _ tt h
  orphaned-Kept (Tunneling.waited p w) c h = if_lem Kept (is_orphan p c.orphans) _ _ tt h
  orphaned-Kept (Tunneling.check_timer is_error) c h =
      if_lem Kept (c.orphan_checks == 0) _ _ h (if_lem Kept is_error _ _ h tt)
  orphaned-Kept i c h = h

  close_returned-Kept :
      (o : Option Connection) (c : Client)
      → IsSound (record c { tunneling_connection = o })
      → Kept (close_returned alive (record c { tunneling_connection = o }))
  unfolding close_returned
  close_returned-Kept none c h = h
  close_returned-Kept (some t) c h =
      tell-Kept alive _ (bereft (close_without_disconnect t) c) (h.0, h.1, tt)

  step_below-Kept :
      (i : Tunneling.Input) (o : Option Connection) (c : Client)
      → IsSound (record c { tunneling_connection = o })
      → Kept (step_below native make_address_v4 alive i (record c { tunneling_connection = o }))
  unfolding step_below
  step_below-Kept i none c h = orphaned-Kept i (record c { tunneling_connection = none }) h
  step_below-Kept i (some t) c h =
      below-Kept (Tunneling.step native make_address_v4 i t) _
        (step-Sound native make_address_v4 i t h.2)
        (λ t' k.
          tell-Kept alive (drop (length t.actions) t'.actions)
            (record c { tunneling_connection = some t' }) (h.0, h.1, k))

  pub step-Kept :
      (i : Input) (c : Client) → IsSound c → Kept (step native make_address_v4 alive i c)
  unfolding step Requests.on_sent Requests.on_waited Requests.write_to_group
      Requests.write_byte_to_group Requests.send_read_group
  step-Kept (below i) c h = step_below-Kept i c.tunneling_connection c h
  step-Kept (sent p) c h =
      resume-Kept native (find_sender p c.senders) c (Requests.sent_to native c) h
        (λ r s. by_place native r.message.place _ _ _ _ h h (moved-Kept native r s _ c h) h)
  step-Kept (waited p w) c h =
      resume-Kept native (find_sender p c.senders) c (Requests.waited_by native w c) h
        (λ r s. by_place native r.message.place _ _ _ _ h (moved-Kept native r s _ c h) h h)
  step-Kept call_start c h = start-Kept native c.tunneling_connection c h
  step-Kept call_print_description c h = describe-Kept native c.tunneling_connection c h
  step-Kept call_close c h = close-IsSound native c.tunneling_connection c h
  step-Kept client_close_returned c h = close_returned-Kept c.tunneling_connection c h
  step-Kept (call_write_to_group a value) c h = send_cemi-Kept native _ c h
  step-Kept (call_write_byte_to_group a value only_6_bits) c h = send_cemi-Kept native _ c h
  step-Kept (call_send_read_group a) c h = send_cemi-Kept native _ c h
