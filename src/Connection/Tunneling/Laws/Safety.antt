-- ===== src/Connection/Tunneling/Laws/Safety.antt =====
-- Where no destroyed item is read.
use libknx.Prelude.{ℕ, ◌≡◌, ◌≢◌, ap, sym, ◌∙◌, subst, List, Bool, true, false, some, if◌then◌else◌}
use libknx.Bytes.Parser.{Endian}
use libknx.Headers.IpAddress.{IpAddress}
use libknx.Message.Response.{ResponseVariant}
use libknx.Connection.AsyncMessage.{
  AsyncMessage, State, Place, idle, in_send, in_wait, returned, Waited,
}
use libknx.Connection.Outcome.{Outcome, done, failed, use_after_free}
use libknx.Connection.Tunneling.State.{
  Item, Caller, start, send_cemi, check_connection, print_description, close_for_user,
  close_for_ack, close_for_check, close_for_timeout, Connection, erase_item, find_caller,
}
use libknx.Connection.Tunneling.Calls.{
  return_answer, finish, send_returned, message_moved, resume, deref, sent_to, waited_by, on_sent,
  on_waited, is_timeout,
}
use libknx.Connection.Tunneling.Laws.Pointers.{
  Has, Owned, is_direct, find_item-Has, find_caller-Owned, set_message-Has,
}

abbrev Safe : Outcome Connection → Type 0
Safe o = o ≢ failed use_after_free

done-Safe : (c : Connection) → Safe (done c)
done-Safe c e = cc e

if-Safe : (b : Bool) {x y : Outcome Connection} → Safe x → Safe y → Safe (if b then x else y)
if-Safe true h k = h
if-Safe false h k = k

sent_place :
    (place : Place) {a : Outcome Connection} (c : Connection)
    → Safe a
    → Safe (elim place [ in_send ↦ a | _ ↦ done c ])
sent_place idle c h = done-Safe c
sent_place in_wait c h = done-Safe c
sent_place in_send c h = h
sent_place returned c h = done-Safe c

waited_place :
    (place : Place) {a : Outcome Connection} (c : Connection)
    → Safe a
    → Safe (elim place [ in_wait ↦ a | _ ↦ done c ])
waited_place idle c h = done-Safe c
waited_place in_wait c h = h
waited_place in_send c h = done-Safe c
waited_place returned c h = done-Safe c

by_place :
    (place : Place) {a b d e : Outcome Connection}
    → Safe a
    → Safe b
    → Safe d
    → Safe e
    → Safe (elim place [ idle ↦ a | in_wait ↦ b | in_send ↦ d | returned ↦ e ])
by_place idle a b d e = a
by_place in_wait a b d e = b
by_place in_send a b d e = d
by_place returned a b d e = e

module _ (native : Endian) (make_address_v4 : List ℕ → IpAddress) where
  return_answer-Safe :
      (caller : Caller) (r : ResponseVariant) (c : Connection)
      → is_direct caller ≡ true
      → Safe (return_answer native make_address_v4 caller r c)
  unfolding return_answer
  return_answer-Safe start r c h = done-Safe _
  return_answer-Safe send_cemi r c h = done-Safe _
  return_answer-Safe check_connection r c h = done-Safe _
  return_answer-Safe print_description r c h = done-Safe _
  return_answer-Safe close_for_user r c h = done-Safe _
  return_answer-Safe close_for_ack r c h = done-Safe _
  return_answer-Safe close_for_check r c h = done-Safe _
  return_answer-Safe (close_for_timeout p caller) r c h = cc h

  finish-Safe :
      (p : ℕ) (caller : Caller) (c : Connection)
      → is_direct caller ≡ true
      → Has p c.send_items
      → Safe (finish p (return_answer native make_address_v4 caller) c)
  unfolding finish
  finish-Safe p caller c h k =
      let found = find_item-Has p c.send_items k in
      let erased = record c { send_items = erase_item p c.send_items } in
      let rest : Item → Outcome Connection =
        λ i. return_answer native make_address_v4 caller i.message.response erased in
      subst Safe (sym (ap (λ o. deref o rest) (found.1))) (return_answer-Safe caller _ erased h)

  send_returned-Safe :
      (p : ℕ) (caller : Caller) (s : State) (c : Connection)
      → is_direct caller ≡ true
      → Has p c.send_items
      → Safe (send_returned native make_address_v4 p caller s c)
  unfolding send_returned
  send_returned-Safe p caller s c h k =
      if-Safe (is_timeout s) (if-Safe c.closing_down (finish-Safe p caller c h k) (done-Safe _))
        (finish-Safe p caller c h k)

  message_moved-Safe :
      (i : Item) (caller : Caller) (m : AsyncMessage ResponseVariant) (c : Connection)
      → is_direct caller ≡ true
      → Has i.pointer c.send_items
      → Safe (message_moved native make_address_v4 i caller m c)
  unfolding message_moved
  message_moved-Safe i caller m c h k = by_place m.place (done-Safe _) (done-Safe _) (done-Safe _) (
      send_returned-Safe i.pointer caller m.state _ h
        (set_message-Has i.pointer i.pointer m c.send_items k))

  resume-Safe :
      (p : ℕ) (caller : Caller) (c : Connection) (k : Item → Caller → Outcome Connection)
      → Owned c
      → find_caller p c.frames ≡ some caller
      → ((i : Item) → i.pointer ≡ p → Safe (k i caller))
      → Safe (resume (find_caller p c.frames) p c k)
  resume-Safe p caller c k h e safe =
      let alive = find_caller-Owned p c.frames c.send_items e h in
      let found = find_item-Has p c.send_items alive in
      subst Safe (sym (ap (λ o. resume o p c k) e ∙ ap (λ o. deref o (λ i. k i caller)) (found.1)))
        (safe (found.0) (found.2))

  -- Where every coroutine waits for a living item, one that goes on reads no destroyed item, when
  -- its write or its timer completes; unless it goes on behind a `close` for a request that has
  -- timed out.
  pub resume_safe :
      (p : ℕ) (w : Waited) (caller : Caller) (c : Connection)
      → Owned c
      → find_caller p c.frames ≡ some caller
      → is_direct caller ≡ true
      → (on_sent native make_address_v4 p c ≢ failed use_after_free)
        × (on_waited native make_address_v4 p w c ≢ failed use_after_free)
  unfolding on_sent on_waited
  resume_safe p w caller c h e d =
      let alive = find_caller-Owned p c.frames c.send_items e h in
      let moved : (i : Item) (m : AsyncMessage ResponseVariant)
          → i.pointer ≡ p
          → Safe (message_moved native make_address_v4 i caller m c) =
        λ i m q.
          message_moved-Safe i caller m c d (subst (λ x. Has x c.send_items) (sym q) alive) in
      (
        resume-Safe p caller c (sent_to native make_address_v4 c) h e
            (λ i q. sent_place i.message.place c (moved i _ q)),
        resume-Safe p caller c (waited_by native make_address_v4 w c) h e
            (λ i q. waited_place i.message.place c (moved i _ q)),
      )
