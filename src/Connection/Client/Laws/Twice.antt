-- ===== src/Connection/Client/Laws/Twice.antt =====
-- A second frame under the key of a request that is not done.
use libknx.Prelude.{
  same, other, ℕ, suc, ◌<◌, ◌≡◌, refl, ap, ◌∙◌, List, [], ◌∷◌, ◌++◌, true, false, some, none, arith,
  All, Bool-cases, ◌⊎◌, inl, inr, ◌==◌, ==_iff,
}
use libknx.Bytes.Parser.{Endian}
use libknx.Headers.KnxAddress.{GroupAddress}
use libknx.Cemi.DataAcpi.{group_value_write, of_vector}
use libknx.Connection.AsyncMessage
use libknx.Connection.AsyncMessage.{Waited, in_send}
use libknx.Connection.Outcome.{failed, use_after_free, ◌>>=◌}
use libknx.Connection.Tunneling.State.{Connection}
use libknx.Connection.Client.State.{
  Client, Request, Sender, to_map_key, get_group, at_pointer, erase_key, find_sender,
}
use libknx.Connection.Tunneling.Calls as Tunneling
use libknx.Connection.Client.Requests
use libknx.Connection.Client.Requests.{
  request_frame, write_to_group, send_cemi, forward, deref, resume, sent_to, waited_by, on_sent,
  on_waited,
}
use libknx.Connection.Client.Laws.Requests.{Allocated, request}
use libknx.Connection.Client.Laws.Confirmed.{over}

-- Every request with the pointer stands under the key.
abbrev pub Under : ℕ → ℕ → List Request → Type 0
Under k p rs = All (λ r. ((r.key == k) ≡ true) ⊎ ((r.pointer == p) ≡ false)) rs

gone :
    (k p : ℕ) (rs : List Request) (r : Request)
    → Under k p rs
    → (r.pointer == p) ≡ false
    → at_pointer p (erase_key k rs ++ r ∷ []) ≡ none
unfolding at_pointer erase_key
gone k p [] r h n = rw n refl
gone k p (q ∷ rs) r h n = elim (Bool-cases (q.key == k)) [
  | inl y ↦ rw y (gone k p rs r h.1 n)
  | inr b ↦ elim h.0 [ inl y ↦ cc (y, b) | inr m ↦ rw b (rw m (gone k p rs r h.1 n)) ]
]

Under-last :
    (k p : ℕ) (rs : List Request) (r : Request)
    → Under k p rs
    → r.key ≡ k
    → Under k p (rs ++ r ∷ [])
Under-last k p [] r h e = (inl (rw e (same k)), tt)
Under-last k p (q ∷ rs) r h e = (h.0, Under-last k p rs r h.1 e)

Under-below :
    (k p : ℕ) (rs : List Request) → All (λ r. r.pointer < p) rs → Under k p (erase_key k rs)
unfolding erase_key
Under-below k p [] h = tt
Under-below k p (q ∷ rs) h = elim (Bool-cases (q.key == k)) [
  | inl y ↦ rw y (Under-below k p rs h.1)
  | inr n ↦ rw n (inr (other q.pointer p h.0), Under-below k p rs h.1)
]

find_sender-kept :
    (p : ℕ) (ss : List Sender) (s r : Sender)
    → All (λ q. q.pointer < p) ss
    → s.pointer ≡ p
    → find_sender p ((ss ++ s ∷ []) ++ r ∷ []) ≡ some s
unfolding find_sender
find_sender-kept p [] s r h e = rw (e, same p) refl
find_sender-kept p (q ∷ ss) s r h e = rw (other q.pointer p h.0) (find_sender-kept p ss s r h.1 e)

suc-other : (p : ℕ) → (suc p == p) ≡ false
suc-other p = elim (Bool-cases (suc p == p)) [
  | inl y ↦ absurd (omega (arith, (==_iff (suc p) p).0 y))
  | inr n ↦ n
]

module _ (native : Endian) where
  -- Two writes to one group, the second before the first is done: the request of the first is
  -- destroyed, and its coroutine reads it when it goes on, whether its write or its timer completes.
  pub write_to_group-twice :
      (a : GroupAddress) (v w : List ℕ) (e : Waited) (t : Connection) (c : Client)
      → Allocated c
      → (write_to_group native a v (over t c)
            >>= write_to_group native a w
            >>= on_sent native c.next_pointer
          ≡ failed use_after_free)
        × (write_to_group native a v (over t c)
              >>= write_to_group native a w
              >>= on_waited native c.next_pointer e
            ≡ failed use_after_free)
  unfolding write_to_group send_cemi forward get_group to_map_key on_sent on_waited
  write_to_group-twice a v w e t c h =
      let k = to_map_key (request_frame a (of_vector group_value_write v)) a in
      let p = c.next_pointer in
      let first =
        request k p (request_frame a (of_vector group_value_write v))
          (AsyncMessage.send 2 Requests.new_message) in
      let second =
        request k (suc p) (request_frame a (of_vector group_value_write w))
          (AsyncMessage.send 2 Requests.new_message) in
      let s1 : Sender = record { pointer = p; key = k } in
      let s2 : Sender = record { pointer = suc p; key = k } in
      let t2 =
        Tunneling.send native (request_frame a (of_vector group_value_write w))
          (Tunneling.send native (request_frame a (of_vector group_value_write v)) t) in
      let d : Client = record c {
        tunneling_connection = some t2;
        requests = erase_key k (erase_key k c.requests ++ first ∷ []) ++ second ∷ [];
        senders = (c.senders ++ s1 ∷ []) ++ s2 ∷ [];
        next_pointer = suc (suc p);
      } in
      let sender = find_sender-kept p c.senders s1 s2 h.1 refl in
      let lost =
        gone k p (erase_key k c.requests ++ first ∷ []) second
          (Under-last k p (erase_key k c.requests) first (Under-below k p c.requests h.0) refl)
          (suc-other p) in
      (
        ap (λ o. resume native o d (sent_to native d)) sender
            ∙ ap (λ o. deref native o (λ r. sent_to native d r s1)) lost,
        ap (λ o. resume native o d (waited_by native e d)) sender
            ∙ ap (λ o. deref native o (λ r. waited_by native e d r s1)) lost,
      )
