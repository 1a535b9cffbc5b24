-- ===== src/Connection/Tunneling/Laws/Sending.antt =====
-- A request from `sendRequest` to its end.
use libknx.Prelude.{ℕ, suc, ◌≡◌, refl, ap, ◌∙◌, List, [], ◌∷◌, ◌++◌}
use libknx.Bytes.Parser.{Endian}
use libknx.Headers.IpAddress.{IpAddress}
use libknx.Message.Request.{RequestVariant}
use libknx.Message.Response.{ResponseVariant, monostate}
use libknx.Connection.AsyncMessage
use libknx.Connection.AsyncMessage.{
  AsyncMessage, State, Place, sending, timeout, idle, in_send, in_wait, returned, expired,
}
use libknx.Connection.Outcome.{Outcome, done, ◌>>=◌}
use libknx.Connection.Tunneling.State.{Item, Action, Caller, Connection, find_caller, erase_frame}
use libknx.Connection.Tunneling.Requests.{written, send_request}
use libknx.Connection.Tunneling.Calls.{
  resume, deref, sent_to, waited_by, on_sent, on_waited, message_moved, send_returned,
}
use libknx.Connection.Tunneling.Run.{Input, sent, waited, step, run}
use libknx.Connection.Tunneling.Laws.Last.{
  Allocated, find_item-last, set_message-last, find_caller-last, erase_frame-last,
}

abbrev pub item : ℕ → RequestVariant → AsyncMessage ResponseVariant → Item
item p q m = record { pointer = p; request = q; message = m }

-- A connection with one request more, which has come to `m`.
abbrev pub pending :
    RequestVariant → Caller → AsyncMessage ResponseVariant → List Action → Connection → Connection
pending q caller m actions c = record c {
  send_items = c.send_items ++ item c.next_pointer q m ∷ [];
  frames = c.frames ++ record { item = c.next_pointer; caller = caller } ∷ [];
  next_pointer = suc c.next_pointer;
  actions = actions;
}

-- The same when its `send` has returned.
abbrev pub returned_from :
    RequestVariant → AsyncMessage ResponseVariant → List Action → Connection → Connection
returned_from q m actions c = record c {
  send_items = c.send_items ++ item c.next_pointer q m ∷ [];
  next_pointer = suc c.next_pointer;
  actions = actions;
}

-- The message of a request that nobody answers, on its way.
abbrev pub attempt : ℕ → State → ℕ → Place → AsyncMessage ResponseVariant
attempt attempts state sends place = record {
  state = state;
  response = monostate;
  attempts = attempts;
  place = place;
  sends = sends;
}

-- Both attempts are written, and the timer expires after each.
abbrev pub silence : ℕ → List Input → List Input
silence p rest = sent p ∷ waited p expired ∷ sent p ∷ waited p expired ∷ rest

module _ (native : Endian) (make_address_v4 : List ℕ → IpAddress) where
  pub resume-pending :
      (q : RequestVariant) (caller : Caller) (m : AsyncMessage ResponseVariant)
      (actions : List Action) (c : Connection)
      → Allocated c
      → (k : Item → Caller → Outcome Connection)
      → resume
          (find_caller c.next_pointer (pending q caller m actions c).frames)
          c.next_pointer
          (pending q caller m actions c)
          k
        ≡ k (item c.next_pointer q m) caller
  resume-pending q caller m actions c h k =
      ap (λ o. resume o c.next_pointer (pending q caller m actions c) k)
        (find_caller-last c.next_pointer c.frames _ h.1 refl)
      ∙ ap (λ o. deref o (λ i. k i caller)) (find_item-last c.next_pointer c.send_items _ h.0 refl)

  moved_wait :
      (q : RequestVariant) (caller : Caller) (m m' : AsyncMessage ResponseVariant)
      (actions : List Action) (c : Connection)
      → Allocated c
      → message_moved native make_address_v4
          (item c.next_pointer q m)
          caller
          (record m' { place = in_wait })
          (pending q caller m actions c)
        ≡ done (pending q caller (record m' { place = in_wait }) actions c)
  unfolding message_moved
  moved_wait q caller m m' actions c h =
      ap (λ l. done (record (pending q caller m actions c) { send_items = l }))
        (set_message-last c.next_pointer _ c.send_items _ h.0 refl)

  moved_send :
      (q : RequestVariant) (caller : Caller) (m m' : AsyncMessage ResponseVariant)
      (actions : List Action) (c : Connection)
      → Allocated c
      → message_moved native make_address_v4
          (item c.next_pointer q m)
          caller
          (record m' { place = in_send })
          (pending q caller m actions c)
        ≡ done (
            pending q caller (record m' { place = in_send }) (actions ++ written native q c ∷ []) c)
  unfolding message_moved written
  moved_send q caller m m' actions c h =
      ap
        (λ l.
          done
            (record (pending q caller m (actions ++ written native q c ∷ []) c) { send_items = l }))
        (set_message-last c.next_pointer _ c.send_items _ h.0 refl)

  pub moved_returned :
      (q : RequestVariant) (caller : Caller) (m m' : AsyncMessage ResponseVariant)
      (actions : List Action) (c : Connection)
      → Allocated c
      → message_moved native make_address_v4
          (item c.next_pointer q m)
          caller
          (record m' { place = returned })
          (pending q caller m actions c)
        ≡ send_returned native make_address_v4 c.next_pointer caller m'.state
            (returned_from q (record m' { place = returned }) actions c)
  unfolding message_moved
  moved_returned q caller m m' actions c h =
      ap
        (λ l.
          send_returned native make_address_v4 c.next_pointer caller m'.state
            (record (pending q caller m actions c) {
              send_items = l;
              frames =
                  erase_frame c.next_pointer
                    (c.frames ++ record { item = c.next_pointer; caller = caller } ∷ []);
            }))
        (set_message-last c.next_pointer _ c.send_items _ h.0 refl)
      ∙ ap
          (λ l.
            send_returned native make_address_v4 c.next_pointer caller m'.state
              (record (returned_from q (record m' { place = returned }) actions c) { frames = l }))
          (erase_frame-last c.next_pointer c.frames _ h.1 refl)

  -- The five places of a request that nobody answers.
  pub first_sent :
      (q : RequestVariant) (caller : Caller) (actions : List Action) (c : Connection)
      (attempts sends : ℕ)
      → Allocated c
      → step native make_address_v4
          (sent c.next_pointer)
          (pending q caller (attempt attempts sending sends in_send) actions c)
        ≡ done (pending q caller (attempt attempts sending sends in_wait) actions c)
  unfolding step on_sent AsyncMessage.step AsyncMessage.after_send AsyncMessage.is_settled
  first_sent q caller actions c attempts sends h =
      resume-pending q caller (attempt attempts sending sends in_send) actions c h
        (sent_to native make_address_v4 _)
      ∙ moved_wait q caller (attempt attempts sending sends in_send)
          (attempt attempts sending sends in_wait) actions c h

  again :
      (q : RequestVariant) (caller : Caller) (actions : List Action) (c : Connection)
      → Allocated c
      → step native make_address_v4
          (waited c.next_pointer expired)
          (pending q caller (attempt 1 sending 1 in_wait) actions c)
        ≡ done
            (pending q caller (attempt 0 sending 2 in_send) (actions ++ written native q c ∷ []) c)
  unfolding step on_waited AsyncMessage.step AsyncMessage.after_wait AsyncMessage.loop
      AsyncMessage.state_after AsyncMessage.is_sending AsyncMessage.decrement
  again q caller actions c h =
      resume-pending q caller (attempt 1 sending 1 in_wait) actions c h
        (waited_by native make_address_v4 expired _)
      ∙ moved_send q caller (attempt 1 sending 1 in_wait) (attempt 0 sending 2 in_send) actions c h

  given_up :
      (q : RequestVariant) (caller : Caller) (actions : List Action) (c : Connection)
      → Allocated c
      → step native make_address_v4
          (waited c.next_pointer expired)
          (pending q caller (attempt 0 sending 2 in_wait) actions c)
        ≡ send_returned native make_address_v4 c.next_pointer caller timeout
            (returned_from q (attempt 0 timeout 2 returned) actions c)
  unfolding step on_waited AsyncMessage.step AsyncMessage.after_wait AsyncMessage.loop
      AsyncMessage.state_after AsyncMessage.is_sending
  given_up q caller actions c h =
      resume-pending q caller (attempt 0 sending 2 in_wait) actions c h
        (waited_by native make_address_v4 expired _)
      ∙ moved_returned q caller (attempt 0 sending 2 in_wait) (attempt 0 timeout 2 returned) actions
          c h

  pub silence_lem :
      (q : RequestVariant) (caller : Caller) (c : Connection) (rest : List Input)
      → Allocated c
      → run native make_address_v4 (silence c.next_pointer rest) (send_request native q caller c)
        ≡ send_returned native make_address_v4 c.next_pointer caller timeout (
            returned_from q
              (attempt 0 timeout 2 returned)
              ((c.actions ++ written native q c ∷ []) ++ written native q c ∷ [])
              c)
          >>= run native make_address_v4 rest
  unfolding run send_request AsyncMessage.send AsyncMessage.loop AsyncMessage.is_sending
      AsyncMessage.decrement
  silence_lem q caller c rest h =
      let p = c.next_pointer in
      let go = run native make_address_v4 in
      let once = c.actions ++ written native q c ∷ [] in
      ap (λ o. o >>= go (waited p expired ∷ sent p ∷ waited p expired ∷ rest))
        (first_sent q caller once c 1 1 h)
      ∙ ap (λ o. o >>= go (sent p ∷ waited p expired ∷ rest)) (again q caller once c h)
      ∙ ap (λ o. o >>= go (waited p expired ∷ rest))
          (first_sent q caller (once ++ written native q c ∷ []) c 0 2 h)
      ∙ ap (λ o. o >>= go rest) (given_up q caller (once ++ written native q c ∷ []) c h)
