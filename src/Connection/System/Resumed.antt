-- ===== src/Connection/System/Resumed.antt =====
-- The steps of a client whose frames go out under keys that are not in use.
use libknx.Prelude.{
  ◌∙◌, sym, ap, true, inl, inr, ◌==◌, ℕ, suc, ◌≡◌, refl, subst, List, [], ◌∷◌, ◌++◌, Option, none,
  some,
}
use libknx.Bytes.Parser.{Endian}
use libknx.Cemi.CemiFrame.{Cemi}
use libknx.Connection.AsyncMessage
use libknx.Connection.AsyncMessage.{AsyncMessage, Place, idle, in_send, in_wait, returned, Waited}
use libknx.Connection.Outcome.{Outcome, done, failed, ◌>>=◌}
use libknx.Connection.Tunneling.State.{Connection}
use libknx.Connection.Client.State.{
  Client, Request, Sender, at_pointer, erase_key, set_message, find_sender, get_group, to_map_key,
}
use libknx.Connection.Client.Requests as Requests
use libknx.Connection.Client.Laws.Invariant.{set_message-tags}
use libknx.Headers.KnxAddress.{GroupAddress}
use libknx.Connection.Client.Laws.Invariant.{tags, Distinct}
use libknx.Connection.Client.Laws.Requests.{Unused, erase_key-Unused}
use libknx.Connection.System.Quiet.{Quiet}
use libknx.Connection.System.Living.{
  sender_tags, IsPaired, IsSafe, Within, without_key, without_pointer, same_removed, erase_key-tags,
  erase_sender-tags, itself_equal,
}
use libknx.Connection.Tunneling.Laws.Invariant.{if_lem}

-- The key of a frame is not in use.
abbrev pub IsSendable : Outcome GroupAddress → Cemi → Client → Type 0
IsSendable (done a) cemi c = Unused (to_map_key cemi a) c.requests
IsSendable (failed e) cemi c = Unit

-- Each coroutine that is left has its request.
abbrev pub Pairs : Outcome Client → Type 0
Pairs (done c) = IsPaired c
Pairs (failed e) = Unit

pub safe-Pairs : (o : Outcome Client) → IsSafe o → Pairs o
safe-Pairs (done c) h = h
safe-Pairs (failed e) h = tt

pub quiet-Pairs : (c : Client) (o : Outcome Client) → IsPaired c → Quiet c o → Pairs o
quiet-Pairs c (done d) h q = q.0 ∙ h ∙ ap sender_tags (sym (q.1))
quiet-Pairs c (failed e) h q = tt

tags-end :
    (rs : List Request) (r : Request) → tags (rs ++ r ∷ []) ≡ tags rs ++ (r.key, r.pointer) ∷ []
tags-end [] r = refl
tags-end (q ∷ rs) r = ap (λ l. (q.key, q.pointer) ∷ l) (tags-end rs r)

sender_tags-end :
    (ss : List Sender) (s : Sender)
    → sender_tags (ss ++ s ∷ []) ≡ sender_tags ss ++ (s.key, s.pointer) ∷ []
sender_tags-end [] s = refl
sender_tags-end (q ∷ ss) s = ap (λ l. (q.key, q.pointer) ∷ l) (sender_tags-end ss s)

-- What is found carries one of the tags.
abbrev Carries : List (ℕ × ℕ) → Option Sender → Type 0
Carries ts none = Unit
Carries ts (some s) = Within (s.key, s.pointer) ts

more : (x : ℕ × ℕ) (ts : List (ℕ × ℕ)) (o : Option Sender) → Carries ts o → Carries (x ∷ ts) o
more x ts none h = tt
more x ts (some s) h = inr h

find_sender-Carries : (p : ℕ) (ss : List Sender) → Carries (sender_tags ss) (find_sender p ss)
unfolding find_sender
find_sender-Carries p [] = tt
find_sender-Carries p (s ∷ ss) =
    if_lem (Carries ((s.key, s.pointer) ∷ sender_tags ss)) (s.pointer == p) _ _ (inl refl)
      (more (s.key, s.pointer) (sender_tags ss) (find_sender p ss) (find_sender-Carries p ss))

abbrev IsThere : Option Request → Type 0
IsThere none = ⊥
IsThere (some r) = Unit

at_pointer-IsThere :
    (x : ℕ × ℕ) (rs : List Request) → Within x (tags rs) → IsThere (at_pointer (x.1) rs)
unfolding at_pointer
at_pointer-IsThere x [] w = elim w [ ]
at_pointer-IsThere x (r ∷ rs) (inl e) =
    let here : (r.pointer == x.1) ≡ true =
      subst (λ z. (r.pointer == z.1) ≡ true) (sym e) (itself_equal r.pointer) in
    rw here tt
at_pointer-IsThere x (r ∷ rs) (inr w) =
    if_lem IsThere (r.pointer == x.1) _ _ tt (at_pointer-IsThere x rs w)

module _ (native : Endian) where
  forward-IsSafe :
      (cemi : Cemi) (o : Option Connection) (c : Client)
      → IsPaired c
      → IsSafe (Requests.forward native cemi (record c { tunneling_connection = o }))
  unfolding Requests.forward
  forward-IsSafe cemi none c h = tt
  forward-IsSafe cemi (some t) c h = h

  abbrev added : Cemi → Client → GroupAddress → Client
  added cemi c a = record c {
    requests =
        erase_key (to_map_key cemi a) c.requests
        ++ record {
          key = to_map_key cemi a;
          pointer = c.next_pointer;
          cemi = cemi;
          message = AsyncMessage.send 2 Requests.new_message;
        }
          ∷ [];
    senders = c.senders ++ record { pointer = c.next_pointer; key = to_map_key cemi a } ∷ [];
    next_pointer = suc c.next_pointer;
  }

  begun-Pairs :
      (o : Outcome GroupAddress) (cemi : Cemi) (c : Client)
      → IsPaired c
      → IsSendable o cemi c
      → Pairs (o >>= λ a. Requests.forward native cemi (added cemi c a))
  begun-Pairs (done a) cemi c h u =
      let k = to_map_key cemi a in
      safe-Pairs _ (
        forward-IsSafe cemi c.tunneling_connection (added cemi c a) (
          tags-end (erase_key k c.requests) _
          ∙ ap (λ rs. tags rs ++ (k, c.next_pointer) ∷ []) (erase_key-Unused k c.requests u)
          ∙ ap (λ ts. ts ++ (k, c.next_pointer) ∷ []) h
          ∙ sym (sender_tags-end c.senders _)))
  begun-Pairs (failed e) cemi c h u = tt

  pub send_cemi-Pairs :
      (cemi : Cemi) (c : Client)
      → IsPaired c
      → IsSendable (get_group cemi.destination) cemi c
      → Pairs (Requests.send_cemi native cemi c)
  unfolding Requests.send_cemi
  send_cemi-Pairs cemi c h u = begun-Pairs (get_group cemi.destination) cemi c h u

  by_place-IsSafe :
      (place : Place) (a b d e : Outcome Client)
      → IsSafe a
      → IsSafe b
      → IsSafe d
      → IsSafe e
      → IsSafe (elim place [ idle ↦ a | in_wait ↦ b | in_send ↦ d | returned ↦ e ])
  by_place-IsSafe idle a b d e h i j k = h
  by_place-IsSafe in_wait a b d e h i j k = i
  by_place-IsSafe in_send a b d e h i j k = j
  by_place-IsSafe returned a b d e h i j k = k

  moved-IsSafe :
      (r : Request) (s : Sender) (m : AsyncMessage (Option Cemi)) (c : Client)
      → Distinct (tags c.requests)
      → IsPaired c
      → Within (s.key, s.pointer) (tags c.requests)
      → IsSafe (Requests.message_moved native r s m c)
  unfolding Requests.message_moved
  moved-IsSafe r s m c d h w =
      let rs = set_message r.pointer m c.requests in
      let same = set_message-tags r.pointer m c.requests in
      by_place-IsSafe m.place _ _ _ _ (same ∙ h) (same ∙ h)
        (forward-IsSafe r.cemi c.tunneling_connection (record c { requests = rs }) (same ∙ h))
        (erase_key-tags s.key rs
          ∙ ap (λ ts. without_key s.key ts) same
          ∙ same_removed (s.key, s.pointer) (tags c.requests) d w
          ∙ ap (λ ts. without_pointer s.pointer ts) h
          ∙ sym (erase_sender-tags s.pointer c.senders))

  deref-IsSafe :
      (o : Option Request) (k : Request → Outcome Client)
      → IsThere o
      → ((r : Request) → IsSafe (k r))
      → IsSafe (Requests.deref native o k)
  deref-IsSafe none k h f = elim h [ ]
  deref-IsSafe (some r) k h f = f r

  resume-IsSafe :
      (o : Option Sender) (c : Client) (k : Request → Sender → Outcome Client)
      → IsPaired c
      → Carries (tags c.requests) o
      → ((r : Request) (s : Sender) → Within (s.key, s.pointer) (tags c.requests) → IsSafe (k r s))
      → IsSafe (Requests.resume native o c k)
  resume-IsSafe none c k h w f = h
  resume-IsSafe (some s) c k h w f =
      deref-IsSafe (at_pointer s.pointer c.requests) (λ r. k r s)
        (at_pointer-IsThere (s.key, s.pointer) c.requests w) (λ r. f r s w)

  found : (p : ℕ) (c : Client) → IsPaired c → Carries (tags c.requests) (find_sender p c.senders)
  found p c h =
      subst (λ ts. Carries ts (find_sender p c.senders)) (sym h) (find_sender-Carries p c.senders)

  pub on_sent-IsSafe :
      (p : ℕ) (c : Client)
      → Distinct (tags c.requests)
      → IsPaired c
      → IsSafe (Requests.on_sent native p c)
  unfolding Requests.on_sent
  on_sent-IsSafe p c d h =
      resume-IsSafe (find_sender p c.senders) c (Requests.sent_to native c) h (found p c h)
        (λ r s w. by_place-IsSafe r.message.place _ _ _ _ h h (moved-IsSafe r s _ c d h w) h)

  pub on_waited-IsSafe :
      (p : ℕ) (w : Waited) (c : Client)
      → Distinct (tags c.requests)
      → IsPaired c
      → IsSafe (Requests.on_waited native p w c)
  unfolding Requests.on_waited
  on_waited-IsSafe p wt c d h =
      resume-IsSafe (find_sender p c.senders) c (Requests.waited_by native wt c) h (found p c h)
        (λ r s w. by_place-IsSafe r.message.place _ _ _ _ h (moved-IsSafe r s _ c d h w) h h)
