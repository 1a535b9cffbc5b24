-- ===== src/Connection/Client/Laws/Requests.antt =====
-- The request that a frame adds at the end, where its pointer is a new one.
use libknx.Prelude.{
  same, other, ℕ, suc, ◌<◌, ◌≡◌, refl, ap, List, [], ◌∷◌, ◌++◌, false, Option, some, none, All,
  if◌then◌else◌, ◌==◌,
}
use libknx.Cemi.CemiFrame.{Cemi}
use libknx.Connection.AsyncMessage.{AsyncMessage, ok, sending, Place}
use libknx.Connection.Client.State.{
  Client, Request, Sender, at_key, at_pointer, erase_key, set_message, find_sender, erase_sender,
}

-- No request stands under the key.
abbrev pub Unused : ℕ → List Request → Type 0
Unused k rs = All (λ r. (r.key == k) ≡ false) rs

-- Pointers are handed out in order: all in use are below the next.
abbrev pub Allocated : Client → Type 0
Allocated c =
    All (λ r. r.pointer < c.next_pointer) c.requests
    × All (λ s. s.pointer < c.next_pointer) c.senders

pub erase_key-Unused : (k : ℕ) (rs : List Request) → Unused k rs → erase_key k rs ≡ rs
unfolding erase_key
erase_key-Unused k [] h = refl
erase_key-Unused k (r ∷ rs) h = rw (h.0) (ap (λ l. r ∷ l) (erase_key-Unused k rs h.1))

pub erase_key-last :
    (rs : List Request) (r : Request) → Unused r.key rs → erase_key r.key (rs ++ r ∷ []) ≡ rs
unfolding erase_key
erase_key-last [] r h = rw (same r.key) refl
erase_key-last (q ∷ rs) r h = rw (h.0) (ap (λ l. q ∷ l) (erase_key-last rs r h.1))

pub at_key-last :
    (rs : List Request) (r : Request) → Unused r.key rs → at_key r.key (rs ++ r ∷ []) ≡ some r
unfolding at_key
at_key-last [] r h = rw (same r.key) refl
at_key-last (q ∷ rs) r h = rw (h.0) (at_key-last rs r h.1)

pub at_pointer-last :
    (rs : List Request) (r : Request)
    → All (λ q. q.pointer < r.pointer) rs
    → at_pointer r.pointer (rs ++ r ∷ []) ≡ some r
unfolding at_pointer
at_pointer-last [] r h = rw (same r.pointer) refl
at_pointer-last (q ∷ rs) r h = rw (other q.pointer r.pointer h.0) (at_pointer-last rs r h.1)

pub set_message-last :
    (m : AsyncMessage (Option Cemi)) (rs : List Request) (r : Request)
    → All (λ q. q.pointer < r.pointer) rs
    → set_message r.pointer m (rs ++ r ∷ []) ≡ rs ++ record r { message = m } ∷ []
unfolding set_message
set_message-last m [] r h =
    ap (λ b. (if b then record r { message = m } else r) ∷ []) (same r.pointer)
set_message-last m (q ∷ rs) r h =
    rw (other q.pointer r.pointer h.0) (ap (λ l. q ∷ l) (set_message-last m rs r h.1))

pub find_sender-last :
    (ss : List Sender) (s : Sender)
    → All (λ q. q.pointer < s.pointer) ss
    → find_sender s.pointer (ss ++ s ∷ []) ≡ some s
unfolding find_sender
find_sender-last [] s h = rw (same s.pointer) refl
find_sender-last (q ∷ ss) s h = rw (other q.pointer s.pointer h.0) (find_sender-last ss s h.1)

pub erase_sender-last :
    (ss : List Sender) (s : Sender)
    → All (λ q. q.pointer < s.pointer) ss
    → erase_sender s.pointer (ss ++ s ∷ []) ≡ ss
unfolding erase_sender
erase_sender-last [] s h = rw (same s.pointer) refl
erase_sender-last (q ∷ ss) s h =
    rw (other q.pointer s.pointer h.0) (ap (λ l. q ∷ l) (erase_sender-last ss s h.1))

-- A client with one request more, which has come to `m`.
abbrev pub request : ℕ → ℕ → Cemi → AsyncMessage (Option Cemi) → Request
request k p cemi m = record { key = k; pointer = p; cemi = cemi; message = m }

abbrev pub with_request : ℕ → Cemi → AsyncMessage (Option Cemi) → Client → Client
with_request k cemi m c = record c {
  requests = c.requests ++ request k c.next_pointer cemi m ∷ [];
  senders = c.senders ++ record { pointer = c.next_pointer; key = k } ∷ [];
  next_pointer = suc c.next_pointer;
}

-- The message of a request that is written once and then answered.
abbrev pub waiting : Place → AsyncMessage (Option Cemi)
waiting place = record { state = sending; response = none; attempts = 1; place = place; sends = 1 }

abbrev pub answered : Cemi → Place → AsyncMessage (Option Cemi)
answered con place = record {
  state = ok;
  response = some con;
  attempts = 1;
  place = place;
  sends = 1;
}
