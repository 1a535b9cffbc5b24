-- ===== src/Connection/Tunneling/Laws/Pointers.antt =====
-- Which pointers to items are good, and which dangle.
use libknx.Prelude.{
  ℕ, ◌≡◌, ◌⊎◌, inl, inr, refl, ap, List, [], ◌∷◌, ◌++◌, Bool, true, false, some, All, Bool-cases,
  ◌==◌, ==_iff,
}
use libknx.Bytes.Parser.{Endian}
use libknx.Headers.IpAddress.{IpAddress}
use libknx.Message.Request.{RequestVariant, matches_response}
use libknx.Message.Response.{ResponseVariant}
use libknx.Connection.AsyncMessage.{AsyncMessage, Waited}
use libknx.Connection.Outcome.{failed, use_after_free}
use libknx.Connection.Tunneling.State.{
  Item, Frame, Caller, close_for_timeout, Connection, find_item, set_message, find_caller,
}
use libknx.Connection.Tunneling.Requests.{send_request}
use libknx.Connection.Tunneling.Close.{reset}
use libknx.Connection.Tunneling.Receive.{deliver}
use libknx.Connection.Tunneling.Calls.{
  return_answer, finish, resume, sent_to, waited_by, close_answered, on_sent, on_waited,
}
use libknx.Connection.Tunneling.Laws.Close.{close_without_disconnect_lem}

-- An object of that pointer is alive.
abbrev pub Has : ℕ → List Item → Type 0
Has p [] = ⊥
Has p (i ∷ is) = (i.pointer ≡ p) ⊎ Has p is

-- Every coroutine that waits for an item waits for one that is alive.
abbrev pub Owned : Connection → Type 0
Owned c = All (λ f. Has f.item c.send_items) c.frames

-- A caller that does not go on behind a `close` for a request that timed out.
abbrev pub is_direct : Caller → Bool
is_direct (close_for_timeout _ _) = false
is_direct _ = true

pub find_item-Has :
    (p : ℕ) (is : List Item) → Has p is → (i : Item) × (find_item p is ≡ some i) × (i.pointer ≡ p)
unfolding find_item
find_item-Has p [] h = absurd h
find_item-Has p (i ∷ is) h = elim (Bool-cases (i.pointer == p)) [
  | inl y ↦ (i, rw y refl, (==_iff i.pointer p).0 y)
  | inr n ↦ elim h [
    | inl e ↦ cc (n, (==_iff i.pointer p).1 e)
    | inr t ↦ (let found = find_item-Has p is t in (found.0, rw n (found.1), found.2))
  ]
]

pub find_caller-Owned :
    (p : ℕ) (fs : List Frame) (is : List Item) {caller : Caller}
    → find_caller p fs ≡ some caller
    → All (λ f. Has f.item is) fs
    → Has p is
unfolding find_caller
find_caller-Owned p [] is e h = cc e
find_caller-Owned p (f ∷ fs) is e h = elim (Bool-cases (f.item == p)) [
  | inl y ↦ rw ((==_iff f.item p).0 y) at (h.0)
  | inr n ↦ find_caller-Owned p fs is (rw n at e) h.1
]

Or_map : {A B C : Type 0} → A ⊎ B → (B → C) → A ⊎ C
Or_map (inl a) f = inl a
Or_map (inr b) f = inr (f b)

pub set_message-Has :
    (p q : ℕ) (m : AsyncMessage ResponseVariant) (is : List Item)
    → Has p is
    → Has p (set_message q m is)
unfolding set_message
set_message-Has p q m [] h = h
set_message-Has p q m (i ∷ is) h = elim (Bool-cases (i.pointer == q)) [
  | inl y ↦ rw y (Or_map h (set_message-Has p q m is))
  | inr n ↦ rw n (Or_map h (set_message-Has p q m is))
]

deliver-Has : (p : ℕ) (r : ResponseVariant) (is : List Item) → Has p is → Has p (deliver r is)
unfolding deliver
deliver-Has p r [] h = h
deliver-Has p r (i ∷ is) h = elim (Bool-cases (matches_response i.request r)) [
  | inl y ↦ rw y h
  | inr n ↦ rw n (Or_map h (deliver-Has p r is))
]

Has-append : (p : ℕ) (is js : List Item) → Has p is → Has p (is ++ js)
Has-append p [] js h = absurd h
Has-append p (i ∷ is) js (inl e) = inl e
Has-append p (i ∷ is) js (inr t) = inr (Has-append p is js t)

Has-last : (p : ℕ) (is : List Item) (i : Item) → i.pointer ≡ p → Has p (is ++ i ∷ [])
Has-last p [] i e = inl e
Has-last p (j ∷ is) i e = inr (Has-last p is i e)

pub All-map {ℓ κ} :
    {A : Type ℓ} {P Q : A → Type κ} (f : (a : A) → P a → Q a) (xs : List A) → All P xs → All Q xs
All-map f [] h = tt
All-map f (x ∷ xs) h = (f x h.0, All-map f xs h.1)

pub All-last {ℓ κ} :
    {A : Type ℓ} (P : A → Type κ) (xs : List A) (x : A) → All P xs → P x → All P (xs ++ x ∷ [])
All-last P [] x h p = (p, tt)
All-last P (y ∷ xs) x h p = (h.0, All-last P xs x h.1 p)

-- A request that is sent by a connection whose waiting coroutines wait for living items leaves it so.
pub send_request-Owned :
    (native : Endian) (q : RequestVariant) (caller : Caller) (c : Connection)
    → Owned c
    → Owned (send_request native q caller c)
unfolding send_request
send_request-Owned native q caller c h =
    All-last _ c.frames _ (All-map (λ f. Has-append f.item c.send_items _) c.frames h)
      (Has-last c.next_pointer c.send_items _ refl)

-- A response that is handed to the items leaves them alive.
pub deliver-Owned :
    (r : ResponseVariant) (c : Connection)
    → Owned c
    → Owned (record c { send_items = deliver r c.send_items })
deliver-Owned r c h = All-map (λ f. deliver-Has f.item r c.send_items) c.frames h

module _ (native : Endian) (make_address_v4 : List ℕ → IpAddress) where
  -- `sendRequest` that timed out awaits `close`, and `close` destroys all items: behind it the
  -- response is read from a destroyed item, whatever the state, the answer and the caller are.
  pub timeout_dangles :
      (p : ℕ) (caller : Caller) (r : ResponseVariant) (c : Connection)
      → return_answer native make_address_v4 (close_for_timeout p caller) r c
        ≡ failed use_after_free
  unfolding return_answer finish find_item close_answered
  timeout_dangles p caller r c =
      ap
        (λ d.
          finish p (return_answer native make_address_v4 caller)
            (record d { closing_down = false }))
        ((close_without_disconnect_lem 0 c).1)

  -- After a `reset`, every coroutine that waits for an item reads a destroyed one when it goes on.
  pub reset_dangles :
      (p : ℕ) (w : Waited) (caller : Caller) (c : Connection)
      → find_caller p c.frames ≡ some caller
      → (on_sent native make_address_v4 p (reset c) ≡ failed use_after_free)
        × (on_waited native make_address_v4 p w (reset c) ≡ failed use_after_free)
  unfolding on_sent on_waited reset find_item
  reset_dangles p w caller c e = (
    ap (λ o. resume o p (reset c) (sent_to native make_address_v4 (reset c))) e,
    ap (λ o. resume o p (reset c) (waited_by native make_address_v4 w (reset c))) e,
  )
