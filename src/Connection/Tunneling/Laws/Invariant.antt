-- ===== src/Connection/Tunneling/Laws/Invariant.antt =====
-- Pointers are handed out once: what every step keeps.
use libknx.Prelude.{
  ℕ, ◌<◌, sym, subst, List, [], ◌∷◌, Bool, true, false, Option, none, some, arith, if◌then◌else◌,
  ◌==◌,
}
use libknx.Bytes.Parser.{Endian}
use libknx.Message.Request.{RequestVariant, matches_response}
use libknx.Message.Response.{ResponseVariant}
use libknx.Connection.AsyncMessage.{AsyncMessage}
use libknx.Connection.Outcome.{Outcome, done, failed}
use libknx.Connection.Tunneling.State.{
  Item, Frame, Caller, Connection, find_item, erase_item, set_message, erase_frame,
}
use libknx.Connection.Tunneling.Requests.{send_request}
use libknx.Connection.Tunneling.Close.{begin_close}
use libknx.Connection.Tunneling.Receive.{deliver}
use libknx.Connection.Tunneling.Calls.{close, deref, finish, resume, close_answered}
use libknx.Connection.Tunneling.Laws.Close.{close_without_disconnect_lem}
use libknx.Connection.Tunneling.Laws.Last.{Below, FramesBelow, Allocated}
use libknx.Connection.Tunneling.Laws.Pointers.{All-map, All-last}

-- Where a step comes to a state, the state is allocated.
abbrev pub Sound : Outcome Connection → Type 0
Sound (done c) = Allocated c
Sound (failed e) = Unit

pub if_lem : {A : Type 0} (P : A → Type 0) (b : Bool) (x y : A) → P x → P y → P (if b then x else y)
if_lem P true x y h k = h
if_lem P false x y h k = k

pub deref-Sound :
    (o : Option Item) (k : Item → Outcome Connection)
    → ((i : Item) → Sound (k i))
    → Sound (deref o k)
deref-Sound none k f = tt
deref-Sound (some i) k f = f i

pointer-set :
    (b : Bool) (m : AsyncMessage ResponseVariant) (i : Item) (n : ℕ)
    → i.pointer < n
    → (if b then record i { message = m } else i).pointer < n
pointer-set true m i n h = h
pointer-set false m i n h = h

pub deliver-Below :
    (n : ℕ) (r : ResponseVariant) (is : List Item) → Below n is → Below n (deliver r is)
unfolding deliver
deliver-Below n r [] h = tt
deliver-Below n r (i ∷ is) h =
    if_lem (Below n) (matches_response i.request r) _ _ (h.0, h.1) (h.0, deliver-Below n r is h.1)

pub set_message-Below :
    (n p : ℕ) (m : AsyncMessage ResponseVariant) (is : List Item)
    → Below n is
    → Below n (set_message p m is)
unfolding set_message
set_message-Below n p m [] h = tt
set_message-Below n p m (i ∷ is) h =
    (pointer-set (i.pointer == p) m i n h.0, set_message-Below n p m is h.1)

pub erase_item-Below : (n p : ℕ) (is : List Item) → Below n is → Below n (erase_item p is)
unfolding erase_item
erase_item-Below n p [] h = tt
erase_item-Below n p (i ∷ is) h =
    if_lem (Below n) (i.pointer == p) _ _ (erase_item-Below n p is h.1)
      (h.0, erase_item-Below n p is h.1)

pub erase_frame-Below :
    (n p : ℕ) (fs : List Frame) → FramesBelow n fs → FramesBelow n (erase_frame p fs)
unfolding erase_frame
erase_frame-Below n p [] h = tt
erase_frame-Below n p (f ∷ fs) h =
    if_lem (FramesBelow n) (f.item == p) _ _ (erase_frame-Below n p fs h.1)
      (h.0, erase_frame-Below n p fs h.1)

pub send_request-Allocated :
    (native : Endian) (q : RequestVariant) (caller : Caller) (c : Connection)
    → Allocated c
    → Allocated (send_request native q caller c)
unfolding send_request
send_request-Allocated native q caller c h = (
  All-last _ c.send_items _ (All-map (λ i b. omega (arith, b)) c.send_items h.0) (omega arith),
  All-last _ c.frames _ (All-map (λ f b. omega (arith, b)) c.frames h.1) (omega arith),
)

pub close_answered-Allocated : (c : Connection) → Allocated c → Allocated (close_answered c)
unfolding close_answered
close_answered-Allocated c h =
    subst (λ d. Allocated (record d { closing_down = false }))
      (sym ((close_without_disconnect_lem 0 c).1)) (tt, h.1)

pub finish-Sound :
    (p : ℕ) (k : ResponseVariant → Connection → Outcome Connection) (c : Connection)
    → ((r : ResponseVariant) (d : Connection) → Allocated d → Sound (k r d))
    → Allocated c
    → Sound (finish p k c)
unfolding finish
finish-Sound p k c f h =
    let rest = record c { send_items = erase_item p c.send_items } in
    deref-Sound (find_item p c.send_items) (λ i. k i.message.response rest)
      (λ i. f i.message.response rest (erase_item-Below c.next_pointer p c.send_items h.0, h.1))

pub resume-Sound :
    (o : Option Caller) (p : ℕ) (c : Connection) (k : Item → Caller → Outcome Connection)
    → Allocated c
    → ((i : Item) (caller : Caller) → Sound (k i caller))
    → Sound (resume o p c k)
resume-Sound none p c k h f = h
resume-Sound (some caller) p c k h f =
    deref-Sound (find_item p c.send_items) (λ i. k i caller) (λ i. f i caller)

module _ (native : Endian) where
  pub begin_close-Allocated :
      (caller : Caller) (c : Connection) → Allocated c → Allocated (begin_close native caller c)
  unfolding begin_close
  begin_close-Allocated caller c h =
      send_request-Allocated native _ caller (record c { closing_down = true }) h

  pub close-Allocated :
      (caller : Caller) (c : Connection) → Allocated c → Allocated (close native caller c)
  unfolding close
  close-Allocated caller c h =
      if_lem Allocated c.closing_down _ _ h (begin_close-Allocated caller c h)
