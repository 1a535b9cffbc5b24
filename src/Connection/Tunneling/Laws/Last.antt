-- ===== src/Connection/Tunneling/Laws/Last.antt =====
-- The item and the coroutine that a request adds at the end, where its pointer is a new one.
use libknx.Prelude.{
  same, other, ℕ, ◌<◌, ◌≡◌, refl, ap, ◌∙◌, List, [], ◌∷◌, ◌++◌, some, All, if◌then◌else◌, ◌==◌,
}
use libknx.Message.Response.{ResponseVariant}
use libknx.Connection.AsyncMessage.{AsyncMessage}
use libknx.Connection.Tunneling.State.{
  Item, Frame, Connection, find_item, erase_item, set_message, find_caller, erase_frame,
}

-- Pointers are handed out in order: all in use are below the next.
abbrev pub Below : ℕ → List Item → Type 0
Below n is = All (λ i. i.pointer < n) is

abbrev pub FramesBelow : ℕ → List Frame → Type 0
FramesBelow n fs = All (λ f. f.item < n) fs

abbrev pub Allocated : Connection → Type 0
Allocated c = Below c.next_pointer c.send_items × FramesBelow c.next_pointer c.frames

pub find_item-last :
    (n : ℕ) (is : List Item) (i : Item)
    → Below n is
    → i.pointer ≡ n
    → find_item n (is ++ i ∷ []) ≡ some i
unfolding find_item
find_item-last n [] i h e = rw (e, same n) refl
find_item-last n (j ∷ is) i h e = rw (other j.pointer n h.0) (find_item-last n is i h.1 e)

pub erase_item-last :
    (n : ℕ) (is : List Item) (i : Item)
    → Below n is
    → i.pointer ≡ n
    → erase_item n (is ++ i ∷ []) ≡ is
unfolding erase_item
erase_item-last n [] i h e = rw (e, same n) refl
erase_item-last n (j ∷ is) i h e =
    rw (other j.pointer n h.0) (ap (λ l. j ∷ l) (erase_item-last n is i h.1 e))

pub set_message-last :
    (n : ℕ) (m : AsyncMessage ResponseVariant) (is : List Item) (i : Item)
    → Below n is
    → i.pointer ≡ n
    → set_message n m (is ++ i ∷ []) ≡ is ++ record i { message = m } ∷ []
unfolding set_message
set_message-last n m [] i h e =
    ap (λ b. (if b then record i { message = m } else i) ∷ []) (ap (λ k. k == n) e ∙ same n)
set_message-last n m (j ∷ is) i h e =
    rw (other j.pointer n h.0) (ap (λ l. j ∷ l) (set_message-last n m is i h.1 e))

pub find_caller-last :
    (n : ℕ) (fs : List Frame) (f : Frame)
    → FramesBelow n fs
    → f.item ≡ n
    → find_caller n (fs ++ f ∷ []) ≡ some f.caller
unfolding find_caller
find_caller-last n [] f h e = rw (e, same n) refl
find_caller-last n (j ∷ fs) f h e = rw (other j.item n h.0) (find_caller-last n fs f h.1 e)

pub erase_frame-last :
    (n : ℕ) (fs : List Frame) (f : Frame)
    → FramesBelow n fs
    → f.item ≡ n
    → erase_frame n (fs ++ f ∷ []) ≡ fs
unfolding erase_frame
erase_frame-last n [] f h e = rw (e, same n) refl
erase_frame-last n (j ∷ fs) f h e =
    rw (other j.item n h.0) (ap (λ l. j ∷ l) (erase_frame-last n fs f h.1 e))
