-- ===== src/Connection/System/Living.antt =====
-- Every coroutine of the client waits for a living request, as long as no frame is sent under a key
-- that is in use.
use libknx.Prelude.{
  ◌∙◌, sym, ap, true, false, All, ◌⊎◌, inl, inr, Bool-cases, if◌then◌else◌, ◌==◌, ℕ, ◌≡◌, refl,
  subst, List, [], ◌∷◌, arith,
}
use libknx.Connection.Outcome.{Outcome, done, failed}
use libknx.Connection.Client.State.{Client, Request, Sender, erase_key, erase_sender}
use libknx.Connection.Outcome.{use_after_free, null_pointer, malformed}
use libknx.Connection.Client.Laws.Invariant.{tags, Distinct, Apart}

abbrev pub sender_tags : List Sender → List (ℕ × ℕ)
sender_tags [] = []
sender_tags (s ∷ ss) = (s.key, s.pointer) ∷ sender_tags ss

-- One coroutine waits for each request, in the same order.
abbrev pub IsPaired : Client → Type 0
IsPaired c = tags c.requests ≡ sender_tags c.senders

-- No destroyed request is read, and each coroutine that is left has its request.
abbrev pub IsSafe : Outcome Client → Type 0
IsSafe (done c) = IsPaired c
IsSafe (failed use_after_free) = ⊥
IsSafe (failed null_pointer) = Unit
IsSafe (failed (malformed f)) = Unit

abbrev pub without_key : ℕ → List (ℕ × ℕ) → List (ℕ × ℕ)
without_key k [] = []
without_key k (t ∷ ts) = let rest = without_key k ts in if t.0 == k then rest else t ∷ rest

abbrev pub without_pointer : ℕ → List (ℕ × ℕ) → List (ℕ × ℕ)
without_pointer p [] = []
without_pointer p (t ∷ ts) = let rest = without_pointer p ts in if t.1 == p then rest else t ∷ rest

abbrev pub Within : ℕ × ℕ → List (ℕ × ℕ) → Type 0
Within x [] = ⊥
Within x (y ∷ ys) = (x ≡ y) ⊎ Within x ys

pub erase_key-tags : (k : ℕ) (rs : List Request) → tags (erase_key k rs) ≡ without_key k (tags rs)
unfolding erase_key
erase_key-tags k [] = refl
erase_key-tags k (r ∷ rs) = elim (Bool-cases (r.key == k)) [
  | inl y ↦ rw y (erase_key-tags k rs)
  | inr n ↦ rw n (ap (λ l. (r.key, r.pointer) ∷ l) (erase_key-tags k rs))
]

pub erase_sender-tags :
    (p : ℕ) (ss : List Sender)
    → sender_tags (erase_sender p ss) ≡ without_pointer p (sender_tags ss)
unfolding erase_sender
erase_sender-tags p [] = refl
erase_sender-tags p (s ∷ ss) = elim (Bool-cases (s.pointer == p)) [
  | inl y ↦ rw y (erase_sender-tags p ss)
  | inr n ↦ rw n (ap (λ l. (s.key, s.pointer) ∷ l) (erase_sender-tags p ss))
]

differs : (a b : ℕ) → (a == b) ≡ false → (b == a) ≡ false
differs a b h = ground arith

pub itself_equal : (a : ℕ) → (a == a) ≡ true
itself_equal a = ground arith

keep_key : (x : ℕ × ℕ) (ts : List (ℕ × ℕ)) → All (λ y. Apart x y) ts → without_key (x.0) ts ≡ ts
keep_key x [] a = refl
keep_key x (t ∷ ts) a =
    ap (λ b. if b then without_key (x.0) ts else t ∷ without_key (x.0) ts)
      (differs (x.0) (t.0) (a.0.0))
    ∙ ap (λ l. t ∷ l) (keep_key x ts (a.1))

keep_pointer :
    (x : ℕ × ℕ) (ts : List (ℕ × ℕ)) → All (λ y. Apart x y) ts → without_pointer (x.1) ts ≡ ts
keep_pointer x [] a = refl
keep_pointer x (t ∷ ts) a =
    ap (λ b. if b then without_pointer (x.1) ts else t ∷ without_pointer (x.1) ts)
      (differs (x.1) (t.1) (a.0.1))
    ∙ ap (λ l. t ∷ l) (keep_pointer x ts (a.1))

from_others : (y x : ℕ × ℕ) (ts : List (ℕ × ℕ)) → All (λ z. Apart y z) ts → Within x ts → Apart y x
from_others y x [] a w = elim w [ ]
from_others y x (t ∷ ts) a (inl e) = subst (λ z. Apart y z) (sym e) (a.0)
from_others y x (t ∷ ts) a (inr w) = from_others y x ts (a.1) w

-- Among distinct tags, a tag is found by its key as well as by its pointer.
pub same_removed :
    (x : ℕ × ℕ) (ts : List (ℕ × ℕ))
    → Distinct ts
    → Within x ts
    → without_key (x.0) ts ≡ without_pointer (x.1) ts
same_removed x [] d w = elim w [ ]
same_removed x (t ∷ ts) d (inl e) =
    subst (λ z. without_key (z.0) (t ∷ ts) ≡ without_pointer (z.1) (t ∷ ts)) (sym e)
      (ap (λ b. if b then without_key (t.0) ts else t ∷ without_key (t.0) ts) (itself_equal (t.0))
        ∙ keep_key t ts (d.0)
        ∙ sym (keep_pointer t ts (d.0))
        ∙ ap (λ b. if b then without_pointer (t.1) ts else t ∷ without_pointer (t.1) ts)
            (sym (itself_equal (t.1))))
same_removed x (t ∷ ts) d (inr w) =
    let a = from_others t x ts (d.0) w in
    ap (λ b. if b then without_key (x.0) ts else t ∷ without_key (x.0) ts) (a.0)
    ∙ ap (λ l. t ∷ l) (same_removed x ts (d.1) w)
    ∙ ap (λ b. if b then without_pointer (x.1) ts else t ∷ without_pointer (x.1) ts) (sym (a.1))
