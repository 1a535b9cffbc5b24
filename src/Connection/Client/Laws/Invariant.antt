-- ===== src/Connection/Client/Laws/Invariant.antt =====
-- What every step of a client keeps: its requests are a table, and no pointer is handed out twice.
use libknx.Prelude.{
  ℕ, suc, ◌<◌, ◌≡◌, refl, ap, List, [], ◌∷◌, ◌++◌, false, Option, arith, All, Bool-cases, inl, inr,
  ◌==◌, other,
}
use libknx.Cemi.CemiFrame.{Cemi}
use libknx.Connection.AsyncMessage.{AsyncMessage}
use libknx.Connection.Tunneling.Laws.Pointers.{All-map, All-last}
use libknx.Connection.Tunneling.Laws.Invariant.{if_lem}
use libknx.Connection.Client.State.{Request, erase_key, set_message}

-- The key and the pointer of every request.
abbrev pub tags : List Request → List (ℕ × ℕ)
tags [] = []
tags (r ∷ rs) = (r.key, r.pointer) ∷ tags rs

abbrev pub Apart : ℕ × ℕ → ℕ × ℕ → Type 0
Apart x y = ((x.0 == y.0) ≡ false) × ((x.1 == y.1) ≡ false)

-- No two share a key or a pointer.
abbrev pub Distinct : List (ℕ × ℕ) → Type 0
Distinct [] = Unit
Distinct (x ∷ xs) = All (λ y. Apart x y) xs × Distinct xs

-- The requests as a table with pointers below the next one.
abbrev pub IsTable : ℕ → List (ℕ × ℕ) → Type 0
IsTable n ts = Distinct ts × All (λ t. t.1 < n) ts

pub set_message-tags :
    (p : ℕ) (m : AsyncMessage (Option Cemi)) (rs : List Request)
    → tags (set_message p m rs) ≡ tags rs
unfolding set_message
set_message-tags p m [] = refl
set_message-tags p m (r ∷ rs) = elim (Bool-cases (r.pointer == p)) [
  | inl y ↦ rw (y, set_message-tags p m rs) refl
  | inr n ↦ rw (n, set_message-tags p m rs) refl
]

pub erase_key-All :
    (P : ℕ × ℕ → Type 0) (k : ℕ) (rs : List Request)
    → All P (tags rs)
    → All P (tags (erase_key k rs))
unfolding erase_key
erase_key-All P k [] h = tt
erase_key-All P k (r ∷ rs) h =
    if_lem (λ l. All P (tags l)) (r.key == k) _ _ (erase_key-All P k rs h.1)
      (h.0, erase_key-All P k rs h.1)

pub erase_key-Distinct :
    (k : ℕ) (rs : List Request) → Distinct (tags rs) → Distinct (tags (erase_key k rs))
unfolding erase_key
erase_key-Distinct k [] h = tt
erase_key-Distinct k (r ∷ rs) h =
    if_lem (λ l. Distinct (tags l)) (r.key == k) _ _ (erase_key-Distinct k rs h.1)
      (erase_key-All (λ y. Apart (r.key, r.pointer) y) k rs h.0, erase_key-Distinct k rs h.1)

erase_key-gone : (k : ℕ) (rs : List Request) → All (λ t. (t.0 == k) ≡ false) (tags (erase_key k rs))
unfolding erase_key
erase_key-gone k [] = tt
erase_key-gone k (r ∷ rs) = elim (Bool-cases (r.key == k)) [
  | inl y ↦ rw y (erase_key-gone k rs)
  | inr n ↦ rw n (n, erase_key-gone k rs)
]

tags-last :
    (rs : List Request) (r : Request) → tags (rs ++ r ∷ []) ≡ tags rs ++ (r.key, r.pointer) ∷ []
tags-last [] r = refl
tags-last (q ∷ rs) r = ap (λ l. (q.key, q.pointer) ∷ l) (tags-last rs r)

Distinct-last :
    (xs : List (ℕ × ℕ)) (y : ℕ × ℕ)
    → Distinct xs
    → All (λ x. Apart x y) xs
    → Distinct (xs ++ y ∷ [])
Distinct-last [] y h a = (tt, tt)
Distinct-last (x ∷ xs) y h a = (All-last _ xs y h.0 a.0, Distinct-last xs y h.1 a.1)

All-both :
    {A : Type 0} (P Q : A → Type 0) (xs : List A) → All P xs → All Q xs → All (λ x. P x × Q x) xs
All-both P Q [] p q = tt
All-both P Q (x ∷ xs) p q = ((p.0, q.0), All-both P Q xs p.1 q.1)

-- A request that replaces what stands under its key, with a new pointer.
pub replace-IsTable :
    (k n : ℕ) (rs : List Request) (r : Request)
    → r.key ≡ k
    → r.pointer ≡ n
    → IsTable n (tags rs)
    → IsTable (suc n) (tags (erase_key k rs ++ r ∷ []))
replace-IsTable k n rs r e f h =
    let ts = tags (erase_key k rs) in
    let kept : All (λ t. t.1 < n) ts = erase_key-All (λ t. t.1 < n) k rs h.1 in
    let fresh : All (λ t. (t.1 == r.pointer) ≡ false) ts =
      All-map (λ t b. rw f (other t.1 n b)) ts kept in
    let unused : All (λ t. (t.0 == r.key) ≡ false) ts = rw e (erase_key-gone k rs) in
    let small : All (λ t. t.1 < suc n) ts = All-map (λ t b. omega (arith, b)) ts kept in
    rw (tags-last (erase_key k rs) r) (
      Distinct-last ts (r.key, r.pointer) (erase_key-Distinct k rs h.0)
          (All-both _ _ ts unused fresh),
      All-last _ ts (r.key, r.pointer) small (omega (arith, f)),
    )
