-- ===== src/Prelude/Tests.antt =====
-- Boolean tests on the native numbers, the conditional, and splits that keep the equation.
use Prim.Native.Nat.{ℕ, zero, suc, ◌≤◌, ◌<◌, compare, Ordering}
use mathlib.Core.Path.{◌≡◌, refl}
use mathlib.Core.Logic.{◌↔◌, ◌⊎◌, inl, inr}
use mathlib.Core.Bool.{Bool, true, false, ◌&&◌}
use mathlib.Core.Option.{Option, none, some}
use native.Mathlib.Omega.{arith}

abbrev pub ltb : ℕ → ℕ → Bool
ltb a b = elim (compare a b) [ Ordering.lt ↦ true | _ ↦ false ]

abbrev pub leb : ℕ → ℕ → Bool
leb a b = elim (compare a b) [ Ordering.gt ↦ false | _ ↦ true ]

infix 50 ◌==◌
abbrev pub ◌==◌ : ℕ → ℕ → Bool
a == b = elim (compare a b) [ Ordering.eq ↦ true | _ ↦ false ]

infix 1 if◌then◌else◌
abbrev pub if◌then◌else◌ {ℓ} : {A : Type ℓ} → Bool → A → A → A
if true then x else y = x
if false then x else y = y

-- A `bool` that is converted to an integer.
abbrev pub from_bool : Bool → ℕ
from_bool true = 1
from_bool false = 0

pub leb→le : (a b : ℕ) → leb a b ≡ true → a ≤ b
leb→le a b h = ground arith

pub le→leb : (a b : ℕ) → a ≤ b → leb a b ≡ true
le→leb a b h = ground arith

pub lt→not-leb : (a b : ℕ) → b < a → leb a b ≡ false
lt→not-leb a b h = ground arith

pub lt→ltb : (a b : ℕ) → a < b → ltb a b ≡ true
lt→ltb a b h = ground arith

pub ==_iff : (a b : ℕ) → ((a == b) ≡ true) ↔ (a ≡ b)
==_iff a b = ground arith

pub same : (n : ℕ) → (n == n) ≡ true
same n = (==_iff n n).1 refl

pub other : (a n : ℕ) → a < n → (a == n) ≡ false
other a n h = ground arith

pub Bool-cases : (b : Bool) → (b ≡ true) ⊎ (b ≡ false)
Bool-cases true = inl refl
Bool-cases false = inr refl

pub Option-cases {ℓ} : {A : Type ℓ} (o : Option A) → (o ≡ none) ⊎ ((a : A) × (o ≡ some a))
Option-cases none = inl refl
Option-cases (some a) = inr (a, refl)

-- A check of every value below a bound, by evaluation.
unfoldable pub all_below : ℕ → (ℕ → Bool) → Bool
all_below zero p = true
all_below (suc n) p = p n && all_below n p

pub all_below_sound :
    (bound : ℕ) (test : ℕ → Bool) (x : ℕ) → all_below bound test ≡ true → x < bound → test x ≡ true
unfolding all_below
all_below_sound zero test x table small = absurd (omega arith)
all_below_sound (suc n) test x table small = ground (arith, all_below_sound n test x)

-- Two functions that agree at every value of a finite table are equal below its bound.
pub equal_below :
    (n : ℕ) (f g : ℕ → ℕ) (x : ℕ) → all_below n (λ y. f y == g y) ≡ true → x < n → f x ≡ g x
equal_below n f g x table lt = (==_iff _ _).0 (all_below_sound n _ x table lt)

-- A check of both values.
unfoldable pub all_bool : (Bool → Bool) → Bool
all_bool p = p true && p false

pub all_bool_sound : (p : Bool → Bool) → all_bool p ≡ true → (b : Bool) → p b ≡ true
unfolding all_bool
all_bool_sound p h true = ground arith
all_bool_sound p h false = ground arith

unfoldable pub equal_bool : Bool → Bool → Bool
equal_bool true b = b
equal_bool false true = false
equal_bool false false = true

pub equal_bool_sound : (a b : Bool) → equal_bool a b ≡ true → a ≡ b
unfolding equal_bool
equal_bool_sound a b h = ground arith
