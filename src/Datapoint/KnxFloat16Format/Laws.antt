-- ===== src/Datapoint/KnxFloat16Format/Laws.antt =====
-- What a number becomes in sixteen bits, and back.
use libknx.Prelude.{
  ℕ, zero, suc, ◌+◌, ◌*◌, ◌/◌, ◌%◌, ◌^◌, ◌≤◌, ◌<◌, ◌≡◌, refl, ap, ◌∙◌, subst, true, false, Option,
  some, arith, Bool-cases, inl, inr, if◌then◌else◌, bit_and, bit_or, u8, equal_below, all_below,
}
use libknx.Prelude.Bits.{bit_and-mask}
use libknx.Datapoint.KnxFloat16Format.{Double, halve, limit, is_outside, normalise, extended}

-- `k` is the least number of halvings that bring the mantissa inside.
abbrev pub Takes : ℕ → Double → Type 0
Takes zero m = is_outside m ≡ false
Takes (suc k) m = (is_outside m ≡ true) × Takes k (halve m)

abbrev pub halved : ℕ → Double → Double
halved k m = record m { scale = m.scale + k }

abbrev ended : ℕ → ℕ → Double → Option (ℕ × Double)
ended e s m = some (e, record m { scale = s })

-- Two ways to write what the loop ends with.
same_end : (e e' s s' : ℕ) (m : Double) → e ≡ e' → s ≡ s' → ended e s m ≡ ended e' s' m
same_end e e' s s' m p q = ap (λ x. ended x s m) p ∙ ap (λ x. ended e' x m) q

inside-of-le : (m : Double) → m.numerator ≤ limit m.negative * 2 ^ m.scale → is_outside m ≡ false
inside-of-le m h = ground arith

stopped :
    (n e : ℕ) (m : Double) → is_outside m ≡ false → normalise (suc n) e m ≡ some (e + 0, halved 0 m)
unfolding normalise
stopped n e m o =
    ap (λ b. if b then normalise n (u8 (e + 1)) (halve m) else some (e, m)) o
    ∙ same_end e (e + 0) m.scale (m.scale + 0) m (omega arith) (omega arith)

continued :
    (n e : ℕ) (m : Double)
    → e + 1 < 256
    → is_outside m ≡ true
    → normalise (suc n) e m ≡ normalise n (e + 1) (halve m)
unfolding normalise
continued n e m s y =
    ap (λ b. if b then normalise n (u8 (e + 1)) (halve m) else some (e, m)) y
    ∙ ap (λ x. normalise n x (halve m)) (omega (arith, s))

-- With a mantissa that `n` halvings bring inside, the loop ends by its test.
pub normalise-Takes :
    (n exponent : ℕ) (m : Double)
    → m.numerator ≤ limit m.negative * 2 ^ (m.scale + n)
    → exponent + n < 256
    → (k : ℕ) × (k ≤ n)
      × Takes k m
      × (normalise (suc n) exponent m ≡ some (exponent + k, halved k m))
normalise-Takes zero e m h s =
    let o = inside-of-le m (subst (λ x. m.numerator ≤ limit m.negative * 2 ^ x) (omega arith) h) in
    (0, omega arith, o, stopped 0 e m o)
normalise-Takes (suc n) e m h s = elim (Bool-cases (is_outside m)) [
  | inl y ↦
      (let r =
          normalise-Takes n (e + 1) (halve m)
            (subst (λ x. m.numerator ≤ limit m.negative * 2 ^ x) (omega arith) h)
            (omega (arith, s)) in
        let k = r.0 in
        (
          suc k,
          omega (arith, r.1),
          (y, r.2),
          continued (suc n) e m (omega (arith, s)) y
              ∙ r.3
              ∙ same_end (e + 1 + k) (e + suc k) (suc m.scale + k) (m.scale + suc k) m (omega arith)
                  (omega arith),
        ))
  | inr o ↦ (0, omega arith, o, stopped (suc n) e m o)
]

-- The first byte: sign, four bits of exponent, three bits of mantissa.
abbrev pub fields : ℕ → ℕ → ℕ → ℕ
fields sign exponent low = sign * 128 + exponent * 8 + low

-- A high byte of a mantissa that is inside has its bits 3 to 6 as the sign.
abbrev pub high_byte : ℕ → ℕ → ℕ
high_byte sign low = sign * 248 + low

pub packed-fields :
    (sign exponent low : ℕ)
    → sign < 2
    → exponent < 16
    → low < 8
    → u8 (bit_or (exponent * 8) (bit_and (high_byte sign low) 0x87)) ≡ fields sign exponent low
unfolding all_below
packed-fields s e l a b c =
    let table =
      equal_below 256 (λ y. u8 (bit_or (y / 16 * 8) (bit_and (high_byte (y / 8 % 2) (y % 8)) 0x87)))
        (λ y. fields (y / 8 % 2) (y / 16) (y % 8)) (e * 16 + s * 8 + l) refl
        (omega (arith, a, b, c)) in
    let q : (e * 16 + s * 8 + l) / 16 ≡ e = omega (arith, a, c) in
    let r : (e * 16 + s * 8 + l) / 8 % 2 ≡ s = omega (arith, a, c) in
    let t : (e * 16 + s * 8 + l) % 8 ≡ l = omega (arith, c) in rw (q, r, t) at table

pub extended-fields :
    (sign exponent low : ℕ)
    → sign < 2
    → exponent < 16
    → low < 8
    → extended (fields sign exponent low) ≡ high_byte sign low
unfolding all_below extended
extended-fields s e l a b c =
    let table =
      equal_below 256 (λ y. extended y) (λ y. high_byte (y / 128) (y % 8)) (fields s e l) refl
        (omega (arith, a, b, c)) in
    let r : fields s e l / 128 ≡ s = omega (arith, b, c) in
    let t : fields s e l % 8 ≡ l = omega (arith, c) in rw (r, t) at table

pub exponent-fields :
    (sign exponent low : ℕ)
    → sign < 2
    → exponent < 16
    → low < 8
    → bit_and (fields sign exponent low / 2 ^ 3) 0x0f ≡ exponent
exponent-fields s e l a b c = omega (arith, bit_and-mask 4 (fields s e l / 8), a, b, c)
