-- ===== src/Datapoint/KnxFloat16Format/RoundTrip.antt =====
-- `KnxFloat16Format`: what `toValue` reads of the bytes that `toData` writes.
use libknx.Prelude.{
  ℕ, zero, suc, ◌+◌, ◌-◌, ◌*◌, ◌/◌, ◌%◌, ◌^◌, ◌≤◌, ◌<◌, ◌≡◌, refl, ap, ◌∙◌, subst, sym, List, [],
  ◌∷◌, Bool, true, false, not, ◌&&◌, some, arith, if◌then◌else◌, ◌==◌, bit_and,
}
use native.Mathlib.Nat.{div-le_of_le-mul}
use libknx.Bytes.Values.{bytes16, Appends-int16, Reads-int16}
use libknx.Bytes.Parser.{little, ok}
use libknx.Bytes.Reader.{read_int16}
use libknx.Bytes.Writer.{write_int16}
use libknx.Datapoint.KnxFloat16Format.{
  Double, halve, limit, is_outside, to_int16, packed, encoded, to_data, Hundredths, times, scaled,
  to_value,
}
use libknx.Datapoint.KnxFloat16Format.Laws.{
  Takes, halved, normalise-Takes, fields, high_byte, packed-fields, extended-fields,
  exponent-fields,
}

abbrev whole : Double → ℕ
whole m = m.numerator / 2 ^ m.scale

whole-limit : (m : Double) → is_outside m ≡ false → whole m ≤ limit m.negative
whole-limit m o = div-le_of_le-mul (2 ^ m.scale) (ground arith)

-- Sixteen bits between -2048 and 2047.
abbrev Mantissa : ℕ → Type 0
Mantissa p =
    (sign : ℕ) × (low : ℕ) × (b : ℕ) × (sign < 2)
    × (low < 8)
    × (b < 256)
    × (p ≡ high_byte sign low * 256 + b)

-- The sixteen bits of a mantissa.
abbrev bits : Bool → ℕ → ℕ
bits negative w = if negative then (2 ^ 16 - w) % 2 ^ 16 else w

abbrev pub magnitude_of : Bool → ℕ → ℕ → Hundredths
magnitude_of negative w k = record { negative = negative && not (w == 0); magnitude = w * 2 ^ k }

bits-Mantissa : (negative : Bool) (w : ℕ) → w ≤ limit negative → Mantissa (bits negative w)
bits-Mantissa false w h =
    (0, w / 256, w % 256, omega arith, omega (arith, h), omega arith, omega arith)
bits-Mantissa true zero h = (0, 0, 0, omega arith, omega arith, omega arith, refl)
bits-Mantissa true (suc w) h = (
  1,
  (65535 - w) / 256 - 248,
  (65535 - w) % 256,
  omega arith,
  omega (arith, h),
  omega arith,
  omega (arith, h),
)

times-high :
    (p k : ℕ)
    → 2 ^ 15 ≤ p
    → times p k ≡ record { negative = true; magnitude = (2 ^ 16 - p) * 2 ^ k }
unfolding times
times-high p k h = ground arith

abbrev signed : Bool → ℕ → ℕ → Hundredths
signed c n k = record { negative = c; magnitude = n * 2 ^ k }

nonzero : (w : ℕ) → true ≡ not (suc w == 0)
nonzero w = ground arith

times-bits :
    (negative : Bool) (w k : ℕ)
    → w ≤ limit negative
    → times (bits negative w) k ≡ magnitude_of negative w k
unfolding times
times-bits false w k h = ground arith
times-bits true zero k h = refl
times-bits true (suc w) k h =
    let back : 2 ^ 16 - bits true (suc w) ≡ suc w = omega (arith, h) in
    times-high (bits true (suc w)) k (omega (arith, h))
    ∙ ap (λ n. signed true n k) back
    ∙ ap (λ c. signed c (suc w) k) (nonzero w)

-- The two bytes of a mantissa, and its reader.
mantissa_bytes :
    (sign low b : ℕ)
    → sign < 2
    → low < 8
    → b < 256
    → bytes16 little (high_byte sign low * 256 + b) ≡ (high_byte sign low ∷ b ∷ [])
mantissa_bytes s l b hs hl hb =
    let p = high_byte s l * 256 + b in
    let high : p / 256 ≡ high_byte s l = omega (arith, hb) in
    let lower : p % 256 ≡ b = omega (arith, hb) in
    ap (λ x. x ∷ p % 256 ∷ []) high ∙ ap (λ x. high_byte s l ∷ x ∷ []) lower

bytes-read :
    (p : ℕ) (bs : List ℕ)
    → p < 65536
    → bytes16 little p ≡ bs
    → read_int16 little (record { bytes = bs; index = 0 })
      ≡ ok (p, record { bytes = bs; index = 2 })
bytes-read p bs h e =
    subst
      (λ x.
        read_int16 little (record { bytes = x; index = 0 })
        ≡ ok (p, record { bytes = x; index = 2 }))
      e
      ((Reads-int16 p h).run (record { bytes = bytes16 little p; index = 0 }) [] (omega arith) refl)

fields-value :
    (sign low b k : ℕ)
    → sign < 2
    → low < 8
    → b < 256
    → k < 16
    → to_value little (fields sign k low ∷ b ∷ []) ≡ ok (times (high_byte sign low * 256 + b) k)
unfolding to_value
fields-value s l b k hs hl hb hk =
    let p = high_byte s l * 256 + b in
    ap
      (λ x.
        scaled (bit_and (fields s k l / 2 ^ 3) 0x0f)
          (read_int16 little (record { bytes = x ∷ b ∷ []; index = 0 })))
      (extended-fields s k l hs hk hl)
    ∙ ap (λ x. scaled (bit_and (fields s k l / 2 ^ 3) 0x0f) x)
        (bytes-read p _ (omega (arith, hs, hl, hb)) (mantissa_bytes s l b hs hl hb))
    ∙ ap (λ x. ok (times p x)) (exponent-fields s k l hs hk hl)

fields-packed :
    (sign low b k : ℕ)
    → sign < 2
    → low < 8
    → b < 256
    → k < 16
    → packed k (write_int16 little (high_byte sign low * 256 + b) []) ≡ (fields sign k low ∷ b ∷ [])
unfolding packed
fields-packed s l b k hs hl hb hk =
    ap (λ x. packed k x)
      ((Appends-int16 _ (omega (arith, hs, hl, hb))).run [] ∙ mantissa_bytes s l b hs hl hb)
    ∙ ap (λ x. x ∷ b ∷ []) (packed-fields s k l hs hk hl)

packed-value :
    (p k : ℕ)
    → Mantissa p
    → k < 16
    → to_value little (packed k (write_int16 little p [])) ≡ ok (times p k)
packed-value p k (s, l, b, hs, hl, hb, e) hk =
    subst (λ x. to_value little (packed k (write_int16 little x [])) ≡ ok (times x k)) (sym e)
      (ap (λ x. to_value little x) (fields-packed s l b k hs hl hb hk)
        ∙ fields-value s l b k hs hl hb hk)

Takes-inside : (k : ℕ) (m : Double) → Takes k m → is_outside (halved k m) ≡ false
Takes-inside zero m t = subst (λ x. is_outside (record m { scale = x }) ≡ false) (omega arith) t
Takes-inside (suc k) m t =
    subst (λ x. is_outside (record m { scale = x }) ≡ false) (omega arith)
      (Takes-inside k (halve m) (t.1))

int16-Mantissa : (m : Double) → is_outside m ≡ false → Mantissa (to_int16 m)
unfolding to_int16
int16-Mantissa m o = bits-Mantissa m.negative (whole m) (whole-limit m o)

int16-times :
    (m : Double) (k : ℕ)
    → is_outside m ≡ false
    → times (to_int16 m) k ≡ magnitude_of m.negative (whole m) k
unfolding to_int16
int16-times m k o = times-bits m.negative (whole m) k (whole-limit m o)

-- The number in hundredths with `k` of its binary digits cut off, towards 0.
abbrev pub cut : ℕ → Double → Hundredths
cut k m = magnitude_of m.negative (m.numerator / 2 ^ (m.scale + k)) k

-- On a little-endian machine, a number in the range of the format is written, in two bytes, after the
-- least number `k ≤ 15` of halvings that bring its hundredths between -2048 and 2047. What is read
-- back are the hundredths without the `k` binary digits that the halvings cut off.
pub to_value-to_data :
    (m : Double)
    → m.numerator ≤ limit m.negative * 2 ^ (m.scale + 15)
    → (k : ℕ) × (bytes : List ℕ) × (k ≤ 15)
      × Takes k m
      × (to_data little false false m ≡ some bytes)
      × (to_value little bytes ≡ ok (cut k m))
unfolding to_data encoded
to_value-to_data m h =
    let (k, small, takes, ends) = normalise-Takes 15 0 m h (omega arith) in
    let o = Takes-inside k m takes in
    let p = to_int16 (halved k m) in
    let from_zero : 0 + k ≡ k = omega arith in
    (
      k,
      packed k (write_int16 little p []),
      small,
      takes,
      ap (λ x. encoded little x) (ends ∙ ap (λ x. some (x, halved k m)) from_zero),
      packed-value p k (int16-Mantissa (halved k m) o) (omega (arith, small))
          ∙ ap (λ x. ok x) (int16-times (halved k m) k o),
    )
