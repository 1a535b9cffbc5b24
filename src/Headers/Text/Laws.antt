-- ===== src/Headers/Text/Laws.antt =====
-- The texts name what they are made of.
use libknx.Prelude.{
  ℕ, ◌+◌, ◌-◌, ◌*◌, ◌<◌, ◌≡◌, refl, sym, ap, ◌∙◌, List, [], ◌∷◌, ◌++◌, Bool, true, false, not, ◌&&◌,
  if◌then◌else◌, ◌==◌, arith, equal_below, all_below, all_below_sound, ==_iff,
}
use libknx.Headers.IpAddress.{decimal}
use libknx.Headers.KnxAddress.{KnxAddress, GroupAddress, IndividualAddress}
use libknx.Headers.Text.{separated, group_text, individual_text}

abbrev value_from : ℕ → List ℕ → ℕ
value_from n [] = n
value_from n (c ∷ text) = value_from (n * 10 + (c - 48)) text

abbrev before : ℕ → List ℕ → List ℕ
before mark [] = []
before mark (c ∷ text) = let rest = before mark text in if c == mark then [] else c ∷ rest

abbrev behind : ℕ → List ℕ → List ℕ
behind mark [] = []
behind mark (c ∷ text) = let rest = behind mark text in if c == mark then text else rest

-- No byte of the text is a dot or a slash.
abbrev is_clean : ℕ → List ℕ → Bool
is_clean mark [] = true
is_clean mark (c ∷ text) = not (c == mark) && is_clean mark text

decimal-value : (n : ℕ) → n < 256 → value_from 0 (decimal n) ≡ n
unfolding all_below decimal
decimal-value n h = equal_below 256 (λ x. value_from 0 (decimal x)) (λ x. x) n refl h

decimal-slashes : (n : ℕ) → n < 256 → is_clean 47 (decimal n) ≡ true
unfolding all_below decimal
decimal-slashes n h = all_below_sound 256 (λ x. is_clean 47 (decimal x)) n refl h

decimal-dots : (n : ℕ) → n < 256 → is_clean 46 (decimal n) ≡ true
unfolding all_below decimal
decimal-dots n h = all_below_sound 256 (λ x. is_clean 46 (decimal x)) n refl h

equal_refl : (n : ℕ) → (n == n) ≡ true
equal_refl n = (==_iff n n).1 refl

left_clean : (a b : Bool) → (a && b) ≡ true → a ≡ true
left_clean true b h = refl
left_clean false b h = h

right_clean : (a b : Bool) → (a && b) ≡ true → b ≡ true
right_clean true b h = h
right_clean false b h = ground arith

not_mark : (a : Bool) → not a ≡ true → a ≡ false
not_mark true h = sym h
not_mark false h = refl

before-append :
    (mark : ℕ) (xs rest : List ℕ) → is_clean mark xs ≡ true → before mark (xs ++ mark ∷ rest) ≡ xs
before-append mark [] rest h = ap (λ b. if b then [] else mark ∷ before mark rest) (equal_refl mark)
before-append mark (x ∷ xs) rest h =
    ap (λ b. if b then [] else x ∷ before mark (xs ++ mark ∷ rest))
      (not_mark (x == mark) (left_clean _ (is_clean mark xs) h))
    ∙ ap (λ t. x ∷ t) (before-append mark xs rest (right_clean (not (x == mark)) _ h))

behind-append :
    (mark : ℕ) (xs rest : List ℕ) → is_clean mark xs ≡ true → behind mark (xs ++ mark ∷ rest) ≡ rest
behind-append mark [] rest h = ap (λ b. if b then rest else behind mark rest) (equal_refl mark)
behind-append mark (x ∷ xs) rest h =
    ap (λ b. if b then xs ++ mark ∷ rest else behind mark (xs ++ mark ∷ rest))
      (not_mark (x == mark) (left_clean _ (is_clean mark xs) h))
    ∙ behind-append mark xs rest (right_clean (not (x == mark)) _ h)

-- The three numbers of a text.
abbrev three : ℕ → List ℕ → KnxAddress
three mark text = record {
  high = value_from 0 (before mark text);
  middle = value_from 0 (before mark (behind mark text));
  low = value_from 0 (behind mark (behind mark text));
}

abbrev made : ℕ → ℕ → ℕ → KnxAddress
made h m l = record { high = h; middle = m; low = l }

module _ (mark : ℕ) (clean : (n : ℕ) → n < 256 → is_clean mark (decimal n) ≡ true) where
  three-separated :
      (a : KnxAddress)
      → a.high < 256
      → a.middle < 256
      → a.low < 256
      → three mark (separated mark a) ≡ a
  three-separated a h m l =
      let rest = decimal a.middle ++ mark ∷ decimal a.low in
      let q = behind-append mark (decimal a.high) rest (clean a.high h) in
      ap
        (λ x.
          made (value_from 0 x) (value_from 0 (before mark (behind mark (separated mark a))))
            (value_from 0 (behind mark (behind mark (separated mark a)))))
        (before-append mark (decimal a.high) rest (clean a.high h))
      ∙ ap
          (λ x.
            made (value_from 0 (decimal a.high)) (value_from 0 (before mark x))
              (value_from 0 (behind mark x)))
          q
      ∙ ap
          (λ x.
            made (value_from 0 (decimal a.high)) (value_from 0 x) (value_from 0 (behind mark rest)))
          (before-append mark (decimal a.middle) (decimal a.low) (clean a.middle m))
      ∙ ap
          (λ x.
            made (value_from 0 (decimal a.high)) (value_from 0 (decimal a.middle)) (value_from 0 x))
          (behind-append mark (decimal a.middle) (decimal a.low) (clean a.middle m))
      ∙ ap (λ x. made x (value_from 0 (decimal a.middle)) (value_from 0 (decimal a.low)))
          (decimal-value a.high h)
      ∙ ap (λ x. made a.high x (value_from 0 (decimal a.low))) (decimal-value a.middle m)
      ∙ ap (λ x. made a.high a.middle x) (decimal-value a.low l)

  pub same_separated :
      (a b : KnxAddress)
      → a.high < 256
      → a.middle < 256
      → a.low < 256
      → b.high < 256
      → b.middle < 256
      → b.low < 256
      → separated mark a ≡ separated mark b
      → a ≡ b
  same_separated a b h m l h' m' l' e =
      sym (three-separated a h m l) ∙ ap (λ x. three mark x) e ∙ three-separated b h' m' l'

-- Two group addresses of bytes that are printed alike are the same.
pub same_group :
    (a b : GroupAddress)
    → a.high < 256
    → a.middle < 256
    → a.low < 256
    → b.high < 256
    → b.middle < 256
    → b.low < 256
    → group_text a ≡ group_text b
    → a ≡ b
unfolding group_text
same_group a b h m l h' m' l' e = same_separated 47 decimal-slashes a b h m l h' m' l' e

-- Two individual addresses of bytes that are printed alike are the same.
pub same_individual :
    (a b : IndividualAddress)
    → a.high < 256
    → a.middle < 256
    → a.low < 256
    → b.high < 256
    → b.middle < 256
    → b.low < 256
    → individual_text a ≡ individual_text b
    → a ≡ b
unfolding individual_text
same_individual a b h m l h' m' l' e = same_separated 46 decimal-dots a b h m l h' m' l' e
