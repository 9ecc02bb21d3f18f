-- ===== src/Common/Split.antt =====
-- Texts that can be taken apart again: at a delimiter, at a byte length, and a decimal number.
use decyra_api.Common.{
  length, true, ℕ, zero, suc, ◌+◌, ◌-◌, ◌*◌, ◌/◌, ◌%◌, ◌≤◌, ◌<◌, ◌≡◌, refl, sym, ap, ◌∙◌, false, [],
  ◌∷◌, ◌++◌, ◌==◌, nat_eq, All, arith, ltb, Bool-cases, inl, inr,
}
use decyra_api.Common.Text.{within, Text, decimal, decimal_onto}
use decyra_api.Common.Codec.{utf8_length, utf8_width}

-- The character does not stand in the text.
abbrev pub Free : ℕ → Text → Type 0
Free d s = All (λ c. (c == d) ≡ false) s

-- Two texts that end at the first delimiter.
pub split_at :
    (d : ℕ) (xs us ys vs : Text)
    → Free d xs
    → Free d us
    → xs ++ d ∷ ys ≡ us ++ d ∷ vs
    → (xs ≡ us) × (ys ≡ vs)
split_at d [] [] ys vs fx fu e = (refl, cc)
split_at d [] (u ∷ us) ys vs fx (fu, _) e = absurd (ground (arith, fu, e))
split_at d (x ∷ xs) [] ys vs (fx, _) fu e = absurd (ground (arith, fx, e))
split_at d (x ∷ xs) (u ∷ us) ys vs (_, fx) (_, fu) e =
    let (p, q) = split_at d xs us ys vs fx fu (cc) in (cc (p), q)

utf8_width-pos : (c : ℕ) → 1 ≤ utf8_width c
unfolding utf8_width
utf8_width-pos c = ground arith

-- Two texts of the same length in bytes.
pub split_bytes :
    (xs us ys vs : Text)
    → utf8_length xs ≡ utf8_length us
    → xs ++ ys ≡ us ++ vs
    → (xs ≡ us) × (ys ≡ vs)
unfolding utf8_length
split_bytes [] [] ys vs n e = (refl, e)
split_bytes [] (u ∷ us) ys vs n e = absurd (omega (arith, utf8_width-pos u))
split_bytes (x ∷ xs) [] ys vs n e = absurd (omega (arith, utf8_width-pos x))
split_bytes (x ∷ xs) (u ∷ us) ys vs n e =
    let same : x ≡ u = cc in
    let w : utf8_width x ≡ utf8_width u = ap utf8_width same in
    let (p, q) = split_bytes xs us ys vs (omega arith) (cc) in (cc (p), q)

-- The number that decimal digits denote.
value : ℕ → Text → ℕ
value a [] = a
value a (c ∷ s) = value (a * 10 + (c - b'0')) s

value-decimal_onto : (f n : ℕ) (out : Text) → n < f → value 0 (decimal_onto f n out) ≡ value n out
unfolding value decimal_onto
value-decimal_onto zero n out h = absurd (omega arith)
value-decimal_onto (suc f) n out h = elim (Bool-cases (ltb n 10)) [
  | inl e ↦ rw e (ap (λ a. value a out) (ground arith))
  | inr e ↦ rw e (
      value-decimal_onto f (n / 10) ((b'0' + n % 10) ∷ out) (ground arith)
      ∙ ap (λ a. value a out) (omega arith))
]

pub decimal-injective : (m n : ℕ) → decimal m ≡ decimal n → m ≡ n
unfolding decimal value
decimal-injective m n e =
    sym (value-decimal_onto (suc m) m [] (omega arith))
    ∙ ap (value 0) e
    ∙ value-decimal_onto (suc n) n [] (omega arith)

decimal_onto-Free :
    (d : ℕ) → b'9' < d → (f n : ℕ) (out : Text) → Free d out → Free d (decimal_onto f n out)
unfolding decimal_onto
decimal_onto-Free d big zero n out h = h
decimal_onto-Free d big (suc f) n out h = elim (Bool-cases (ltb n 10)) [
  | inl e ↦ rw e (ground arith, h)
  | inr e ↦ rw e (decimal_onto-Free d big f (n / 10) _ (ground arith, h))
]

-- A character behind the digits does not stand in a decimal number.
pub decimal-Free : (d n : ℕ) → b'9' < d → Free d (decimal n)
unfolding decimal
decimal-Free d n big = decimal_onto-Free d big (suc n) n [] tt

decimal_onto-digits :
    (f n : ℕ) (out : Text)
    → All (λ c. within b'0' b'9' c ≡ true) out
    → All (λ c. within b'0' b'9' c ≡ true) (decimal_onto f n out)
unfolding decimal_onto
decimal_onto-digits zero n out h = h
decimal_onto-digits (suc f) n out h = elim (Bool-cases (ltb n 10)) [
  | inl e ↦ rw e (ground arith, h)
  | inr e ↦ rw e (decimal_onto-digits f (n / 10) _ (ground arith, h))
]

-- A decimal number is made of the ASCII digits.
pub decimal-digits : (n : ℕ) → All (λ c. within b'0' b'9' c ≡ true) (decimal n)
unfolding decimal
decimal-digits n = decimal_onto-digits (suc n) n [] tt

decimal_onto-length : (f n : ℕ) (out : Text) → length out ≤ length (decimal_onto f n out)
unfolding decimal_onto
decimal_onto-length zero n out = omega arith
decimal_onto-length (suc f) n out = elim (Bool-cases (ltb n 10)) [
  | inl e ↦ rw e (omega arith)
  | inr e ↦ rw e (omega (arith, decimal_onto-length f (n / 10) ((b'0' + n % 10) ∷ out)))
]

pub decimal-nonempty : (n : ℕ) → 1 ≤ length (decimal n)
unfolding decimal decimal_onto
decimal-nonempty n = elim (Bool-cases (ltb n 10)) [
  | inl e ↦ rw e (omega arith)
  | inr e ↦ rw e (omega (arith, decimal_onto-length n (n / 10) ((b'0' + n % 10) ∷ [])))
]
