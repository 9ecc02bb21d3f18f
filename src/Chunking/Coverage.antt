-- ===== src/Chunking/Coverage.antt =====
-- The chunks cover the words, and stay within the budget.
use decyra_api.Common.{
  ℕ, zero, suc, ◌+◌, ◌≤◌, ◌<◌, ◌≡◌, refl, sym, ap, ◌⊎◌, inl, inr, Bool, true, false, ◌&&◌, List, [],
  ◌∷◌, ◌++◌, arith, length, drop, ltb, All, Bool-cases, length-drop, append-nil,
}
use decyra_api.Common.Text.{Text}
use decyra_api.Chunking.{
  est_tokens, pack, advance, next_chunks, chunks_from, word_chunks, split_words,
}

-- The chunks lie one behind the other on the words: each begins where the words begin, the next starts
-- at least one word later and no later than right behind it, and the last ends with the words.
pub data Covers : List (List Text) → List Text → Type 0 where
  nothing : Covers [] []
  last : (w : Text) (ws : List Text) → Covers ((w ∷ ws) ∷ []) (w ∷ ws)
  next :
      (cur rest : List Text) (n : ℕ) (later : List (List Text))
      → 1 ≤ n
      → n ≤ length cur
      → Covers later (drop n (cur ++ rest))
      → Covers (cur ∷ later) (cur ++ rest)

abbrev pub tokens : List Text → ℕ
tokens [] = 0
tokens (w ∷ ws) = est_tokens w + tokens ws

-- A chunk within the budget, or of one word.
abbrev pub Fits : ℕ → List Text → Type 0
Fits target g = (tokens g ≤ target) ⊎ (length g ≡ 1)

module _ (target overlap : ℕ) where
  pack-prefix :
      (tok : ℕ) (started : Bool) (ws : List Text)
      → pack target overlap tok started ws ++ drop (length (pack target overlap tok started ws)) ws
        ≡ ws
  unfolding pack
  pack-prefix tok started [] = refl
  pack-prefix tok started (w ∷ ws) =
      elim (Bool-cases (started && ltb target (tok + est_tokens w))) [
        | inl e ↦ rw e refl
        | inr e ↦ rw e (ap (λ r. w ∷ r) (pack-prefix (tok + est_tokens w) true ws))
      ]

  pack-budget :
      (tok : ℕ) (ws : List Text)
      → tok ≤ target
      → tok + tokens (pack target overlap tok true ws) ≤ target
  unfolding pack
  pack-budget tok [] h = omega arith
  pack-budget tok (w ∷ ws) h = elim (Bool-cases (ltb target (tok + est_tokens w))) [
    | inl e ↦ rw e (omega arith)
    | inr e ↦ rw e (ground (arith, pack-budget (tok + est_tokens w) ws))
  ]

  pack-full : (tok : ℕ) (ws : List Text) → target < tok → pack target overlap tok true ws ≡ []
  unfolding pack
  pack-full tok [] h = refl
  pack-full tok (w ∷ ws) h = ground arith

  pack-Fits : (w : Text) (ws : List Text) → Fits target (pack target overlap 0 false (w ∷ ws))
  unfolding pack
  pack-Fits w ws = elim (Bool-cases (ltb target (est_tokens w))) [
    | inl e ↦ inr (ap (λ r. suc (length r)) (pack-full (0 + est_tokens w) ws (ground arith)))
    | inr e ↦ inl (omega (arith, pack-budget (0 + est_tokens w) ws (ground arith)))
  ]

  advance-bounds :
      (w : Text) (ws : List Text)
      → (1 ≤ advance target overlap (pack target overlap 0 false (w ∷ ws)))
        × (advance target overlap (pack target overlap 0 false (w ∷ ws))
            ≤ length (pack target overlap 0 false (w ∷ ws)))
  unfolding advance pack
  advance-bounds w ws = (omega arith, omega arith)

along : {g : List (List Text)} {x y : List Text} → x ≡ y → Covers g x → Covers g y
along e c = rw (sym e) c

next_chunks-Covers :
    (target overlap : ℕ) (cur rest : List Text) (n : ℕ) (later : List (List Text))
    → 1 ≤ n
    → n ≤ length cur
    → Covers later (drop n (cur ++ rest))
    → Covers (next_chunks target overlap cur later rest) (cur ++ rest)
unfolding next_chunks
next_chunks-Covers target overlap [] rest n later low high c = absurd (omega arith)
next_chunks-Covers target overlap (w ∷ cur) [] n later low high c =
    along (sym (append-nil (w ∷ cur))) (last w cur)
next_chunks-Covers target overlap (w ∷ cur) (r ∷ rest) n later low high c =
    next (w ∷ cur) (r ∷ rest) n later low high c

module _ (target overlap : ℕ) where
  chunks_from-Covers :
      (f : ℕ) (ws : List Text) → length ws ≤ f → Covers (chunks_from target overlap f ws) ws
  unfolding chunks_from
  chunks_from-Covers zero [] h = nothing
  chunks_from-Covers zero (w ∷ ws) h = absurd (omega arith)
  chunks_from-Covers (suc f) [] h = nothing
  chunks_from-Covers (suc f) (w ∷ ws) h =
      let cur = pack target overlap 0 false (w ∷ ws) in
      let n = advance target overlap cur in
      let (low, high) = advance-bounds target overlap w ws in
      let whole = pack-prefix target overlap 0 false (w ∷ ws) in
      let later =
        chunks_from-Covers f (drop n (w ∷ ws)) (omega (arith, length-drop n (w ∷ ws), low, h)) in
      along whole (
        next_chunks-Covers target overlap cur (drop (length cur) (w ∷ ws)) n _ low high
          (along (ap (drop n) (sym whole)) later))

  next_chunks-All :
      (P : List Text → Type 0) (cur rest : List Text) (later : List (List Text))
      → P cur
      → All P later
      → All P (next_chunks target overlap cur later rest)
  unfolding next_chunks
  next_chunks-All P cur [] later p h = (p, tt)
  next_chunks-All P cur (r ∷ rest) later p h = (p, h)

  chunks_from-Fits : (f : ℕ) (ws : List Text) → All (Fits target) (chunks_from target overlap f ws)
  unfolding chunks_from
  chunks_from-Fits zero [] = tt
  chunks_from-Fits zero (w ∷ ws) = tt
  chunks_from-Fits (suc f) [] = tt
  chunks_from-Fits (suc f) (w ∷ ws) =
      next_chunks-All (Fits target) _ _ _ (pack-Fits target overlap w ws) (chunks_from-Fits f _)

  -- Whatever the target and the overlap, the chunking ends, and its chunks cover the words of the text in
  -- their order without a gap, each starting at least one word behind the one before.
  pub word_chunks-Covers :
      (text : Text) → Covers (word_chunks target overlap text) (split_words text)
  unfolding word_chunks
  word_chunks-Covers text =
      chunks_from-Covers (length (split_words text)) (split_words text) (omega arith)

  -- A chunk has at most the target of estimated tokens, or is a single word.
  pub word_chunks-Fits : (text : Text) → All (Fits target) (word_chunks target overlap text)
  unfolding word_chunks
  word_chunks-Fits text = chunks_from-Fits (length (split_words text)) (split_words text)
