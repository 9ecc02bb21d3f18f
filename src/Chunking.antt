-- ===== src/Chunking.antt =====
-- app/chunking.py: the words of a text, packed into overlapping chunks.
pub mod Coverage
use decyra_api.Common.{
  ℕ, zero, suc, ◌+◌, ◌-◌, ◌*◌, ◌/◌, ◌%◌, max, Bool, true, false, ◌&&◌, ◌||◌, List, [], ◌∷◌, ◌++◌,
  map, reverse, ◌==◌, nat_eq, if◌then◌else◌, length, drop, ltb, leb,
}
use decyra_api.Common.Text.{Text, codes, is_space, join}

-- `TARGET_TOKENS` and `OVERLAP_TOKENS`
abbrev pub target_tokens : ℕ
target_tokens = 500

abbrev pub overlap_tokens : ℕ
overlap_tokens = 50

-- `round(n / 4)`: a half goes to the even neighbour.
unfoldable pub round_quarter : ℕ → ℕ
round_quarter n = if n % 4 == 3 || (n % 4 == 2 && n / 4 % 2 == 1) then n / 4 + 1 else n / 4

-- `_est_tokens`
unfoldable pub est_tokens : Text → ℕ
unfolding round_quarter
est_tokens s = max 1 (round_quarter (length s))

close_word : Text → List Text → List Text
close_word [] words = words
close_word (c ∷ s) words = (c ∷ s) ∷ words

words_from : Text → Text → List Text
unfolding close_word
words_from cur [] = close_word cur []
words_from cur (c ∷ s) = elim (is_space c) [
  | true ↦ close_word cur (words_from [] s)
  | false ↦ words_from (cur ++ c ∷ []) s
]

-- `text.split()`
unfoldable pub split_words : Text → List Text
unfolding words_from
split_words text = words_from [] text

module _ (target overlap : ℕ) where
  -- The loop on `j`: the words of a chunk, of those from `i` on; `started` says that `cur` is not empty.
  unfoldable pub pack : ℕ → Bool → List Text → List Text
  unfolding est_tokens
  pack tok started [] = []
  pack tok started (w ∷ ws) =
      let more = pack (tok + est_tokens w) true ws in
      if started && ltb target (tok + est_tokens w) then [] else w ∷ more

  -- The loop on `k`: how many words the next chunk steps back, over the chunk's words from its end.
  unfoldable pub back_up : ℕ → List Text → ℕ
  unfolding est_tokens
  back_up back [] = 0
  back_up back (w ∷ ws) =
      let more = back_up (back + est_tokens w) ws in if ltb back overlap then suc more else 0

  -- `max(k, i + 1) - i`
  unfoldable pub advance : List Text → ℕ
  unfolding back_up
  advance cur = max (length cur - back_up 0 (reverse cur)) 1

  unfoldable pub next_chunks : List Text → List (List Text) → List Text → List (List Text)
  next_chunks cur later [] = cur ∷ []
  next_chunks cur later (w ∷ ws) = cur ∷ later

  -- The outer loop, from `i` on. The fuel bounds the number of chunks.
  unfoldable pub chunks_from : ℕ → List Text → List (List Text)
  unfolding pack advance next_chunks
  chunks_from fuel [] = []
  chunks_from zero (w ∷ ws) = []
  chunks_from (suc f) (w ∷ ws) =
      let cur = pack 0 false (w ∷ ws) in
      next_chunks cur (chunks_from f (drop (advance cur) (w ∷ ws))) (drop (length cur) (w ∷ ws))

  -- Each chunk is not empty, so that the number of words is fuel enough.
  unfoldable pub word_chunks : Text → List (List Text)
  unfolding split_words chunks_from
  word_chunks text = let words = split_words text in chunks_from (length words) words

  unfoldable pub chunk_text : Text → List Text
  unfolding word_chunks join
  chunk_text text = map (join (codes " ")) (word_chunks text)
