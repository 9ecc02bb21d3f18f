-- ===== src/Examples/Texts.antt =====
-- Runs on texts: placeholders in a stream, check digits, chunks, spans.
use decyra_api.Common.{
  ◌≡◌, ◌≢◌, ◌≤◌, refl, List, [], ◌∷◌, All, arith, length, concat, nat_eq, list_eq,
}
use decyra_api.Common.Text.{Text, codes, is_ascii_letter, ascii_upper, is_space, is_digit, join}
use decyra_api.Chunking.{
  chunk_text, word_chunks, split_words, chunks_from, pack, advance, back_up, est_tokens,
  next_chunks,
}
use decyra_api.Chunking.Coverage.{Covers, Fits, word_chunks-Covers, word_chunks-Fits}
use decyra_api.Pii.Placeholder.Scan.{length-match_at}
use decyra_api.Pii.Placeholder.{
  until_close, match_body, skip_dcy, drop_while, match_groups, close_body, take_while, skip_joint,
  is_letter, letter_upper, replace, scan, Mapping, deanonymize, match_at,
}
use decyra_api.Pii.Stream.{
  start, feed, stream, max_ph, flush, hold_start, rfind_open, starts_open, has_close, tail_start,
  ends_open,
}
use decyra_api.Pii.Stream.Laws.{IsShort, stream-deanonymize, feed-buffer-le}
use decyra_api.Pii.Spans.{Span, resolve_overlaps}
use decyra_api.Pii.Spans.Overlaps.{
  AreApart, Meets, resolve_overlaps-AreApart, resolve_overlaps-Meets,
}
use decyra_api.Pii.SteuerId.{check_digit}
use decyra_api.Pii.SteuerId.Errors.{check_digit-injective_at}

-- The stream of an answer that is cut inside a placeholder.
abbrev ada_mapping : Mapping
ada_mapping = (codes "[[DCY_PERSON_0]]", codes "Ada") ∷ []

abbrev cut_answer : List Text
cut_answer = codes "Hi [[dcy" ∷ codes " person 0]" ∷ codes "]!" ∷ []

-- A text that is itself short holds no long match.
length-IsShort : (s : Text) → length s ≤ max_ph → IsShort s
length-IsShort [] h = tt
length-IsShort (c ∷ s) h =
    (λ m e. omega (arith, length-match_at (c ∷ s) e), length-IsShort s (omega arith))

stream-deanonymize_example :
    stream (start ada_mapping) cut_answer ≡ deanonymize ada_mapping (codes "Hi [[dcy person 0]]!")
stream-deanonymize_example =
    stream-deanonymize (start ada_mapping) cut_answer
      (length-IsShort (concat cut_answer) (omega arith))

feed-buffer-le_example : length (feed (start ada_mapping) (codes "Hi [[dcy")).1.buffer ≤ max_ph
feed-buffer-le_example = feed-buffer-le (start ada_mapping) (codes "Hi [[dcy")

streamed : stream (start ada_mapping) cut_answer ≡ codes "Hi Ada!"
unfolding stream feed flush hold_start deanonymize rfind_open starts_open has_close match_at
    tail_start ends_open until_close match_body skip_dcy drop_while is_space ascii_upper
    match_groups close_body take_while skip_joint is_letter is_ascii_letter is_digit letter_upper
    replace scan
streamed = refl

check_digit-injective_at_example : check_digit (8 ∷ 6 ∷ 0 ∷ []) ≢ check_digit (8 ∷ 6 ∷ 1 ∷ [])
check_digit-injective_at_example =
    check_digit-injective_at (8 ∷ 6 ∷ []) [] 0 1 (omega arith) (omega arith) (λ e. omega arith)

-- A target of two tokens, which one long word exceeds.
word_chunks-Covers_example :
    Covers
      (word_chunks 2 1 (codes "a bb unterschiedlich c"))
      (split_words (codes "a bb unterschiedlich c"))
word_chunks-Covers_example = word_chunks-Covers 2 1 (codes "a bb unterschiedlich c")

word_chunks-Fits_example : All (Fits 2) (word_chunks 2 1 (codes "a bb unterschiedlich c"))
word_chunks-Fits_example = word_chunks-Fits 2 1 (codes "a bb unterschiedlich c")

chunked :
    chunk_text 2 1 (codes "a bb unterschiedlich c")
    ≡ codes "a bb" ∷ codes "bb" ∷ codes "unterschiedlich" ∷ codes "c" ∷ []
unfolding chunk_text word_chunks split_words is_space chunks_from pack advance back_up est_tokens
    next_chunks join
chunked = refl

-- The second span lies in the first, the third is free of both.
abbrev found : List Span
found =
    record { start = 5; end = 9; entity_type = codes "B" }
    ∷ record { start = 2; end = 9; entity_type = codes "A" }
    ∷ record { start = 9; end = 12; entity_type = codes "C" }
    ∷ []

resolve_overlaps-AreApart_example : AreApart (resolve_overlaps found)
resolve_overlaps-AreApart_example = resolve_overlaps-AreApart found

resolve_overlaps-Meets_example : All (Meets (resolve_overlaps found)) found
resolve_overlaps-Meets_example = resolve_overlaps-Meets found
