-- ===== src/Examples/Masking.antt =====
-- The round trip of strict mode at a concrete message.
use decyra_api.Common.{
  ◌≡◌, sym, refl, true, not, all, some, List, [], ◌∷◌, All, arith, ◌==◌, nat_eq, list_eq, map,
  length,
}
use decyra_api.Common.Text.{
  Text, codes, is_ascii_letter, ascii_upper, is_space, is_digit, decimal, decimal_onto,
}
use decyra_api.Common.Split.{Free}
use decyra_api.Chat.{user}
use decyra_api.Store.{Msg}
use decyra_api.Pii.Spans.{Span}
use decyra_api.Pii.Placeholder.{take_while, is_letter}
use decyra_api.Pii.Anonymizer
use decyra_api.Pii.Anonymizer.{Anonymizer}
use decyra_api.Pii.Anonymizer.Order.{IsWithin}
use decyra_api.Pii.Detect.{
  Checker, anonymize_messages, all_spans, kundennummer, local_spans, digit_run,
}
use decyra_api.Pii.Detect.Bounds.{SpansInside}
use decyra_api.Pii.Detect.RoundTrip.{readable, anonymize_messages-undone}

first_character : Text → List Span
first_character [] = []
first_character (c ∷ s) = record { start = 0; end = 1; entity_type = codes "person" } ∷ []

-- A checker that takes the first character of each text for a name.
abbrev naming_checker : Checker
naming_checker = record {
  is_word = is_ascii_letter;
  presidio_url = some (codes "http://presidio/");
  post = λ url text. some (first_character text);
}

first_character-IsWithin : (text : Text) → All (IsWithin (length text)) (first_character text)
unfolding first_character
first_character-IsWithin [] = tt
first_character-IsWithin (c ∷ s) = (record { nonempty = omega arith; inside = omega arith }, tt)

naming_checker-SpansInside : SpansInside naming_checker
naming_checker-SpansInside url text spans h =
    let same : first_character text ≡ spans = cc (h) in
    rw (sym same) (first_character-IsWithin text)

abbrev two_messages : List Msg
two_messages =
    record { role = user; content = codes "Ada" }
    ∷ record { role = user; content = codes "Kd-Nr 123" }
    ∷ []

abbrev masked_messages : List Msg
masked_messages =
    record { role = user; content = codes "[[DCY_PERSON_0]]da" }
    ∷ record { role = user; content = codes "[[DCY_PERSON_1]]d-Nr [[DCY_KUNDENNR_0]]" }
    ∷ []

abbrev after_two : Anonymizer
after_two = record {
  value_to_ph =
      (codes "K", codes "[[DCY_PERSON_1]]")
      ∷ (codes "123", codes "[[DCY_KUNDENNR_0]]")
      ∷ (codes "A", codes "[[DCY_PERSON_0]]")
      ∷ [];
  ph_to_value =
      (codes "[[DCY_PERSON_1]]", codes "K")
      ∷ (codes "[[DCY_KUNDENNR_0]]", codes "123")
      ∷ (codes "[[DCY_PERSON_0]]", codes "A")
      ∷ [];
  type_counters = (codes "PERSON", 2) ∷ (codes "KUNDENNR", 1) ∷ (codes "PERSON", 1) ∷ [];
}

two_messages_masked :
    anonymize_messages naming_checker two_messages ≡ some (masked_messages, after_two)
unfolding anonymize_messages first_character Anonymizer.anonymize kundennummer is_ascii_letter
    ascii_upper take_while is_space is_letter is_digit decimal decimal_onto all_spans local_spans
    digit_run
two_messages_masked = refl

bracket_free : (s : Text) → all (λ c. not (c == b'[')) s ≡ true → Free b'[' s
bracket_free [] h = tt
bracket_free (c ∷ s) h = (ground arith, bracket_free s (ground arith))

anonymize_messages-undone_example :
    map (readable after_two.ph_to_value) masked_messages ≡ two_messages
anonymize_messages-undone_example =
    anonymize_messages-undone naming_checker two_messages masked_messages after_two
      naming_checker-SpansInside
      (bracket_free (codes "Ada") refl, (bracket_free (codes "Kd-Nr 123") refl, tt))
      two_messages_masked
