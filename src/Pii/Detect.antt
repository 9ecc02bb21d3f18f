-- ===== src/Pii/Detect.antt =====
-- app/pii.py: the local recognisers, Presidio and the two operations that combine them.
pub mod Bounds
pub mod RoundTrip
use decyra_api.Common.{
  ℕ, zero, suc, ◌+◌, ◌-◌, Bool, true, false, not, ◌&&◌, ◌||◌, Option, none, some, List, [], ◌∷◌,
  ◌++◌, map, reverse, ◌==◌, nat_eq, list_eq, leb, if◌then◌else◌, take, drop, length, all, any,
  keep_if,
}
use decyra_api.Common.Text.{Text, codes, is_space, is_digit, ascii_upper}
use decyra_api.Pii.Placeholder.{is_letter, drop_while, take_while}
use decyra_api.Pii.SteuerId.{is_valid_steuer_id}
use decyra_api.Pii.Spans.{Span}
use decyra_api.Store.{Msg}
use decyra_api.Pii.Anonymizer
use decyra_api.Pii.Anonymizer.{Anonymizer}

pub data PiiStatus : Type 0 where
  detected clean unavailable : PiiStatus

pub record PiiOutcome : Type 0 where
  pub status : PiiStatus
  pub is_detected : Bool

abbrev pub is_unavailable : PiiStatus → Bool
is_unavailable unavailable = true
is_unavailable detected = false
is_unavailable clean = false

-- The property `needs_protection`.
unfoldable pub needs_protection : PiiOutcome → Bool
needs_protection o = o.is_detected || is_unavailable o.status

-- A match of a regular expression at the head of a text: the ends of its group, and its own end.
pub record Found : Type 0 where
  pub from : ℕ
  pub to : ℕ
  pub stop : ℕ

-- `pattern.finditer(text)`; the match sees the character before it.
unfoldable pub finditer : (Option ℕ → Text → Option Found) → ℕ → Option ℕ → ℕ → Text → List (ℕ × ℕ)
finditer match pos prev skip [] = []
finditer match pos prev (suc k) (c ∷ s) = finditer match (pos + 1) (some c) k s
finditer match pos prev zero (c ∷ s) = elim (match prev (c ∷ s)) [
  | none ↦ finditer match (pos + 1) (some c) zero s
  | some f ↦ (pos + f.from, pos + f.to) ∷ finditer match (pos + 1) (some c) (f.stop - 1) s
]

head_is : (ℕ → Bool) → Text → Bool
head_is p [] = false
head_is p (c ∷ s) = p c

before_is : (ℕ → Bool) → Option ℕ → Bool
before_is p none = false
before_is p (some c) = p c

-- `[\d ]{k}\d(?!\d)`
run_of : ℕ → Text → Bool
unfolding head_is
run_of k s =
    length (take k s) == k
    && all (λ c. is_digit c || c == b' ') (take k s)
    && head_is is_digit (drop k s)
    && not (head_is is_digit (drop (suc k) s))

-- The greedy `{9,21}`: from the longest count down to the shortest.
longest_run : ℕ → Text → Option ℕ
unfolding run_of
longest_run zero s = none
longest_run (suc t) s =
    let shorter = longest_run t s in if run_of (9 + t) s then some (9 + t) else shorter

-- `_DIGIT_RUN`
unfoldable pub digit_run : Option ℕ → Text → Option Found
unfolding longest_run before_is
digit_run prev [] = none
digit_run prev (c ∷ s) = elim (longest_run 13 s) [
  | none ↦ none
  | some k ↦
      if is_digit c && not (before_is is_digit prev)
      then some (record { from = 0; to = k + 2; stop = k + 2 })
      else none
]

-- One literal of the pattern under `re.IGNORECASE`; `k` also matches the Kelvin sign.
char_ci : ℕ → ℕ → Bool
char_ci p c = ascii_upper c == p || (p == b'K' && c == 0x212a)

-- The text behind a literal.
after_word : Text → Text → Option Text
unfolding char_ci
after_word [] s = some s
after_word (p ∷ ps) [] = none
after_word (p ∷ ps) (c ∷ s) = if char_ci p c then after_word ps s else none

or_else : Option Text → Option Text → Option Text
or_else (some s) b = some s
or_else none b = b

skip_kd_joint : Text → Text
skip_kd_joint [] = []
skip_kd_joint (c ∷ s) = if c == b' ' || c == b'.' || c == b'-' then s else c ∷ s

-- `(?:kunden(?:nummer|nr)|kd[ .\-]?nr)`
after_keyword : Text → Option Text
unfolding after_word or_else skip_kd_joint
after_keyword s = or_else (after_word (codes "KUNDENNUMMER") s) (
    or_else (after_word (codes "KUNDENNR") s) (elim (after_word (codes "KD") s) [
      | none ↦ none
      | some t ↦ after_word (codes "NR") (skip_kd_joint t)
    ]))

is_separator : ℕ → Bool
is_separator c = is_space c || c == b':' || c == b'.' || c == b'-'

skip_letter : Text → Text
skip_letter [] = []
skip_letter (c ∷ s) = if is_letter c then s else c ∷ s

-- `\w` of a character that is no ASCII letter, digit or underscore is a table of the `re` module.
module _ (is_word : ℕ → Bool) where
  -- `_KUNDENNUMMER`, with group 1 as the group.
  unfoldable pub kundennummer : Option ℕ → Text → Option Found
  unfolding after_keyword before_is head_is is_separator skip_letter
  kundennummer prev s = elim (after_keyword s) [
    | none ↦ none
    | some t ↦
        let value = drop_while is_separator t in
        let number = take_while is_digit (skip_letter value) in
        let from = length s - length value in
        let to = length s - length (drop_while is_digit (skip_letter value)) in
        if not (before_is is_word prev) && not (head_is is_word t) && leb 3 (length number)
        then some (record { from = from; to = to; stop = to })
        else none
  ]

  kundennummer_spans : Text → List (ℕ × ℕ)
  unfolding finditer
  kundennummer_spans text = finditer kundennummer 0 none 0 text

  digit_runs : Text → List (ℕ × ℕ)
  unfolding finditer
  digit_runs text = finditer digit_run 0 none 0 text

  -- `m.group().replace(" ", "")`
  digits_of : Text → ℕ × ℕ → Text
  digits_of text (from, to) = keep_if (λ c. not (c == b' ')) (Anonymizer.slice text from to)

  abbrev is_nonempty {ℓ} : {A : Type ℓ} → List A → Bool
  is_nonempty [] = false
  is_nonempty (x ∷ xs) = true

  unfoldable pub has_local_pii : Text → Bool
  unfolding kundennummer_spans digit_runs digits_of
  has_local_pii text =
      if is_nonempty (kundennummer_spans text)
      then true
      else any (λ m. is_valid_steuer_id (digits_of text m)) (digit_runs text)

  unfoldable pub local_spans : Text → List Span
  unfolding kundennummer_spans digit_runs digits_of
  local_spans text =
      map (λ m. record { start = m.0; end = m.1; entity_type = codes "KUNDENNR" })
        (kundennummer_spans text)
      ++ map (λ m. record { start = m.0; end = m.1; entity_type = codes "STEUERID" })
          (keep_if (λ m. is_valid_steuer_id (digits_of text m)) (digit_runs text))

-- Presidio's analyser: the setting `presidio_url`, and the POST of a text to an URL, which answers with
-- the entities at or above the threshold of the settings, or fails. With it the table behind `\w`.
pub record Checker : Type 0 where
  pub is_word : ℕ → Bool
  pub presidio_url : Option Text
  pub post : Text → Text → Option (List Span)

rstrip_slash : Text → Text
unfolding drop_while
rstrip_slash url = reverse (drop_while (λ c. c == b'/') (reverse url))

module _ (k : Checker) where
  -- The request that `presidio_detect` and `analyze_entities` make; `none` is an exception.
  analyze_at : Option Text → Text → Option (List Span)
  unfolding rstrip_slash
  analyze_at none text = none
  analyze_at (some []) text = none
  analyze_at (some (c ∷ url)) text = k.post (rstrip_slash (c ∷ url) ++ codes "/analyze") text

  unfoldable pub analyze_entities : Text → Option (List Span)
  unfolding analyze_at
  analyze_entities text = analyze_at k.presidio_url text

  -- `len(resp.json()) > 0`
  unfoldable pub presidio_detect : Text → Option Bool
  unfolding analyze_entities
  presidio_detect text = elim (analyze_entities text) [
    | none ↦ none
    | some [] ↦ some false
    | some (s ∷ ss) ↦ some true
  ]

  unfoldable pub contains_pii : Text → PiiOutcome
  unfolding presidio_detect
  contains_pii text =
      if has_local_pii k.is_word text
      then record { status = detected; is_detected = true }
      else elim (presidio_detect text) [
        | none ↦ record { status = unavailable; is_detected = false }
        | some true ↦ record { status = detected; is_detected = true }
        | some false ↦ record { status = clean; is_detected = false }
      ]

  unfoldable pub all_spans : Text → Option (List Span)
  unfolding analyze_entities
  all_spans text = elim (analyze_entities text) [
    | none ↦ none
    | some spans ↦ some (spans ++ local_spans k.is_word text)
  ]

  -- The loop of `anonymize_messages`: one anonymiser for all messages.
  unfoldable pub anonymize_with : Anonymizer → List Msg → Option (List Msg × Anonymizer)
  unfolding all_spans
  anonymize_with a [] = some ([], a)
  anonymize_with a (m ∷ ms) = elim (all_spans m.content) [
    | none ↦ none
    | some spans ↦
        let (text, a') = Anonymizer.anonymize a m.content spans in
        elim (anonymize_with a' ms) [
          | none ↦ none
          | some (out, a'') ↦ some (record { role = m.role; content = text } ∷ out, a'')
        ]
  ]

  unfoldable pub anonymize_messages : List Msg → Option (List Msg × Anonymizer)
  unfolding anonymize_with
  anonymize_messages messages = anonymize_with Anonymizer.empty messages
