-- ===== src/Pii/Anonymizer.antt =====
-- app/pii.py: `Anonymizer`. Its dicts are association lists, the newest binding first.
pub mod Keys
pub mod Issue
pub mod Order
pub mod RoundTrip
pub mod Restore
use decyra_api.Common.{
  ℕ, ◌+◌, ◌-◌, Bool, none, some, List, [], ◌∷◌, ◌++◌, map, nat_eq, list_eq, leb, take, drop,
  keep_if, lookup,
}
use decyra_api.Common.Text.{Text, codes, decimal, is_ascii_letter, ascii_upper}
use decyra_api.Pii.Placeholder.{Mapping, placeholder}
use decyra_api.Pii.Spans.{Span, sorted, resolve_overlaps}

pub record Anonymizer : Type 0 where
  pub value_to_ph : List (Text × Text)
  pub ph_to_value : Mapping
  pub type_counters : List (Text × ℕ)

-- `__init__`
abbrev pub empty : Anonymizer
empty = record { value_to_ph = []; ph_to_value = []; type_counters = [] }

abbrev pub or_pii : Text → Text
or_pii [] = codes "PII"
or_pii (c ∷ s) = c ∷ s

-- `re.sub(r"[^A-Za-z]", "", entity_type).upper() or "PII"`
unfoldable pub clean_type : Text → Text
clean_type entity_type = or_pii (map ascii_upper (keep_if is_ascii_letter entity_type))

-- `self._type_counters.get(etype, 0)`
unfoldable pub counter : List (Text × ℕ) → Text → ℕ
counter counters etype = elim (lookup etype counters) [ none ↦ 0 | some n ↦ n ]

-- A new placeholder for a value that has none.
unfoldable pub mint : Anonymizer → Text → Text → Text × Anonymizer
mint a value etype =
    let n = counter a.type_counters etype in
    let ph = placeholder etype (decimal n) in
    (
      ph,
      record {
        value_to_ph = (value, ph) ∷ a.value_to_ph;
        ph_to_value = (ph, value) ∷ a.ph_to_value;
        type_counters = (etype, n + 1) ∷ a.type_counters;
      },
    )

-- `_placeholder_for`
unfoldable pub placeholder_for : Anonymizer → Text → Text → Text × Anonymizer
unfolding mint clean_type counter
placeholder_for a value entity_type = elim (lookup value a.value_to_ph) [
  | some ph ↦ (ph, a)
  | none ↦ mint a value (clean_type entity_type)
]

-- `text[start:end]`
abbrev pub slice : Text → ℕ → ℕ → Text
slice text start end = take (end - start) (drop start text)

-- The loop of `anonymize`.
unfoldable pub replace_spans : Anonymizer → Text → List Span → Text × Anonymizer
replace_spans a text [] = (text, a)
replace_spans a text (s ∷ ss) =
    let (ph, a') = placeholder_for a (slice text s.start s.end) s.entity_type in
    replace_spans a' (take s.start text ++ ph ++ drop s.end text) ss

abbrev pub starts_after : Span → Span → Bool
starts_after x y = leb y.start x.start

unfoldable pub anonymize : Anonymizer → Text → List Span → Text × Anonymizer
unfolding replace_spans placeholder_for resolve_overlaps sorted
anonymize a text spans = replace_spans a text (sorted starts_after (resolve_overlaps spans))
