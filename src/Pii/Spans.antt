-- ===== src/Pii/Spans.antt =====
-- app/pii.py: `Span` and `Anonymizer._resolve_overlaps`.
pub mod Overlaps
use decyra_api.Common.{
  ℕ, Bool, ◌&&◌, ◌||◌, List, [], ◌∷◌, ◌++◌, ◌==◌, nat_eq, if◌then◌else◌, all, leb, ltb,
}
use decyra_api.Common.Text.{Text}

pub record Span : Type 0 where
  pub start : ℕ
  pub end : ℕ
  pub entity_type : Text

-- Python's stable `sorted`: an element goes before those that it does not come after.
module _ {ℓ} {A : Type ℓ} (before : A → A → Bool) where
  unfoldable pub insert : A → List A → List A
  insert x [] = x ∷ []
  insert x (y ∷ ys) = if before x y then x ∷ y ∷ ys else y ∷ insert x ys

  unfoldable pub sorted : List A → List A
  unfolding insert
  sorted [] = []
  sorted (x ∷ xs) = insert x (sorted xs)

-- The key `(x.start, -(x.end - x.start))`: at equal starts the longer span comes first.
abbrev pub before : Span → Span → Bool
before x y = ltb x.start y.start || (x.start == y.start && leb y.end x.end)

-- `s.start >= c.end or s.end <= c.start`
abbrev pub apart : Span → Span → Bool
apart s c = leb c.end s.start || leb s.end c.start

unfoldable pub choose : List Span → List Span → List Span
choose chosen [] = chosen
choose chosen (s ∷ ss) = choose (if all (apart s) chosen then chosen ++ s ∷ [] else chosen) ss

unfoldable pub resolve_overlaps : List Span → List Span
unfolding choose sorted
resolve_overlaps spans = choose [] (sorted before spans)
