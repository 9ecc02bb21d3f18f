-- ===== src/Pii/Placeholder.antt =====
-- app/pii.py: `_PLACEHOLDER_RE` and `Anonymizer.deanonymize`.
pub mod Match
pub mod Scan
use decyra_api.Common.{
  ℕ, zero, suc, ◌+◌, ◌≡◌, Bool, true, false, not, ◌&&◌, ◌||◌, Option, none, some, List, [], ◌∷◌,
  ◌++◌, map, ◌==◌, nat_eq, list_eq, lookup, if◌then◌else◌, length,
}
use decyra_api.Common.Text.{Text, codes, is_space, is_digit, is_ascii_letter, ascii_upper}

-- `[A-Za-z]` under `re.IGNORECASE`, which also matches these four characters.
unfoldable pub is_letter : ℕ → Bool
is_letter c = is_ascii_letter c || c == 0x130 || c == 0x131 || c == 0x17f || c == 0x212a

-- `str.upper` of a character that `is_letter` accepts.
unfoldable pub letter_upper : ℕ → ℕ
letter_upper c = if c == 0x131 then b'I' else if c == 0x17f then b'S' else ascii_upper c

unfoldable pub take_while : (ℕ → Bool) → Text → Text
take_while p [] = []
take_while p (c ∷ s) = let rest = take_while p s in if p c then c ∷ rest else []

unfoldable pub drop_while : (ℕ → Bool) → Text → Text
drop_while p [] = []
drop_while p (c ∷ s) = let rest = drop_while p s in if p c then rest else c ∷ s

-- `[_ ]?`
unfoldable pub skip_joint : Text → Text
skip_joint [] = []
skip_joint (c ∷ s) = if c == b'_' || c == b' ' then s else c ∷ s

abbrev pub is_char_ci : ℕ → ℕ → Bool
is_char_ci upper c = ascii_upper c == upper

-- `DCY`, in either case.
unfoldable pub skip_dcy : Text → Option Text
skip_dcy (a ∷ b ∷ c ∷ s) =
    if is_char_ci b'D' a && is_char_ci b'C' b && is_char_ci b'Y' c then some s else none
skip_dcy _ = none

-- The two groups of a match and the text between the brackets.
pub record Hit : Type 0 where
  pub etype : Text
  pub number : Text
  pub inner : Text

-- The end of the pattern: both groups are not empty, and nothing is left before the brackets.
unfoldable pub close_body : Text → Text → Text → Text → Option Hit
close_body inner (l ∷ ls) (d ∷ ds) [] =
    some (record { etype = l ∷ ls; number = d ∷ ds; inner = inner })
close_body _ _ _ _ = none

-- `([A-Za-z]+)[_ ]?(\d+)\s*`. The classes that follow one another are disjoint, so the greedy runs
-- never have to be shortened.
unfoldable pub match_groups : Text → Text → Option Hit
match_groups inner t =
    let s = skip_joint (drop_while is_letter t) in
    close_body inner (take_while is_letter t) (take_while is_digit s)
      (drop_while is_space (drop_while is_digit s))

-- `\s*DCY[_ ]?([A-Za-z]+)[_ ]?(\d+)\s*`, on all of `inner`
unfoldable pub match_body : Text → Option Hit
match_body inner = elim (skip_dcy (drop_while is_space inner)) [
  | none ↦ none
  | some s ↦ match_groups inner (skip_joint s)
]

-- `\]\]` behind the first `]`: the pattern between the brackets matches no `]`.
unfoldable pub until_close : Text → Option Text
until_close [] = none
until_close (c ∷ []) = none
until_close (c ∷ d ∷ s) =
    let rest = until_close (d ∷ s) in
    if c == b']'
    then (if d == b']' then some [] else none)
    else elim rest [ none ↦ none | some u ↦ some (c ∷ u) ]

-- `_PLACEHOLDER_RE.match` at the head of the text.
unfoldable pub match_at : Text → Option Hit
match_at [] = none
match_at (a ∷ []) = none
match_at (a ∷ b ∷ s) =
    if a == b'[' && b == b'['
    then elim (until_close s) [ none ↦ none | some u ↦ match_body u ]
    else none

-- `m.group(0)`
abbrev pub whole : Hit → Text
whole h = b'[' ∷ b'[' ∷ (h.inner ++ b']' ∷ b']' ∷ [])

-- `f"[[DCY_{etype}_{n}]]"`
abbrev pub placeholder : Text → Text → Text
placeholder etype number =
    b'[' ∷ b'[' ∷ (codes "DCY_" ++ etype ++ b'_' ∷ number ++ b']' ∷ b']' ∷ [])

abbrev pub Mapping : Type 0
Mapping = List (Text × Text)

module _ (m : Mapping) where
  -- `_repl`
  unfoldable pub replace : Hit → Text
  replace h = elim (lookup (placeholder (map letter_upper h.etype) h.number) m) [
    | none ↦ whole h
    | some value ↦ value
  ]

  -- `_PLACEHOLDER_RE.sub(_repl, text)`: leftmost matches, with `skip` characters of one still to pass.
  unfoldable pub scan : ℕ → Text → Text
  scan skip [] = []
  scan (suc k) (c ∷ s) = scan k s
  scan zero (c ∷ s) = elim (match_at (c ∷ s)) [
    | none ↦ c ∷ scan zero s
    | some h ↦ replace h ++ scan (length h.inner + 3) s
  ]

  unfoldable pub deanonymize : Text → Text
  unfolding scan
  deanonymize text = scan zero text
