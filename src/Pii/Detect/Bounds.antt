-- ===== src/Pii/Detect/Bounds.antt =====
-- The spans that the local recognisers find lie inside the text and are not empty.
use decyra_api.Common.{
  keep_if-All, ℕ, zero, suc, ◌+◌, ◌-◌, ◌≤◌, ◌<◌, ◌≡◌, refl, sym, Bool, true, false, not, ◌&&◌,
  Option, none, some, List, [], ◌∷◌, ◌++◌, nat_eq, arith, length, drop, map, All, All-append, leb,
  if◌then◌else◌, Bool-cases, Option-cases, inl, inr,
}
use decyra_api.Common.Text.{Text, codes, is_digit}
use decyra_api.Pii.Placeholder.{take_while, drop_while}
use decyra_api.Pii.SteuerId.{is_valid_steuer_id}
use decyra_api.Pii.Spans.{Span}
use decyra_api.Pii.Anonymizer.Order.{IsWithin}
use decyra_api.Pii.Detect.{
  Found, finditer, head_is, run_of, longest_run, before_is, digit_run, after_word, or_else,
  skip_kd_joint, after_keyword, is_separator, skip_letter, kundennummer, kundennummer_spans,
  digit_runs, digits_of, local_spans, Checker, analyze_at, analyze_entities, all_spans,
}

-- A part of a text of the length, not empty.
abbrev Inside : ℕ → ℕ × ℕ → Type 0
Inside total (from, to) = (from < to) × (to ≤ total)

-- What the matcher finds at the head of a text lies in that text.
abbrev FindsInside : (Option ℕ → Text → Option Found) → Type 0
FindsInside match =
    (prev : Option ℕ) (s : Text) (f : Found)
    → match prev s ≡ some f
    → Inside (length s) (f.from, f.to)

finditer-Inside :
    (match : Option ℕ → Text → Option Found)
    → FindsInside match
    → (pos : ℕ) (prev : Option ℕ) (skip total : ℕ) (s : Text) → pos + length s ≤ total
    → All (Inside total) (finditer match pos prev skip s)
unfolding finditer
finditer-Inside match finds pos prev skip total [] fits = tt
finditer-Inside match finds pos prev (suc k) total (c ∷ s) fits =
    finditer-Inside match finds (pos + 1) (some c) k total s (omega arith)
finditer-Inside match finds pos prev zero total (c ∷ s) fits =
    elim (Option-cases (match prev (c ∷ s))) [
      | inl e ↦
          rw (e, finditer)
            (finditer-Inside match finds (pos + 1) (some c) zero total s (omega arith))
      | inr (f, e) ↦
          let (lo, hi) = finds prev (c ∷ s) f e in
          rw (e, finditer)
            (
              (omega (arith, lo), omega (arith, hi)),
              finditer-Inside match finds (pos + 1) (some c) (f.stop - 1) total s (omega arith),
            )
    ]

head_drop : (p : ℕ → Bool) (k : ℕ) (s : Text) → head_is p (drop k s) ≡ true → k < length s
unfolding head_is
head_drop p zero [] h = absurd (cc)
head_drop p (suc k) [] h = absurd (cc)
head_drop p zero (c ∷ s) h = omega arith
head_drop p (suc k) (c ∷ s) h = omega (arith, head_drop p k s h)

run_of-fits : (k : ℕ) (s : Text) → run_of k s ≡ true → k < length s
unfolding run_of
run_of-fits k s h = head_drop is_digit k s (ground arith)

longest_run-fits : (t : ℕ) (s : Text) (k : ℕ) → longest_run t s ≡ some k → k < length s
unfolding longest_run
longest_run-fits zero s k h = absurd (cc)
longest_run-fits (suc t) s k h = elim (Bool-cases (run_of (9 + t) s)) [
  | inl e ↦ ground (arith, run_of-fits (9 + t) s e, h)
  | inr e ↦ longest_run-fits t s k (rw (e) at h)
]

digit_run-Inside : FindsInside digit_run
unfolding digit_run
digit_run-Inside prev [] f h = absurd (cc)
digit_run-Inside prev (c ∷ s) f h = elim (Option-cases (longest_run 13 s)) [
  | inl e ↦ absurd (ground (arith, e, h))
  | inr (k, e) ↦ let fits = longest_run-fits 13 s k e in ground (arith, fits, e, h)
]

after_word-length : (w s t : Text) → after_word w s ≡ some t → length t ≤ length s
unfolding after_word
after_word-length [] s t h = ground arith
after_word-length (p ∷ ps) [] t h = absurd (cc)
after_word-length (p ∷ ps) (c ∷ s) t h = ground (arith, after_word-length ps s t)

skip_kd_joint-length : (s : Text) → length (skip_kd_joint s) ≤ length s
unfolding skip_kd_joint
skip_kd_joint-length [] = omega arith
skip_kd_joint-length (c ∷ s) = ground arith

skip_letter-length : (s : Text) → length (skip_letter s) ≤ length s
unfolding skip_letter
skip_letter-length [] = omega arith
skip_letter-length (c ∷ s) = ground arith

module _ (p : ℕ → Bool) where
  take_drop_length : (s : Text) → length (take_while p s) + length (drop_while p s) ≡ length s
  unfolding take_while drop_while
  take_drop_length [] = omega arith
  take_drop_length (c ∷ s) = elim (Bool-cases (p c)) [
    | inl e ↦ rw e (omega (arith, take_drop_length s))
    | inr e ↦ rw e (omega arith)
  ]

or_else-length :
    (a b : Option Text) (n : ℕ) (t : Text)
    → ((u : Text) → a ≡ some u → length u ≤ n)
    → ((u : Text) → b ≡ some u → length u ≤ n)
    → or_else a b ≡ some t
    → length t ≤ n
unfolding or_else
or_else-length none b n t ha hb h = hb t h
or_else-length (some u) b n t ha hb h = ha t h

kd_nr-length :
    (s t : Text)
    → elim (after_word (codes "KD") s) [
      | none ↦ none
      | some u ↦ after_word (codes "NR") (skip_kd_joint u)
    ]
      ≡ some t
    → length t ≤ length s
kd_nr-length s t h = elim (Option-cases (after_word (codes "KD") s)) [
  | inl e ↦ absurd (cc (rw e at h))
  | inr (u, e) ↦ omega (
    arith,
    after_word-length (codes "NR") (skip_kd_joint u) t (rw e at h),
    skip_kd_joint-length u,
    after_word-length (codes "KD") s u e,
  )
]

after_keyword-length : (s t : Text) → after_keyword s ≡ some t → length t ≤ length s
unfolding after_keyword
after_keyword-length s t h =
    or_else-length (after_word (codes "KUNDENNUMMER") s) _ (length s) t
      (λ u e. after_word-length (codes "KUNDENNUMMER") s u e)
      (λ u e.
        or_else-length (after_word (codes "KUNDENNR") s) _ (length s) u
          (λ v q. after_word-length (codes "KUNDENNR") s v q) (λ v q. kd_nr-length s v q) e)
      h

guarded :
    {A : Type 0} (c : Bool) (g f : A) → (if c then some g else none) ≡ some f → (c ≡ true) × (g ≡ f)
guarded true g f h = (refl, cc (h))
guarded false g f h = absurd (cc)

third : (a b : Bool) (m n : ℕ) → (a && b && leb m n) ≡ true → m ≤ n
third a b m n h = ground arith

kundennummer-Inside : (is_word : ℕ → Bool) → FindsInside (kundennummer is_word)
unfolding kundennummer
kundennummer-Inside is_word prev s f h = elim (Option-cases (after_keyword s)) [
  | inl e ↦ absurd (cc (rw e at h))
  | inr (t, e) ↦
      let value = drop_while is_separator t in
      let behind = after_keyword-length s t e in
      let joint = take_drop_length is_separator t in
      let letter = skip_letter-length value in
      let number = take_drop_length is_digit (skip_letter value) in
      let (ok, same) = guarded _ _ f (rw (e, kundennummer) at h) in
      let long =
        third (not (before_is is_word prev)) (not (head_is is_word t)) 3
          (length (take_while is_digit (skip_letter value))) ok in
      rw (sym same) (
        omega (arith, behind, joint, letter, number, long),
        omega (arith, behind, joint, letter, number, long),
      )
]

spans_of :
    (total : ℕ) (etype : Text) (found : List (ℕ × ℕ))
    → All (Inside total) found
    → All (IsWithin total) (map (λ m. record { start = m.0; end = m.1; entity_type = etype }) found)
spans_of total etype [] h = tt
spans_of total etype (m ∷ found) ((lo, hi), h) =
    (record { nonempty = lo; inside = hi }, spans_of total etype found h)

local_spans-IsWithin :
    (is_word : ℕ → Bool) (text : Text) → All (IsWithin (length text)) (local_spans is_word text)
unfolding local_spans kundennummer_spans digit_runs
local_spans-IsWithin is_word text =
    All-append (IsWithin (length text)) _ _
      (spans_of (length text) (codes "KUNDENNR") _ (
        finditer-Inside (kundennummer is_word) (kundennummer-Inside is_word) 0 none 0 (length text)
          text (omega arith)))
      (spans_of (length text) (codes "STEUERID") _ (
        keep_if-All (Inside (length text)) (λ m. is_valid_steuer_id (digits_of is_word text m)) _
          (finditer-Inside digit_run digit_run-Inside 0 none 0 (length text) text (omega arith))))

-- Presidio's entities are parts of the text that it was sent, not empty.
abbrev pub SpansInside : Checker → Type 0
SpansInside k =
    (url text : Text) (spans : List Span)
    → k.post url text ≡ some spans
    → All (IsWithin (length text)) spans

analyze_at-IsWithin :
    (k : Checker) (url : Option Text) (text : Text) (spans : List Span)
    → SpansInside k
    → analyze_at k url text ≡ some spans
    → All (IsWithin (length text)) spans
unfolding analyze_at
analyze_at-IsWithin k none text spans inside h = absurd (cc)
analyze_at-IsWithin k (some []) text spans inside h = absurd (cc)
analyze_at-IsWithin k (some (c ∷ url)) text spans inside h = inside _ text spans h

analyze_entities-IsWithin :
    (k : Checker) (text : Text) (spans : List Span)
    → SpansInside k
    → analyze_entities k text ≡ some spans
    → All (IsWithin (length text)) spans
unfolding analyze_entities
analyze_entities-IsWithin k text spans inside h =
    analyze_at-IsWithin k k.presidio_url text spans inside h

-- The two parts of what `all_spans` returns.
appended :
    (r : Option (List Span)) (local spans : List Span)
    → elim r [ none ↦ none | some found ↦ some (found ++ local) ] ≡ some spans
    → (found : List Span) × (r ≡ some found) × (found ++ local ≡ spans)
appended none local spans h = absurd (cc)
appended (some found) local spans h = (found, refl, cc)

pub all_spans-IsWithin :
    (k : Checker) (text : Text) (spans : List Span)
    → SpansInside k
    → all_spans k text ≡ some spans
    → All (IsWithin (length text)) spans
unfolding all_spans
all_spans-IsWithin k text spans inside h =
    let (found, e, same) =
      appended (analyze_entities k text) (local_spans k.is_word text) spans h in
    rw (sym same) (
      All-append (IsWithin (length text)) found (local_spans k.is_word text)
        (analyze_entities-IsWithin k text found inside e) (local_spans-IsWithin k.is_word text))
