-- ===== src/Analysis/Safe.antt =====
-- What of a run's output the feedback to the model may contain.
use decyra_api.Common.{
  ℕ, zero, suc, ◌+◌, ◌≤◌, ◌≡◌, ◌⊎◌, refl, sym, ap, ◌∙◌, Bool, true, false, ◌||◌, Option, none, some,
  [], ◌∷◌, ◌++◌, append_assoc, append-nil, arith, ◌==◌, nat_eq, list_eq, if◌then◌else◌, take, drop,
  length, All, All-append, Bool-cases, Option-cases, inl, inr,
}
use decyra_api.Common.Text.{Text, codes, within, is_digit, is_ascii_letter, starts_with}
use decyra_api.Pii.Placeholder.{take_while}
use decyra_api.Analysis.{
  SandboxResult, search_from, gen_line, gen_line_start, or_none, begins_name, continues_name,
  first_of, ends_at, last_end, name_with, exc_class, at_line_start, last_part, timeout_feedback,
  killed_feedback, no_chart_feedback, line_part, class_part, bare_name, render_parts,
  build_retry_feedback,
}

abbrev pub is_identifier : ℕ → Bool
is_identifier c = is_ascii_letter c || within b'0' b'9' c || c == b'_'

abbrev pub Each : (Text → Type 0) → Option Text → Type 0
Each P none = Unit
Each P (some t) = P t

abbrev pub IsNumber : Text → Type 0
IsNumber t = All (λ c. is_digit c ≡ true) t

-- An identifier that ends with `Error` or `Exception`.
pub record IsErrorName (t : Text) : Type 0 where
  pub characters : All (λ c. is_identifier c ≡ true) t
  pub stem : Text
  pub suffixed : (t ≡ stem ++ codes "Error") ⊎ (t ≡ stem ++ codes "Exception")

-- A feedback made of a line number, the name of an error and fixed texts.
pub record IsScrubbed (feedback : Text) : Type 0 where
  pub line : Option Text
  pub name : Option Text
  pub digits : Each IsNumber line
  pub letters : Each IsErrorName name
  pub rendered : feedback ≡ render_parts (line_part line ++ class_part name)

abbrev pub IsFixed : Text → Type 0
IsFixed f = (f ≡ timeout_feedback) ⊎ ((f ≡ killed_feedback) ⊎ (f ≡ no_chart_feedback))

module _ (p : ℕ → Bool) where
  take_while-All : (s : Text) → All (λ c. p c ≡ true) (take_while p s)
  unfolding take_while
  take_while-All [] = tt
  take_while-All (c ∷ s) = elim (Bool-cases (p c)) [
    | inl e ↦ rw e (e, take_while-All s)
    | inr e ↦ rw e tt
  ]

  take-All : (k : ℕ) (s : Text) → k ≤ length (take_while p s) → All (λ c. p c ≡ true) (take k s)
  unfolding take_while
  take-All zero s h = tt
  take-All (suc k) [] h = tt
  take-All (suc k) (c ∷ s) h = elim (Bool-cases (p c)) [
    | inl e ↦ (e, take-All k s (ground (arith, h, e)))
    | inr e ↦ absurd (ground (arith, h, e))
  ]

or_later :
    (P : Text → Type 0) (r later : Option Text)
    → Each P r
    → Each P later
    → Each P (elim r [ none ↦ later | some found ↦ some found ])
or_later P none later _ q = q
or_later P (some t) later p _ = p

module _ (P : Text → Type 0) (match : Option ℕ → Text → Option Text) where
  -- What holds of every match holds of what a search finds.
  search_from-Each :
      ((prev : Option ℕ) (s : Text) → Each P (match prev s))
      → (prev : Option ℕ) (s : Text) → Each P (search_from match prev s)
  unfolding search_from
  search_from-Each h prev [] = tt
  search_from-Each h prev (c ∷ s) =
      or_later P (match prev (c ∷ s)) (search_from match (some c) s) (h prev (c ∷ s))
        (search_from-Each h (some c) s)

or_none-Each : (P : Text → Type 0) (t : Text) → P t → Each P (or_none t)
or_none-Each P [] h = tt
or_none-Each P (c ∷ s) h = h

gen_line-IsNumber : (prev : Option ℕ) (s : Text) → Each IsNumber (gen_line prev s)
unfolding gen_line
gen_line-IsNumber prev s = elim (Bool-cases (starts_with gen_line_start s)) [
  | inl e ↦ rw e (
      or_none-Each IsNumber (take_while is_digit (drop (length gen_line_start) s))
        (take_while-All is_digit (drop (length gen_line_start) s)))
  | inr e ↦ rw e tt
]

starts_with-nil : (p : Text) → starts_with p [] ≡ true → [] ≡ p
unfolding starts_with
starts_with-nil [] h = refl
starts_with-nil (c ∷ p) h = absurd (cc)

starts_with-head : (p s : Text) → starts_with p s ≡ true → take (length p) s ≡ p
unfolding starts_with
starts_with-head [] s h = refl
starts_with-head (c ∷ p) [] h = absurd (cc)
starts_with-head (c ∷ p) (d ∷ s) h =
    let same : c ≡ d = ground arith in
    let rest = starts_with-head p s (ground arith) in cc (same, rest)

starts_with-take :
    (p s : Text) (k : ℕ) → starts_with p (drop k s) ≡ true → take (k + length p) s ≡ take k s ++ p
starts_with-take p s zero h =
    let e : 0 + length p ≡ length p = omega arith in ap (λ j. take j s) e ∙ starts_with-head p s h
starts_with-take p [] (suc k) h =
    let e : suc k + length p ≡ suc (k + length p) = omega arith in
    ap (λ j. take j []) e ∙ starts_with-nil p h
starts_with-take p (x ∷ s) (suc k) h =
    let e : suc k + length p ≡ suc (k + length p) = omega arith in
    ap (λ j. take j (x ∷ s)) e ∙ ap (λ r. x ∷ r) (starts_with-take p s k h)

-- A name that an alternative matches: its characters, and its end.
record IsName (suffix t : Text) : Type 0 where
  pub characters : All (λ c. continues_name c ≡ true) t
  pub stem : Text
  pub suffixed : t ≡ stem ++ suffix

module _ (is_word : ℕ → Bool) where
  ends_at-take :
      (suffix s : Text) (k : ℕ)
      → ends_at is_word suffix s k ≡ true
      → take (k + length suffix) s ≡ take k s ++ suffix
  unfolding ends_at
  ends_at-take suffix s k h = starts_with-take suffix s k (ground arith)

  last_end-take :
      (suffix s : Text) (n e : ℕ)
      → last_end is_word suffix s n ≡ some e
      → (k : ℕ) × (k ≤ n) × (take e s ≡ take k s ++ suffix)
  unfolding last_end
  last_end-take suffix s zero e h = elim (Bool-cases (ends_at is_word suffix s zero)) [
    | inl q ↦
        let same : length suffix ≡ e = ground arith in
        (0, omega arith, ap (λ j. take j s) (omega (arith, same)) ∙ ends_at-take suffix s zero q)
    | inr q ↦ absurd (cc (rw q at h))
  ]
  last_end-take suffix s (suc n) e h = elim (Bool-cases (ends_at is_word suffix s (suc n))) [
    | inl q ↦
        let same : suc n + length suffix ≡ e = ground arith in
        (suc n, omega arith, ap (λ j. take j s) (sym same) ∙ ends_at-take suffix s (suc n) q)
    | inr q ↦
        let (k, le, found) = last_end-take suffix s n e (rw q at h) in (k, omega (arith, le), found)
  ]

  begins_continues : (c : ℕ) → begins_name c ≡ true → continues_name c ≡ true
  begins_continues c h = ground (arith, h)

  IsName-take :
      (suffix : Text) (c : ℕ) (s : Text) (e : ℕ)
      → All (λ d. continues_name d ≡ true) suffix
      → begins_name c ≡ true
      → last_end is_word suffix s (length (take_while continues_name s)) ≡ some e
      → IsName suffix (c ∷ take e s)
  IsName-take suffix c s e letters b h =
      let (k, le, found) = last_end-take suffix s (length (take_while continues_name s)) e h in
      rw found (record {
        characters = (
          begins_continues c b,
          All-append _ (take k s) suffix (take-All continues_name k s le) letters,
        );
        stem = c ∷ take k s;
        suffixed = refl;
      })

  name_with-IsName :
      (suffix s : Text)
      → All (λ d. continues_name d ≡ true) suffix
      → Each (IsName suffix) (name_with is_word suffix s)
  unfolding name_with
  name_with-IsName suffix [] letters = tt
  name_with-IsName suffix (c ∷ s) letters = elim (Bool-cases (begins_name c)) [
    | inr b ↦ rw b tt
    | inl b ↦
        elim (Option-cases (last_end is_word suffix s (length (take_while continues_name s)))) [
          | inl e ↦ rw (b, e, name_with) tt
          | inr (n, e) ↦ rw (b, e, name_with) (IsName-take suffix c s n letters b e)
        ]
  ]

  first_of-Each :
      (Q : Text → Type 0) (a b : Option Text) → Each Q a → Each Q b → Each Q (first_of a b)
  first_of-Each Q none b p q = q
  first_of-Each Q (some t) b p q = p

-- A name as the pattern matches it, with its qualifier.
record IsQualified (t : Text) : Type 0 where
  pub characters : All (λ c. continues_name c ≡ true) t
  pub stem : Text
  pub suffixed : (t ≡ stem ++ codes "Error") ⊎ (t ≡ stem ++ codes "Exception")

Each-map : (P Q : Text → Type 0) (o : Option Text) → ((t : Text) → P t → Q t) → Each P o → Each Q o
Each-map P Q none f _ = tt
Each-map P Q (some t) f p = f t p

error_letters : All (λ c. continues_name c ≡ true) (codes "Error")
unfolding is_ascii_letter
error_letters = ground arith

exception_letters : All (λ c. continues_name c ≡ true) (codes "Exception")
unfolding is_ascii_letter
exception_letters = ground arith

exc_class-IsQualified :
    (is_word : ℕ → Bool) (prev : Option ℕ) (s : Text) → Each IsQualified (exc_class is_word prev s)
unfolding exc_class
exc_class-IsQualified is_word prev s = elim (Bool-cases (at_line_start prev)) [
  | inr e ↦ rw e tt
  | inl e ↦
      let error =
        Each-map (IsName (codes "Error")) IsQualified (name_with is_word (codes "Error") s)
          (λ t n. record { characters = n.characters; stem = n.stem; suffixed = inl n.suffixed })
          (name_with-IsName is_word (codes "Error") s error_letters) in
      let exception =
        Each-map (IsName (codes "Exception")) IsQualified (name_with is_word (codes "Exception") s)
          (λ t n. record { characters = n.characters; stem = n.stem; suffixed = inr n.suffixed })
          (name_with-IsName is_word (codes "Exception") s exception_letters) in
      rw e (first_of-Each is_word IsQualified _ _ error exception)
]

-- The last part of a name, read behind a part that holds no dot.
last_part-identifier :
    (part s : Text)
    → All (λ c. is_identifier c ≡ true) part
    → All (λ c. continues_name c ≡ true) s
    → All (λ c. is_identifier c ≡ true) (last_part part s)
unfolding last_part
last_part-identifier part [] p _ = p
last_part-identifier part (c ∷ s) p (h, hs) = elim (Bool-cases (c == b'.')) [
  | inl e ↦ rw e (last_part-identifier [] s tt hs)
  | inr e ↦ rw e (
      last_part-identifier (part ++ c ∷ []) s
        (All-append _ part (c ∷ []) p (ground (arith, h, e), tt)) hs)
]

-- A suffix without a dot stays the end of the last part.
last_part-append :
    (part x suffix : Text)
    → All (λ c. (c == b'.') ≡ false) suffix
    → last_part part (x ++ suffix) ≡ last_part part x ++ suffix
unfolding last_part
last_part-append part [] [] _ = sym (append-nil part)
last_part-append part [] (c ∷ suffix) (h, hs) =
    rw (h, last_part)
      (last_part-append (part ++ c ∷ []) [] suffix hs ∙ append_assoc part (c ∷ []) suffix)
last_part-append part (c ∷ x) suffix hs =
    last_part-append (if c == b'.' then [] else part ++ c ∷ []) x suffix hs

last_part-IsErrorName : (t : Text) → IsQualified t → IsErrorName (last_part [] t)
last_part-IsErrorName t q = record {
  characters = last_part-identifier [] t tt q.characters;
  stem = last_part [] q.stem;
  suffixed = elim q.suffixed [
    | inl e ↦ inl (ap (last_part []) e ∙ last_part-append [] q.stem (codes "Error") (ground arith))
    | inr e ↦
        inr (ap (last_part []) e ∙ last_part-append [] q.stem (codes "Exception") (ground arith))
  ];
}

bare_name-IsErrorName : (o : Option Text) → Each IsQualified o → Each IsErrorName (bare_name o)
bare_name-IsErrorName none _ = tt
bare_name-IsErrorName (some t) q = last_part-IsErrorName t q

-- The feedback after a failed run is one of three fixed texts, or is put together from fixed texts, a
-- number made of digits, and an identifier that ends with Error or Exception: nothing else of what the
-- run printed gets into it, whatever the run's status and output.
pub build_retry_feedback-IsScrubbed :
    (is_word : ℕ → Bool) (result : SandboxResult)
    → IsFixed (build_retry_feedback is_word result)
      ⊎ IsScrubbed (build_retry_feedback is_word result)
unfolding build_retry_feedback
build_retry_feedback-IsScrubbed is_word result =
    elim (Bool-cases (result.status == codes "timeout")) [
      | inl e ↦ rw e (inl (inl refl))
      | inr timeout ↦ elim (Bool-cases (result.status == codes "killed")) [
        | inl e ↦ rw (timeout, e) (inl (inr (inl refl)))
        | inr killed ↦ elim (Bool-cases (result.status == codes "no_chart")) [
          | inl e ↦ rw (timeout, killed, e) (inl (inr (inr refl)))
          | inr no_chart ↦
              rw (timeout, killed, no_chart)
                (inr (record {
                  line = search_from gen_line none result.output;
                  name = bare_name (search_from (exc_class is_word) none result.output);
                  digits = search_from-Each IsNumber gen_line gen_line-IsNumber none result.output;
                  letters =
                      bare_name-IsErrorName (search_from (exc_class is_word) none result.output) (
                        search_from-Each IsQualified (exc_class is_word)
                          (exc_class-IsQualified is_word) none result.output);
                  rendered = refl;
                }))
        ]
      ]
    ]
