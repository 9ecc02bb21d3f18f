-- ===== src/Pii/Anonymizer/Keys.antt =====
-- The placeholders that the anonymiser mints, as the reverse matcher reads them.
use decyra_api.Common.{
  ℕ, ◌≤◌, ◌≡◌, refl, sym, ap, ◌∙◌, Bool, true, false, some, [], ◌∷◌, ◌++◌, arith, append_assoc, map,
  nat_eq, length, All, All-append, All-map, keep_if, Bool-cases, inl, inr,
}
use decyra_api.Common.Text.{
  Text, codes, within, decimal, is_ascii_letter, ascii_upper, is_digit, is_space,
}
use decyra_api.Common.Split.{decimal-digits, decimal-nonempty, decimal-injective}
use decyra_api.Pii.Placeholder.{
  Hit, is_letter, letter_upper, take_while, drop_while, skip_joint, skip_dcy, close_body,
  match_groups, match_body, match_at, whole, placeholder,
}
use decyra_api.Pii.Placeholder.Match.{Lacks, match_at_intro}
use decyra_api.Pii.Anonymizer.{clean_type, or_pii}

abbrev pub is_upper : ℕ → Bool
is_upper c = within b'A' b'Z' c

-- A type as `clean_type` leaves it.
pub record IsType (e : Text) : Type 0 where
  pub letters : All (λ c. is_upper c ≡ true) e
  pub nonempty : 1 ≤ length e

abbrev pub key : Text → ℕ → Text
key e n = placeholder e (decimal n)

-- What the matcher reads off a placeholder.
abbrev pub hit : Text → ℕ → Hit
hit e n = record { etype = e; number = decimal n; inner = codes "DCY_" ++ (e ++ b'_' ∷ decimal n) }

upper_kept : (t : Text) → All (λ c. is_upper c ≡ true) (map ascii_upper (keep_if is_ascii_letter t))
unfolding ascii_upper is_ascii_letter
upper_kept [] = tt
upper_kept (c ∷ t) = elim (Bool-cases (is_ascii_letter c)) [
  | inl e ↦ rw e (ground (arith, e), upper_kept t)
  | inr e ↦ rw e (upper_kept t)
]

or_pii-IsType : (t : Text) → All (λ c. is_upper c ≡ true) t → IsType (or_pii t)
or_pii-IsType [] h = record { letters = ground arith; nonempty = omega arith }
or_pii-IsType (c ∷ t) h = record { letters = h; nonempty = omega arith }

pub clean_type-IsType : (t : Text) → IsType (clean_type t)
unfolding clean_type
clean_type-IsType t = or_pii-IsType (map ascii_upper (keep_if is_ascii_letter t)) (upper_kept t)

module _ (p : ℕ → Bool) where
  take_while-All :
      (xs ys : Text) (d : ℕ)
      → All (λ c. p c ≡ true) xs
      → p d ≡ false
      → take_while p (xs ++ d ∷ ys) ≡ xs
  unfolding take_while
  take_while-All [] ys d h n = rw n refl
  take_while-All (x ∷ xs) ys d (q, h) n = rw q (ap (λ r. x ∷ r) (take_while-All xs ys d h n))

  drop_while-All :
      (xs ys : Text) (d : ℕ)
      → All (λ c. p c ≡ true) xs
      → p d ≡ false
      → drop_while p (xs ++ d ∷ ys) ≡ d ∷ ys
  unfolding drop_while
  drop_while-All [] ys d h n = rw n refl
  drop_while-All (x ∷ xs) ys d (q, h) n = rw q (drop_while-All xs ys d h n)

  take_while-end : (xs : Text) → All (λ c. p c ≡ true) xs → take_while p xs ≡ xs
  unfolding take_while
  take_while-end [] h = refl
  take_while-end (x ∷ xs) (q, h) = rw q (ap (λ r. x ∷ r) (take_while-end xs h))

  drop_while-end : (xs : Text) → All (λ c. p c ≡ true) xs → drop_while p xs ≡ []
  unfolding drop_while
  drop_while-end [] h = refl
  drop_while-end (x ∷ xs) (q, h) = rw q (drop_while-end xs h)

upper_letters : (e : Text) → All (λ c. is_upper c ≡ true) e → All (λ c. is_letter c ≡ true) e
unfolding is_letter is_ascii_letter
upper_letters e h = All-map _ _ e (λ c q. ground arith) h

digit_chars : (n : ℕ) → All (λ c. is_digit c ≡ true) (decimal n)
unfolding is_digit
digit_chars n = All-map _ _ (decimal n) (λ c q. ground arith) (decimal-digits n)

letter_upper-id : (e : Text) → All (λ c. is_upper c ≡ true) e → map letter_upper e ≡ e
unfolding letter_upper ascii_upper
letter_upper-id [] h = refl
letter_upper-id (c ∷ e) (q, h) = rw (letter_upper-id e h) (ap (λ d. d ∷ e) (ground arith))

close_body_intro :
    (inner e ds : Text)
    → 1 ≤ length e
    → 1 ≤ length ds
    → close_body inner e ds [] ≡ some (record { etype = e; number = ds; inner = inner })
unfolding close_body
close_body_intro inner [] ds h k = absurd (omega arith)
close_body_intro inner (c ∷ e) [] h k = absurd (omega arith)
close_body_intro inner (c ∷ e) (d ∷ ds) h k = refl

joint_not_letter : is_letter b'_' ≡ false
unfolding is_letter is_ascii_letter
joint_not_letter = refl

joint_skipped : (s : Text) → skip_joint (b'_' ∷ s) ≡ s
unfolding skip_joint
joint_skipped s = refl

no_space_left : drop_while is_space [] ≡ []
unfolding drop_while
no_space_left = refl

match_groups_intro :
    (inner e : Text) (n : ℕ)
    → IsType e
    → match_groups inner (e ++ b'_' ∷ decimal n)
      ≡ some (record { etype = e; number = decimal n; inner = inner })
unfolding match_groups
match_groups_intro inner e n t =
    let letters = upper_letters e t.letters in
    rw
      (
        take_while-All is_letter e (decimal n) b'_' letters joint_not_letter,
        drop_while-All is_letter e (decimal n) b'_' letters joint_not_letter,
        joint_skipped (decimal n),
        take_while-end is_digit (decimal n) (digit_chars n),
        drop_while-end is_digit (decimal n) (digit_chars n),
        no_space_left,
      )
      (close_body_intro inner e (decimal n) t.nonempty (decimal-nonempty n))

match_body_key : (e : Text) (n : ℕ) → IsType e → match_body (hit e n).inner ≡ some (hit e n)
unfolding match_body drop_while is_space skip_dcy ascii_upper skip_joint
match_body_key e n t = match_groups_intro (hit e n).inner e n t

pub key-whole : (e : Text) (n : ℕ) → key e n ≡ whole (hit e n)
key-whole e n = simp append_assoc

not_close : (p : ℕ → Bool) → p b']' ≡ false → (s : Text) → All (λ c. p c ≡ true) s → Lacks b']' s
not_close p n s h = All-map _ _ s (λ c q r. absurd (cc)) h

inner-Lacks : (e : Text) (n : ℕ) → IsType e → Lacks b']' (hit e n).inner
inner-Lacks e n t =
    All-append _ (codes "DCY_") (e ++ b'_' ∷ decimal n)
      (λ q. omega arith, (λ q. omega arith, (λ q. omega arith, (λ q. omega arith, tt))))
      (All-append _ e (b'_' ∷ decimal n) (not_close is_upper refl e t.letters)
        (λ q. omega arith, not_close (within b'0' b'9') refl (decimal n) (decimal-digits n)))

-- A placeholder is matched whole, whatever follows it.
pub match_at-key :
    (e : Text) (n : ℕ) (rest : Text) → IsType e → match_at (key e n ++ rest) ≡ some (hit e n)
match_at-key e n rest t =
    ap (λ k. match_at (k ++ rest)) (key-whole e n)
    ∙ match_at_intro (hit e n) rest (inner-Lacks e n t) (match_body_key e n t)

pub key-injective :
    (e f : Text) (m n : ℕ) → IsType e → IsType f → key e m ≡ key f n → (e ≡ f) × (m ≡ n)
key-injective e f m n te tf same =
    let hits : some (hit e m) ≡ some (hit f n) =
      sym (match_at-key e m [] te) ∙ ap (λ k. match_at (k ++ [])) same ∙ match_at-key f n [] tf in
    (cc (hits), decimal-injective m n (cc (hits)))

-- The reverse matcher looks up the placeholder that it has matched.
pub hit-key :
    (e : Text) (n : ℕ)
    → IsType e
    → placeholder (map letter_upper (hit e n).etype) (hit e n).number ≡ key e n
hit-key e n t = rw (letter_upper-id e t.letters) refl
