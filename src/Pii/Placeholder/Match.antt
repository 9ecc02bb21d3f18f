-- ===== src/Pii/Placeholder/Match.antt =====
-- What a match of `_PLACEHOLDER_RE` is: the brackets, and a body that holds no bracket.
use decyra_api.Common.{
  ℕ, ◌≡◌, ◌≢◌, refl, Bool, false, some, [], ◌∷◌, ◌++◌, ◌==◌, nat_eq, arith, All, Bool-cases,
  Option-cases, inl, inr, ap, ◌∙◌, append_assoc,
}
use decyra_api.Common.Text.{Text, is_space, is_digit, is_ascii_letter, ascii_upper}
use decyra_api.Pii.Placeholder.{
  Hit, is_letter, drop_while, skip_joint, skip_dcy, close_body, match_groups, match_body,
  until_close, match_at, whole,
}

abbrev pub Lacks : ℕ → Text → Type 0
Lacks b = All (λ c. c ≢ b)

module _ (b : ℕ) where
  drop_while-Lacks : (p : ℕ → Bool) (s : Text) → p b ≡ false → Lacks b (drop_while p s) → Lacks b s
  unfolding drop_while
  drop_while-Lacks p [] pb h = tt
  drop_while-Lacks p (c ∷ s) pb h = elim (Bool-cases (p c)) [
    | inl e ↦ (λ q. cc, drop_while-Lacks p s pb (rw e at h))
    | inr e ↦ rw e at h
  ]

  skip_joint-Lacks : (s : Text) → b ≢ b'_' → b ≢ b' ' → Lacks b (skip_joint s) → Lacks b s
  unfolding skip_joint
  skip_joint-Lacks [] n m h = tt
  skip_joint-Lacks (c ∷ s) n m h = ground arith

open_not_space : is_space b'[' ≡ false
unfolding is_space
open_not_space = refl

open_not_digit : is_digit b'[' ≡ false
unfolding is_digit
open_not_digit = refl

open_not_letter : is_letter b'[' ≡ false
unfolding is_letter is_ascii_letter
open_not_letter = refl

skip_dcy-Lacks : (s : Text) {t : Text} → skip_dcy s ≡ some t → Lacks b'[' t → Lacks b'[' s
unfolding skip_dcy ascii_upper
skip_dcy-Lacks [] h l = cc
skip_dcy-Lacks (_ ∷ []) h l = cc
skip_dcy-Lacks (_ ∷ _ ∷ []) h l = cc
skip_dcy-Lacks (x ∷ y ∷ z ∷ s) {t} h l = ground arith

close_body_nil :
    (inner etype number tail : Text) {h : Hit}
    → close_body inner etype number tail ≡ some h
    → (tail ≡ []) × (h.inner ≡ inner)
unfolding close_body
close_body_nil inner (l ∷ ls) (d ∷ ds) [] e = (refl, cc)
close_body_nil inner [] number tail e = cc
close_body_nil inner (l ∷ ls) [] tail e = cc
close_body_nil inner (l ∷ ls) (d ∷ ds) (t ∷ ts) e = cc

match_groups-Lacks :
    (inner t : Text) {h : Hit} → match_groups inner t ≡ some h → Lacks b'[' t × (h.inner ≡ inner)
unfolding match_groups
match_groups-Lacks inner t e =
    let s = skip_joint (drop_while is_letter t) in
    let (ended, same) = close_body_nil inner _ _ _ e in
    let no_tail : Lacks b'[' (drop_while is_space (drop_while is_digit s)) = rw ended tt in
    let no_number =
      drop_while-Lacks b'[' _ _ open_not_digit (drop_while-Lacks b'[' _ _ open_not_space no_tail) in
    (
      drop_while-Lacks b'[' _ _ open_not_letter
          (skip_joint-Lacks b'[' _ (omega arith) (omega arith) no_number),
      same,
    )

match_body-Lacks :
    (inner : Text) {h : Hit} → match_body inner ≡ some h → Lacks b'[' inner × (h.inner ≡ inner)
unfolding match_body
match_body-Lacks inner {h} e = elim (Option-cases (skip_dcy (drop_while is_space inner))) [
  | inl n ↦ absurd (ground (arith, n, e))
  | inr (s, n) ↦
      let (no_rest, same) = match_groups-Lacks inner (skip_joint s) (rw (n, match_body) at e) in
      (
        drop_while-Lacks b'[' _ _ open_not_space
            (skip_dcy-Lacks _ n (skip_joint-Lacks b'[' s (omega arith) (omega arith) no_rest)),
        same,
      )
]

until_close-Lacks : (s : Text) {u : Text} → until_close s ≡ some u → Lacks b']' u
unfolding until_close
until_close-Lacks [] h = cc
until_close-Lacks (c ∷ []) h = cc
until_close-Lacks (c ∷ d ∷ s) {u} h = elim (Option-cases (until_close (d ∷ s))) [
  | inl e ↦ ground (arith, e)
  | inr (v, e) ↦ ground (arith, until_close-Lacks (d ∷ s) e)
]

until_close-append :
    (s : Text) {u : Text} → until_close s ≡ some u → (r : Text) × (s ≡ u ++ b']' ∷ b']' ∷ r)
unfolding until_close
until_close-append [] h = cc
until_close-append (c ∷ []) h = cc
until_close-append (c ∷ d ∷ s) {u} h = elim (Option-cases (until_close (d ∷ s))) [
  | inl e ↦ (s, ground arith)
  | inr (v, e) ↦ elim (Bool-cases (c == b']')) [
    | inl close ↦ (s, ground (arith, e))
    | inr other ↦
        let (r, q) = until_close-append (d ∷ s) e in
        (r, ground (arith, e, q, append_assoc (c ∷ []) v (b']' ∷ b']' ∷ r)))
  ]
]

until_close_intro : (u r : Text) → Lacks b']' u → until_close (u ++ b']' ∷ b']' ∷ r) ≡ some u
unfolding until_close
until_close_intro [] r _ = refl
until_close_intro (c ∷ []) r (n, _) = ground arith
until_close_intro (c ∷ d ∷ u) r (n, l) = ground (arith, until_close_intro (d ∷ u) r l)

-- A match at the head of a text, taken apart.
pub record IsMatch (s : Text) (h : Hit) : Type 0 where
  pub rest : Text
  pub spelled : s ≡ whole h ++ rest
  pub no_open : Lacks b'[' h.inner
  pub no_close : Lacks b']' h.inner
  pub body : match_body h.inner ≡ some h

match_at-IsMatch_of :
    (x y : ℕ) (s u : Text) {h : Hit}
    → until_close s ≡ some u
    → match_at (x ∷ y ∷ s) ≡ some h
    → IsMatch (x ∷ y ∷ s) h
unfolding match_at
match_at-IsMatch_of x y s u {h} n e =
    let parts : (x ≡ b'[') × (y ≡ b'[') × (match_body u ≡ some h) = ground (arith, n) in
    let (no_open, same) = match_body-Lacks u parts.2 in
    let (rest, spelled) = until_close-append s n in
    record {
      rest = rest;
      spelled = simp (parts.0, parts.1, spelled, same, append_assoc);
      no_open = rw same no_open;
      no_close = rw same (until_close-Lacks s n);
      body = ap match_body same ∙ parts.2;
    }

pub match_at-IsMatch : (s : Text) {h : Hit} → match_at s ≡ some h → IsMatch s h
unfolding match_at
match_at-IsMatch [] e = cc
match_at-IsMatch (_ ∷ []) e = cc
match_at-IsMatch (x ∷ y ∷ s) {h} e = elim (Option-cases (until_close s)) [
  | inl n ↦ absurd (ground (arith, n))
  | inr (u, n) ↦ match_at-IsMatch_of x y s u n e
]

-- The brackets around a body that matches are a match, whatever follows.
pub match_at_intro :
    (h : Hit) (rest : Text)
    → Lacks b']' h.inner
    → match_body h.inner ≡ some h
    → match_at (whole h ++ rest) ≡ some h
unfolding match_at
match_at_intro h rest l e = rw append_assoc (rw (until_close_intro h.inner rest l) e)
