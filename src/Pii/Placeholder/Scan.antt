-- ===== src/Pii/Placeholder/Scan.antt =====
-- `re.sub` over a text in two parts: where no match crosses the cut, the parts can be replaced apart.
use decyra_api.Common.{
  ℕ, zero, suc, ◌+◌, ◌≤◌, ◌≡◌, refl, ap, none, some, [], ◌∷◌, ◌++◌, append_assoc, arith, inl, inr,
  length, length-append, Option-cases,
}
use decyra_api.Common.Text.{Text}
use decyra_api.Pii.Placeholder.{Hit, match_at, whole, Mapping, replace, scan, deanonymize}
use decyra_api.Pii.Placeholder.Match.{match_at-IsMatch, match_at_intro}

-- No match begins in the first part and ends in the second.
abbrev pub NoStraddle : Text → Text → Type 0
NoStraddle [] y = Unit
NoStraddle (c ∷ x) y = (match_at (c ∷ x) ≡ none → match_at (c ∷ (x ++ y)) ≡ none) × NoStraddle x y

pub match_at-append : (x y : Text) {h : Hit} → match_at x ≡ some h → match_at (x ++ y) ≡ some h
match_at-append x y {h} e =
    let m = match_at-IsMatch x e in
    rw (m.spelled, append_assoc) (match_at_intro h (m.rest ++ y) m.no_close m.body)

pub length-whole : (h : Hit) → length (whole h) ≡ length h.inner + 4
length-whole h = omega (arith, length-append h.inner (b']' ∷ b']' ∷ []))

pub length-match_at : (x : Text) {h : Hit} → match_at x ≡ some h → length (whole h) ≤ length x
length-match_at x {h} e =
    let m = match_at-IsMatch x e in
    omega (arith, ap length m.spelled, length-append (whole h) m.rest)

module _ (m : Mapping) where
  pub scan_hit :
      (c : ℕ) (s : Text) {h : Hit}
      → match_at (c ∷ s) ≡ some h
      → scan m zero (c ∷ s) ≡ replace m h ++ scan m (length h.inner + 3) s
  unfolding scan
  scan_hit c s e = rw (e, scan)

  pub scan_miss :
      (c : ℕ) (s : Text) → match_at (c ∷ s) ≡ none → scan m zero (c ∷ s) ≡ c ∷ scan m zero s
  unfolding scan
  scan_miss c s e = rw (e, scan)

  scan_skip : (k c : ℕ) (s : Text) → scan m (suc k) (c ∷ s) ≡ scan m k s
  unfolding scan
  scan_skip k c s = refl

  pub scan-nil : (k : ℕ) → scan m k [] ≡ []
  unfolding scan
  scan-nil k = refl

  pub scan-append :
      (k : ℕ) (x y : Text)
      → k ≤ length x
      → NoStraddle x y
      → scan m k (x ++ y) ≡ scan m k x ++ scan m zero y
  scan-append zero [] y fits _ = rw scan-nil
  scan-append (suc k) [] y fits _ = absurd (omega arith)
  scan-append (suc k) (c ∷ x) y fits (_, apart) =
      rw (scan_skip k c x, scan_skip k c (x ++ y)) (scan-append k x y (omega arith) apart)
  scan-append zero (c ∷ x) y fits (first, apart) = elim (Option-cases (match_at (c ∷ x))) [
    | inl n ↦
        rw (scan_miss c x n, scan_miss c (x ++ y) (first n))
          (ap (λ r. c ∷ r) (scan-append zero x y (omega arith) apart))
    | inr (h, e) ↦
        rw (scan_hit c x e, scan_hit c (x ++ y) (match_at-append (c ∷ x) y e), append_assoc)
          (ap (λ r. replace m h ++ r)
            (scan-append (length h.inner + 3) x y
              (omega (arith, length-match_at (c ∷ x) e, length-whole h)) apart))
  ]

  pub deanonymize-append :
      (x y : Text) → NoStraddle x y → deanonymize m (x ++ y) ≡ deanonymize m x ++ deanonymize m y
  unfolding deanonymize
  deanonymize-append x y = scan-append zero x y (omega arith)
