-- ===== src/Pii/Anonymizer/RoundTrip.antt =====
-- De-anonymising an anonymised text gives the text back.
use decyra_api.Common.{
  ℕ, zero, ◌≡◌, refl, sym, ap, ◌∙◌, false, none, some, [], ◌∷◌, ◌++◌, arith, map, ◌==◌, nat_eq,
  list_eq, length, lookup, length-append,
}
use decyra_api.Common.Text.{Text}
use decyra_api.Common.Split.{Free}
use decyra_api.Pii.Placeholder.{
  letter_upper, Hit, Mapping, match_at, whole, replace, scan, deanonymize, placeholder,
}
use decyra_api.Pii.Placeholder.Scan.{scan_hit, scan_miss, scan-nil}
use decyra_api.Pii.Anonymizer.Keys.{IsType, key, hit, match_at-key, hit-key, key-whole}
use decyra_api.Pii.Anonymizer.Issue.{Names, Names-Extends, Extends}

-- A text in which placeholders of the mapping stand for values, and the text with the values.
pub data Encodes (m : Mapping) : Text → Text → Type 0 where
  done : Encodes m [] []
  plain : (c : ℕ) {x y : Text} → (c == b'[') ≡ false → Encodes m x y → Encodes m (c ∷ x) (c ∷ y)
  hidden : (v ph : Text) {x y : Text} → Names m v ph → Encodes m x y → Encodes m (ph ++ x) (v ++ y)

pub Encodes-Extends : {m m' : Mapping} {x y : Text} → Extends m m' → Encodes m x y → Encodes m' x y
Encodes-Extends g done = done
Encodes-Extends g (plain c n h) = plain c n (Encodes-Extends g h)
Encodes-Extends g (hidden v ph n h) = hidden v ph (Names-Extends g n) (Encodes-Extends g h)

pub Encodes-Free :
    {m : Mapping} (p : Text) {x y : Text}
    → Free b'[' p
    → Encodes m x y
    → Encodes m (p ++ x) (p ++ y)
Encodes-Free [] f h = h
Encodes-Free (c ∷ p) (n, f) h = plain c n (Encodes-Free p f h)

no_match : (c : ℕ) (s : Text) → (c == b'[') ≡ false → match_at (c ∷ s) ≡ none
unfolding match_at
no_match c [] n = refl
no_match c (d ∷ s) n = rw n refl

module _ (m : Mapping) where
  scan_skip : (p x : Text) → scan m (length p) (p ++ x) ≡ scan m zero x
  unfolding scan
  scan_skip [] x = refl
  scan_skip (c ∷ p) x = scan_skip p x

  replace-Names :
      (e : Text) (n : ℕ) (v : Text)
      → IsType e
      → lookup (key e n) m ≡ some v
      → replace m (hit e n) ≡ v
  unfolding replace
  replace-Names e n v t h =
      let found : lookup (placeholder (map letter_upper (hit e n).etype) (hit e n).number) m
          ≡ some v =
        ap (λ k. lookup k m) (hit-key e n t) ∙ h in
      rw (found, replace) refl

  scan-whole :
      (h : Hit) (rest : Text)
      → match_at (whole h ++ rest) ≡ some h
      → scan m zero (whole h ++ rest) ≡ replace m h ++ scan m zero rest
  scan-whole h rest e =
      scan_hit m b'[' (b'[' ∷ ((h.inner ++ b']' ∷ b']' ∷ []) ++ rest)) e
      ∙ ap (λ r. replace m h ++ r)
          (ap (λ k. scan m k (b'[' ∷ ((h.inner ++ b']' ∷ b']' ∷ []) ++ rest)))
              (omega (arith, length-append h.inner (b']' ∷ b']' ∷ [])))
            ∙ scan_skip (b'[' ∷ (h.inner ++ b']' ∷ b']' ∷ [])) rest)

  scan-Names : (v ph rest : Text) → Names m v ph → scan m zero (ph ++ rest) ≡ v ++ scan m zero rest
  scan-Names v ph rest n =
      let w = key-whole n.etype n.number in
      ap (λ k. scan m zero (k ++ rest)) (n.spelled ∙ w)
      ∙ scan-whole (hit n.etype n.number) rest
          (ap (λ k. match_at (k ++ rest)) (sym w) ∙ match_at-key n.etype n.number rest n.is_type)
      ∙ ap (λ r. r ++ scan m zero rest)
          (replace-Names n.etype n.number v n.is_type
            (ap (λ k. lookup k m) (sym n.spelled) ∙ n.bound))

  scan-Encodes : {x y : Text} → Encodes m x y → scan m zero x ≡ y
  scan-Encodes done = scan-nil m zero
  scan-Encodes (plain c {x} {y} n h) =
      scan_miss m c x (no_match c x n) ∙ ap (λ r. c ∷ r) (scan-Encodes h)
  scan-Encodes (hidden v ph {x} {y} n h) = scan-Names v ph x n ∙ ap (λ r. v ++ r) (scan-Encodes h)

-- `[[` opens no placeholder of the text's own.
pub deanonymize-Encodes : (m : Mapping) {x y : Text} → Encodes m x y → deanonymize m x ≡ y
unfolding deanonymize
deanonymize-Encodes m h = scan-Encodes m h
