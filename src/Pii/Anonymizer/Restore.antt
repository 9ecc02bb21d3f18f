-- ===== src/Pii/Anonymizer/Restore.antt =====
-- `anonymize` keeps what is needed to undo it, span by span.
use decyra_api.Common.{
  ℕ, zero, suc, ◌-◌, ◌≤◌, ◌≡◌, refl, sym, ap, ◌∙◌, List, [], ◌∷◌, ◌++◌, append_assoc, append-nil,
  arith, nat_eq, length, length-append, length-take, length-drop, take, drop, take-append,
  take-append-drop, drop-append, All,
}
use decyra_api.Common.Text.{Text}
use decyra_api.Common.Split.{Free}
use decyra_api.Pii.Spans.{Span, sorted, resolve_overlaps}
use decyra_api.Pii.Anonymizer.{
  Anonymizer, placeholder_for, slice, replace_spans, starts_after, anonymize,
}
use decyra_api.Pii.Anonymizer.Issue.{IsIssued, Extends, placeholder_for-Step}
use decyra_api.Pii.Anonymizer.Order.{IsWithin, Descends, resolved-Descends}
use decyra_api.Pii.Anonymizer.RoundTrip.{Encodes, done, hidden, Encodes-Extends, Encodes-Free}

-- What anonymising leaves: the text is found again under the mapping, which has only grown.
pub record Restores (a : Anonymizer) (original : Text) (r : Text × Anonymizer) : Type 0 where
  pub issued : IsIssued r.1
  pub grows : Extends a.ph_to_value r.1.ph_to_value
  pub encodes : Encodes r.1.ph_to_value r.0 original

module _ (x v b t : Text) where
  take_first : take (length x) (((x ++ v) ++ b) ++ t) ≡ x
  take_first = ap (take (length x)) (simp append_assoc) ∙ take-append x (v ++ (b ++ t))

  slice_middle : slice (((x ++ v) ++ b) ++ t) (length x) (length (x ++ v)) ≡ v
  slice_middle =
      ap (λ k. take (length (x ++ v) - length x) (drop (length x) k)) (simp append_assoc)
      ∙ ap (take (length (x ++ v) - length x)) (drop-append x (v ++ (b ++ t)))
      ∙ ap (λ n. take n (v ++ (b ++ t))) (omega (arith, length-append x v))
      ∙ take-append v (b ++ t)

  drop_last : drop (length (x ++ v)) (((x ++ v) ++ b) ++ t) ≡ b ++ t
  drop_last = ap (drop (length (x ++ v))) (simp append_assoc) ∙ drop-append (x ++ v) (b ++ t)

-- One turn of the loop, on a text cut at the ends of its span.
module _ (a : Anonymizer) (s : Span) (ss : List Span) (x v b t : Text)
    (at_start : s.start ≡ length x) (at_end : s.end ≡ length (x ++ v)) where
  replace_spans-cons :
      replace_spans a (((x ++ v) ++ b) ++ t) (s ∷ ss)
      ≡ replace_spans
          (placeholder_for a v s.entity_type).1
          (x ++ ((placeholder_for a v s.entity_type).0 ++ (b ++ t)))
          ss
  unfolding replace_spans
  replace_spans-cons =
      rw
        (
          at_start,
          at_end,
          slice_middle x v b t,
          take_first x v b t,
          drop_last x v b t,
          append_assoc,
        )
        refl

module _ {a : Anonymizer} {x y : Text} {r q : Text × Anonymizer} where
  Restores-along : x ≡ y → r ≡ q → Restores a x r → Restores a y q
  Restores-along e f h = rw (sym e, sym f) h

Restores-after :
    {a b : Anonymizer} {x : Text} {r : Text × Anonymizer}
    → Extends a.ph_to_value b.ph_to_value
    → Restores b x r
    → Restores a x r
Restores-after g h = record {
  issued = h.issued;
  grows = λ ph v e. h.grows ph v (g ph v e);
  encodes = h.encodes;
}

-- A text cut at the ends of a span inside it.
module _ (p : Text) (from to : ℕ) (order : from ≤ to) (fits : to ≤ length p) where
  cut : p ≡ (take from p ++ take (to - from) (drop from p)) ++ drop (to - from) (drop from p)
  cut = sym (
      append_assoc (take from p) (take (to - from) (drop from p)) (drop (to - from) (drop from p))
      ∙ ap (λ r. take from p ++ r) (take-append-drop (to - from) (drop from p))
      ∙ take-append-drop from p)

  cut_start : from ≡ length (take from p)
  cut_start = omega (arith, length-take from p)

  cut_end : to ≡ length (take from p ++ take (to - from) (drop from p))
  cut_end = omega (
    arith,
    length-append (take from p) (take (to - from) (drop from p)),
    length-take from p,
    length-take (to - from) (drop from p),
    length-drop from p,
  )

All-take : {A : Type 0} (P : A → Type 0) (n : ℕ) (xs : List A) → All P xs → All P (take n xs)
All-take P zero xs h = tt
All-take P (suc n) [] h = tt
All-take P (suc n) (x ∷ xs) (p, h) = (p, All-take P n xs h)

All-drop : {A : Type 0} (P : A → Type 0) (n : ℕ) (xs : List A) → All P xs → All P (drop n xs)
All-drop P zero xs h = h
All-drop P (suc n) [] h = tt
All-drop P (suc n) (x ∷ xs) (p, h) = All-drop P n xs h

replace_spans-nil : (a : Anonymizer) (text : Text) → (text, a) ≡ replace_spans a text []
unfolding replace_spans
replace_spans-nil a text = refl

original_parts : (x v b o : Text) → x ++ (v ++ (b ++ o)) ≡ ((x ++ v) ++ b) ++ o
original_parts x v b o = simp append_assoc

Descends-along : {m n : ℕ} (ss : List Span) → m ≡ n → Descends m ss → Descends n ss
Descends-along ss e h = rw (sym e) h

-- The loop of `anonymize`, on a text whose end is anonymised already.
replace_spans-Restores :
    (a : Anonymizer) (ss : List Span) (p t o : Text)
    → IsIssued a
    → Encodes a.ph_to_value t o
    → Free b'[' p
    → Descends (length p) ss
    → Restores a (p ++ o) (replace_spans a (p ++ t) ss)
replace_spans-Restores a [] p t o issued coded free _ =
    Restores-along refl (replace_spans-nil a (p ++ t))
      (record { issued = issued; grows = λ ph v e. e; encodes = Encodes-Free p free coded })
replace_spans-Restores a (s ∷ ss) p t o issued coded free (within, rest) =
    let order : s.start ≤ s.end = omega (arith, within.nonempty) in
    let e = cut p s.start s.end order within.inside in
    let x = take s.start p in
    let v = take (s.end - s.start) (drop s.start p) in
    let b = drop (s.end - s.start) (drop s.start p) in
    let here = cut_start p s.start s.end order within.inside in
    let step = placeholder_for-Step a v s.entity_type issued in
    let free_b : Free b'[' b =
      All-drop _ (s.end - s.start) (drop s.start p) (All-drop _ s.start p free) in
    let later =
      replace_spans-Restores (placeholder_for a v s.entity_type).1 ss x
        ((placeholder_for a v s.entity_type).0 ++ (b ++ t)) (v ++ (b ++ o)) step.issued
        (hidden v (placeholder_for a v s.entity_type).0 step.names
          (Encodes-Free b free_b (Encodes-Extends step.grows coded)))
        (All-take _ s.start p free) (Descends-along ss here rest) in
    Restores-along (original_parts x v b o ∙ ap (λ k. k ++ o) (sym e))
      (sym (
        ap (λ k. replace_spans a (k ++ t) (s ∷ ss)) e
        ∙ replace_spans-cons a s ss x v b t here (cut_end p s.start s.end order within.inside)))
      (Restores-after step.grows later)

pub anonymize-Restores :
    (a : Anonymizer) (text : Text) (spans : List Span)
    → IsIssued a
    → Free b'[' text
    → All (IsWithin (length text)) spans
    → Restores a text (anonymize a text spans)
unfolding anonymize
anonymize-Restores a text spans issued free within =
    Restores-along (append-nil text)
      (ap (λ k. replace_spans a k (sorted starts_after (resolve_overlaps spans))) (append-nil text))
      (replace_spans-Restores a (sorted starts_after (resolve_overlaps spans)) text [] [] issued
        done free (resolved-Descends (length text) spans within))
