-- ===== src/Pii/Anonymizer/Order.antt =====
-- The order in which `anonymize` replaces its spans: from the last to the first, each before the one
-- replaced last.
use decyra_api.Common.{
  ℕ, ◌≤◌, ◌<◌, ◌≡◌, Bool, true, List, [], ◌∷◌, ◌++◌, arith, All, All-append, all, Bool-cases, inl,
  inr,
}
use decyra_api.Pii.Spans.{Span, insert, sorted, before, apart, choose, resolve_overlaps}
use decyra_api.Pii.Spans.Overlaps.{AreApart, resolve_overlaps-AreApart}
use decyra_api.Pii.Anonymizer.{starts_after}

-- The span is a part of the text, not empty.
pub record IsWithin (len : ℕ) (s : Span) : Type 0 where
  pub nonempty : s.start < s.end
  pub inside : s.end ≤ len

-- Each span ends where the one before it starts, or earlier.
abbrev pub Descends : ℕ → List Span → Type 0
Descends bound [] = Unit
Descends bound (s ∷ ss) = IsWithin bound s × Descends s.start ss

module _ {A : Type 0} (P : A → Type 0) (le : A → A → Bool) where
  insert-All : (x : A) (xs : List A) → P x → All P xs → All P (insert le x xs)
  unfolding insert
  insert-All x [] p h = (p, tt)
  insert-All x (y ∷ ys) p (q, h) = elim (Bool-cases (le x y)) [
    | inl e ↦ rw e (p, (q, h))
    | inr e ↦ rw e (q, insert-All x ys p h)
  ]

  pub sorted-All : (xs : List A) → All P xs → All P (sorted le xs)
  unfolding sorted
  sorted-All [] h = tt
  sorted-All (x ∷ xs) (p, h) = insert-All x (sorted le xs) p (sorted-All xs h)

module _ (P : Span → Type 0) where
  choose-All : (chosen ss : List Span) → All P chosen → All P ss → All P (choose chosen ss)
  unfolding choose
  choose-All chosen [] h _ = h
  choose-All chosen (s ∷ ss) h (p, q) = elim (Bool-cases (all (apart s) chosen)) [
    | inl e ↦ rw e (choose-All (chosen ++ s ∷ []) ss (All-append P chosen (s ∷ []) h (p, tt)) q)
    | inr e ↦ rw e (choose-All chosen ss h q)
  ]

  resolve_overlaps-All : (spans : List Span) → All P spans → All P (resolve_overlaps spans)
  unfolding resolve_overlaps
  resolve_overlaps-All spans h =
      choose-All [] (sorted before spans) tt (sorted-All P before spans h)

insert-Descends :
    (bound : ℕ) (s : Span) (ss : List Span)
    → IsWithin bound s
    → All (λ (c : Span). apart s c ≡ true) ss
    → Descends bound ss
    → Descends bound (insert starts_after s ss)
unfolding insert
insert-Descends bound s [] w _ _ = (w, tt)
insert-Descends bound s (c ∷ ss) w (first, others) (v, rest) =
    elim (Bool-cases (starts_after s c)) [
      | inl e ↦
          let below : c.end ≤ s.start = ground (arith, first, e, w.nonempty, v.nonempty) in
          rw e (w, (record { nonempty = v.nonempty; inside = below }, rest))
      | inr e ↦
          let below : s.end ≤ c.start = ground (arith, first, e, w.nonempty, v.nonempty) in
          rw e (
            v,
            insert-Descends c.start s ss (record { nonempty = w.nonempty; inside = below }) others
                rest,
          )
    ]

sorted-Descends :
    (bound : ℕ) (ss : List Span)
    → All (IsWithin bound) ss
    → AreApart ss
    → Descends bound (sorted starts_after ss)
unfolding sorted
sorted-Descends bound [] _ _ = tt
sorted-Descends bound (s ∷ ss) (w, ws) (first, others) =
    insert-Descends bound s (sorted starts_after ss) w
      (sorted-All (λ (c : Span). apart s c ≡ true) starts_after ss first)
      (sorted-Descends bound ss ws others)

pub resolved-Descends :
    (bound : ℕ) (spans : List Span)
    → All (IsWithin bound) spans
    → Descends bound (sorted starts_after (resolve_overlaps spans))
resolved-Descends bound spans h =
    sorted-Descends bound (resolve_overlaps spans) (resolve_overlaps-All (IsWithin bound) spans h)
      (resolve_overlaps-AreApart spans)
