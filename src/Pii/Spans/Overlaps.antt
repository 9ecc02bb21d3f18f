-- ===== src/Pii/Spans/Overlaps.antt =====
-- What `_resolve_overlaps` keeps: spans that do not overlap, and one for each span that it was given.
use decyra_api.Common.{
  ◌<◌, ◌≡◌, refl, sym, ◌∙◌, inl, inr, Bool, true, false, not, List, [], ◌∷◌, ◌++◌, arith, All,
  All-append, all, any, Bool-cases,
}
use decyra_api.Pii.Spans.{Span, insert, sorted, before, apart, choose, resolve_overlaps}

-- No two of the spans overlap.
abbrev pub AreApart : List Span → Type 0
AreApart [] = Unit
AreApart (s ∷ ss) = All (λ (c : Span). apart s c ≡ true) ss × AreApart ss

-- The span is not empty only if it shares a character with one of the others.
abbrev pub Meets : List Span → Span → Type 0
Meets chosen s = s.start < s.end → any (λ (c : Span). not (apart s c)) chosen ≡ true

apart_comm : (s c : Span) → apart s c ≡ apart c s
apart_comm s c = ground arith

AreApart-append :
    (chosen : List Span) (s : Span)
    → AreApart chosen
    → all (apart s) chosen ≡ true
    → AreApart (chosen ++ s ∷ [])
AreApart-append [] s _ h = (tt, tt)
AreApart-append (c ∷ chosen) s (p, q) h =
    let first : apart c s ≡ true = apart_comm c s ∙ ground arith in
    let later : all (apart s) chosen ≡ true = ground arith in
    (
      All-append (λ (d : Span). apart c d ≡ true) chosen (s ∷ []) p (first, tt),
      AreApart-append chosen s q later,
    )

choose-AreApart : (chosen ss : List Span) → AreApart chosen → AreApart (choose chosen ss)
unfolding choose
choose-AreApart chosen [] h = h
choose-AreApart chosen (s ∷ ss) h = elim (Bool-cases (all (apart s) chosen)) [
  | inl e ↦ rw e (choose-AreApart (chosen ++ s ∷ []) ss (AreApart-append chosen s h e))
  | inr e ↦ rw e (choose-AreApart chosen ss h)
]

-- No two of the spans that are replaced overlap.
pub resolve_overlaps-AreApart : (spans : List Span) → AreApart (resolve_overlaps spans)
unfolding resolve_overlaps
resolve_overlaps-AreApart spans = choose-AreApart [] (sorted before spans) tt

module _ (p : Span → Bool) where
  any-append_left : (xs ys : List Span) → any p xs ≡ true → any p (xs ++ ys) ≡ true
  any-append_left [] ys h = cc
  any-append_left (x ∷ xs) ys h = ground (arith, any-append_left xs ys)

  any-append_last : (xs : List Span) (s : Span) → p s ≡ true → any p (xs ++ s ∷ []) ≡ true
  any-append_last [] s h = ground arith
  any-append_last (x ∷ xs) s h = ground (arith, any-append_last xs s)

  any-choose : (chosen ss : List Span) → any p chosen ≡ true → any p (choose chosen ss) ≡ true
  unfolding choose
  any-choose chosen [] h = h
  any-choose chosen (s ∷ ss) h = elim (Bool-cases (all (apart s) chosen)) [
    | inl e ↦ rw e (any-choose (chosen ++ s ∷ []) ss (any-append_left chosen (s ∷ []) h))
    | inr e ↦ rw e (any-choose chosen ss h)
  ]

some_overlap :
    (s : Span) (chosen : List Span)
    → all (apart s) chosen ≡ false
    → any (λ (c : Span). not (apart s c)) chosen ≡ true
some_overlap s [] h = cc
some_overlap s (c ∷ chosen) h = ground (arith, some_overlap s chosen)

choose_kept :
    (chosen : List Span) (s : Span) (ss : List Span)
    → all (apart s) chosen ≡ true
    → choose chosen (s ∷ ss) ≡ choose (chosen ++ s ∷ []) ss
unfolding choose
choose_kept chosen s ss e = rw e refl

choose_dropped :
    (chosen : List Span) (s : Span) (ss : List Span)
    → all (apart s) chosen ≡ false
    → choose chosen (s ∷ ss) ≡ choose chosen ss
unfolding choose
choose_dropped chosen s ss e = rw e refl

All-Meets_along :
    {xs ys : List Span} (ss : List Span) → xs ≡ ys → All (Meets ys) ss → All (Meets xs) ss
All-Meets_along ss e h = rw e h

choose-Meets : (chosen ss : List Span) → All (Meets (choose chosen ss)) ss
choose-Meets chosen [] = tt
choose-Meets chosen (s ∷ ss) = elim (Bool-cases (all (apart s) chosen)) [
  | inl e ↦ All-Meets_along (s ∷ ss) (choose_kept chosen s ss e) (
    λ h.
        any-choose (λ (c : Span). not (apart s c)) (chosen ++ s ∷ []) ss
          (any-append_last (λ (c : Span). not (apart s c)) chosen s (ground arith)),
    choose-Meets (chosen ++ s ∷ []) ss,
  )
  | inr e ↦ All-Meets_along (s ∷ ss) (choose_dropped chosen s ss e) (
    λ h. any-choose (λ (c : Span). not (apart s c)) chosen ss (some_overlap s chosen e),
    choose-Meets chosen ss,
  )
]

-- What holds of every element of the sorted list holds of every element.
module _ {A : Type 0} (le : A → A → Bool) (P : A → Type 0) where
  insert_first : (x y : A) (ys : List A) → le x y ≡ true → insert le x (y ∷ ys) ≡ x ∷ y ∷ ys
  unfolding insert
  insert_first x y ys e = rw e refl

  insert_later :
      (x y : A) (ys : List A) → le x y ≡ false → insert le x (y ∷ ys) ≡ y ∷ insert le x ys
  unfolding insert
  insert_later x y ys e = rw e refl

  All-along : {xs ys : List A} → xs ≡ ys → All P xs → All P ys
  All-along e h = rw (sym e) h

  All-insert : (x : A) (xs : List A) → All P (insert le x xs) → P x × All P xs
  unfolding insert
  All-insert x [] h = h
  All-insert x (y ∷ ys) h = elim (Bool-cases (le x y)) [
    | inl e ↦ All-along {ys = x ∷ y ∷ ys} (insert_first x y ys e) h
    | inr e ↦
        let (p, q) = All-along {ys = y ∷ insert le x ys} (insert_later x y ys e) h in
        let (r, t) = All-insert x ys q in (r, (p, t))
  ]

  All-sorted : (xs : List A) → All P (sorted le xs) → All P xs
  unfolding sorted
  All-sorted [] h = tt
  All-sorted (x ∷ xs) h = let (p, q) = All-insert x (sorted le xs) h in (p, All-sorted xs q)

-- Each span that was found, unless it is empty, overlaps a span that is replaced, by the program's test.
pub resolve_overlaps-Meets : (spans : List Span) → All (Meets (resolve_overlaps spans)) spans
unfolding resolve_overlaps
resolve_overlaps-Meets spans =
    All-sorted before (Meets (choose [] (sorted before spans))) spans
      (choose-Meets [] (sorted before spans))
