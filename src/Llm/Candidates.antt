-- ===== src/Llm/Candidates.antt =====
-- The candidates of a call: a sovereign request stays with sovereign models, and no model is tried twice.
use decyra_api.Common.{
  ◌≡◌, refl, Bool, true, false, ◌&&◌, Option, none, some, List, [], ◌∷◌, map, contains, nat_eq,
  list_eq, keep_if, arith, ◌==◌, All, All-map, Bool-cases, inl, inr,
}
use decyra_api.Common.Text.{Text}
use decyra_api.Pii.Spans.{insert, sorted}
use decyra_api.Store.{Db, Model}
use decyra_api.Llm.{Candidate, add_unseen, sovereign_rows, fallback_rows, build_candidates}

-- Sorting keeps what holds of every element.
module _ {A : Type 0} (before : A → A → Bool) (P : A → Type 0) where
  insert-All : (x : A) (xs : List A) → P x → All P xs → All P (insert before x xs)
  unfolding insert
  insert-All x [] px _ = (px, tt)
  insert-All x (y ∷ ys) px (py, h) = elim (Bool-cases (before x y)) [
    | inl e ↦ rw e (px, (py, h))
    | inr e ↦ rw e (py, insert-All x ys px h)
  ]

  pub sorted-All : (xs : List A) → All P xs → All P (sorted before xs)
  unfolding sorted
  sorted-All [] _ = tt
  sorted-All (x ∷ xs) (px, h) = insert-All x (sorted before xs) px (sorted-All xs h)

abbrev IsSovereign : Model → Type 0
IsSovereign r = r.sovereign_eligible ≡ true

abbrev IfRow : (Model → Type 0) → Option Model → Type 0
IfRow P none = Unit
IfRow P (some r) = P r

keep_if-IsSovereign :
    (rows : List Model)
    → All IsSovereign (keep_if (λ (r : Model). r.enabled && r.sovereign_eligible) rows)
keep_if-IsSovereign [] = tt
keep_if-IsSovereign (r ∷ rows) = elim (Bool-cases (r.enabled && r.sovereign_eligible)) [
  | inl e ↦ rw e (ground arith, keep_if-IsSovereign rows)
  | inr e ↦ rw e (keep_if-IsSovereign rows)
]

map-some-All : (P : Model → Type 0) (rows : List Model) → All P rows → All (IfRow P) (map some rows)
map-some-All P [] _ = tt
map-some-All P (r ∷ rows) (p, h) = (p, map-some-All P rows h)

add_unseen-All :
    (P : Model → Type 0) (rows : List (Option Model)) (seen : List Text)
    → All (IfRow P) rows
    → All (λ (c : Candidate). P c.1) (add_unseen rows seen)
unfolding add_unseen
add_unseen-All P [] seen _ = tt
add_unseen-All P (none ∷ rows) seen (_, h) = add_unseen-All P rows seen h
add_unseen-All P (some r ∷ rows) seen (p, h) = elim (Bool-cases (contains seen r.name)) [
  | inl e ↦ rw e (add_unseen-All P rows seen h)
  | inr e ↦ rw e (p, add_unseen-All P rows (r.name ∷ seen) h)
]

module _ (name_le : Text → Text → Bool) (fallback_models : List Text) (db : Db) where
  -- Every candidate of a sovereign primary model is sovereign-eligible.
  pub build_candidates-sovereign :
      (primary_model : Text) (primary_row : Model)
      → primary_row.sovereign_eligible ≡ true
      → All
          (λ (c : Candidate). c.1.sovereign_eligible ≡ true)
          (build_candidates name_le fallback_models db primary_model primary_row)
  unfolding build_candidates sovereign_rows
  build_candidates-sovereign primary_model primary_row e = rw e (
    refl,
    add_unseen-All IsSovereign _ _ (
        map-some-All IsSovereign _ (
          sorted-All (λ (a b : Model). name_le a.name b.name) IsSovereign _
            (keep_if-IsSovereign db.models))),
  )

-- Names that differ pairwise.
abbrev pub IsDistinct : List Candidate → Type 0
IsDistinct [] = Unit
IsDistinct (c ∷ cs) = All (λ (d : Candidate). (d.0 == c.0) ≡ false) cs × IsDistinct cs

add_unseen-fresh :
    (rows : List (Option Model)) (seen : List Text)
    → All (λ (c : Candidate). contains seen c.0 ≡ false) (add_unseen rows seen)
unfolding add_unseen
add_unseen-fresh [] seen = tt
add_unseen-fresh (none ∷ rows) seen = add_unseen-fresh rows seen
add_unseen-fresh (some r ∷ rows) seen = elim (Bool-cases (contains seen r.name)) [
  | inl e ↦ rw e (add_unseen-fresh rows seen)
  | inr e ↦ rw e (
    e,
    All-map (λ (c : Candidate). contains (r.name ∷ seen) c.0 ≡ false) _ _ (λ c h. ground (arith, h))
        (add_unseen-fresh rows (r.name ∷ seen)),
  )
]

add_unseen-IsDistinct :
    (rows : List (Option Model)) (seen : List Text) → IsDistinct (add_unseen rows seen)
unfolding add_unseen
add_unseen-IsDistinct [] seen = tt
add_unseen-IsDistinct (none ∷ rows) seen = add_unseen-IsDistinct rows seen
add_unseen-IsDistinct (some r ∷ rows) seen = elim (Bool-cases (contains seen r.name)) [
  | inl e ↦ rw e (add_unseen-IsDistinct rows seen)
  | inr e ↦ rw e (
    All-map (λ (c : Candidate). contains (r.name ∷ seen) c.0 ≡ false) _ _ (λ c h. ground (arith, h))
        (add_unseen-fresh rows (r.name ∷ seen)),
    add_unseen-IsDistinct rows (r.name ∷ seen),
  )
]

behind_primary-IsDistinct :
    (primary : Candidate) (rows : List (Option Model))
    → IsDistinct (primary ∷ add_unseen rows (primary.0 ∷ []))
behind_primary-IsDistinct primary rows = (
  All-map (λ (c : Candidate). contains (primary.0 ∷ []) c.0 ≡ false) _ _ (λ c h. ground (arith, h))
      (add_unseen-fresh rows (primary.0 ∷ [])),
  add_unseen-IsDistinct rows (primary.0 ∷ []),
)

-- No model name stands twice among the candidates, so no model is tried twice.
pub build_candidates-IsDistinct :
    (name_le : Text → Text → Bool) (fallback_models : List Text) (db : Db) (primary_model : Text)
    (primary_row : Model)
    → IsDistinct (build_candidates name_le fallback_models db primary_model primary_row)
unfolding build_candidates
build_candidates-IsDistinct name_le fallback_models db primary_model primary_row =
    behind_primary-IsDistinct (primary_model, primary_row)
      (fallback_rows name_le fallback_models db primary_row)
