-- ===== src/Invitations/Rows.antt =====
-- The join of the members with their workspaces.
use decyra_api.Common.{
  ◌≡◌, refl, sym, ap, ◌∙◌, ◌⊎◌, inl, inr, Bool, true, false, none, some, List, [], ◌∷◌, ◌++◌, map,
  ◌==◌, nat_eq, list_eq, list_beq_iff, if◌then◌else◌, keep_if, concat, All, All-append, Bool-cases,
}
use decyra_api.Common.Text.{Text}
use decyra_api.Pii.Spans.{sorted, insert}
use decyra_api.Invitations.{Workspace, Member, first_row, joined_rows}

module _ {A : Type 0} (le : A → A → Bool) where
  insert-first_row : (x : A) (xs : List A) → (y : A) × (first_row (insert le x xs) ≡ some y)
  unfolding insert
  insert-first_row x [] = (x, refl)
  insert-first_row x (y ∷ ys) = elim (Bool-cases (le x y)) [
    | inl e ↦ (x, rw e refl)
    | inr e ↦ (y, rw e refl)
  ]

  -- Only an empty table has no first row.
  pub sorted-first_row : (xs : List A) → first_row (sorted le xs) ≡ none → xs ≡ []
  unfolding sorted
  sorted-first_row [] h = refl
  sorted-first_row (x ∷ xs) h = let (y, e) = insert-first_row x (sorted le xs) in absurd (cc (e, h))

pub first_row-All :
    {A : Type 0} (P : A → Type 0) (xs : List A) (x : A) → All P xs → first_row xs ≡ some x → P x
first_row-All P [] x h e = absurd (cc (e))
first_row-All P (y ∷ ys) x (p, h) e = let same : y ≡ x = cc (e) in rw (sym same) p

pub joined_rows-hit :
    (w : Workspace) (m : Member) (ws : List Workspace)
    → (w.id == m.workspace_id) ≡ true
    → joined_rows (w ∷ ws) m ≡ (w, m) ∷ joined_rows ws m
joined_rows-hit w m ws q = ap (λ b. map (λ v. (v, m)) (if b then w ∷ keep ws else keep ws)) q
  where
    keep : List Workspace → List Workspace
    keep vs = keep_if (λ (v : Workspace). v.id == m.workspace_id) vs

pub joined_rows-miss :
    (w : Workspace) (m : Member) (ws : List Workspace)
    → (w.id == m.workspace_id) ≡ false
    → joined_rows (w ∷ ws) m ≡ joined_rows ws m
joined_rows-miss w m ws q = ap (λ b. map (λ v. (v, m)) (if b then w ∷ keep ws else keep ws)) q
  where
    keep : List Workspace → List Workspace
    keep vs = keep_if (λ (v : Workspace). v.id == m.workspace_id) vs

pub All-along : {A : Type 0} (P : A → Type 0) {xs ys : List A} → xs ≡ ys → All P ys → All P xs
All-along P e h = rw e h

-- The rows of one member are in its own workspace.
pub joined_rows-own :
    (m : Member) (ws : List Workspace)
    → All (λ (r : Workspace × Member). r.0.id ≡ m.workspace_id) (joined_rows ws m)
joined_rows-own m [] = tt
joined_rows-own m (w ∷ ws) = elim (Bool-cases (w.id == m.workspace_id)) [
  | inl q ↦
      All-along (λ (r : Workspace × Member). r.0.id ≡ m.workspace_id)
        {ys = (w, m) ∷ joined_rows ws m} (joined_rows-hit w m ws q)
        ((list_beq_iff w.id m.workspace_id).0 q, joined_rows-own m ws)
  | inr q ↦
      All-along (λ (r : Workspace × Member). r.0.id ≡ m.workspace_id) {ys = joined_rows ws m}
        (joined_rows-miss w m ws q) (joined_rows-own m ws)
]

pub cons_not_nil : {A : Type 0} {x : A} {xs : List A} → x ∷ xs ≡ [] → ⊥
cons_not_nil e = absurd (cc (e))

true_not_false : true ≡ false → ⊥
true_not_false e = absurd (cc (e))

-- The rows of the tables' join.
abbrev pub rows_of : List Workspace → List Member → Text → List (Workspace × Member)
rows_of ws ms user_id =
    concat (map (joined_rows ws) (keep_if (λ (m : Member). m.user_id == user_id) ms))

rows_of-hit :
    (ws : List Workspace) (m : Member) (ms : List Member) (user_id : Text)
    → (m.user_id == user_id) ≡ true
    → rows_of ws (m ∷ ms) user_id ≡ joined_rows ws m ++ rows_of ws ms user_id
rows_of-hit ws m ms user_id q =
    ap (λ b. concat (map (joined_rows ws) (if b then m ∷ keep ms else keep ms))) q
  where
    keep : List Member → List Member
    keep ns = keep_if (λ (n : Member). n.user_id == user_id) ns

rows_of-miss :
    (ws : List Workspace) (m : Member) (ms : List Member) (user_id : Text)
    → (m.user_id == user_id) ≡ false
    → rows_of ws (m ∷ ms) user_id ≡ rows_of ws ms user_id
rows_of-miss ws m ms user_id q =
    ap (λ b. concat (map (joined_rows ws) (if b then m ∷ keep ms else keep ms))) q
  where
    keep : List Member → List Member
    keep ns = keep_if (λ (n : Member). n.user_id == user_id) ns

append_nil_left : {A : Type 0} (xs ys : List A) → xs ++ ys ≡ [] → xs ≡ []
append_nil_left [] ys e = refl
append_nil_left (x ∷ xs) ys e = absurd (cc (e))

append_nil_right : {A : Type 0} (xs ys : List A) → xs ++ ys ≡ [] → ys ≡ []
append_nil_right [] ys e = e
append_nil_right (x ∷ xs) ys e = absurd (cc (e))

-- Without rows, no member of the user has a workspace.
pub rows_of-none :
    (ws : List Workspace) (ms : List Member) (user_id : Text)
    → rows_of ws ms user_id ≡ []
    → All (λ (m : Member). m.user_id ≡ user_id → joined_rows ws m ≡ []) ms
rows_of-none ws [] user_id e = tt
rows_of-none ws (m ∷ ms) user_id e = elim (Bool-cases (m.user_id == user_id)) [
  | inl q ↦
      let split = sym (rows_of-hit ws m ms user_id q) ∙ e in
      (
        λ same. append_nil_left (joined_rows ws m) (rows_of ws ms user_id) split,
        rows_of-none ws ms user_id
            (append_nil_right (joined_rows ws m) (rows_of ws ms user_id) split),
      )
  | inr q ↦ (
    λ same. absurd (cc ((list_beq_iff m.user_id user_id).1 same, q)),
    rows_of-none ws ms user_id (sym (rows_of-miss ws m ms user_id q) ∙ e),
  )
]

pub rows_of-All :
    (P : Workspace × Member → Type 0) (ws : List Workspace) (ms : List Member) (user_id : Text)
    → All (λ (m : Member). m.user_id ≡ user_id → All P (joined_rows ws m)) ms
    → All P (rows_of ws ms user_id)
rows_of-All P ws [] user_id _ = tt
rows_of-All P ws (m ∷ ms) user_id (p, h) = elim (Bool-cases (m.user_id == user_id)) [
  | inl q ↦
      All-along P {ys = joined_rows ws m ++ rows_of ws ms user_id} (rows_of-hit ws m ms user_id q) (
        All-append P (joined_rows ws m) (rows_of ws ms user_id)
          (p ((list_beq_iff m.user_id user_id).0 q)) (rows_of-All P ws ms user_id h))
  | inr q ↦
      All-along P {ys = rows_of ws ms user_id} (rows_of-miss ws m ms user_id q)
        (rows_of-All P ws ms user_id h)
]

pub All-last : {A : Type 0} (P : A → Type 0) (xs : List A) (x : A) → All P (xs ++ x ∷ []) → P x
All-last P [] x (p, _) = p
All-last P (y ∷ ys) x (_, h) = All-last P ys x h

-- The workspace of the id stands in the table.
abbrev pub Stands : List Workspace → Text → Type 0
Stands [] id = ⊥
Stands (w ∷ ws) id = (w.id ≡ id) ⊎ Stands ws id

pub joined_rows-Stands :
    (ws : List Workspace) (m : Member) → Stands ws m.workspace_id → joined_rows ws m ≡ [] → ⊥
joined_rows-Stands [] m h e = h
joined_rows-Stands (w ∷ ws) m h e = elim (Bool-cases (w.id == m.workspace_id)) [
  | inl q ↦ cons_not_nil (sym (joined_rows-hit w m ws q) ∙ e)
  | inr q ↦ elim h [
    | inl same ↦ true_not_false (sym ((list_beq_iff w.id m.workspace_id).1 same) ∙ q)
    | inr later ↦ joined_rows-Stands ws m later (sym (joined_rows-miss w m ws q) ∙ e)
  ]
]
