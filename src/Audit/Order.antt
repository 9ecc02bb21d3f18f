-- ===== src/Audit/Order.antt =====
-- The order of the rows of a workspace, when one is inserted.
use decyra_api.Common.{
  ◌≡◌, refl, sym, ap, ◌∙◌, inl, inr, Bool, true, false, List, [], ◌∷◌, ◌++◌, arith, ◌==◌, nat_eq,
  list_eq, list_beq_iff, keep_if, keep_if-in, keep_if-out, All, Bool-cases, ltb,
}
use decyra_api.Common.Text.{Text}
use decyra_api.Pii.Spans.{insert, sorted}
use decyra_api.Audit.{
  Row, in_order, latest_first, of_workspace, workspace_rows, first_hash, last_hash,
}

module _ (before : Row → Row → Bool) (n : Row) where
  insert-last :
      (x : Row) (ys : List Row)
      → before x n ≡ true
      → insert before x (ys ++ n ∷ []) ≡ insert before x ys ++ n ∷ []
  unfolding insert
  insert-last x [] e = rw e refl
  insert-last x (y ∷ ys) e = elim (Bool-cases (before x y)) [
    | inl q ↦ rw q refl
    | inr q ↦ rw q (ap (λ t. y ∷ t) (insert-last x ys e))
  ]

  -- A row that all rows come before is the last one.
  sorted-last :
      (xs : List Row)
      → All (λ x. before x n ≡ true) xs
      → sorted before (xs ++ n ∷ []) ≡ sorted before xs ++ n ∷ []
  unfolding sorted insert
  sorted-last [] _ = refl
  sorted-last (x ∷ xs) (e, h) =
      ap (insert before x) (sorted-last xs h) ∙ insert-last x (sorted before xs) e

  insert-behind :
      (x : Row) (ys : List Row)
      → before x n ≡ false
      → insert before x (n ∷ ys) ≡ n ∷ insert before x ys
  unfolding insert
  insert-behind x ys e = rw e refl

  -- A row that no row comes before is the first one.
  sorted-first :
      (xs : List Row)
      → All (λ x. before x n ≡ false) xs
      → sorted before (xs ++ n ∷ []) ≡ n ∷ sorted before xs
  unfolding sorted insert
  sorted-first [] _ = refl
  sorted-first (x ∷ xs) (e, h) =
      ap (insert before x) (sorted-first xs h) ∙ insert-behind x (sorted before xs) e

-- The row is later than all rows of its workspace.
abbrev pub IsLatest : Row → List Row → Type 0
IsLatest n rows =
    All
      (λ (r : Row).
        (r.event.workspace_id ≡ n.event.workspace_id)
        → ltb r.event.timestamp n.event.timestamp ≡ true)
      rows

earlier-in_order :
    (r n : Row) → ltb r.event.timestamp n.event.timestamp ≡ true → in_order r n ≡ true
earlier-in_order r n h = ground (arith, h)

earlier-latest_first :
    (r n : Row) → ltb r.event.timestamp n.event.timestamp ≡ true → latest_first r n ≡ false
earlier-latest_first r n h = ground (arith, h)

-- What holds of every row of a workspace that is earlier than the new one.
kept_earlier :
    (P : Row → Type 0) (n : Row) (ws : Text) (rows : List Row)
    → n.event.workspace_id ≡ ws
    → ((r : Row) → ltb r.event.timestamp n.event.timestamp ≡ true → P r)
    → IsLatest n rows
    → All P (keep_if (of_workspace ws) rows)
kept_earlier P n ws [] same f _ = tt
kept_earlier P n ws (r ∷ rows) same f (h, hs) = elim (Bool-cases (of_workspace ws r)) [
  | inl e ↦ rw e (
    f r (h ((list_beq_iff r.event.workspace_id ws).0 e ∙ sym same)),
    kept_earlier P n ws rows same f hs,
  )
  | inr e ↦ rw e (kept_earlier P n ws rows same f hs)
]

module _ (ws : Text) (rows : List Row) (n : Row) where
  pub workspace_rows-in :
      n.event.workspace_id ≡ ws
      → IsLatest n rows
      → workspace_rows ws (rows ++ n ∷ []) ≡ workspace_rows ws rows ++ n ∷ []
  unfolding workspace_rows
  workspace_rows-in e h =
      ap (sorted in_order)
        (keep_if-in (of_workspace ws) rows n ((list_beq_iff n.event.workspace_id ws).1 e))
      ∙ sorted-last in_order n _
          (kept_earlier (λ r. in_order r n ≡ true) n ws rows e (λ r. earlier-in_order r n) h)

  pub last_hash-in :
      n.event.workspace_id ≡ ws → IsLatest n rows → last_hash ws (rows ++ n ∷ []) ≡ n.current_hash
  unfolding last_hash
  last_hash-in e h =
      ap (λ rs. first_hash (sorted latest_first rs))
        (keep_if-in (of_workspace ws) rows n ((list_beq_iff n.event.workspace_id ws).1 e))
      ∙ ap first_hash (
          sorted-first latest_first n _ (
            kept_earlier (λ r. latest_first r n ≡ false) n ws rows e (λ r. earlier-latest_first r n)
              h))

  pub workspace_rows-out :
      (n.event.workspace_id == ws) ≡ false
      → workspace_rows ws (rows ++ n ∷ []) ≡ workspace_rows ws rows
  unfolding workspace_rows
  workspace_rows-out e = ap (sorted in_order) (keep_if-out (of_workspace ws) rows n e)

  pub last_hash-out :
      (n.event.workspace_id == ws) ≡ false → last_hash ws (rows ++ n ∷ []) ≡ last_hash ws rows
  unfolding last_hash
  last_hash-out e =
      ap (λ rs. first_hash (sorted latest_first rs)) (keep_if-out (of_workspace ws) rows n e)
