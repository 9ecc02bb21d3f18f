-- ===== src/Invitations/References.antt =====
-- The workspaces that members refer to, and what a new row adds to the join.
use decyra_api.Common.{
  ◌≡◌, refl, sym, ap, ◌∙◌, inl, inr, true, false, some, List, [], ◌∷◌, ◌++◌, map, ◌==◌, nat_eq,
  list_eq, list_beq_iff, any, concat, keep_if-All, keep_if-out, All, All-map, arith, Bool-cases,
}
use decyra_api.Common.Text.{Text}
use decyra_api.Pii.Anonymizer.Order.{sorted-All}
use decyra_api.Invitations.{
  Workspace, Member, Directory, joined_rows, older_workspace, first_workspace,
}
use decyra_api.Invitations.Rows.{first_row-All, rows_of, Stands}

-- The foreign key of the members: the workspace of each stands in the table.
abbrev pub Referenced : Directory → Type 0
Referenced d = All (λ (m : Member). Stands d.workspaces m.workspace_id) d.members

All-Stands : (ws : List Workspace) → All (λ (w : Workspace). Stands ws w.id) ws
All-Stands [] = tt
All-Stands (w ∷ ws) =
    (inl refl, All-map (λ (v : Workspace). Stands ws v.id) _ ws (λ v h. inr h) (All-Stands ws))

pub first_workspace-Stands :
    (d : Directory) (org : Text) (w : Workspace)
    → first_workspace d org ≡ some w
    → Stands d.workspaces w.id
unfolding first_workspace
first_workspace-Stands d org w e =
    first_row-All (λ (v : Workspace). Stands d.workspaces v.id) _ w
      (sorted-All (λ (v : Workspace). Stands d.workspaces v.id) older_workspace _
        (keep_if-All (λ (v : Workspace). Stands d.workspaces v.id)
          (λ (v : Workspace). v.organization_id == org) d.workspaces (All-Stands d.workspaces)))
      e

pub Stands-last : (ws : List Workspace) (w : Workspace) → Stands (ws ++ w ∷ []) w.id
Stands-last [] w = inl refl
Stands-last (v ∷ ws) w = inr (Stands-last ws w)

pub Stands-append : (ws vs : List Workspace) (id : Text) → Stands ws id → Stands (ws ++ vs) id
Stands-append [] vs id h = absurd h
Stands-append (w ∷ ws) vs id (inl e) = inl e
Stands-append (w ∷ ws) vs id (inr h) = inr (Stands-append ws vs id h)

Stands-any :
    (ws : List Workspace) (id : Text) → Stands ws id → any (λ (w : Workspace). w.id == id) ws ≡ true
Stands-any [] id h = absurd h
Stands-any (w ∷ ws) id (inl e) = ground (arith, (list_beq_iff w.id id).1 e)
Stands-any (w ∷ ws) id (inr h) = ground (arith, Stands-any ws id h)

concat_same :
    {A B : Type 0} (f g : A → List B) (xs : List A)
    → All (λ x. f x ≡ g x) xs
    → concat (map f xs) ≡ concat (map g xs)
concat_same f g [] _ = refl
concat_same f g (x ∷ xs) (e, h) = let rest = concat_same f g xs h in cc (e, rest)

-- A member of another user adds no row.
pub rows_of-last :
    (ws : List Workspace) (ms : List Member) (m : Member) (user_id : Text)
    → (m.user_id == user_id) ≡ false
    → rows_of ws (ms ++ m ∷ []) user_id ≡ rows_of ws ms user_id
rows_of-last ws ms m user_id e =
    ap (λ ns. concat (map (joined_rows ws) ns))
      (keep_if-out (λ (n : Member). n.user_id == user_id) ms m e)

true_not_false : true ≡ false → ⊥
true_not_false h = cc

-- Nor does a workspace with a new id.
joined_rows-new :
    (ws : List Workspace) (w : Workspace) (n : Member)
    → any (λ (v : Workspace). v.id == w.id) ws ≡ false
    → Stands ws n.workspace_id
    → joined_rows (ws ++ w ∷ []) n ≡ joined_rows ws n
joined_rows-new ws w n fresh h = elim (Bool-cases (w.id == n.workspace_id)) [
  | inl e ↦ absurd (
      true_not_false (
        sym (Stands-any ws w.id (Stands-along ((list_beq_iff w.id n.workspace_id).0 e) h)) ∙ fresh))
  | inr e ↦ ap (map (λ v. (v, n))) (keep_if-out (λ (v : Workspace). v.id == n.workspace_id) ws w e)
]
  where
    Stands-along : {i j : Text} → i ≡ j → Stands ws j → Stands ws i
    Stands-along e h = rw e h

pub rows_of-new :
    (ws : List Workspace) (w : Workspace) (ms : List Member) (user_id : Text)
    → any (λ (v : Workspace). v.id == w.id) ws ≡ false
    → All (λ (m : Member). Stands ws m.workspace_id) ms
    → rows_of (ws ++ w ∷ []) ms user_id ≡ rows_of ws ms user_id
rows_of-new ws w ms user_id fresh h = concat_same (joined_rows (ws ++ w ∷ [])) (joined_rows ws) _ (
    keep_if-All (λ n. joined_rows (ws ++ w ∷ []) n ≡ joined_rows ws n)
      (λ (n : Member). n.user_id == user_id) ms
      (All-map _ _ ms (λ n stands. joined_rows-new ws w n fresh stands) h))
