-- ===== src/Invitations/Onboarding.antt =====
-- Onboarding: a user is given one workspace, and keeps it.
use decyra_api.Common.{
  ◌≡◌, refl, sym, ◌∙◌, inl, inr, false, Option, none, some, List, [], ◌∷◌, ◌++◌, ◌==◌, nat_eq,
  list_eq, All, All-append, All-map, Bool-cases, Option-cases,
}
use decyra_api.Common.Text.{Text, codes}
use decyra_api.Pii.Anonymizer.Order.{sorted-All}
use decyra_api.Pii.Spans.{sorted}
use decyra_api.Invitations.{
  Invitation, Workspace, Member, Directory, first_row, joined_rows, membership_rows, older,
  current_user_membership, OnboardingResult, open_invitation, first_workspace, join_workspace,
  standard_workspace, found_organization, onboard_user, founded, insert_user, is_taken,
}
use decyra_api.World.{Outcome, ok, raised}
use decyra_api.Invitations.Lifecycle.{Steps}
use decyra_api.Invitations.Membership.{joined-Referenced, founded-Referenced, Steps-membership}
use decyra_api.Invitations.References.{Referenced, first_workspace-Stands, Stands-last}
use decyra_api.Invitations.Rows.{
  first_row-All, joined_rows-hit, joined_rows-miss, All-along, joined_rows-own, cons_not_nil,
  rows_of, rows_of-none, rows_of-All, All-last, Stands, joined_rows-Stands, sorted-first_row,
}

-- Every membership of the user that is found is in the workspace of the id, and one is found.
record Settled (d : Directory) (user_id id : Text) : Type 0 where
  pub all_there : All (λ (r : Workspace × Member). r.0.id ≡ id) (membership_rows d user_id)
  pub found : membership_rows d user_id ≡ [] → ⊥

Settled-membership :
    (d : Directory) (user_id id : Text)
    → Settled d user_id id
    → (r : Workspace × Member) × (current_user_membership d user_id ≡ some r) × (r.0.id ≡ id)
unfolding current_user_membership
Settled-membership d user_id id h =
    elim (Option-cases (first_row (sorted older (membership_rows d user_id)))) [
      | inl e ↦ absurd (h.found (sorted-first_row older (membership_rows d user_id) e))
      | inr (r, e) ↦ (
        r,
        e,
        first_row-All (λ (r : Workspace × Member). r.0.id ≡ id)
            (sorted older (membership_rows d user_id)) r
            (sorted-All (λ (r : Workspace × Member). r.0.id ≡ id) older (membership_rows d user_id)
              h.all_there)
            e,
      )
    ]

-- With a workspace more, a member that had no rows has rows in that workspace at most.
new_rows :
    (ws : List Workspace) (w : Workspace) (n : Member)
    → joined_rows ws n ≡ []
    → All (λ (r : Workspace × Member). r.0.id ≡ w.id) (joined_rows (ws ++ w ∷ []) n)
new_rows [] w n e = elim (Bool-cases (w.id == n.workspace_id)) [
  | inl q ↦
      All-along (λ (r : Workspace × Member). r.0.id ≡ w.id) {ys = (w, n) ∷ []}
        (joined_rows-hit w n [] q) (refl, tt)
  | inr q ↦
      All-along (λ (r : Workspace × Member). r.0.id ≡ w.id) {ys = []} (joined_rows-miss w n [] q) tt
]
new_rows (v ∷ ws) w n e = elim (Bool-cases (v.id == n.workspace_id)) [
  | inl q ↦ absurd (cons_not_nil (sym (joined_rows-hit v n ws q) ∙ e))
  | inr q ↦
      All-along (λ (r : Workspace × Member). r.0.id ≡ w.id) {ys = joined_rows (ws ++ w ∷ []) n}
        (joined_rows-miss v n (ws ++ w ∷ []) q)
        (new_rows ws w n (sym (joined_rows-miss v n ws q) ∙ e))
]

-- The result of an onboarding, if there is one, is the membership that is found from then on.
abbrev Lands : Text → Outcome OnboardingResult × Directory → Type 0
Lands user_id (ok r, d) =
    Referenced d
    × ((row : Workspace × Member) × (current_user_membership d user_id ≡ some row)
        × (row.0.id ≡ r.workspace_id))
Lands user_id (raised e, d) = Unit

module _ (d : Directory) (user_id : Text) (unknown : current_user_membership d user_id ≡ none) where
  -- No member of the user has a workspace so far.
  no_rows : All (λ (m : Member). m.user_id ≡ user_id → joined_rows d.workspaces m ≡ []) d.members
  unfolding current_user_membership membership_rows
  no_rows =
      rows_of-none d.workspaces d.members user_id
        (sorted-first_row older (rows_of d.workspaces d.members user_id) unknown)

  module _ (m : Member) (ws : List Workspace) (of_user : m.user_id ≡ user_id)
      (stands : Stands ws m.workspace_id)
      (others : (n : Member)
        → joined_rows d.workspaces n ≡ []
        → All (λ (r : Workspace × Member). r.0.id ≡ m.workspace_id) (joined_rows ws n)) where
    rows-All_there :
        All
          (λ (r : Workspace × Member). r.0.id ≡ m.workspace_id)
          (rows_of ws (d.members ++ m ∷ []) user_id)
    rows-All_there = rows_of-All _ ws (d.members ++ m ∷ []) user_id (
        All-append _ d.members (m ∷ [])
          (All-map _ _ d.members (λ n h same. others n (h same)) no_rows)
          (λ same. joined_rows-own m ws, tt))

    rows-found : rows_of ws (d.members ++ m ∷ []) user_id ≡ [] → ⊥
    rows-found e =
        joined_rows-Stands ws m stands
          (All-last _ d.members m (rows_of-none ws (d.members ++ m ∷ []) user_id e) of_user)

  -- What the result of an onboarding is about.
  joined-Lands :
      (inv : Invitation) (o : Option (List (Text × Text))) (w : Option Workspace)
      → Referenced d
      → ((x : Workspace) → w ≡ some x → Stands d.workspaces x.id)
      → Lands user_id (join_workspace d user_id inv o w)
  unfolding join_workspace membership_rows
  joined-Lands inv none w refs stands = tt
  joined-Lands inv (some users) none refs stands = tt
  joined-Lands inv (some users) (some w) refs stands =
      let m : Member = record { workspace_id = w.id; user_id = user_id; role = inv.role } in
      let others = λ (n : Member) (e : joined_rows d.workspaces n ≡ []).
        All-along (λ (r : Workspace × Member). r.0.id ≡ w.id) e tt in
      (
        joined-Referenced d refs m (stands w refl),
        Settled-membership _ user_id w.id (record {
          all_there = rows-All_there m d.workspaces refl (stands w refl) others;
          found = rows-found m d.workspaces refl (stands w refl) others;
        }),
      )

  founded-Settled :
      (email org_id ws_id : Text) (users : List (Text × Text))
      → Settled (founded d user_id email org_id ws_id users) user_id ws_id
  unfolding founded membership_rows
  founded-Settled email org_id ws_id users =
      let m : Member = record { workspace_id = ws_id; user_id = user_id; role = codes "owner" } in
      let w : Workspace = record {
        id = ws_id;
        organization_id = org_id;
        name = standard_workspace;
        created_at = d.now;
      } in
      let others =
        λ (n : Member) (e : joined_rows d.workspaces n ≡ []). new_rows d.workspaces w n e in
      let stands = Stands-last d.workspaces w in
      record {
        all_there = rows-All_there m (d.workspaces ++ w ∷ []) refl stands others;
        found = rows-found m (d.workspaces ++ w ∷ []) refl stands others;
      }

  founded-Lands :
      (email org_id ws_id : Text) (o : Option (List (Text × Text)))
      → Referenced d
      → Lands user_id (found_organization d user_id email org_id ws_id o)
  unfolding found_organization
  founded-Lands email org_id ws_id none refs = tt
  founded-Lands email org_id ws_id (some users) refs = elim (Bool-cases (is_taken d org_id ws_id)) [
    | inl t ↦ rw (t, found_organization) tt
    | inr t ↦
        rw (t, found_organization)
          (
            founded-Referenced d refs user_id email org_id ws_id users,
            Settled-membership _ user_id ws_id (founded-Settled email org_id ws_id users),
          )
  ]

onboard_user-Lands :
    (d : Directory) (user_id email org_id ws_id : Text)
    → Referenced d
    → Lands user_id (onboard_user d user_id email org_id ws_id)
unfolding onboard_user
onboard_user-Lands d user_id email org_id ws_id refs =
    elim (Option-cases (current_user_membership d user_id)) [
      | inr (row, e) ↦ rw (e, onboard_user) (refs, (row, e, refl))
      | inl unknown ↦ elim (Option-cases (open_invitation d email)) [
        | inl none_open ↦
            rw (unknown, none_open, onboard_user)
              (founded-Lands d user_id unknown email org_id ws_id
                (insert_user user_id email d.users) refs)
        | inr (inv, opened) ↦
            rw (unknown, opened, onboard_user)
              (joined-Lands d user_id unknown inv (insert_user user_id email d.users)
                (first_workspace d inv.organization_id) refs
                (λ x e. first_workspace-Stands d inv.organization_id x e))
      ]
    ]

-- What an onboarding of the user answers: the workspace of the earlier result, and nothing is created.
abbrev pub StaysThere : Directory → Text → OnboardingResult → Type 0
StaysThere d user_id r =
    (email org_id ws_id : Text)
    → (q : OnboardingResult) × (onboard_user d user_id email org_id ws_id ≡ (ok q, d))
      × (q.workspace_id ≡ r.workspace_id)
      × (q.created ≡ false)

known-StaysThere :
    (d : Directory) (user_id : Text) (row : Workspace × Member) (r : OnboardingResult)
    → current_user_membership d user_id ≡ some row
    → row.0.id ≡ r.workspace_id
    → StaysThere d user_id r
unfolding onboard_user
known-StaysThere d user_id row r e same email org_id ws_id = (
  record { workspace_id = row.0.id; workspace_name = row.0.name; created = false },
  rw (e, onboard_user) refl,
  same,
  refl,
)

Lands-along :
    (user_id : Text) {x y : Outcome OnboardingResult × Directory}
    → x ≡ y
    → Lands user_id x
    → Lands user_id y
Lands-along user_id e h = rw (sym e) h

-- A user who is onboarded stays: after every sequence of requests of all users that follows, however long it
-- takes, every onboarding of the user, whatever address it gives, answers with the same workspace, creates
-- nothing, and leaves the tables as they are. The members' workspaces stand in the table at the start.
pub onboard_user-StaysThere :
    (d e f : Directory) (user_id email org_id ws_id : Text) (r : OnboardingResult)
    → Referenced d
    → onboard_user d user_id email org_id ws_id ≡ (ok r, e)
    → Steps e f
    → StaysThere f user_id r
onboard_user-StaysThere d e f user_id email org_id ws_id r refs onboarded steps =
    let (refs', (row, known, same)) =
      Lands-along user_id {y = (ok r, e)} onboarded
        (onboard_user-Lands d user_id email org_id ws_id refs) in
    known-StaysThere f user_id row r (Steps-membership user_id row refs' known steps) same
