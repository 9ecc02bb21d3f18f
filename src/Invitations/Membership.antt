-- ===== src/Invitations/Membership.antt =====
-- What requests do to the membership of a user.
use decyra_api.Common.{
  ◌≡◌, refl, sym, ap, ◌∙◌, inl, inr, Bool, false, ◌||◌, Option, none, some, List, [], ◌∷◌, ◌++◌,
  ◌==◌, nat_eq, list_eq, list_beq_iff, contains, All, All-append, All-map, arith, Bool-cases,
  Option-cases,
}
use decyra_api.Common.Text.{Text}
use decyra_api.Pii.Spans.{sorted}
use decyra_api.Invitations.{
  Invitation, Workspace, Member, Directory, first_row, membership_rows, older,
  current_user_membership, invitable_roles, manager_org, insert_invitation, create_invitation,
  revoke_invitation, revoke, open_invitation, first_workspace, insert_user, join_workspace,
  is_taken, founded, found_organization, onboard_user, standard_workspace,
}
use decyra_api.Invitations.Lifecycle.{Step, creates, revokes, onboards, waits, Steps, stop, step}
use decyra_api.Invitations.Rows.{Stands}
use decyra_api.World.{Outcome-cases}
use decyra_api.Invitations.References.{
  Referenced, first_workspace-Stands, Stands-last, Stands-append, rows_of-last, rows_of-new,
}

-- A request leaves the memberships of the user and the foreign key as they are.
pub record Same (user_id : Text) (d e : Directory) : Type 0 where
  pub rows : membership_rows e user_id ≡ membership_rows d user_id
  pub referenced : Referenced e

module _ (d : Directory) (refs : Referenced d) where
  pub joined-Referenced :
      (m : Member)
      → Stands d.workspaces m.workspace_id
      → All (λ (n : Member). Stands d.workspaces n.workspace_id) (d.members ++ m ∷ [])
  joined-Referenced m h = All-append _ d.members (m ∷ []) refs (h, tt)

  pub founded-Referenced :
      (user_id email org_id ws_id : Text) (users : List (Text × Text))
      → Referenced (founded d user_id email org_id ws_id users)
  unfolding founded
  founded-Referenced user_id email org_id ws_id users =
      let w : Workspace = record {
        id = ws_id;
        organization_id = org_id;
        name = standard_workspace;
        created_at = d.now;
      } in
      All-append _ d.members _
        (All-map _ _ d.members
          (λ (m : Member) h. Stands-append d.workspaces (w ∷ []) m.workspace_id h) refs)
        (Stands-last d.workspaces w, tt)

  module _ (user_id : Text) where
    Same-refl : Same user_id d d
    Same-refl = record { rows = refl; referenced = refs }

    create-Same :
        (v email role token : Text) → Same user_id d (create_invitation d v email role token).1
    unfolding create_invitation insert_invitation membership_rows
    create-Same v email role token = elim (Outcome-cases (manager_org d v)) [
      | inl (e, q) ↦ rw (q, create_invitation) Same-refl
      | inr (org, q) ↦ elim (Bool-cases (contains invitable_roles role)) [
        | inl t ↦ rw (q, t, create_invitation) (record { rows = refl; referenced = refs })
        | inr t ↦ rw (q, t, create_invitation) Same-refl
      ]
    ]

    revoke-Same : (v token : Text) → Same user_id d (revoke d v token).1
    unfolding revoke revoke_invitation membership_rows
    revoke-Same v token = elim (Outcome-cases (manager_org d v)) [
      | inl (e, q) ↦ rw (q, revoke) Same-refl
      | inr (org, q) ↦ elim (Bool-cases (revoke_invitation d token org).0) [
        | inl t ↦ rw (q, t, revoke) (record { rows = refl; referenced = refs })
        | inr t ↦ rw (q, t, revoke) Same-refl
      ]
    ]

    join-Same :
        (v : Text) (inv : Invitation) (o : Option (List (Text × Text))) (w : Option Workspace)
        → (v == user_id) ≡ false
        → ((x : Workspace) → w ≡ some x → Stands d.workspaces x.id)
        → Same user_id d (join_workspace d v inv o w).1
    unfolding join_workspace membership_rows
    join-Same v inv none w other stands = Same-refl
    join-Same v inv (some users) none other stands = Same-refl
    join-Same v inv (some users) (some w) other stands = record {
      rows = rows_of-last d.workspaces d.members _ user_id other;
      referenced = joined-Referenced _ (stands w refl);
    }

    founded-Same :
        (v email org_id ws_id : Text) (users : List (Text × Text))
        → (v == user_id) ≡ false
        → is_taken d org_id ws_id ≡ false
        → Same user_id d (founded d v email org_id ws_id users)
    unfolding founded membership_rows
    founded-Same v email org_id ws_id users other fresh = record {
      rows =
          rows_of-last _ d.members _ user_id other
          ∙ rows_of-new d.workspaces _ d.members user_id (no_second _ _ fresh) refs;
      referenced = founded-Referenced v email org_id ws_id users;
    }
      where
        no_second : (a b : Bool) → (a || b) ≡ false → b ≡ false
        no_second a b h = ground (arith, h)

    found-Same :
        (v email org_id ws_id : Text) (o : Option (List (Text × Text)))
        → (v == user_id) ≡ false
        → Same user_id d (found_organization d v email org_id ws_id o).1
    unfolding found_organization
    found-Same v email org_id ws_id none other = Same-refl
    found-Same v email org_id ws_id (some users) other =
        elim (Bool-cases (is_taken d org_id ws_id)) [
          | inl t ↦ rw (t, found_organization) Same-refl
          | inr t ↦ rw (t, found_organization) (founded-Same v email org_id ws_id users other t)
        ]

    -- A user without a membership is not this one.
    other_user :
        (v : Text) (row : Workspace × Member)
        → current_user_membership d user_id ≡ some row
        → current_user_membership d v ≡ none
        → (v == user_id) ≡ false
    other_user v row known unknown = elim (Bool-cases (v == user_id)) [
      | inl e ↦
          let same : v ≡ user_id = (list_beq_iff v user_id).0 e in
          let none_is_some : none ≡ some row =
            sym unknown ∙ (ap (current_user_membership d) same ∙ known) in
          absurd (none_not_some row none_is_some)
      | inr e ↦ e
    ]
      where
        none_not_some : (row : Workspace × Member) → none ≡ some row → ⊥
        none_not_some row h = cc

    onboard-Same :
        (row : Workspace × Member)
        → current_user_membership d user_id ≡ some row
        → (v email org_id ws_id : Text) → Same user_id d (onboard_user d v email org_id ws_id).1
    unfolding onboard_user
    onboard-Same row known v email org_id ws_id =
        elim (Option-cases (current_user_membership d v)) [
          | inr (there, e) ↦ rw (e, onboard_user) Same-refl
          | inl unknown ↦
              let other = other_user v row known unknown in
              elim (Option-cases (open_invitation d email)) [
                | inl none_open ↦
                    rw (unknown, none_open, onboard_user)
                      (found-Same v email org_id ws_id (insert_user v email d.users) other)
                | inr (inv, opened) ↦
                    rw (unknown, opened, onboard_user)
                      (join-Same v inv (insert_user v email d.users)
                        (first_workspace d inv.organization_id) other
                        (λ x e. first_workspace-Stands d inv.organization_id x e))
              ]
        ]

Step-Same :
    {d e : Directory} (user_id : Text) (row : Workspace × Member)
    → Referenced d
    → current_user_membership d user_id ≡ some row
    → Step d e
    → Same user_id d e
unfolding membership_rows
Step-Same {d} user_id row refs known (creates v email role token) =
    create-Same d refs user_id v email role token
Step-Same {d} user_id row refs known (revokes v token) = revoke-Same d refs user_id v token
Step-Same {d} user_id row refs known (onboards v email org_id ws_id) =
    onboard-Same d refs user_id row known v email org_id ws_id
Step-Same {d} user_id row refs known (waits seconds) = record { rows = refl; referenced = refs }

-- The same rows give the same membership.
membership_of :
    (d e : Directory) (user_id : Text)
    → membership_rows e user_id ≡ membership_rows d user_id
    → current_user_membership e user_id ≡ current_user_membership d user_id
unfolding current_user_membership
membership_of d e user_id h = ap (λ rows. first_row (sorted older rows)) h

-- A membership that was found stays, along all requests of all users.
pub Steps-membership :
    {d e : Directory} (user_id : Text) (row : Workspace × Member)
    → Referenced d
    → current_user_membership d user_id ≡ some row
    → Steps d e
    → current_user_membership e user_id ≡ some row
Steps-membership user_id row refs known (stop d) = known
Steps-membership user_id row refs known (step {d} {e} {f} s more) =
    let same = Step-Same user_id row refs known s in
    Steps-membership user_id row same.referenced (membership_of d e user_id same.rows ∙ known) more
