-- ===== src/Invitations/Lifecycle.antt =====
-- The life of an invitation, along every sequence of requests.
use decyra_api.Common.{
  ℕ, ◌+◌, ◌≡◌, inl, inr, Option, none, some, List, ◌==◌, nat_eq, list_eq, contains, arith,
  Bool-cases, Option-cases,
}
use decyra_api.Common.Text.{Text}
use decyra_api.Invitations.{
  pending, accepted, revoked, Invitation, Directory, current_user_membership, invitable_roles,
  manager_org, insert_invitation, create_invitation, revocable, revoke_invitation, revoke,
  open_invitation, first_workspace, join_workspace, founded, found_organization, onboard_user,
  Workspace, insert_user, is_taken,
}
use decyra_api.World.{Outcome-cases}
use decyra_api.Invitations.Kept.{
  NumberedFrom, AllKept, OnPending, Occurs, AllKept-refl, AllKept-trans, AllKept-append,
  set_status-AllKept, set_status-NumberedFrom, append-NumberedFrom, is_pending-pending,
  open_invitation-pending, by_id-OnPending,
}

-- A request that can change the tables, or time that passes.
pub data Step (d : Directory) : Directory → Type 0 where
  creates :
      (user_id email role token : Text) → Step d (create_invitation d user_id email role token).1
  revokes : (user_id token : Text) → Step d (revoke d user_id token).1
  onboards :
      (user_id email org_id ws_id : Text) → Step d (onboard_user d user_id email org_id ws_id).1
  waits : (seconds : ℕ) → Step d (record d { now = d.now + seconds })

pub data Steps : Directory → Directory → Type 0 where
  stop : (d : Directory) → Steps d d
  step : {d e f : Directory} → Step d e → Steps e f → Steps d f

-- What a request does to the table.
record Sound (d e : Directory) : Type 0 where
  pub numbered : NumberedFrom 0 e.invitations
  pub kept : AllKept d.invitations e.invitations

Sound-refl : (d : Directory) → NumberedFrom 0 d.invitations → Sound d d
Sound-refl d h = record { numbered = h; kept = AllKept-refl d.invitations }

module _ (d : Directory) (h : NumberedFrom 0 d.invitations) where
  insert-Sound :
      (org email role user_id token : Text)
      → Sound d (insert_invitation d org email role user_id token)
  unfolding insert_invitation
  insert-Sound org email role user_id token = record {
    numbered = append-NumberedFrom 0 d.invitations _ h (omega arith);
    kept = AllKept-append d.invitations _;
  }

  create-Sound :
      (user_id email role token : Text) → Sound d (create_invitation d user_id email role token).1
  unfolding create_invitation
  create-Sound user_id email role token = elim (Outcome-cases (manager_org d user_id)) [
    | inl (e, q) ↦ rw (q, create_invitation) (Sound-refl d h)
    | inr (org, q) ↦ elim (Bool-cases (contains invitable_roles role)) [
      | inl t ↦ rw (q, t, create_invitation) (insert-Sound org email role user_id token)
      | inr t ↦ rw (q, t, create_invitation) (Sound-refl d h)
    ]
  ]

  revocable-OnPending : (token org : Text) → OnPending (revocable token org) d.invitations
  revocable-OnPending token org n i e p = is_pending-pending i.status (ground (arith, p))

  revoke_invitation-Sound : (token org : Text) → Sound d (revoke_invitation d token org).1
  unfolding revoke_invitation
  revoke_invitation-Sound token org = record {
    numbered = set_status-NumberedFrom (revocable token org) revoked 0 d.invitations h;
    kept =
        set_status-AllKept (revocable token org) revoked d.invitations
          (revocable-OnPending token org);
  }

  revoke-Sound : (user_id token : Text) → Sound d (revoke d user_id token).1
  unfolding revoke
  revoke-Sound user_id token = elim (Outcome-cases (manager_org d user_id)) [
    | inl (e, q) ↦ rw (q, revoke) (Sound-refl d h)
    | inr (org, q) ↦ elim (Bool-cases (revoke_invitation d token org).0) [
      | inl t ↦ rw (q, t, revoke) (revoke_invitation-Sound token org)
      | inr t ↦ rw (q, t, revoke) (Sound-refl d h)
    ]
  ]

  join-Sound :
      (user_id : Text) (inv : Invitation) (o : Option (List (Text × Text))) (w : Option Workspace)
      → inv.status ≡ pending
      → Occurs d.invitations inv
      → Sound d (join_workspace d user_id inv o w).1
  unfolding join_workspace
  join-Sound user_id inv none w p occurs = Sound-refl d h
  join-Sound user_id inv (some users) none p occurs = Sound-refl d h
  join-Sound user_id inv (some users) (some w) p occurs = record {
    numbered = set_status-NumberedFrom (λ i. i.id == inv.id) accepted 0 d.invitations h;
    kept =
        set_status-AllKept (λ i. i.id == inv.id) accepted d.invitations
          (by_id-OnPending d.invitations inv h p occurs);
  }

  found-Sound :
      (user_id email org_id ws_id : Text) (o : Option (List (Text × Text)))
      → Sound d (found_organization d user_id email org_id ws_id o).1
  unfolding found_organization founded
  found-Sound user_id email org_id ws_id none = Sound-refl d h
  found-Sound user_id email org_id ws_id (some users) =
      elim (Bool-cases (is_taken d org_id ws_id)) [
        | inl t ↦ rw (t, found_organization) (Sound-refl d h)
        | inr t ↦
            rw (t, found_organization) (record { numbered = h; kept = AllKept-refl d.invitations })
      ]

  onboard-Sound :
      (user_id email org_id ws_id : Text) → Sound d (onboard_user d user_id email org_id ws_id).1
  unfolding onboard_user
  onboard-Sound user_id email org_id ws_id =
      elim (Option-cases (current_user_membership d user_id)) [
        | inr (row, e) ↦ rw (e, onboard_user) (Sound-refl d h)
        | inl unknown ↦ elim (Option-cases (open_invitation d email)) [
          | inl none_open ↦
              rw (unknown, none_open, onboard_user)
                (found-Sound user_id email org_id ws_id (insert_user user_id email d.users))
          | inr (inv, opened) ↦
              let (p, occurs) = open_invitation-pending d email inv opened in
              rw (unknown, opened, onboard_user)
                (join-Sound user_id inv (insert_user user_id email d.users)
                  (first_workspace d inv.organization_id) p occurs)
        ]
      ]

Step-Sound : {d e : Directory} → NumberedFrom 0 d.invitations → Step d e → Sound d e
Step-Sound {d} h (creates user_id email role token) = create-Sound d h user_id email role token
Step-Sound {d} h (revokes user_id token) = revoke-Sound d h user_id token
Step-Sound {d} h (onboards user_id email org_id ws_id) =
    onboard-Sound d h user_id email org_id ws_id
Step-Sound {d} h (waits seconds) = record { numbered = h; kept = AllKept-refl d.invitations }

-- Along every sequence of requests no invitation is deleted or moved, none changes its organisation,
-- address, role, token or expiry, and only one that is pending changes its status: an invitation that was
-- revoked is never accepted, and one that was accepted is never accepted again.
pub Steps-AllKept :
    {d e : Directory}
    → NumberedFrom 0 d.invitations
    → Steps d e
    → AllKept d.invitations e.invitations
Steps-AllKept h (stop d) = AllKept-refl d.invitations
Steps-AllKept h (step {d} {e} {f} s more) =
    let sound = Step-Sound h s in
    AllKept-trans d.invitations e.invitations f.invitations sound.kept
      (Steps-AllKept sound.numbered more)
