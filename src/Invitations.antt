-- ===== src/Invitations.antt =====
-- app/invitations.py, the endpoints of app/main.py that use it, and the functions of
-- alembic/versions/b8e4f2a16c9d_invitations.py: who belongs to which organisation.
pub mod Rows
pub mod References
pub mod Membership
pub mod Onboarding
pub mod Kept
pub mod Lifecycle
use decyra_api.Common.{
  ℕ, ◌+◌, ◌*◌, Bool, true, false, not, ◌&&◌, ◌||◌, Option, none, some, List, [], ◌∷◌, ◌++◌, map,
  ◌==◌, nat_eq, list_eq, contains, lookup, if◌then◌else◌, keep_if, any, concat, leb, ltb, length,
}
use decyra_api.Common.Text.{Text, codes}
use decyra_api.Pii.Placeholder.{take_while}
use decyra_api.Pii.Spans.{sorted}
use decyra_api.World.{Exc, http, unhandled, Outcome, ok, raised}

pub data InvitationStatus : Type 0 where
  pending accepted expired revoked : InvitationStatus

abbrev pub is_pending : InvitationStatus → Bool
is_pending pending = true
is_pending accepted = false
is_pending expired = false
is_pending revoked = false

-- `gen_random_uuid()` gives no id twice: the ids of the invitations are numbers, counted up.
pub record Invitation : Type 0 where
  pub id : ℕ
  pub organization_id : Text
  pub email : Text
  pub role : Text
  pub token : Text
  pub invited_by : Text
  pub status : InvitationStatus
  pub created_at : ℕ
  pub expires_at : ℕ

pub record Workspace : Type 0 where
  pub id : Text
  pub organization_id : Text
  pub name : Text
  pub created_at : ℕ

pub record Member : Type 0 where
  pub workspace_id : Text
  pub user_id : Text
  pub role : Text

-- The tables, and `now()` in seconds.
pub record Directory : Type 0 where
  pub users : List (Text × Text)
  pub organizations : List (Text × Text)
  pub workspaces : List Workspace
  pub members : List Member
  pub invitations : List Invitation
  pub now : ℕ

-- `LIMIT 1`
abbrev pub first_row {ℓ} : {A : Type ℓ} → List A → Option A
first_row [] = none
first_row (x ∷ xs) = some x

-- `JOIN workspaces w ON w.id = m.workspace_id`, for one member.
abbrev pub joined_rows : List Workspace → Member → List (Workspace × Member)
joined_rows workspaces m =
    map (λ w. (w, m)) (keep_if (λ (w : Workspace). w.id == m.workspace_id) workspaces)

unfoldable pub membership_rows : Directory → Text → List (Workspace × Member)
membership_rows d user_id =
    concat
      (map (joined_rows d.workspaces) (keep_if (λ (m : Member). m.user_id == user_id) d.members))

abbrev pub older : Workspace × Member → Workspace × Member → Bool
older (v, m) (w, n) = leb v.created_at w.created_at

-- `current_user_membership`
unfoldable pub current_user_membership : Directory → Text → Option (Workspace × Member)
unfolding membership_rows sorted
current_user_membership d user_id = first_row (sorted older (membership_rows d user_id))

-- `MANAGER_ROLES` and `INVITABLE_ROLES`
abbrev pub manager_roles : List Text
manager_roles = codes "owner" ∷ codes "admin" ∷ []

abbrev pub invitable_roles : List Text
invitable_roles = codes "admin" ∷ codes "user" ∷ []

-- `resolve_membership`, `require_role`, and the organisation of the member.
unfoldable pub manager_org : Directory → Text → Outcome Text
unfolding current_user_membership
manager_org d user_id = elim (current_user_membership d user_id) [
  | none ↦ raised (http 403)
  | some (w, m) ↦ if contains manager_roles m.role then ok w.organization_id else raised (http 403)
]

-- `interval '7 days'`
abbrev pub invitation_ttl : ℕ
invitation_ttl = 7 * 86400

unfoldable pub insert_invitation : Directory → Text → Text → Text → Text → Text → Directory
insert_invitation d org_id email role invited_by token = record d {
  invitations =
      d.invitations
      ++ record {
        id = length d.invitations;
        organization_id = org_id;
        email = email;
        role = role;
        token = token;
        invited_by = invited_by;
        status = pending;
        created_at = d.now;
        expires_at = d.now + invitation_ttl;
      }
        ∷ [];
}

-- `POST /invitations`. The token is drawn by `secrets.token_urlsafe`; the answer does not depend on whether
-- the mail can be sent.
unfoldable pub create_invitation : Directory → Text → Text → Text → Text → Outcome Text × Directory
unfolding manager_org insert_invitation
create_invitation d user_id email role token = elim (manager_org d user_id) [
  | raised e ↦ (raised e, d)
  | ok org ↦
      if contains invitable_roles role
      then (ok token, insert_invitation d org email role user_id token)
      else (raised (http 400), d)
]

abbrev pub newer_first : Invitation → Invitation → Bool
newer_first i j = leb j.created_at i.created_at

-- `list_pending_invitations`, and the endpoint that calls it.
unfoldable pub list_pending_invitations : Directory → Text → List Invitation
list_pending_invitations d org_id =
    sorted newer_first (
      keep_if (λ (i : Invitation). is_pending i.status && i.organization_id == org_id)
        d.invitations)

unfoldable pub list_invitations : Directory → Text → Outcome (List Invitation)
unfolding manager_org list_pending_invitations
list_invitations d user_id = elim (manager_org d user_id) [
  | raised e ↦ raised e
  | ok org ↦ ok (list_pending_invitations d org)
]

-- `UPDATE invitations SET status = … WHERE …`
unfoldable pub set_status :
    (Invitation → Bool) → InvitationStatus → List Invitation → List Invitation
set_status p s [] = []
set_status p s (i ∷ is) = (if p i then record i { status = s } else i) ∷ set_status p s is

abbrev pub revocable : Text → Text → Invitation → Bool
revocable token org_id i = i.token == token && is_pending i.status && i.organization_id == org_id

unfoldable pub revoke_invitation : Directory → Text → Text → Bool × Directory
unfolding set_status
revoke_invitation d token org_id = (
  any (revocable token org_id) d.invitations,
  record d { invitations = set_status (revocable token org_id) revoked d.invitations },
)

-- `POST /invitations/{token}/revoke`
unfoldable pub revoke : Directory → Text → Text → Outcome (Unit {0}) × Directory
unfolding manager_org revoke_invitation
revoke d user_id token = elim (manager_org d user_id) [
  | raised e ↦ (raised e, d)
  | ok org ↦
      let (found, d') = revoke_invitation d token org in
      if found then (ok tt, d') else (raised (http 404), d)
]

pub record OnboardingResult : Type 0 where
  pub workspace_id : Text
  pub workspace_name : Text
  pub created : Bool

-- The invitation that a user with the address takes up.
abbrev pub open_for : ℕ → Text → Invitation → Bool
open_for now email i = i.email == email && is_pending i.status && ltb now i.expires_at

unfoldable pub open_invitation : Directory → Text → Option Invitation
unfolding sorted
open_invitation d email =
    first_row (sorted newer_first (keep_if (open_for d.now email) d.invitations))

abbrev pub older_workspace : Workspace → Workspace → Bool
older_workspace v w = leb v.created_at w.created_at

unfoldable pub first_workspace : Directory → Text → Option Workspace
unfolding sorted
first_workspace d org_id =
    first_row (
      sorted older_workspace
        (keep_if (λ (w : Workspace). w.organization_id == org_id) d.workspaces))

-- `INSERT INTO users … ON CONFLICT (id) DO NOTHING`. An address that another user has raises, as the column
-- is UNIQUE: `none`.
unfoldable pub insert_user : Text → Text → List (Text × Text) → Option (List (Text × Text))
insert_user user_id email users = elim (lookup user_id users) [
  | some e ↦ some users
  | none ↦
      if any (λ (u : Text × Text). u.1 == email) users
      then none
      else some (users ++ (user_id, email) ∷ [])
]

-- The invited path, given what the INSERT of the user made of the users, and the workspace found: without
-- one the INSERT of the member fails. A statement that fails leaves the tables as they were.
unfoldable pub join_workspace :
    Directory
    → Text
    → Invitation
    → Option (List (Text × Text))
    → Option Workspace
    → Outcome OnboardingResult × Directory
unfolding set_status
join_workspace d user_id inv none w = (raised unhandled, d)
join_workspace d user_id inv (some users) none = (raised unhandled, d)
join_workspace d user_id inv (some users) (some w) = (
  ok (record { workspace_id = w.id; workspace_name = w.name; created = false }),
  record d {
    users = users;
    members = d.members ++ record { workspace_id = w.id; user_id = user_id; role = inv.role } ∷ [];
    invitations = set_status (λ i. i.id == inv.id) accepted d.invitations;
  },
)

abbrev pub standard_workspace : Text
standard_workspace = codes "Standard-Workspace"

-- One of the ids is the primary key of a row that there is.
abbrev pub is_taken : Directory → Text → Text → Bool
is_taken d org_id ws_id =
    any (λ (o : Text × Text). o.0 == org_id) d.organizations
    || any (λ (w : Workspace). w.id == ws_id) d.workspaces

-- The rows of the founder path.
unfoldable pub founded : Directory → Text → Text → Text → Text → List (Text × Text) → Directory
unfolding take_while
founded d user_id email org_id ws_id users = record d {
  users = users;
  organizations =
      d.organizations
      ++ (org_id, take_while (λ c. not (c == b'@')) email ++ codes "s Organisation") ∷ [];
  workspaces =
      d.workspaces
      ++ record {
        id = ws_id;
        organization_id = org_id;
        name = standard_workspace;
        created_at = d.now;
      }
        ∷ [];
  members =
      d.members ++ record { workspace_id = ws_id; user_id = user_id; role = codes "owner" } ∷ [];
}

-- The founder path; the ids are the next that `gen_random_uuid()` returns.
unfoldable pub found_organization :
    Directory
    → Text
    → Text
    → Text
    → Text
    → Option (List (Text × Text))
    → Outcome OnboardingResult × Directory
unfolding founded
found_organization d user_id email org_id ws_id none = (raised unhandled, d)
found_organization d user_id email org_id ws_id (some users) =
    if is_taken d org_id ws_id then (raised unhandled, d) else (
      ok (record { workspace_id = ws_id; workspace_name = standard_workspace; created = true }),
      founded d user_id email org_id ws_id users,
    )

-- `onboard_user`
unfoldable pub onboard_user :
    Directory → Text → Text → Text → Text → Outcome OnboardingResult × Directory
unfolding current_user_membership open_invitation first_workspace insert_user join_workspace
    found_organization
onboard_user d user_id email org_id ws_id = elim (current_user_membership d user_id) [
  | some (w, m) ↦ (ok (record { workspace_id = w.id; workspace_name = w.name; created = false }), d)
  | none ↦ elim (open_invitation d email) [
    | some inv ↦
        join_workspace d user_id inv (insert_user user_id email d.users)
          (first_workspace d inv.organization_id)
    | none ↦ found_organization d user_id email org_id ws_id (insert_user user_id email d.users)
  ]
]
