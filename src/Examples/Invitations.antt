-- ===== src/Examples/Invitations.antt =====
-- Invitations and onboarding at a concrete directory.
use decyra_api.Common.{◌≡◌, refl, inl, ◌+◌, false, [], ◌∷◌}
use decyra_api.Common.Text.{codes}
use decyra_api.Invitations.{pending, Directory, onboard_user, create_invitation, revoke}
use decyra_api.Invitations.Kept.{AllKept}
use decyra_api.Invitations.Lifecycle.{
  Steps, stop, step, creates, revokes, onboards, waits, Steps-AllKept,
}
use decyra_api.Invitations.Onboarding.{StaysThere, onboard_user-StaysThere}
use decyra_api.World.{ok, raised, unhandled}

abbrev some_directory : Directory
some_directory = record {
  users = (codes "ada", codes "ada@x") ∷ [];
  organizations = (codes "org", codes "X") ∷ [];
  workspaces =
      record { id = codes "ws"; organization_id = codes "org"; name = codes "W"; created_at = 1 }
      ∷ [];
  members = record { workspace_id = codes "ws"; user_id = codes "ada"; role = codes "owner" } ∷ [];
  invitations =
      record {
        id = 0;
        organization_id = codes "org";
        email = codes "bob@x";
        role = codes "user";
        token = codes "t";
        invited_by = codes "ada";
        status = pending;
        created_at = 2;
        expires_at = 100;
      }
      ∷ [];
  now = 5;
}

-- The invited user joins the workspace of the organisation.
bob_joins :
    (onboard_user some_directory (codes "bob") (codes "bob@x") (codes "o2") (codes "w2")).0
    ≡ ok (record { workspace_id = codes "ws"; workspace_name = codes "W"; created = false })
unfolding onboard_user
bob_joins = refl

-- Another user with the address of the first is refused.
same_address :
    (onboard_user some_directory (codes "eve") (codes "ada@x") (codes "o2") (codes "w2")).0
    ≡ raised unhandled
unfolding onboard_user
same_address = refl

-- Bob joins, an admin invites Carl, Carl founds an organisation under another address, and a week goes by.
abbrev bob_joined : Directory
bob_joined = (onboard_user some_directory (codes "bob") (codes "bob@x") (codes "o2") (codes "w2")).1

abbrev carl_invited : Directory
carl_invited =
    (create_invitation bob_joined (codes "ada") (codes "carl@x") (codes "user") (codes "t2")).1

abbrev carl_founded : Directory
carl_founded =
    (onboard_user carl_invited (codes "carl") (codes "carl@y") (codes "o3") (codes "w3")).1

abbrev week_later : Directory
week_later = record carl_founded { now = carl_founded.now + 604800 }

abbrev busy_week : Steps bob_joined week_later
busy_week = step (creates (codes "ada") (codes "carl@x") (codes "user") (codes "t2")) (
    step (onboards (codes "carl") (codes "carl@y") (codes "o3") (codes "w3"))
      (step (waits 604800) (stop week_later)))

onboard_user-StaysThere_example :
    StaysThere week_later
      (codes "bob")
      (record { workspace_id = codes "ws"; workspace_name = codes "W"; created = false })
unfolding onboard_user
onboard_user-StaysThere_example =
    onboard_user-StaysThere some_directory bob_joined week_later (codes "bob") (codes "bob@x")
      (codes "o2") (codes "w2")
      (record { workspace_id = codes "ws"; workspace_name = codes "W"; created = false })
      (inl refl, tt) refl busy_week

-- The invitation is revoked, and then the user is onboarded.
abbrev after_revoking : Directory
after_revoking = (revoke some_directory (codes "ada") (codes "t")).1

abbrev after_both : Directory
after_both = (onboard_user after_revoking (codes "bob") (codes "bob@x") (codes "o2") (codes "w2")).1

abbrev two_steps : Steps some_directory after_both
two_steps =
    step (revokes (codes "ada") (codes "t"))
      (step (onboards (codes "bob") (codes "bob@x") (codes "o2") (codes "w2")) (stop after_both))

Steps-AllKept_example : AllKept some_directory.invitations after_both.invitations
Steps-AllKept_example = Steps-AllKept {d = some_directory} {e = after_both} (refl, tt) two_steps
