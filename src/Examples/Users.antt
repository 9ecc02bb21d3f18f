-- ===== src/Examples/Users.antt =====
-- Authentication at a concrete header.
use decyra_api.Common.{◌≡◌, refl, none, some, ◌==◌, nat_eq, list_eq, if◌then◌else◌}
use decyra_api.Common.Text.{codes}
use decyra_api.Auth.{AuthenticatedUser, verified, invalid, Keys, AuthSettings, get_current_user}
use decyra_api.Auth.Users.{Evidence, get_current_user-Evidence}
use decyra_api.World.{ok}

-- One token is good, and its key is found.
abbrev one_key : Keys
one_key = record {
  signing_key = λ url token. some (codes "k");
  decode = λ token key audience issuer.
      if token == codes "t1" then verified (some (codes "ada")) none else invalid;
}

abbrev auth_settings : AuthSettings
auth_settings = record {
  supabase_url = some (codes "https://s");
  supabase_jwt_audience = codes "authenticated";
  supabase_jwt_issuer = none;
}

abbrev ada : AuthenticatedUser
ada = record { user_id = codes "ada"; email = none }

ada_is_known : get_current_user one_key auth_settings (some (codes "BEARER t1")) ≡ ok ada
unfolding get_current_user
ada_is_known = refl

get_current_user-Evidence_example : Evidence one_key auth_settings (some (codes "BEARER t1")) ada
get_current_user-Evidence_example =
    get_current_user-Evidence one_key auth_settings (some (codes "BEARER t1")) ada ada_is_known
